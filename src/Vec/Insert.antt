-- ===== src/Vec/Insert.antt =====
-- src/utl_vec.c: `vecset` and `vecins` against operations on the list of items.
use clibutl.Prelude.{
  ℕ, ◌+◌, ◌≤◌, ◌<◌, ◌≡◌, ◌≢◌, ◌⊎◌, ◌∙◌, refl, sym, ap, true, List, Option, some, length, take,
  get_elem?, max, inl, inr, arith, get_elem?-take, get_elem?-set_self, get_elem?-set_ne,
  take-of_take, length-take,
}
use clibutl.Prelude.Fault.{Ends, Ends-map}
use clibutl.Vec.Slots.{Allocator}
use clibutl.Vec.Defs.{Vec, items, or_at, vec_set, vecset}
use clibutl.Vec.Growth.{IsValid, IsAffordable, HasRoom, max-lt}
use clibutl.Vec.Array.{put, put-IsValid, Refused, SetTo, set-SetTo}

module _ {ℓ} {A : Type ℓ} where
  pub with_elm : (v : Vec A) (e : A) → IsValid v → IsValid (record v { elm = e })
  with_elm v e valid = omega arith

  pub HasRoom-items :
      {os : Allocator A} {v u : Vec A} (n k : ℕ)
      → HasRoom os v n true u
      → k ≤ v.max
      → take k u.vec ≡ take k v.vec
  HasRoom-items {v = v} {u = u} n k h le = take-of_take k v.max u.vec v.vec le h.kept

  pub items_same :
      {os : Allocator A} {v u : Vec A} (n : ℕ)
      → IsValid v
      → HasRoom os v n true u
      → items u ≡ items v
  items_same {v = v} {u = u} n valid h =
      ap (λ (x : Vec A). take x.cnt u.vec) h.rest ∙ HasRoom-items n v.cnt h valid.count

  pub length-items : (v : Vec A) → IsValid v → length (items v) ≡ v.cnt
  length-items v valid = omega (arith, length-take v.cnt v.vec, valid.slots, valid.count)

  -- The items `xs` with `e` at position `k`: the others are as before, and a position past the end
  -- extends the vector to it.
  pub record Written (xs : List A) (k : ℕ) (e : A) (w : Vec A) : Type ℓ where
    pub valid : IsValid w
    pub count : w.cnt ≡ max (length xs) (k + 1)
    pub here : get_elem? (items w) k ≡ some e
    pub others : (j : ℕ) → j ≢ k → j < length xs → get_elem? (items w) j ≡ get_elem? xs j

  put-Written :
      {os : Allocator A} (v u : Vec A) (k : ℕ)
      → IsValid v
      → HasRoom os v k true u
      → Written (items v) k v.elm (put u k)
  put-Written v u k valid h = record {
    valid = put-IsValid u k h.valid (h.room refl);
    count = count;
    here =
        get_elem?-take (put u k).cnt (put u k).vec k (omega (arith, count))
        ∙ get_elem?-set_self u.vec k u.elm (omega (arith, h.room refl, h.valid.slots))
        ∙ ap some elm_same;
    others = λ j ne lt.
        get_elem?-take (put u k).cnt (put u k).vec j (omega (arith, count))
        ∙ get_elem?-set_ne u.vec u.elm (λ e. ne (sym e))
        ∙ sym (get_elem?-take v.cnt u.vec j (omega (arith, length-items v valid)))
        ∙ ap (λ xs. get_elem? xs j) (HasRoom-items k v.cnt h valid.count);
  }
    where
      cnt_same : u.cnt ≡ v.cnt
      cnt_same = ap (λ (x : Vec A). x.cnt) h.rest

      elm_same : u.elm ≡ v.elm
      elm_same = ap (λ (x : Vec A). x.elm) h.rest

      count : (put u k).cnt ≡ max (length (items v)) (k + 1)
      count = ground (arith, h.room refl, cnt_same, max-lt h.valid, length-items v valid)

module _ {ℓ} {A : Type ℓ} (os : Allocator A) (v : Vec A) (i : ℕ) (e : A) where
  -- `vecset` at any position writes the element there and changes no other item; a position past
  -- the end extends the vector to it. It returns NULL only where the buffer is too small and `realloc`
  -- refuses a larger one, and then nothing but the spare element has changed. No slot outside the buffer is touched.
  pub vecset_lem :
      IsValid v
      → IsAffordable v (or_at i v.cnt)
      → Ends (vecset os v i e) (λ r.
        Refused os (record v { elm = e }) (or_at i v.cnt) r.0 r.1
        ⊎ ((r.0 ≡ some (or_at i v.cnt)) × Written (items v) (or_at i v.cnt) e r.1))
  unfolding vecset
  vecset_lem valid afford =
      Ends-map (SetTo os (record v { elm = e }) (or_at i v.cnt)) _
        (vec_set os (record v { elm = e }) i) step
        (set-SetTo os (record v { elm = e }) i (with_elm v e valid) afford)
    where
      step :
          (r : Option ℕ × Vec A)
          → SetTo os (record v { elm = e }) (or_at i v.cnt) r
          → Refused os (record v { elm = e }) (or_at i v.cnt) r.0 r.1
            ⊎ ((r.0 ≡ some (or_at i v.cnt)) × Written (items v) (or_at i v.cnt) e r.1)
      step (p, w) (inl refused) = inl refused
      step (p, w) (inr (u, h, found, same)) =
          inr (found, rw same (put-Written (record v { elm = e }) u _ (with_elm v e valid) h))
