-- ===== src/Vec/Stack.antt =====
-- src/utl_vec.h: reading an element, and the vector as a stack.
use clibutl.Prelude.{
  ℕ, ◌+◌, ◌-◌, ◌≤◌, ◌<◌, ◌≡◌, ◌⊎◌, ◌∙◌, refl, sym, ap, ap₂, false, [], ◌∷◌, ◌++◌, Option, some,
  length, take, ltb, get_or, get_elem?-eq-get_or, get_or-take, get_or-past, get_or-append_end,
  take-append_left, take-take, take-all, drop-all, length-append, sub32, u32_max, Bool-cases, inl,
  inr, arith,
}
use clibutl.Prelude.Fault.{Ends, Ends-map}
use clibutl.Vec.Slots.{Allocator}
use clibutl.Vec.Defs.{Vec, items, or_at, vec_get, vecget, vecins, vecpush, vectop, vecdrop}
use clibutl.Vec.Growth.{IsValid, IsAffordable, max-lt}
use clibutl.Vec.Array.{Refused}
use clibutl.Vec.Insert.{length-items}
use clibutl.Vec.Gap.{insert_at, InsertedTo, vecins_lem}

module _ {ℓ} {A : Type ℓ} where
  -- `vecget` gives the item at a position, at `vec_MAX_CNT` the last one, and the default where there
  -- is none. It leaves its result in the spare element and changes nothing else.
  pub vecget_lem :
      (v : Vec A) (i : ℕ) (d : A)
      → IsValid v
      → Ends
          (vecget v i d)
          (λ r. (r.0 ≡ get_or (items v) (or_at i (v.cnt - 1)) d) × (r.1 ≡ record v { elm = r.0 }))
  unfolding vecget vec_get
  vecget_lem v i d valid = elim (Bool-cases (ltb (or_at i (sub32 v.cnt 1)) v.cnt)) [
    | inl inside ↦
        let at : or_at i (sub32 v.cnt 1) ≡ or_at i (v.cnt - 1) = ground (arith, max-lt valid) in
        let lt : or_at i (v.cnt - 1) < v.cnt = ground arith in
        rw
          (
            inside,
            at,
            get_elem?-eq-get_or v.vec (or_at i (v.cnt - 1)) d
                (omega (arith, valid.slots, valid.count)),
            Ends,
          )
          (sym (get_or-take v.cnt v.vec (or_at i (v.cnt - 1)) d lt), refl)
    | inr past ↦
        let le : length (items v) ≤ or_at i (v.cnt - 1) =
          ground (arith, max-lt valid, length-items v valid) in
        rw (past, Ends) (sym (get_or-past (items v) (or_at i (v.cnt - 1)) d le), refl)
  ]

  drop_pushed :
      (v w : Vec A) (e : A)
      → IsValid v
      → IsValid w
      → items w ≡ items v ++ (e ∷ [])
      → (w.cnt ≡ v.cnt + 1) × (items (vecdrop w 1) ≡ items v)
  unfolding vecdrop
  drop_pushed v w e valid ok same =
      let count : w.cnt ≡ v.cnt + 1 = omega (
        arith,
        ap length same,
        length-append (items v) (e ∷ []),
        length-items v valid,
        length-items w ok,
      ) in
      let left : (vecdrop w 1).cnt ≡ v.cnt = ground arith in
      (
        count,
        ap (λ n. take n w.vec) left
            ∙ sym (take-take v.cnt w.cnt w.vec (omega arith))
            ∙ ap (take v.cnt) same
            ∙ take-append_left (items v) (e ∷ []) v.cnt (length-items v valid),
      )

  -- At the end insertion is appending.
  pub insert_at-end :
      (v : Vec A) (e : A) → IsValid v → insert_at v.cnt e (items v) ≡ items v ++ (e ∷ [])
  insert_at-end v e valid =
      ap₂ (λ xs ys. xs ++ (e ∷ ys)) (take-all v.cnt (items v) (omega (arith, length-items v valid)))
        (drop-all v.cnt (items v) (omega (arith, length-items v valid)))

  top_pushed :
      (v w : Vec A) (e d : A)
      → IsValid v
      → IsValid w
      → items w ≡ items v ++ (e ∷ [])
      → Ends (vectop w d) (λ t. t.0 ≡ e)
  unfolding vectop
  top_pushed v w e d valid ok same =
      let last : w.cnt - 1 ≡ v.cnt = omega (arith, (drop_pushed v w e valid ok same).0) in
      Ends-map _ _ (vecget w u32_max d)
        (λ t h.
          h.0
          ∙ ap₂ (λ xs n. get_or xs n d) same last
          ∙ get_or-append_end (items v) [] e d v.cnt (length-items v valid))
        (vecget_lem w u32_max d ok)

-- No memory for the push, or the stack with `e` on top.
abbrev pub PushedTo {ℓ} : {A : Type ℓ} → Allocator A → Vec A → (e d : A) → Option ℕ × Vec A → Type ℓ
PushedTo os v e d (p, w) =
    Refused os (record v { elm = e; sorted = false }) (v.cnt + 1) p w
    ⊎ ((p ≡ some v.cnt)
        × IsValid w
        × (items w ≡ items v ++ (e ∷ []))
        × Ends (vectop w d) (λ t. t.0 ≡ e)
        × (items (vecdrop w 1) ≡ items v))

-- The vector as a stack: `vecpush` puts the element at the end, `vectop` gives it back, and
-- `vecdrop` takes it off, which leaves the items of before. Pushing fails only where the buffer is
-- too small and `realloc` refuses a larger one, and changes nothing but the spare element and the
-- mark of a sorted vector.
pub vecpush-vectop {ℓ} :
    {A : Type ℓ} (os : Allocator A) (v : Vec A) (e d : A)
    → IsValid v
    → IsAffordable v (v.cnt + 1)
    → Ends (vecpush os v e) (PushedTo os v e d)
unfolding vecpush
vecpush-vectop {A} os v e d valid afford =
    Ends-map (InsertedTo os (record v { elm = e }) v.cnt) _ (vecins os v u32_max e) step
      (vecins_lem os v u32_max e valid (omega arith) afford)
  where
    step :
        (r : Option ℕ × Vec A) → InsertedTo os (record v { elm = e }) v.cnt r → PushedTo os v e d r
    step (p, w) (inl refused) = inl refused
    step (p, w) (inr (found, ok, inserted)) =
        let same : items w ≡ items v ++ (e ∷ []) = inserted ∙ insert_at-end v e valid in
        inr (found, ok, same, top_pushed v w e d valid ok same, (drop_pushed v w e valid ok same).1)
