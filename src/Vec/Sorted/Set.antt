-- ===== src/Vec/Sorted/Set.antt =====
-- src/utl_vec.c: searching in a sorted set and adding to it.
use Prim.Native.Nat.{Ordering}
use clibutl.Prelude.{
  ℕ, true, ◌+◌, ◌≤◌, ◌<◌, ◌≡◌, ◌≢◌, ◌⊎◌, ◌∙◌, refl, sym, Option, none, some, length, set, ltb, inl,
  inr, arith, u32_max, Bool-cases,
}
use clibutl.Prelude.Fault.{Ends, Ends-bind, Ends-map}
use clibutl.Vec.Slots.{Allocator}
use clibutl.Vec.Defs.{Vec, or_at, vec_ins}
use clibutl.Vec.Growth.{IsAffordable, IsAffordable-lt}
use clibutl.Vec.Gap.{InsertedTo, ins-InsertedTo}
use clibutl.Vec.Sorted.{Place, equal, absent, find_place, search_sorted, add_at, add_sorted}
use clibutl.Vec.Sorted.Bisect.{slot, IsPlace, IsSearchable, find_place-IsPlace}

eq≢gt : Ordering.eq ≢ Ordering.gt
eq≢gt e = cc

eq≢lt : Ordering.eq ≢ Ordering.lt
eq≢lt e = cc

module _ {ℓ} {A : Type ℓ} (cmp : A → A → Ordering) (v : Vec A) (s : IsSearchable cmp v) where
  -- The slot of an element equal to the one that is searched, or none where there is no such.
  abbrev pub Searched : Option ℕ → Type 0
  Searched none = (i : ℕ) → i < v.cnt → cmp v.elm (slot cmp v i) ≢ Ordering.eq
  Searched (some k) = (k < v.cnt) × (cmp v.elm (slot cmp v k) ≡ Ordering.eq)

  -- The search in a vector whose elements are in the order of its comparison gives the slot of an
  -- element that compares equal, and NULL where there is none. It ends, and reads only elements.
  pub search_sorted_lem : v.cmp ≡ some cmp → Ends (search_sorted v) Searched
  unfolding search_sorted
  search_sorted_lem e =
      Ends-bind (IsPlace cmp v) Searched (find_place v) _ (find_place-IsPlace cmp v s e) found
    where
      found :
          (p : Place)
          → IsPlace cmp v p
          → Ends (some (elim p [ equal k ↦ some k | absent lo ↦ none ])) Searched
      found (equal k) h = h
      found (absent lo) h = λ i lt same. elim (Bool-cases (ltb i lo)) [
        | inl below ↦ absurd (eq≢gt (sym same ∙ h.1 i (ground arith)))
        | inr above ↦ absurd (eq≢lt (sym same ∙ h.2 i (ground arith) lt))
      ]

  -- What adding does: an element that compares equal is replaced, or else the new one is put between
  -- the smaller and the greater ones. NULL is returned only where the buffer is too small and
  -- `realloc` refuses a larger one.
  abbrev pub AddedTo : (os : Allocator A) → Option ℕ × Vec A → Type ℓ
  AddedTo os (p, w) =
      ((k : ℕ) × (k < v.cnt)
        × (cmp v.elm (slot cmp v k) ≡ Ordering.eq)
        × (p ≡ some k)
        × (w ≡ record v { vec = set v.vec k v.elm }))
      ⊎ ((k : ℕ) × (k ≤ v.cnt)
          × ((i : ℕ) → i < k → cmp v.elm (slot cmp v i) ≡ Ordering.gt)
          × ((i : ℕ) → k ≤ i → i < v.cnt → cmp v.elm (slot cmp v i) ≡ Ordering.lt)
          × InsertedTo os v k (p, w))

  -- Adding to a vector whose elements are in the order of its comparison replaces an element that
  -- compares equal to the new one, or else inserts the new one behind all smaller and before all greater ones;
  -- it fails only where the buffer is too small and `realloc` refuses a larger one.
  pub add_sorted_lem :
      (os : Allocator A)
      → v.cmp ≡ some cmp
      → IsAffordable v (v.cnt + 1)
      → Ends (add_sorted os v) (AddedTo os)
  unfolding add_sorted add_at
  add_sorted_lem os e afford =
      Ends-bind (IsPlace cmp v) (AddedTo os) (find_place v) (add_at os v)
        (find_place-IsPlace cmp v s e) step
    where
      step : (p : Place) → IsPlace cmp v p → Ends (add_at os v p) (AddedTo os)
      step (equal k) (lt, same) =
          let fits : ltb k (length v.vec) ≡ true = ground (arith, s.valid.slots, s.valid.count) in
          rw (fits, Ends) (inl (k, lt, same, refl, refl))
      step (absent k) (le, below, above) =
          let small : k < u32_max =
            omega (arith, IsAffordable-lt os v (v.cnt + 1) s.valid afford) in
          let at : or_at k v.cnt ≡ k = ground arith in
          Ends-map (InsertedTo os v (or_at k v.cnt)) (AddedTo os) (vec_ins os v k)
            (λ r h. inr (k, le, below, above, rw⁻¹ at h))
            (ins-InsertedTo os v k s.valid (rw at le) afford)
