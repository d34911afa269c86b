-- ===== src/Vec/Range.antt =====
-- src/utl_vec.c: `utl_vec_del` and `utl_vec_delrange` by their positions, and the range that wraps.
use clibutl.Prelude.{
  ℕ, ◌+◌, ◌-◌, ◌≤◌, ◌<◌, ◌≡◌, ◌⊎◌, refl, true, false, ◌++◌, none, some, take, drop, leb, ltb, add32,
  sub32, u32_mod, u32_max, Bool-cases, if◌then◌else◌, inl, inr, arith,
}
use clibutl.Prelude.Fault.{Ends, Ends-map}
use clibutl.Vec.Defs.{Vec, items, delgap, vec_del, vec_delrange}
use clibutl.Vec.Growth.{IsValid, max-lt}
use clibutl.Vec.Remove.{remove_at, delgap-Removed}

module _ {ℓ} {A : Type ℓ} (v : Vec A) (valid : IsValid v) where
  -- `vecdel` removes the item at a position and keeps the others in order; a position past the end
  -- removes nothing. It succeeds, keeps the invariant and stays inside the buffer.
  pub vec_del_lem :
      (i : ℕ)
      → i < u32_max
      → Ends (vec_del v i) (λ r. (r.0 ≡ true) × IsValid r.1 × (items r.1 ≡ remove_at i 1 (items v)))
  unfolding vec_del
  vec_del_lem i h = delgap-Removed v valid i 1 (omega arith)

  -- `utl_vec_delrange` refuses an empty range, `j < i`, and changes nothing. Any other, up to a last
  -- position below `vec_MAX_CNT`, it removes, both ends included, and it keeps the invariant.
  pub vec_delrange_lem :
      (i j : ℕ)
      → j < u32_max
      → Ends (vec_delrange v i j) (λ r.
        ((j < i) × (r.0 ≡ false) × (r.1 ≡ v))
        ⊎ ((i ≤ j) × (r.0 ≡ true) × IsValid r.1 × (items r.1 ≡ remove_at i (j - i + 1) (items v))))
  unfolding vec_delrange
  vec_delrange_lem i j h = elim (Bool-cases (ltb j i)) [
    | inl empty ↦ rw (empty, Ends) (inl (ground arith, refl, refl))
    | inr some_items ↦
        let le : i ≤ j = ground arith in
        let len : add32 (sub32 j i) 1 ≡ j - i + 1 = omega arith in
        rw (some_items, len)
          (Ends-map _ _ (delgap v i (j - i + 1)) (λ r h. inr (le, h.0, h.1, h.2))
            (delgap-Removed v valid i (j - i + 1) (omega arith)))
  ]

  -- With `vec_MAX_CNT` for the last position the length of the range wraps: instead of removing the
  -- items from `i` on, `utl_vec_delrange` copies all items to position `i` and adds `i` to their
  -- number, and where they do not fit it writes past the buffer.
  pub vec_delrange_wraps :
      (i : ℕ)
      → 0 < i
      → i < v.cnt
      → v.cnt < 0x8000_0000
      → vec_delrange v i u32_max ≡ (
          if leb (i + v.cnt) v.max
          then some (
            true,
            record v {
              vec = take i v.vec ++ (take v.cnt v.vec ++ drop (i + v.cnt) v.vec);
              cnt = v.cnt + i;
            },
          )
          else none)
  unfolding vec_delrange delgap
  vec_delrange_wraps i pos lt small =
      let range : ltb u32_max i ≡ false = ground arith in
      let len : add32 (sub32 u32_max i) 1 ≡ u32_mod - i = omega arith in
      let inside : ltb i v.cnt ≡ true = ground arith in
      let sum : add32 i (u32_mod - i) ≡ 0 = omega arith in
      let more : leb v.cnt 0 ≡ false = ground arith in
      let moved : sub32 v.cnt 0 ≡ v.cnt = omega (arith, max-lt valid) in
      let count : sub32 v.cnt (u32_mod - i) ≡ v.cnt + i = omega arith in
      let src : leb (0 + v.cnt) v.max ≡ true = ground (arith, valid.count) in
      elim (Bool-cases (leb (i + v.cnt) v.max)) [
        | inl fits ↦ rw (range, len, inside, sum, more, moved, count, valid.slots, src, fits)
        | inr over ↦ rw (range, len, inside, sum, more, moved, count, valid.slots, src, over)
      ]
