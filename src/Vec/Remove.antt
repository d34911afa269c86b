-- ===== src/Vec/Remove.antt =====
-- src/utl_vec.c: `utl_vec_delgap`, `utl_vec_del` and `utl_vec_delrange`, removal from the list of
-- items.
use mathlib.Core.List.{append-nil}
use clibutl.Prelude.{
  ℕ, ◌+◌, ◌-◌, ◌≤◌, ◌<◌, ◌≡◌, ◌∙◌, refl, sym, ap, ap₂, Bool, true, false, List, ◌++◌, some, length,
  take, drop, leb, ltb, add32, sub32, u32_mod, Bool-cases, inl, inr, arith, take-all, take-take,
  drop-all, take-shift_down, length-append, length-take, length-drop,
}
use clibutl.Prelude.Fault.{Ends}
use clibutl.Vec.Defs.{Vec, items, delgap}
use clibutl.Vec.Growth.{IsValid, max-lt}
use clibutl.Vec.Insert.{length-items}

-- The list without the `l` elements from position `i` on, as far as there are any.
abbrev pub remove_at {ℓ} : {A : Type ℓ} → (i l : ℕ) → List A → List A
remove_at i l xs = take i xs ++ drop (i + l) xs

module _ {ℓ} {A : Type ℓ} (v : Vec A) (valid : IsValid v) (i l : ℕ) where
  abbrev Removed : Bool × Vec A → Type ℓ
  Removed r = (r.0 ≡ true) × IsValid r.1 × (items r.1 ≡ remove_at i l (items v))

  remove_nothing : v.cnt ≤ i → items v ≡ remove_at i l (items v)
  remove_nothing h =
      let n : length (items v) ≤ i = omega (arith, length-items v valid) in
      let m : length (items v) ≤ i + l = omega (arith, length-items v valid) in
      sym (ap₂ ◌++◌ (take-all i (items v) n) (drop-all (i + l) (items v) m) ∙ append-nil (items v))

  remove_end : i ≤ v.cnt → v.cnt ≤ i + l → take i v.vec ≡ remove_at i l (items v)
  remove_end h k =
      let m : length (items v) ≤ i + l = omega (arith, length-items v valid) in
      sym (
        ap₂ ◌++◌ (take-take i v.cnt v.vec h) (drop-all (i + l) (items v) m)
        ∙ append-nil (take i v.vec))

  -- The buffer after the move of `delgap`.
  abbrev closed : List A
  closed =
      take i v.vec
      ++ (take (v.cnt - (i + l)) (drop (i + l) v.vec) ++ drop (i + (v.cnt - (i + l))) v.vec)

  length-closed : i + l ≤ v.cnt → length closed ≡ v.max
  length-closed h = omega (
    arith,
    valid.slots,
    valid.count,
    length-append (take i v.vec)
        (take (v.cnt - (i + l)) (drop (i + l) v.vec) ++ drop (i + (v.cnt - (i + l))) v.vec),
    length-append (take (v.cnt - (i + l)) (drop (i + l) v.vec))
        (drop (i + (v.cnt - (i + l))) v.vec),
    length-take i v.vec,
    length-take (v.cnt - (i + l)) (drop (i + l) v.vec),
    length-drop (i + l) v.vec,
    length-drop (i + (v.cnt - (i + l))) v.vec,
  )

  remove_inner : i + l ≤ v.cnt → take (v.cnt - l) closed ≡ remove_at i l (items v)
  remove_inner h =
      let k : v.cnt - l ≡ i + (v.cnt - (i + l)) = omega arith in
      let n : i + l + (v.cnt - (i + l)) ≡ v.cnt = omega arith in
      ap (λ c. take c closed) k
      ∙ take-shift_down v.vec i (i + l) (v.cnt - (i + l)) (omega arith) (omega (arith, valid.slots))
      ∙ ap (λ c. remove_at i l (take c v.vec)) n

  -- The test and the move of `delgap`, with no wrap.
  delgap-closed :
      i + l < v.cnt → delgap v i l ≡ some (true, record v { vec = closed; cnt = v.cnt - l })
  unfolding delgap
  delgap-closed h =
      let inside : ltb i v.cnt ≡ true = ground arith in
      let sum : add32 i l ≡ i + l = omega (arith, max-lt valid) in
      let more : leb v.cnt (i + l) ≡ false = ground arith in
      let len : sub32 v.cnt (i + l) ≡ v.cnt - (i + l) = omega (arith, max-lt valid) in
      let cnt : sub32 v.cnt l ≡ v.cnt - l = omega (arith, max-lt valid) in
      let dst : leb (i + (v.cnt - (i + l))) (length v.vec) ≡ true = ground (arith, valid.slots) in
      let src : leb (i + l + (v.cnt - (i + l))) (length v.vec) ≡ true =
        ground (arith, valid.slots) in
      rw (inside, sum, more, len, cnt, dst, src)

  delgap-end :
      i < v.cnt → v.cnt ≤ i + l → i + l < u32_mod → delgap v i l ≡ some (true, record v { cnt = i })
  unfolding delgap
  delgap-end h k w =
      let inside : ltb i v.cnt ≡ true = ground arith in
      let sum : add32 i l ≡ i + l = omega arith in
      let end : leb v.cnt (i + l) ≡ true = ground arith in rw (inside, sum, end)

  delgap-past : v.cnt ≤ i → delgap v i l ≡ some (true, v)
  unfolding delgap
  delgap-past h = let past : ltb i v.cnt ≡ false = ground arith in rw past

  -- Removing the `l` items from position `i` on, with no wrap of `i + l`, leaves the other items in
  -- their order and touches no slot outside the buffer. Positions past the end remove nothing.
  pub delgap-Removed : i + l < u32_mod → Ends (delgap v i l) Removed
  delgap-Removed w = elim (Bool-cases (ltb i v.cnt)) [
    | inr past ↦
        let h : v.cnt ≤ i = ground arith in rw (delgap-past h, Ends) (refl, valid, remove_nothing h)
    | inl inside ↦
        let lt : i < v.cnt = ground arith in
        elim (Bool-cases (leb v.cnt (i + l))) [
          | inl end ↦
              let h : v.cnt ≤ i + l = ground arith in
              rw (delgap-end lt h w, Ends) (refl, omega arith, remove_end (omega arith) h)
          | inr more ↦
              let h : i + l < v.cnt = ground arith in
              rw (delgap-closed h, Ends)
                (refl, omega (arith, length-closed (omega arith)), remove_inner (omega arith))
        ]
  ]

  -- Only the buffer and the count change.
  pub delgap-rest :
      i + l < u32_mod → Ends (delgap v i l) (λ r. r.1 ≡ record v { vec = r.1.vec; cnt = r.1.cnt })
  delgap-rest w = elim (Bool-cases (ltb i v.cnt)) [
    | inr past ↦ rw (delgap-past (let h : v.cnt ≤ i = ground arith in h), Ends) refl
    | inl inside ↦
        let lt : i < v.cnt = ground arith in
        elim (Bool-cases (leb v.cnt (i + l))) [
          | inl end ↦ rw (delgap-end lt (let h : v.cnt ≤ i + l = ground arith in h) w, Ends) refl
          | inr more ↦ rw (delgap-closed (let h : i + l < v.cnt = ground arith in h), Ends) refl
        ]
  ]
