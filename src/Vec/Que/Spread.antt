-- ===== src/Vec/Que/Spread.antt =====
-- The three ways in which `utl_que_makeroom` moves a full ring into a larger buffer: not at all, its
-- beginning behind its end, and its end to the end of the buffer.
use mathlib.Core.List.{append-nil, append_assoc}
use clibutl.Prelude.{
  ℕ, ◌+◌, ◌-◌, ◌≤◌, ◌≡◌, ◌∙◌, sym, ap, ap₂, List, [], ◌++◌, length, take, drop, arith,
  length-append, length-take, length-drop, take-take, take-all, take-append_left, drop-take,
  drop-all, drop-append_short, drop-append_left,
}
use clibutl.Vec.Que.Inv.{rotate}
use clibutl.Vec.Que.Ring.{take-append_take, length-rotate}

module _ {ℓ} {A : Type ℓ} (ys : List A) where
  -- What `copy` makes of the buffer.
  abbrev pub copied : (dst src n : ℕ) → List A
  copied dst src n = take dst ys ++ (take n (drop src ys) ++ drop (dst + n) ys)

  pub length-copied :
      (dst src n : ℕ)
      → dst + n ≤ length ys
      → src + n ≤ length ys
      → length (copied dst src n) ≡ length ys
  length-copied dst src n p q = omega (
    arith,
    length-append (take dst ys) (take n (drop src ys) ++ drop (dst + n) ys),
    length-append (take n (drop src ys)) (drop (dst + n) ys),
    length-take dst ys,
    length-take n (drop src ys),
    length-drop src ys,
    length-drop (dst + n) ys,
  )

module _ {ℓ} {A : Type ℓ} (xs ys : List A) (kept : take (length xs) ys ≡ xs) where
  take-kept : (k : ℕ) → k ≤ length xs → take k ys ≡ take k xs
  take-kept k h = sym (take-take k (length xs) ys h) ∙ ap (take k) kept

  larger : length xs ≤ length ys
  larger = omega (arith, ap length kept, length-take (length xs) ys)

  pub spread_whole : take (length xs) (rotate 0 ys) ≡ rotate 0 xs
  spread_whole = ap (take (length xs)) (append-nil ys) ∙ kept ∙ sym (append-nil xs)

  pub spread_front :
      (fst : ℕ)
      → fst ≤ length xs
      → take (length xs) (rotate fst (copied ys (length xs) 0 fst)) ≡ rotate fst xs
  spread_front fst h =
      let front : copied ys (length xs) 0 fst ≡ xs ++ (take fst xs ++ rest) =
        ap₂ (λ us vs. us ++ (vs ++ rest)) kept (take-kept fst h) in
      let split : drop fst (xs ++ (take fst xs ++ rest)) ≡ drop fst xs ++ (take fst xs ++ rest) =
        drop-append_short fst xs (take fst xs ++ rest) h in
      let moved : (drop fst xs ++ (take fst xs ++ rest)) ++ behind
          ≡ rotate fst xs ++ (rest ++ behind) =
        simp append_assoc in
      ap (λ zs. take (length xs) (rotate fst zs)) front
      ∙ ap (λ zs. take (length xs) (zs ++ behind)) split
      ∙ ap (take (length xs)) moved
      ∙ take-append_left (rotate fst xs) (rest ++ behind) (length xs) (length-rotate fst xs h)
    where
      rest : List A
      rest = drop (length xs + fst) ys

      behind : List A
      behind = take fst (xs ++ (take fst xs ++ rest))

  pub spread_back :
      (fst d : ℕ)
      → fst ≤ length xs
      → fst ≤ d
      → d + (length xs - fst) ≡ length ys
      → take (length xs) (rotate d (copied ys d fst (length xs - fst))) ≡ rotate fst xs
  spread_back fst d h le e =
      let back : take n (drop fst ys) ≡ drop fst xs =
        sym (drop-take fst (length xs) ys) ∙ ap (drop fst) kept in
      let end : drop (d + n) ys ≡ [] = drop-all (d + n) ys (omega arith) in
      let moved : copied ys d fst n ≡ take d ys ++ drop fst xs =
        ap₂ (λ us vs. take d ys ++ (us ++ vs)) back end
        ∙ ap (λ us. take d ys ++ us) (append-nil (drop fst xs)) in
      let size : length (take d ys) ≡ d = omega (arith, length-take d ys) in
      ap (λ zs. take (length xs) (rotate d zs)) moved
      ∙ ap₂ (λ us vs. take (length xs) (us ++ vs))
          (drop-append_left (take d ys) (drop fst xs) d size)
          (take-append_left (take d ys) (drop fst xs) d size)
      ∙ sym (
          take-append_take (drop fst xs) ys fst d (length xs) (omega (arith, length-drop fst xs))
            le)
      ∙ ap (λ us. take (length xs) (drop fst xs ++ us)) (take-kept fst h)
      ∙ take-all (length xs) (rotate fst xs) (omega (arith, length-rotate fst xs h))
    where
      n : ℕ
      n = length xs - fst
