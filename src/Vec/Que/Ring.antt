-- ===== src/Vec/Que/Ring.antt =====
-- Lists read from a slot on and round the end.
use clibutl.Prelude.{
  ℕ, zero, suc, ◌+◌, ◌≤◌, ◌<◌, ◌≡◌, ◌∙◌, refl, sym, ap, ap₂, List, [], ◌∷◌, ◌++◌, some, length,
  take, drop, set, get_elem?, arith, length-append, length-take, length-drop, take-take, drop-all,
}
use clibutl.Vec.Que.Inv.{rotate}

module _ {ℓ} {A : Type ℓ} where
  pub length-rotate : (k : ℕ) (xs : List A) → k ≤ length xs → length (rotate k xs) ≡ length xs
  length-rotate k xs h =
      omega (arith, length-append (drop k xs) (take k xs), length-drop k xs, length-take k xs)

  drop-set_high :
      (xs : List A) (k c : ℕ) (e : A)
      → (drop k (set xs (k + c) e) ≡ set (drop k xs) c e) × (take k (set xs (k + c) e) ≡ take k xs)
  drop-set_high xs zero c e = let h : 0 + c ≡ c = omega arith in (ap (λ i. set xs i e) h, refl)
  drop-set_high [] (suc k) c e = (refl, refl)
  drop-set_high (x ∷ xs) (suc k) c e =
      let h : suc k + c ≡ suc (k + c) = omega arith in
      rw h ((drop-set_high xs k c e).0, ap (λ ys. x ∷ ys) (drop-set_high xs k c e).1)

  drop-set_low :
      (xs : List A) (k j : ℕ) (e : A)
      → j < k
      → (drop k (set xs j e) ≡ drop k xs) × (take k (set xs j e) ≡ set (take k xs) j e)
  drop-set_low xs zero j e h = absurd (omega arith)
  drop-set_low [] (suc k) j e h = (refl, refl)
  drop-set_low (x ∷ xs) (suc k) zero e h = (refl, refl)
  drop-set_low (x ∷ xs) (suc k) (suc j) e h =
      let (p, q) = drop-set_low xs k j e (omega arith) in (p, ap (λ ys. x ∷ ys) q)

  set-append_left :
      (xs ys : List A) (c : ℕ) (e : A) → c < length xs → set (xs ++ ys) c e ≡ set xs c e ++ ys
  set-append_left [] ys c e h = absurd (omega arith)
  set-append_left (x ∷ xs) ys zero e h = refl
  set-append_left (x ∷ xs) ys (suc c) e h =
      ap (λ zs. x ∷ zs) (set-append_left xs ys c e (omega arith))

  set-append_right :
      (xs ys : List A) (j : ℕ) (e : A) → set (xs ++ ys) (length xs + j) e ≡ xs ++ set ys j e
  set-append_right [] ys j e = let h : 0 + j ≡ j = omega arith in ap (λ i. set ys i e) h
  set-append_right (x ∷ xs) ys j e =
      let h : suc (length xs) + j ≡ suc (length xs + j) = omega arith in
      rw h (ap (λ zs. x ∷ zs) (set-append_right xs ys j e))

  -- A write `c` slots behind `k` is a write at `c` of the rotated list: below the end of the buffer,
  -- and round it.
  pub rotate-set_below :
      (xs : List A) (k c : ℕ) (e : A)
      → k + c < length xs
      → rotate k (set xs (k + c) e) ≡ set (rotate k xs) c e
  rotate-set_below xs k c e h =
      ap₂ ◌++◌ (drop-set_high xs k c e).0 (drop-set_high xs k c e).1
      ∙ sym (set-append_left (drop k xs) (take k xs) c e (omega (arith, length-drop k xs)))

  pub rotate-set_round :
      (xs : List A) (k c j : ℕ) (e : A)
      → k ≤ length xs
      → j < k
      → length xs + j ≡ k + c
      → rotate k (set xs j e) ≡ set (rotate k xs) c e
  rotate-set_round xs k c j e le lt h =
      let at : length (drop k xs) + j ≡ c = omega (arith, length-drop k xs) in
      ap₂ ◌++◌ (drop-set_low xs k j e lt).0 (drop-set_low xs k j e lt).1
      ∙ sym (set-append_right (drop k xs) (take k xs) j e)
      ∙ ap (λ i. set (rotate k xs) i e) at

  -- A write behind the first `c` elements is an append.
  pub take-set_append :
      (xs : List A) (c : ℕ) (e : A)
      → c < length xs
      → take (suc c) (set xs c e) ≡ take c xs ++ (e ∷ [])
  take-set_append [] c e h = absurd (omega arith)
  take-set_append (x ∷ xs) zero e h = refl
  take-set_append (x ∷ xs) (suc c) e h = ap (λ ys. x ∷ ys) (take-set_append xs c e (omega arith))

  drop-cons :
      (xs : List A) (k : ℕ)
      → k < length xs
      → (x : A) × (get_elem? xs k ≡ some x) × (drop k xs ≡ x ∷ drop (suc k) xs)
  drop-cons [] k h = absurd (omega arith)
  drop-cons (x ∷ xs) zero h = (x, refl, refl)
  drop-cons (x ∷ xs) (suc k) h = drop-cons xs k (omega arith)

  -- Of what stands behind a list only as much counts as is taken.
  pub take-append_take :
      (ys zs : List A) (k m c : ℕ)
      → c ≤ length ys + k
      → k ≤ m
      → take c (ys ++ take k zs) ≡ take c (ys ++ take m zs)
  take-append_take [] zs k m c h le =
      take-take c k zs (omega arith) ∙ sym (take-take c m zs (omega arith))
  take-append_take (y ∷ ys) zs k m zero h le = refl
  take-append_take (y ∷ ys) zs k m (suc c) h le =
      ap (λ xs. y ∷ xs) (take-append_take ys zs k m c (omega arith) le)

  -- The first of `suc c` elements, and the others, which begin one slot further on or, behind the
  -- last slot, at slot 0.
  pub rotate-first :
      (xs : List A) (k c : ℕ)
      → suc k < length xs
      → suc c ≤ length xs
      → (x : A) × (get_elem? xs k ≡ some x)
        × (take (suc c) (rotate k xs) ≡ x ∷ take c (rotate (suc k) xs))
  rotate-first xs k c h g =
      let (x, found, split) = drop-cons xs k (omega arith) in
      (
        x,
        found,
        ap (λ ys. take (suc c) (ys ++ take k xs)) split
            ∙ ap (λ ys. x ∷ ys)
                (take-append_take (drop (suc k) xs) xs k (suc k) c
                  (omega (arith, length-drop (suc k) xs)) (omega arith)),
      )

  pub rotate-last :
      (xs : List A) (k c : ℕ)
      → suc k ≡ length xs
      → suc c ≤ length xs
      → (x : A) × (get_elem? xs k ≡ some x) × (take (suc c) (rotate k xs) ≡ x ∷ take c xs)
  rotate-last xs k c h g =
      let (x, found, split) = drop-cons xs k (omega arith) in
      (
        x,
        found,
        ap (λ ys. take (suc c) (ys ++ take k xs))
              (split ∙ ap (λ ys. x ∷ ys) (drop-all (suc k) xs (omega arith)))
            ∙ ap (λ ys. x ∷ ys) (take-take c k xs (omega arith)),
      )
