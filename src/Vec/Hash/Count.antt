-- ===== src/Vec/Hash/Count.antt =====
-- src/utl_vec.c: how many slots of a hash table are in use.
use clibutl.Prelude.{
  ℕ, zero, suc, ◌+◌, ◌≤◌, ◌<◌, ◌≡◌, refl, true, List, [], ◌∷◌, length, set, replicate, ◌==◌,
  if◌then◌else◌, u32_max, Bool-cases, inl, inr, arith,
}
use clibutl.Vec.Hash.{Layout}
use clibutl.Vec.Hash.Probe.{slot}

module _ {ℓ} {A : Type ℓ} (bytes : Layout A) where
  open bytes use {stored, free}

  -- One for an element, none for a free slot.
  abbrev pub weight : A → ℕ
  weight x = if stored x == u32_max then 0 else 1

  unfoldable pub used : List A → ℕ
  used [] = 0
  used (x ∷ xs) = weight x + used xs

  pub used-set :
      (xs : List A) (i : ℕ) (v : A)
      → i < length xs
      → used (set xs i v) + weight (slot bytes xs i) ≡ used xs + weight v
  unfolding used
  used-set [] i v lt = absurd (omega arith)
  used-set (x ∷ xs) zero v lt = omega arith
  used-set (x ∷ xs) (suc i) v lt = omega (arith, used-set xs i v (omega arith))

  pub used-set_le : (xs : List A) (i : ℕ) (v : A) → i < length xs → used (set xs i v) ≤ used xs + 1
  used-set_le xs i v lt = ground (arith, used-set xs i v lt)

  pub used-HasFree :
      (xs : List A)
      → used xs < length xs
      → (p : ℕ) × (p < length xs) × (stored (slot bytes xs p) ≡ u32_max)
  unfolding used
  used-HasFree [] lt = absurd (omega arith)
  used-HasFree (x ∷ xs) lt = elim (Bool-cases (stored x == u32_max)) [
    | inl unused ↦ (0, omega arith, ground arith)
    | inr real ↦
        let (p, inside, e) =
          used-HasFree xs (let w : weight x ≡ 1 = rw real refl in omega (arith, w)) in
        (suc p, omega arith, e)
  ]

  pub used-replicate : (n : ℕ) (x : A) → stored x ≡ u32_max → used (replicate n x) ≡ 0
  unfolding used
  used-replicate zero x e = refl
  used-replicate (suc n) x e =
      let unused : weight x ≡ 0 =
        (let t : (stored x == u32_max) ≡ true = ground arith in rw t refl) in
      omega (arith, unused, used-replicate n x e)
