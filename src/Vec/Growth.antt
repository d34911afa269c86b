-- ===== src/Vec/Growth.antt =====
-- src/utl_vec.c, `utl_vec_makeroom`: its loop ends, and there is room for the position asked for.
use native.Mathlib.Nat.{le_refl, mul-le-mul, mul-le-mul_right, mul-div_cancel}
use clibutl.Prelude.{
  ℕ, zero, suc, ◌+◌, ◌*◌, ◌/◌, ◌≤◌, ◌<◌, ◌≡◌, ◌∙◌, refl, Bool, true, false, List, none, some,
  length, take, leb, ltb, u32_mod, mul32, mul32_exact, Bool-cases, Option-cases, inl, inr, arith,
  take-all,
}
use clibutl.Prelude.Fault.{Ends, Ends-bind}
use clibutl.Vec.Slots.{Allocator}
use clibutl.Vec.Defs.{Vec, grown, grow, regrow, makeroom}

grown_bounds :
    (m n : ℕ) → 0 < m → m ≤ n → n + n / 2 + 1 < u32_mod → (m < grown m) × (grown m ≤ n + n / 2 + 1)
grown_bounds m n p h w = omega arith

-- The loop stops above `n`, by less than half of it, within `n + 2 - m` rounds.
pub grow_lem :
    (fuel m n : ℕ)
    → 0 < m
    → m ≤ n + n / 2 + 1
    → n + n / 2 + 1 < u32_mod
    → n + 1 < fuel + m
    → 0 < fuel
    → Ends (grow fuel m n) (λ r. (n < r) × (m ≤ r) × (r ≤ n + n / 2 + 1))
unfolding grow
grow_lem zero m n p b w f z = absurd (omega arith)
grow_lem (suc fuel) m n p b w f z = elim (Bool-cases (leb m n)) [
  | inl more ↦ ground (arith, grown_bounds m n, grow_lem fuel (grown m) n)
  | inr done ↦ ground arith
]

-- The invariant of the buffer: `max` slots, which `max * esz` bytes hold with no wrap.
pub record IsValid {ℓ} {A : Type ℓ} (v : Vec A) : Type 0 where
  pub slots : length v.vec ≡ v.max
  pub count : v.cnt ≤ v.max
  pub positive : 0 < v.max
  pub sized : 0 < v.esz
  pub fits : v.max * v.esz < u32_mod

-- Growth for position `n` asks for fewer bytes than 32 bits count.
abbrev pub IsAffordable {ℓ} : {A : Type ℓ} → Vec A → ℕ → Type 0
IsAffordable v n = (n + n / 2 + 1) * v.esz < u32_mod

-- `max` itself fits in 32 bits.
pub max-lt {ℓ} : {A : Type ℓ} {v : Vec A} → IsValid v → v.max < u32_mod
max-lt {v = v} valid = omega (arith, mul-le-mul (le_refl v.max) valid.sized, valid.fits)

-- `realloc` refuses the buffer a size with the slot `n`, by less than half of `n` larger.
abbrev pub NoMemory {ℓ} : {A : Type ℓ} → Allocator A → Vec A → ℕ → Type ℓ
NoMemory os v n =
    (max : ℕ) × (n < max)
    × (max ≤ n + n / 2 + 1)
    × (os.realloc v.vec (mul32 max v.esz) v.esz ≡ none)

-- What `makeroom` promises: only the buffer changes, it keeps its slots, and on success it has the
-- slot `n`. It fails only where the buffer is too small and `realloc` refuses a larger one.
pub record HasRoom {ℓ} {A : Type ℓ} (os : Allocator A) (v : Vec A) (n : ℕ) (done : Bool)
    (v' : Vec A) : Type ℓ where
  pub rest : v' ≡ record v { vec = v'.vec; max = v'.max }
  pub valid : IsValid v'
  pub larger : v.max ≤ v'.max
  pub kept : take v.max v'.vec ≡ v.vec
  pub room : done ≡ true → n < v'.max
  pub failed : done ≡ false → (v.max ≤ n) × NoMemory os v n × (v' ≡ v)

module _ {ℓ} {A : Type ℓ} (os : Allocator A) where
  regrown-HasRoom :
      (v : Vec A) (n max : ℕ) (vec : List A)
      → IsValid v
      → IsAffordable v n
      → n < max
      → v.max ≤ max
      → max ≤ n + n / 2 + 1
      → os.realloc v.vec (mul32 max v.esz) v.esz ≡ some vec
      → HasRoom os v n true (record v { vec = vec; max = max })
  regrown-HasRoom v n max vec valid afford lt le bound e = record {
    rest = refl;
    valid = record {
      slots = os.length-realloc _ _ _ _ e ∙ size;
      count = omega arith;
      positive = omega arith;
      sized = valid.sized;
      fits = fits;
    };
    larger = le;
    kept =
        os.take-realloc _ _ _ _ v.max e (omega (arith, valid.slots)) (omega (arith, size))
        ∙ take-all v.max v.vec (omega (arith, valid.slots));
    room = λ _. lt;
    failed = λ h. cc;
  }
    where
      fits : max * v.esz < u32_mod
      fits = omega (arith, mul-le-mul_right v.esz bound)

      size : mul32 max v.esz / v.esz ≡ max
      size = rw (mul32_exact max v.esz fits) (mul-div_cancel max valid.sized)

  kept-HasRoom : (v : Vec A) (n : ℕ) → IsValid v → n < v.max → HasRoom os v n true v
  kept-HasRoom v n valid lt = record {
    rest = refl;
    valid = valid;
    larger = omega arith;
    kept = take-all v.max v.vec (omega (arith, valid.slots));
    room = λ _. lt;
    failed = λ h. cc;
  }

  refused-HasRoom :
      (v : Vec A) (n : ℕ) → IsValid v → v.max ≤ n → NoMemory os v n → HasRoom os v n false v
  refused-HasRoom v n valid le refused = record {
    rest = refl;
    valid = valid;
    larger = omega arith;
    kept = take-all v.max v.vec (omega (arith, valid.slots));
    room = λ h. cc;
    failed = λ _. (le, refused, refl);
  }

  regrow-HasRoom :
      (v : Vec A) (n max : ℕ)
      → IsValid v
      → IsAffordable v n
      → v.max ≤ n
      → (n < max) × (v.max ≤ max) × (max ≤ n + n / 2 + 1)
      → Ends (regrow os v max) (λ r. HasRoom os v n r.0 r.1)
  unfolding regrow
  regrow-HasRoom v n max valid afford full (lt, le, bound) =
      elim (Option-cases (os.realloc v.vec (mul32 max v.esz) v.esz)) [
        | inl refused ↦
            rw (refused, Ends) (refused-HasRoom v n valid full (max, lt, bound, refused))
        | inr (vec, given) ↦
            rw (given, Ends) (regrown-HasRoom v n max vec valid afford lt le bound given)
      ]

  pub IsAffordable-lt : (v : Vec A) (n : ℕ) → IsValid v → IsAffordable v n → n + n / 2 + 1 < u32_mod
  IsAffordable-lt v n valid afford = omega (arith, mul-le-mul (le_refl (n + n / 2 + 1)) valid.sized)

  -- `utl_vec_makeroom` ends on a valid vector where the sizes fit 32 bits. It keeps every slot and
  -- the invariant, and it gives room for the slot asked for; it fails only where the buffer is too
  -- small and `realloc` refuses a larger one, and the vector is then as it was.
  pub makeroom-HasRoom :
      (v : Vec A) (n : ℕ)
      → IsValid v
      → IsAffordable v n
      → Ends (makeroom os v n) (λ r. HasRoom os v n r.0 r.1)
  unfolding makeroom
  makeroom-HasRoom v n valid afford = elim (Bool-cases (ltb n v.max)) [
    | inl enough ↦ rw (enough, Ends) (kept-HasRoom v n valid (ground arith))
    | inr full ↦
        let le : v.max ≤ n = ground arith in
        rw (full, Ends)
          (Ends-bind _ (λ r. HasRoom os v n r.0 r.1) (grow (suc n) v.max n) (regrow os v)
            (grow_lem (suc n) v.max n valid.positive (omega arith)
              (IsAffordable-lt v n valid afford) (omega (arith, valid.positive)) (omega arith))
            λ max b. regrow-HasRoom v n max valid afford le b)
  ]
