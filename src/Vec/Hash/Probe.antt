-- ===== src/Vec/Hash/Probe.antt =====
-- src/utl_vec.c: probing a hash table from the home slot of a hash value on.
use Prim.Native.Nat.{Ordering}
use native.Mathlib.Nat.{mod-lt, mod-eq_of_lt, mod-add-mod, add-mod_right}
use clibutl.Prelude.{
  ℕ, zero, suc, ◌+◌, ◌-◌, ◌%◌, ◌≤◌, ◌<◌, ◌≡◌, ◌≢◌, ◌∙◌, refl, sym, ap, Bool, true, false, ◌||◌,
  List, Option, none, some, get_elem?, get_or, get_elem?-eq-get_or, length, leb, ltb, ◌==◌, u32_max,
  add32, Bool-cases, if◌then◌else◌, inl, inr, arith,
}
use clibutl.Prelude.Fault.{◌>>=◌, Ends}
use clibutl.Vec.Hash.{Layout, matches, probe, place}

-- The slot `n` steps behind the home of `h`.
abbrev pub step_from : (max h n : ℕ) → ℕ
step_from max h n = (h + n) % max

pub step_from-suc : (max h n : ℕ) → (step_from max h n + 1) % max ≡ step_from max h (suc n)
step_from-suc max h n = mod-add-mod (h + n) max 1 ∙ ap (λ k. k % max) (omega arith)

-- Each slot is some steps behind the home of `h`.
pub steps_to : (max h p : ℕ) → p < max → (n : ℕ) × (n < max) × (step_from max h n ≡ p)
steps_to max h p lt =
    let a : ℕ = h % max in
    let below : a < max = mod-lt h (omega arith) in
    elim (Bool-cases (leb a p)) [
      | inl before ↦
          let sum : a + (p - a) ≡ p = ground arith in
          (
            p - a,
            ground arith,
            sym (mod-add-mod h max (p - a)) ∙ ap (λ k. k % max) sum ∙ mod-eq_of_lt lt,
          )
      | inr behind ↦
          let sum : a + (p + max - a) ≡ p + max = ground arith in
          (
            p + max - a,
            ground arith,
            sym (mod-add-mod h max (p + max - a))
                ∙ ap (λ k. k % max) sum
                ∙ add-mod_right p max
                ∙ mod-eq_of_lt lt,
          )
    ]

module _ {ℓ} {A : Type ℓ} (bytes : Layout A) where
  open bytes use {stored, free}

  abbrev pub slot : List A → ℕ → A
  slot tab p = get_or tab p free

  abbrev pub IsUsed : List A → ℕ → Type 0
  IsUsed tab p = stored (slot tab p) ≢ u32_max

  -- The first `n` slots from the home of `h` on are in use.
  abbrev pub IsWay : (max : ℕ) → List A → (h n : ℕ) → Type 0
  IsWay max tab h n = (i : ℕ) → i < n → IsUsed tab (step_from max h i)

  -- A table of `max` slots: between its home and its slot an element has only slots in use.
  pub record IsTable (max : ℕ) (tab : List A) : Type 0 where
    pub sized : length tab ≡ max
    pub several : 1 < max
    pub small : max < u32_max
    pub probed :
        (p : ℕ)
        → p < max
        → IsUsed tab p
        → (n : ℕ) × (step_from max (stored (slot tab p)) n ≡ p)
          × IsWay max tab (stored (slot tab p)) n

  abbrev pub HasFree : (max : ℕ) → List A → Type 0
  HasFree max tab = (p : ℕ) × (p < max) × (stored (slot tab p) ≡ u32_max)

  module _ (cmp : A → A → Ordering) (h : ℕ) (val : A) (max : ℕ) (tab : List A)
      (sized : length tab ≡ max) (several : 1 < max) (small : max < u32_max) where
    -- The probe ends at such an element: a free slot, or an equal element.
    abbrev pub takes : A → Bool
    takes x = stored x == u32_max || matches bytes cmp h val x

    -- Where the probe ends: `d` slots behind the home, and at none before.
    abbrev pub Placed : ℕ × ℕ → Type 0
    Placed (p, d) =
        (d < max)
        × (p ≡ step_from max h d)
        × (takes (slot tab p) ≡ true)
        × ((i : ℕ) → i < d → takes (slot tab (step_from max h i)) ≡ false)

    pub read : (p : ℕ) → p < max → get_elem? tab p ≡ some (slot tab p)
    read p lt = get_elem?-eq-get_or tab p free (omega arith)

    place-step :
        (fuel pos n : ℕ)
        → pos % max < max
        → place bytes (suc fuel) cmp h val max tab pos n ≡ elim (takes (slot tab (pos % max))) [
          | true ↦ some (pos % max, n)
          | false ↦ place bytes fuel cmp h val max tab (add32 (pos % max) 1) (add32 n 1)
        ]
    unfolding place
    place-step fuel pos n lt = rw (read (pos % max) lt, place) refl

    passed_more :
        (n : ℕ)
        → ((i : ℕ) → i < n → takes (slot tab (step_from max h i)) ≡ false)
        → takes (slot tab (step_from max h n)) ≡ false
        → (i : ℕ) → i < suc n
        → takes (slot tab (step_from max h i)) ≡ false
    passed_more n passed here i lt = elim (Bool-cases (ltb i n)) [
      | inl before ↦ passed i (ground arith)
      | inr last ↦ let same : n ≡ i = ground arith in rw same at here
    ]

    taken-free : (p : ℕ) → stored (slot tab p) ≡ u32_max → takes (slot tab p) ≢ false
    taken-free p e t =
        let unused : (stored (slot tab p) == u32_max) ≡ true = ground arith in
        let taken : takes (slot tab p) ≡ true = rw unused refl in cc

    place-Placed :
        (fuel pos n j : ℕ)
        → pos % max ≡ step_from max h n
        → n ≤ j
        → j < max
        → j - n < fuel
        → stored (slot tab (step_from max h j)) ≡ u32_max
        → ((i : ℕ) → i < n → takes (slot tab (step_from max h i)) ≡ false)
        → Ends (place bytes fuel cmp h val max tab pos n) Placed
    place-Placed zero pos n j e le lt few end passed = absurd (omega arith)
    place-Placed (suc fuel) pos n j e le lt few end passed =
        let p : ℕ = pos % max in
        let inside : p < max = mod-lt pos (omega arith) in
        let on : add32 p 1 ≡ p + 1 = omega arith in
        let count : add32 n 1 ≡ suc n = omega arith in
        elim (Bool-cases (takes (slot tab p))) [
          | inl taken ↦
              rw (place-step fuel pos n inside, taken, Ends) (omega arith, e, taken, passed)
          | inr other ↦
              let there : takes (slot tab (step_from max h n)) ≡ false =
                ap (λ k. takes (slot tab k)) (sym e) ∙ other in
              let next : (p + 1) % max ≡ step_from max h (suc n) =
                ap (λ k. (k + 1) % max) e ∙ step_from-suc max h n in
              let further : n < j = elim (Bool-cases (ltb n j)) [
                | inl before ↦ ground arith
                | inr last ↦
                    let same : j ≡ n = ground arith in
                    absurd (
                      taken-free (step_from max h n)
                        (ap (λ k. stored (slot tab (step_from max h k))) (sym same) ∙ end) there)
              ] in
              rw (place-step fuel pos n inside, other, on, count)
                (place-Placed fuel (p + 1) (suc n) j next (omega arith) lt (omega arith) end
                  (passed_more n passed there))
        ]

    -- With a free slot the probe ends.
    pub place_ends : HasFree max tab → Ends (place bytes (suc max) cmp h val max tab h 0) Placed
    place_ends (f, lt, free_there) =
        let (j, few, there) = steps_to max h f lt in
        let home : h % max ≡ step_from max h 0 = ap (λ k. k % max) (omega arith) in
        place-Placed (suc max) h 0 j home (omega arith) few (omega arith) (rw there free_there)
          (λ i le. absurd (omega arith))

    -- The search goes the same way, and finds nothing where it meets a free slot.
    unfoldable pub found : ℕ × ℕ → Option (Option ℕ)
    found (p, d) = some (if stored (slot tab p) == u32_max then none else some p)

    pub probe-place :
        (fuel pos d : ℕ)
        → probe bytes fuel cmp h val max tab pos
          ≡ (place bytes fuel cmp h val max tab pos d >>= found)
    unfolding probe place found
    probe-place zero pos d = refl
    probe-place (suc fuel) pos d =
        let p : ℕ = pos % max in
        let inside : p < max = mod-lt pos (omega arith) in
        let x : A = slot tab p in
        elim (Bool-cases (stored x == u32_max)) [
          | inl unused ↦
              rw (place-step fuel pos d inside, read p inside, unused, probe)
                (rw (unused, found) refl)
          | inr used ↦ elim (Bool-cases (matches bytes cmp h val x)) [
            | inl equal ↦
                rw (place-step fuel pos d inside, read p inside, used, equal, probe)
                  (rw (used, found) refl)
            | inr other ↦
                rw (place-step fuel pos d inside, read p inside, used, other, probe)
                  (ground (arith, probe-place fuel (add32 p 1) (add32 d 1)))
          ]
        ]
