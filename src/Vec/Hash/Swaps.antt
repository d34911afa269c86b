-- ===== src/Vec/Hash/Swaps.antt =====
-- src/utl_vec.c: the swaps of `utl_vec_hsh_set`, by which an element goes back towards its home.
use mathlib.Core.Path.{subst}
use native.Mathlib.Nat.{mod-lt}
use clibutl.Prelude.{
  ℕ, suc, ◌+◌, ◌-◌, ◌%◌, ◌<◌, ◌≡◌, ◌≢◌, ◌∙◌, refl, sym, ap, true, List, some, length, length-set,
  set, ltb, ◌==◌, u32_max, Bool-cases, inl, inr, arith,
}
use clibutl.Prelude.Fault.{◌>>=◌}
use clibutl.Vec.Slots.{store}
use clibutl.Vec.Hash.{Layout}
use clibutl.Vec.Hash.Probe.{step_from, step_from-suc, slot, IsUsed, IsWay}
use clibutl.Vec.Hash.Count.{used, used-set}
use clibutl.Vec.Hash.Placing.{
  Covers, slot-set_self, slot-set_ne, Reached, Covers-Reached, Standing, put-Covers, way, val_used,
  step_back, suc-ne,
}

module _ {ℓ} {A : Type ℓ} (bytes : Layout A) (max : ℕ) where
  open bytes use {stored, free}

  -- An element is in one of the slots.
  abbrev pub In : List A → A → Type ℓ
  In tab y = (q : ℕ) × (q < max) × (slot bytes tab q ≡ y)

  -- Two tables of the same elements.
  abbrev pub SameElements : (tab tab' : List A) → Type ℓ
  SameElements tab tab' = ((y : A) → In tab y → In tab' y) × ((y : A) → In tab' y → In tab y)

  module _ (h : ℕ) (val : A) (real : h < u32_max) (hashed : stored val ≡ h) (delta p : ℕ)
      (tab : List A) (s : Standing bytes max h (suc delta) p val tab) where
    -- The slot before, its element, and the table with the two swapped.
    abbrev pub prv : ℕ
    prv = (p + max - 1) % max

    abbrev pub x : A
    x = slot bytes tab prv

    abbrev pub moved : List A
    moved = set tab p x

    abbrev pub swapped : List A
    swapped = set moved prv val

    behind : prv ≡ step_from max h delta
    behind =
        ap (λ k. (k + max - 1) % max) s.at
        ∙ step_back bytes max h delta (omega (arith, s.table.several))

    pub next : (prv + 1) % max ≡ p
    next = ap (λ k. (k + 1) % max) behind ∙ step_from-suc max h delta ∙ sym s.at

    pub prv_inside : prv < max
    prv_inside = mod-lt (p + max - 1) (omega (arith, s.table.several))

    p_inside : p < max
    p_inside =
        (let lt : step_from max h (suc delta) < max =
            mod-lt (h + suc delta) (omega (arith, s.table.several)) in
          omega (arith, lt, s.at))

    apart : prv ≢ p
    apart e = suc-ne bytes max prv s.table.several prv_inside (next ∙ sym e)

    x-IsUsed : IsUsed bytes tab prv
    x-IsUsed e = s.path delta (omega arith) (ap (λ k. stored (slot bytes tab k)) (sym behind) ∙ e)

    swapped-Covers : Covers bytes max tab swapped
    swapped-Covers q used =
        put-Covers bytes max moved prv val
          (omega (arith, length-set tab p x, s.table.sized, prv_inside))
          (val_used bytes max h val real hashed) q
          (put-Covers bytes max tab p x (omega (arith, s.table.sized, p_inside)) x-IsUsed q used)

    at_prv : slot bytes swapped prv ≡ val
    at_prv =
        slot-set_self bytes max moved prv val
          (omega (arith, length-set tab p x, s.table.sized, prv_inside))

    at_p : slot bytes swapped p ≡ x
    at_p =
        slot-set_ne bytes max moved prv p val
          (omega (arith, length-set tab p x, s.table.sized, prv_inside)) apart
        ∙ slot-set_self bytes max tab p x (omega (arith, s.table.sized, p_inside))

    elsewhere : (q : ℕ) → prv ≢ q → p ≢ q → slot bytes swapped q ≡ slot bytes tab q
    elsewhere q ne ne' =
        slot-set_ne bytes max moved prv q val
          (omega (arith, length-set tab p x, s.table.sized, prv_inside)) ne
        ∙ slot-set_ne bytes max tab p q x (omega (arith, s.table.sized, p_inside)) ne'

    path : IsWay bytes max swapped h delta
    path i lt = swapped-Covers (step_from max h i) (s.path i (omega arith))

    x-Reached : Reached bytes max swapped p
    x-Reached =
        let (n, there, way_to) = s.table.probed prv prv_inside x-IsUsed in
        way bytes max swapped p (suc n) (stored x) x at_p refl
          (sym (step_from-suc max (stored x) n) ∙ ap (λ k. (k + 1) % max) there ∙ next)
          (λ i lt. swapped-Covers (step_from max (stored x) i) (elim (Bool-cases (ltb i n)) [
            | inl before ↦ way_to i (ground arith)
            | inr last ↦
                let same : n ≡ i = ground arith in
                λ e. x-IsUsed (
                  ap (λ k. stored (slot bytes tab k))
                    (sym there ∙ ap (λ k. step_from max (stored x) k) same)
                  ∙ e)
          ]))

    reached : (q : ℕ) → q < max → IsUsed bytes swapped q → Reached bytes max swapped q
    reached q lt used = elim (Bool-cases (prv == q)) [
      | inl here ↦
          let same : prv ≡ q = ground arith in
          way bytes max swapped q delta h val (ap (λ k. slot bytes swapped k) (sym same) ∙ at_prv)
            hashed (sym behind ∙ same) path
      | inr other ↦ elim (Bool-cases (p == q)) [
        | inl here ↦
            (let same : p ≡ q = ground arith in
              subst (λ k. Reached bytes max swapped k) same x-Reached)
        | inr away ↦
            let kept : slot bytes swapped q ≡ slot bytes tab q =
              elsewhere q (ground arith) (ground arith) in
            Covers-Reached bytes max tab swapped q q swapped-Covers kept
              (s.table.probed q lt (λ e. used (ap stored kept ∙ e)))
      ]
    ]

    pub swapped-Standing : Standing bytes max h delta prv val swapped
    swapped-Standing = record {
      table = record {
        sized = length-set moved prv val ∙ length-set tab p x ∙ s.table.sized;
        several = s.table.several;
        small = s.table.small;
        probed = reached;
      };
      there = at_prv;
      at = behind;
      path = path;
    }

    pub swapped-In : (y : A) → In tab y → In swapped y
    swapped-In y (q, lt, e) = elim (Bool-cases (prv == q)) [
      | inl here ↦
          (let same : prv ≡ q = ground arith in
            (p, p_inside, at_p ∙ ap (λ k. slot bytes tab k) same ∙ e))
      | inr other ↦ elim (Bool-cases (p == q)) [
        | inl here ↦
            (let same : p ≡ q = ground arith in
              (prv, prv_inside, at_prv ∙ sym s.there ∙ ap (λ k. slot bytes tab k) same ∙ e))
        | inr away ↦ (q, lt, elsewhere q (ground arith) (ground arith) ∙ e)
      ]
    ]

    pub In-swapped : (y : A) → In swapped y → In tab y
    In-swapped y (q, lt, e) = elim (Bool-cases (prv == q)) [
      | inl here ↦
          (let same : prv ≡ q = ground arith in
            (p, p_inside, s.there ∙ sym at_prv ∙ ap (λ k. slot bytes swapped k) same ∙ e))
      | inr other ↦ elim (Bool-cases (p == q)) [
        | inl here ↦
            (let same : p ≡ q = ground arith in
              (prv, prv_inside, sym at_p ∙ ap (λ k. slot bytes swapped k) same ∙ e))
        | inr away ↦ (q, lt, sym (elsewhere q (ground arith) (ground arith)) ∙ e)
      ]
    ]

    pub used-swapped : used bytes swapped ≡ used bytes tab
    used-swapped =
        let first = used-set bytes tab p x (omega (arith, s.table.sized, p_inside)) in
        let second =
          used-set bytes moved prv val
            (omega (arith, length-set tab p x, s.table.sized, prv_inside)) in
        let was : slot bytes tab p ≡ val = s.there in
        let is : slot bytes moved prv ≡ x =
          slot-set_ne bytes max tab p prv x (omega (arith, s.table.sized, p_inside))
            (λ e. apart (sym e)) in
        omega (arith, rw was at first, rw is at second)

    -- One round of the loop that does not end it.
    pub swap_step : (store tab p x >>= λ m. store m prv val) ≡ some swapped
    swap_step =
        let first : ltb p (length tab) ≡ true = ground (arith, p_inside, s.table.sized) in
        let second : ltb prv (length moved) ≡ true =
          ground (arith, prv_inside, s.table.sized, length-set tab p x) in
        rw first (rw second refl)
