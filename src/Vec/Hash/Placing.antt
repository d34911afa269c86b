-- ===== src/Vec/Hash/Placing.antt =====
-- src/utl_vec.c: an element that is written to the slot where its probe ended.
use Prim.Native.Nat.{Ordering}
use native.Mathlib.Nat.{mod-lt, mod-eq_of_lt, mod-add-mod, add-mod_right}
use clibutl.Prelude.{
  ℕ, zero, suc, ◌+◌, ◌-◌, ◌%◌, ◌<◌, ◌≡◌, ◌≢◌, ◌∙◌, refl, sym, ap, List, [], ◌∷◌, get_or, length,
  length-set, set, ltb, ◌==◌, if◌then◌else◌, u32_max, Bool-cases, inl, inr, arith,
}
use clibutl.Vec.Hash.{Layout}
use clibutl.Vec.Hash.Probe.{step_from, slot, IsUsed, IsWay, IsTable, Placed}

pub get_or-set {ℓ} :
    {A : Type ℓ} (xs : List A) (i j : ℕ) (v d : A)
    → i < length xs
    → get_or (set xs i v) j d ≡ (if i == j then v else get_or xs j d)
get_or-set [] i j v d lt = absurd (omega arith)
get_or-set (x ∷ xs) zero zero v d lt = refl
get_or-set (x ∷ xs) zero (suc j) v d lt = ground arith
get_or-set (x ∷ xs) (suc i) zero v d lt = ground arith
get_or-set (x ∷ xs) (suc i) (suc j) v d lt = ground (arith, get_or-set xs i j v d)

module _ {ℓ} {A : Type ℓ} (bytes : Layout A) (max : ℕ) where
  open bytes use {stored, free}

  -- A table that has an element in each slot where the other one has.
  abbrev pub Covers : (tab tab' : List A) → Type 0
  Covers tab tab' = (q : ℕ) → IsUsed bytes tab q → IsUsed bytes tab' q

  slot-set :
      (tab : List A) (p q : ℕ) (v : A)
      → p < length tab
      → slot bytes (set tab p v) q ≡ (if p == q then v else slot bytes tab q)
  slot-set tab p q v lt = get_or-set tab p q v free lt

  pub slot-set_self :
      (tab : List A) (p : ℕ) (v : A) → p < length tab → slot bytes (set tab p v) p ≡ v
  slot-set_self tab p v lt = ground (arith, slot-set tab p p v)

  pub slot-set_ne :
      (tab : List A) (p q : ℕ) (v : A)
      → p < length tab
      → p ≢ q
      → slot bytes (set tab p v) q ≡ slot bytes tab q
  slot-set_ne tab p q v lt ne = ground (arith, slot-set tab p q v)

  -- The slot of an element, and a way to it from its home.
  abbrev pub Reached : (tab : List A) (p : ℕ) → Type 0
  Reached tab p =
      (n : ℕ) × (step_from max (stored (slot bytes tab p)) n ≡ p)
      × IsWay bytes max tab (stored (slot bytes tab p)) n

  pub Covers-Reached :
      (tab tab' : List A) (p q : ℕ)
      → Covers tab tab'
      → slot bytes tab' p ≡ slot bytes tab p
      → Reached tab p
      → Reached tab' p
  Covers-Reached tab tab' p q covers same (n, there, path) = (
    n,
    ap (λ x. step_from max (stored x) n) same ∙ there,
    λ i lt. covers (step_from max (stored (slot bytes tab' p)) i) (λ e.
        path i lt (ap (λ x. stored (slot bytes tab (step_from max (stored x) i))) (sym same) ∙ e)),
  )

  -- The element `val` of hash value `h` is in slot `p`, `delta` slots behind its home.
  pub record Standing (h delta p : ℕ) (val : A) (tab : List A) : Type ℓ where
    pub table : IsTable bytes max tab
    pub there : slot bytes tab p ≡ val
    pub at : p ≡ step_from max h delta
    pub path : IsWay bytes max tab h delta

  pub put-Covers :
      (tab : List A) (p : ℕ) (v : A)
      → p < length tab
      → stored v ≢ u32_max
      → Covers tab (set tab p v)
  put-Covers tab p v lt real q used e = elim (Bool-cases (p == q)) [
    | inl here ↦
        let same : p ≡ q = ground arith in
        let now : slot bytes (set tab p v) q ≡ v =
          ap (λ k. slot bytes (set tab p v) k) (sym same) ∙ slot-set_self tab p v lt in
        real (ap stored (sym now) ∙ e)
    | inr there ↦ used (ap stored (sym (slot-set_ne tab p q v lt (ground arith))) ∙ e)
  ]

  -- A way of `n` steps to slot `p`, for the element that is there now.
  pub way :
      (tab : List A) (p n h : ℕ) (v : A)
      → slot bytes tab p ≡ v
      → stored v ≡ h
      → step_from max h n ≡ p
      → IsWay bytes max tab h n
      → Reached tab p
  way tab p n h v here hashed there path =
      let home : stored (slot bytes tab p) ≡ h = ap stored here ∙ hashed in
      (
        n,
        ap (λ k. step_from max k n) home ∙ there,
        λ i lt e. path i lt (ap (λ k. stored (slot bytes tab (step_from max k i))) (sym home) ∙ e),
      )

  module _ (h : ℕ) (val : A) (real : h < u32_max) (hashed : stored val ≡ h) where
    pub val_used : stored val ≢ u32_max
    val_used e = absurd (omega arith)

    pub put-Standing :
        (cmp : A → A → Ordering) (tab : List A) (p d : ℕ) (table : IsTable bytes max tab)
        → Placed bytes cmp h val max tab table.sized table.several table.small (p, d)
        → Standing h d p val (set tab p val)
    put-Standing cmp tab p d table (few, at, taken, passed) = record {
      table = record {
        sized = length-set tab p val ∙ table.sized;
        several = table.several;
        small = table.small;
        probed = λ q lt used. elim (Bool-cases (p == q)) [
          | inl here ↦
              let same : p ≡ q = ground arith in
              way (set tab p val) q d h val
                (ap (λ k. slot bytes (set tab p val) k) (sym same) ∙ now) hashed (sym at ∙ same)
                path
          | inr there ↦
              let kept : slot bytes (set tab p val) q ≡ slot bytes tab q =
                slot-set_ne tab p q val inside (ground arith) in
              Covers-Reached tab (set tab p val) q q (put-Covers tab p val inside val_used) kept
                (table.probed q lt (λ e. used (ap stored kept ∙ e)))
        ];
      };
      there = now;
      at = at;
      path = path;
    }
      where
        inside : p < length tab
        inside =
            (let lt : step_from max h d < max = mod-lt (h + d) (omega (arith, table.several)) in
              omega (arith, table.sized, at, lt))

        now : slot bytes (set tab p val) p ≡ val
        now = slot-set_self tab p val inside

        path : IsWay bytes max (set tab p val) h d
        path i lt =
            put-Covers tab p val inside val_used (step_from max h i)
              (λ e. ground (arith, passed i lt))

  pub step_back :
      (h delta : ℕ)
      → 0 < max
      → (step_from max h (suc delta) + max - 1) % max ≡ step_from max h delta
  step_back h delta pos =
      ap (λ k. k % max) (omega arith)
      ∙ mod-add-mod (h + suc delta) max (max - 1)
      ∙ ap (λ k. k % max) (omega arith)
      ∙ add-mod_right (h + delta) max

  pub suc-ne : (r : ℕ) → 1 < max → r < max → (r + 1) % max ≢ r
  suc-ne r several lt e = elim (Bool-cases (ltb (r + 1) max)) [
    | inl inner ↦
        let same : (r + 1) % max ≡ r + 1 = mod-eq_of_lt (ground arith) in
        absurd (omega (arith, same, e))
    | inr last ↦
        let end : r + 1 ≡ max = ground arith in
        let zero_left : (r + 1) % max ≡ 0 =
          ap (λ k. k % max) (let e' : r + 1 ≡ 0 + max = omega arith in e')
          ∙ add-mod_right 0 max
          ∙ mod-eq_of_lt (omega arith) in
        absurd (omega (arith, zero_left, e))
  ]
