-- ===== src/Vec/Sorted/Bisect.antt =====
-- src/utl_vec.c: the loop of the binary search.
use Prim.Native.Nat.{Ordering}
use native.Mathlib.Nat.{le_refl, mul-le-mul, mul-le-mul_right}
use clibutl.Prelude.{
  ℕ, zero, suc, ◌+◌, ◌-◌, ◌*◌, ◌/◌, ◌≤◌, ◌<◌, ◌≡◌, ◌≢◌, refl, true, some, get_or,
  get_elem?-eq-get_or, leb, ltb, Bool-cases, inl, inr, arith,
}
use clibutl.Prelude.Fault.{Ends}
use clibutl.Vec.Defs.{Vec}
use clibutl.Vec.Growth.{IsValid}
use clibutl.Vec.Sorted.{int32_mod, Place, equal, absent, element, bisect, find_place}

-- A comparison that goes along with an order.
pub record IsOrder {ℓ} {A : Type ℓ} (cmp : A → A → Ordering) : Type ℓ where
  pub lt_before :
      (a b c : A) → cmp a b ≡ Ordering.lt → cmp b c ≢ Ordering.gt → cmp a c ≡ Ordering.lt
  pub gt_behind :
      (a b c : A) → cmp a c ≡ Ordering.gt → cmp b c ≢ Ordering.gt → cmp a b ≡ Ordering.gt

module _ {ℓ} {A : Type ℓ} (cmp : A → A → Ordering) (v : Vec A) where
  -- The element of a slot.
  abbrev pub slot : ℕ → A
  slot i = get_or v.vec i v.elm

  -- The elements of the vector are in order.
  abbrev pub IsAscending : Type 0
  IsAscending = (i j : ℕ) → i < j → j < v.cnt → cmp (slot i) (slot j) ≢ Ordering.gt

  -- What is known of the elements before `lo`, and of those from `top` on.
  record Bounded (lo top : ℕ) : Type 0 where
    below : (i : ℕ) → i < lo → cmp v.elm (slot i) ≡ Ordering.gt
    above : (i : ℕ) → top ≤ i → i < v.cnt → cmp v.elm (slot i) ≡ Ordering.lt

  -- What the search finds: an equal element, or the place between the smaller and the greater ones.
  abbrev pub IsPlace : Place → Type 0
  IsPlace (equal k) = (k < v.cnt) × (cmp v.elm (slot k) ≡ Ordering.eq)
  IsPlace (absent p) =
      (p ≤ v.cnt)
      × ((i : ℕ) → i < p → cmp v.elm (slot i) ≡ Ordering.gt)
      × ((i : ℕ) → p ≤ i → i < v.cnt → cmp v.elm (slot i) ≡ Ordering.lt)

  -- A vector whose elements are less than 2 GB.
  pub record IsSearchable : Type ℓ where
    pub valid : IsValid v
    pub small : v.cnt * v.esz < int32_mod
    pub order : IsOrder cmp
    pub ascending : IsAscending

  module _ (s : IsSearchable) where
    element-slot : (mid : ℕ) → mid < v.cnt → element v mid ≡ some (slot mid)
    unfolding element
    element-slot mid lt =
        let le : mid * v.esz ≤ v.cnt * v.esz = mul-le-mul_right v.esz (omega arith) in
        let fits : ltb (mid * v.esz) int32_mod ≡ true = ground (arith, s.small) in
        rw fits (get_elem?-eq-get_or v.vec mid v.elm (omega (arith, s.valid.slots, s.valid.count)))

    lower-Bounded :
        (lo mid top : ℕ)
        → Bounded lo top
        → mid < v.cnt
        → cmp v.elm (slot mid) ≡ Ordering.lt
        → Bounded lo mid
    lower-Bounded lo mid top b lt less = record {
      below = b.below;
      above = λ i le lt'. elim (Bool-cases (ltb mid i)) [
        | inl behind ↦
            s.order.lt_before v.elm (slot mid) (slot i) less (s.ascending mid i (ground arith) lt')
        | inr here ↦ let same : mid ≡ i = ground arith in rw (← same) less
      ];
    }

    upper-Bounded :
        (lo mid top : ℕ)
        → Bounded lo top
        → mid < v.cnt
        → cmp v.elm (slot mid) ≡ Ordering.gt
        → Bounded (suc mid) top
    upper-Bounded lo mid top b lt more = record {
      below = λ i le. elim (Bool-cases (ltb i mid)) [
        | inl before ↦
            s.order.gt_behind v.elm (slot i) (slot mid) more (s.ascending i mid (ground arith) lt)
        | inr here ↦ let same : mid ≡ i = ground arith in rw (← same) more
      ];
      above = b.above;
    }

    bisect-IsPlace :
        (fuel lo top : ℕ)
        → lo ≤ top
        → top ≤ v.cnt
        → top - lo < fuel
        → Bounded lo top
        → Ends (bisect fuel cmp v lo top) IsPlace
    unfolding bisect
    bisect-IsPlace zero lo top le le' few b = absurd (omega arith)
    bisect-IsPlace (suc fuel) lo top le le' few b = elim (Bool-cases (ltb lo top)) [
      | inr done ↦
          let same : lo ≡ top = ground arith in
          rw (done, bisect, Ends) (omega arith, b.below, λ i from lt. b.above i (omega arith) lt)
      | inl more ↦
          let lt : lo < top = ground arith in
          let mid : ℕ = lo + (top - 1 - lo) / 2 in
          let lower : lo ≤ mid = omega arith in
          let upper : mid < top = omega arith in
          rw (more, element-slot mid (omega arith), bisect, Ends)
            (go (λ lo' top' p q r b'. bisect-IsPlace fuel lo' top' p q r b') mid lower upper
              (cmp v.elm (slot mid)) refl)
    ]
      where
        go :
            ((lo' top' : ℕ)
              → lo' ≤ top'
              → top' ≤ v.cnt
              → top' - lo' < fuel
              → Bounded lo' top'
              → Ends (bisect fuel cmp v lo' top') IsPlace)
            → (mid : ℕ) → lo ≤ mid
            → mid < top
            → (o : Ordering) → cmp v.elm (slot mid) ≡ o
            → Ends
                (elim o [
                  | Ordering.eq ↦ some (equal mid)
                  | Ordering.lt ↦ bisect fuel cmp v lo mid
                  | Ordering.gt ↦ bisect fuel cmp v (suc mid) top
                ])
                IsPlace
        go rec mid lower upper Ordering.eq e = (omega arith, e)
        go rec mid lower upper Ordering.lt e =
            rec lo mid lower (omega arith) (omega arith)
              (lower-Bounded lo mid top b (omega arith) e)
        go rec mid lower upper Ordering.gt e =
            rec (suc mid) top (omega arith) le' (omega arith)
              (upper-Bounded lo mid top b (omega arith) e)

    pub find_place-IsPlace : v.cmp ≡ some cmp → Ends (find_place v) IsPlace
    unfolding find_place
    find_place-IsPlace e =
        let count : v.cnt * 1 ≤ v.cnt * v.esz = mul-le-mul (le_refl v.cnt) s.valid.sized in
        let top : leb v.cnt int32_mod ≡ true = ground (arith, s.small) in
        rw (e, top, find_place)
          (bisect-IsPlace (suc v.cnt) 0 v.cnt (omega arith) (le_refl v.cnt) (omega arith) (record {
            below = λ i lt. absurd (omega arith);
            above = λ i le lt. absurd (omega arith);
          }))
