-- ===== src/Vec/Hash/Insert.antt =====
-- src/utl_vec.c: `utl_vec_hsh_set` keeps a hash table in order, and sets the element in it.
use Prim.Native.Nat.{Ordering}
use native.Mathlib.Nat.{mod-lt}
use clibutl.Prelude.{
  ℕ, zero, suc, ◌+◌, ◌%◌, ◌≤◌, ◌<◌, ◌≡◌, ◌⊎◌, ◌∙◌, refl, sym, ap, true, ◌||◌, List, Option, some,
  get_elem?, get_elem?-eq-get_or, length, set, ltb, ◌==◌, u32_max, sub32, Bool-cases, inl, inr,
  arith,
}
use clibutl.Prelude.Fault.{◌>>=◌, Ends, Ends-bind, Ends-map}
use clibutl.Vec.Slots.{store}
use clibutl.Vec.Hash.{Layout, hash_mod, matches, place, go_back, hsh_set}
use clibutl.Vec.Hash.Count.{used, used-set_le}
use clibutl.Vec.Hash.Probe.{step_from, slot, IsTable, HasFree, Placed, place_ends}
use clibutl.Vec.Hash.Placing.{Standing, put-Standing, slot-set_self, slot-set_ne}
use clibutl.Vec.Hash.Swaps.{
  In, SameElements, prv, x, swapped, prv_inside, next, swapped-In, In-swapped, swapped-Standing,
  used-swapped, swap_step,
}

module _ {ℓ} {A : Type ℓ} (bytes : Layout A) (max : ℕ) where
  open bytes use {stored, free}

  module _ (h : ℕ) (val : A) (real : h < u32_max) (hashed : stored val ≡ h) where
    -- What the loop leaves: a table of the same elements, and a pointer to the element or to the slot
    -- before it.
    abbrev pub Settled : (tab : List A) → ℕ × List A → Type ℓ
    Settled tab (e, tab') =
        IsTable bytes max tab'
        × In bytes max tab' val
        × SameElements bytes max tab tab'
        × (used bytes tab' ≡ used bytes tab)
        × (e < max)
        × ((slot bytes tab' e ≡ val) ⊎ (slot bytes tab' ((e + 1) % max) ≡ val))

    stays-Settled :
        (delta p e : ℕ) (tab : List A)
        → Standing bytes max h delta p val tab
        → p < max
        → e < max
        → (e ≡ p) ⊎ ((e + 1) % max ≡ p)
        → Settled tab (e, tab)
    stays-Settled delta p e tab s lt lt' near = (
      s.table,
      (p, lt, s.there),
      (λ y i. i, λ y i. i),
      refl,
      lt',
      elim near [
        | inl same ↦ inl (ap (λ k. slot bytes tab k) same ∙ s.there)
        | inr next ↦ inr (ap (λ k. slot bytes tab k) next ∙ s.there)
      ],
    )

    after_swap :
        (delta p : ℕ) (tab : List A) (s : Standing bytes max h (suc delta) p val tab)
        (r : ℕ × List A)
        → Settled (swapped bytes max h val real hashed delta p tab s) r
        → Settled tab r
    after_swap delta p tab s (e, tab') (table, there, (into, back), count, lt, near) = (
      table,
      there,
      (
        λ y i. into y (swapped-In bytes max h val real hashed delta p tab s y i),
        λ y i. In-swapped bytes max h val real hashed delta p tab s y (back y i),
      ),
      count ∙ used-swapped bytes max h val real hashed delta p tab s,
      lt,
      near,
    )

    pub go_back-Settled :
        (delta p : ℕ) (tab : List A)
        → Standing bytes max h delta p val tab
        → p < max
        → Ends (go_back bytes delta val max tab p p) (Settled tab)
    unfolding go_back
    go_back-Settled zero p tab s lt = stays-Settled zero p p tab s lt lt (inl refl)
    go_back-Settled (suc delta) p tab s lt =
        let back = prv bytes max h val real hashed delta p tab s in
        let elm = x bytes max h val real hashed delta p tab s in
        let inside = prv_inside bytes max h val real hashed delta p tab s in
        let found : get_elem? tab back ≡ some elm =
          get_elem?-eq-get_or tab back free (omega (arith, s.table.sized, inside)) in
        elim (Bool-cases (ltb delta (sub32 back (stored elm % max)))) [
          | inl stop ↦
              rw (found, stop, go_back, Ends)
                (stays-Settled (suc delta) p back tab s lt inside
                  (inr (next bytes max h val real hashed delta p tab s)))
          | inr on ↦
              rw (found, on, swap_step bytes max h val real hashed delta p tab s, go_back)
                (Ends-map (Settled (swapped bytes max h val real hashed delta p tab s))
                  (Settled tab)
                  (go_back bytes delta val max (swapped bytes max h val real hashed delta p tab s)
                    back back)
                  (after_swap delta p tab s)
                  (go_back-Settled delta back (swapped bytes max h val real hashed delta p tab s)
                    (swapped-Standing bytes max h val real hashed delta p tab s) inside))
        ]

    -- What setting the element does to a table: it is in the new one, and the others are those of the
    -- old one, but for one equal to it that it replaces.
    abbrev pub SetTo : (A → A → Ordering) → (tab : List A) → Option ℕ × List A → Type ℓ
    SetTo cmp tab (r, tab') =
        (e : ℕ) × (r ≡ some e)
        × (e < max)
        × ((slot bytes tab' e ≡ val) ⊎ (slot bytes tab' ((e + 1) % max) ≡ val))
        × IsTable bytes max tab'
        × In bytes max tab' val
        × ((y : A) → In bytes max tab' y → (y ≡ val) ⊎ In bytes max tab y)
        × ((y : A)
            → In bytes max tab y
            → In bytes max tab' y ⊎ ((stored y == u32_max || matches bytes cmp h val y) ≡ true))
        × (used bytes tab' ≤ used bytes tab + 1)

    module _ (cmp : A → A → Ordering) (tab : List A) (table : IsTable bytes max tab) where
      set_at :
          (p d : ℕ)
          → Placed bytes cmp h val max tab table.sized table.several table.small (p, d)
          → p < max
      set_at p d placed =
          (let lt : step_from max h d < max = mod-lt (h + d) (omega (arith, table.several)) in
            omega (arith, placed.1, lt))

      new_or_old :
          (p : ℕ)
          → p < length tab
          → (y : A) → In bytes max (set tab p val) y
          → (y ≡ val) ⊎ In bytes max tab y
      new_or_old p inside y (q, lt, e) = elim (Bool-cases (p == q)) [
        | inl here ↦
            let same : p ≡ q = ground arith in
            inl (
              sym e
              ∙ ap (λ k. slot bytes (set tab p val) k) (sym same)
              ∙ slot-set_self bytes max tab p val inside)
        | inr there ↦ inr (q, lt, sym (slot-set_ne bytes max tab p q val inside (ground arith)) ∙ e)
      ]

      kept_or_taken :
          (p : ℕ)
          → p < length tab
          → (stored (slot bytes tab p) == u32_max || matches bytes cmp h val (slot bytes tab p))
            ≡ true
          → (tab' : List A) → ((z : A) → In bytes max (set tab p val) z → In bytes max tab' z)
          → (y : A) → In bytes max tab y
          → In bytes max tab' y ⊎ ((stored y == u32_max || matches bytes cmp h val y) ≡ true)
      kept_or_taken p inside taken tab' into y (q, lt, e) = elim (Bool-cases (p == q)) [
        | inl here ↦
            let same : slot bytes tab p ≡ y =
              (let e' : p ≡ q = ground arith in ap (λ k. slot bytes tab k) e' ∙ e) in
            inr (ap (λ z. stored z == u32_max || matches bytes cmp h val z) (sym same) ∙ taken)
        | inr there ↦
            inl (into y (q, lt, slot-set_ne bytes max tab p q val inside (ground arith) ∙ e))
      ]

      Settled-SetTo :
          (p d : ℕ)
          → Placed bytes cmp h val max tab table.sized table.several table.small (p, d)
          → (r : ℕ × List A) → Settled (set tab p val) r
          → SetTo cmp tab (some r.0, r.1)
      Settled-SetTo p d placed (e, tab') (table', there, (into, back), count, lt, near) =
          let inside : p < length tab = omega (arith, set_at p d placed, table.sized) in
          (
            e,
            refl,
            lt,
            near,
            table',
            there,
            λ y i. new_or_old p inside y (back y i),
            λ y i. kept_or_taken p inside placed.2 tab' (λ z. into z) y i,
            omega (arith, count, used-set_le bytes tab p val inside),
          )

      behind_place :
          (p d : ℕ)
          → Placed bytes cmp h val max tab table.sized table.several table.small (p, d)
          → Ends
              (store tab p val >>= λ put.
                go_back bytes d val max put p p >>= λ r. some (some r.0, r.1))
              (SetTo cmp tab)
      behind_place p d placed =
          let inside : ltb p (length tab) ≡ true = ground (arith, set_at p d placed, table.sized) in
          rw inside (
            Ends-bind (Settled (set tab p val)) (SetTo cmp tab)
              (go_back bytes d val max (set tab p val) p p) _
              (go_back-Settled d p (set tab p val)
                (put-Standing bytes max h val real hashed cmp tab p d table placed)
                (set_at p d placed))
              (Settled-SetTo p d placed))

      -- `utl_vec_hsh_set` of an element with a hash value of 31 bits, in a table with a free slot.
      pub hsh_set-SetTo :
          h < hash_mod
          → HasFree bytes max tab
          → Ends (hsh_set bytes cmp val max tab) (SetTo cmp tab)
      unfolding hsh_set
      hsh_set-SetTo small room =
          let real' : ltb h hash_mod ≡ true = ground arith in
          rw (hashed, real', hsh_set)
            (Ends-bind (Placed bytes cmp h val max tab table.sized table.several table.small)
              (SetTo cmp tab) (place bytes (suc max) cmp h val max tab h 0) _
              (place_ends bytes cmp h val max tab table.sized table.several table.small room)
              (λ r placed. behind_place r.0 r.1 placed))
