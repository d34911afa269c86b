-- ===== src/Vec/Hash/Close.antt =====
-- src/utl_vec.c: one round of the loop of `utl_remove_hashed`.
use mathlib.Core.Path.{subst}
use native.Mathlib.Nat.{mod-lt}
use clibutl.Prelude.{
  ℕ, suc, ◌+◌, ◌%◌, ◌<◌, ◌≡◌, ◌≢◌, ◌∙◌, refl, sym, ap, Bool, true, false, ◌||◌, List, some,
  get_elem?, get_elem?-eq-get_or, length, length-set, set, ltb, ◌==◌, u32_max, Bool-cases, inl, inr,
  arith,
}
use clibutl.Vec.Hash.{Layout, close_gap}
use clibutl.Vec.Hash.Count.{weight, used, used-set}
use clibutl.Vec.Hash.Probe.{slot, IsUsed}
use clibutl.Vec.Hash.Placing.{slot-set_self, slot-set_ne, suc-ne}
use clibutl.Vec.Hash.Swaps.{In}

module _ {ℓ} {A : Type ℓ} (bytes : Layout A) (max : ℕ) where
  open bytes use {stored, free}

  -- The element of slot `pos` is gone, the others are all in the table, and nothing else is.
  pub record Closed (pos : ℕ) (tab tab' : List A) : Type ℓ where
    pub sized : length tab' ≡ max
    pub count : used bytes tab' + weight bytes (slot bytes tab pos) ≡ used bytes tab
    pub others :
        (q : ℕ) → q < max → q ≢ pos → IsUsed bytes tab q → In bytes max tab' (slot bytes tab q)
    pub from :
        (y : A)
        → In bytes max tab' y
        → stored y ≢ u32_max
        → (q : ℕ) × (q < max) × (q ≢ pos) × (slot bytes tab q ≡ y)

  module _ (tab : List A) (pos : ℕ) (sized : length tab ≡ max) (several : 1 < max)
      (inside : pos < max) where
    abbrev nxt : ℕ
    nxt = (pos + 1) % max

    abbrev cleared : List A
    cleared = set tab pos free

    abbrev pub shifted : List A
    shifted = set cleared pos (slot bytes tab nxt)

    pub nxt_inside : nxt < max
    nxt_inside = mod-lt (pos + 1) (omega arith)

    apart : pos ≢ nxt
    apart e = suc-ne bytes max pos several inside (sym e)

    cleared_sized : length cleared ≡ max
    cleared_sized = length-set tab pos free ∙ sized

    pub shifted_sized : length shifted ≡ max
    shifted_sized = length-set cleared pos (slot bytes tab nxt) ∙ cleared_sized

    same_next : slot bytes cleared nxt ≡ slot bytes tab nxt
    same_next = slot-set_ne bytes max tab pos nxt free (omega (arith, sized)) apart

    pub same_other : (q : ℕ) → q ≢ pos → slot bytes shifted q ≡ slot bytes tab q
    same_other q ne =
        slot-set_ne bytes max cleared pos q (slot bytes tab nxt) (omega (arith, cleared_sized))
          (λ e. ne (sym e))
        ∙ slot-set_ne bytes max tab pos q free (omega (arith, sized)) (λ e. ne (sym e))

    shifted_here : slot bytes shifted pos ≡ slot bytes tab nxt
    shifted_here =
        slot-set_self bytes max cleared pos (slot bytes tab nxt) (omega (arith, cleared_sized))

    free_weight : weight bytes free ≡ 0
    free_weight =
        let t : (stored free == u32_max) ≡ true = (let e = bytes.stored-free in ground arith) in
        rw t refl

    cleared_count : used bytes cleared + weight bytes (slot bytes tab pos) ≡ used bytes tab
    cleared_count = omega (arith, used-set bytes tab pos free (omega (arith, sized)), free_weight)

    pub cleared-Closed : Closed pos tab cleared
    cleared-Closed = record {
      sized = cleared_sized;
      count = cleared_count;
      others = λ q lt ne u.
          (q, lt, slot-set_ne bytes max tab pos q free (omega (arith, sized)) (λ e. ne (sym e)));
      from = λ y i u. from_cleared y i u;
    }
      where
        from_cleared :
            (y : A)
            → In bytes max cleared y
            → stored y ≢ u32_max
            → (q : ℕ) × (q < max) × (q ≢ pos) × (slot bytes tab q ≡ y)
        from_cleared y (q, lt, e) u = elim (Bool-cases (pos == q)) [
          | inl here ↦
              let same : pos ≡ q = ground arith in
              let gone : slot bytes cleared q ≡ free =
                ap (λ k. slot bytes cleared k) (sym same)
                ∙ slot-set_self bytes max tab pos free (omega (arith, sized)) in
              absurd (u (ap stored (sym e ∙ gone) ∙ bytes.stored-free))
          | inr there ↦
              let ne : pos ≢ q = ground arith in
              (
                q,
                lt,
                (λ x. ne (sym x)),
                sym (slot-set_ne bytes max tab pos q free (omega (arith, sized)) ne) ∙ e,
              )
        ]

    shifted_count :
        used bytes shifted + weight bytes (slot bytes tab pos)
        ≡ used bytes tab + weight bytes (slot bytes tab nxt)
    shifted_count =
        let gone : weight bytes (slot bytes cleared pos) ≡ 0 =
          ap (weight bytes) (slot-set_self bytes max tab pos free (omega (arith, sized)))
          ∙ free_weight in
        omega (
          arith,
          used-set bytes cleared pos (slot bytes tab nxt) (omega (arith, cleared_sized)),
          gone,
          cleared_count,
        )

    pub shifted-Closed : (tab' : List A) → Closed nxt shifted tab' → Closed pos tab tab'
    shifted-Closed tab' c = record {
      sized = c.sized;
      count =
          let there : weight bytes (slot bytes shifted nxt) ≡ weight bytes (slot bytes tab nxt) =
            ap (weight bytes) (same_other nxt (λ e. apart (sym e))) in
          omega (arith, c.count, shifted_count, there);
      others = λ q lt ne u. elim (Bool-cases (nxt == q)) [
        | inl next ↦
            let same : nxt ≡ q = ground arith in
            subst (λ k. In bytes max tab' (slot bytes tab k)) same
              (subst (λ y. In bytes max tab' y) shifted_here
                (c.others pos inside apart (λ e. u (
                  ap (λ k. stored (slot bytes tab k)) (sym same)
                  ∙ ap stored (sym shifted_here)
                  ∙ e))))
        | inr other ↦
            let ne' : nxt ≢ q = ground arith in
            subst (λ y. In bytes max tab' y) (same_other q ne)
              (c.others q lt (λ e. ne' (sym e)) (λ e. u (ap stored (sym (same_other q ne)) ∙ e)))
      ];
      from = λ y i u. from_shifted y (c.from y i u);
    }
      where
        from_shifted :
            (y : A)
            → (q : ℕ) × (q < max) × (q ≢ nxt) × (slot bytes shifted q ≡ y)
            → (q : ℕ) × (q < max) × (q ≢ pos) × (slot bytes tab q ≡ y)
        from_shifted y (q, lt, ne, e) = elim (Bool-cases (pos == q)) [
          | inl here ↦
              let same : pos ≡ q = ground arith in
              (
                nxt,
                nxt_inside,
                (λ x. apart (sym x)),
                sym shifted_here ∙ ap (λ k. slot bytes shifted k) same ∙ e,
              )
          | inr there ↦ let ne' : q ≢ pos = ground arith in (q, lt, ne', sym (same_other q ne') ∙ e)
        ]

    abbrev pub stops : Bool
    stops = stored (slot bytes tab nxt) == u32_max || stored (slot bytes tab nxt) % max == nxt

    cleared_put : ltb pos (length tab) ≡ true
    cleared_put = ground (arith, sized, inside)

    read_next : get_elem? cleared nxt ≡ some (slot bytes tab nxt)
    read_next =
        get_elem?-eq-get_or cleared nxt free (omega (arith, cleared_sized, nxt_inside))
        ∙ ap some same_next

    pub close_gap-stop :
        (fuel : ℕ) → stops ≡ true → close_gap bytes (suc fuel) max tab pos ≡ some (nxt, cleared)
    unfolding close_gap
    close_gap-stop fuel stop =
        rw (cleared_put, close_gap) (rw read_next (rw (stop, close_gap) refl))

    pub close_gap-on :
        (fuel : ℕ)
        → stops ≡ false
        → close_gap bytes (suc fuel) max tab pos ≡ close_gap bytes fuel max shifted nxt
    unfolding close_gap
    close_gap-on fuel on =
        let second : ltb pos (length cleared) ≡ true = ground (arith, cleared_sized, inside) in
        rw (cleared_put, close_gap)
          (rw read_next (rw (on, close_gap) (rw (second, close_gap) refl)))
