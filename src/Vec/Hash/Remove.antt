-- ===== src/Vec/Hash/Remove.antt =====
-- src/utl_vec.c: `utl_remove_hashed` closes the gap that the removed element leaves.
use Prim.Native.Nat.{Ordering}
use native.Mathlib.Nat.{mod-eq_of_lt, mod-add-mod}
use clibutl.Prelude.{
  ℕ, zero, suc, ◌+◌, ◌%◌, ◌<◌, ◌≡◌, ◌≢◌, ◌∙◌, refl, sym, ap, true, false, ◌||◌, List, Option, none,
  length, ◌==◌, u32_max, sub32, Bool-cases, inl, inr, arith,
}
use clibutl.Prelude.Fault.{Ends, Ends-map, Ends-bind}
use clibutl.Vec.Defs.{Vec}
use clibutl.Vec.Hash.{Layout, close_gap, remove_hashed}
use clibutl.Vec.Hash.Count.{weight, used, used-HasFree}
use clibutl.Vec.Hash.Probe.{step_from, steps_to, slot, IsUsed}
use clibutl.Vec.Hash.Table.{IsHashed}
use clibutl.Vec.Hash.Close.{
  Closed, nxt_inside, shifted, shifted_sized, cleared-Closed, close_gap-stop, stops, same_other,
  close_gap-on, shifted-Closed,
}

module _ {ℓ} {A : Type ℓ} (bytes : Layout A) (max : ℕ) where
  open bytes use {stored, free}

  close_gap-Closed :
      (fuel : ℕ) (tab : List A) (pos d : ℕ)
      → length tab ≡ max
      → 1 < max
      → pos < max
      → d < fuel
      → stored (slot bytes tab (step_from max pos (suc d))) ≡ u32_max
      → step_from max pos (suc d) ≢ pos
      → Ends (close_gap bytes fuel max tab pos) (λ r. Closed bytes max pos tab r.1)
  close_gap-Closed zero tab pos d sized several inside few end away = absurd (omega arith)
  close_gap-Closed (suc fuel) tab pos d sized several inside few end away =
      let next : ℕ = (pos + 1) % max in
      let elm : A = slot bytes tab next in
      elim (Bool-cases (stored elm == u32_max || stored elm % max == next)) [
        | inl stop ↦
            rw (close_gap-stop bytes max tab pos sized several inside fuel stop, Ends)
              (cleared-Closed bytes max tab pos sized several inside)
        | inr on ↦ further d few end away on (λ d' few' end' away'.
            close_gap-Closed fuel (shifted bytes max tab pos sized several inside) next d'
              (shifted_sized bytes max tab pos sized several inside) several
              (nxt_inside bytes max tab pos sized several inside) few' end' away')
      ]
    where
      used_next :
          stops bytes max tab pos sized several inside ≡ false
          → stored (slot bytes tab ((pos + 1) % max)) ≢ u32_max
      used_next on e =
          let unused : (stored (slot bytes tab ((pos + 1) % max)) == u32_max) ≡ true =
            ground arith in
          absurd (ground (arith, unused, on))

      further :
          (d : ℕ)
          → d < suc fuel
          → stored (slot bytes tab (step_from max pos (suc d))) ≡ u32_max
          → step_from max pos (suc d) ≢ pos
          → stops bytes max tab pos sized several inside ≡ false
          → ((d' : ℕ)
              → d' < fuel
              → stored (
                  slot bytes
                    (shifted bytes max tab pos sized several inside)
                    (step_from max ((pos + 1) % max) (suc d')))
                ≡ u32_max
              → step_from max ((pos + 1) % max) (suc d') ≢ (pos + 1) % max
              → Ends
                  (close_gap bytes fuel max
                    (shifted bytes max tab pos sized several inside)
                    ((pos + 1) % max))
                  (λ r.
                    Closed bytes max
                      ((pos + 1) % max)
                      (shifted bytes max tab pos sized several inside)
                      r.1))
          → Ends (close_gap bytes (suc fuel) max tab pos) (λ r. Closed bytes max pos tab r.1)
      further zero few end away on again = absurd (used_next on end)
      further (suc d) few end away on again =
          let next : ℕ = (pos + 1) % max in
          let farther : step_from max next (suc d) ≡ step_from max pos (suc (suc d)) =
            mod-add-mod (pos + 1) max (suc d) ∙ ap (λ k. k % max) (omega arith) in
          let moved : List A = shifted bytes max tab pos sized several inside in
          let end' : stored (slot bytes moved (step_from max next (suc d))) ≡ u32_max =
            ap (λ k. stored (slot bytes moved k)) farther
            ∙ ap stored (
                same_other bytes max tab pos sized several inside (step_from max pos (suc (suc d)))
                  away)
            ∙ end in
          let away' : step_from max next (suc d) ≢ next =
            λ e. used_next on (ap (λ k. stored (slot bytes tab k)) (sym e ∙ farther) ∙ end) in
          rw (close_gap-on bytes max tab pos sized several inside fuel on) (
            Ends-map (λ (r : ℕ × List A). Closed bytes max next moved r.1)
              (λ r. Closed bytes max pos tab r.1) (close_gap bytes fuel max moved next)
              (λ r c. shifted-Closed bytes max tab pos sized several inside r.1 c)
              (again d (omega arith) end' away'))

  close_gap-from :
      (tab : List A) (pos : ℕ)
      → length tab ≡ max
      → 1 < max
      → pos < max
      → IsUsed bytes tab pos
      → used bytes tab < max
      → Ends (close_gap bytes (suc max) max tab pos) (λ r. Closed bytes max pos tab r.1)
  close_gap-from tab pos sized several inside u room =
      let (f, lt, unused) = used-HasFree bytes tab (omega (arith, sized)) in
      let (n, few, there) = steps_to max pos f (omega (arith, sized)) in start n few f there unused
    where
      start :
          (n : ℕ)
          → n < max
          → (f : ℕ) → step_from max pos n ≡ f
          → stored (slot bytes tab f) ≡ u32_max
          → Ends (close_gap bytes (suc max) max tab pos) (λ r. Closed bytes max pos tab r.1)
      start zero few f there unused =
          let home : step_from max pos 0 ≡ pos =
            ap (λ k. k % max) (omega arith) ∙ mod-eq_of_lt inside in
          absurd (u (ap (λ k. stored (slot bytes tab k)) (sym home ∙ there) ∙ unused))
      start (suc d) few f there unused =
          close_gap-Closed (suc max) tab pos d sized several inside (omega arith)
            (ap (λ k. stored (slot bytes tab k)) there ∙ unused)
            (λ e. u (ap (λ k. stored (slot bytes tab k)) (sym e ∙ there) ∙ unused))

module _ {ℓ} {A : Type ℓ} (bytes : Layout A) (hash : A → ℕ) (cmp : A → A → Ordering) where
  -- What `utl_remove_hashed` leaves: the element of slot `pos` is gone, all others are kept, one slot
  -- more is free, `cnt` is one less, and the rest of the vector is as it was.
  abbrev pub Removed : (pos : ℕ) (v : Vec A) → Option ℕ × Vec A → Type ℓ
  Removed pos v (r, w) =
      (r ≢ none)
      × (w ≡ record v { vec = w.vec; cnt = w.cnt })
      × (w.cnt + 1 ≡ v.cnt)
      × Closed bytes v.max pos v.vec w.vec

  -- `utl_remove_hashed` of a slot in use of a vector in order ends. The element of the slot is gone, all
  -- others are in the table, and nothing else is; one slot more is free and `cnt` is one less.
  pub remove_hashed_lem :
      (v : Vec A) (pos : ℕ)
      → IsHashed bytes hash cmp v
      → pos < v.max
      → IsUsed bytes v.vec pos
      → Ends (remove_hashed bytes v pos) (Removed pos v)
  unfolding remove_hashed
  remove_hashed_lem v pos h inside u =
      Ends-bind (λ (r : ℕ × List A). Closed bytes v.max pos v.vec r.1) (Removed pos v)
        (close_gap bytes (suc v.max) v.max v.vec pos) _
        (close_gap-from bytes v.max v.vec pos h.table.sized h.table.several inside u
          (omega (arith, h.count, h.room)))
        (λ r c. ((λ e. cc), refl, fewer r.1 c, c))
    where
      fewer : (tab : List A) → Closed bytes v.max pos v.vec tab → sub32 v.cnt 1 + 1 ≡ v.cnt
      fewer tab c =
          let real : (bytes.stored (slot bytes v.vec pos) == u32_max) ≡ false = ground arith in
          let one : weight bytes (slot bytes v.vec pos) ≡ 1 = rw real refl in
          omega (arith, c.count, one, h.count, h.room, h.table.small)
