-- ===== src/Vec/Hash/Lookup.antt =====
-- src/utl_vec.c: what the search of a hash table finds.
use Prim.Native.Nat.{Ordering}
use native.Mathlib.Nat.{mod-lt}
use clibutl.Prelude.{
  ℕ, suc, ◌+◌, ◌<◌, ◌≡◌, ◌≢◌, ◌∙◌, refl, sym, ap, true, false, List, Option, none, some, ltb, ◌==◌,
  u32_max, Bool-cases, inl, inr, arith,
}
use clibutl.Prelude.Fault.{Ends, Ends-bind}
use clibutl.Vec.Hash.{Layout, matches, place, probe}
use clibutl.Vec.Hash.Probe.{
  step_from, slot, IsUsed, IsTable, HasFree, takes, Placed, place_ends, found, probe-place,
}

module _ {ℓ} {A : Type ℓ} (bytes : Layout A) (cmp : A → A → Ordering) (h : ℕ) (val : A) (max : ℕ)
    (tab : List A) (table : IsTable bytes max tab) (real : h < u32_max) where
  open bytes use {stored}

  -- The slot of an element with this hash value that compares equal, or none where no element does.
  abbrev pub FoundAt : Option ℕ → Type 0
  FoundAt none = (p : ℕ) → p < max → matches bytes cmp h val (slot bytes tab p) ≡ false
  FoundAt (some k) = (k < max) × (matches bytes cmp h val (slot bytes tab k) ≡ true)

  hash_of :
      (p : ℕ) → matches bytes cmp h val (slot bytes tab p) ≡ true → stored (slot bytes tab p) ≡ h
  hash_of p e = ground arith

  match-used :
      (p : ℕ)
      → matches bytes cmp h val (slot bytes tab p) ≡ true
      → takes bytes cmp h val max tab table.sized table.several table.small (slot bytes tab p)
        ≡ true
  match-used p e = elim (Bool-cases (stored (slot bytes tab p) == u32_max)) [
    | inl unused ↦ rw unused refl
    | inr used ↦ rw (used, e) refl
  ]

  -- Where the probe ended at a free slot there is no match anywhere.
  none_matches :
      (p d : ℕ)
      → Placed bytes cmp h val max tab table.sized table.several table.small (p, d)
      → stored (slot bytes tab p) ≡ u32_max
      → (q : ℕ) → q < max
      → matches bytes cmp h val (slot bytes tab q) ≢ true
  none_matches p d (few, at, taken, passed) unused q lt equal =
      let same : stored (slot bytes tab q) ≡ h = hash_of q equal in
      let used : IsUsed bytes tab q = λ e. absurd (omega (arith, e, same)) in
      let (n, there, path) = table.probed q lt used in
      let there' : step_from max h n ≡ q = ap (λ k. step_from max k n) (sym same) ∙ there in
      elim (Bool-cases (ltb n d)) [
        | inl before ↦
            let free_way : takes bytes cmp h val max tab table.sized table.several table.small
                  (slot bytes tab q)
                ≡ false =
              ap
                (λ k.
                  takes bytes cmp h val max tab table.sized table.several table.small
                    (slot bytes tab k))
                (sym there')
              ∙ passed n (ground arith) in
            let used_way : takes bytes cmp h val max tab table.sized table.several table.small
                  (slot bytes tab q)
                ≡ true =
              match-used q equal in
            cc
        | inr behind ↦ elim (Bool-cases (ltb d n)) [
          | inl past ↦ path d (ground arith) (
              ap (λ k. stored (slot bytes tab (step_from max k d))) same
              ∙ ap (λ k. stored (slot bytes tab k)) (sym at)
              ∙ unused)
          | inr here ↦
              let even : n ≡ d = ground arith in
              let here : q ≡ p = sym there' ∙ ap (λ k. step_from max h k) even ∙ sym at in
              used (ap (λ k. stored (slot bytes tab k)) here ∙ unused)
        ]
      ]

  -- In a table with a free slot the search ends. It returns a slot whose element has the hash value and
  -- compares equal, and NULL only where no element of the table does.
  pub probe-FoundAt :
      HasFree bytes max tab → Ends (probe bytes (suc max) cmp h val max tab h) FoundAt
  unfolding found
  probe-FoundAt room =
      rw (probe-place bytes cmp h val max tab table.sized table.several table.small (suc max) h 0) (
        Ends-bind (Placed bytes cmp h val max tab table.sized table.several table.small) FoundAt
          (place bytes (suc max) cmp h val max tab h 0)
          (found bytes cmp h val max tab table.sized table.several table.small)
          (place_ends bytes cmp h val max tab table.sized table.several table.small room) result)
    where
      result :
          (r : ℕ × ℕ)
          → Placed bytes cmp h val max tab table.sized table.several table.small r
          → Ends (found bytes cmp h val max tab table.sized table.several table.small r) FoundAt
      result (p, d) placed = elim (Bool-cases (stored (slot bytes tab p) == u32_max)) [
        | inl unused ↦
            rw (unused, found)
              (λ q lt. elim (Bool-cases (matches bytes cmp h val (slot bytes tab q))) [
                | inl equal ↦ absurd (none_matches p d placed (ground arith) q lt equal)
                | inr other ↦ other
              ])
        | inr used ↦
            let inside : step_from max h d < max = mod-lt (h + d) (omega (arith, table.several)) in
            rw (used, found) (omega (arith, inside, placed.1), ground (arith, placed.2))
      ]
