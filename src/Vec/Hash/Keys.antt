-- ===== src/Vec/Hash/Keys.antt =====
-- src/utl_vec.c: a hash table as the set of the keys of its elements.
use Prim.Native.Nat.{Ordering}
use clibutl.Prelude.{
  ℕ, ◌+◌, ◌≤◌, ◌<◌, ◌≡◌, ◌⊎◌, ◌∙◌, refl, sym, true, false, ◌||◌, List, Option, ◌==◌, u32_max, inl,
  inr, arith,
}
use clibutl.Prelude.Fault.{Ends, Ends-map}
use clibutl.Vec.Hash.{Layout, hash_mod, matches, hsh_set}
use clibutl.Vec.Hash.Count.{used}
use clibutl.Vec.Hash.Probe.{IsTable, HasFree}
use clibutl.Vec.Hash.Swaps.{In}
use clibutl.Vec.Hash.Insert.{SetTo, hsh_set-SetTo}

-- What a client's comparison has to satisfy: equality is an equivalence.
pub record IsKeyed {ℓ} {A : Type ℓ} (cmp : A → A → Ordering) : Type ℓ where
  pub eq_refl : (a : A) → cmp a a ≡ Ordering.eq
  pub eq_sym : (a b : A) → cmp a b ≡ Ordering.eq → cmp b a ≡ Ordering.eq
  pub eq_trans : (a b c : A) → cmp a b ≡ Ordering.eq → cmp b c ≡ Ordering.eq → cmp a c ≡ Ordering.eq

module _ {ℓ} {A : Type ℓ} (bytes : Layout A) (cmp : A → A → Ordering) (max : ℕ) where
  open bytes use {stored}

  -- The table has an element with the hash value of `y` that compares equal to it.
  abbrev pub HasKey : List A → A → Type ℓ
  HasKey tab y = (z : A) × In bytes max tab z × (stored z ≡ stored y) × (cmp z y ≡ Ordering.eq)

  -- Setting `val` adds its key, takes no key away, and brings no element but `val`.
  pub record KeySet (val : A) (tab tab' : List A) : Type ℓ where
    pub table : IsTable bytes max tab'
    pub added : In bytes max tab' val
    pub from : (y : A) → In bytes max tab' y → (y ≡ val) ⊎ In bytes max tab y
    pub keys : (y : A) → stored y < hash_mod → HasKey tab y → HasKey tab' y
    pub count : used bytes tab' ≤ used bytes tab + 1

  module _ (keyed : IsKeyed cmp) (val : A) (small : stored val < hash_mod) (tab : List A) where
    equal_key :
        (z : A)
        → (stored z == u32_max || matches bytes cmp (stored val) val z) ≡ true
        → stored z < hash_mod
        → (stored z ≡ stored val) × (cmp val z ≡ Ordering.eq)
    equal_key z taken real =
        let used_slot : (stored z == u32_max) ≡ false = ground arith in
        let equal : matches bytes cmp (stored val) val z ≡ true = rw used_slot at taken in
        ground arith

    key_kept :
        (tab' : List A)
        → In bytes max tab' val
        → ((y : A)
            → In bytes max tab y
            → In bytes max tab' y
              ⊎ ((stored y == u32_max || matches bytes cmp (stored val) val y) ≡ true))
        → (y : A) → stored y < hash_mod
        → HasKey tab y
        → HasKey tab' y
    key_kept tab' there old y real (z, i, hash, eq) = elim (old z i) [
      | inl kept ↦ (z, kept, hash, eq)
      | inr taken ↦
          let (same, equal) = equal_key z taken (omega (arith, hash)) in
          (val, there, sym same ∙ hash, keyed.eq_trans val z y equal eq)
    ]

    pub SetTo-KeySet :
        (r : Option ℕ × List A)
        → SetTo bytes max (stored val) val (omega arith) refl cmp tab r
        → KeySet val tab r.1
    SetTo-KeySet (r, tab') (e, same, lt, near, table, there, from, old, count) = record {
      table = table;
      added = there;
      from = from;
      keys = key_kept tab' there old;
      count = count;
    }

    pub hsh_set-KeySet :
        IsTable bytes max tab
        → HasFree bytes max tab
        → Ends (hsh_set bytes cmp val max tab) (λ r. KeySet val tab r.1)
    hsh_set-KeySet table room =
        Ends-map (SetTo bytes max (stored val) val (omega arith) refl cmp tab)
          (λ r. KeySet val tab r.1) (hsh_set bytes cmp val max tab) SetTo-KeySet
          (hsh_set-SetTo bytes max (stored val) val (omega arith) refl cmp tab table small room)
