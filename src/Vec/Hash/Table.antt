-- ===== src/Vec/Hash/Table.antt =====
-- src/utl_vec.c: a vector with a hash function, and its search.
use Prim.Native.Nat.{Ordering}
use clibutl.Prelude.{ℕ, ◌%◌, ◌≤◌, ◌<◌, ◌≡◌, ◌≢◌, some, u32_max, arith}
use clibutl.Prelude.Fault.{Ends}
use clibutl.Vec.Defs.{Vec}
use clibutl.Vec.Growth.{IsValid}
use clibutl.Vec.Hash.{Layout, hash_mod, search_hashed}
use clibutl.Vec.Hash.Count.{used, used-HasFree}
use clibutl.Vec.Hash.Probe.{IsTable, HasFree}
use clibutl.Vec.Hash.Lookup.{FoundAt, probe-FoundAt}
use clibutl.Vec.Hash.Swaps.{In}

module _ {ℓ} {A : Type ℓ} (bytes : Layout A) (hash : A → ℕ) (cmp : A → A → Ordering) where
  open bytes use {stored, with_hash, free, stored-with_hash}

  -- A vector with a hash function: its table in order, with a slot left free.
  pub record IsHashed (v : Vec A) : Type ℓ where
    pub valid : IsValid v
    pub compared : v.cmp ≡ some cmp
    pub hashed : v.hsh ≡ some hash
    pub table : IsTable bytes v.max v.vec
    pub count : used bytes v.vec ≤ v.cnt
    pub room : v.cnt < v.max
    pub large : 16 ≤ v.max
    pub real : (y : A) → In bytes v.max v.vec y → stored y ≢ u32_max → stored y < hash_mod

  pub has_free : (v : Vec A) → IsHashed v → HasFree bytes v.max v.vec
  has_free v h =
      let (p, lt, unused) =
        used-HasFree bytes v.vec (omega (arith, h.table.sized, h.count, h.room)) in
      (p, omega (arith, h.table.sized), unused)

  -- The hash value of an element, as it is stored, and the element with it.
  abbrev pub hash_value : A → ℕ
  hash_value x = hash x % hash_mod

  abbrev pub stamped : A → A
  stamped x = with_hash (hash_value x) x

  pub stored-stamped : (x : A) → stored (stamped x) ≡ hash_value x
  stored-stamped x = stored-with_hash (hash_value x) x (omega arith)

  -- `utl_search_hashed` of a vector in order ends. It returns the slot of an element that has the hash value of `*elm` and
  -- compares equal to it, and NULL only where the table has no such element.
  pub search_hashed_lem :
      (v : Vec A) (h : IsHashed v)
      → Ends
          (search_hashed bytes v)
          (FoundAt bytes cmp (hash_value v.elm) v.elm v.max v.vec h.table (omega arith))
  unfolding search_hashed
  search_hashed_lem v h =
      rw (h.hashed, h.compared, search_hashed)
        (probe-FoundAt bytes cmp (hash_value v.elm) v.elm v.max v.vec h.table (omega arith)
          (has_free v h))
