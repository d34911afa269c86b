-- ===== src/Vec/Hash.antt =====
-- src/utl_vec.c: the hash table of unsorted sets. The size `max` of a table is a power of two, so
-- that `& (max-1)` is the remainder by `max`.
pub mod Probe
pub mod Count
pub mod Lookup
pub mod Placing
pub mod Swaps
pub mod Insert
pub mod Keys
pub mod Rehash
pub mod Table
pub mod Element
pub mod Add
pub mod Close
pub mod Remove
pub mod Trip
pub mod Made
use Prim.Native.Nat.{Ordering}
use clibutl.Prelude.{
  ℕ, zero, suc, ◌+◌, ◌-◌, ◌*◌, ◌/◌, ◌%◌, ◌<◌, ◌≡◌, Bool, true, false, ◌&&◌, ◌||◌, List, [], ◌∷◌,
  Option, none, some, get_elem?, length, replicate, leb, ltb, ◌==◌, if◌then◌else◌, u32_mod, u32_max,
  add32, sub32, mul32,
}
use clibutl.Prelude.Fault.{◌>>=◌}
use clibutl.Vec.Slots.{Allocator, store}
use clibutl.Vec.Defs.{Vec}

-- The bytes of an element: `utl_h` reads the hash value at its end and writes it, and the element of
-- bytes 0xFF, which marks a free slot.
pub record Layout {ℓ} (A : Type ℓ) : Type ℓ where
  pub stored : A → ℕ
  pub with_hash : ℕ → A → A
  pub free : A
  pub stored-with_hash : (h : ℕ) (x : A) → h < u32_mod → stored (with_hash h x) ≡ h
  pub stored-free : stored free ≡ u32_max

-- h & 0x7FFFFFFF
abbrev pub hash_mod : ℕ
hash_mod = 0x8000_0000

abbrev pub is_eq : Ordering → Bool
is_eq Ordering.eq = true
is_eq Ordering.lt = false
is_eq Ordering.gt = false

module _ {ℓ} {A : Type ℓ} (bytes : Layout A) where
  open bytes use {stored, with_hash, free}

  -- memset(val,0xFF,v->esz) and the moves of the loop of `utl_remove_hashed`, from slot `pos` on; it
  -- returns the slot behind the last one that was cleared.
  unfoldable pub close_gap : (fuel max : ℕ) → List A → (pos : ℕ) → Option (ℕ × List A)
  close_gap zero max tab pos = none
  close_gap (suc fuel) max tab pos =
      let nxt = (pos + 1) % max in
      elim (store tab pos free) [
        | none ↦ none
        | some cleared ↦ elim (get_elem? cleared nxt) [
          | none ↦ none
          | some elm ↦ elim (stored elm == u32_max || stored elm % max == nxt) [
            | true ↦ some (nxt, cleared)
            | false ↦ elim (store cleared pos elm) [
              | none ↦ none
              | some tab' ↦ close_gap fuel max tab' nxt
            ]
          ]
        ]
      ]

  unfoldable pub remove_hashed : Vec A → (pos : ℕ) → Option (Option ℕ × Vec A)
  remove_hashed v pos = do
    (k, tab) ← close_gap (suc v.max) v.max v.vec pos
    some (some k, record v { vec = tab; cnt = sub32 v.cnt 1 })

  -- (elm_h == val_h) && (cmp(val,elm,aux) == 0)
  abbrev pub matches : (A → A → Ordering) → (h : ℕ) (val elm : A) → Bool
  matches cmp h val elm = stored elm == h && is_eq (cmp val elm)

  -- The loop of `utl_search_hashed`. `delta` is 0 again in each round, where it is compared.
  unfoldable pub probe :
      (fuel : ℕ)
      → (A → A → Ordering)
      → (h : ℕ) → A
      → (max : ℕ) → List A
      → (pos : ℕ) → Option (Option ℕ)
  probe zero cmp h val max tab pos = none
  probe (suc fuel) cmp h val max tab pos =
      let at = pos % max in
      elim (get_elem? tab at) [
        | none ↦ none
        | some elm ↦ elim (stored elm == u32_max) [
          | true ↦ some none
          | false ↦ elim (matches cmp h val elm) [
            | true ↦ some (some at)
            | false ↦ elim (ltb (sub32 (stored elm) (stored elm % max)) 0) [
              | true ↦ some none
              | false ↦ probe fuel cmp h val max tab (add32 at 1)
            ]
          ]
        ]
      ]

  -- `utl_search_hashed`; a call of `hsh` or `cmp` where it is NULL is a fault.
  unfoldable pub search_hashed : Vec A → Option (Option ℕ)
  search_hashed v = do
    hash ← v.hsh
    cmp ← v.cmp
    let h = hash v.elm % hash_mod
    probe (suc v.max) cmp h v.elm v.max v.vec h

  -- The first loop of `utl_vec_hsh_set`: the slot for the element, and `delta`.
  unfoldable pub place :
      (fuel : ℕ)
      → (A → A → Ordering)
      → (h : ℕ) → A
      → (max : ℕ) → List A
      → (pos delta : ℕ) → Option (ℕ × ℕ)
  place zero cmp h val max tab pos delta = none
  place (suc fuel) cmp h val max tab pos delta =
      let at = pos % max in
      elim (get_elem? tab at) [
        | none ↦ none
        | some elm ↦ elim (stored elm == u32_max || matches cmp h val elm) [
          | true ↦ some (at, delta)
          | false ↦ place fuel cmp h val max tab (add32 at 1) (add32 delta 1)
        ]
      ]

  -- The second loop, the swaps: the last slot that `elm` points to, and the table.
  unfoldable pub go_back :
      (delta : ℕ) → A → (max : ℕ) → List A → (pos elm : ℕ) → Option (ℕ × List A)
  go_back zero val max tab pos elm = some (elm, tab)
  go_back (suc delta) val max tab pos elm =
      let prv = (pos + max - 1) % max in
      elim (get_elem? tab prv) [
        | none ↦ none
        | some x ↦ elim (ltb delta (sub32 prv (stored x % max))) [
          | true ↦ some (prv, tab)
          | false ↦ elim (store tab pos x >>= λ moved. store moved prv val) [
            | none ↦ none
            | some tab' ↦ go_back delta val max tab' prv prv
          ]
        ]
      ]

  unfoldable pub hsh_set : (A → A → Ordering) → A → (max : ℕ) → List A → Option (Option ℕ × List A)
  hsh_set cmp val max tab =
      let h = stored val in
      if ltb h hash_mod
      then (do
        (at, delta) ← place (suc max) cmp h val max tab h 0
        put ← store tab at val
        (elm, tab') ← go_back delta val max put at at
        some (some elm, tab'))
      else some (none, tab)

  -- The loop of `utl_reash`: the elements of the old table are set in the new one.
  unfoldable pub set_all :
      (A → A → Ordering) → (old : List A) → (max : ℕ) → List A → Option (List A)
  set_all cmp [] max tab = some tab
  set_all cmp (x ∷ old) max tab = elim (hsh_set cmp x max tab) [
    | none ↦ none
    | some r ↦ set_all cmp old max r.1
  ]

  -- `utl_reash`: a new table, or `none` where there is no memory.
  unfoldable pub reash : Allocator A → (A → A → Ordering) → Vec A → Option (Option (List A))
  reash os cmp v =
      let new_max = mul32 v.max 2 in
      elim (os.malloc (mul32 new_max v.esz) v.esz) [
        | none ↦ some none
        | some block ↦ (do
          tab ← set_all cmp v.vec new_max (replicate (length block) free)
          some (some tab))
      ]

  -- The end of `utl_vec_add_hashed`, behind the growth of the table.
  unfoldable pub add_element : (A → ℕ) → (A → A → Ordering) → Vec A → Option (Option ℕ × Vec A)
  add_element hash cmp v = do
    let elm = with_hash (hash v.elm % hash_mod) v.elm
    (p, tab) ← hsh_set cmp elm v.max v.vec
    let w = record v { elm = elm; vec = tab }
    some (p, elim p [ none ↦ w | some k ↦ record w { cnt = add32 v.cnt 1 } ])

  unfoldable pub is_loaded : Vec A → Bool
  is_loaded v = leb v.max (mul32 v.cnt 100 / 80)

  -- `utl_vec_add_hashed`, with the functions at `hsh` and `cmp`.
  unfoldable pub add_with :
      Allocator A → (A → ℕ) → (A → A → Ordering) → Vec A → Option (Option ℕ × Vec A)
  add_with os hash cmp v =
      if is_loaded v
      then (do
        larger ← reash os cmp v
        elim larger [
          | none ↦ some (none, v)
          | some tab ↦ add_element hash cmp (record v { vec = tab; max = mul32 v.max 2 })
        ])
      else add_element hash cmp v

  unfoldable pub add_hashed : Allocator A → Vec A → Option (Option ℕ × Vec A)
  add_hashed os v = do hash ← v.hsh; cmp ← v.cmp; add_with os hash cmp v
