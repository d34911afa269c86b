-- ===== src/Vec/Sorted.antt =====
-- src/utl_vec.c: the binary search in a sorted set, in `utl_vec_search_sorted` and
-- `utl_vec_add_sorted`, behind their call of `vecsort`.
pub mod Bisect
pub mod Set
use Prim.Native.Nat.{Ordering}
use clibutl.Prelude.{
  ℕ, zero, suc, ◌+◌, ◌-◌, ◌*◌, ◌/◌, Bool, true, false, Option, none, some, get_elem?, leb, ltb,
  if◌then◌else◌,
}
use clibutl.Prelude.Fault.{◌>>=◌}
use clibutl.Vec.Slots.{Allocator, store}
use clibutl.Vec.Defs.{Vec, vec_ins}

-- The numbers of an `int32_t` are below it.
abbrev pub int32_mod : ℕ
int32_mod = 0x8000_0000

-- hi = v->cnt-1, which is negative where it does not fit; one more is kept for `hi` throughout.
abbrev pub above_last : ℕ → ℕ
above_last cnt = if leb cnt int32_mod then cnt else 0

-- How the loop ends: the slot of an equal element, or where `lo` stands.
pub data Place : Type 0 where
  equal : ℕ → Place
  absent : ℕ → Place

module _ {ℓ} {A : Type ℓ} where
  -- elm = v->vec + mid * v->esz, a product of `int`s.
  unfoldable pub element : Vec A → (mid : ℕ) → Option A
  element v mid = if ltb (mid * v.esz) int32_mod then get_elem? v.vec mid else none

  -- while (lo <= hi) ...; `top` is `hi + 1`.
  unfoldable pub bisect : (fuel : ℕ) → (A → A → Ordering) → Vec A → (lo top : ℕ) → Option Place
  bisect zero cmp v lo top = none
  bisect (suc fuel) cmp v lo top = elim (ltb lo top) [
    | false ↦ some (absent lo)
    | true ↦
        let mid = lo + (top - 1 - lo) / 2 in
        elim (element v mid) [
          | none ↦ none
          | some x ↦ elim (cmp v.elm x) [
            | Ordering.eq ↦ some (equal mid)
            | Ordering.lt ↦ bisect fuel cmp v lo mid
            | Ordering.gt ↦ bisect fuel cmp v (suc mid) top
          ]
        ]
  ]

  -- The search of both functions; a call of `cmp` where it is NULL is a fault.
  unfoldable pub find_place : Vec A → Option Place
  find_place v = elim (v.cmp) [
    | none ↦ none
    | some cmp ↦ bisect (suc v.cnt) cmp v 0 (above_last v.cnt)
  ]

  -- `utl_vec_search_sorted`
  unfoldable pub search_sorted : Vec A → Option (Option ℕ)
  search_sorted v = do p ← find_place v; some (elim p [ equal k ↦ some k | absent lo ↦ none ])

  -- The end of `utl_vec_add_sorted`.
  unfoldable pub add_at : Allocator A → Vec A → Place → Option (Option ℕ × Vec A)
  add_at os v (equal k) = do vec ← store v.vec k v.elm; some (some k, record v { vec = vec })
  add_at os v (absent lo) = vec_ins os v lo

  unfoldable pub add_sorted : Allocator A → Vec A → Option (Option ℕ × Vec A)
  add_sorted os v = do p ← find_place v; add_at os v p
