-- ===== src/Vec/Iter.antt =====
-- src/utl_vec.c: `utl_vec_last`, `utl_vec_next` and `utl_vec_prev`, which go through a vector as
-- `utl_vec_first` begins. `stored` reads the hash value at the end of a slot, 0xFFFFFFFF in a free one.
pub mod Visit
pub mod Rounds
pub mod Table
use clibutl.Prelude.{
  ℕ, zero, suc, ◌-◌, Bool, true, false, List, Option, none, some, get_elem?, leb, ltb, ◌==◌,
  if◌then◌else◌, u32_max, add32, sub32,
}
use clibutl.Prelude.Fault.{◌>>=◌}
use clibutl.Vec.Defs.{Vec}

module _ {ℓ} {A : Type ℓ} (stored : A → ℕ) where
  -- The last slot in use before slot `k`.
  unfoldable pub last_used : (k : ℕ) → List A → Option ℕ
  last_used zero xs = none
  last_used (suc k) xs = do
    let rest = last_used k xs
    x ← get_elem? xs k
    if stored x == u32_max then rest else some k

  -- `utl_vec_last`: the slot that it picks.
  unfoldable pub last_slot : Vec A → Option ℕ
  last_slot v = elim (v.hsh) [
    | some h ↦ last_used v.max v.vec
    | none ↦ some (if v.lst == u32_max then v.cnt - 1 else sub32 v.lst 1)
  ]

  unfoldable pub vec_last : Vec A → Option (Option ℕ × Vec A)
  vec_last v =
      if v.cnt == 0
      then some (none, record v { cur = u32_max })
      else (do k ← last_slot v; x ← get_elem? v.vec k; some (some k, record v { cur = k; elm = x }))

  -- The loop of `utl_vec_next`: the first slot in use among `left` slots from `cur` on.
  unfoldable pub next_used : (left cur : ℕ) → List A → Option ℕ
  next_used zero cur xs = some cur
  next_used (suc left) cur xs = do
    let rest = next_used left (suc cur) xs
    x ← get_elem? xs cur
    if stored x == u32_max then rest else some cur

  -- The switch of `utl_vec_next`, from the next slot on: `cur`, and the bound it has to be below.
  unfoldable pub next_slot : Vec A → (cur : ℕ) → Option (ℕ × ℕ)
  next_slot v cur = elim (v.hsh) [
    | some h ↦ (do k ← next_used (v.max - cur) cur v.vec; some (k, v.max))
    | none ↦ some (
        if v.lst == u32_max
        then (cur, v.cnt)
        else (let c = if leb v.max cur then 0 else cur in (if c == v.lst then v.max else c, v.max)))
  ]

  -- `cur` after the first tests of `utl_vec_next`, and of `utl_vec_prev` below.
  abbrev pub next_from : Vec A → ℕ
  next_from v = if v.cnt == 0 then u32_max else if v.cur == v.lst then u32_max else v.cur

  unfoldable pub vec_next : Vec A → Option (Option ℕ × Vec A)
  vec_next v =
      let from = next_from v in
      if from == u32_max then some (none, record v { cur = from }) else (do
        (cur, max) ← next_slot v (add32 from 1)
        if leb max cur
            then some (none, record v { cur = cur })
            else (do x ← get_elem? v.vec cur; some (some cur, record v { cur = cur; elm = x })))

  abbrev pub prev_from : Vec A → ℕ
  prev_from v =
      if v.cnt == 0
      then u32_max
      else if v.cur == v.fst
      then u32_max
      else if v.cur == 0
      then u32_max
      else v.cur

  -- The loop of `utl_vec_prev`: from slot `k` down to a slot in use, or to slot 0.
  unfoldable pub prev_used : (k : ℕ) → List A → Option ℕ
  prev_used zero xs = some zero
  prev_used (suc k) xs = do
    let rest = prev_used k xs
    x ← get_elem? xs (suc k)
    if stored x == u32_max then rest else some (suc k)

  -- The slot that `utl_vec_prev` picks at `cur`, or `vec_MAX_CNT`.
  unfoldable pub prev_slot : Vec A → (cur : ℕ) → Option ℕ
  prev_slot v cur = elim (v.hsh) [
    | none ↦ some cur
    | some h ↦ (do
      k ← prev_used cur v.vec
      x ← get_elem? v.vec k
      some (if stored x == u32_max then u32_max else k))
  ]

  unfoldable pub vec_prev : Vec A → Option (Option ℕ × Vec A)
  vec_prev v =
      let from = prev_from v in
      if from == u32_max then some (none, record v { cur = from }) else (do
        cur ← prev_slot v (from - 1)
        some ((if cur == u32_max then none else some cur), record v { cur = cur }))
