-- ===== src/Vec/Que.antt =====
-- src/utl_vec.c: the queue, a ring in the buffer of a vector. `fst` is the slot of the oldest
-- element and `lst` the one behind the newest; `vec_MAX_CNT` in `lst` marks a vector that no
-- element was queued in.
pub mod Inv
pub mod Ring
pub mod Enq
pub mod Deq
pub mod Spread
pub mod Grow
pub mod Fifo
use clibutl.Prelude.{
  ℕ, zero, suc, ◌+◌, ◌-◌, ◌/◌, Bool, true, false, List, [], ◌∷◌, Option, none, some, get_elem?, leb,
  ltb, ◌==◌, if◌then◌else◌, u32_max, add32, sub32, mul32,
}
use clibutl.Prelude.Fault.{◌>>=◌}
use clibutl.Vec.Slots.{Allocator, copy, store}
use clibutl.Vec.Defs.{Vec, grown}

module _ {ℓ} {A : Type ℓ} where
  -- if (v->lst==vec_MAX_CNT) v->lst=0;
  abbrev pub started : Vec A → Vec A
  started v = record v { lst = if v.lst == u32_max then 0 else v.lst }

  -- The elements of a full ring, moved apart in the larger buffer.
  unfoldable pub spread : Vec A → (new_vec : List A) → (new_max : ℕ) → Option (Bool × Vec A)
  spread v new_vec new_max =
      if v.fst == 0
      then some (true, record v { vec = new_vec; max = new_max; lst = v.max })
      else if ltb v.fst (v.max / 2)
      then (do
        vec ← copy new_vec v.max 0 v.fst
        some (true, record v { vec = vec; max = new_max; lst = add32 v.max v.fst }))
      else (let n = v.max - v.fst in
          do
            vec ← copy new_vec (sub32 new_max n) v.fst n
            some (true, record v { vec = vec; max = new_max; fst = sub32 new_max n }))

  -- `utl_que_makeroom`, where `v->lst` has been started.
  unfoldable pub que_grow : Allocator A → Vec A → Option (Bool × Vec A)
  que_grow os v =
      let new_max = grown v.max in
      elim (os.realloc v.vec (mul32 new_max v.esz) v.esz) [
        | none ↦ some (false, v)
        | some new_vec ↦ spread v new_vec new_max
      ]

  unfoldable pub que_makeroom : Allocator A → Vec A → Option (Bool × Vec A)
  que_makeroom os v =
      let v' = started v in if ltb v'.cnt v'.max then some (true, v') else que_grow os v'

  -- The end of `utl_vec_enq`: the element is written to slot `lst`, and `lst` goes on.
  unfoldable pub enq_last : Vec A → Option (Option ℕ × Vec A)
  enq_last v = do
    vec ← store v.vec v.lst v.elm
    let next = add32 v.lst 1
    some (
      some v.lst,
      record v {
        vec = vec;
        cnt = add32 v.cnt 1;
        lst = if leb v.max next then 0 else next;
        sorted = false;
      },
    )

  unfoldable pub vec_enq : Allocator A → Vec A → Option (Option ℕ × Vec A)
  vec_enq os v = do (done, v') ← que_makeroom os v; if done then enq_last v' else some (none, v')

  -- The macro: the element goes into `*elm` first.
  unfoldable pub vecenq : Allocator A → Vec A → A → Option (Option ℕ × Vec A)
  vecenq os v e = vec_enq os (record v { elm = e })

  -- The first half of `utl_vec_deq`.
  abbrev pub step_first : Vec A → Vec A
  step_first v =
      if ltb 0 v.cnt
      then (let next = add32 v.fst 1 in
          record v { fst = if leb v.max next then 0 else next; cnt = v.cnt - 1 })
      else v

  unfoldable pub vec_deq : Vec A → Vec A
  vec_deq v = let w = step_first v in if w.cnt == 0 then record w { fst = 0; lst = 0 } else w

  unfoldable pub vec_deq_all : Vec A → Vec A
  vec_deq_all v = record v { cnt = 0; fst = 0; lst = 0 }

  -- while (utl_h(elm,v->esz) == 0xFFFFFFFF): the first slot in use from `k` on. `stored` reads the
  -- hash value at the end of a slot; a read past the buffer is the fault.
  unfoldable pub first_used : (stored : A → ℕ) → (k : ℕ) → List A → Option ℕ
  first_used stored k [] = none
  first_used stored k (x ∷ xs) =
      let rest = first_used stored (suc k) xs in if stored x == u32_max then rest else some k

  -- `utl_vec_first`: the slot that it picks.
  unfoldable pub first_slot : (stored : A → ℕ) → Vec A → Option ℕ
  first_slot stored v = elim (v.hsh) [
    | some h ↦ first_used stored 0 v.vec
    | none ↦ some (if v.fst == u32_max then 0 else v.fst)
  ]

  unfoldable pub vec_first : (stored : A → ℕ) → Vec A → Option (Option ℕ × Vec A)
  vec_first stored v = if v.cnt == 0 then some (none, record v { cur = u32_max }) else (do
    k ← first_slot stored v
    x ← get_elem? v.vec k
    some (some k, record v { cur = k; elm = x }))
