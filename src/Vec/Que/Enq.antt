-- ===== src/Vec/Que/Enq.antt =====
-- `utl_vec_enq` where there is room: the element is appended to the queue.
use clibutl.Prelude.{
  suc, ◌+◌, ◌<◌, ◌≡◌, true, false, [], ◌∷◌, ◌++◌, some, length, set, leb, ltb, if◌then◌else◌, add32,
  arith, Bool-cases, inl, inr, length-set,
}
use clibutl.Vec.Defs.{Vec}
use clibutl.Vec.Growth.{max-lt}
use clibutl.Vec.Que.{enq_last}
use clibutl.Vec.Que.Inv.{contents, wrapped, rotate, IsQueue}
use clibutl.Vec.Que.Ring.{rotate-set_below, rotate-set_round, take-set_append, length-rotate}

module _ {ℓ} {A : Type ℓ} where
  -- A queue with a free slot at `lst`.
  pub record IsOpen (v : Vec A) : Type 0 where
    pub queue : IsQueue v
    pub room : v.cnt < v.max
    pub last : v.lst ≡ wrapped v.max (v.fst + v.cnt)

  module _ (v : Vec A) (o : IsOpen v) where
    pub last-lt : v.lst < v.max
    last-lt = ground (arith, o.queue.start, o.room, o.last)

    -- The vector that `enq_last` leaves.
    abbrev pub enqueued : Vec A
    enqueued = record v {
      vec = set v.vec v.lst v.elm;
      cnt = add32 v.cnt 1;
      lst = if leb v.max (add32 v.lst 1) then 0 else add32 v.lst 1;
      sorted = false;
    }

    pub enq_last-enqueued : enq_last v ≡ some (some v.lst, enqueued)
    unfolding enq_last
    enq_last-enqueued =
        let inside : ltb v.lst (length v.vec) ≡ true =
          ground (arith, last-lt, o.queue.valid.slots) in
        rw inside

    rotate-enqueued : rotate v.fst (set v.vec v.lst v.elm) ≡ set (rotate v.fst v.vec) v.cnt v.elm
    rotate-enqueued = elim (Bool-cases (leb v.max (v.fst + v.cnt))) [
      | inl round ↦
          rotate-set_round v.vec v.fst v.cnt v.lst v.elm
            (omega (arith, o.queue.start, o.queue.valid.slots)) (ground (arith, o.room, o.last))
            (ground (arith, o.last, o.queue.valid.slots))
      | inr below ↦
          let at : v.lst ≡ v.fst + v.cnt = ground (arith, o.last) in
          rw at (rotate-set_below v.vec v.fst v.cnt v.elm (ground (arith, o.queue.valid.slots)))
    ]

    pub contents-enqueued : contents enqueued ≡ contents v ++ (v.elm ∷ [])
    contents-enqueued =
        let count : add32 v.cnt 1 ≡ suc v.cnt = omega (arith, o.room, max-lt o.queue.valid) in
        rw (count, rotate-enqueued)
          (take-set_append (rotate v.fst v.vec) v.cnt v.elm
            (omega (arith, o.room, o.queue.start, o.queue.valid.slots, length-rotate v.fst v.vec)))

    pub enqueued-IsQueue : IsQueue enqueued
    enqueued-IsQueue = ground (
      arith,
      o.room,
      o.last,
      o.queue.start,
      o.queue.even,
      o.queue.valid,
      max-lt o.queue.valid,
      length-set v.vec v.lst v.elm,
    )
