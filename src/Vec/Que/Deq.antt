-- ===== src/Vec/Que/Deq.antt =====
-- `utl_vec_first` and `utl_vec_deq` take the oldest element of the queue.
use mathlib.Core.List.{append-nil}
use clibutl.Prelude.{
  ℕ, suc, ◌-◌, ◌≤◌, ◌<◌, ◌≡◌, ◌⊎◌, ◌∙◌, sym, ap, true, false, [], ◌∷◌, none, some, length, take,
  get_elem?, leb, ltb, ◌==◌, if◌then◌else◌, u32_max, add32, arith, Bool-cases, inl, inr,
}
use clibutl.Vec.Defs.{Vec}
use clibutl.Vec.Growth.{max-lt}
use clibutl.Vec.Que.{vec_deq, vec_first, first_slot}
use clibutl.Vec.Que.Inv.{contents, rotate, IsQueue}
use clibutl.Vec.Que.Ring.{rotate-first, rotate-last}

module _ {ℓ} {A : Type ℓ} (v : Vec A) (q : IsQueue v) where
  -- The slot that the second oldest element is in, if there is one.
  abbrev second : ℕ
  second = if leb v.max (suc v.fst) then 0 else suc v.fst

  deq-IsQueue : IsQueue (vec_deq v)
  unfolding vec_deq
  deq-IsQueue = ground (arith, q.valid, q.start, q.behind, max-lt q.valid)

  contents-deq : 0 < v.cnt → contents (vec_deq v) ≡ take (v.cnt - 1) (rotate second v.vec)
  unfolding vec_deq
  contents-deq pos =
      let some_left : ltb 0 v.cnt ≡ true = ground arith in
      let next : add32 v.fst 1 ≡ suc v.fst = omega (arith, max-lt q.valid, q.start) in
      elim (Bool-cases (v.cnt - 1 == 0)) [
        | inl last ↦
            let zero_left : v.cnt - 1 ≡ 0 = ground arith in rw (some_left, next, last, zero_left)
        | inr more ↦ rw (some_left, next, more)
      ]

  pub contents-split :
      0 < v.cnt
      → (x : A) × (get_elem? v.vec v.fst ≡ some x) × (contents v ≡ x ∷ contents (vec_deq v))
  contents-split pos =
      let count : v.cnt ≡ suc (v.cnt - 1) = omega arith in
      let size : suc (v.cnt - 1) ≤ length v.vec = omega (arith, q.valid.slots, q.valid.count) in
      rw (contents-deq pos) (elim (Bool-cases (leb v.max (suc v.fst))) [
        | inl last ↦
            let end : suc v.fst ≡ length v.vec = ground (arith, q.start, q.valid.slots) in
            let (x, found, split) = rotate-last v.vec v.fst (v.cnt - 1) end size in
            let next : second ≡ 0 = rw last in
            let rest : take (v.cnt - 1) (rotate second v.vec) ≡ take (v.cnt - 1) v.vec =
              ap (λ k. take (v.cnt - 1) (rotate k v.vec)) next
              ∙ ap (take (v.cnt - 1)) (append-nil v.vec) in
            (
              x,
              found,
              ap (λ n. take n (rotate v.fst v.vec)) count ∙ split ∙ ap (λ ys. x ∷ ys) (sym rest),
            )
        | inr more ↦
            let inner : suc v.fst < length v.vec = ground (arith, q.start, q.valid.slots) in
            let (x, found, split) = rotate-first v.vec v.fst (v.cnt - 1) inner size in
            let next : second ≡ suc v.fst = rw more in
            let rest : take (v.cnt - 1) (rotate second v.vec)
                ≡ take (v.cnt - 1) (rotate (suc v.fst) v.vec) =
              ap (λ k. take (v.cnt - 1) (rotate k v.vec)) next in
            (
              x,
              found,
              ap (λ n. take n (rotate v.fst v.vec)) count ∙ split ∙ ap (λ ys. x ∷ ys) (sym rest),
            )
      ])

  deq_empty : v.cnt ≡ 0 → contents (vec_deq v) ≡ []
  unfolding vec_deq
  deq_empty zero_left =
      let empty : ltb 0 v.cnt ≡ false = ground arith in
      let still : (v.cnt == 0) ≡ true = ground arith in
      rw (empty, still) (ap (λ n. take n (rotate 0 v.vec)) zero_left)

  pub first_slot-fst : (stored : A → ℕ) → v.hsh ≡ none → first_slot stored v ≡ some v.fst
  unfolding first_slot
  first_slot-fst stored plain =
      let at : (v.fst == u32_max) ≡ false = ground (arith, q.start, max-lt q.valid) in
      rw (plain, at)

  -- `vecfirst` on a vector with no hash function finds the oldest element and `vecdeq` takes it off;
  -- what is left are the others in their order. On an empty queue there is no first element, and
  -- `vecdeq` leaves it empty. Both stay inside the buffer, and `vecdeq` keeps the invariant.
  pub vec_first-vec_deq :
      (stored : A → ℕ)
      → v.hsh ≡ none
      → IsQueue (vec_deq v)
        × (((contents v ≡ [])
              × (vec_first stored v ≡ some (none, record v { cur = u32_max }))
              × (contents (vec_deq v) ≡ []))
            ⊎ ((x : A) × (vec_first stored v ≡ some (some v.fst, record v { cur = v.fst; elm = x }))
                × (contents v ≡ x ∷ contents (vec_deq v))))
  unfolding vec_first
  vec_first-vec_deq stored plain = (
    deq-IsQueue,
    elim (Bool-cases (v.cnt == 0)) [
      | inl empty ↦
          let zero_left : v.cnt ≡ 0 = ground arith in
          inl (ap (λ n. take n (rotate v.fst v.vec)) zero_left, rw empty, deq_empty zero_left)
      | inr more ↦
          let (x, found, split) = contents-split (ground arith) in
          inr (x, rw (more, first_slot-fst stored plain, found), split)
    ],
  )
