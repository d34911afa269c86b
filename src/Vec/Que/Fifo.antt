-- ===== src/Vec/Que/Fifo.antt =====
-- `utl_vec_enq` against a list: the element goes to the end of the queue, also where the ring is full
-- and grows.
use native.Mathlib.Nat.{mul-le-mul_right, mul-div_cancel}
use clibutl.Prelude.{
  ℕ, ◌+◌, ◌*◌, ◌/◌, ◌%◌, ◌≤◌, ◌<◌, ◌≡◌, ◌⊎◌, ◌∙◌, refl, ap, ap₂, get_elem?, get_elem?-set_self,
  false, Bool, [], ◌∷◌, ◌++◌, Option, none, some, length, take-all, ltb, if◌then◌else◌, u32_mod,
  mul32, mul32_exact, arith, Bool-cases, Option-cases, inl, inr,
}
use clibutl.Prelude.Fault.{Ends, Ends-map, Ends-bind}
use clibutl.Vec.Slots.{Allocator}
use clibutl.Vec.Defs.{Vec, grown}
use clibutl.Vec.Growth.{IsAffordable, IsAffordable-lt, max-lt}
use clibutl.Vec.Que.{started, spread, que_grow, que_makeroom, enq_last, vec_enq, vecenq}
use clibutl.Vec.Que.Inv.{contents, wrapped, IsQueue}
use clibutl.Vec.Que.Enq.{last-lt, enq_last-enqueued, contents-enqueued, enqueued-IsQueue}
use clibutl.Vec.Que.Grow.{IsReady, spread-IsReady}

module _ {ℓ} {A : Type ℓ} where
  started-IsQueue : (v : Vec A) → IsQueue v → IsQueue (started v)
  started-IsQueue v q = ground (arith, q.valid, q.start, q.behind, q.even, max-lt q.valid)

  with_elm_queue : (v : Vec A) (e : A) → IsQueue v → IsQueue (record v { elm = e })
  with_elm_queue v e q = ground (arith, q.valid, q.start, q.behind, q.even)

  started_last : (v : Vec A) → IsQueue v → (started v).lst ≡ wrapped v.max (v.fst + v.cnt)
  started_last v q = q.behind

module _ {ℓ} {A : Type ℓ} (os : Allocator A) where
  -- No memory, and the vector as it was; or the same queue with a free slot.
  abbrev MadeRoom : Vec A → Bool × Vec A → Type ℓ
  MadeRoom v r =
      ((r.0 ≡ false)
        × (r.1 ≡ v)
        × (v.max ≤ v.cnt)
        × (os.realloc v.vec (mul32 (grown v.max) v.esz) v.esz ≡ none))
      ⊎ IsReady v r

  module _ (v : Vec A) (q : IsQueue v) (afford : IsAffordable v v.max)
      (last : v.lst ≡ wrapped v.max (v.fst + v.cnt)) where
    new_max_bounds :
        (grown v.max % 2 ≡ 0)
        × (v.max + v.max / 2 ≤ grown v.max)
        × (grown v.max ≤ v.max + v.max / 2 + 1)
    new_max_bounds = omega (arith, IsAffordable-lt os v v.max q.valid afford)

    que_grow-MadeRoom : v.cnt ≡ v.max → Ends (que_grow os v) (MadeRoom v)
    unfolding que_grow
    que_grow-MadeRoom full =
        elim (Option-cases (os.realloc v.vec (mul32 (grown v.max) v.esz) v.esz)) [
          | inl refused ↦ rw (refused, Ends) (inl (refl, refl, omega arith, refused))
          | inr (ys, given) ↦
              let (even, big, small) = new_max_bounds in
              let fits : grown v.max * v.esz < u32_mod =
                omega (arith, mul-le-mul_right v.esz small) in
              let size : mul32 (grown v.max) v.esz / v.esz ≡ grown v.max =
                rw (mul32_exact (grown v.max) v.esz fits)
                  (mul-div_cancel (grown v.max) q.valid.sized) in
              rw (given, Ends)
                (Ends-map (IsReady v) (MadeRoom v) (spread v ys (grown v.max)) (λ r h. inr h)
                  (spread-IsReady v ys (grown v.max) q full last
                    (os.length-realloc _ _ _ _ given ∙ size) even big fits
                    (omega (arith, IsAffordable-lt os v v.max q.valid afford))
                    (os.take-realloc _ _ _ _ (length v.vec) given (omega arith)
                        (omega (arith, size, q.valid.slots))
                      ∙ take-all (length v.vec) v.vec (omega arith))))
        ]

  que_makeroom-MadeRoom :
      (v : Vec A)
      → IsQueue v
      → IsAffordable v v.max
      → Ends (que_makeroom os v) (MadeRoom (started v))
  unfolding que_makeroom
  que_makeroom-MadeRoom v q afford = elim (Bool-cases (ltb v.cnt v.max)) [
    | inl room ↦
        rw (room, Ends)
          (inr (record {
            done = refl;
            opened = record {
              queue = started-IsQueue v q;
              room = ground arith;
              last = started_last v q;
            };
            same = refl;
            elm = refl;
          }))
    | inr full ↦
        rw (full, Ends)
          (que_grow-MadeRoom (started v) (started-IsQueue v q) afford (started_last v q)
            (ground (arith, q.valid)))
  ]

  -- The ring is full, `realloc` refuses the larger one, and the queue is as it was; or the queue has
  -- the spare element at its end, in the slot that is returned.
  abbrev pub EnqueuedTo : Vec A → Option ℕ × Vec A → Type ℓ
  EnqueuedTo v r =
      ((r.0 ≡ none)
        × (v.max ≤ v.cnt)
        × (os.realloc v.vec (mul32 (grown v.max) v.esz) v.esz ≡ none)
        × IsQueue r.1
        × (contents r.1 ≡ contents v))
      ⊎ ((k : ℕ) × (r.0 ≡ some k)
          × (get_elem? (r.1).vec k ≡ some v.elm)
          × IsQueue r.1
          × (contents r.1 ≡ contents v ++ (v.elm ∷ [])))

  enq-EnqueuedTo :
      (v : Vec A) → IsQueue v → IsAffordable v v.max → Ends (vec_enq os v) (EnqueuedTo v)
  unfolding vec_enq
  enq-EnqueuedTo v q afford =
      Ends-bind (MadeRoom (started v)) (EnqueuedTo v) (que_makeroom os v) _
        (que_makeroom-MadeRoom v q afford) step
    where
      step :
          (r : Bool × Vec A)
          → MadeRoom (started v) r
          → Ends (if r.0 then enq_last r.1 else some (none, r.1)) (EnqueuedTo v)
      step (b, u) (inl (failed, same, full, refused)) =
          rw (failed, same, Ends) (inl (refl, full, refused, started-IsQueue v q, refl))
      step (b, u) (inr ready) =
          rw (ready.done, enq_last-enqueued u ready.opened, Ends)
            (inr (
              u.lst,
              refl,
              get_elem?-set_self u.vec u.lst u.elm
                    (omega (arith, last-lt u ready.opened, ready.opened.queue.valid.slots))
                  ∙ ap some ready.elm,
              enqueued-IsQueue u ready.opened,
              contents-enqueued u ready.opened ∙ ap₂ (λ xs e. xs ++ (e ∷ [])) ready.same ready.elm,
            ))

  -- `vecenq` appends the element to the queue, also where the ring is full and is moved to a larger
  -- buffer, and keeps the invariant. It returns the slot of the element, or NULL only where the
  -- ring is full and `realloc` refuses the larger one, and the queue is then as it was. No slot outside the buffer is touched, and no `memcpy`
  -- has overlapping ranges.
  pub vecenq_lem :
      (v : Vec A) (e : A)
      → IsQueue v
      → IsAffordable v v.max
      → Ends (vecenq os v e) (EnqueuedTo (record v { elm = e }))
  unfolding vecenq
  vecenq_lem v e q afford = enq-EnqueuedTo (record v { elm = e }) (with_elm_queue v e q) afford
