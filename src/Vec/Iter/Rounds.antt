-- ===== src/Vec/Iter/Rounds.antt =====
-- src/utl_vec.c: `utl_vec_next` and `utl_vec_last` on a queue whose end has gone round the buffer.
use clibutl.Prelude.{
  ℕ, zero, suc, ◌≤◌, ◌<◌, ◌≡◌, ◌≢◌, refl, true, false, List, [], ◌∷◌, none, some, length, take,
  get_elem?, ◌==◌, u32_max, arith,
}
use clibutl.Vec.Defs.{Vec}
use clibutl.Vec.Growth.{IsValid, max-lt}
use clibutl.Vec.Que.{vec_first}
use clibutl.Vec.Que.Inv.{contents, IsQueue}
use clibutl.Vec.Que.Deq.{contents-split, first_slot-fst}
use clibutl.Vec.Iter.{last_slot, vec_last, vec_next}
use clibutl.Vec.Iter.Visit.{visit, visit_all}

get_elem?-past {ℓ} : {A : Type ℓ} (xs : List A) (k : ℕ) → length xs ≤ k → get_elem? xs k ≡ none
get_elem?-past [] k le = refl
get_elem?-past (x ∷ xs) zero le = absurd (omega arith)
get_elem?-past (x ∷ xs) (suc k) le = get_elem?-past xs k (omega arith)

module _ {ℓ} {A : Type ℓ} (stored : A → ℕ) (v : Vec A) where
  -- In a queue that fills its buffer `lst` is `fst` again, and `utl_vec_next` takes the oldest
  -- element for the last one: going through the queue shows that element only.
  pub visit_all-full :
      IsQueue v
      → v.hsh ≡ none
      → v.lst ≢ u32_max
      → v.cnt ≡ v.max
      → visit_all stored 2 v ≡ some (take 1 (contents v))
  unfolding visit_all visit vec_first vec_next
  visit_all-full q plain started filled =
      let (x, found, split) = contents-split v q (omega (arith, q.valid.positive)) in
      let some_left : (v.cnt == 0) ≡ false = ground (arith, q.valid.positive) in
      let round : (v.fst == v.lst) ≡ true = ground (arith, q.start, q.behind) in
      let first : vec_first stored v ≡ some (some v.fst, record v { cur = v.fst; elm = x }) =
        rw (some_left, first_slot-fst v q stored plain, found, vec_first) refl in
      let next : vec_next stored (record v { cur = v.fst; elm = x })
          ≡ some (none, record v { cur = u32_max; elm = x }) =
        rw (some_left, round, vec_next) refl in
      rw (split, first, visit_all) (rw (next, visit) refl)

  -- Where the end of a queue is at slot 0, as it is after the last slot of the buffer was used,
  -- `utl_vec_last` reads outside the buffer.
  vec_last-wrapped : IsValid v → v.hsh ≡ none → 0 < v.cnt → v.lst ≡ 0 → vec_last stored v ≡ none
  unfolding vec_last last_slot
  vec_last-wrapped valid plain pos round =
      let some_left : (v.cnt == 0) ≡ false = ground arith in
      let behind : get_elem? v.vec u32_max ≡ none =
        get_elem?-past v.vec u32_max (omega (arith, valid.slots, max-lt valid)) in
      rw (some_left, plain, round, behind) refl
