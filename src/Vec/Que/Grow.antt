-- ===== src/Vec/Que/Grow.antt =====
-- `utl_que_makeroom`: a full ring goes to a larger buffer and is the same queue.
use clibutl.Prelude.{
  ℕ, ◌+◌, ◌-◌, ◌*◌, ◌/◌, ◌%◌, ◌≤◌, ◌<◌, ◌≡◌, ◌∙◌, refl, sym, ap, true, false, Bool, List, length,
  take, leb, ltb, ◌==◌, u32_mod, add32, sub32, arith, Bool-cases, inl, inr, take-all,
}
use clibutl.Prelude.Fault.{Ends}
use clibutl.Vec.Defs.{Vec}
use clibutl.Vec.Que.{spread}
use clibutl.Vec.Que.Inv.{contents, wrapped, rotate, IsQueue}
use clibutl.Vec.Que.Enq.{IsOpen}
use clibutl.Vec.Que.Ring.{length-rotate}
use clibutl.Vec.Que.Spread.{copied, length-copied, spread_whole, spread_front, spread_back}

module _ {ℓ} {A : Type ℓ} where
  -- What `que_makeroom` promises: the same queue, with a free slot.
  pub record IsReady (v : Vec A) (r : Bool × Vec A) : Type ℓ where
    pub done : r.0 ≡ true
    pub opened : IsOpen r.1
    pub same : contents r.1 ≡ contents v
    pub elm : r.1.elm ≡ v.elm

  module _ (v : Vec A) (new_vec : List A) (new_max : ℕ) (q : IsQueue v) (full : v.cnt ≡ v.max)
      (last : v.lst ≡ wrapped v.max (v.fst + v.cnt)) (size : length new_vec ≡ new_max)
      (even : new_max % 2 ≡ 0) (big : v.max + v.max / 2 ≤ new_max)
      (fits : new_max * v.esz < u32_mod) (small : new_max < u32_mod)
      (kept : take (length v.vec) new_vec ≡ v.vec) where
    at_full : (k : ℕ) (ys : List A) → take v.cnt (rotate k ys) ≡ take (length v.vec) (rotate k ys)
    at_full k ys = ap (λ n. take n (rotate k ys)) (full ∙ sym q.valid.slots)

    all_of : take (length v.vec) (rotate v.fst v.vec) ≡ rotate v.fst v.vec
    all_of =
        let le : v.fst ≤ length v.vec = omega (arith, q.start, q.valid.slots) in
        take-all (length v.vec) (rotate v.fst v.vec) (omega (arith, length-rotate v.fst v.vec le))

    abbrev as_whole : Vec A
    as_whole = record v { vec = new_vec; max = new_max; lst = v.max }

    whole-IsReady : v.fst ≡ 0 → IsReady v (true, as_whole)
    whole-IsReady z = record {
      done = refl;
      opened = ground (arith, q.valid, q.start);
      same =
          at_full v.fst new_vec
          ∙ ap (λ k. take (length v.vec) (rotate k new_vec)) z
          ∙ spread_whole v.vec new_vec kept
          ∙ ap (λ k. rotate k v.vec) (sym z)
          ∙ sym (at_full v.fst v.vec ∙ all_of);
      elm = refl;
    }

    abbrev as_front : Vec A
    as_front = record v {
      vec = copied new_vec v.max 0 v.fst;
      max = new_max;
      lst = add32 v.max v.fst;
    }

    front-IsReady : v.fst < v.max / 2 → 0 < v.fst → IsReady v (true, as_front)
    front-IsReady h pos = record {
      done = refl;
      opened = ground (arith, q.valid, q.start, length-copied new_vec v.max 0 v.fst);
      same =
          at_full v.fst as_front.vec
          ∙ ap (λ m. take (length v.vec) (rotate v.fst (copied new_vec m 0 v.fst)))
              (sym q.valid.slots)
          ∙ spread_front v.vec new_vec kept v.fst (omega (arith, q.valid.slots))
          ∙ sym (at_full v.fst v.vec ∙ all_of);
      elm = refl;
    }

    abbrev as_back : Vec A
    as_back = record v {
      vec = copied new_vec (new_max - (v.max - v.fst)) v.fst (v.max - v.fst);
      max = new_max;
      fst = new_max - (v.max - v.fst);
    }

    back-IsReady : v.max / 2 ≤ v.fst → IsReady v (true, as_back)
    back-IsReady h = record {
      done = refl;
      opened = ground (
        arith,
        q.valid,
        q.start,
        last,
        full,
        length-copied new_vec (new_max - (v.max - v.fst)) v.fst (v.max - v.fst),
      );
      same =
          at_full as_back.fst as_back.vec
          ∙ ap
              (λ m. take (length v.vec) (
                rotate (new_max - (m - v.fst))
                  (copied new_vec (new_max - (m - v.fst)) v.fst (m - v.fst))))
              (sym q.valid.slots)
          ∙ spread_back v.vec new_vec kept v.fst (new_max - (length v.vec - v.fst))
              (omega (arith, q.valid.slots, q.start)) (omega (arith, q.valid.slots, q.start))
              (omega (arith, q.valid.slots, q.start))
          ∙ sym (at_full v.fst v.vec ∙ all_of);
      elm = refl;
    }

    pub spread-IsReady : Ends (spread v new_vec new_max) (IsReady v)
    unfolding spread
    spread-IsReady = elim (Bool-cases (v.fst == 0)) [
      | inl z ↦ rw (z, Ends) (whole-IsReady (ground arith))
      | inr nz ↦ elim (Bool-cases (ltb v.fst (v.max / 2))) [
        | inl lt ↦
            let apart : leb (0 + v.fst) v.max ≡ true = ground arith in
            let dst : leb (v.max + v.fst) (length new_vec) ≡ true = ground arith in
            let src : leb (0 + v.fst) (length new_vec) ≡ true = ground arith in
            let over : leb (v.max + v.fst) 0 ≡ false = ground arith in
            rw (nz, lt, over, apart, dst, src, Ends) (front-IsReady (ground arith) (ground arith))
        | inr ge ↦
            let back : sub32 new_max (v.max - v.fst) ≡ new_max - (v.max - v.fst) =
              omega (arith, q.start) in
            let apart : leb (v.fst + (v.max - v.fst)) (new_max - (v.max - v.fst)) ≡ true =
              ground (arith, q.start, q.even) in
            let over : leb (new_max - (v.max - v.fst) + (v.max - v.fst)) v.fst ≡ false =
              ground (arith, q.start) in
            let dst : leb (new_max - (v.max - v.fst) + (v.max - v.fst)) (length new_vec) ≡ true =
              ground (arith, q.start) in
            let src : leb (v.fst + (v.max - v.fst)) (length new_vec) ≡ true =
              ground (arith, q.start) in
            rw (nz, ge, back, over, apart, dst, src, Ends) (back-IsReady (ground arith))
      ]
    ]
