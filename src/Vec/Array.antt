-- ===== src/Vec/Array.antt =====
-- src/utl_vec.c: setting, inserting and removing elements, against operations on the list of items.
use clibutl.Prelude.{
  ℕ, ◌≤◌, ◌<◌, ◌≡◌, ◌⊎◌, refl, Bool, true, false, Option, none, some, length, set, ltb, ◌==◌,
  u32_max, if◌then◌else◌, inl, inr, arith, length-set,
}
use clibutl.Prelude.Fault.{Ends, Ends-bind}
use clibutl.Vec.Slots.{Allocator}
use clibutl.Vec.Defs.{Vec, or_at, makeroom, extend, vec_alloc, fill, vec_set}
use clibutl.Vec.Growth.{IsValid, IsAffordable, NoMemory, HasRoom, max-lt, makeroom-HasRoom}

module _ {ℓ} {A : Type ℓ} where
  -- What a write of the spare element to slot `k` leaves.
  abbrev pub put : Vec A → ℕ → Vec A
  put v k = record (extend v k) { vec = set v.vec k v.elm }

  pub put-IsValid : (v : Vec A) (k : ℕ) → IsValid v → k < v.max → IsValid (put v k)
  put-IsValid v k valid lt = ground (arith, max-lt valid, length-set v.vec k v.elm)

  pub fill_lem :
      (v : Vec A) (k : ℕ)
      → k < length v.vec
      → fill (some k) v ≡ some (some k, record v { vec = set v.vec k v.elm })
  unfolding fill
  fill_lem v k lt = let e : ltb k (length v.vec) ≡ true = ground arith in rw e

module _ {ℓ} {A : Type ℓ} (os : Allocator A) where
  -- Why an operation returned NULL: the buffer is too small, `realloc` refuses a larger one, and the
  -- vector is as it was.
  abbrev pub Refused : Vec A → ℕ → Option ℕ → Vec A → Type ℓ
  Refused v n p w = (p ≡ none) × (v.max ≤ n) × NoMemory os v n × (w ≡ v)

  abbrev AllocTo : Vec A → ℕ → Option ℕ × Vec A → Type ℓ
  AllocTo v k (p, w) =
      Refused v k p w ⊎ ((u : Vec A) × HasRoom os v k true u × (p ≡ some k) × (w ≡ extend u k))

  abbrev pub SetTo : Vec A → ℕ → Option ℕ × Vec A → Type ℓ
  SetTo v k (p, w) =
      Refused v k p w ⊎ ((u : Vec A) × HasRoom os v k true u × (p ≡ some k) × (w ≡ put u k))

  alloc-AllocTo :
      (v : Vec A) (i : ℕ)
      → IsValid v
      → IsAffordable v (or_at i v.cnt)
      → Ends (vec_alloc os v i) (AllocTo v (or_at i v.cnt))
  unfolding vec_alloc
  alloc-AllocTo v i valid afford =
      Ends-bind (λ r. HasRoom os v (or_at i v.cnt) r.0 r.1) (AllocTo v (or_at i v.cnt))
        (makeroom os v (or_at i v.cnt)) _ (makeroom-HasRoom os v _ valid afford) step
    where
      step :
          (r : Bool × Vec A)
          → HasRoom os v (or_at i v.cnt) r.0 r.1
          → Ends
              (if r.0
                then some (some (or_at i v.cnt), extend r.1 (or_at i v.cnt))
                else some (none, r.1))
              (AllocTo v (or_at i v.cnt))
      step (true, u) h = inr (u, h, refl, refl)
      step (false, u) h =
          let (full, refused, same) = h.failed refl in inl (refl, full, refused, same)

  pub set-SetTo :
      (v : Vec A) (i : ℕ)
      → IsValid v
      → IsAffordable v (or_at i v.cnt)
      → Ends (vec_set os v i) (SetTo v (or_at i v.cnt))
  unfolding vec_set fill
  set-SetTo v i valid afford =
      Ends-bind (AllocTo v (or_at i v.cnt)) (SetTo v (or_at i v.cnt)) (vec_alloc os v i) _
        (alloc-AllocTo v i valid afford) step
    where
      step :
          (r : Option ℕ × Vec A)
          → AllocTo v (or_at i v.cnt) r
          → Ends (fill r.0 r.1) (SetTo v (or_at i v.cnt))
      step (p, w) (inl (null, full, refused, same)) =
          rw (null, same, Ends) (inl (refl, full, refused, refl))
      step (p, w) (inr (u, h, found, same)) =
          rw
            (
              found,
              same,
              fill_lem (extend u (or_at i v.cnt)) (or_at i v.cnt)
                  (omega (arith, h.room refl, h.valid.slots)),
              Ends,
            )
            (inr (u, h, refl, refl))

  -- With the slot there, `utl_vec_set` writes it and asks for no memory.
  pub set_present :
      (v : Vec A) (k : ℕ)
      → IsValid v
      → k < v.max
      → k < u32_max
      → vec_set os v k ≡ some (some k, put v k)
  unfolding vec_set vec_alloc makeroom
  set_present v k valid lt small =
      let at : (k == u32_max) ≡ false = ground arith in
      let room : ltb k v.max ≡ true = ground arith in
      rw (at, room) (fill_lem (extend v k) k (omega (arith, valid.slots)))
