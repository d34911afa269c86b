-- ===== src/Vec/Gap.antt =====
-- src/utl_vec.c: `utl_vec_makegap` and `utl_vec_ins`, insertion into the list of items.
use clibutl.Prelude.{
  ℕ, suc, ◌+◌, ◌-◌, ◌≤◌, ◌<◌, ◌≡◌, ◌⊎◌, ◌∙◌, refl, ap, ap₂, Bool, true, false, List, ◌∷◌, ◌++◌,
  Option, none, some, length, take, drop, leb, ltb, add32, u32_max, Bool-cases, if◌then◌else◌, inl,
  inr, arith, take-set_end, take-set_shift, length-append, length-take, length-drop,
}
use clibutl.Prelude.Fault.{◌>>=◌, Ends, Ends-bind, Ends-map}
use clibutl.Vec.Slots.{Allocator}
use clibutl.Vec.Defs.{Vec, items, or_at, makeroom, open_gap, makegap, vec_set, vec_ins, vecins}
use clibutl.Vec.Growth.{
  IsValid, IsAffordable, NoMemory, HasRoom, max-lt, IsAffordable-lt, makeroom-HasRoom,
}
use clibutl.Vec.Array.{put, put-IsValid, Refused, set_present}
use clibutl.Vec.Insert.{with_elm, items_same}

module _ {ℓ} {A : Type ℓ} where
  -- The list with `e` before position `k`.
  abbrev pub insert_at : ℕ → A → List A → List A
  insert_at k e xs = take k xs ++ (e ∷ drop k xs)

  -- The buffer after the move of `makegap`.
  abbrev pub shifted : List A → (k cnt : ℕ) → List A
  shifted xs k cnt = take (suc k) xs ++ (take (cnt - k) (drop k xs) ++ drop (suc cnt) xs)

  pub length-shifted :
      (xs : List A) (k cnt : ℕ) → k < cnt → cnt < length xs → length (shifted xs k cnt) ≡ length xs
  length-shifted xs k cnt p q = omega (
    arith,
    length-append (take (suc k) xs) (take (cnt - k) (drop k xs) ++ drop (suc cnt) xs),
    length-append (take (cnt - k) (drop k xs)) (drop (suc cnt) xs),
    length-take (suc k) xs,
    length-take (cnt - k) (drop k xs),
    length-drop k xs,
    length-drop (suc cnt) xs,
  )

  pub open_gap-shifted :
      (u : Vec A) (k : ℕ)
      → IsValid u
      → k < u.cnt
      → u.cnt + 1 < u.max
      → open_gap u k 1 ≡ some (true, record u { vec = shifted u.vec k u.cnt; cnt = suc u.cnt })
  unfolding open_gap
  open_gap-shifted u k valid lt room =
      let inside : ltb k u.cnt ≡ true = ground arith in
      let dst : add32 k 1 ≡ suc k = omega (arith, max-lt valid) in
      let end : suc k + (u.cnt - k) ≡ suc u.cnt = omega arith in
      let cnt : add32 u.cnt 1 ≡ suc u.cnt = omega (arith, max-lt valid) in
      let fits : leb (suc u.cnt) (length u.vec) ≡ true = ground (arith, valid.slots) in
      let src : leb (k + (u.cnt - k)) (length u.vec) ≡ true = ground (arith, valid.slots) in
      rw (inside, dst, end, cnt, fits, src)

  open_gap-end : (u : Vec A) (k : ℕ) → ltb k u.cnt ≡ false → open_gap u k 1 ≡ some (true, u)
  unfolding open_gap
  open_gap-end u k end = rw end

  end_inserted :
      (u : Vec A) (k : ℕ)
      → IsValid u
      → u.cnt ≡ k
      → u.cnt + 1 < u.max
      → items (put u k) ≡ insert_at k u.elm (items u)
  end_inserted u k valid last room =
      let at : leb u.cnt k ≡ true = ground arith in
      let count : add32 k 1 ≡ suc u.cnt = omega (arith, max-lt valid) in
      rw (at, count, ← last) (take-set_end u.vec u.cnt u.elm (omega (arith, valid.slots)))

  -- What is left to do after `makegap`: write slot `k`, which makes the insertion.
  record Opened (u : Vec A) (k : ℕ) (r : Bool × Vec A) : Type ℓ where
    done : r.0 ≡ true
    valid : IsValid r.1
    room : k < r.1.max
    inserted : items (put r.1 k) ≡ insert_at k u.elm (items u)

  open_gap-Opened :
      (u : Vec A) (k : ℕ)
      → IsValid u
      → k ≤ u.cnt
      → u.cnt + 1 < u.max
      → Ends (open_gap u k 1) (Opened u k)
  open_gap-Opened u k valid le room = elim (Bool-cases (ltb k u.cnt)) [
    | inl inside ↦
        let lt : k < u.cnt = ground arith in
        rw (open_gap-shifted u k valid lt room, Ends)
          (record {
            done = refl;
            valid = omega (arith, length-shifted u.vec k u.cnt lt (omega (arith, valid.slots)));
            room = omega arith;
            inserted =
                let inner : leb (suc u.cnt) k ≡ false = ground arith in
                rw inner (take-set_shift u.vec k u.cnt u.elm le (omega (arith, valid.slots)));
          })
    | inr end ↦
        let last : u.cnt ≡ k = ground arith in
        rw (open_gap-end u k end, Ends)
          (record {
            done = refl;
            valid = valid;
            room = omega arith;
            inserted = end_inserted u k valid last room;
          })
  ]

module _ {ℓ} {A : Type ℓ} (os : Allocator A) where
  -- A vector with `e` inserted before position `k` of `xs`, or no memory for it.
  abbrev pub InsertedTo : Vec A → (k : ℕ) → Option ℕ × Vec A → Type ℓ
  InsertedTo v k (p, w) =
      Refused os (record v { sorted = false }) (v.cnt + 1) p w
      ⊎ ((p ≡ some k) × IsValid w × (items w ≡ insert_at k v.elm (items v)))

  abbrev GapTo : Vec A → (k : ℕ) → Bool × Vec A → Type ℓ
  GapTo v k r =
      ((r.0 ≡ false) × (v.max ≤ v.cnt + 1) × NoMemory os v (v.cnt + 1) × (r.1 ≡ v))
      ⊎ ((r.0 ≡ true)
          × IsValid r.1
          × (k < r.1.max)
          × (items (put r.1 k) ≡ insert_at k v.elm (items v)))

  makegap-GapTo :
      (v : Vec A) (k : ℕ)
      → IsValid v
      → k ≤ v.cnt
      → IsAffordable v (v.cnt + 1)
      → Ends (makegap os v k 1) (GapTo v k)
  unfolding makegap
  makegap-GapTo v k valid le afford =
      let sum : add32 v.cnt 1 ≡ v.cnt + 1 =
        omega (arith, IsAffordable-lt os v (v.cnt + 1) valid afford) in
      rw (sum, Ends)
        (Ends-bind (λ r. HasRoom os v (v.cnt + 1) r.0 r.1) (GapTo v k) (makeroom os v (v.cnt + 1)) _
          (makeroom-HasRoom os v (v.cnt + 1) valid afford) step)
    where
      step :
          (r : Bool × Vec A)
          → HasRoom os v (v.cnt + 1) r.0 r.1
          → Ends (if r.0 then open_gap r.1 k 1 else some (false, r.1)) (GapTo v k)
      step (false, u) h =
          let (full, refused, same) = h.failed refl in inl (refl, full, refused, same)
      step (true, u) h =
          let cnt_same : u.cnt ≡ v.cnt = ap (λ (x : Vec A). x.cnt) h.rest in
          let elm_same : u.elm ≡ v.elm = ap (λ (x : Vec A). x.elm) h.rest in
          Ends-map (Opened u k) (GapTo v k) (open_gap u k 1)
            (λ r o. inr (
              o.done,
              o.valid,
              o.room,
              o.inserted ∙ ap₂ (insert_at k) elm_same (items_same (v.cnt + 1) valid h),
            ))
            (open_gap-Opened u k h.valid (omega arith) (omega (arith, h.room refl)))

  pub ins-InsertedTo :
      (v : Vec A) (i : ℕ)
      → IsValid v
      → or_at i v.cnt ≤ v.cnt
      → IsAffordable v (v.cnt + 1)
      → Ends (vec_ins os v i) (InsertedTo v (or_at i v.cnt))
  unfolding vec_ins
  ins-InsertedTo v i valid le afford =
      Ends-bind (GapTo v (or_at i v.cnt)) (InsertedTo v (or_at i v.cnt))
        (makegap os v (or_at i v.cnt) 1) _ (makegap-GapTo v (or_at i v.cnt) valid le afford) step
    where
      small : or_at i v.cnt < u32_max
      small = omega (arith, IsAffordable-lt os v (v.cnt + 1) valid afford)

      step :
          (r : Bool × Vec A)
          → GapTo v (or_at i v.cnt) r
          → Ends
              ((if r.0 then vec_set os r.1 (or_at i v.cnt) else some (none, r.1)) >>= λ s.
                some (s.0, record (s.1) { sorted = false }))
              (InsertedTo v (or_at i v.cnt))
      step (b, u) (inl (failed, full, refused, same)) =
          rw (failed, same, Ends) (inl (refl, full, refused, refl))
      step (b, u) (inr (done, ok, room, inserted)) =
          rw (done, set_present os u (or_at i v.cnt) ok room small, Ends)
            (inr (refl, put-IsValid u (or_at i v.cnt) ok room, inserted))

  -- `vecins` at a position up to the end, or at `vec_MAX_CNT` for the end, inserts the element there.
  -- It returns NULL only where the buffer is too small and `realloc` refuses a larger one, and then
  -- only the spare element and the mark of a sorted vector have changed. No slot outside the buffer is touched.
  pub vecins_lem :
      (v : Vec A) (i : ℕ) (e : A)
      → IsValid v
      → or_at i v.cnt ≤ v.cnt
      → IsAffordable v (v.cnt + 1)
      → Ends (vecins os v i e) (InsertedTo (record v { elm = e }) (or_at i v.cnt))
  unfolding vecins
  vecins_lem v i e valid le afford =
      ins-InsertedTo (record v { elm = e }) i (with_elm v e valid) le afford
