-- ===== src/Vec/Buf/Insc.antt =====
-- src/utl_vec.c, `utl_buf_insc`: what becomes of a character that is inserted at the end of a text.
use clibutl.Prelude.{
  ℕ, ◌+◌, ◌≤◌, ◌≡◌, ◌⊎◌, ◌∙◌, refl, ap, Bool, true, false, Option, none, some, length, set, take,
  ltb, add32, if◌then◌else◌, inl, inr, arith, length-set,
}
use clibutl.Prelude.Fault.{◌>>=◌, Ends, Ends-bind}
use clibutl.Vec.Slots.{Allocator, store}
use clibutl.Vec.Defs.{Vec, items, makeroom, open_gap, makegap}
use clibutl.Vec.Growth.{IsValid, IsAffordable, NoMemory, HasRoom, IsAffordable-lt, makeroom-HasRoom}
use clibutl.Vec.Insert.{HasRoom-items}
use clibutl.Vec.Buf.{IsText, Terminated, terminate, terminate_lem, take-set_past, IsAffordable-less}

-- `utl_buf_insc`, behind its test of `utl_vec_makegap`.
unfoldable pub insc_gap : Allocator ℕ → Vec ℕ → (i c : ℕ) → Option (Option ℕ × Vec ℕ)
insc_gap os b i c = do
  vec ← store b.vec i c
  b' ← terminate os (record b { vec = vec })
  some (some i, b')

unfoldable pub buf_insc : Allocator ℕ → Vec ℕ → (i c : ℕ) → Option (Option ℕ × Vec ℕ)
buf_insc os b i c = do
  (done, b') ← makegap os b i 1
  if done then insc_gap os b' i c else some (none, b')

-- The slot is found, and the text is as before.
abbrev pub Lost : Allocator ℕ → Vec ℕ → Option ℕ × Vec ℕ → Type 0
Lost os b (p, w) =
    ((p ≡ none) × (b.max ≤ b.cnt + 1) × NoMemory os b (b.cnt + 1) × (w ≡ b))
    ⊎ ((p ≡ some b.cnt) × IsText w × (items w ≡ items b))

module _ (os : Allocator ℕ) (b : Vec ℕ) (c : ℕ) (valid : IsValid b)
    (afford : IsAffordable b (b.cnt + 1)) where
  terminated :
      (u w : Vec ℕ)
      → HasRoom os b (b.cnt + 1) true u
      → Terminated os (record u { vec = set u.vec b.cnt c }) w
      → Lost os b (some b.cnt, w)
  unfolding Terminated
  terminated u w h (inl (full, refused, e)) =
      absurd (omega (arith, full, h.room refl, ap (λ (x : Vec ℕ). x.cnt) h.rest))
  terminated u w h (inr (text, same)) =
      let cnt_same : u.cnt ≡ b.cnt = ap (λ (x : Vec ℕ). x.cnt) h.rest in
      inr (
        refl,
        text,
        same
            ∙ ap (λ n. take n (set u.vec b.cnt c)) cnt_same
            ∙ take-set_past b.cnt u.vec c
            ∙ HasRoom-items (b.cnt + 1) b.cnt h valid.count,
      )

  gap-Lost :
      (u : Vec ℕ) → HasRoom os b (b.cnt + 1) true u → Ends (insc_gap os u b.cnt c) (Lost os b)
  unfolding insc_gap
  gap-Lost u h =
      let cnt_same : u.cnt ≡ b.cnt = ap (λ (x : Vec ℕ). x.cnt) h.rest in
      let esz_same : u.esz ≡ b.esz = ap (λ (x : Vec ℕ). x.esz) h.rest in
      let fits : ltb b.cnt (length u.vec) ≡ true = ground (arith, h.room refl, h.valid.slots) in
      rw fits (
        Ends-bind (Terminated os (record u { vec = set u.vec b.cnt c })) (Lost os b)
          (terminate os (record u { vec = set u.vec b.cnt c })) _
          (terminate_lem os (record u { vec = set u.vec b.cnt c })
            (omega (arith, h.valid, length-set u.vec b.cnt c))
            (rw (cnt_same, esz_same) (IsAffordable-less b b.cnt afford)))
          (λ w t. terminated u w h t))

  makegap_end : Ends (makegap os b b.cnt 1) (λ r. HasRoom os b (b.cnt + 1) r.0 r.1)
  unfolding makegap open_gap
  makegap_end =
      Ends-bind (λ r. HasRoom os b (b.cnt + 1) r.0 r.1) (λ r. HasRoom os b (b.cnt + 1) r.0 r.1)
        (makeroom os b (add32 b.cnt 1)) _ (rw next (makeroom-HasRoom os b (b.cnt + 1) valid afford))
        step
    where
      next : add32 b.cnt 1 ≡ b.cnt + 1
      next = omega (arith, IsAffordable-lt os b (b.cnt + 1) valid afford)

      step :
          (r : Bool × Vec ℕ)
          → HasRoom os b (b.cnt + 1) r.0 r.1
          → Ends
              (if r.0 then open_gap r.1 b.cnt 1 else some (false, r.1))
              (λ r. HasRoom os b (b.cnt + 1) r.0 r.1)
      step (true, u) h =
          let cnt_same : u.cnt ≡ b.cnt = ap (λ (x : Vec ℕ). x.cnt) h.rest in
          let end : ltb b.cnt u.cnt ≡ false = ground arith in rw (end, Ends) h
      step (false, u) h = h

  -- Inserting at the end of the text, where `utl_vec_makegap` succeeds without raising the count,
  -- returns the slot, and the NUL is then written over the character: the text is as before.
  pub buf_insc_end : Ends (buf_insc os b b.cnt c) (Lost os b)
  unfolding buf_insc
  buf_insc_end =
      Ends-bind (λ r. HasRoom os b (b.cnt + 1) r.0 r.1) (Lost os b) (makegap os b b.cnt 1) _
        makegap_end step
    where
      step :
          (r : Bool × Vec ℕ)
          → HasRoom os b (b.cnt + 1) r.0 r.1
          → Ends (if r.0 then insc_gap os r.1 b.cnt c else some (none, r.1)) (Lost os b)
      step (true, u) h = gap-Lost u h
      step (false, u) h =
          let (full, refused, same) = h.failed refl in inl (refl, full, refused, same)
