-- ===== src/Vec/Buf/Inside.antt =====
-- src/utl_vec.c, `utl_buf_insc` inside a text.
use clibutl.Prelude.{
  ℕ, suc, ◌+◌, ◌≤◌, ◌<◌, ◌≡◌, ◌⊎◌, ◌∙◌, refl, ap, Bool, true, false, Option, none, some, length,
  set, ltb, add32, if◌then◌else◌, inl, inr, arith, length-set, take-set_shift,
}
use clibutl.Prelude.Fault.{Ends, Ends-bind}
use clibutl.Vec.Slots.{Allocator}
use clibutl.Vec.Defs.{Vec, items, makeroom, open_gap, makegap}
use clibutl.Vec.Growth.{IsValid, IsAffordable, NoMemory, HasRoom, IsAffordable-lt, makeroom-HasRoom}
use clibutl.Vec.Insert.{items_same}
use clibutl.Vec.Gap.{insert_at, shifted, length-shifted, open_gap-shifted}
use clibutl.Vec.Buf.{IsText, Terminated, terminate, terminate_lem}
use clibutl.Vec.Buf.Insc.{insc_gap, buf_insc}

module _ (os : Allocator ℕ) (b : Vec ℕ) (i c : ℕ) (valid : IsValid b) (inside : i < b.cnt)
    (afford : IsAffordable b (b.cnt + 1)) where
  -- `realloc` refuses a larger buffer, and it is as it was, or the text with the character before position `i`.
  abbrev pub Inserted : Option ℕ × Vec ℕ → Type 0
  Inserted (p, w) =
      ((p ≡ none) × (b.max ≤ b.cnt + 1) × NoMemory os b (b.cnt + 1) × (w ≡ b))
      ⊎ ((p ≡ some i) × IsText w × (items w ≡ insert_at i c (items b)))

  module _ (u : Vec ℕ) (h : HasRoom os b (b.cnt + 1) true u) where
    cnt_same : u.cnt ≡ b.cnt
    cnt_same = ap (λ (x : Vec ℕ). x.cnt) h.rest

    room : u.cnt + 1 < u.max
    room = omega (arith, h.room refl, cnt_same)

    -- The buffer with the gap, and with the character in it.
    abbrev opened : Vec ℕ
    opened = record u { vec = shifted u.vec i u.cnt; cnt = suc u.cnt }

    abbrev filled : Vec ℕ
    filled = record opened { vec = set opened.vec i c }

    opened_length : length opened.vec ≡ u.max
    opened_length =
        length-shifted u.vec i u.cnt (omega (arith, inside, cnt_same))
          (omega (arith, room, h.valid.slots))
        ∙ h.valid.slots

    filled-IsValid : IsValid filled
    filled-IsValid = record {
      slots = length-set opened.vec i c ∙ opened_length;
      count = omega (arith, room);
      positive = h.valid.positive;
      sized = h.valid.sized;
      fits = h.valid.fits;
    }

    items-filled : items filled ≡ insert_at i c (items b)
    items-filled =
        take-set_shift u.vec i u.cnt c (omega (arith, inside, cnt_same))
          (omega (arith, room, h.valid.slots))
        ∙ ap (insert_at i c) (items_same (b.cnt + 1) valid h)

    affordable : IsAffordable filled filled.cnt
    affordable =
        let esz_same : u.esz ≡ b.esz = ap (λ (x : Vec ℕ). x.esz) h.rest in
        let count : suc u.cnt ≡ b.cnt + 1 = omega (arith, cnt_same) in rw (count, esz_same) afford

    filled-Inserted : (w : Vec ℕ) → Terminated os filled w → Inserted (some i, w)
    unfolding Terminated
    filled-Inserted w (inl (full, refused, e)) = absurd (omega (arith, full, room))
    filled-Inserted w (inr (text, same)) = inr (refl, text, same ∙ items-filled)

    insc_gap-Inserted : Ends (insc_gap os opened i c) Inserted
    unfolding insc_gap
    insc_gap-Inserted =
        let fits : ltb i (length opened.vec) ≡ true =
          ground (arith, opened_length, inside, cnt_same, room) in
        rw fits (
          Ends-bind (Terminated os filled) Inserted (terminate os filled) _
            (terminate_lem os filled filled-IsValid affordable) filled-Inserted)

  gap_step :
      (r : Bool × Vec ℕ)
      → HasRoom os b (b.cnt + 1) r.0 r.1
      → Ends
          (if r.0 then open_gap r.1 i 1 else some (false, r.1))
          (λ s. Ends (if s.0 then insc_gap os s.1 i c else some (none, s.1)) Inserted)
  gap_step (false, u) h =
      let (full, refused, same) = h.failed refl in inl (refl, full, refused, same)
  gap_step (true, u) h =
      rw (open_gap-shifted u i h.valid (omega (arith, inside, cnt_same u h)) (room u h), Ends)
        (insc_gap-Inserted u h)

  -- `utl_buf_insc` inside a text, where the sizes fit 32 bits, puts the character before the one at
  -- position `i` and keeps the others in their order, with a NUL behind them. It returns NULL only where the
  -- buffer is too small and `realloc` refuses a larger one, and the buffer is then as it was.
  pub buf_insc_lem : Ends (buf_insc os b i c) Inserted
  unfolding buf_insc makegap
  buf_insc_lem =
      let next : add32 b.cnt 1 ≡ b.cnt + 1 =
        omega (arith, IsAffordable-lt os b (b.cnt + 1) valid afford) in
      rw next (
        Ends-bind
          (λ (s : Bool × Vec ℕ).
            Ends (if s.0 then insc_gap os s.1 i c else some (none, s.1)) Inserted)
          Inserted _ _
          (Ends-bind (λ r. HasRoom os b (b.cnt + 1) r.0 r.1) _ (makeroom os b (b.cnt + 1)) _
            (makeroom-HasRoom os b (b.cnt + 1) valid afford) gap_step)
          (λ s e. e))
