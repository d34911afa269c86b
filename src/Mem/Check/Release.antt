-- ===== src/Mem/Check/Release.antt =====
-- `utl_free` and `utl_realloc`.
use clibutl.Prelude.{
  ℕ, ◌+◌, ◌-◌, ◌%◌, ◌<◌, ◌≡◌, ◌≢◌, ◌⊎◌, ◌∙◌, min, refl, ap, false, List, Option, none, some, take,
  ◌==◌, Option-cases, inl, inr, arith,
}
use clibutl.Prelude.Fault.{◌>>=◌, Ends, Ends-bind}
use clibutl.Mem.Check.{
  mem_valid, mem_overflow, mem_invalid, end_chk, clr_chk, Block, Heap, CLib, mem_size, size_mod,
  overwrite, put_block, same_bytes, check_block, check, sealed, mem_free, free_verdict,
  free_checked, mem_realloc, realloc_verdict, realloc_valid,
}
use clibutl.Mem.Check.Blocks.{IsSealed, check-IsSealed, sealed_lem, IsSealed-length, take-overwrite}
use clibutl.Mem.Check.Alloc.{HasBlock, check-block, self_eq}

module _ (os : CLib) (h : Heap) (p size : ℕ) (h' : Heap) (has : HasBlock h p size h') where
  -- What `utl_free` leaves of an allocation: the count of before it, and the other blocks.
  pub record Released (w : Heap) : Type 0 where
    pub counted : w.allocated ≡ h.allocated
    pub left : w.block p ≡ os.leave (record (has.at_p) { chk = clr_chk })
    pub others : (q : ℕ) → q ≢ p → w.block q ≡ h.block q

  verdict : check h' (some p) ≡ some mem_valid
  verdict = check-block h' p has.at_p has.found ∙ check-IsSealed has.at_p has.whole

  -- `utl_free` of a block that an allocation gave takes back what was counted for it, clears the
  -- check bytes before it, and leaves the other blocks alone.
  pub mem_free_lem : h.allocated + size < size_mod → Ends (mem_free os h' (some p)) Released
  unfolding mem_free free_verdict free_checked
  mem_free_lem small =
      rw (verdict, mem_free)
        (rw (has.found, free_checked, Ends)
          (record {
            counted = omega (arith, has.counted, has.sized, small);
            left = rw (self_eq p) refl;
            others = λ q ne. ground (arith, has.others q);
          }))

  -- A second `utl_free` of the block, where what it cleared can still be read, changes nothing.
  pub free_twice :
      (w : Heap)
      → Released w
      → os.leave (record (has.at_p) { chk = clr_chk }) ≡ some (record (has.at_p) { chk = clr_chk })
      → (check w (some p) ≡ some mem_invalid) × (mem_free os w (some p) ≡ some w)
  unfolding mem_free free_verdict check_block same_bytes
  free_twice w freed kept =
      let found : check w (some p) ≡ some mem_invalid =
        check-block w p (record (has.at_p) { chk = clr_chk }) (freed.left ∙ kept) in
      (found, rw (found, mem_free) refl)

  -- A block moved or resized in place.
  pub record Resized (size' q : ℕ) (w : Heap) : Type 0 where
    pub at_q : Block
    pub found : w.block q ≡ some at_q
    pub whole : IsSealed at_q
    pub sized : at_q.size ≡ size'
    pub content : take (min size size') at_q.blk ≡ take (min size size') has.at_p.blk
    pub counted : w.allocated ≡ h.allocated + size'
    pub others : (r : ℕ) → r ≢ p → r ≢ q → w.block r ≡ h.block r

  -- The C library refuses a block of the new size, and nothing has changed; or there is one.
  abbrev pub ReallocTo : ℕ → Option ℕ × Heap → Type 0
  ReallocTo size' (r, w) =
      ((os.realloc has.at_p (mem_size + size') ≡ none) × (r ≡ none) × (w ≡ h'))
      ⊎ ((q : ℕ) × (r ≡ some q) × Resized size' q w)

  abbrev resized : ℕ → ℕ → Block → Heap
  resized size' q b =
      put_block
        (put_block
          (record h' {
            allocated = ((h'.allocated + size_mod - has.at_p.size) % size_mod + size') % size_mod;
          })
          p (os.leave has.at_p))
        q (some b)

  block-Resized :
      (size' q : ℕ) (bytes : List ℕ) (b : Block)
      → h.allocated + size < size_mod
      → h.allocated + size' < size_mod
      → os.realloc has.at_p (mem_size + size') ≡ some (q, bytes)
      → IsSealed b × (b.size ≡ size') × (b.blk ≡ overwrite bytes size' end_chk)
      → Resized size' q (resized size' q b)
  block-Resized size' q bytes b old new given (s, e, f) = record {
    at_q = b;
    found = rw (self_eq q) refl;
    whole = s;
    sized = e;
    content =
        ap (λ xs. take (min size size') xs) f
        ∙ take-overwrite bytes size' end_chk (min size size') (omega arith)
        ∙ os.take-realloc has.at_p (mem_size + size') q bytes (min size size') given
            (omega (arith, IsSealed-length has.at_p has.whole, has.sized))
            (omega (arith, os.length-realloc has.at_p (mem_size + size') q bytes given));
    counted = omega (arith, has.counted, has.sized);
    others = λ r ne ne'. ground (arith, has.others r);
  }

  moved-Resized :
      (size' q : ℕ) (bytes : List ℕ)
      → mem_size + size' < size_mod
      → h.allocated + size < size_mod
      → h.allocated + size' < size_mod
      → os.realloc has.at_p (mem_size + size') ≡ some (q, bytes)
      → Ends {A = Option ℕ × Heap}
          (sealed size' bytes >>= λ b. some (some q, resized size' q b))
          (ReallocTo size')
  moved-Resized size' q bytes small old new given =
      Ends-bind (λ b. IsSealed b × (b.size ≡ size') × (b.blk ≡ overwrite bytes size' end_chk)) _
        (sealed size' bytes) (λ b. some (some q, resized size' q b))
        (sealed_lem size' bytes
          (omega (arith, os.length-realloc has.at_p (mem_size + size') q bytes given)))
        (λ b made. inr (q, refl, block-Resized size' q bytes b old new given made))

  -- `utl_realloc` of a valid block to a size above 0: NULL only where the `realloc` of the C library
  -- refuses, with everything as before, or a valid block of the new size with the same bytes up to the smaller size. The count
  -- follows, and the other blocks are left alone.
  pub mem_realloc_lem :
      (size' : ℕ)
      → 0 < size'
      → mem_size + size' < size_mod
      → h.allocated + size < size_mod
      → h.allocated + size' < size_mod
      → Ends (mem_realloc os h' (some p) size') (ReallocTo size')
  unfolding mem_realloc realloc_verdict realloc_valid
  mem_realloc_lem size' pos small old new =
      let exact : (mem_size + size') % size_mod ≡ mem_size + size' = omega arith in
      let more : (size' == 0) ≡ false = ground arith in
      elim (Option-cases (os.realloc has.at_p (mem_size + size'))) [
        | inl refused ↦
            rw (more, verdict, mem_realloc)
              (rw (has.found, exact, refused, realloc_valid, Ends) (inl (refused, refl, refl)))
        | inr ((q, bytes), given) ↦
            rw (more, verdict, mem_realloc)
              (rw (has.found, exact, given, realloc_valid)
                (moved-Resized size' q bytes small old new given))
      ]

-- `utl_realloc` of a block that is overflown or not valid, to a size above 0, returns the pointer it
-- was given, as after a success: the block has its old size.
pub mem_realloc_refused :
    (os : CLib) (h : Heap) (p size : ℕ)
    → 0 < size
    → (check h (some p) ≡ some mem_overflow) ⊎ (check h (some p) ≡ some mem_invalid)
    → mem_realloc os h (some p) size ≡ some (some p, h)
unfolding mem_realloc realloc_verdict
mem_realloc_refused os h p size pos bad =
    let more : (size == 0) ≡ false = ground arith in
    elim bad [
      | inl over ↦ rw (more, over, mem_realloc) refl
      | inr invalid ↦ rw (more, invalid, mem_realloc) refl
    ]
