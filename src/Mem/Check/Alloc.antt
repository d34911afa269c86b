-- ===== src/Mem/Check/Alloc.antt =====
-- `utl_malloc`, `utl_calloc` and `utl_strdup`: the blocks that they give.
use clibutl.Prelude.{
  ℕ, zero, suc, ◌+◌, ◌*◌, ◌%◌, ◌≤◌, ◌<◌, ◌≡◌, ◌≢◌, ◌⊎◌, ◌∙◌, refl, true, List, [], ◌∷◌, ◌++◌,
  Option, none, some, length, take, replicate, get_or, ◌==◌, Option-cases, inl, inr, arith,
  length-replicate, length-append,
}
use clibutl.Prelude.Fault.{◌>>=◌, Ends, Ends-bind}
use clibutl.Mem.Check.{
  mem_valid, mem_overflow, end_chk, Block, Heap, CLib, mem_size, size_mod, overwrite, write_bytes,
  put_block, check_block, check, sealed, mem_malloc, fill_block, mem_calloc, mem_strdup,
}
use clibutl.Mem.Check.Blocks.{
  IsSealed, check-IsSealed, sealed_lem, IsSealed-length, inside-IsSealed, overrun-check,
  write_bytes_lem, read-overwrite,
}

-- The heap has a valid block of `size` bytes at `p`, and is otherwise as before.
pub record HasBlock (h : Heap) (p size : ℕ) (h' : Heap) : Type 0 where
  pub at_p : Block
  pub found : h'.block p ≡ some at_p
  pub whole : IsSealed at_p
  pub sized : at_p.size ≡ size
  pub counted : h'.allocated ≡ (h.allocated + size) % size_mod
  pub others : (q : ℕ) → q ≢ p → h'.block q ≡ h.block q

-- The C library refuses a block of the size with its check bytes, and nothing has changed; or there
-- is a block.
pub Allocated : CLib → Heap → ℕ → Option ℕ × Heap → Type 0
Allocated os h size (r, h') =
    ((os.malloc (mem_size + size) ≡ none) × (r ≡ none) × (h' ≡ h))
    ⊎ ((p : ℕ) × (r ≡ some p) × HasBlock h p size h')

pub self_eq : (p : ℕ) → (p == p) ≡ true
self_eq p = ground arith

-- `utl_check` on a block of the heap.
pub check-block :
    (h : Heap) (p : ℕ) (b : Block) → h.block p ≡ some b → check h (some p) ≡ check_block b
unfolding check
check-block h p b e = rw e refl

pub put-HasBlock :
    (h : Heap) (p size : ℕ) (b : Block)
    → IsSealed b
    → b.size ≡ size
    → HasBlock h p size
        (put_block (record h { allocated = (h.allocated + size) % size_mod }) p (some b))
put-HasBlock h p size b s e = record {
  at_p = b;
  found = rw (self_eq p) refl;
  whole = s;
  sized = e;
  counted = refl;
  others = λ q ne. ground arith;
}

module _ (os : CLib) (h : Heap) (size : ℕ) where
  given-Allocated :
      (p : ℕ) (bytes : List ℕ)
      → length bytes ≡ size + 4
      → Ends
          (sealed size bytes >>= λ b. some (
            some p,
            put_block (record h { allocated = (h.allocated + size) % size_mod }) p (some b),
          ))
          (Allocated os h size)
  unfolding Allocated
  given-Allocated p bytes e =
      Ends-bind (λ b. IsSealed b × (b.size ≡ size) × (b.blk ≡ overwrite bytes size end_chk))
        (Allocated os h size) (sealed size bytes) _ (sealed_lem size bytes e)
        (λ b q. inr (p, refl, put-HasBlock h p size b q.0 q.1))

  -- `utl_malloc` gives a block of the size asked for with both groups of check bytes whole, adds the
  -- size to what is allocated, and leaves the other blocks alone; it returns NULL and changes nothing only
  -- where the `malloc` of the C library refuses the block with its check bytes. It writes nothing outside the block.
  pub mem_malloc_lem :
      mem_size + size < size_mod → Ends (mem_malloc os h size) (Allocated os h size)
  unfolding mem_malloc Allocated
  mem_malloc_lem small =
      let exact : (mem_size + size) % size_mod ≡ mem_size + size = omega arith in
      elim (Option-cases (os.malloc (mem_size + size))) [
        | inl refused ↦ rw (exact, refused, mem_malloc, Ends) (inl (refused, refl, refl))
        | inr ((p, bytes), given) ↦
            let len : length bytes ≡ size + 4 =
              omega (arith, os.length-malloc (mem_size + size) p bytes given) in
            rw (exact, given, mem_malloc) (given-Allocated p bytes len)
      ]

-- A client writes bytes `ys` at position `i` of the block at `p`.
unfoldable pub client_write : Heap → (p i : ℕ) → List ℕ → Option Heap
client_write h p i ys = do
  b ← h.block p
  blk ← write_bytes b.blk i ys
  some (put_block h p (some (record b { blk = blk })))

module _ (h h' : Heap) (p size i : ℕ) (has : HasBlock h p size h') where
  room : has.at_p.size + 4 ≤ length has.at_p.blk
  room = IsSealed-length has.at_p has.whole

  -- After a write within the size of a block that was allocated, `utl_check` calls it valid.
  pub write-inside :
      (ys : List ℕ)
      → i + length ys ≤ size
      → Ends (client_write h' p i ys) (λ w. check w (some p) ≡ some mem_valid)
  unfolding client_write
  write-inside ys le =
      let b : Block = record (has.at_p) { blk = overwrite has.at_p.blk i ys } in
      let e : write_bytes has.at_p.blk i ys ≡ some (overwrite has.at_p.blk i ys) =
        write_bytes_lem has.at_p.blk i ys (omega (arith, room, has.sized)) in
      rw (has.found, e, client_write, Ends)
        (check-block (put_block h' p (some b)) p b (rw (self_eq p) refl)
          ∙ check-IsSealed b (inside-IsSealed has.at_p i ys has.whole (omega (arith, has.sized))))

  -- After a write of one byte to one of the four places behind a block that was allocated, other
  -- than the check byte there, `utl_check` calls the block overflown.
  pub write-behind :
      (v : ℕ)
      → i < 4
      → get_or end_chk i 0 ≢ v
      → Ends (client_write h' p (size + i) (v ∷ [])) (λ w. check w (some p) ≡ some mem_overflow)
  unfolding client_write
  write-behind v lt ne =
      let b : Block = record (has.at_p) {
        blk = overwrite has.at_p.blk (has.at_p.size + i) (v ∷ []);
      } in
      let e : write_bytes has.at_p.blk (has.at_p.size + i) (v ∷ []) ≡ some b.blk =
        write_bytes_lem has.at_p.blk (has.at_p.size + i) (v ∷ [])
          (omega (arith, room, has.sized)) in
      rw (← has.sized) (
        rw (has.found, e, client_write, Ends)
          (check-block (put_block h' p (some b)) p b (rw (self_eq p) refl)
            ∙ overrun-check has.at_p i v has.whole lt ne))

-- The block of an allocation, filled.
pub Filled : CLib → Heap → List ℕ → Option ℕ × Heap → Type 0
Filled os h ys (r, h') =
    ((os.malloc (mem_size + length ys) ≡ none) × (r ≡ none) × (h' ≡ h))
    ⊎ ((p : ℕ) × (r ≡ some p)
        × (has : HasBlock h p (length ys) h') × (take (length ys) has.at_p.blk ≡ ys))

refill :
    (os : CLib) (h : Heap) (ys : List ℕ) (p : ℕ) (h' : Heap)
    → HasBlock h p (length ys) h'
    → Ends (fill_block (some p, h') ys) (Filled os h ys)
unfolding fill_block Filled
refill os h ys p h' has =
    let room : has.at_p.size + 4 ≤ length has.at_p.blk = IsSealed-length has.at_p has.whole in
    let b : Block = record (has.at_p) { blk = overwrite has.at_p.blk 0 ys } in
    let e : write_bytes has.at_p.blk 0 ys ≡ some b.blk =
      write_bytes_lem has.at_p.blk 0 ys (omega (arith, room, has.sized)) in
    rw (has.found, e, fill_block, Ends)
      (inr (
        p,
        refl,
        record {
          at_p = b;
          found = rw (self_eq p) refl;
          whole = inside-IsSealed has.at_p 0 ys has.whole (omega (arith, has.sized));
          sized = has.sized;
          counted = has.counted;
          others = λ q ne. ground (arith, has.others q);
        },
        read-overwrite has.at_p.blk 0 ys (omega (arith, room, has.sized)),
      ))

fill_block-Filled :
    (os : CLib) (h : Heap) (ys : List ℕ) (r : Option ℕ × Heap)
    → Allocated os h (length ys) r
    → Ends (fill_block r ys) (Filled os h ys)
unfolding fill_block Filled Allocated
fill_block-Filled os h ys (none, h') (inl e) = inl e
fill_block-Filled os h ys (none, h') (inr (p, e, has)) = cc
fill_block-Filled os h ys (some q, h') (inl e) = cc
fill_block-Filled os h ys (some q, h') (inr (p, e, has)) =
    let same : q ≡ p = ground arith in rw same (refill os h ys p h' has)

module _ (os : CLib) (h : Heap) where
  -- `utl_calloc`, where the product of the two sizes fits: as `utl_malloc`, and all bytes are 0.
  pub mem_calloc_lem :
      (num size : ℕ)
      → mem_size + num * size < size_mod
      → Ends (mem_calloc os h num size) (Filled os h (replicate (num * size) 0))
  unfolding mem_calloc
  mem_calloc_lem num size small =
      let exact : num * size % size_mod ≡ num * size = omega arith in
      let len : length (replicate {A = ℕ} (num * size) 0) ≡ num * size =
        length-replicate (num * size) zero in
      rw (exact, mem_calloc)
        (Ends-bind (Allocated os h (length (replicate (num * size) 0)))
          (Filled os h (replicate (num * size) 0)) (mem_malloc os h (num * size)) _
          (rw len (mem_malloc_lem os h (num * size) small))
          (λ r a. fill_block-Filled os h (replicate (num * size) 0) r a))

  -- `utl_strdup` of a text gives a block with the text and its NUL; of NULL it gives NULL.
  pub mem_strdup_lem :
      (text : List ℕ)
      → mem_size + length text + 1 < size_mod
      → Ends (mem_strdup os h (some text)) (Filled os h (text ++ (0 ∷ [])))
  unfolding mem_strdup
  mem_strdup_lem text small =
      let len : length (text ++ (0 ∷ [])) ≡ suc (length text) =
        omega (arith, length-append text (0 ∷ [])) in
      Ends-bind (Allocated os h (length (text ++ (0 ∷ [])))) (Filled os h (text ++ (0 ∷ [])))
        (mem_malloc os h (suc (length text))) _
        (rw len (mem_malloc_lem os h (suc (length text)) (omega arith)))
        (λ r a. fill_block-Filled os h (text ++ (0 ∷ [])) r a)
