-- ===== src/Mem/Check.antt =====
-- src/utl_mem.c: the checked allocator. Each block has its size and four check bytes before it, and
-- four more behind it. What is logged is not modelled.
pub mod Blocks
pub mod Alloc
pub mod Release
use clibutl.Prelude.{
  ℕ, zero, suc, ◌+◌, ◌-◌, ◌*◌, ◌%◌, ◌≤◌, ◌≡◌, Bool, true, false, List, [], ◌∷◌, ◌++◌, Option, none,
  some, length, take, drop, replicate, leb, ◌==◌, ◌&&◌, if◌then◌else◌,
}
use clibutl.Prelude.Fault.{◌>>=◌}

-- The results of `utl_check`.
pub data Verdict : Type 0 where
  mem_invalid : Verdict
  mem_overflow : Verdict
  mem_valid : Verdict
  mem_null : Verdict

abbrev pub beg_chk : List ℕ
beg_chk = 0xBE ∷ 0xEF ∷ 0xF0 ∷ 0x0D ∷ []

abbrev pub end_chk : List ℕ
end_chk = 0xDE ∷ 0xAD ∷ 0xC0 ∷ 0xDA ∷ []

abbrev pub clr_chk : List ℕ
clr_chk = 0xDE ∷ 0xFA ∷ 0xCE ∷ 0xD0 ∷ []

-- `utl_mem_t`: `blk` is the memory from the field `blk` to the end of what `malloc` gave.
pub record Block : Type 0 where
  pub size : ℕ
  pub chk : List ℕ
  pub blk : List ℕ

-- `utl_mem_allocated`, and what lies before and behind an address: `none` where it cannot be read.
pub record Heap : Type 0 where
  pub allocated : ℕ
  pub block : ℕ → Option Block

-- `sizeof(utl_mem_t)` and `offsetof(utl_mem_t, blk)`.
abbrev pub mem_size : ℕ
mem_size = 16

abbrev pub blk_offset : ℕ
blk_offset = 12

-- The C library. A block is given by the address of its field `blk` and the bytes from there on.
-- `realloc` keeps the beginning of the block. `leave` is what can be read where a block was freed.
pub record CLib : Type 0 where
  pub malloc : (bytes : ℕ) → Option (ℕ × List ℕ)
  pub realloc : Block → (bytes : ℕ) → Option (ℕ × List ℕ)
  pub leave : Block → Option Block
  pub length-malloc :
      (bytes p : ℕ) (xs : List ℕ) → malloc bytes ≡ some (p, xs) → length xs ≡ bytes - blk_offset
  pub length-realloc :
      (b : Block) (bytes p : ℕ) (xs : List ℕ)
      → realloc b bytes ≡ some (p, xs)
      → length xs ≡ bytes - blk_offset
  pub take-realloc :
      (b : Block) (bytes p : ℕ) (xs : List ℕ) (n : ℕ)
      → realloc b bytes ≡ some (p, xs)
      → n ≤ length b.blk
      → n ≤ length xs
      → take n xs ≡ take n b.blk

abbrev pub size_mod : ℕ
size_mod = 0x1_0000_0000_0000_0000

-- `ys` over the bytes of `xs` from `at` on, as far as `xs` goes.
abbrev pub overwrite : List ℕ → (at : ℕ) → List ℕ → List ℕ
overwrite [] at ys = []
overwrite (x ∷ xs) (suc at) ys = x ∷ overwrite xs at ys
overwrite (x ∷ xs) zero [] = x ∷ xs
overwrite (x ∷ xs) zero (y ∷ ys) = y ∷ overwrite xs zero ys

-- memcpy and memset into a block; `none` past its end.
unfoldable pub write_bytes : List ℕ → (at : ℕ) → List ℕ → Option (List ℕ)
write_bytes xs at ys = if leb (at + length ys) (length xs) then some (overwrite xs at ys) else none

unfoldable pub read_bytes : List ℕ → (at n : ℕ) → Option (List ℕ)
read_bytes xs at n = if leb (at + n) (length xs) then some (take n (drop at xs)) else none

-- !memcmp(xs,ys,n), on all bytes of both.
unfoldable pub same_bytes : List ℕ → List ℕ → Bool
same_bytes [] [] = true
same_bytes [] (y ∷ ys) = false
same_bytes (x ∷ xs) [] = false
same_bytes (x ∷ xs) (y ∷ ys) = x == y && same_bytes xs ys

abbrev pub put_block : Heap → ℕ → Option Block → Heap
put_block h p b = record h { block = λ q. if q == p then b else h.block q }

unfoldable pub check_block : Block → Option Verdict
check_block b =
    if same_bytes b.chk beg_chk
    then (do
      behind ← read_bytes b.blk b.size 4
      some (if same_bytes behind end_chk then mem_valid else mem_overflow))
    else some mem_invalid

-- `utl_check`
unfoldable pub check : Heap → (ptr : Option ℕ) → Option Verdict
check h none = some mem_null
check h (some p) = do b ← h.block p; check_block b

-- The fields that `utl_malloc` and `utl_realloc` write.
unfoldable pub sealed : (size : ℕ) → (bytes : List ℕ) → Option Block
sealed size bytes = do
  blk ← write_bytes bytes size end_chk
  some (record { size = size; chk = beg_chk; blk = blk })

unfoldable pub mem_malloc : CLib → Heap → (size : ℕ) → Option (Option ℕ × Heap)
mem_malloc os h size = elim (os.malloc ((mem_size + size) % size_mod)) [
  | none ↦ some (none, h)
  | some (p, bytes) ↦ do
    b ← sealed size bytes
    some (some p, put_block (record h { allocated = (h.allocated + size) % size_mod }) p (some b))
]

-- memset and memcpy to the beginning of a block.
unfoldable pub fill_block : Option ℕ × Heap → List ℕ → Option (Option ℕ × Heap)
fill_block (none, h) ys = some (none, h)
fill_block (some p, h) ys = do
  b ← h.block p
  blk ← write_bytes b.blk 0 ys
  some (some p, put_block h p (some (record b { blk = blk })))

unfoldable pub mem_calloc : CLib → Heap → (num size : ℕ) → Option (Option ℕ × Heap)
mem_calloc os h num size = do
  let bytes = num * size % size_mod
  r ← mem_malloc os h bytes
  fill_block r (replicate bytes 0)

-- `utl_free` of a block that is valid or overflown.
unfoldable pub free_checked : CLib → Heap → (p : ℕ) → Option Heap
free_checked os h p = do
  b ← h.block p
  let cleared = record b { chk = clr_chk }
  some (
      put_block (record h { allocated = (h.allocated + size_mod - b.size) % size_mod }) p
        (os.leave cleared))

unfoldable pub free_verdict : CLib → Heap → (ptr : Option ℕ) → Verdict → Option Heap
free_verdict os h none v = some h
free_verdict os h (some p) mem_null = some h
free_verdict os h (some p) mem_overflow = free_checked os h p
free_verdict os h (some p) mem_valid = free_checked os h p
free_verdict os h (some p) mem_invalid = some h

unfoldable pub mem_free : CLib → Heap → (ptr : Option ℕ) → Option Heap
mem_free os h ptr = do v ← check h ptr; free_verdict os h ptr v

-- `utl_realloc` of a valid block: where the block moves, its old place has been freed.
unfoldable pub realloc_valid : CLib → Heap → (p size : ℕ) → Option (Option ℕ × Heap)
realloc_valid os h p size = do
  b ← h.block p
  elim (os.realloc b ((mem_size + size) % size_mod)) [
    | none ↦ some (none, h)
    | some (q, bytes) ↦ do
      b' ← sealed size bytes
      let left = (h.allocated + size_mod - b.size) % size_mod
      some (
        some q,
        put_block (put_block (record h { allocated = (left + size) % size_mod }) p (os.leave b)) q
            (some b'),
      )
  ]

unfoldable pub realloc_verdict :
    CLib → Heap → (ptr : Option ℕ) → (size : ℕ) → Verdict → Option (Option ℕ × Heap)
realloc_verdict os h ptr size mem_null = mem_malloc os h size
realloc_verdict os h (some p) size mem_valid = realloc_valid os h p size
realloc_verdict os h none size mem_valid = some (none, h)
realloc_verdict os h ptr size mem_overflow = some (ptr, h)
realloc_verdict os h ptr size mem_invalid = some (ptr, h)

unfoldable pub mem_realloc : CLib → Heap → (ptr : Option ℕ) → (size : ℕ) → Option (Option ℕ × Heap)
mem_realloc os h ptr size =
    if size == 0
    then (do h' ← mem_free os h ptr; some (ptr, h'))
    else (do v ← check h ptr; realloc_verdict os h ptr size v)

-- `utl_strdup`; the bytes of the text up to its NUL are given without it.
unfoldable pub mem_strdup : CLib → Heap → (text : Option (List ℕ)) → Option (Option ℕ × Heap)
mem_strdup os h none = some (none, h)
mem_strdup os h (some text) = do
  r ← mem_malloc os h (suc (length text))
  fill_block r (text ++ (0 ∷ []))
