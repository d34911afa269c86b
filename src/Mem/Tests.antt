-- ===== src/Mem/Tests.antt =====
-- Runs of the pool, and each theorem at an input.
use clibutl.Prelude.{
  ℕ, ◌+◌, ◌≤◌, ◌≡◌, ◌⊎◌, refl, true, false, [], ◌∷◌, Option, none, some, leb, if◌then◌else◌, arith,
}
use clibutl.Prelude.{◌-◌, List, zero, suc, ◌∙◌, length, sym, ap, take, ◌==◌}
use clibutl.Prelude.Fault.{Ends}
use clibutl.Mem.Check.{
  mem_valid, mem_overflow, beg_chk, end_chk, blk_offset, Block, Heap, CLib, write_bytes, read_bytes,
  same_bytes, check_block, check, sealed, mem_malloc, fill_block, mem_calloc, mem_free, mem_realloc,
}
use clibutl.Mem.Check.Alloc.{
  HasBlock, Allocated, mem_malloc_lem, client_write, write-inside, write-behind,
}
use clibutl.Mem.Check.Release.{Released, mem_free_lem, ReallocTo, mem_realloc_lem}
use clibutl.Mem.Pool.{
  Node, Pool, link, searchpos, searchfit, unlink, reuse, obtain, release, mpl_malloc, mpl_free,
}
use clibutl.Mem.Pool.Nodes.{weigh, ascends, at, total, IsPool}
use clibutl.Mem.Pool.Reuse.{Served, mplmalloc_lem}
use clibutl.Mem.Pool.Free.{Freed, mplfree_lem, mplclean_lem}

abbrev small : Node
small = record { addr = 100; size = 8 }

abbrev middle : Node
middle = record { addr = 200; size = 16 }

abbrev large : Node
large = record { addr = 300; size = 40 }

abbrev three_blocks : Pool
three_blocks = record { used = small ∷ []; unused = middle ∷ large ∷ [] }

-- `malloc` has one block left, at 400.
abbrev last_block : ℕ → Option ℕ
last_block n = if leb n 100 then some 400 else none

malloc_reuses :
    mpl_malloc 8 12 last_block (some three_blocks) 12
    ≡ (some 212, some (record { used = middle ∷ small ∷ []; unused = large ∷ [] }))
unfolding mpl_malloc obtain reuse searchfit unlink
malloc_reuses = refl

malloc_fresh : mpl_malloc 8 12 last_block (some three_blocks) 18 ≡ (
  some 412,
  some (record {
    used = record { addr = 400; size = 18 } ∷ small ∷ [];
    unused = middle ∷ large ∷ [];
  }),
)
unfolding mpl_malloc obtain reuse searchfit unlink
malloc_fresh = refl

clean_sorts :
    mpl_free 12 (some (record { used = large ∷ small ∷ []; unused = middle ∷ [] })) none true
    ≡ (some (record { used = []; unused = small ∷ middle ∷ large ∷ [] }), [])
unfolding mpl_free release link searchpos
clean_sorts = refl

three_blocks-IsPool : IsPool 8 three_blocks
unfolding weigh ascends
three_blocks-IsPool = record { sorted = refl; distinct = λ a. ground arith; large = refl }

last_block-fresh : (n a : ℕ) → last_block n ≡ some a → total (at a) three_blocks ≡ 0
unfolding weigh
last_block-fresh n a h = ground arith

mplmalloc_lem_example :
    ((mpl_malloc 8 12 last_block (some three_blocks) 12 ≡ (none, some three_blocks))
      × (last_block 24 ≡ none))
    ⊎ ((p : Node) × (mp' : Pool) × (mpl_malloc 8 12 last_block (some three_blocks) 12
          ≡ (some (p.addr + 12), some mp'))
        × Served 8 12 last_block three_blocks 12 p mp'
        × (12 ≤ p.size))
mplmalloc_lem_example =
    mplmalloc_lem 8 12 last_block three_blocks 12 three_blocks-IsPool last_block-fresh

mplfree_lem_example :
    (mp' : Pool) × (mpl_free 12 (some three_blocks) (some (100 + 12)) false ≡ (some mp', []))
    × Freed 8 12 three_blocks 100 mp'
mplfree_lem_example = mplfree_lem 8 12 three_blocks 100 three_blocks-IsPool

mplclean_lem_example :
    (mp' : Pool) × (mpl_free 12 (some three_blocks) none true ≡ (some mp', []))
    × IsPool 8 mp'
    × (mp'.used ≡ [])
    × ((f : Node → ℕ) → weigh f mp'.unused ≡ total f three_blocks)
mplclean_lem_example = mplclean_lem 8 12 three_blocks three_blocks-IsPool

-- A C library that gives every block at 4096 with bytes 7, and leaves freed memory as it is.
refilled : ℕ → List ℕ → List ℕ
refilled zero xs = []
refilled (suc n) [] = 7 ∷ refilled n []
refilled (suc n) (x ∷ xs) = x ∷ refilled n xs

length-refilled : (n : ℕ) (xs : List ℕ) → length (refilled n xs) ≡ n
unfolding refilled
length-refilled zero xs = refl
length-refilled (suc n) [] = ap suc (length-refilled n [])
length-refilled (suc n) (x ∷ xs) = ap suc (length-refilled n xs)

take-refilled : (k n : ℕ) (xs : List ℕ) → k ≤ length xs → k ≤ n → take k (refilled n xs) ≡ take k xs
unfolding refilled
take-refilled zero n xs p q = refl
take-refilled (suc k) zero xs p q = absurd (omega arith)
take-refilled (suc k) (suc n) [] p q = absurd (omega arith)
take-refilled (suc k) (suc n) (x ∷ xs) p q =
    ap (λ ys. x ∷ ys) (take-refilled k n xs (omega arith) (omega arith))

malloc_length :
    (bytes p : ℕ) (xs : List ℕ)
    → ◌≡◌ {A = Option (ℕ × List ℕ)} (some (4096, refilled (bytes - blk_offset) [])) (some (p, xs))
    → length xs ≡ bytes - blk_offset
malloc_length bytes p xs h = ground (arith, length-refilled (bytes - blk_offset) [])

realloc_length :
    (b : Block) (bytes p : ℕ) (xs : List ℕ)
    → ◌≡◌ {A = Option (ℕ × List ℕ)}
        (some (8192, refilled (bytes - blk_offset) b.blk))
        (some (p, xs))
    → length xs ≡ bytes - blk_offset
realloc_length b bytes p xs h = ground (arith, length-refilled (bytes - blk_offset) b.blk)

realloc_keeps :
    (b : Block) (bytes p : ℕ) (xs : List ℕ) (n : ℕ)
    → ◌≡◌ {A = Option (ℕ × List ℕ)}
        (some (8192, refilled (bytes - blk_offset) b.blk))
        (some (p, xs))
    → n ≤ length b.blk
    → n ≤ length xs
    → take n xs ≡ take n b.blk
realloc_keeps b bytes p xs n h p' q' =
    let same : refilled (bytes - blk_offset) b.blk ≡ xs = ground arith in
    let len : length xs ≡ bytes - blk_offset =
      ap length (sym same) ∙ length-refilled (bytes - blk_offset) b.blk in
    rw (← same) (take-refilled n (bytes - blk_offset) b.blk p' (omega (arith, len)))

abbrev clib : CLib
clib = record {
  malloc = λ bytes. some (4096, refilled (bytes - blk_offset) []);
  realloc = λ b bytes. some (8192, refilled (bytes - blk_offset) b.blk);
  leave = λ b. some b;
  length-malloc = malloc_length;
  length-realloc = realloc_length;
  take-realloc = realloc_keeps;
}

abbrev empty_heap : Heap
empty_heap = record { allocated = 100; block = λ p. none }

-- A block of two bytes, 1 and 2.
abbrev pair_block : Block
pair_block = record { size = 2; chk = beg_chk; blk = 1 ∷ 2 ∷ end_chk }

abbrev one_block : Heap
one_block = record { allocated = 102; block = λ p. if p == 4096 then some pair_block else none }

one_block-HasBlock : HasBlock empty_heap 4096 2 one_block
unfolding read_bytes
one_block-HasBlock = record {
  at_p = pair_block;
  found = refl;
  whole = record { before = refl; behind = refl };
  sized = refl;
  counted = refl;
  others = λ q ne. ground arith;
}

calloc_run : Ends (mem_calloc clib empty_heap 3 2) (λ r. (r.0 ≡ some 4096) × (r.1.allocated ≡ 106))
unfolding mem_calloc mem_malloc sealed write_bytes fill_block refilled
calloc_run = (refl, refl)

mem_malloc_lem_example : Ends (mem_malloc clib empty_heap 2) (Allocated clib empty_heap 2)
mem_malloc_lem_example = mem_malloc_lem clib empty_heap 2 (omega arith)

write-inside_example :
    Ends (client_write one_block 4096 1 (9 ∷ [])) (λ w. check w (some 4096) ≡ some mem_valid)
write-inside_example =
    write-inside empty_heap one_block 4096 2 1 one_block-HasBlock (9 ∷ []) (omega arith)

write-behind_example :
    Ends
      (client_write one_block 4096 (2 + 1) (9 ∷ []))
      (λ w. check w (some 4096) ≡ some mem_overflow)
write-behind_example =
    write-behind empty_heap one_block 4096 2 1 one_block-HasBlock 9 (omega arith) (ground arith)

mem_free_lem_example :
    Ends
      (mem_free clib one_block (some 4096))
      (Released clib empty_heap 4096 2 one_block one_block-HasBlock)
mem_free_lem_example =
    mem_free_lem clib empty_heap 4096 2 one_block one_block-HasBlock (omega arith)

mem_realloc_lem_example :
    Ends
      (mem_realloc clib one_block (some 4096) 5)
      (ReallocTo clib empty_heap 4096 2 one_block one_block-HasBlock 5)
mem_realloc_lem_example =
    mem_realloc_lem clib empty_heap 4096 2 one_block one_block-HasBlock 5 (omega arith)
      (omega arith) (omega arith) (omega arith)

-- The block with a byte written behind it.
abbrev overrun_heap : Heap
overrun_heap = record one_block {
  block = λ p. some (record pair_block { blk = 1 ∷ 2 ∷ 3 ∷ 0xAD ∷ 0xC0 ∷ 0xDA ∷ [] });
}

overrun_heap-check : check overrun_heap (some 4096) ≡ some mem_overflow
unfolding check check_block read_bytes same_bytes
overrun_heap-check = refl
