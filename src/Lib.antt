-- ===== src/Lib.antt =====
-- clibutl: a verification library for the C utilities of this repository.
--
-- The program. src/utl_vec.c has one data type, the vector of src/utl_vec.h: a buffer of `max`
-- slots of `esz` bytes, of which `cnt` are in use, one spare element for passing values in and out,
-- and three indices `fst`, `lst` and `cur`. Arrays, stacks, queues, sorted sets, hash tables,
-- symbol tables, trees and character buffers are sets of functions and macros on it. They meet in
-- `utl_vec_makeroom`, which alone enlarges the buffer of an array, and `utl_que_makeroom`, which
-- does so for a queue and moves the elements of the ring apart. src/utl_utf.c stands by itself: a
-- table of character classes for Latin-1 and a decoder of UTF-8, which the pattern matcher of
-- src/utl_pmx.c calls. The matcher keeps its captures, the stack of open groups and its flags in
-- one global record, and goes through a pattern and a text with two pointers; where a part of the
-- pattern fails it looks for an alternative further on. The checked allocator of src/utl_mem.c puts
-- check bytes before and behind each block. The pool of src/utl_mem.c keeps the blocks that it has
-- given out and those that were given back in two linked lists, the second sorted by size.
--
-- The files.
--   Prelude        the names that all others use, lists, words of 32 bits, faults, table lookups
--   Utf/Classes    `encoding`, `utlisupper` and the other classes, `utlfoldchar`
--   Utf/Tables     theorems on the classes, by the table and for all characters
--   Utf/Next       `utl_next_utf8`: the states of its machine and its steps
--   Utf/Encode     UTF-8 as RFC 3629 defines it, to compare the decoder with
--   Utf/Decode     theorems on the decoder
--   Vec/Slots      `malloc` and `realloc` as parameters, `memmove` and `memcpy` of whole slots
--   Vec/Defs       the vector and the operations of the array and the stack
--   Vec/Growth     the invariant of a vector, and `utl_vec_makeroom`
--   Vec/Array      lemmas on what a vector holds
--   Vec/Insert     `utl_vec_alloc`, `utl_vec_set`, `vecset`
--   Vec/Gap        `utl_vec_makegap`, `utl_vec_ins`, `vecins`
--   Vec/Remove     `utl_vec_delgap`
--   Vec/Range      `utl_vec_del`, `utl_vec_delrange`
--   Vec/Stack      `utl_vec_get`, `vecpush`, `vectop`, `vecdrop`
--   Vec/Buf        the character buffer: `utl_buf_get`, `utl_buf_addc`; below it `utl_buf_insc`,
--                  `utl_buf_del`
--   Vec/Que        the queue: `utl_que_makeroom`, `utl_vec_enq`, `utl_vec_deq`, `utl_vec_first`;
--                  below it the invariant of the ring (Inv), the list that a ring holds (Ring), and
--                  the steps of enqueuing and dequeuing
--   Mem/Pool       `utl_mpl_new`, `utl_mpl_malloc` and `utl_mpl_free`: the memory pool of
--                  src/utl_mem.c; below it its lists of blocks (Nodes) and a file for each operation
--   Mem/Check      `utl_check`, `utl_malloc`, `utl_calloc`, `utl_free`, `utl_realloc`, `utl_strdup` over
--                  a heap of blocks with check bytes; below it lemmas on blocks (Blocks), the
--                  allocations (Alloc), and freeing and resizing (Release)
--   Pmx/Store      the state of the matcher of src/utl_pmx.c, its captures and its stack
--   Pmx/Chars      reading characters, codes, lists of characters, captures in a pattern
--   Pmx/Delim      quoted and bracketed texts: `utl_pmx_get_limits`, `utl_pmx_get_delimited`
--   Pmx/Times      the counts at the beginning of a class
--   Pmx/Class      `utl_pmx_class`
--   Pmx/Alt        `utl_pmx_alt_skip`, `utl_pmx_alt`
--   Pmx/Match      `utl_pmx_match`, as a machine of steps
--   Pmx/Search     `utl_pmx_search`, `utl_pmx_scan`, `utl_pmx_save`, `utl_pmx_restore`
--   Pmx/Literal    lemmas on plain patterns, for Anchored (the matcher) and Find (the search)
--   Pmx/Listed     lists of characters as sets;  Pmx/Repeat  classes with counts
--   Pmx/Groups     marks and captures of groups; Pmx/Stuck   loops that do not end
--   Vec/Sorted     the binary search of `utl_vec_search_sorted` and `utl_vec_add_sorted`, for a vector
--                  that `vecsort` has put in order; below it its loop (Bisect) and the set (Set)
--   Vec/Iter       `utl_vec_last`, `utl_vec_next`, `utl_vec_prev`; below it going through an array
--                  (Visit), a queue (Rounds) and a hash table (Table)
--   Vec/Swap       `utl_dpqswap`, over bytes; below it where it exchanges (Exchange) and where it does
--                  not (Remainder)
--   Vec/New        `utl_vec_new`
--   Vec/Hash       the hash table: `utl_search_hashed`, `utl_vec_hsh_set`, `utl_reash`,
--                  `utl_vec_add_hashed`, `utl_remove_hashed`; below it probing (Probe) and searching
--                  (Lookup), setting an element (Placing, Swaps, Insert, Keys), counting slots (Count),
--                  the larger table (Rehash), and the vector as a table: its invariant (Table), a new
--                  one (Made), adding (Element, Add), removing (Close, Remove), and finding what was
--                  added (Trip)
--   Vec/Arb        trees in a vector of nodes: moving, reading, `utl_arb_addnode`, `utl_arb_addsibling`,
--                  `utl_arb_detach`; below it the nodes by their numbers and the lists of children
--                  (Nodes), a new node and its links (Link, Grown), the ways to add one (Child, Add,
--                  Sibling), and taking a node out (Walk, Detach)
--
-- State and operations. An operation that updates `*v` takes the vector and returns the new one
-- beside its result. The spare element is the field `elm`, a pointer to a slot is the number of the
-- slot, and NULL is `none`. A second, outer `Option` is a fault: a slot outside the buffer was
-- touched, `memcpy` was given overlapping ranges, or fuel ran out. A theorem that says `Ends o P`
-- says that there is no fault and that the result has the property `P`. Numbers are 32 bits wide
-- where the source has `uint32_t`: additions, subtractions and products are taken modulo 2 ^ 32.
-- `malloc` and `realloc` are a record of functions with what C promises of them: the size of the
-- block and, for `realloc`, the contents that it keeps. They may fail at any call.
--
-- Bounds and fuel. The loop of `utl_vec_makeroom` has fuel `n + 1` for the position `n`, enough as
-- each round adds at least one to a size that is positive; Vec/Growth shows it. The theorems on
-- growth suppose `IsAffordable`: one and a half times the position, in bytes, is below 2 ^ 32, since
-- the source computes the size of the new buffer in 32 bits. The decoder has fuel for three bytes
-- after the first, as its states are passed in one direction. The bytes of a text are numbers below
-- 256 up to its NUL, and reading behind the list of bytes is a fault.
--
-- The matcher: a pointer into a pattern or a text is the list of bytes from it to the end, the NUL
-- included, so that reading behind the NUL is a fault. Bytes are compared as unsigned, and a number
-- or a code in a pattern that an `int32_t` does not hold is a fault. `utl_pmx_isin` has one round
-- for an item of its list, and needs one round more; the loop of the matcher needs three more than
-- the length of a plain pattern, and the search one more than the length of the text. The loops for
-- counts, delimiters and alternatives inside a round have the fuel of the matcher. What the C
-- library and a client's extension do is a record of functions, `Outside`, and `CLib` for the
-- checked allocator, with what C promises of the bytes of a block.
--
-- The hash table: a slot holds an element, of which `Layout` says how the hash value is read and
-- written at its end, and what the element of bytes 0xFF is. The size is a power of two, so that
-- `& (max-1)` is the remainder by `max`. The loops have `max + 1` rounds, enough as there is a free
-- slot; that one is always left is a part of the invariant `IsHashed`, as are the ways of slots in
-- use from the home of each element to its slot. A client's comparison has to be an equivalence where
-- it says equal (`IsKeyed`).
--
-- Trees: a node is known by its number, and 0 is none. The list of the children of a node is what its
-- `dwn` and their `nxt` link, up to 0 (`HasChildren`). A read of a number that no node has is a
-- fault. The loop of `utl_arb_detach` has one round more than there are nodes, for a list of
-- children that are different nodes and no more than there are. `utl_arb_addnode` and
-- `utl_arb_addsibling` are shown for a tree with room in its buffer and no free node.
--
-- Not modelled. Reading and writing files, `utl_vec_free`, sorting itself, the dispatch of
-- `utl_vec_add`, `utl_vec_search` and `utl_vec_remove`, which sort first, symbol tables,
-- `utl_arb_prune` and going through trees, and the other functions of buffers of src/utl_vec.c; the
-- PEG parser, logging, exceptions and networking, which are other files of src/, and the texts that
-- the checked allocator logs. The functions on characters of the C library, as `isspace`, are
-- parameters. dist/ is a copy of src/ that the build makes.
pub mod Mem
pub mod Pmx
pub mod Prelude
pub mod Utf
pub mod Vec
