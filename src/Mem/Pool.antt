-- ===== src/Mem/Pool.antt =====
-- src/utl_mem.c, src/utl_mem.h: the memory pool, two linked lists of blocks. A list of nodes is the
-- list behind its header, and a pointer to the node whose `next` is looked at is the number of
-- nodes passed on the way, 0 for the header. `next` pointers are not stored, as only the two lists
-- reach a node; the bytes of a block are not modelled.
pub mod Nodes
pub mod Reuse
pub mod Free
use clibutl.Prelude.{
  ℕ, zero, suc, ◌+◌, ◌-◌, Bool, true, false, List, [], ◌∷◌, ◌++◌, Option, none, some, leb, ltb,
  ◌==◌, if◌then◌else◌, mul32,
}
use clibutl.Prelude.Fault.{◌>>=◌}

-- `utl_mpl_node_s`: the address of the node, and the size of its block.
pub record Node : Type 0 where
  pub addr : ℕ
  pub size : ℕ

-- `mpl_s`
pub record Pool : Type 0 where
  pub used : List Node
  pub unused : List Node

abbrev pub no_blocks : Pool
no_blocks = record { used = []; unused = [] }

-- `utl_mpl_new`, with the answer of `malloc`.
unfoldable pub mpl_new : (block : Option ℕ) → Option Pool
mpl_new none = none
mpl_new (some at) = some no_blocks

-- s = s->next;
abbrev pub one_more : Option ℕ → Option ℕ
one_more none = none
one_more (some k) = some (suc k)

unfoldable pub getparent : List Node → (p : ℕ) → Option ℕ
getparent [] p = none
getparent (n ∷ ns) p = let rest = getparent ns p in if n.addr == p then some 0 else one_more rest

unfoldable pub searchfit : List Node → (sz : ℕ) → Option ℕ
searchfit [] sz = none
searchfit (n ∷ ns) sz =
    let rest = searchfit ns sz in if ltb n.size sz then one_more rest else some 0

unfoldable pub searchpos : List Node → (sz : ℕ) → ℕ
searchpos [] sz = 0
searchpos (n ∷ ns) sz = let rest = searchpos ns sz in if ltb n.size sz then suc rest else 0

-- p = parent->next; parent->next = p->next; `none` where there is no next node.
unfoldable pub unlink : List Node → (parent : ℕ) → Option (Node × List Node)
unlink [] parent = none
unlink (n ∷ ns) zero = some (n, ns)
unlink (n ∷ ns) (suc parent) = do (p, rest) ← unlink ns parent; some (p, n ∷ rest)

-- p->next = parent->next; parent->next = p;
unfoldable pub link : List Node → (parent : ℕ) → Node → List Node
link ns zero p = p ∷ ns
link [] (suc parent) p = p ∷ []
link (n ∷ ns) (suc parent) p = n ∷ link ns parent p

-- Adding a block to the list that is sorted by size.
abbrev pub add_unused : List Node → Node → List Node
add_unused ns p = link ns (searchpos ns p.size) p

-- The loop of `utl_mpl_free` with `clean`.
unfoldable pub release : (used unused : List Node) → List Node
release [] unused = unused
release (p ∷ used) unused = release used (add_unused unused p)

-- `malloc` and the layout of a node are not the pool's: `pointer` is the size of a pointer, `blk`
-- the offset of the block in its node.
abbrev pub at_least : (pointer sz : ℕ) → ℕ
at_least pointer sz = if leb sz pointer then pointer else sz

-- The search of the unused blocks: one that holds `sz` bytes and is not twice as large.
unfoldable pub reuse : List Node → (sz : ℕ) → Option (Node × List Node)
reuse ns sz = do
  parent ← searchfit ns sz
  (p, rest) ← unlink ns parent
  if ltb p.size (mul32 sz 2) then some (p, rest) else none

-- The block of a call, and what is left of the unused ones.
unfoldable pub obtain :
    (blk : ℕ) → (malloc : ℕ → Option ℕ) → List Node → (sz : ℕ) → Option (Node × List Node)
obtain blk malloc ns sz = elim (reuse ns sz) [
  | some (p, rest) ↦ some (p, rest)
  | none ↦ elim (malloc (blk + sz)) [
    | none ↦ none
    | some at ↦ some (record { addr = at; size = sz }, ns)
  ]
]

unfoldable pub mpl_malloc :
    (pointer blk : ℕ) → (malloc : ℕ → Option ℕ) → Option Pool → (sz : ℕ) → Option ℕ × Option Pool
mpl_malloc pointer blk malloc none sz = (none, none)
mpl_malloc pointer blk malloc (some mp) sz =
    elim (obtain blk malloc mp.unused (at_least pointer sz)) [
      | none ↦ (none, some mp)
      | some (p, rest) ↦ (some (p.addr + blk), some (record { used = p ∷ mp.used; unused = rest }))
    ]

-- The release of one block, with the address of its node.
unfoldable pub free_block : Pool → (p : ℕ) → Pool
free_block mp p = elim (getparent mp.used p) [
  | none ↦ mp
  | some parent ↦ elim (unlink mp.used parent) [
    | none ↦ mp
    | some (n, rest) ↦ record { used = rest; unused = add_unused mp.unused n }
  ]
]

-- The pool that is left, none once it has been freed, and the blocks that `free` is called with.
unfoldable pub mpl_free :
    (blk : ℕ) → Option Pool → (e : Option ℕ) → (clean : Bool) → Option Pool × List Node
mpl_free blk none e clean = (none, [])
mpl_free blk (some mp) e true =
    (some (record { used = []; unused = release mp.used mp.unused }), [])
mpl_free blk (some mp) (some e) false = (some (free_block mp (e - blk)), [])
mpl_free blk (some mp) none false = (none, mp.used ++ mp.unused)
