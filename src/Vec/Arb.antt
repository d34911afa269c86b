-- ===== src/Vec/Arb.antt =====
-- src/utl_vec.c: trees as vectors of nodes. A node is known by its number, from 1 on; 0 is none.
-- `fst` is the root, `cur` the current node, and `lst` the first of the free nodes, which are linked
-- by `nxt`. A number is a `uint32_t`, and `dat` the bits of an `int32_t`.
pub mod Nodes
pub mod Link
pub mod Grown
pub mod Child
pub mod Add
pub mod Sibling
pub mod Walk
pub mod Detach
use clibutl.Prelude.{
  ℕ, zero, suc, ◌+◌, Bool, true, false, not, ◌&&◌, ◌||◌, List, Option, none, some, get_elem?, ltb,
  ◌==◌, if◌then◌else◌, u32_max, add32, sub32,
}
use clibutl.Prelude.Fault.{◌>>=◌}
use clibutl.Vec.Slots.{Allocator, store}
use clibutl.Vec.Defs.{Vec, vec_get, vec_set}
use clibutl.Vec.New.{vec_new}

-- `utl_arb_node_s`
pub record ArbNode : Type 0 where
  pub upn : ℕ
  pub dwn : ℕ
  pub nxt : ℕ
  pub dat : ℕ

abbrev pub Arb : Type 0
Arb = Vec ArbNode

-- ARB_NODE(a,n), to read; a number that no node has is a fault.
abbrev pub arb_node : Arb → ℕ → Option ArbNode
arb_node a n = get_elem? a.vec (sub32 n 1)

-- A store to fields of the node in a slot.
unfoldable pub change : Arb → (slot : ℕ) → (ArbNode → ArbNode) → Option Arb
change a slot f = do
  x ← get_elem? a.vec slot
  vec ← store a.vec slot (f x)
  some (record a { vec = vec })

unfoldable pub arb_new :
    Allocator ArbNode → (room : ℕ → Bool) → (struct : ℕ) → (ones zeros : ArbNode) → Option Arb
arb_new os room struct ones zeros = elim (vec_new os room struct ones zeros 16 none none) [
  | none ↦ none
  | some a ↦ some (record a { lst = 0 })
]

unfoldable pub arb_cnt : Arb → Option ℕ
arb_cnt a = if a.lst == 0 then some a.cnt else (do x ← arb_node a a.lst; some (sub32 a.cnt x.dat))

unfoldable pub arb_root : Arb → ℕ × Arb
arb_root a = (a.fst, record a { cur = a.fst })

-- The macro `arbMOVE`
unfoldable pub arb_move : (dir : ArbNode → ℕ) → Arb → Option (ℕ × Arb)
arb_move dir a =
    if a.cur == 0
    then some (0, a)
    else (do x ← arb_node a a.cur; some (dir x, if dir x == 0 then a else record a { cur = dir x }))

unfoldable pub arb_firstchild : Arb → Option (ℕ × Arb)
arb_firstchild a = arb_move (λ x. x.dwn) a

unfoldable pub arb_nextsibling : Arb → Option (ℕ × Arb)
arb_nextsibling a = arb_move (λ x. x.nxt) a

unfoldable pub arb_parent : Arb → Option (ℕ × Arb)
arb_parent a = arb_move (λ x. x.upn) a

unfoldable pub arb_getdata : Arb → Option ℕ
arb_getdata a = if a.cur == 0 then some 0 else (do x ← arb_node a a.cur; some x.dat)

unfoldable pub arb_setdata : Arb → ℕ → Option (ℕ × Arb)
arb_setdata a d =
    if a.cur == 0
    then some (0, a)
    else (do b ← change a (sub32 a.cur 1) (λ x. record x { dat = d }); some (1, b))

-- a->cur && ARB_NODE(a,a->cur).nxt == 0, or .dwn
unfoldable pub arb_ends : (dir : ArbNode → ℕ) → Arb → Option Bool
arb_ends dir a = if a.cur == 0 then some false else (do x ← arb_node a a.cur; some (dir x == 0))

unfoldable pub arb_islast : Arb → Option Bool
arb_islast a = arb_ends (λ x. x.nxt) a

unfoldable pub arb_isleaf : Arb → Option Bool
arb_isleaf a = arb_ends (λ x. x.dwn) a

unfoldable pub arb_isroot : Arb → Bool
arb_isroot a = not (a.cur == 0) && a.cur == a.fst

unfoldable pub arb_current : Arb → ℕ → ℕ × Arb
arb_current a n = let b = if ltb 0 n then record a { cur = n } else a in (b.cur, b)

-- `vecadd`, for a vector with neither `hsh` nor `cmp`.
unfoldable pub vecadd : Allocator ArbNode → Arb → ArbNode → Option (Option ℕ × Arb)
vecadd os a e = vec_set os (record a { elm = e }) a.cnt

-- The first half of `utl_arb_newnode`: the number of the node, from the free ones or a new one.
unfoldable pub take_node : Allocator ArbNode → Arb → Option (ℕ × Arb)
take_node os a =
    if ltb 0 a.lst then (do x ← arb_node a a.lst; some (a.lst, record a { lst = x.nxt })) else (do
      (p, b) ← vecadd os a (record { upn = a.cur; dwn = 0; nxt = 0; dat = 0 })
      some (b.cnt, b))

-- `utl_arb_newnode`: its result, `*ret_n`, and the tree.
unfoldable pub arb_newnode : Allocator ArbNode → Arb → Option (Option ℕ × ℕ × Arb)
arb_newnode os a = do (n, b) ← take_node os a; (np, c) ← vec_get b (sub32 n 1); some (np, n, c)

-- The end of `utl_arb_addnode`, where there is a node in slot `np`.
unfoldable pub link_child : Arb → (np n : ℕ) → Option Arb
link_child a np n =
    if a.fst == 0
    then (do
      b ← change (record a { fst = n }) np (λ x. record x { upn = 0 })
      some (record b { cur = n }))
    else (do
      b ← change a np (λ x. record x { upn = a.cur })
      x ← arb_node b b.cur
      c ← change b np (λ y. record y { nxt = x.dwn })
      d ← change c (sub32 c.cur 1) (λ y. record y { dwn = n })
      some (record d { cur = n }))

unfoldable pub arb_addnode : Allocator ArbNode → Arb → Option (ℕ × Arb)
arb_addnode os a = do
  (np, n, b) ← arb_newnode os a
  elim np [ none ↦ some (n, b) | some k ↦ link_child b k n >>= λ c. some (n, c) ]

-- The end of `utl_arb_addsibling`, where there is a node in slot `np`.
unfoldable pub link_sibling : Arb → (np n : ℕ) → Option Arb
link_sibling a np n = do
  x ← arb_node a a.cur
  b ← change a np (λ y. record y { upn = x.upn })
  x' ← arb_node b b.cur
  c ← change b np (λ y. record y { nxt = x'.nxt })
  d ← change c (sub32 c.cur 1) (λ y. record y { nxt = n })
  some (record d { cur = n })

unfoldable pub arb_addsibling : Allocator ArbNode → Arb → Option (ℕ × Arb)
arb_addsibling os a =
    if not (a.fst == 0) && not (a.cur == a.fst)
    then (do
      (np, n, b) ← arb_newnode os a
      elim np [ none ↦ some (n, b) | some k ↦ link_sibling b k n >>= λ c. some (n, c) ])
    else some (0, a)

-- `upn` of a deleted node.
abbrev pub deleted_node : ℕ
deleted_node = 0x8000_0000

-- The loop of `utl_arb_detach`: `prv`, `nxt` and the tree behind it.
unfoldable pub detach_walk : (fuel : ℕ) → Arb → (n prv nxt : ℕ) → Option (ℕ × ℕ × Arb)
detach_walk zero a n prv nxt = none
detach_walk (suc fuel) a n prv nxt = elim (nxt == 0 || nxt == n) [
  | true ↦ some (prv, nxt, a)
  | false ↦ elim (arb_nextsibling a) [ none ↦ none | some r ↦ detach_walk fuel r.1 n nxt r.0 ]
]

-- Node `n` is taken out behind its sibling before it.
unfoldable pub unlink_sibling : Arb → (n nxt : ℕ) → Option Arb
unlink_sibling a n nxt = do
  (prv, last, b) ← detach_walk (suc a.cnt) a n 0 nxt
  y ← arb_node b last
  change b (sub32 prv 1) (λ z. record z { nxt = y.nxt })

-- The first child of node `upn` is taken out.
unfoldable pub unlink_first : Arb → (upn nxt : ℕ) → Option Arb
unlink_first a upn nxt = do
  y ← arb_node a nxt
  change a (sub32 upn 1) (λ z. record z { dwn = y.nxt })

unfoldable pub arb_detach : Arb → Option (ℕ × Arb)
arb_detach a =
    let n = a.cur in
    if a.fst == 0 || n == a.fst then some (0, a) else (do
      x ← arb_node a n
      b ← change a (sub32 n 1) (λ y. record y { upn = deleted_node })
      (nxt, c) ← arb_firstchild (record b { cur = x.upn })
      d ← (if nxt == n then unlink_first c x.upn nxt else unlink_sibling c n nxt)
      some (n, record d { cur = x.upn }))
