-- ===== src/Vec/Arb/Nodes.antt =====
-- src/utl_vec.c: the nodes of a tree by their numbers, and the lists of their children.
use mathlib.Core.Path.{subst}
use clibutl.Prelude.{
  ℕ, ◌+◌, ◌-◌, ◌≤◌, ◌<◌, ◌≡◌, ◌≢◌, ◌∙◌, refl, sym, ap, true, false, List, [], ◌∷◌, some, get_elem?,
  get_or, get_elem?-eq-get_or, get_elem?-set_self, length, length-set, set, leb, ltb, ◌==◌,
  if◌then◌else◌, u32_max, add32, sub32, arith,
}
use clibutl.Vec.Slots.{Allocator}
use clibutl.Vec.Defs.{vec_get}
use clibutl.Vec.Growth.{IsValid, max-lt}
use clibutl.Vec.Array.{set_present}
use clibutl.Vec.Hash.Placing.{get_or-set}
use clibutl.Vec.Arb.{ArbNode, Arb, arb_node, change, vecadd, take_node, arb_newnode}

abbrev pub no_node : ArbNode
no_node = record { upn = 0; dwn = 0; nxt = 0; dat = 0 }

-- The node of a number.
abbrev pub node : Arb → ℕ → ArbNode
node a i = get_or a.vec (i - 1) no_node

abbrev pub HasNode : Arb → ℕ → Type 0
HasNode a i = (0 < i) × (i ≤ a.cnt)

-- The nodes that are linked by `nxt` from node `h` on.
abbrev pub IsChain : (a : Arb) (h : ℕ) → List ℕ → Type 0
IsChain a h [] = h ≡ 0
IsChain a h (i ∷ is) = (h ≡ i) × HasNode a i × IsChain a (node a i).nxt is

-- The children of a node, the first one first.
abbrev pub HasChildren : (a : Arb) (p : ℕ) → List ℕ → Type 0
HasChildren a p ids = IsChain a (node a p).dwn ids

-- A store to a node.
abbrev pub update : Arb → ℕ → ArbNode → Arb
update a i x = record a { vec = set a.vec (i - 1) x }

module _ (a : Arb) (valid : IsValid a) where
  pub slot_of : (i : ℕ) → HasNode a i → sub32 i 1 ≡ i - 1
  slot_of i has = omega (arith, valid.count, max-lt valid, has)

  pub arb_node_lem : (i : ℕ) → HasNode a i → arb_node a i ≡ some (node a i)
  arb_node_lem i has =
      rw (slot_of i has)
        (get_elem?-eq-get_or a.vec (i - 1) no_node (omega (arith, has, valid.count, valid.slots)))

  pub change_lem :
      (i : ℕ) (f : ArbNode → ArbNode)
      → HasNode a i
      → change a (i - 1) f ≡ some (update a i (f (node a i)))
  unfolding change
  change_lem i f has =
      let inside : ltb (i - 1) (length a.vec) ≡ true =
        ground (arith, has, valid.count, valid.slots) in
      rw
        (
          get_elem?-eq-get_or a.vec (i - 1) no_node
              (let lt : i - 1 < length a.vec = omega (arith, has, valid.count, valid.slots) in lt),
          change,
        )
        (rw inside refl)

  pub update-IsValid : (i : ℕ) (x : ArbNode) → IsValid (update a i x)
  update-IsValid i x = record {
    slots = length-set a.vec (i - 1) x ∙ valid.slots;
    count = valid.count;
    positive = valid.positive;
    sized = valid.sized;
    fits = valid.fits;
  }

  pub update_self : (i : ℕ) (x : ArbNode) → HasNode a i → node (update a i x) i ≡ x
  update_self i x has = ground (
    arith,
    get_or-set a.vec (i - 1) (i - 1) x no_node (omega (arith, has, valid.count, valid.slots)),
  )

  pub update_other :
      (i j : ℕ) (x : ArbNode) → HasNode a i → 0 < j → i ≢ j → node (update a i x) j ≡ node a j
  update_other i j x has pos ne =
      let apart : (i - 1 == j - 1) ≡ false = ground (arith, has, pos, ne) in
      get_or-set a.vec (i - 1) (j - 1) x no_node (omega (arith, has, valid.count, valid.slots))
      ∙ rw apart refl

-- A new node behind the others.
abbrev pub with_node : Arb → ArbNode → Arb
with_node a e = record a { vec = set a.vec a.cnt e; cnt = a.cnt + 1; sorted = false; elm = e }

module _ (os : Allocator ArbNode) (a : Arb) (valid : IsValid a) (room : a.cnt < a.max) where
  abbrev pub fresh_node : ArbNode
  fresh_node = record { upn = a.cur; dwn = 0; nxt = 0; dat = 0 }

  pub with_node-IsValid : (e : ArbNode) → IsValid (with_node a e)
  with_node-IsValid e = record {
    slots = length-set a.vec a.cnt e ∙ valid.slots;
    count = omega arith;
    positive = valid.positive;
    sized = valid.sized;
    fits = valid.fits;
  }

  pub with_node_new : (e : ArbNode) → node (with_node a e) (a.cnt + 1) ≡ e
  with_node_new e =
      let same : a.cnt + 1 - 1 ≡ a.cnt = omega arith in
      rw same
        (ground (arith, get_or-set a.vec a.cnt a.cnt e no_node (omega (arith, room, valid.slots))))

  pub with_node_old : (e : ArbNode) (i : ℕ) → HasNode a i → node (with_node a e) i ≡ node a i
  with_node_old e i has =
      let apart : (a.cnt == i - 1) ≡ false = ground (arith, has) in
      get_or-set a.vec a.cnt (i - 1) e no_node (omega (arith, room, valid.slots)) ∙ rw apart refl

  small : a.cnt < u32_max
  small = omega (arith, room, max-lt valid)

  vecadd_lem : (e : ArbNode) → vecadd os a e ≡ some (some a.cnt, with_node a e)
  unfolding vecadd
  vecadd_lem e =
      let larger : (if leb a.cnt a.cnt then add32 a.cnt 1 else a.cnt) ≡ a.cnt + 1 =
        ground (arith, small) in
      set_present os (record a { elm = e }) a.cnt
        (record {
          slots = valid.slots;
          count = valid.count;
          positive = valid.positive;
          sized = valid.sized;
          fits = valid.fits;
        })
        room small
      ∙ ap (λ c. some (some a.cnt, record (with_node a e) { cnt = c })) larger

  take_node_lem : a.lst ≡ 0 → take_node os a ≡ some (a.cnt + 1, with_node a fresh_node)
  unfolding take_node
  take_node_lem none_free =
      let none_there : ltb 0 a.lst ≡ false = ground (arith, none_free) in
      rw (none_there, vecadd_lem fresh_node, take_node) refl

  vec_get_new :
      (e : ArbNode)
      → vec_get (with_node a e) (sub32 (a.cnt + 1) 1) ≡ some (some a.cnt, with_node a e)
  unfolding vec_get
  vec_get_new e =
      let last : sub32 (a.cnt + 1) 1 ≡ a.cnt = omega (arith, small) in
      let given : (a.cnt == u32_max) ≡ false = ground (arith, small) in
      let inside : ltb a.cnt (a.cnt + 1) ≡ true = ground arith in
      let read : get_elem? (set a.vec a.cnt e) a.cnt ≡ some e =
        get_elem?-set_self a.vec a.cnt e (omega (arith, room, valid.slots)) in
      rw (last, given, inside, read, vec_get) refl

  -- Where there is room and no free node, `utl_arb_newnode` appends a node.
  pub arb_newnode_lem :
      a.lst ≡ 0 → arb_newnode os a ≡ some (some a.cnt, a.cnt + 1, with_node a fresh_node)
  unfolding arb_newnode
  arb_newnode_lem none_free = rw (take_node_lem none_free, vec_get_new fresh_node, arb_newnode) refl

-- The same store, where the slot is given.
pub change_at :
    (a : Arb) (valid : IsValid a) (k : ℕ) (f : ArbNode → ArbNode)
    → HasNode a (k + 1)
    → change a k f ≡ some (update a (k + 1) (f (node a (k + 1))))
change_at a valid k f has =
    let same : k + 1 - 1 ≡ k = omega arith in
    ap (λ s. change a s f) (sym same) ∙ change_lem a valid (k + 1) f has

-- A list of nodes stays where their links stay.
pub IsChain-kept :
    (a b : Arb)
    → ((i : ℕ) → HasNode a i → HasNode b i × ((node b i).nxt ≡ (node a i).nxt))
    → (h : ℕ) (ids : List ℕ) → IsChain a h ids
    → IsChain b h ids
IsChain-kept a b kept h [] chain = chain
IsChain-kept a b kept h (i ∷ is) (here, has, rest) =
    let (has', same) = kept i has in
    (
      here,
      has',
      subst (λ k. IsChain b k is) (sym same) (IsChain-kept a b kept (node a i).nxt is rest),
    )
