-- ===== src/Vec/Arb/Add.antt =====
-- src/utl_vec.c: `utl_arb_addnode`, of the root of an empty tree and of a child.
use clibutl.Prelude.{
  ℕ, ◌+◌, ◌<◌, ◌≡◌, ◌≢◌, ◌⊎◌, ◌∙◌, refl, ap, true, [], some, ◌==◌, inl, inr, arith,
}
use clibutl.Prelude.Fault.{Ends, Ends-map}
use clibutl.Vec.Slots.{Allocator}
use clibutl.Vec.Growth.{IsValid}
use clibutl.Vec.Arb.{ArbNode, Arb, link_child, arb_addnode}
use clibutl.Vec.Arb.Nodes.{
  node, HasNode, HasChildren, update, change_at, update-IsValid, update_self, update_other,
  with_node, fresh_node, with_node-IsValid, with_node_new, with_node_old, arb_newnode_lem,
}
use clibutl.Vec.Arb.Child.{AddedChild, arb_addnode_lem}

-- The new node is the root and the current node; it has no parent and no children, and other nodes are
-- as they were.
pub record AddedRoot (a : Arb) (n : ℕ) (b : Arb) : Type 0 where
  pub valid : IsValid b
  pub last : n ≡ a.cnt + 1
  pub counted : b.cnt ≡ n
  pub root : b.fst ≡ n
  pub current : b.cur ≡ n
  pub upn_new : (node b n).upn ≡ 0
  pub dat_new : (node b n).dat ≡ 0
  pub leaf : HasChildren b n []
  pub others : (i : ℕ) → HasNode a i → node b i ≡ node a i

-- What `utl_arb_addnode` leaves.
abbrev pub AddedNode : Arb → ℕ × Arb → Type 0
AddedNode a (n, b) = ((a.fst ≡ 0) × AddedRoot a n b) ⊎ ((a.fst ≢ 0) × AddedChild a n b)

module _ (os : Allocator ArbNode) (a : Arb) (valid : IsValid a) (room : a.cnt < a.max) where
  -- The tree with its new node as the root.
  abbrev with_root : Arb
  with_root = record (with_node a (fresh_node os a valid room)) { fst = a.cnt + 1 }

  with_root-IsValid : IsValid with_root
  with_root-IsValid =
      let v = with_node-IsValid os a valid room (fresh_node os a valid room) in
      record {
        slots = v.slots;
        count = v.count;
        positive = v.positive;
        sized = v.sized;
        fits = v.fits;
      }

  new_has : HasNode with_root (a.cnt + 1)
  new_has = (omega arith, omega arith)

  abbrev rooted : Arb
  rooted = record (update with_root (a.cnt + 1) (record (node with_root (a.cnt + 1)) { upn = 0 })) {
    cur = a.cnt + 1;
  }

  link_root :
      a.fst ≡ 0
      → link_child (with_node a (fresh_node os a valid room)) a.cnt (a.cnt + 1) ≡ some rooted
  unfolding link_child
  link_root empty =
      let root : (a.fst == 0) ≡ true = ground (arith, empty) in
      rw
        (
          root,
          change_at with_root with_root-IsValid a.cnt (λ x. record x { upn = 0 }) new_has,
          link_child,
        )
        refl

  new_root : node rooted (a.cnt + 1) ≡ record { upn = 0; dwn = 0; nxt = 0; dat = 0 }
  new_root =
      update_self with_root with_root-IsValid (a.cnt + 1) _ new_has
      ∙ ap (λ (x : ArbNode). record x { upn = 0 })
          (with_node_new os a valid room (fresh_node os a valid room))

  rooted-AddedRoot : AddedRoot a (a.cnt + 1) rooted
  rooted-AddedRoot = record {
    valid =
        (let v =
            update-IsValid with_root with_root-IsValid (a.cnt + 1)
              (record (node with_root (a.cnt + 1)) { upn = 0 }) in
          record {
            slots = v.slots;
            count = v.count;
            positive = v.positive;
            sized = v.sized;
            fits = v.fits;
          });
    last = refl;
    counted = refl;
    root = refl;
    current = refl;
    upn_new = ap (λ (x : ArbNode). x.upn) new_root;
    dat_new = ap (λ (x : ArbNode). x.dat) new_root;
    leaf = ap (λ (x : ArbNode). x.dwn) new_root;
    others = λ i has.
        update_other with_root with_root-IsValid (a.cnt + 1) i _ new_has has.0
          (λ e. absurd (omega (arith, e, has)))
        ∙ with_node_old os a valid room (fresh_node os a valid room) i has;
  }

  arb_addnode-AddedRoot : a.fst ≡ 0 → a.lst ≡ 0 → Ends (arb_addnode os a) (λ r. AddedRoot a r.0 r.1)
  unfolding arb_addnode
  arb_addnode-AddedRoot empty none_free =
      rw (arb_newnode_lem os a valid room none_free, arb_addnode)
        (rw (link_root empty, Ends) rooted-AddedRoot)

  -- `utl_arb_addnode` of a tree with no free node, whose buffer has room, adds a node behind the others.
  -- Where there is no root it is the root, and else the first child of the current node, before its
  -- other children. It is the current node then and has no children; the parents, the data and the
  -- children of all other nodes are as they were.
  pub arb_addnode-AddedNode :
      a.lst ≡ 0
      → (a.fst ≡ 0) ⊎ ((a.fst ≢ 0) × HasNode a a.cur)
      → Ends (arb_addnode os a) (AddedNode a)
  arb_addnode-AddedNode none_free (inl empty) =
      Ends-map (λ (r : ℕ × Arb). AddedRoot a r.0 r.1) (AddedNode a) (arb_addnode os a)
        (λ r n. inl (empty, n)) (arb_addnode-AddedRoot empty none_free)
  arb_addnode-AddedNode none_free (inr (some_root, has_cur)) =
      Ends-map (λ (r : ℕ × Arb). AddedChild a r.0 r.1) (AddedNode a) (arb_addnode os a)
        (λ r n. inr (some_root, n)) (arb_addnode_lem os a valid room has_cur some_root none_free)
