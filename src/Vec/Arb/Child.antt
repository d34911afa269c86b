-- ===== src/Vec/Arb/Child.antt =====
-- src/utl_vec.c: `utl_arb_addnode` adds a node as the first child of the current one.
use mathlib.Core.Path.{subst}
use clibutl.Prelude.{ℕ, ◌+◌, ◌<◌, ◌≡◌, ◌≢◌, refl, sym, ap, false, List, [], ◌∷◌, some, ◌==◌, arith}
use clibutl.Prelude.Fault.{Ends}
use clibutl.Vec.Slots.{Allocator}
use clibutl.Vec.Growth.{IsValid}
use clibutl.Vec.Arb.{ArbNode, Arb, link_child, arb_addnode}
use clibutl.Vec.Arb.Link.{placed, chained, placed-IsValid, chained-IsValid, linked}
use clibutl.Vec.Arb.Grown.{
  added-IsValid, grown, grown-IsValid, new_has, cur_has, apart, added, new_node, cur_node,
  other_node, field_kept,
}
use clibutl.Vec.Arb.Nodes.{
  node, HasNode, IsChain, HasChildren, slot_of, arb_node_lem, change_lem, change_at,
  arb_newnode_lem, IsChain-kept,
}

link_child_lem :
    (a : Arb) (valid : IsValid a) (k : ℕ) (has : HasNode a (k + 1)) (has_cur : HasNode a a.cur)
    (ne : a.cur ≢ k + 1)
    → a.fst ≢ 0
    → link_child a k (k + 1)
      ≡ some (linked a valid k has has_cur ne a.cur (λ x. x.dwn) (λ x. record x { dwn = k + 1 }))
unfolding link_child
link_child_lem a valid k has has_cur ne rooted =
    let root : (a.fst == 0) ≡ false = ground (arith, rooted) in
    let up : ArbNode → ArbNode = λ x. record x { dwn = k + 1 } in
    let first : Arb = placed a valid k has has_cur ne a.cur (λ x. x.dwn) up in
    let first_valid : IsValid first =
      placed-IsValid a valid k has has_cur ne a.cur (λ x. x.dwn) up in
    let second : Arb = chained a valid k has has_cur ne a.cur (λ x. x.dwn) up in
    let second_valid : IsValid second =
      chained-IsValid a valid k has has_cur ne a.cur (λ x. x.dwn) up in
    rw (root, change_at a valid k (λ x. record x { upn = a.cur }) has, link_child)
      (rw (arb_node_lem first first_valid a.cur has_cur, link_child)
        (rw
          (
            change_at first first_valid k (λ y. record y { nxt = (node first a.cur).dwn }) has,
            link_child,
          )
          (rw
            (
              slot_of second second_valid a.cur has_cur,
              change_lem second second_valid a.cur up has_cur,
              link_child,
            )
            refl)))

-- What adding a child leaves: the new node `n`, with the children of the current node behind it, is the
-- first child of that node and the current node; it has no children, and all other nodes, their data,
-- their parents and their children are as they were.
pub record AddedChild (a : Arb) (n : ℕ) (b : Arb) : Type 0 where
  pub valid : IsValid b
  pub last : n ≡ a.cnt + 1
  pub counted : b.cnt ≡ n
  pub current : b.cur ≡ n
  pub rest : b ≡ record a { vec = b.vec; cnt = b.cnt; cur = b.cur; sorted = b.sorted; elm = b.elm }
  pub upn_new : (node b n).upn ≡ a.cur
  pub dat_new : (node b n).dat ≡ 0
  pub leaf : HasChildren b n []
  pub children : (ids : List ℕ) → HasChildren a a.cur ids → HasChildren b a.cur (n ∷ ids)
  pub upn_kept : (i : ℕ) → HasNode a i → (node b i).upn ≡ (node a i).upn
  pub dat_kept : (i : ℕ) → HasNode a i → (node b i).dat ≡ (node a i).dat
  pub others :
      (p : ℕ) → HasNode a p → p ≢ a.cur → (ids : List ℕ) → HasChildren a p ids → HasChildren b p ids

module _ (os : Allocator ArbNode) (a : Arb) (valid : IsValid a) (room : a.cnt < a.max)
    (has_cur : HasNode a a.cur) where
  -- The current node gets a new first child.
  abbrev with_child : ArbNode → ArbNode
  with_child x = record x { dwn = a.cnt + 1 }

  abbrev child_added : Arb
  child_added = added os a valid room has_cur a.cur (λ x. x.dwn) with_child

  kept_links :
      (i : ℕ) → HasNode a i → HasNode child_added i × ((node child_added i).nxt ≡ (node a i).nxt)
  kept_links i has = (
    (has.0, omega (arith, has)),
    field_kept os a valid room has_cur a.cur (λ x. x.dwn) with_child (λ x. x.nxt) refl i has,
  )

  child_added-AddedChild : AddedChild a (a.cnt + 1) child_added
  child_added-AddedChild = record {
    valid = added-IsValid os a valid room has_cur a.cur (λ x. x.dwn) with_child;
    last = refl;
    counted = refl;
    current = refl;
    rest = refl;
    upn_new =
        ap (λ (x : ArbNode). x.upn)
          (new_node os a valid room has_cur a.cur (λ x. x.dwn) with_child);
    dat_new =
        ap (λ (x : ArbNode). x.dat)
          (new_node os a valid room has_cur a.cur (λ x. x.dwn) with_child);
    leaf =
        ap (λ (x : ArbNode). x.dwn)
          (new_node os a valid room has_cur a.cur (λ x. x.dwn) with_child);
    children = λ ids chain. (
      ap (λ (x : ArbNode). x.dwn) (cur_node os a valid room has_cur a.cur (λ x. x.dwn) with_child),
      new_has os a valid room has_cur,
      subst (λ k. IsChain child_added k ids)
          (sym (
            ap (λ (x : ArbNode). x.nxt)
              (new_node os a valid room has_cur a.cur (λ x. x.dwn) with_child)))
          (IsChain-kept a child_added kept_links (node a a.cur).dwn ids chain),
    );
    upn_kept = field_kept os a valid room has_cur a.cur (λ x. x.dwn) with_child (λ x. x.upn) refl;
    dat_kept = field_kept os a valid room has_cur a.cur (λ x. x.dwn) with_child (λ x. x.dat) refl;
    others = λ p has ne ids chain.
        subst (λ k. IsChain child_added k ids)
          (sym (
            ap (λ (x : ArbNode). x.dwn)
              (other_node os a valid room has_cur a.cur (λ x. x.dwn) with_child p has ne)))
          (IsChain-kept a child_added kept_links (node a p).dwn ids chain);
  }

  -- `utl_arb_addnode` in a tree with a root and no free node, whose buffer has room, adds a node behind
  -- the others as the first child of the current node, before its other children, and makes it the
  -- current one. The new node has no children, and the parents, the data and the children of all
  -- other nodes are as they were.
  pub arb_addnode_lem : a.fst ≢ 0 → a.lst ≡ 0 → Ends (arb_addnode os a) (λ r. AddedChild a r.0 r.1)
  unfolding arb_addnode
  arb_addnode_lem rooted none_free =
      rw (arb_newnode_lem os a valid room none_free, arb_addnode)
        (rw
          (
            link_child_lem (grown os a valid room has_cur) (grown-IsValid os a valid room has_cur)
                a.cnt (new_has os a valid room has_cur) (cur_has os a valid room has_cur)
                (apart os a valid room has_cur) rooted,
            Ends,
          )
          child_added-AddedChild)
