-- ===== src/Vec/Arb/Sibling.antt =====
-- src/utl_vec.c: `utl_arb_addsibling` adds a node behind the current one.
use mathlib.Core.Path.{subst}
use clibutl.Prelude.{
  ℕ, ◌+◌, ◌<◌, ◌≡◌, ◌≢◌, ◌∙◌, refl, sym, ap, false, List, [], ◌∷◌, some, ◌==◌, if◌then◌else◌,
  Bool-cases, inl, inr, arith,
}
use clibutl.Prelude.Fault.{Ends}
use clibutl.Vec.Slots.{Allocator}
use clibutl.Vec.Growth.{IsValid}
use clibutl.Vec.Arb.{ArbNode, Arb, link_sibling, arb_addsibling}
use clibutl.Vec.Arb.Link.{placed, chained, placed-IsValid, chained-IsValid, linked}
use clibutl.Vec.Arb.Grown.{
  grown, grown-IsValid, new_has, cur_has, apart, added, new_node, cur_node, other_node, field_kept,
  added-IsValid,
}
use clibutl.Vec.Arb.Nodes.{
  node, HasNode, IsChain, HasChildren, slot_of, arb_node_lem, change_lem, change_at, with_node_old,
  fresh_node, arb_newnode_lem,
}

link_sibling_lem :
    (a : Arb) (valid : IsValid a) (k : ℕ) (has : HasNode a (k + 1)) (has_cur : HasNode a a.cur)
    (ne : a.cur ≢ k + 1)
    → link_sibling a k (k + 1)
      ≡ some (
          linked a valid k has has_cur ne
            (node a a.cur).upn
            (λ x. x.nxt)
            (λ x. record x { nxt = k + 1 }))
unfolding link_sibling
link_sibling_lem a valid k has has_cur ne =
    let u : ℕ = (node a a.cur).upn in
    let next : ArbNode → ArbNode = λ x. record x { nxt = k + 1 } in
    let first : Arb = placed a valid k has has_cur ne u (λ x. x.nxt) next in
    let first_valid : IsValid first = placed-IsValid a valid k has has_cur ne u (λ x. x.nxt) next in
    let second : Arb = chained a valid k has has_cur ne u (λ x. x.nxt) next in
    let second_valid : IsValid second =
      chained-IsValid a valid k has has_cur ne u (λ x. x.nxt) next in
    rw (arb_node_lem a valid a.cur has_cur, link_sibling)
      (rw (change_at a valid k (λ x. record x { upn = u }) has, link_sibling)
        (rw (arb_node_lem first first_valid a.cur has_cur, link_sibling)
          (rw
            (
              change_at first first_valid k (λ y. record y { nxt = (node first a.cur).nxt }) has,
              link_sibling,
            )
            (rw
              (
                slot_of second second_valid a.cur has_cur,
                change_lem second second_valid a.cur next has_cur,
                link_sibling,
              )
              refl))))

-- The list with `n` behind `c`.
unfoldable pub behind : (c n : ℕ) → List ℕ → List ℕ
behind c n [] = []
behind c n (i ∷ is) = let rest = behind c n is in if i == c then i ∷ n ∷ rest else i ∷ rest

-- What adding a sibling leaves: the new node `n` is behind the current one among the children of its
-- parent, has no children and is the current node; all other children, and the parents and the data
-- of all other nodes are as they were.
pub record AddedSibling (a : Arb) (n : ℕ) (b : Arb) : Type 0 where
  pub valid : IsValid b
  pub last : n ≡ a.cnt + 1
  pub counted : b.cnt ≡ n
  pub current : b.cur ≡ n
  pub rest : b ≡ record a { vec = b.vec; cnt = b.cnt; cur = b.cur; sorted = b.sorted; elm = b.elm }
  pub upn_new : (node b n).upn ≡ (node a a.cur).upn
  pub dat_new : (node b n).dat ≡ 0
  pub leaf : HasChildren b n []
  pub children :
      (p : ℕ)
      → HasNode a p
      → (ids : List ℕ) → HasChildren a p ids
      → HasChildren b p (behind a.cur n ids)
  pub upn_kept : (i : ℕ) → HasNode a i → (node b i).upn ≡ (node a i).upn
  pub dat_kept : (i : ℕ) → HasNode a i → (node b i).dat ≡ (node a i).dat

module _ (os : Allocator ArbNode) (a : Arb) (valid : IsValid a) (room : a.cnt < a.max)
    (has_cur : HasNode a a.cur) where
  abbrev with_next : ArbNode → ArbNode
  with_next x = record x { nxt = a.cnt + 1 }

  abbrev parent : ℕ
  parent = (node (grown os a valid room has_cur) a.cur).upn

  parent_same : parent ≡ (node a a.cur).upn
  parent_same =
      ap (λ (x : ArbNode). x.upn)
        (with_node_old os a valid room (fresh_node os a valid room) a.cur has_cur)

  abbrev sibling_added : Arb
  sibling_added = added os a valid room has_cur parent (λ x. x.nxt) with_next

  kept :
      (f : ArbNode → ℕ)
      → f (with_next (node a a.cur)) ≡ f (node a a.cur)
      → (i : ℕ) → HasNode a i
      → f (node sibling_added i) ≡ f (node a i)
  kept f same i has = field_kept os a valid room has_cur parent (λ x. x.nxt) with_next f same i has

  still_there : (i : ℕ) → HasNode a i → HasNode sibling_added i
  still_there i has = (has.0, omega (arith, has))

  IsChain-behind :
      (h : ℕ) (ids : List ℕ)
      → IsChain a h ids
      → IsChain sibling_added h (behind a.cur (a.cnt + 1) ids)
  unfolding behind
  IsChain-behind h [] chain = chain
  IsChain-behind h (i ∷ is) (here, has, rest) = elim (Bool-cases (i == a.cur)) [
    | inl current ↦
        let same : i ≡ a.cur = ground arith in
        let after : (node sibling_added i).nxt ≡ a.cnt + 1 =
          ap (λ j. (node sibling_added j).nxt) same
          ∙ ap (λ (x : ArbNode). x.nxt)
              (cur_node os a valid room has_cur parent (λ x. x.nxt) with_next) in
        let after_new : (node sibling_added (a.cnt + 1)).nxt ≡ (node a i).nxt =
          ap (λ (x : ArbNode). x.nxt)
            (new_node os a valid room has_cur parent (λ x. x.nxt) with_next)
          ∙ ap (λ j. (node a j).nxt) (sym same) in
        rw (current, behind)
          (
            here,
            still_there i has,
            (
              after,
              new_has os a valid room has_cur,
              subst (λ k. IsChain sibling_added k (behind a.cur (a.cnt + 1) is)) (sym after_new)
                  (IsChain-behind (node a i).nxt is rest),
            ),
          )
    | inr other ↦
        let ne : i ≢ a.cur = ground arith in
        let after : (node sibling_added i).nxt ≡ (node a i).nxt =
          ap (λ (x : ArbNode). x.nxt)
            (other_node os a valid room has_cur parent (λ x. x.nxt) with_next i has ne) in
        rw (other, behind)
          (
            here,
            still_there i has,
            subst (λ k. IsChain sibling_added k (behind a.cur (a.cnt + 1) is)) (sym after)
                (IsChain-behind (node a i).nxt is rest),
          )
  ]

  sibling_added-AddedSibling : AddedSibling a (a.cnt + 1) sibling_added
  sibling_added-AddedSibling = record {
    valid = added-IsValid os a valid room has_cur parent (λ x. x.nxt) with_next;
    last = refl;
    counted = refl;
    current = refl;
    rest = refl;
    upn_new =
        ap (λ (x : ArbNode). x.upn) (new_node os a valid room has_cur parent (λ x. x.nxt) with_next)
        ∙ parent_same;
    dat_new =
        ap (λ (x : ArbNode). x.dat)
          (new_node os a valid room has_cur parent (λ x. x.nxt) with_next);
    leaf =
        ap (λ (x : ArbNode). x.dwn)
          (new_node os a valid room has_cur parent (λ x. x.nxt) with_next);
    children = λ p has ids chain.
        subst (λ k. IsChain sibling_added k (behind a.cur (a.cnt + 1) ids))
          (sym (kept (λ x. x.dwn) refl p has)) (IsChain-behind (node a p).dwn ids chain);
    upn_kept = kept (λ x. x.upn) refl;
    dat_kept = kept (λ x. x.dat) refl;
  }

  -- `utl_arb_addsibling` of a node that is not the root, in a tree with no free node whose buffer has room,
  -- adds a node behind the others, which stands behind the current one among the children of its
  -- parent, and makes it the current one. The new node has no children; all other children stay in
  -- their order, and the parents and data of all other nodes are as they were.
  pub arb_addsibling_lem :
      a.fst ≢ 0
      → a.cur ≢ a.fst
      → a.lst ≡ 0
      → Ends (arb_addsibling os a) (λ r. AddedSibling a r.0 r.1)
  unfolding arb_addsibling
  arb_addsibling_lem rooted below none_free =
      let root : (a.fst == 0) ≡ false = ground (arith, rooted) in
      let inner : (a.cur == a.fst) ≡ false = ground (arith, below) in
      rw (root, inner, arb_newnode_lem os a valid room none_free, arb_addsibling)
        (rw
          (
            link_sibling_lem (grown os a valid room has_cur) (grown-IsValid os a valid room has_cur)
                a.cnt (new_has os a valid room has_cur) (cur_has os a valid room has_cur)
                (apart os a valid room has_cur),
            Ends,
          )
          sibling_added-AddedSibling)
