-- ===== src/Vec/Arb/Detach.antt =====
-- src/utl_vec.c: `utl_arb_detach` takes the current node out of the children of its parent.
use mathlib.Core.Path.{subst}
use clibutl.Prelude.{
  ℕ, suc, ◌≤◌, ◌<◌, ◌≡◌, ◌≢◌, ◌∙◌, refl, sym, ap, true, false, List, [], ◌∷◌, ◌++◌, some, length,
  ◌==◌, if◌then◌else◌, arith,
}
use clibutl.Prelude.Fault.{◌>>=◌, Ends}
use clibutl.Vec.Growth.{IsValid}
use clibutl.Vec.Arb.{ArbNode, Arb, deleted_node, unlink_first, unlink_sibling, arb_detach}
use clibutl.Vec.Arb.Walk.{
  IsDistinct, last_of, first_move, update_field, walk-last_of, skipped, has_last, skipped-IsChain,
  elem-middle, IsDistinct-elem,
}
use clibutl.Vec.Arb.Nodes.{
  node, HasNode, IsChain, HasChildren, update, slot_of, arb_node_lem, change_lem, update-IsValid,
  update_self, IsChain-kept,
}

-- The current node was taken out of the children of its parent, which is the current node now. The
-- other children keep their order, and all nodes their data.
pub record Detached (a : Arb) (ids : List ℕ) (r : ℕ × Arb) : Type 0 where
  pub number : r.0 ≡ a.cur
  pub valid : IsValid r.1
  pub rest : r.1 ≡ record a { vec = r.1.vec; cur = (node a a.cur).upn }
  pub children : HasChildren r.1 (node a a.cur).upn ids
  pub dat_kept : (i : ℕ) → HasNode a i → (node r.1 i).dat ≡ (node a i).dat

module _ (a : Arb) (valid : IsValid a) (has_n : HasNode a a.cur)
    (has_p : HasNode a (node a a.cur).upn) where
  -- The parent of the current node, and the tree where that node is marked as deleted.
  abbrev p : ℕ
  p = (node a a.cur).upn

  abbrev marked : Arb
  marked = update a a.cur (record (node a a.cur) { upn = deleted_node })

  marked-IsValid : IsValid marked
  marked-IsValid = update-IsValid a valid a.cur _

  marked_field :
      (f : ArbNode → ℕ)
      → f (record (node a a.cur) { upn = deleted_node }) ≡ f (node a a.cur)
      → (i : ℕ) → HasNode a i
      → f (node marked i) ≡ f (node a i)
  marked_field f same i has = update_field f a valid a.cur _ has_n same i has

  marked-IsChain : (ids : List ℕ) → HasChildren a p ids → HasChildren marked p ids
  marked-IsChain ids chain =
      subst (λ k. IsChain marked k ids) (sym (marked_field (λ x. x.dwn) refl p has_p))
        (IsChain-kept a marked (λ i has. (has, marked_field (λ x. x.nxt) refl i has)) (node a p).dwn
          ids chain)

  -- The tree where the current node was the first child.
  abbrev first_out : Arb
  first_out = record (update marked p (record (node marked p) { dwn = (node marked a.cur).nxt })) {
    cur = p;
  }

  first_field :
      (f : ArbNode → ℕ)
      → f (record (node marked p) { dwn = (node marked a.cur).nxt }) ≡ f (node marked p)
      → (i : ℕ) → HasNode a i
      → f (node first_out i) ≡ f (node marked i)
  first_field f same i has = update_field f marked marked-IsValid p _ has_p same i has

  out-IsValid : (q : ℕ) (x : ArbNode) → IsValid (record (update marked q x) { cur = p })
  out-IsValid q x =
      let v = update-IsValid marked marked-IsValid q x in
      record {
        slots = v.slots;
        count = v.count;
        positive = v.positive;
        sized = v.sized;
        fits = v.fits;
      }

  first_out-Detached :
      (ys : List ℕ) → HasChildren marked p (a.cur ∷ ys) → Detached a ys (a.cur, first_out)
  first_out-Detached ys (here, has, rest) = record {
    number = refl;
    valid = out-IsValid p _;
    rest = refl;
    children =
        subst (λ k. IsChain first_out k ys)
          (sym (ap (λ (x : ArbNode). x.dwn) (update_self marked marked-IsValid p _ has_p)))
          (IsChain-kept marked first_out (λ i has. (has, first_field (λ x. x.nxt) refl i has))
            (node marked a.cur).nxt ys rest);
    dat_kept = λ i has. first_field (λ x. x.dat) refl i has ∙ marked_field (λ x. x.dat) refl i has;
  }

  -- The tree where node `q` was before it.
  abbrev later_out : (q : ℕ) → Arb
  later_out q = record (skipped marked marked-IsValid a.cur q) { cur = p }

  later_field :
      (q : ℕ)
      → HasNode a q
      → (f : ArbNode → ℕ)
      → f (record (node marked q) { nxt = (node marked a.cur).nxt }) ≡ f (node marked q)
      → (i : ℕ) → HasNode a i
      → f (node (later_out q) i) ≡ f (node marked i)
  later_field q has_q f same i has = update_field f marked marked-IsValid q _ has_q same i has

  later_out-Detached :
      (ys js : List ℕ) (j : ℕ)
      → HasChildren marked p (j ∷ js ++ a.cur ∷ ys)
      → IsDistinct (j ∷ js ++ a.cur ∷ ys)
      → Detached a (j ∷ js ++ ys) (a.cur, later_out (last_of j js))
  later_out-Detached ys js j chain distinct =
      let q : ℕ = last_of j js in
      let has_q : HasNode a q =
        has_last marked marked-IsValid a.cur ys js j (node marked p).dwn chain in
      record {
        number = refl;
        valid = out-IsValid q _;
        rest = refl;
        children =
            subst (λ k. IsChain (later_out q) k (j ∷ js ++ ys))
              (sym (later_field q has_q (λ x. x.dwn) refl p has_p))
              (skipped-IsChain marked marked-IsValid a.cur ys js j (node marked p).dwn chain
                distinct);
        dat_kept = λ i has.
            later_field q has_q (λ x. x.dat) refl i has ∙ marked_field (λ x. x.dat) refl i has;
      }

  -- The steps of `utl_arb_detach` up to the choice of the store.
  detach-marked :
      (h : ℕ)
      → a.fst ≢ 0
      → a.cur ≢ a.fst
      → (node marked p).dwn ≡ h
      → 0 < h
      → arb_detach a ≡ (
          (if h == a.cur
            then unlink_first (record marked { cur = h }) p h
            else unlink_sibling (record marked { cur = h }) a.cur h)
          >>= λ d. some (a.cur, record d { cur = p }))
  unfolding arb_detach
  detach-marked h rooted below first pos =
      let root : (a.fst == 0) ≡ false = ground (arith, rooted) in
      let inner : (a.cur == a.fst) ≡ false = ground (arith, below) in
      rw (root, inner, arb_node_lem a valid a.cur has_n, arb_detach)
        (rw
          (
            slot_of a valid a.cur has_n,
            change_lem a valid a.cur (λ y. record y { upn = deleted_node }) has_n,
            arb_detach,
          )
          (rw (first_move marked marked-IsValid p h has_p first pos, arb_detach) refl))

  moved-IsValid : (h : ℕ) → IsValid (record marked { cur = h })
  moved-IsValid h = record {
    slots = marked-IsValid.slots;
    count = valid.count;
    positive = valid.positive;
    sized = valid.sized;
    fits = valid.fits;
  }

  unlink_first_lem :
      (h : ℕ)
      → HasNode a h
      → unlink_first (record marked { cur = h }) p h
        ≡ some (
            update
              (record marked { cur = h })
              p
              (record (node marked p) { dwn = (node marked h).nxt }))
  unfolding unlink_first
  unlink_first_lem h has =
      rw (arb_node_lem (record marked { cur = h }) (moved-IsValid h) h has, unlink_first)
        (rw (slot_of (record marked { cur = h }) (moved-IsValid h) p has_p) (
          change_lem (record marked { cur = h }) (moved-IsValid h) p
            (λ z. record z { dwn = (node marked h).nxt }) has_p))

  unlink_sibling_lem :
      (ys js : List ℕ) (j h : ℕ)
      → IsChain marked h (j ∷ js ++ a.cur ∷ ys)
      → IsDistinct (j ∷ js ++ a.cur ∷ ys)
      → length (j ∷ js) ≤ a.cnt
      → unlink_sibling (record marked { cur = h }) a.cur h
        ≡ some (record (skipped marked marked-IsValid a.cur (last_of j js)) { cur = a.cur })
  unfolding unlink_sibling last_of
  unlink_sibling_lem ys js j h chain distinct few =
      let q : ℕ = last_of j js in
      let has_q : HasNode a q = has_last marked marked-IsValid a.cur ys js j h chain in
      rw
        (
          walk-last_of marked marked-IsValid a.cur ys (j ∷ js) (suc a.cnt) 0 h chain
              (IsDistinct-elem a.cur ys (j ∷ js) distinct) (omega arith),
          unlink_sibling,
        )
        (rw
          (
            arb_node_lem (record marked { cur = a.cur }) (moved-IsValid a.cur) a.cur has_n,
            unlink_sibling,
          )
          (rw (slot_of (record marked { cur = a.cur }) (moved-IsValid a.cur) q has_q) (
            change_lem (record marked { cur = a.cur }) (moved-IsValid a.cur) q
              (λ z. record z { nxt = (node marked a.cur).nxt }) has_q)))

  -- `utl_arb_detach` of a node that is not the root, in a tree where it stands behind `xs` and before `ys`
  -- among the children of its parent, which are different nodes and no more than the tree has, ends. It
  -- returns the number of the node, and `xs` and `ys` are the children of the parent, in their order; the
  -- parent is the current node, the rest of the tree is as it was but for the links, and all nodes keep
  -- their data.
  pub arb_detach_lem :
      (xs ys : List ℕ)
      → a.fst ≢ 0
      → a.cur ≢ a.fst
      → HasChildren a (node a a.cur).upn (xs ++ a.cur ∷ ys)
      → IsDistinct (xs ++ a.cur ∷ ys)
      → length xs ≤ a.cnt
      → Ends (arb_detach a) (Detached a (xs ++ ys))
  arb_detach_lem [] ys rooted below chain distinct few =
      let chain' : HasChildren marked p (a.cur ∷ ys) = marked-IsChain (a.cur ∷ ys) chain in
      let here : (a.cur == a.cur) ≡ true = ground arith in
      rw
        (
          detach-marked a.cur rooted below chain'.0 has_n.0,
          here,
          unlink_first_lem a.cur has_n,
          Ends,
        )
        (first_out-Detached ys chain')
  arb_detach_lem (j ∷ js) ys rooted below chain distinct few =
      let chain' : HasChildren marked p (j ∷ js ++ a.cur ∷ ys) =
        marked-IsChain (j ∷ js ++ a.cur ∷ ys) chain in
      let h : ℕ = (node marked p).dwn in
      let (begin, has_j, more) = chain' in
      let other : (h == a.cur) ≡ false =
        (let apart : (a.cur == j) ≡ false = elem-middle j a.cur ys js distinct.0 in
          let same : h ≡ j = begin in ground (arith, apart, same)) in
      rw
        (
          detach-marked h rooted below refl (omega (arith, begin, has_j)),
          other,
          unlink_sibling_lem ys js j h chain' distinct few,
          Ends,
        )
        (later_out-Detached ys js j chain' distinct)
