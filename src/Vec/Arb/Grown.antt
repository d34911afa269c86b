-- ===== src/Vec/Arb/Grown.antt =====
-- src/utl_vec.c: the nodes of a tree with a new one, as `utl_arb_addnode` and `utl_arb_addsibling`
-- leave them.
use clibutl.Prelude.{ℕ, ◌+◌, ◌<◌, ◌≡◌, ◌≢◌, ◌∙◌, sym, ap, ◌==◌, Bool-cases, inl, inr, arith}
use clibutl.Vec.Slots.{Allocator}
use clibutl.Vec.Growth.{IsValid}
use clibutl.Vec.Arb.{ArbNode, Arb}
use clibutl.Vec.Arb.Link.{linked, linked_new, linked_cur, linked_other, linked-IsValid}
use clibutl.Vec.Arb.Nodes.{
  node, HasNode, with_node, fresh_node, with_node-IsValid, with_node_new, with_node_old,
}

module _ (os : Allocator ArbNode) (a : Arb) (valid : IsValid a) (room : a.cnt < a.max)
    (has_cur : HasNode a a.cur) where
  abbrev pub grown : Arb
  grown = with_node a (fresh_node os a valid room)

  pub grown-IsValid : IsValid grown
  grown-IsValid = with_node-IsValid os a valid room (fresh_node os a valid room)

  pub new_has : HasNode grown (a.cnt + 1)
  new_has = (omega arith, omega arith)

  pub cur_has : HasNode grown a.cur
  cur_has = (has_cur.0, omega (arith, has_cur))

  pub apart : a.cur ≢ a.cnt + 1
  apart e = absurd (omega (arith, e, has_cur))

  module _ (u : ℕ) (d : ArbNode → ℕ) (w : ArbNode → ArbNode) where
    abbrev pub added : Arb
    added = linked grown grown-IsValid a.cnt new_has cur_has apart u d w

    pub new_node :
        node added (a.cnt + 1) ≡ record { upn = u; dwn = 0; nxt = d (node a a.cur); dat = 0 }
    new_node =
        linked_new grown grown-IsValid a.cnt new_has cur_has apart u d w
        ∙ ap (λ (x : ArbNode). record x { upn = u; nxt = d (node grown a.cur) })
            (with_node_new os a valid room (fresh_node os a valid room))
        ∙ ap (λ (x : ArbNode). record { upn = u; dwn = 0; nxt = d x; dat = 0 })
            (with_node_old os a valid room (fresh_node os a valid room) a.cur has_cur)

    pub cur_node : node added a.cur ≡ w (node a a.cur)
    cur_node =
        linked_cur grown grown-IsValid a.cnt new_has cur_has apart u d w
        ∙ ap w (with_node_old os a valid room (fresh_node os a valid room) a.cur has_cur)

    pub other_node : (i : ℕ) → HasNode a i → i ≢ a.cur → node added i ≡ node a i
    other_node i has ne =
        linked_other grown grown-IsValid a.cnt new_has cur_has apart u d w i has.0 ne
          (λ e. absurd (omega (arith, e, has)))
        ∙ with_node_old os a valid room (fresh_node os a valid room) i has

    -- A field that the store to the current node leaves alone.
    pub field_kept :
        (f : ArbNode → ℕ)
        → f (w (node a a.cur)) ≡ f (node a a.cur)
        → (i : ℕ) → HasNode a i
        → f (node added i) ≡ f (node a i)
    field_kept f same i has = elim (Bool-cases (i == a.cur)) [
      | inl here ↦
          let cur : i ≡ a.cur = ground arith in
          ap (λ j. f (node added j)) cur ∙ ap f cur_node ∙ same ∙ ap (λ j. f (node a j)) (sym cur)
      | inr there ↦ ap f (other_node i has (ground arith))
    ]

    pub added-IsValid : IsValid added
    added-IsValid = linked-IsValid grown grown-IsValid a.cnt new_has cur_has apart u d w
