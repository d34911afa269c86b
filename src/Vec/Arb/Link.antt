-- ===== src/Vec/Arb/Link.antt =====
-- src/utl_vec.c: the stores by which a new node is linked, of `utl_arb_addnode` and `utl_arb_addsibling`.
use clibutl.Prelude.{ℕ, ◌+◌, ◌<◌, ◌≡◌, ◌≢◌, ◌∙◌, sym, ap}
use clibutl.Vec.Growth.{IsValid}
use clibutl.Vec.Arb.{ArbNode, Arb}
use clibutl.Vec.Arb.Nodes.{node, HasNode, update, update-IsValid, update_self, update_other}

module _ (a : Arb) (valid : IsValid a) (k : ℕ) (has : HasNode a (k + 1)) (has_cur : HasNode a a.cur)
    (ne : a.cur ≢ k + 1) (u : ℕ) (d : ArbNode → ℕ) (w : ArbNode → ArbNode) where
  -- The three stores to the new node `k + 1` and the current one: the parent `u` and the next node `d`
  -- of the new one, and what `w` does to the current one.
  abbrev pub placed : Arb
  placed = update a (k + 1) (record (node a (k + 1)) { upn = u })

  abbrev pub chained : Arb
  chained = update placed (k + 1) (record (node placed (k + 1)) { nxt = d (node placed a.cur) })

  abbrev pub linked : Arb
  linked = record (update chained a.cur (w (node chained a.cur))) { cur = k + 1 }

  pub placed-IsValid : IsValid placed
  placed-IsValid = update-IsValid a valid (k + 1) _

  pub chained-IsValid : IsValid chained
  chained-IsValid = update-IsValid placed placed-IsValid (k + 1) _

  chained_cur : node chained a.cur ≡ node a a.cur
  chained_cur =
      update_other placed placed-IsValid (k + 1) a.cur _ has has_cur.0 (λ e. ne (sym e))
      ∙ update_other a valid (k + 1) a.cur _ has has_cur.0 (λ e. ne (sym e))

  pub linked_cur : node linked a.cur ≡ w (node a a.cur)
  linked_cur = update_self chained chained-IsValid a.cur _ has_cur ∙ ap w chained_cur

  pub linked_new : node linked (k + 1) ≡ record (node a (k + 1)) { upn = u; nxt = d (node a a.cur) }
  linked_new =
      update_other chained chained-IsValid a.cur (k + 1) _ has_cur has.0 ne
      ∙ update_self placed placed-IsValid (k + 1) _ has
      ∙ ap (λ (x : ArbNode). record x { nxt = d (node placed a.cur) })
          (update_self a valid (k + 1) _ has)
      ∙ ap (λ (x : ArbNode). record (node a (k + 1)) { upn = u; nxt = d x })
          (update_other a valid (k + 1) a.cur _ has has_cur.0 (λ e. ne (sym e)))

  pub linked_other : (i : ℕ) → 0 < i → i ≢ a.cur → i ≢ k + 1 → node linked i ≡ node a i
  linked_other i pos other old =
      update_other chained chained-IsValid a.cur i _ has_cur pos (λ e. other (sym e))
      ∙ update_other placed placed-IsValid (k + 1) i _ has pos (λ e. old (sym e))
      ∙ update_other a valid (k + 1) i _ has pos (λ e. old (sym e))

  pub linked-IsValid : IsValid linked
  linked-IsValid =
      let v = update-IsValid chained chained-IsValid a.cur (w (node chained a.cur)) in
      record {
        slots = v.slots;
        count = v.count;
        positive = v.positive;
        sized = v.sized;
        fits = v.fits;
      }
