-- ===== src/Vec/Arb/Walk.antt =====
-- src/utl_vec.c: the loop of `utl_arb_detach`, and a list of nodes without one of them.
use mathlib.Core.Path.{subst}
use clibutl.Prelude.{
  ℕ, zero, suc, ◌<◌, ◌≡◌, ◌≢◌, ◌∙◌, refl, sym, ap, Bool, true, false, ◌||◌, List, [], ◌∷◌, ◌++◌,
  some, length, ◌==◌, Bool-cases, inl, inr, arith,
}
use clibutl.Vec.Growth.{IsValid}
use clibutl.Vec.Arb.{ArbNode, Arb, arb_move, arb_firstchild, arb_nextsibling, detach_walk}
use clibutl.Vec.Arb.Nodes.{node, HasNode, IsChain, update, arb_node_lem, update_self, update_other}

unfoldable pub elem : ℕ → List ℕ → Bool
elem j [] = false
elem j (i ∷ is) = j == i || elem j is

-- The nodes are different from each other.
abbrev pub IsDistinct : List ℕ → Type 0
IsDistinct [] = ◌≡◌ {A = ℕ} 0 0
IsDistinct (i ∷ is) = (elem i is ≡ false) × IsDistinct is

-- The last of a list, or the node before it.
unfoldable pub last_of : ℕ → List ℕ → ℕ
last_of prv [] = prv
last_of prv (i ∷ is) = last_of i is

-- Moving from node `i` to another one.
move_on :
    (dir : ArbNode → ℕ) (a : Arb) (valid : IsValid a) (i j : ℕ)
    → HasNode a i
    → dir (node a i) ≡ j
    → 0 < j
    → arb_move dir (record a { cur = i }) ≡ some (j, record a { cur = j })
unfolding arb_move
move_on dir a valid i j has there pos =
    let current : (i == 0) ≡ false = ground (arith, has) in
    let more : (j == 0) ≡ false = ground (arith, pos) in
    rw (current, arb_node_lem a valid i has, there, more, arb_move) refl

next_move :
    (a : Arb) (valid : IsValid a) (i j : ℕ)
    → HasNode a i
    → (node a i).nxt ≡ j
    → 0 < j
    → arb_nextsibling (record a { cur = i }) ≡ some (j, record a { cur = j })
unfolding arb_nextsibling
next_move a valid i j has there pos = move_on (λ x. x.nxt) a valid i j has there pos

pub first_move :
    (a : Arb) (valid : IsValid a) (i j : ℕ)
    → HasNode a i
    → (node a i).dwn ≡ j
    → 0 < j
    → arb_firstchild (record a { cur = i }) ≡ some (j, record a { cur = j })
unfolding arb_firstchild
first_move a valid i j has there pos = move_on (λ x. x.dwn) a valid i j has there pos

-- A field that a store leaves alone.
pub update_field :
    (f : ArbNode → ℕ) (a : Arb) (valid : IsValid a) (p : ℕ) (x : ArbNode)
    → HasNode a p
    → f x ≡ f (node a p)
    → (i : ℕ) → HasNode a i
    → f (node (update a p x) i) ≡ f (node a i)
update_field f a valid p x has_p same i has = elim (Bool-cases (p == i)) [
  | inl here ↦
      let at : p ≡ i = ground arith in
      ap (λ j. f (node (update a p x) j)) (sym at)
      ∙ ap f (update_self a valid p x has_p)
      ∙ same
      ∙ ap (λ j. f (node a j)) at
  | inr there ↦ ap f (update_other a valid p i x has_p has.0 (ground arith))
]

module _ (a : Arb) (valid : IsValid a) (n : ℕ) where
  -- A list that is not empty begins at a node.
  pub head-HasNode : (ys xs : List ℕ) (h : ℕ) → IsChain a h (xs ++ n ∷ ys) → HasNode a h
  head-HasNode ys [] h (here, has, rest) = subst (λ k. HasNode a k) (sym here) has
  head-HasNode ys (i ∷ is) h (here, has, rest) = subst (λ k. HasNode a k) (sym here) has

  -- The loop stops at `n`, behind the nodes before it.
  pub walk-last_of :
      (ys xs : List ℕ) (fuel prv h : ℕ)
      → IsChain a h (xs ++ n ∷ ys)
      → elem n xs ≡ false
      → length xs < fuel
      → detach_walk fuel (record a { cur = h }) n prv h
        ≡ some (last_of prv xs, n, record a { cur = n })
  unfolding detach_walk last_of elem
  walk-last_of ys xs zero prv h chain out few = absurd (omega arith)
  walk-last_of ys [] (suc fuel) prv h (here, has, rest) out few =
      let stop : (h == 0 || h == n) ≡ true = ground (arith, here) in
      rw (stop, detach_walk) (ap (λ k. some (prv, k, record a { cur = k })) here)
  walk-last_of ys (i ∷ is) (suc fuel) prv h (here, has, rest) out few =
      let m : ℕ = (node a i).nxt in
      let tail_out : elem n is ≡ false = ground arith in
      let on : (h == 0 || h == n) ≡ false = ground (arith, here, has, out) in
      let has_h : HasNode a h = subst (λ k. HasNode a k) (sym here) has in
      rw
        (
          on,
          next_move a valid h m has_h (ap (λ k. (node a k).nxt) here) (head-HasNode ys is m rest).0,
          detach_walk,
        )
        (walk-last_of ys is fuel h m rest tail_out (omega arith)
          ∙ ap (λ k. some (last_of k is, n, record a { cur = n })) here)

  -- Node `q` is linked to what is behind `n`.
  abbrev pub skipped : (q : ℕ) → Arb
  skipped q = update a q (record (node a q) { nxt = (node a n).nxt })

  skipped_other :
      (q : ℕ)
      → HasNode a q
      → (h : ℕ) (ids : List ℕ) → IsChain a h ids
      → elem q ids ≡ false
      → IsChain (skipped q) h ids
  unfolding elem
  skipped_other q has_q h [] chain out = chain
  skipped_other q has_q h (i ∷ is) (here, has, rest) out =
      let ne : q ≢ i = ground arith in
      let tail_out : elem q is ≡ false = ground arith in
      let same : (node (skipped q) i).nxt ≡ (node a i).nxt =
        ap (λ (x : ArbNode). x.nxt) (update_other a valid q i _ has_q has.0 ne) in
      (
        here,
        has,
        subst (λ k. IsChain (skipped q) k is) (sym same)
            (skipped_other q has_q (node a i).nxt is rest tail_out),
      )

  elem-append : (j : ℕ) (ys xs : List ℕ) → elem j (xs ++ n ∷ ys) ≡ false → elem j ys ≡ false
  unfolding elem
  elem-append j ys [] out = ground arith
  elem-append j ys (i ∷ is) out =
      elem-append j ys is (let tail_out : elem j (is ++ n ∷ ys) ≡ false = ground arith in tail_out)

  elem-last_of :
      (i : ℕ) (ys js : List ℕ) (j : ℕ) → elem i (j ∷ js ++ n ∷ ys) ≡ false → i ≢ last_of j js
  unfolding elem last_of
  elem-last_of i ys [] j out e = ground arith
  elem-last_of i ys (k ∷ js) j out e =
      elem-last_of i ys js k
        (let tail_out : elem i (k ∷ js ++ n ∷ ys) ≡ false = ground arith in tail_out) e

  pub has_last :
      (ys js : List ℕ) (j h : ℕ) → IsChain a h (j ∷ js ++ n ∷ ys) → HasNode a (last_of j js)
  unfolding last_of
  has_last ys [] j h (here, has, rest) = has
  has_last ys (k ∷ js) j h (here, has, rest) = has_last ys js k (node a j).nxt rest

  pub skipped-IsChain :
      (ys js : List ℕ) (j h : ℕ)
      → IsChain a h (j ∷ js ++ n ∷ ys)
      → IsDistinct (j ∷ js ++ n ∷ ys)
      → IsChain (skipped (last_of j js)) h (j ∷ js ++ ys)
  unfolding last_of
  skipped-IsChain ys [] j h (here, has, (next, has_n, rest)) (out, distinct) =
      let tail_out : elem j ys ≡ false = elem-append j ys [] out in
      let jump : (node (skipped j) j).nxt ≡ (node a n).nxt =
        ap (λ (x : ArbNode). x.nxt) (update_self a valid j _ has) in
      (
        here,
        has,
        subst (λ k. IsChain (skipped j) k ys) (sym jump)
            (skipped_other j has (node a n).nxt ys rest tail_out),
      )
  skipped-IsChain ys (k ∷ js) j h (here, has, rest) (out, distinct) =
      let q : ℕ = last_of k js in
      let ne : j ≢ q = elem-last_of j ys js k out in
      let same : (node (skipped q) j).nxt ≡ (node a j).nxt =
        ap (λ (x : ArbNode). x.nxt)
          (update_other a valid q j _ (has_last ys js k (node a j).nxt rest) has.0
            (λ e. ne (sym e))) in
      (
        here,
        has,
        subst (λ m. IsChain (skipped q) m (k ∷ js ++ ys)) (sym same)
            (skipped-IsChain ys js k (node a j).nxt rest distinct),
      )

pub elem-middle : (j n : ℕ) (ys js : List ℕ) → elem j (js ++ n ∷ ys) ≡ false → (n == j) ≡ false
unfolding elem
elem-middle j n ys [] out = ground arith
elem-middle j n ys (k ∷ js) out =
    elem-middle j n ys js (let tail_out : elem j (js ++ n ∷ ys) ≡ false = ground arith in tail_out)

pub IsDistinct-elem : (n : ℕ) (ys xs : List ℕ) → IsDistinct (xs ++ n ∷ ys) → elem n xs ≡ false
unfolding elem
IsDistinct-elem n ys [] distinct = refl
IsDistinct-elem n ys (j ∷ js) (out, distinct) =
    rw (elem-middle j n ys js out) (IsDistinct-elem n ys js distinct)
