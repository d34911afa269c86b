-- ===== src/Mem/Pool/Nodes.antt =====
-- The two lists of a pool as a bag of blocks, and the order of the unused ones.
use mathlib.Core.Path.{subst}
use clibutl.Prelude.{
  ℕ, zero, suc, ◌+◌, ◌≤◌, ◌≡◌, Bool, true, List, [], ◌∷◌, Option, none, some, leb, ltb, ◌==◌, ◌&&◌,
  Bool-cases, inl, inr, arith, refl, if◌then◌else◌,
}
use clibutl.Prelude.Fault.{Ends, Ends-some, Ends-bind}
use clibutl.Mem.Pool.{
  Node, Pool, one_more, searchfit, searchpos, link, unlink, getparent, add_unused,
}

-- What the nodes of a list weigh together. Two lists have the same nodes, each as often, where they
-- weigh the same for every way of weighing.
unfoldable pub weigh : (Node → ℕ) → List Node → ℕ
weigh f [] = 0
weigh f (n ∷ ns) = f n + weigh f ns

-- The sizes ascend, from `low` on.
unfoldable pub ascends : (low : ℕ) → List Node → Bool
ascends low [] = true
ascends low (n ∷ ns) = leb low n.size && ascends n.size ns

pub weigh-link :
    (f : Node → ℕ) (ns : List Node) (k : ℕ) (p : Node) → weigh f (link ns k p) ≡ f p + weigh f ns
unfolding weigh link
weigh-link f ns zero p = refl
weigh-link f [] (suc k) p = refl
weigh-link f (n ∷ ns) (suc k) p = omega (arith, weigh-link f ns k p)

pub ascends-add_unused :
    (low : ℕ) (ns : List Node) (p : Node)
    → ascends low ns ≡ true
    → low ≤ p.size
    → ascends low (add_unused ns p) ≡ true
unfolding ascends link searchpos
ascends-add_unused low [] p h le = ground arith
ascends-add_unused low (n ∷ ns) p h le = ground (arith, ascends-add_unused n.size ns p)

ascends-lower :
    (low low' : ℕ) (ns : List Node) → low ≤ low' → ascends low' ns ≡ true → ascends low ns ≡ true
unfolding ascends
ascends-lower low low' [] le h = refl
ascends-lower low low' (n ∷ ns) le h = ground arith

-- What taking a node out of a list leaves.
pub record Unlinked (ns : List Node) (n : Node) (rest : List Node) : Type 0 where
  pub weight : (f : Node → ℕ) → weigh f ns ≡ f n + weigh f rest
  pub order : (low : ℕ) → ascends low ns ≡ true → ascends low rest ≡ true

-- A search among `ns` for a node with the property `Q`: the nodes that would do weigh `f`.
abbrev pub Search : (Node → Type 0) → (Node → ℕ) → List Node → Option ℕ → Type 0
Search Q f ns none = weigh f ns ≡ 0
Search Q f ns (some k) = Ends (unlink ns k) (λ r. Unlinked ns r.0 r.1 × Q r.0)

zero-Search :
    (Q : Node → Type 0) (f : Node → ℕ) (n : Node) (ns : List Node)
    → Q n
    → Search Q f (n ∷ ns) (some 0)
unfolding unlink weigh ascends
zero-Search Q f n ns q = (
  record {
    weight = λ f. refl;
    order = λ low h. ascends-lower low n.size ns (ground arith) (ground arith);
  },
  q,
)

cons-Unlinked :
    (m : Node) (ns : List Node) (n : Node) (rest : List Node)
    → Unlinked ns n rest
    → Unlinked (m ∷ ns) n (m ∷ rest)
unfolding weigh ascends
cons-Unlinked m ns n rest u = record {
  weight = λ f. omega (arith, u.weight f);
  order = λ low h. ground (arith, u.order m.size);
}

one_more-Search :
    (Q : Node → Type 0) (f : Node → ℕ) (n : Node) (ns : List Node) (o : Option ℕ)
    → f n ≡ 0
    → Search Q f ns o
    → Search Q f (n ∷ ns) (one_more o)
unfolding unlink weigh
one_more-Search Q f n ns none z h = omega (arith, z, h)
one_more-Search Q f n ns (some k) z h =
    Ends-bind (λ r. Unlinked ns r.0 r.1 × Q r.0) (λ r. Unlinked (n ∷ ns) r.0 r.1 × Q r.0)
      (unlink ns k) _ h step
  where
    step :
        (r : Node × List Node)
        → (Unlinked ns r.0 r.1 × Q r.0)
        → Ends {A = Node × List Node} (some (r.0, n ∷ r.1)) (λ r. Unlinked (n ∷ ns) r.0 r.1 × Q r.0)
    step (p, rest) (u, q) = (cons-Unlinked n ns p rest u, q)

-- How often the address `a` is in a list.
abbrev pub at : ℕ → Node → ℕ
at a n = if n.addr == a then 1 else 0

-- 1 for a block of fewer than `low` bytes.
abbrev pub below : ℕ → Node → ℕ
below low n = if ltb n.size low then 1 else 0

abbrev pub total : (Node → ℕ) → Pool → ℕ
total f mp = weigh f mp.used + weigh f mp.unused

-- The unused blocks are sorted by size, no block is in the pool twice, and each holds a pointer.
pub record IsPool (pointer : ℕ) (mp : Pool) : Type 0 where
  pub sorted : ascends 0 mp.unused ≡ true
  pub distinct : (a : ℕ) → total (at a) mp ≤ 1
  pub large : total (below pointer) mp ≡ 0

pub getparent_lem : (ns : List Node) (p : ℕ) → Search (λ n. n.addr ≡ p) (at p) ns (getparent ns p)
unfolding getparent weigh
getparent_lem [] p = refl
getparent_lem (n ∷ ns) p = elim (Bool-cases (n.addr == p)) [
  | inl same ↦ rw (same, Search) (zero-Search _ (at p) n ns (ground arith))
  | inr other ↦
      rw (other, Search)
        (one_more-Search _ (at p) n ns (getparent ns p) (rw other) (getparent_lem ns p))
]

-- 1 for a block of `sz` bytes or more.
abbrev pub holds : ℕ → Node → ℕ
holds sz n = if leb sz n.size then 1 else 0

pub searchfit_lem :
    (ns : List Node) (sz : ℕ) → Search (λ n. sz ≤ n.size) (holds sz) ns (searchfit ns sz)
unfolding searchfit weigh
searchfit_lem [] sz = refl
searchfit_lem (n ∷ ns) sz = elim (Bool-cases (ltb n.size sz)) [
  | inl small ↦
      rw (small, Search)
        (one_more-Search _ (holds sz) n ns (searchfit ns sz) (ground arith) (searchfit_lem ns sz))
  | inr fits ↦ rw (fits, Search) (zero-Search _ (holds sz) n ns (ground arith))
]

pub searched :
    (Q : Node → Type 0) (f : Node → ℕ) (ns : List Node) (o : Option ℕ) (k : ℕ)
    → o ≡ some k
    → Search Q f ns o
    → (r : Node × List Node) × (unlink ns k ≡ some r) × (Unlinked ns r.0 r.1 × Q r.0)
searched Q f ns o k found h = Ends-some (unlink ns k) _ (subst (Search Q f ns) found h)

pub not_searched :
    (Q : Node → Type 0) (f : Node → ℕ) (ns : List Node) (o : Option ℕ)
    → o ≡ none
    → Search Q f ns o
    → weigh f ns ≡ 0
not_searched Q f ns o missing h = subst (Search Q f ns) missing h
