-- ===== src/Mem/Pool/Free.antt =====
-- `utl_mpl_free`: blocks go from the used list to the unused one, and none is lost.
use clibutl.Prelude.{
  ℕ, ◌+◌, ◌-◌, ◌≡◌, true, false, List, [], ◌∷◌, none, some, Option-cases, inl, inr, arith, refl,
}
use clibutl.Mem.Pool.{Node, Pool, getparent, searchpos, add_unused, release, free_block, mpl_free}
use clibutl.Mem.Pool.Nodes.{
  weigh, ascends, weigh-link, ascends-add_unused, Unlinked, at, below, total, IsPool, getparent_lem,
  not_searched, searched,
}

module _ (pointer blk : ℕ) where
  -- What the release of the node `p` leaves: its block is not in use, every block is still in the
  -- pool, and nothing changes where it was not in use.
  pub record Freed (mp : Pool) (p : ℕ) (mp' : Pool) : Type 0 where
    pub valid : IsPool pointer mp'
    pub kept : (f : Node → ℕ) → total f mp' ≡ total f mp
    pub free : weigh (at p) mp'.used ≡ 0
    pub unknown : weigh (at p) mp.used ≡ 0 → mp' ≡ mp

  add-sub : (b p : ℕ) → p + b - b ≡ p
  add-sub b p = omega arith

  moved-Freed :
      (mp : Pool) (p : ℕ) (n : Node) (rest : List Node)
      → IsPool pointer mp
      → Unlinked mp.used n rest
      → n.addr ≡ p
      → Freed mp p (record { used = rest; unused = add_unused mp.unused n })
  moved-Freed mp p n rest pool u same = record {
    valid = record {
      sorted = ascends-add_unused 0 mp.unused n pool.sorted (omega arith);
      distinct = λ a. omega (arith, kept (at a), pool.distinct a);
      large = omega (arith, kept (below pointer), pool.large);
    };
    kept = kept;
    free = omega (arith, here, u.weight (at p), pool.distinct p);
    unknown = λ none_used. absurd (omega (arith, here, u.weight (at p), none_used));
  }
    where
      kept : (f : Node → ℕ) → weigh f rest + weigh f (add_unused mp.unused n) ≡ total f mp
      kept f = omega (arith, u.weight f, weigh-link f mp.unused (searchpos mp.unused n.size) n)

      here : at p n ≡ 1
      here = ground arith

  free_block-Freed : (mp : Pool) (p : ℕ) → IsPool pointer mp → Freed mp p (free_block mp p)
  unfolding free_block
  free_block-Freed mp p pool = elim (Option-cases (getparent mp.used p)) [
    | inl missing ↦
        rw (missing, free_block)
          (record {
            valid = pool;
            kept = λ f. refl;
            free =
                not_searched _ (at p) mp.used (getparent mp.used p) missing
                  (getparent_lem mp.used p);
            unknown = λ h. refl;
          })
    | inr (k, found) ↦
        let ((n, rest), taken, (u, same)) =
          searched _ (at p) mp.used (getparent mp.used p) k found (getparent_lem mp.used p) in
        rw (found, taken, free_block) (moved-Freed mp p n rest pool u same)
  ]

  -- Freeing a block with the address of its contents, `blk` bytes behind its node: it is in use no
  -- longer, every block stays in the pool, and the invariant holds. A block that the pool has not
  -- given out, or has already taken back, is ignored.
  pub mplfree_lem :
      (mp : Pool) (p : ℕ)
      → IsPool pointer mp
      → (mp' : Pool) × (mpl_free blk (some mp) (some (p + blk)) false ≡ (some mp', []))
        × Freed mp p mp'
  unfolding mpl_free
  mplfree_lem mp p pool =
      (free_block mp (p + blk - blk), refl, rw (add-sub blk p) (free_block-Freed mp p pool))

  -- The release of every used block.
  release_lem :
      (used unused : List Node)
      → ascends 0 unused ≡ true
      → (ascends 0 (release used unused) ≡ true)
        × ((f : Node → ℕ) → weigh f (release used unused) ≡ weigh f used + weigh f unused)
  unfolding release weigh
  release_lem [] unused h = (h, λ f. omega arith)
  release_lem (p ∷ used) unused h =
      let (order, weight) =
        release_lem used (add_unused unused p) (ascends-add_unused 0 unused p h (omega arith)) in
      (order, λ f. omega (arith, weight f, weigh-link f unused (searchpos unused p.size) p))

  -- `mplclean` ends with no block in use, and every block of before, each as often, is unused. The
  -- unused blocks are still sorted, and the invariant holds.
  pub mplclean_lem :
      (mp : Pool)
      → IsPool pointer mp
      → (mp' : Pool) × (mpl_free blk (some mp) none true ≡ (some mp', []))
        × IsPool pointer mp'
        × (mp'.used ≡ [])
        × ((f : Node → ℕ) → weigh f mp'.unused ≡ total f mp)
  unfolding mpl_free weigh
  mplclean_lem mp pool =
      let (order, weight) = release_lem mp.used mp.unused pool.sorted in
      (
        record { used = []; unused = release mp.used mp.unused },
        refl,
        record {
          sorted = order;
          distinct = λ a. omega (arith, weight (at a), pool.distinct a);
          large = omega (arith, weight (below pointer), pool.large);
        },
        refl,
        weight,
      )
