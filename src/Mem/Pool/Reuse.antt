-- ===== src/Mem/Pool/Reuse.antt =====
-- `utl_mpl_malloc`: a fitting unused block, or a new one.
use clibutl.Prelude.{
  ℕ, ◌+◌, ◌-◌, ◌*◌, ◌≤◌, ◌<◌, ◌≡◌, ◌∙◌, true, false, List, [], ◌∷◌, Option, none, some, ltb, ◌==◌,
  ==_iff, Bool-cases, Option-cases, ◌⊎◌, inl, inr, arith, refl, if◌then◌else◌, ap, mul32,
}
use clibutl.Mem.Pool.{
  Node, Pool, searchfit, unlink, at_least, reuse, obtain, mpl_malloc, getparent, add_unused,
  free_block, mpl_free,
}
use clibutl.Mem.Pool.Nodes.{weigh, Unlinked, at, below, total, IsPool, searchfit_lem, searched}

-- A block for `sz` bytes out of the unused ones `ns`: one of them that is not twice as large, or
-- one that `malloc` has given.
pub record Obtained (malloc : ℕ → Option ℕ) (blk : ℕ) (ns : List Node) (sz : ℕ) (p : Node)
    (rest : List Node) : Type 0 where
  pub fits : sz ≤ p.size
  pub source :
      (Unlinked ns p rest × (p.size < 2 * sz))
      ⊎ ((malloc (blk + sz) ≡ some p.addr) × (p.size ≡ sz) × (rest ≡ ns))

module _ (pointer blk : ℕ) (malloc : ℕ → Option ℕ) where
  reuse-Unlinked :
      (ns : List Node) (sz : ℕ)
      → (reuse ns sz ≡ none)
        ⊎ ((r : Node × List Node) × (reuse ns sz ≡ some r)
            × (Unlinked ns r.0 r.1 × (sz ≤ r.0.size) × (r.0.size < 2 * sz)))
  unfolding reuse
  reuse-Unlinked ns sz = elim (Option-cases (searchfit ns sz)) [
    | inl missing ↦ rw (missing, reuse) (inl refl)
    | inr (k, found) ↦
        let ((p, rest), taken, (u, fits)) =
          searched _ _ ns (searchfit ns sz) k found (searchfit_lem ns sz) in
        elim (Bool-cases (ltb p.size (mul32 sz 2))) [
          | inl small ↦
              rw (found, taken, small, reuse) (inr ((p, rest), refl, (u, fits, ground arith)))
          | inr large ↦ rw (found, taken, large, reuse) (inl refl)
        ]
  ]

  obtain-Obtained :
      (ns : List Node) (sz : ℕ)
      → ((obtain blk malloc ns sz ≡ none) × (malloc (blk + sz) ≡ none))
        ⊎ ((p : Node) × (rest : List Node) × (obtain blk malloc ns sz ≡ some (p, rest))
            × Obtained malloc blk ns sz p rest)
  unfolding obtain
  obtain-Obtained ns sz = elim (reuse-Unlinked ns sz) [
    | inr ((p, rest), e, (u, fits, small)) ↦
        rw (e, obtain) (inr (p, rest, refl, record { fits = fits; source = inl (u, small) }))
    | inl e ↦ elim (Option-cases (malloc (blk + sz))) [
      | inl refused ↦ rw (e, refused, obtain) (inl (refl, refl))
      | inr (a, given) ↦
          rw (e, given, obtain)
            (inr (
              record { addr = a; size = sz },
              ns,
              refl,
              record { fits = omega arith; source = inr (given, refl, refl) },
            ))
    ]
  ]

  -- What a call that has been served with the block of `p` leaves.
  pub record Served (mp : Pool) (sz : ℕ) (p : Node) (mp' : Pool) : Type 0 where
    pub valid : IsPool pointer mp'
    pub first : mp'.used ≡ p ∷ mp.used
    pub block : Obtained malloc blk mp.unused sz p mp'.unused
    pub given_back :
        mpl_free blk (some mp') (some (p.addr + blk)) false
        ≡ (some (record { used = mp.used; unused = add_unused mp'.unused p }), [])

  back :
      (used unused : List Node) (p : Node)
      → mpl_free blk
          (some (record { used = p ∷ used; unused = unused }))
          (some (p.addr + blk))
          false
        ≡ (some (record { used = used; unused = add_unused unused p }), [])
  unfolding mpl_free free_block getparent unlink
  back used unused p =
      let same : (p.addr == (p.addr + blk - blk)) ≡ true = ground arith in
      rw (same, free_block) refl

  added-total :
      (mp : Pool) (sz : ℕ) (p : Node) (rest : List Node) (f : Node → ℕ)
      → Obtained malloc blk mp.unused sz p rest
      → (total f (record { used = p ∷ mp.used; unused = rest }) ≡ total f mp)
        ⊎ ((malloc (blk + sz) ≡ some p.addr)
            × (total f (record { used = p ∷ mp.used; unused = rest }) ≡ f p + total f mp))
  unfolding weigh
  added-total mp sz p rest f got = elim (got.source) [
    | inl (u, small) ↦ inl (omega (arith, u.weight f))
    | inr (given, exact, same) ↦ inr (given, rw same (omega arith))
  ]

  new_distinct :
      (new a old : ℕ) → old ≤ 1 → (new ≡ a → old ≡ 0) → (if new == a then 1 else 0) + old ≤ 1
  new_distinct new a old le fresh = elim (Bool-cases (new == a)) [
    | inl same ↦ rw same (omega (arith, fresh ((==_iff new a).0 same)))
    | inr other ↦ rw other (omega arith)
  ]

  served :
      (mp : Pool) (sz : ℕ) (p : Node) (rest : List Node)
      → IsPool pointer mp
      → ((n a : ℕ) → malloc n ≡ some a → total (at a) mp ≡ 0)
      → pointer ≤ sz
      → Obtained malloc blk mp.unused sz p rest
      → Served mp sz p (record { used = p ∷ mp.used; unused = rest })
  served mp sz p rest pool fresh le got = record {
    valid = record {
      sorted = elim (got.source) [
        | inl (u, small) ↦ u.order 0 pool.sorted
        | inr (given, exact, same) ↦ rw same (pool.sorted)
      ];
      distinct = λ a. elim (added-total mp sz p rest (at a) got) [
        | inl same ↦ omega (arith, same, pool.distinct a)
        | inr (given, more) ↦ omega (
          arith,
          more,
          new_distinct p.addr a (total (at a) mp) (pool.distinct a)
              (λ same. fresh (blk + sz) a (given ∙ ap some same)),
        )
      ];
      large = elim (added-total mp sz p rest (below pointer) got) [
        | inl same ↦ omega (arith, same, pool.large)
        | inr (given, more) ↦ ground (arith, more, pool.large, got.fits)
      ];
    };
    first = refl;
    block = got;
    given_back = back mp.used rest p;
  }

  -- `utl_mpl_malloc` returns NULL only where no unused block was taken and `malloc` failed, and the
  -- pool is then as it was. Otherwise it returns a block of at least the size asked for, now the
  -- first of the used ones: an unused block that is not twice as large, which is unused no more, or
  -- one that `malloc` gave. The invariant holds, and freeing the block takes it back among the unused.
  -- It is supposed that `malloc` gives no address that the pool holds.
  pub mplmalloc_lem :
      (mp : Pool) (sz : ℕ)
      → IsPool pointer mp
      → ((n a : ℕ) → malloc n ≡ some a → total (at a) mp ≡ 0)
      → ((mpl_malloc pointer blk malloc (some mp) sz ≡ (none, some mp))
          × (malloc (blk + at_least pointer sz) ≡ none))
        ⊎ ((p : Node) × (mp' : Pool) × (mpl_malloc pointer blk malloc (some mp) sz
              ≡ (some (p.addr + blk), some mp'))
            × Served mp (at_least pointer sz) p mp'
            × (sz ≤ p.size))
  unfolding mpl_malloc
  mplmalloc_lem mp sz pool fresh = elim (obtain-Obtained mp.unused (at_least pointer sz)) [
    | inl (nothing, refused) ↦ inl (rw (nothing, mpl_malloc) refl, refused)
    | inr (p, rest, e, got) ↦ inr (
      p,
      record { used = p ∷ mp.used; unused = rest },
      rw (e, mpl_malloc) refl,
      served mp (at_least pointer sz) p rest pool fresh (ground arith) got,
      ground (arith, got.fits),
    )
  ]
