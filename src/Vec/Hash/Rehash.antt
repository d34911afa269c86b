-- ===== src/Vec/Hash/Rehash.antt =====
-- src/utl_vec.c: `utl_reash` moves the elements of a hash table into one of twice the size.
use Prim.Native.Nat.{Ordering}
use native.Mathlib.Nat.{le_refl, mul-le-mul, mul-div_cancel}
use clibutl.Prelude.{
  ℕ, zero, suc, ◌+◌, ◌*◌, ◌≤◌, ◌<◌, ◌≡◌, ◌≢◌, ◌⊎◌, ◌∙◌, refl, sym, ap, false, List, [], ◌∷◌, Option,
  none, some, get_or, length, replicate, length-replicate, ltb, ◌==◌, u32_max, u32_mod, mul32,
  mul32_exact, Bool-cases, Option-cases, inl, inr, arith,
}
use clibutl.Prelude.Fault.{◌>>=◌, Ends, Ends-map, Ends-bind}
use clibutl.Vec.Slots.{Allocator}
use clibutl.Vec.Defs.{Vec}
use clibutl.Vec.Growth.{IsValid}
use clibutl.Vec.Hash.{Layout, hash_mod, hsh_set, set_all, reash}
use clibutl.Vec.Hash.Count.{weight, used, used-HasFree, used-replicate}
use clibutl.Vec.Hash.Probe.{IsTable}
use clibutl.Vec.Hash.Swaps.{In}
use clibutl.Vec.Hash.Keys.{IsKeyed, HasKey, KeySet, hsh_set-KeySet}

module _ {ℓ} {A : Type ℓ} (bytes : Layout A) (cmp : A → A → Ordering) where
  open bytes use {stored, free}

  module _ (keyed : IsKeyed cmp) (max : ℕ) where
    -- What setting all elements of `old` does to a table.
    pub record AllSet (old tab tab' : List A) : Type ℓ where
      pub table : IsTable bytes max tab'
      pub count : used bytes tab' ≤ used bytes tab + used bytes old
      pub from : (y : A) → In bytes max tab' y → In bytes max tab y ⊎ In bytes (length old) old y
      pub keys :
          (y : A) → stored y < hash_mod → HasKey bytes cmp max tab y → HasKey bytes cmp max tab' y
      pub all :
          (y : A) → stored y < hash_mod → In bytes (length old) old y → HasKey bytes cmp max tab' y

    in_tail :
        (x : A) (old : List A) (y : A)
        → In bytes (length old) old y
        → In bytes (suc (length old)) (x ∷ old) y
    in_tail x old y (q, lt, e) = (suc q, omega arith, e)

    after_set :
        (x : A) (old tab mid tab' : List A)
        → stored x < hash_mod
        → KeySet bytes cmp max x tab mid
        → AllSet old mid tab'
        → AllSet (x ∷ old) tab tab'
    unfolding used
    after_set x old tab mid tab' real one rest = record {
      table = rest.table;
      count =
          let other : (stored x == u32_max) ≡ false = ground arith in
          let here : weight bytes x ≡ 1 = rw other refl in
          omega (arith, one.count, rest.count, here);
      from = λ y i. elim (rest.from y i) [
        | inl before ↦ elim (one.from y before) [
          | inl new ↦ inr (0, omega arith, sym new)
          | inr kept ↦ inl kept
        ]
        | inr later ↦ inr (in_tail x old y later)
      ];
      keys = λ y h k. rest.keys y h (one.keys y h k);
      all = λ y h i. each y h i;
    }
      where
        each :
            (y : A)
            → stored y < hash_mod
            → In bytes (suc (length old)) (x ∷ old) y
            → HasKey bytes cmp max tab' y
        each y h (zero, lt, e) =
            rest.keys y h (x, one.added, ap stored e, ap (cmp x) (sym e) ∙ keyed.eq_refl x)
        each y h (suc q, lt, e) = rest.all y h (q, omega arith, e)

    after_skip :
        (x : A) (old tab tab' : List A)
        → ltb (stored x) hash_mod ≡ false
        → AllSet old tab tab'
        → AllSet (x ∷ old) tab tab'
    unfolding used
    after_skip x old tab tab' big rest = record {
      table = rest.table;
      count = omega (arith, rest.count);
      from = λ y i. elim (rest.from y i) [
        | inl before ↦ inl before
        | inr later ↦ inr (in_tail x old y later)
      ];
      keys = rest.keys;
      all = λ y h i. each y h i;
    }
      where
        each :
            (y : A)
            → stored y < hash_mod
            → In bytes (suc (length old)) (x ∷ old) y
            → HasKey bytes cmp max tab' y
        each y h (zero, lt, e) =
            let same : stored x ≡ stored y = ap stored e in absurd (ground (arith, big, same, h))
        each y h (suc q, lt, e) = rest.all y h (q, omega arith, e)

    hsh_set-skip :
        (x : A) (tab : List A)
        → ltb (stored x) hash_mod ≡ false
        → hsh_set bytes cmp x max tab ≡ some (none, tab)
    unfolding hsh_set
    hsh_set-skip x tab big = rw big refl

    set_all-step :
        (x : A) (old tab : List A)
        → set_all bytes cmp (x ∷ old) max tab
          ≡ (hsh_set bytes cmp x max tab >>= λ r. set_all bytes cmp old max r.1)
    unfolding set_all
    set_all-step x old tab = elim (Option-cases (hsh_set bytes cmp x max tab)) [
      | inl failed ↦ rw (failed, set_all) refl
      | inr (r, e) ↦ rw (e, set_all) refl
    ]

    pub set_all-AllSet :
        (old tab : List A)
        → IsTable bytes max tab
        → used bytes tab + length old ≤ max
        → Ends (set_all bytes cmp old max tab) (AllSet old tab)
    unfolding set_all
    set_all-AllSet [] tab table room = record {
      table = table;
      count = omega arith;
      from = λ y i. inl i;
      keys = λ y h k. k;
      all = λ y h i. absurd (omega (arith, i.1));
    }
    set_all-AllSet (x ∷ old) tab table room = elim (Bool-cases (ltb (stored x) hash_mod)) [
      | inl real ↦
          let small : stored x < hash_mod = ground arith in
          let (p, lt, unused) = used-HasFree bytes tab (omega (arith, table.sized)) in
          rw (set_all-step x old tab) (
            Ends-bind (λ (r : Option ℕ × List A). KeySet bytes cmp max x tab r.1)
              (AllSet (x ∷ old) tab) (hsh_set bytes cmp x max tab)
              (λ r. set_all bytes cmp old max r.1)
              (hsh_set-KeySet bytes cmp max keyed x small tab table
                (p, omega (arith, table.sized), unused))
              (λ r one.
                Ends-map (AllSet old r.1) (AllSet (x ∷ old) tab) (set_all bytes cmp old max r.1)
                  (λ tab' rest. after_set x old tab r.1 tab' small one rest)
                  (set_all-AllSet old r.1 one.table (omega (arith, one.count)))))
      | inr big ↦
          rw (set_all-step x old tab, hsh_set-skip x tab big)
            (Ends-map (AllSet old tab) (AllSet (x ∷ old) tab) (set_all bytes cmp old max tab)
              (λ tab' rest. after_skip x old tab tab' big rest)
              (set_all-AllSet old tab table (omega arith)))
    ]

    pub get_or-replicate : (n q : ℕ) → get_or (replicate n free) q free ≡ free
    get_or-replicate zero q = refl
    get_or-replicate (suc n) zero = refl
    get_or-replicate (suc n) (suc q) = get_or-replicate n q

    -- A table of free slots.
    pub fresh-IsTable : 1 < max → max < u32_max → IsTable bytes max (replicate max free)
    fresh-IsTable several small = record {
      sized = length-replicate max free;
      several = several;
      small = small;
      probed = λ p lt used. absurd (used (ap stored (get_or-replicate max p) ∙ bytes.stored-free));
    }

    -- The elements of `old` in a new table.
    pub record Moved (old tab : List A) : Type ℓ where
      pub table : IsTable bytes max tab
      pub count : used bytes tab ≤ used bytes old
      pub from : (y : A) → In bytes max tab y → stored y ≢ u32_max → In bytes (length old) old y
      pub all :
          (y : A) → stored y < hash_mod → In bytes (length old) old y → HasKey bytes cmp max tab y

    AllSet-Moved : (old tab : List A) → AllSet old (replicate max free) tab → Moved old tab
    AllSet-Moved old tab s = record {
      table = s.table;
      count = omega (arith, s.count, used-replicate bytes max free bytes.stored-free);
      from = λ y i used. elim (s.from y i) [
        | inl (q, lt, e) ↦
            absurd (used (ap stored (sym e ∙ get_or-replicate max q) ∙ bytes.stored-free))
        | inr there ↦ there
      ];
      all = s.all;
    }

    pub set_all-Moved :
        (old : List A)
        → 1 < max
        → max < u32_max
        → length old ≤ max
        → Ends (set_all bytes cmp old max (replicate max free)) (Moved old)
    set_all-Moved old several small room =
        Ends-map (AllSet old (replicate max free)) (Moved old)
          (set_all bytes cmp old max (replicate max free)) (AllSet-Moved old)
          (set_all-AllSet old (replicate max free) (fresh-IsTable several small)
            (omega (arith, used-replicate bytes max free bytes.stored-free)))

  -- The result of `utl_reash`: NULL, where there is no memory, or the elements in a table twice as large.
  abbrev pub Larger : IsKeyed cmp → Allocator A → Vec A → Option (List A) → Type ℓ
  Larger keyed os v none = os.malloc (v.max * 2 * v.esz) v.esz ≡ none
  Larger keyed os v (some tab) = Moved keyed (v.max * 2) v.vec tab

  -- `utl_reash` of a vector whose table has at least 2 slots, where the new size in bytes fits 32 bits.
  pub reash-Larger :
      (keyed : IsKeyed cmp) (os : Allocator A) (v : Vec A)
      → IsValid v
      → 1 < v.max
      → v.max * 2 * v.esz < u32_mod
      → Ends (reash bytes os cmp v) (Larger keyed os v)
  unfolding reash
  reash-Larger keyed os v valid several fits =
      let whole : mul32 v.max 2 ≡ v.max * 2 =
        mul32_exact v.max 2 (omega (arith, mul-le-mul (le_refl (v.max * 2)) valid.sized)) in
      let size : mul32 (v.max * 2) v.esz ≡ v.max * 2 * v.esz = mul32_exact (v.max * 2) v.esz fits in
      elim (Option-cases (os.malloc (v.max * 2 * v.esz) v.esz)) [
        | inl refused ↦ rw (whole, size, refused, reash, Ends) refused
        | inr (block, given) ↦
            let slots : length block ≡ v.max * 2 =
              os.length-malloc _ _ block given ∙ mul-div_cancel (v.max * 2) valid.sized in
            rw (whole, size, given, slots, reash, whole)
              (Ends-bind (Moved keyed (v.max * 2) v.vec) (Larger keyed os v)
                (set_all bytes cmp v.vec (v.max * 2) (replicate (v.max * 2) free)) _
                (set_all-Moved keyed (v.max * 2) v.vec (omega arith)
                  (omega (arith, mul-le-mul (le_refl (v.max * 2)) valid.sized))
                  (omega (arith, valid.slots)))
                (λ tab moved. moved))
      ]
