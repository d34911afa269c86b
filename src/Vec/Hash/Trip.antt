-- ===== src/Vec/Hash/Trip.antt =====
-- src/utl_vec.c: what `utl_search_hashed` finds after `utl_vec_add_hashed`.
use Prim.Native.Nat.{Ordering}
use clibutl.Prelude.{
  ℕ, ◌*◌, ◌<◌, ◌≡◌, ◌⊎◌, ◌∙◌, refl, sym, ap, true, false, Option, none, some, u32_mod, inl, inr,
  arith,
}
use clibutl.Prelude.Fault.{Ends, Ends-map}
use clibutl.Vec.Slots.{Allocator}
use clibutl.Vec.Defs.{Vec}
use clibutl.Vec.Hash.{Layout, is_eq, matches, search_hashed, add_hashed}
use clibutl.Vec.Hash.Probe.{slot}
use clibutl.Vec.Hash.Lookup.{FoundAt}
use clibutl.Vec.Hash.Swaps.{In}
use clibutl.Vec.Hash.Keys.{IsKeyed}
use clibutl.Vec.Hash.Table.{IsHashed, hash_value, stamped, stored-stamped, search_hashed_lem}
use clibutl.Vec.Hash.Element.{AddedKey}
use clibutl.Vec.Hash.Add.{AddedOrRefused, add_hashed_lem}

module _ {ℓ} {A : Type ℓ} (bytes : Layout A) (hash : A → ℕ) (cmp : A → A → Ordering) where
  open bytes use {stored}

  -- An element with the hash value of `y` is there that compares equal.
  abbrev pub Findable : (v : Vec A) (y : A) → Type 0
  Findable v y =
      (k : ℕ) × (k < v.max)
      × (matches bytes cmp (hash_value bytes hash cmp y) y (slot bytes v.vec k) ≡ true)

  -- `y` has the key of the element at `*elm`.
  abbrev pub IsAdded : (v : Vec A) (y : A) → Type 0
  IsAdded v y =
      (hash_value bytes hash cmp y ≡ hash_value bytes hash cmp v.elm)
      × (cmp y (stamped bytes hash cmp v.elm) ≡ Ordering.eq)

  equal_there :
      (v : Vec A) (y z : A)
      → In bytes v.max v.vec z
      → stored z ≡ hash_value bytes hash cmp y
      → cmp y z ≡ Ordering.eq
      → Findable v y
  equal_there v y z (q, lt, e) value equal =
      let here : stored (slot bytes v.vec q) ≡ hash_value bytes hash cmp y = ap stored e ∙ value in
      let same : cmp y (slot bytes v.vec q) ≡ Ordering.eq = ap (cmp y) e ∙ equal in
      let eq : is_eq (cmp y (slot bytes v.vec q)) ≡ true = rw same refl in
      (q, lt, ground (arith, here, eq))

  is_eq-eq : (o : Ordering) → is_eq o ≡ true → o ≡ Ordering.eq
  is_eq-eq Ordering.eq e = refl
  is_eq-eq Ordering.lt e = absurd (let f : false ≡ true = e in cc)
  is_eq-eq Ordering.gt e = absurd (let f : false ≡ true = e in cc)

  matches-key :
      (v : Vec A) (y : A) (k : ℕ)
      → matches bytes cmp (hash_value bytes hash cmp y) y (slot bytes v.vec k) ≡ true
      → (stored (slot bytes v.vec k) ≡ hash_value bytes hash cmp y)
        × (cmp y (slot bytes v.vec k) ≡ Ordering.eq)
  matches-key v y k m =
      let equal : is_eq (cmp y (slot bytes v.vec k)) ≡ true = ground arith in
      (ground arith, is_eq-eq (cmp y (slot bytes v.vec k)) equal)

  module _ (keyed : IsKeyed cmp) where
    still-Findable :
        (v w : Vec A) (e : ℕ) (y : A)
        → AddedKey bytes hash cmp v e w
        → IsAdded v y ⊎ Findable v y
        → Findable w y
    still-Findable v w e y a (inl (value, equal)) =
        equal_there w y (stamped bytes hash cmp v.elm) a.added
          (stored-stamped bytes hash cmp v.elm ∙ sym value) equal
    still-Findable v w e y a (inr (k, lt, m)) =
        let z : A = slot bytes v.vec k in
        let (value, equal) = matches-key v y k m in
        let (z', i, value', equal') =
          a.keys z (omega (arith, value)) (z, (k, lt, refl), refl, keyed.eq_refl z) in
        equal_there w y z' i (value' ∙ value)
          (keyed.eq_trans y z z' equal (keyed.eq_sym z' z equal'))

    -- The vector with another element at `*elm`.
    pub with_key :
        (w : Vec A) (y : A)
        → IsHashed bytes hash cmp w
        → IsHashed bytes hash cmp (record w { elm = y })
    with_key w y h = record {
      valid = record {
        slots = h.valid.slots;
        count = h.valid.count;
        positive = h.valid.positive;
        sized = h.valid.sized;
        fits = h.valid.fits;
      };
      compared = h.compared;
      hashed = h.hashed;
      table = h.table;
      count = h.count;
      room = h.room;
      large = h.large;
      real = h.real;
    }

    -- The search ends with the slot of an element equal to `y`.
    abbrev pub FindsIn : Vec A → A → Type 0
    FindsIn w y = Ends (search_hashed bytes (record w { elm = y })) (λ p.
        (k : ℕ) × (p ≡ some k)
        × (k < w.max)
        × (matches bytes cmp (hash_value bytes hash cmp y) y (slot bytes w.vec k) ≡ true))

    Findable-FindsIn : (w : Vec A) (y : A) → IsHashed bytes hash cmp w → Findable w y → FindsIn w y
    Findable-FindsIn w y h (k, lt, m) =
        let h' = with_key w y h in
        Ends-map
          (FoundAt bytes cmp (hash_value bytes hash cmp y) y w.max w.vec h.table (omega arith)) _
          (search_hashed bytes (record w { elm = y })) result
          (search_hashed_lem bytes hash cmp (record w { elm = y }) h')
      where
        result :
            (p : Option ℕ)
            → FoundAt bytes cmp (hash_value bytes hash cmp y) y w.max w.vec h.table (omega arith) p
            → (k : ℕ) × (p ≡ some k)
              × (k < w.max)
              × (matches bytes cmp (hash_value bytes hash cmp y) y (slot bytes w.vec k) ≡ true)
        result none none_there =
            absurd (let no = none_there k lt in let f : true ≡ false = sym m ∙ no in cc)
        result (some j) (inside, equal) = (j, refl, inside, equal)

    -- What a search for `y` then gives, where the element was added.
    abbrev pub FoundAfter : Allocator A → (v : Vec A) (y : A) → Option ℕ × Vec A → Type ℓ
    FoundAfter os v y (none, w) = (w ≡ v) × (os.malloc (v.max * 2 * v.esz) v.esz ≡ none)
    FoundAfter os v y (some e, w) = IsHashed bytes hash cmp w × FindsIn w y

    -- After `utl_vec_add_hashed` of an element to a vector in order, where the sizes fit 32 bits and the
    -- comparison is an equivalence, `utl_search_hashed` finds an element equal to `y`, where `y` has
    -- its key or the one of an element that was there before; unless there was no memory for a larger
    -- table, and the vector is as it was. The vector with the element is in order again.
    pub add_hashed-search_hashed :
        (os : Allocator A) (v : Vec A) (y : A)
        → IsHashed bytes hash cmp v
        → v.max * 2 * v.esz < u32_mod
        → v.cnt * 100 < u32_mod
        → IsAdded v y ⊎ Findable v y
        → Ends (add_hashed bytes os v) (FoundAfter os v y)
    add_hashed-search_hashed os v y h fits exact there =
        Ends-map (AddedOrRefused bytes hash cmp keyed os v) (FoundAfter os v y)
          (add_hashed bytes os v) (λ r a. found_after r.0 r.1 a)
          (add_hashed_lem bytes hash cmp keyed os v h fits exact)
      where
        found_after :
            (r : Option ℕ) (w : Vec A)
            → AddedOrRefused bytes hash cmp keyed os v (r, w)
            → FoundAfter os v y (r, w)
        found_after none w (same, full, refused) = (same, refused)
        found_after (some e) w a =
            (a.hashed, Findable-FindsIn w y a.hashed (still-Findable v w e y a there))
