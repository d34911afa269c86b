-- ===== src/Vec/Hash/Add.antt =====
-- src/utl_vec.c: `utl_vec_add_hashed` adds an element to a hash table.
use Prim.Native.Nat.{Ordering}
use mathlib.Core.Path.{subst}
use native.Mathlib.Nat.{le_refl, mul-le-mul}
use clibutl.Prelude.{
  ℕ, ◌*◌, ◌/◌, ◌≤◌, ◌<◌, ◌≡◌, ◌≢◌, ◌∙◌, refl, ap, true, false, List, Option, none, some, leb,
  u32_max, u32_mod, mul32, mul32_exact, Bool-cases, inl, inr, arith,
}
use clibutl.Prelude.Fault.{◌>>=◌, Ends, Ends-map, Ends-bind}
use clibutl.Vec.Slots.{Allocator}
use clibutl.Vec.Defs.{Vec}
use clibutl.Vec.Hash.{Layout, hash_mod, reash, add_element, is_loaded, add_with, add_hashed}
use clibutl.Vec.Hash.Swaps.{In}
use clibutl.Vec.Hash.Keys.{IsKeyed, HasKey}
use clibutl.Vec.Hash.Rehash.{Moved, Larger, reash-Larger}
use clibutl.Vec.Hash.Table.{IsHashed}
use clibutl.Vec.Hash.Element.{AddedKey, AddedElement, add_element-AddedElement}

module _ {ℓ} {A : Type ℓ} (bytes : Layout A) (hash : A → ℕ) (cmp : A → A → Ordering) where
  open bytes use {stored, with_hash, free, stored-with_hash}

  module _ (keyed : IsKeyed cmp) where
    module _ (v : Vec A) (h : IsHashed bytes hash cmp v) (fits : v.max * 2 * v.esz < u32_mod) where
      abbrev enlarged : List A → Vec A
      enlarged tab = record v { vec = tab; max = v.max * 2 }

      enlarged-IsHashed :
          (tab : List A)
          → Moved bytes cmp keyed (v.max * 2) v.vec tab
          → IsHashed bytes hash cmp (enlarged tab)
      enlarged-IsHashed tab moved = record {
        valid = record {
          slots = moved.table.sized;
          count = omega (arith, h.room);
          positive = omega (arith, h.large);
          sized = h.valid.sized;
          fits = fits;
        };
        compared = h.compared;
        hashed = h.hashed;
        table = moved.table;
        count = omega (arith, moved.count, h.count);
        room = omega (arith, h.room);
        large = omega (arith, h.large);
        real = λ y i u. h.real y (in_old tab moved y i u) u;
      }
        where
          in_old :
              (tab : List A)
              → Moved bytes cmp keyed (v.max * 2) v.vec tab
              → (y : A) → In bytes (v.max * 2) tab y
              → stored y ≢ u32_max
              → In bytes v.max v.vec y
          in_old tab moved y i u =
              let (q, lt, e) = moved.from y i u in (q, omega (arith, h.table.sized), e)

      Moved-AddedElement :
          (tab : List A)
          → Moved bytes cmp keyed (v.max * 2) v.vec tab
          → (r : Option ℕ × Vec A) → AddedElement bytes hash cmp (enlarged tab) r
          → AddedElement bytes hash cmp v r
      Moved-AddedElement tab moved (r, w) (e, same, a) = (
        e,
        same,
        record {
          hashed = a.hashed;
          inside = a.inside;
          near = a.near;
          counted = a.counted;
          added = a.added;
          from = λ y i u. elim (a.from y i u) [
            | inl new ↦ inl new
            | inr old ↦
                (let (q, lt, there) = moved.from y old u in
                  inr (q, omega (arith, h.table.sized), there))
          ];
          keys = λ y small k. a.keys y small (moved_key y small k);
        },
      )
        where
          moved_key :
              (y : A)
              → stored y < hash_mod
              → HasKey bytes cmp v.max v.vec y
              → HasKey bytes cmp (v.max * 2) tab y
          moved_key y small (z, (q, lt, there), value, equal) =
              let (z', i, value', equal') =
                moved.all z (omega (arith, value)) (q, omega (arith, h.table.sized), there) in
              (z', i, value' ∙ value, keyed.eq_trans z' z y equal' equal)

    -- What `utl_vec_add_hashed` does: with no memory for a larger table, which it asks for at a load of
    -- 80%, it returns NULL and leaves the vector as it was; else the element is added.
    abbrev pub AddedOrRefused : Allocator A → Vec A → Option ℕ × Vec A → Type ℓ
    AddedOrRefused os v (none, w) =
        (w ≡ v) × (v.max * 80 ≤ v.cnt * 100) × (os.malloc (v.max * 2 * v.esz) v.esz ≡ none)
    AddedOrRefused os v (some e, w) = AddedKey bytes hash cmp v e w

    AddedElement-AddedOrRefused :
        (os : Allocator A) (v : Vec A) (r : Option ℕ × Vec A)
        → AddedElement bytes hash cmp v r
        → AddedOrRefused os v r
    AddedElement-AddedOrRefused os v (none, w) (e, same, a) =
        absurd (let none_some : none ≡ some e = same in cc)
    AddedElement-AddedOrRefused os v (some k, w) (e, same, a) =
        let even : e ≡ k = cc in subst (λ j. AddedKey bytes hash cmp v j w) even a

    add_with-loaded :
        (os : Allocator A) (v : Vec A) (h : IsHashed bytes hash cmp v)
        → v.max * 2 * v.esz < u32_mod
        → v.max * 80 ≤ v.cnt * 100
        → is_loaded bytes v ≡ true
        → Ends (add_with bytes os hash cmp v) (AddedOrRefused os v)
    unfolding add_with
    add_with-loaded os v h fits full loaded =
        rw (loaded, add_with)
          (Ends-bind (Larger bytes cmp keyed os v) (AddedOrRefused os v) (reash bytes os cmp v) _
            (reash-Larger bytes cmp keyed os v h.valid (omega (arith, h.large)) fits) next)
      where
        next :
            (r : Option (List A))
            → Larger bytes cmp keyed os v r
            → Ends
                (elim r [
                  | none ↦ some (none, v)
                  | some tab ↦
                      add_element bytes hash cmp (record v { vec = tab; max = mul32 v.max 2 })
                ])
                (AddedOrRefused os v)
        next none refused = (refl, full, refused)
        next (some tab) moved =
            let whole : mul32 v.max 2 ≡ v.max * 2 =
              mul32_exact v.max 2 (omega (arith, mul-le-mul (le_refl (v.max * 2)) h.valid.sized)) in
            let u : Vec A = enlarged v h fits tab in
            let hu : IsHashed bytes hash cmp u = enlarged-IsHashed v h fits tab moved in
            rw whole (
              Ends-map (AddedElement bytes hash cmp u) (AddedOrRefused os v)
                (add_element bytes hash cmp u)
                (λ r a.
                  AddedElement-AddedOrRefused os v r (Moved-AddedElement v h fits tab moved r a))
                (add_element-AddedElement bytes hash cmp keyed u hu
                  (omega (arith, h.room, h.large))))

    add_with-AddedOrRefused :
        (os : Allocator A) (v : Vec A)
        → IsHashed bytes hash cmp v
        → v.max * 2 * v.esz < u32_mod
        → v.cnt * 100 < u32_mod
        → Ends (add_with bytes os hash cmp v) (AddedOrRefused os v)
    unfolding add_with is_loaded
    add_with-AddedOrRefused os v h fits exact =
        let percent : mul32 v.cnt 100 ≡ v.cnt * 100 = mul32_exact v.cnt 100 exact in
        elim (Bool-cases (is_loaded bytes v)) [
          | inl loaded ↦
              let high : leb v.max (mul32 v.cnt 100 / 80) ≡ true = loaded in
              add_with-loaded os v h fits (ground (arith, high, percent)) loaded
          | inr low ↦
              let few : leb v.max (mul32 v.cnt 100 / 80) ≡ false = low in
              let below : v.cnt * 100 / 80 < v.max = ground (arith, few, percent) in
              rw (low, add_with)
                (Ends-map (AddedElement bytes hash cmp v) (AddedOrRefused os v)
                  (add_element bytes hash cmp v) (λ r a. AddedElement-AddedOrRefused os v r a)
                  (add_element-AddedElement bytes hash cmp keyed v h
                    (omega (arith, below, h.large))))
        ]

    add_hashed-add_with :
        (os : Allocator A) (v : Vec A)
        → IsHashed bytes hash cmp v
        → add_hashed bytes os v ≡ add_with bytes os hash cmp v
    unfolding add_hashed
    add_hashed-add_with os v h =
        ap (λ (o : Option (A → ℕ)). o >>= λ f. v.cmp >>= λ c. add_with bytes os f c v) h.hashed
        ∙ ap (λ (o : Option (A → A → Ordering)). o >>= λ c. add_with bytes os hash c v) h.compared

    -- `utl_vec_add_hashed` of a vector in order, where the sizes fit 32 bits, ends in one of two ways.
    -- Either the table was loaded to 80% and there is no memory for one of twice the size; it returns
    -- NULL, and the vector is as it was. Or the vector is in order again and has the key of `*elm`, no
    -- key is lost and there is no element that was not there; `cnt` is one more, and the pointer is at
    -- the element or at the slot before it.
    pub add_hashed_lem :
        (os : Allocator A) (v : Vec A)
        → IsHashed bytes hash cmp v
        → v.max * 2 * v.esz < u32_mod
        → v.cnt * 100 < u32_mod
        → Ends (add_hashed bytes os v) (AddedOrRefused os v)
    add_hashed_lem os v h fits exact =
        rw (add_hashed-add_with os v h) (add_with-AddedOrRefused os v h fits exact)
