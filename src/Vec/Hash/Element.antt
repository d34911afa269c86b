-- ===== src/Vec/Hash/Element.antt =====
-- src/utl_vec.c: the end of `utl_vec_add_hashed`, behind the growth of the table.
use Prim.Native.Nat.{Ordering}
use clibutl.Prelude.{
  ℕ, ◌+◌, ◌%◌, ◌<◌, ◌≡◌, ◌≢◌, ◌⊎◌, refl, ap, List, Option, none, some, u32_max, add32, inl, inr,
  arith,
}
use clibutl.Prelude.Fault.{Ends, Ends-bind}
use clibutl.Vec.Defs.{Vec}
use clibutl.Vec.Hash.{Layout, hash_mod, hsh_set, add_element}
use clibutl.Vec.Hash.Probe.{slot}
use clibutl.Vec.Hash.Swaps.{In}
use clibutl.Vec.Hash.Insert.{SetTo, hsh_set-SetTo}
use clibutl.Vec.Hash.Keys.{IsKeyed, HasKey, SetTo-KeySet}
use clibutl.Vec.Hash.Table.{IsHashed, has_free, hash_value, stamped, stored-stamped}

module _ {ℓ} {A : Type ℓ} (bytes : Layout A) (hash : A → ℕ) (cmp : A → A → Ordering) where
  open bytes use {stored, with_hash, free, stored-with_hash}

  -- The element at `*elm` is added to `v`, which leaves `w`: no key is lost, and there is no element
  -- that was not there. The pointer is at the element, or at the slot before it.
  pub record AddedKey (v : Vec A) (e : ℕ) (w : Vec A) : Type ℓ where
    pub hashed : IsHashed bytes hash cmp w
    pub inside : e < w.max
    pub near :
        (slot bytes w.vec e ≡ stamped bytes hash cmp v.elm)
        ⊎ (slot bytes w.vec ((e + 1) % w.max) ≡ stamped bytes hash cmp v.elm)
    pub counted : w.cnt ≡ v.cnt + 1
    pub added : In bytes w.max w.vec (stamped bytes hash cmp v.elm)
    pub from :
        (y : A)
        → In bytes w.max w.vec y
        → stored y ≢ u32_max
        → (y ≡ stamped bytes hash cmp v.elm) ⊎ In bytes v.max v.vec y
    pub keys :
        (y : A)
        → stored y < hash_mod
        → HasKey bytes cmp v.max v.vec y
        → HasKey bytes cmp w.max w.vec y

  abbrev pub AddedElement : Vec A → Option ℕ × Vec A → Type ℓ
  AddedElement v (r, w) = (e : ℕ) × (r ≡ some e) × AddedKey v e w

  module _ (keyed : IsKeyed cmp) where
    module _ (v : Vec A) (h : IsHashed bytes hash cmp v) (few : v.cnt + 1 < v.max) where
      stamped_real : hash_value bytes hash cmp v.elm < u32_max
      stamped_real = omega arith

      stamped_small : stored (stamped bytes hash cmp v.elm) < hash_mod
      stamped_small = omega (arith, stored-stamped bytes hash cmp v.elm)

      abbrev added : Option ℕ × List A → Vec A
      added r = record v { elm = stamped bytes hash cmp v.elm; vec = r.1; cnt = add32 v.cnt 1 }

      added-AddedKey :
          (r : Option ℕ × List A)
          → (s : SetTo bytes v.max
              (stored (stamped bytes hash cmp v.elm))
              (stamped bytes hash cmp v.elm)
              (omega (arith, stamped_small))
              refl
              cmp
              v.vec
              r)
          → AddedKey v s.0 (added r)
      added-AddedKey (r, tab) s =
          let set =
            SetTo-KeySet bytes cmp v.max keyed (stamped bytes hash cmp v.elm) stamped_small v.vec
              (r, tab) s in
          let one : add32 v.cnt 1 ≡ v.cnt + 1 = omega (arith, few, h.table.small) in
          record {
            hashed = record {
              valid = record {
                slots = set.table.sized;
                count = omega arith;
                positive = h.valid.positive;
                sized = h.valid.sized;
                fits = h.valid.fits;
              };
              compared = h.compared;
              hashed = h.hashed;
              table = set.table;
              count = omega (arith, set.count, h.count);
              room = omega arith;
              large = h.large;
              real = λ y i u. elim (set.from y i) [
                | inl new ↦ omega (arith, stamped_small, ap stored new)
                | inr old ↦ h.real y old u
              ];
            };
            inside = s.2;
            near = s.3;
            counted = one;
            added = set.added;
            from = λ y i u. set.from y i;
            keys = set.keys;
          }

      unfoldable outcome : Option ℕ × List A → Option (Option ℕ × Vec A)
      outcome (p, tab) =
          let w = record v { elm = stamped bytes hash cmp v.elm; vec = tab } in
          some (p, elim p [ none ↦ w | some k ↦ record w { cnt = add32 v.cnt 1 } ])

      set-AddedElement :
          (r : Option ℕ × List A)
          → SetTo bytes v.max
              (stored (stamped bytes hash cmp v.elm))
              (stamped bytes hash cmp v.elm)
              (omega (arith, stamped_small))
              refl
              cmp
              v.vec
              r
          → Ends (outcome r) (AddedElement v)
      unfolding outcome
      set-AddedElement (none, tab) s = absurd (let none_some : none ≡ some s.0 = s.1 in cc)
      set-AddedElement (some k, tab) s = (s.0, s.1, added-AddedKey (some k, tab) s)

      pub add_element-AddedElement : Ends (add_element bytes hash cmp v) (AddedElement v)
      unfolding add_element outcome
      add_element-AddedElement =
          Ends-bind
            (SetTo bytes v.max (stored (stamped bytes hash cmp v.elm))
              (stamped bytes hash cmp v.elm) (omega (arith, stamped_small)) refl cmp v.vec)
            (AddedElement v) (hsh_set bytes cmp (stamped bytes hash cmp v.elm) v.max v.vec) outcome
            (hsh_set-SetTo bytes v.max (stored (stamped bytes hash cmp v.elm))
              (stamped bytes hash cmp v.elm) (omega (arith, stamped_small)) refl cmp v.vec h.table
              stamped_small (has_free bytes hash cmp v h))
            set-AddedElement
