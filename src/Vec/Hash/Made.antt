-- ===== src/Vec/Hash/Made.antt =====
-- src/utl_vec.c: `utl_vec_new` makes an empty hash table.
use Prim.Native.Nat.{Ordering}
use native.Mathlib.Nat.{mul-div_cancel}
use clibutl.Prelude.{
  ℕ, ◌+◌, ◌-◌, ◌*◌, ◌<◌, ◌≡◌, ◌⊎◌, ◌∙◌, refl, sym, ap, Bool, false, Option, none, some, length,
  replicate, length-replicate, u32_max, Bool-cases, Option-cases, inl, inr, arith,
}
use clibutl.Vec.Slots.{Allocator}
use clibutl.Vec.Defs.{Vec, vec_min_elem}
use clibutl.Vec.New.{u16_mod, hashed_size, element_size, lacks_cmp, vec_new}
use clibutl.Vec.Hash.{Layout}
use clibutl.Vec.Hash.Count.{used, used-replicate}
use clibutl.Vec.Hash.Keys.{IsKeyed}
use clibutl.Vec.Hash.Rehash.{get_or-replicate, fresh-IsTable}
use clibutl.Vec.Hash.Table.{IsHashed}

module _ {ℓ} {A : Type ℓ} (bytes : Layout A) (hash : A → ℕ) (cmp : A → A → Ordering)
    (keyed : IsKeyed cmp) where
  open bytes use {stored, free}

  -- The vector that `utl_vec_new` makes.
  abbrev pub made : (esz : ℕ) (zeros : A) → Vec A
  made esz zeros = record {
    fst = 0;
    lst = u32_max;
    cur = 0;
    max = vec_min_elem;
    cnt = 0;
    esz = esz;
    sorted = false;
    cmp = some cmp;
    hsh = some hash;
    vec = replicate vec_min_elem free;
    elm = zeros;
  }

  pub made-IsHashed :
      (esz : ℕ) (zeros : A) → 0 < esz → esz < u16_mod → IsHashed bytes hash cmp (made esz zeros)
  made-IsHashed esz zeros pos small = record {
    valid = record {
      slots = length-replicate vec_min_elem free;
      count = omega arith;
      positive = omega arith;
      sized = pos;
      fits = omega arith;
    };
    compared = refl;
    hashed = refl;
    table = fresh-IsTable bytes cmp keyed vec_min_elem (omega arith) (omega arith);
    count = omega (arith, used-replicate bytes vec_min_elem free bytes.stored-free);
    room = omega arith;
    large = omega arith;
    real = λ y i u. absurd (
        u (
          ap stored
            (sym (sym (get_or-replicate bytes cmp keyed vec_min_elem vec_min_elem i.0) ∙ i.2))
          ∙ bytes.stored-free));
  }

  -- What a call with a hash function gives: NULL, where there was no memory, or an empty table.
  abbrev pub NewTable : Allocator A → (ℕ → Bool) → (struct esz : ℕ) → Option (Vec A) → Type ℓ
  NewTable os room struct esz none =
      (room (struct + (esz + 4) - 4) ≡ false)
      ⊎ (os.malloc (vec_min_elem * (esz + 4)) (esz + 4) ≡ none)
  NewTable os room struct esz (some v) =
      IsHashed bytes hash cmp v × (used bytes v.vec ≡ 0) × (v.cnt ≡ 0) × (v.esz ≡ esz + 4)

  -- `utl_vec_new` with a comparison and a hash function, for elements of at most 65531 bytes: it returns
  -- NULL only where `malloc` does, and else a hash table in order with no element, whose elements have
  -- four more bytes.
  pub vec_new-NewTable :
      (os : Allocator A) (room : ℕ → Bool) (struct : ℕ) (zeros : A) (esz : ℕ)
      → esz + 4 < u16_mod
      → NewTable os room struct esz (vec_new os room struct free zeros esz (some cmp) (some hash))
  unfolding vec_new element_size hashed_size lacks_cmp
  vec_new-NewTable os room struct zeros esz small =
      let size : hashed_size esz ≡ esz + 4 = omega arith in
      elim (Bool-cases (room (struct + (esz + 4) - 4))) [
        | inr refused ↦ rw (size, refused, vec_new) (inl refused)
        | inl given ↦ elim (Option-cases (os.malloc (vec_min_elem * (esz + 4)) (esz + 4))) [
          | inl refused ↦ rw (size, given, refused, vec_new) (inr refused)
          | inr (vec, found) ↦
              let slots : length vec ≡ vec_min_elem =
                os.length-malloc (vec_min_elem * (esz + 4)) (esz + 4) vec found
                ∙ mul-div_cancel vec_min_elem (let p : 0 < esz + 4 = omega arith in p) in
              rw (size, given, found, slots, vec_new, size)
                (
                  made-IsHashed (esz + 4) zeros (omega arith) small,
                  used-replicate bytes vec_min_elem free bytes.stored-free,
                  refl,
                  refl,
                )
        ]
      ]
