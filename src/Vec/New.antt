-- ===== src/Vec/New.antt =====
-- src/utl_vec.c: `utl_vec_new` makes an empty vector.
use Prim.Native.Nat.{Ordering}
use native.Mathlib.Nat.{mul-div_cancel}
use clibutl.Prelude.{
  ℕ, ◌+◌, ◌-◌, ◌*◌, ◌/◌, ◌%◌, ◌<◌, ◌≡◌, ◌⊎◌, ◌∙◌, refl, Bool, true, false, [], Option, none, some,
  length, replicate, length-replicate, if◌then◌else◌, u32_max, Bool-cases, Option-cases, inl, inr,
  arith,
}
use clibutl.Vec.Slots.{Allocator}
use clibutl.Vec.Defs.{Vec, items, vec_min_elem}
use clibutl.Vec.Iter.Visit.{IsArray}

-- The arithmetic of an `uint16_t`.
abbrev pub u16_mod : ℕ
u16_mod = 0x1_0000

-- esz += (4+(esz & ~0x03)) & 0x03; esz += sizeof(uint32_t);
unfoldable pub hashed_size : ℕ → ℕ
hashed_size esz = let even = (esz + (4 + esz / 4 * 4) % 4) % u16_mod in (even + 4) % u16_mod

module _ {ℓ} {A : Type ℓ} where
  unfoldable pub element_size : ℕ → Option (A → ℕ) → ℕ
  element_size esz none = esz
  element_size esz (some h) = hashed_size esz

  -- hsh && !cmp
  unfoldable pub lacks_cmp : Option (A → A → Ordering) → Option (A → ℕ) → Bool
  lacks_cmp none (some h) = true
  lacks_cmp none none = false
  lacks_cmp (some c) h = false

  -- `room` says whether `malloc` has the bytes of the struct, whose size with four bytes for `eld`
  -- is `struct`; `ones` and `zeros` are elements of bytes 0xFF and 0, as `memset` leaves them.
  unfoldable pub vec_new :
      Allocator A
      → (room : ℕ → Bool) → (struct : ℕ) → (ones zeros : A) → (esz : ℕ) → Option (A → A → Ordering)
      → Option (A → ℕ)
      → Option (Vec A)
  vec_new os room struct ones zeros esz cmp hsh =
      let size = element_size esz hsh in
      if lacks_cmp cmp hsh
      then none
      else if room (struct + size - 4)
      then elim (os.malloc (vec_min_elem * size) size) [
        | none ↦ none
        | some vec ↦ some (record {
          fst = 0;
          lst = u32_max;
          cur = 0;
          max = vec_min_elem;
          cnt = 0;
          esz = size;
          sorted = false;
          cmp = cmp;
          hsh = hsh;
          vec = replicate (length vec) ones;
          elm = zeros;
        })
      ]
      else none

  -- What a call without a hash function gives: NULL, where there was no memory, or an empty array.
  abbrev pub NewArray :
      Allocator A
      → (ℕ → Bool)
      → (struct esz : ℕ) → Option (A → A → Ordering)
      → Option (Vec A)
      → Type ℓ
  NewArray os room struct esz cmp none =
      (room (struct + esz - 4) ≡ false) ⊎ (os.malloc (vec_min_elem * esz) esz ≡ none)
  NewArray os room struct esz cmp (some v) =
      IsArray v × (items v ≡ []) × (v.esz ≡ esz) × (v.cmp ≡ cmp) × (v.sorted ≡ false)

  no_hash : (cmp : Option (A → A → Ordering)) → lacks_cmp cmp none ≡ false
  unfolding lacks_cmp
  no_hash none = refl
  no_hash (some c) = refl

  -- `utl_vec_new` without a hash function, for elements of 1 to 65535 bytes: it returns NULL only where
  -- `malloc` does, and else an array with no items that keeps the invariant of a vector.
  pub vec_new-NewArray :
      (os : Allocator A) (room : ℕ → Bool) (struct : ℕ) (ones zeros : A) (esz : ℕ)
      (cmp : Option (A → A → Ordering))
      → 0 < esz
      → esz < u16_mod
      → NewArray os room struct esz cmp (vec_new os room struct ones zeros esz cmp none)
  unfolding vec_new element_size
  vec_new-NewArray os room struct ones zeros esz cmp pos small =
      elim (Bool-cases (room (struct + esz - 4))) [
        | inr refused ↦ rw (no_hash cmp, refused, vec_new) (inl refused)
        | inl given ↦ elim (Option-cases (os.malloc (vec_min_elem * esz) esz)) [
          | inl refused ↦ rw (no_hash cmp, given, refused, vec_new) (inr refused)
          | inr (vec, found) ↦
              let slots : length (replicate (length vec) ones) ≡ vec_min_elem =
                length-replicate (length vec) ones
                ∙ os.length-malloc (vec_min_elem * esz) esz vec found
                ∙ mul-div_cancel vec_min_elem pos in
              rw (no_hash cmp, given, found, vec_new)
                (
                  record {
                    valid = record {
                      slots = slots;
                      count = omega arith;
                      positive = omega arith;
                      sized = pos;
                      fits = omega arith;
                    };
                    plain = refl;
                    from_zero = refl;
                    no_queue = refl;
                  },
                  refl,
                  refl,
                  refl,
                  refl,
                )
        ]
      ]
