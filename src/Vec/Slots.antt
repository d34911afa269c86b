-- ===== src/Vec/Slots.antt =====
-- The buffer of a vector as a list of slots, one for each element of `esz` bytes: `memcpy` and
-- `memmove` of whole elements, and what the C library promises of `malloc` and `realloc`.
use clibutl.Prelude.{
  ℕ, ◌+◌, ◌/◌, ◌≤◌, ◌≡◌, List, ◌++◌, Option, none, some, length, set, take, drop, leb, ltb, ◌&&◌,
  ◌||◌, if◌then◌else◌,
}

-- Sizes in bytes, as the source passes them: a block of `bytes` holds `bytes / esz` elements. The
-- new slots have any content.
pub record Allocator {ℓ} (A : Type ℓ) : Type ℓ where
  pub malloc : (bytes esz : ℕ) → Option (List A)
  pub realloc : List A → (bytes esz : ℕ) → Option (List A)
  pub length-malloc :
      (bytes esz : ℕ) (xs : List A) → malloc bytes esz ≡ some xs → length xs ≡ bytes / esz
  pub length-realloc :
      (xs : List A) (bytes esz : ℕ) (ys : List A)
      → realloc xs bytes esz ≡ some ys
      → length ys ≡ bytes / esz
  pub take-realloc :
      (xs : List A) (bytes esz : ℕ) (ys : List A) (n : ℕ)
      → realloc xs bytes esz ≡ some ys
      → n ≤ length xs
      → n ≤ bytes / esz
      → take n ys ≡ take n xs

module _ {ℓ} {A : Type ℓ} where
  -- memmove(vec + dst, vec + src, n) in elements; `none` if a slot outside the buffer is touched.
  abbrev pub move : List A → (dst src n : ℕ) → Option (List A)
  move xs dst src n =
      if leb (dst + n) (length xs) && leb (src + n) (length xs)
      then some (take dst xs ++ (take n (drop src xs) ++ drop (dst + n) xs))
      else none

  -- memcpy(vec + dst, vec + src, n) in elements: `none` also where the two ranges overlap, which
  -- `memcpy` does not allow.
  abbrev pub copy : List A → (dst src n : ℕ) → Option (List A)
  copy xs dst src n = if leb (dst + n) src || leb (src + n) dst then move xs dst src n else none

  -- memcpy of one element into slot `i`.
  abbrev pub store : List A → ℕ → A → Option (List A)
  store xs i x = if ltb i (length xs) then some (set xs i x) else none
