-- ===== src/Utf/Tables.antt =====
-- What the table of src/utl_utf.c says of the letters, character by character.
use clibutl.Prelude.{
  ℕ, ◌+◌, ◌≡◌, ◌↔◌, ◌⊎◌, inl, inr, Bool, true, false, not, ◌&&◌, ◌||◌, leb, ltb, ◌==◌, refl, arith,
  Bool-cases,
}
use clibutl.Prelude.Tables.{test_range, test_range_lem}
use clibutl.Utf.Classes.{
  has_bits, utlisdigit, utlisalpha, utlisalnum, utlislower, utlisupper, utlfoldchar,
}

-- The letters of Latin-1 by their ranges: 0xC0 to 0xFF without the signs for times and division.
abbrev pub is_upper : ℕ → Bool
is_upper c = leb b'A' c && leb c b'Z' || leb 0xC0 c && leb c 0xDE && not (c == 0xD7)

abbrev pub is_lower : ℕ → Bool
is_lower c = leb b'a' c && leb c b'z' || leb 0xDF c && leb c 0xFF && not (c == 0xF7)

abbrev pub is_digit : ℕ → Bool
is_digit c = leb b'0' c && leb c b'9'

abbrev same : Bool → Bool → Bool
same true b = b
same false b = not b

same→eq : (a b : Bool) → same a b ≡ true → a ≡ b
same→eq a b h = ground arith

module _ (class range : ℕ → Bool) where
  -- A class that is empty above 0xFF is equal to a set of ranges below, if it is so at each byte.
  class_by_table :
      ((c : ℕ) → ltb 0xFF c ≡ true → class c ≡ range c)
      → test_range (λ c. same (class c) (range c)) 0 256 ≡ true
      → (c : ℕ) → class c ≡ range c
  class_by_table above table c = elim (Bool-cases (ltb 0xFF c)) [
    | inl big ↦ above c big
    | inr small ↦
        same→eq (class c) (range c) (
          test_range_lem (λ b. same (class b) (range b)) 0 256 table c (omega arith) (ground arith))
  ]

has_bits_above : (mask c : ℕ) → ltb 0xFF c ≡ true → has_bits mask c ≡ false
unfolding has_bits
has_bits_above mask c h = let e : leb c 0xFF ≡ false = ground arith in rw e

ranges_above :
    (c : ℕ) → ltb 0xFF c ≡ true → (is_upper c ≡ false) × (is_lower c ≡ false) × (is_digit c ≡ false)
ranges_above c h = (ground arith, ground arith, ground arith)

isupper_lem : (c : ℕ) → utlisupper c ≡ is_upper c
unfolding utlisupper test_range
isupper_lem =
    class_by_table utlisupper is_upper (λ c h. cc ((ranges_above c h).0, has_bits_above 0x02 c h))
      refl

islower_lem : (c : ℕ) → utlislower c ≡ is_lower c
unfolding utlislower test_range
islower_lem =
    class_by_table utlislower is_lower (λ c h. cc ((ranges_above c h).1, has_bits_above 0x04 c h))
      refl

isdigit_lem : (c : ℕ) → utlisdigit c ≡ is_digit c
unfolding utlisdigit test_range
isdigit_lem =
    class_by_table utlisdigit is_digit (λ c h. cc ((ranges_above c h).2, has_bits_above 0x08 c h))
      refl

isalpha_lem : (c : ℕ) → utlisalpha c ≡ (is_upper c || is_lower c)
unfolding utlisalpha test_range
isalpha_lem =
    class_by_table utlisalpha (λ c. is_upper c || is_lower c)
      (λ c h. let (u, l, _) = ranges_above c h in cc (u, l, has_bits_above 0x06 c h)) refl

isalnum_lem : (c : ℕ) → utlisalnum c ≡ (is_upper c || is_lower c || is_digit c)
unfolding utlisalnum test_range
isalnum_lem =
    class_by_table utlisalnum (λ c. is_upper c || is_lower c || is_digit c)
      (λ c h. let (u, l, d) = ranges_above c h in cc (u, l, d, has_bits_above 0x0E c h)) refl

-- The five classes are the ranges of Latin-1 letters and digits, at every character: what a class
-- function returns for a character above 0xFF is false.
pub classes-ranges :
    (c : ℕ)
    → (utlisupper c ≡ is_upper c)
      × (utlislower c ≡ is_lower c)
      × (utlisdigit c ≡ is_digit c)
      × (utlisalpha c ≡ (is_upper c || is_lower c))
      × (utlisalnum c ≡ (is_upper c || is_lower c || is_digit c))
classes-ranges c = (isupper_lem c, islower_lem c, isdigit_lem c, isalpha_lem c, isalnum_lem c)

fold_ranges : (c : ℕ) → is_upper c ≡ true → (is_upper (c + 32) ≡ false) × (is_lower (c + 32) ≡ true)
fold_ranges c h = (ground arith, ground arith)

-- Folding a character leaves no upper case: an upper-case letter becomes a lower-case one, any other
-- character stays, and folding again changes nothing.
pub utlfoldchar_lem :
    (c : ℕ)
    → (utlisupper (utlfoldchar c) ≡ false)
      × ((utlisupper c ≡ false) ⊎ (utlislower (utlfoldchar c) ≡ true))
      × ((utlfoldchar c ≡ c) ↔ (utlisupper c ≡ false))
      × (utlfoldchar (utlfoldchar c) ≡ utlfoldchar c)
unfolding utlfoldchar
utlfoldchar_lem c =
    ground (arith, isupper_lem c, isupper_lem (c + 32), islower_lem (c + 32), fold_ranges c)
