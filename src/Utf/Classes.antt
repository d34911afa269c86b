-- ===== src/Utf/Classes.antt =====
-- src/utl_utf.c, the table `utl_ENCODING` and the classes read from it.
use Prim.Native.Nat.{bit_and}
use clibutl.Prelude.{
  ℕ, ◌+◌, ◌*◌, ◌/◌, ◌%◌, ◌^◌, List, [], ◌∷◌, Bool, false, not, ◌&&◌, ◌||◌, Option, none, some,
  get_elem?, leb, ◌==◌, if◌then◌else◌,
}

-- Two characters to a byte, four bits each: bit 3 digit, bit 2 lower case, bit 1 upper case.
abbrev pub encoding : List ℕ
encoding =
    0x00 ∷ 0x00 ∷ 0x00 ∷ 0x00 ∷ 0x00 ∷ 0x00 ∷ 0x00 ∷ 0x00 ∷ 0x00 ∷ 0x00 ∷ 0x00 ∷ 0x00 ∷ 0x00 ∷ 0x00
    ∷ 0x00 ∷ 0x00 ∷ 0x00 ∷ 0x00 ∷ 0x00 ∷ 0x00 ∷ 0x00 ∷ 0x00 ∷ 0x00 ∷ 0x00 ∷ 0x88 ∷ 0x88 ∷ 0x88
    ∷ 0x88 ∷ 0x88 ∷ 0x00 ∷ 0x00 ∷ 0x00 ∷ 0x20 ∷ 0x22 ∷ 0x22 ∷ 0x22 ∷ 0x22 ∷ 0x22 ∷ 0x22 ∷ 0x22
    ∷ 0x22 ∷ 0x22 ∷ 0x22 ∷ 0x22 ∷ 0x22 ∷ 0x02 ∷ 0x00 ∷ 0x00 ∷ 0x40 ∷ 0x44 ∷ 0x44 ∷ 0x44 ∷ 0x44
    ∷ 0x44 ∷ 0x44 ∷ 0x44 ∷ 0x44 ∷ 0x44 ∷ 0x44 ∷ 0x44 ∷ 0x44 ∷ 0x04 ∷ 0x00 ∷ 0x00 ∷ 0x00 ∷ 0x00
    ∷ 0x00 ∷ 0x00 ∷ 0x00 ∷ 0x00 ∷ 0x00 ∷ 0x00 ∷ 0x00 ∷ 0x00 ∷ 0x00 ∷ 0x00 ∷ 0x00 ∷ 0x00 ∷ 0x00
    ∷ 0x00 ∷ 0x00 ∷ 0x00 ∷ 0x00 ∷ 0x00 ∷ 0x00 ∷ 0x00 ∷ 0x00 ∷ 0x00 ∷ 0x00 ∷ 0x00 ∷ 0x00 ∷ 0x00
    ∷ 0x00 ∷ 0x00 ∷ 0x00 ∷ 0x00 ∷ 0x22 ∷ 0x22 ∷ 0x22 ∷ 0x22 ∷ 0x22 ∷ 0x22 ∷ 0x22 ∷ 0x22 ∷ 0x22
    ∷ 0x22 ∷ 0x22 ∷ 0x02 ∷ 0x22 ∷ 0x22 ∷ 0x22 ∷ 0x42 ∷ 0x44 ∷ 0x44 ∷ 0x44 ∷ 0x44 ∷ 0x44 ∷ 0x44
    ∷ 0x44 ∷ 0x44 ∷ 0x44 ∷ 0x44 ∷ 0x44 ∷ 0x04 ∷ 0x44 ∷ 0x44 ∷ 0x44 ∷ 0x44 ∷ []

-- `utl_ENC`: c >> 1 picks the byte, (c & 1) << 2 shifts the half of an odd character down.
-- A read past the table is `none`; the callers ask only for characters up to 0xFF.
unfoldable pub enc : ℕ → Option ℕ
enc c = elim (get_elem? encoding (c / 2)) [ none ↦ none | some b ↦ some (b / 2 ^ (4 * (c % 2))) ]

-- (ch <= 0xFF) && (utl_ENC(ch) & mask): the table is read only behind the test.
unfoldable pub has_bits : ℕ → ℕ → Bool
has_bits mask ch =
    if leb ch 0xFF
    then elim (enc ch) [ none ↦ false | some e ↦ not (bit_and e mask == 0) ]
    else false

unfoldable pub utlisdigit : ℕ → Bool
unfolding has_bits enc
utlisdigit ch = has_bits 0x08 ch

unfoldable pub utlisalpha : ℕ → Bool
unfolding has_bits enc
utlisalpha ch = has_bits 0x06 ch

unfoldable pub utlisalnum : ℕ → Bool
unfolding has_bits enc
utlisalnum ch = has_bits 0x0E ch

unfoldable pub utlislower : ℕ → Bool
unfolding has_bits enc
utlislower ch = has_bits 0x04 ch

unfoldable pub utlisupper : ℕ → Bool
unfolding has_bits enc
utlisupper ch = has_bits 0x02 ch

unfoldable pub utlfoldchar : ℕ → ℕ
utlfoldchar ch = if utlisupper ch then ch + 32 else ch

-- The classes that ask the C library, a parameter here, behind the same test.
unfoldable pub utlisctype : (ℕ → Bool) → ℕ → Bool
utlisctype is ch = leb ch 0xFF && is ch

unfoldable pub utlisblank : (ℕ → Bool) → ℕ → Bool
utlisblank isblank ch = ch == 0xA0 || leb ch 0xFF && isblank ch
