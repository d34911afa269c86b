-- ===== src/Utf/Tests.antt =====
-- Runs of the decoder and of the character classes, and each theorem at an input.
use clibutl.Prelude.{◌≡◌, ◌↔◌, ◌⊎◌, refl, true, false, [], ◌∷◌, ◌++◌, some, arith}
use clibutl.Utf.Next.{run, next_utf8}
use clibutl.Utf.Encode.{encode}
use clibutl.Utf.Classes.{utlisupper, utlislower, utlfoldchar}
use clibutl.Utf.Decode.{
  IsByte, IsEncoded, IsWithin, next_utf8-encode, next_utf8_sound, next_utf8-IsWithin,
}
use clibutl.Utf.Tables.{utlfoldchar_lem}

-- The sign for the euro, a surrogate, an overlong slash and a character cut short.
decoded :
    (next_utf8 (0xE2 ∷ 0x82 ∷ 0xAC ∷ 0 ∷ []) ≡ some (3, 0x20AC))
    × (next_utf8 (0xED ∷ 0xA0 ∷ 0x80 ∷ 0 ∷ []) ≡ some (1, 0xED))
    × (next_utf8 (0xC0 ∷ 0xAF ∷ 0 ∷ []) ≡ some (1, 0xC0))
    × (next_utf8 (0xE2 ∷ 0x82 ∷ 0 ∷ []) ≡ some (1, 0xE2))
    × (next_utf8 (0 ∷ []) ≡ some (0, 0))
unfolding next_utf8 run
decoded = (refl, refl, refl, refl, refl)

next_utf8-encode_example : next_utf8 (encode 0x1F600 ++ (b'!' ∷ 0 ∷ [])) ≡ some (4, 0x1F600)
unfolding encode
next_utf8-encode_example = next_utf8-encode 0x1F600 (b'!' ∷ 0 ∷ []) (omega arith)

next_utf8_sound_example : IsByte 0xC3 (2, 0xE9) ⊎ IsEncoded (0xC3 ∷ 0xA9 ∷ 0 ∷ []) (2, 0xE9)
unfolding next_utf8 run
next_utf8_sound_example = next_utf8_sound 0xC3 (0xA9 ∷ 0 ∷ []) 2 0xE9 refl

next_utf8-IsWithin_example : IsWithin 2 (next_utf8 (0xE2 ∷ 0x82 ∷ 0 ∷ 0xAC ∷ []))
next_utf8-IsWithin_example = next_utf8-IsWithin (0xE2 ∷ 0x82 ∷ []) (0xAC ∷ []) (omega arith)

utlfoldchar_lem_example :
    (utlisupper (utlfoldchar 0xC9) ≡ false)
    × ((utlisupper 0xC9 ≡ false) ⊎ (utlislower (utlfoldchar 0xC9) ≡ true))
    × ((utlfoldchar 0xC9 ≡ 0xC9) ↔ (utlisupper 0xC9 ≡ false))
    × (utlfoldchar (utlfoldchar 0xC9) ≡ utlfoldchar 0xC9)
utlfoldchar_lem_example = utlfoldchar_lem 0xC9
