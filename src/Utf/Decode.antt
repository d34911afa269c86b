-- ===== src/Utf/Decode.antt =====
-- `utl_next_utf8` decodes exactly the encodings of UTF-8, and takes any other byte by itself.
use clibutl.Prelude.{
  ℕ, ◌%◌, ◌≤◌, ◌<◌, ◌≡◌, ◌≢◌, ◌⊎◌, List, [], ◌∷◌, ◌++◌, Option, none, some, length, take, ltb,
  if◌then◌else◌, arith,
}
use clibutl.Utf.Next.{Decoded, State, run, next_utf8}
use clibutl.Utf.Encode.{IsScalar, encode}

-- The decoder gives back every code point that was encoded, whatever bytes follow, with the length
-- of its encoding, or 0 for U+0000, whose byte is the NUL.
pub next_utf8-encode :
    (cp : ℕ) (rest : List ℕ)
    → IsScalar cp
    → next_utf8 (encode cp ++ rest) ≡ some (if ltb 0 cp then length (encode cp) else 0, cp)
unfolding next_utf8 run encode
next_utf8-encode cp rest h = ground arith

-- The byte `b` by itself: no length for the NUL, and 1 for any other.
abbrev pub IsByte : ℕ → Decoded → Type 0
IsByte b (len, cp) = (cp ≡ b) × (len ≡ (if ltb 0 b then 1 else 0))

-- The text begins with the encoding of a code point of more than one byte.
abbrev pub IsEncoded : List ℕ → Decoded → Type 0
IsEncoded s (len, cp) =
    IsScalar cp × (0x80 ≤ cp) × (take len s ≡ encode cp) × (len ≡ length (encode cp))

abbrev Explains : ℕ → List ℕ → ℕ → ℕ → Type 0
Explains b s len cp = IsByte b (len, cp) ⊎ IsEncoded (b ∷ s) (len, cp)

-- One lemma for each state that `fsmSTART` goes to.
from_len2 :
    (b : ℕ) (s : List ℕ) (len cp : ℕ)
    → 0xC1 < b
    → b ≤ 0xDF
    → run 3 State.len2 b 2 (b % 32) s ≡ some (len, cp)
    → Explains b s len cp
unfolding run encode
from_len2 b [] len cp p q h = ground arith
from_len2 b (c ∷ s) len cp p q h = ground arith

from_len3_0 :
    (b : ℕ) (s : List ℕ) (len cp : ℕ)
    → b ≡ 0xE0
    → run 3 State.len3_0 b 3 (b % 16) s ≡ some (len, cp)
    → Explains b s len cp
unfolding run encode
from_len3_0 b [] len cp p h = ground arith
from_len3_0 b (c ∷ []) len cp p h = ground arith
from_len3_0 b (c ∷ d ∷ s) len cp p h = ground arith

from_len3_1 :
    (b : ℕ) (s : List ℕ) (len cp : ℕ)
    → 0xE0 < b
    → b ≤ 0xEF
    → b ≢ 0xED
    → run 3 State.len3_1 b 3 (b % 16) s ≡ some (len, cp)
    → Explains b s len cp
unfolding run encode
from_len3_1 b [] len cp p q r h = ground arith
from_len3_1 b (c ∷ []) len cp p q r h = ground arith
from_len3_1 b (c ∷ d ∷ s) len cp p q r h = ground arith

from_len3_2 :
    (b : ℕ) (s : List ℕ) (len cp : ℕ)
    → b ≡ 0xED
    → run 3 State.len3_2 b 3 (b % 16) s ≡ some (len, cp)
    → Explains b s len cp
unfolding run encode
from_len3_2 b [] len cp p h = ground arith
from_len3_2 b (c ∷ []) len cp p h = ground arith
from_len3_2 b (c ∷ d ∷ s) len cp p h = ground arith

from_len4_0 :
    (b : ℕ) (s : List ℕ) (len cp : ℕ)
    → b ≡ 0xF0
    → run 3 State.len4_0 b 4 (b % 8) s ≡ some (len, cp)
    → Explains b s len cp
unfolding run encode
from_len4_0 b [] len cp p h = ground arith
from_len4_0 b (c ∷ []) len cp p h = ground arith
from_len4_0 b (c ∷ d ∷ []) len cp p h = ground arith
from_len4_0 b (c ∷ d ∷ e ∷ s) len cp p h = ground arith

from_len4_1 :
    (b : ℕ) (s : List ℕ) (len cp : ℕ)
    → 0xF0 < b
    → b ≤ 0xF3
    → run 3 State.len4_1 b 4 (b % 8) s ≡ some (len, cp)
    → Explains b s len cp
unfolding run encode
from_len4_1 b [] len cp p q h = ground arith
from_len4_1 b (c ∷ []) len cp p q h = ground arith
from_len4_1 b (c ∷ d ∷ []) len cp p q h = ground arith
from_len4_1 b (c ∷ d ∷ e ∷ s) len cp p q h = ground arith

from_len4_2 :
    (b : ℕ) (s : List ℕ) (len cp : ℕ)
    → b ≡ 0xF4
    → run 3 State.len4_2 b 4 (b % 8) s ≡ some (len, cp)
    → Explains b s len cp
unfolding run encode
from_len4_2 b [] len cp p h = ground arith
from_len4_2 b (c ∷ []) len cp p h = ground arith
from_len4_2 b (c ∷ d ∷ []) len cp p h = ground arith
from_len4_2 b (c ∷ d ∷ e ∷ s) len cp p h = ground arith

-- What the decoder returns is the first byte, or the code point whose whole encoding stands at the
-- beginning of the text: no overlong form, no surrogate, nothing above U+10FFFF.
pub next_utf8_sound :
    (b : ℕ) (s : List ℕ) (len cp : ℕ)
    → next_utf8 (b ∷ s) ≡ some (len, cp)
    → IsByte b (len, cp) ⊎ IsEncoded (b ∷ s) (len, cp)
unfolding next_utf8
next_utf8_sound b s len cp h = ground (
  arith,
  from_len2 b s len cp,
  from_len3_0 b s len cp,
  from_len3_1 b s len cp,
  from_len3_2 b s len cp,
  from_len4_0 b s len cp,
  from_len4_1 b s len cp,
  from_len4_2 b s len cp,
)

-- The result is there, and its bytes are among the first `n`.
abbrev pub IsWithin : ℕ → Option Decoded → Type 0
IsWithin n none = ⊥
IsWithin n (some (len, cp)) = len ≤ n

abbrev pub HasNoNul : List ℕ → Type 0
HasNoNul [] = Unit
HasNoNul (b ∷ s) = (0 < b) × HasNoNul s

-- On a text that ends in NUL the decoder reads nothing behind the NUL, and the character that it
-- returns does not include the NUL.
pub next_utf8-IsWithin :
    (t rest : List ℕ) → HasNoNul t → IsWithin (length t) (next_utf8 (t ++ (0 ∷ rest)))
unfolding next_utf8 run
next_utf8-IsWithin [] rest h = ground arith
next_utf8-IsWithin (b ∷ []) rest h = ground arith
next_utf8-IsWithin (b ∷ c ∷ []) rest h = ground arith
next_utf8-IsWithin (b ∷ c ∷ d ∷ []) rest h = ground arith
next_utf8-IsWithin (b ∷ c ∷ d ∷ e ∷ t) rest h = ground arith
