-- ===== src/Utf/Next.antt =====
-- src/utl_utf.c, `utl_next_utf8`: a state machine over the bytes of one character.
use clibutl.Prelude.{
  ℕ, ◌+◌, ◌*◌, ◌%◌, List, [], ◌∷◌, ◌||◌, Option, none, some, ltb, leb, ◌==◌, if◌then◌else◌,
}

-- What the function returns: the length, and the code point that it stores through `ch`.
abbrev pub Decoded : Type 0
Decoded = ℕ × ℕ

-- The states that read a continuation byte.
pub data State : Type 0 where
  len4_0 len4_1 len4_2 len3_0 len3_1 len3_2 len2 : State

-- The range that each state accepts.
abbrev pub low : State → ℕ
low State.len4_0 = 0x90
low State.len3_0 = 0xA0
low _ = 0x80

abbrev pub high : State → ℕ
high State.len4_2 = 0x8F
high State.len3_2 = 0x9F
high _ = 0xBF

-- `fsmGOTO` at the end of each state; `none` is `end`.
abbrev pub next_state : State → Option State
next_state State.len4_0 = some State.len3_1
next_state State.len4_1 = some State.len3_1
next_state State.len4_2 = some State.len3_1
next_state State.len3_0 = some State.len2
next_state State.len3_1 = some State.len2
next_state State.len3_2 = some State.len2
next_state State.len2 = none

-- (val << 6) | (b & 0x3F): the low six bits of the shifted value are free, so `|` is `+`.
abbrev pub shift_in : ℕ → ℕ → ℕ
shift_in val b = val * 64 + b % 64

-- One state: `s++`, the range test, the new value, and the jump. `invalid` stores the first byte
-- and returns length 1. `s` holds the bytes behind the one read last. The fuel counts the states
-- still to run: three are the most that follow one another.
unfoldable pub run : ℕ → State → (first len val : ℕ) → List ℕ → Option Decoded
run ℕ.zero st first len val s = none
run (ℕ.suc fuel) st first len val [] = none
run (ℕ.suc fuel) st first len val (b ∷ s) =
    if ltb b (low st) || ltb (high st) b then some (1, first) else elim (next_state st) [
      | none ↦ some (len, shift_in val b)
      | some st' ↦ run fuel st' first len (shift_in val b) s
    ]

-- `fsmSTART`: the first byte picks the value bits, the length and the state.
start : ℕ → List ℕ → Option Decoded
start b s =
    if leb b 0xC1
    then some (if ltb 0 b then 1 else 0, b)
    else if leb b 0xDF
    then run 3 State.len2 b 2 (b % 32) s
    else if b == 0xE0
    then run 3 State.len3_0 b 3 (b % 16) s
    else if leb b 0xEC
    then run 3 State.len3_1 b 3 (b % 16) s
    else if b == 0xED
    then run 3 State.len3_2 b 3 (b % 16) s
    else if leb b 0xEF
    then run 3 State.len3_1 b 3 (b % 16) s
    else if b == 0xF0
    then run 3 State.len4_0 b 4 (b % 8) s
    else if leb b 0xF3
    then run 3 State.len4_1 b 4 (b % 8) s
    else if b == 0xF4
    then run 3 State.len4_2 b 4 (b % 8) s
    else some (1, b)

unfoldable pub next_utf8 : List ℕ → Option Decoded
unfolding start
next_utf8 [] = none
next_utf8 (b ∷ s) = start b s
