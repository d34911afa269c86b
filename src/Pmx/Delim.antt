-- ===== src/Pmx/Delim.antt =====
-- Delimited texts, `<Q>` and `<B>`: `utl_pmx_get_limits`, `utl_pmx_get_delimited`.
use clibutl.Prelude.{ℕ, zero, suc, ◌+◌, ◌-◌, Bool, Option, none, some, ◌==◌, if◌then◌else◌}
use clibutl.Prelude.Fault.{◌>>=◌}
use clibutl.Pmx.Store.{Text, Pmx, advance, is_before, distance, set_paterror}
use clibutl.Pmx.Chars.{nextch}

-- The opening, the closing and the escape character.
pub record Limits : Type 0 where
  pub c_beg : ℕ
  pub c_end : ℕ
  pub c_esc : ℕ

abbrev pub limits : ℕ → ℕ → ℕ → Limits
limits c_beg c_end c_esc = record { c_beg = c_beg; c_end = c_end; c_esc = c_esc }

-- The closing character behind the opening one `c1`, and the escape if there is one.
unfoldable pub second_limit : (utf8 : Bool) → (pat pat_end : Text) → (c1 : ℕ) → Option Limits
second_limit utf8 pat pat_end c1 = do
  (len, c2) ← nextch utf8 pat
  pat' ← advance pat len
  if is_before pat' pat_end
      then (do (len', c3) ← nextch utf8 pat'; some (limits c1 c2 c3))
      else some (limits c1 c2 0)

-- The limits that a pattern names, `<B()\>` or `<Q""\>`: one, two or three characters.
unfoldable pub named_limits : (utf8 : Bool) → (pat pat_end : Text) → Option Limits
named_limits utf8 pat pat_end = do
  (len, c1) ← nextch utf8 pat
  pat' ← advance pat len
  if is_before pat' pat_end then second_limit utf8 pat' pat_end c1 else some (limits b'(' b')' c1)

-- The characters that close a bracket and a quote.
abbrev pub closing_bracket : ℕ → Option ℕ
closing_bracket ch =
    if ch == b'('
    then some b')'
    else if ch == b'['
    then some b']'
    else if ch == b'{'
    then some b'}'
    else if ch == b'<'
    then some b'>'
    else none

abbrev pub closing_quote : ℕ → Option ℕ
closing_quote ch =
    if ch == b'"'
    then some ch
    else if ch == b'\''
    then some ch
    else if ch == b'`'
    then some ch
    else if ch == 0x91
    then some 0x92
    else if ch == 0x93
    then some 0x94
    else if ch == 0x2018
    then some 0x2019
    else if ch == 0x201C
    then some 0x201D
    else none

-- Those that serve as both. A `char` is signed, so that '\\xAB' is a negative number, here modulo 2 ^ 32.
abbrev pub closing_angle : ℕ → Option ℕ
closing_angle ch =
    if ch == 0xFFFF_FFAB
    then some 0xFFFF_FFBB
    else if ch == 0xFFFF_FF8B
    then some 0xFFFF_FF9B
    else if ch == 0x2039
    then some 0x203A
    else if ch == 0x2329
    then some 0x232A
    else if ch == 0x27E8
    then some 0x27E9
    else if ch == 0x27EA
    then some 0x27EB
    else none

-- The limits inferred from the first character of the text.
unfoldable pub inferred_limits : (braced : Bool) → (ch : ℕ) → Option Limits
inferred_limits braced ch =
    let c_esc : ℕ = if braced then 0 else b'\\' in
    elim (if braced then closing_bracket ch else closing_quote ch) [
      | some c_end ↦ some (limits ch c_end c_esc)
      | none ↦ elim (closing_angle ch) [ some c_end ↦ some (limits ch c_end c_esc) | none ↦ none ]
    ]

-- `utl_pmx_get_limits`: the inner `none` is its result 0.
unfoldable pub get_limits :
    (utf8 : Bool) → (pat pat_end txt : Text) → (braced : Bool) → Option (Option Limits)
get_limits utf8 pat pat_end txt braced =
    if is_before pat pat_end
    then (do l ← named_limits utf8 pat pat_end; some (some l))
    else (do (len, ch) ← nextch utf8 txt; some (inferred_limits braced ch))

-- What a round of the loop of `utl_pmx_get_delimited` does: it returns, or goes on behind the
-- character read with a new count. `ends` is the loop's test, `s += n` done or not.
pub data Round : Type 0 where
  found : (n : ℕ) → Round
  again : (s : Text) → (n cnt : ℕ) → Round
  ended : (s : Text) → Round

-- The character behind the escape is passed over.
unfoldable pub escaped : (utf8 : Bool) → (s : Text) → (n cnt : ℕ) → Option Round
escaped utf8 s n cnt = do
  s' ← advance s n
  (n', ch) ← nextch utf8 s'
  some (if ch == 0 then ended s' else again s' n' cnt)

unfoldable pub delimited_round :
    (utf8 : Bool) → Limits → (txt s : Text) → (n cnt : ℕ) → Option Round
delimited_round utf8 l txt s n cnt = do
  s' ← advance s n
  (n', ch) ← nextch utf8 s'
  if ch == 0
      then some (found 0)
      else if ch == l.c_end
      then some (if cnt == 0 then found (distance txt s' + n') else again s' n' (cnt - 1))
      else if ch == l.c_beg
      then some (again s' n' (cnt + 1))
      else if ch == l.c_esc
      then escaped utf8 s' n' cnt
      else some (again s' n' cnt)

-- The length of the delimited text, 0 if there is none, and the state with a pattern error where an
-- escape stands at the end of the text.
unfoldable pub delimited_loop :
    (fuel : ℕ) → Pmx → Limits → (pat txt s : Text) → (n cnt : ℕ) → Option (ℕ × Pmx)
delimited_loop zero x l pat txt s n cnt = none
delimited_loop (suc fuel) x l pat txt s n cnt = elim (delimited_round x.utf8 l txt s n cnt) [
  | none ↦ none
  | some (found len) ↦ some (len, x)
  | some (ended s') ↦ some (distance txt s', set_paterror x pat)
  | some (again s' n' cnt') ↦ delimited_loop fuel x l pat txt s' n' cnt'
]

unfoldable pub get_delimited : (fuel : ℕ) → Pmx → Limits → (pat txt : Text) → Option (ℕ × Pmx)
get_delimited fuel x l pat txt = do
  (n, ch) ← nextch x.utf8 txt
  if n == 0
      then some (0, x)
      else if ch == l.c_beg
      then delimited_loop fuel x l pat txt txt n 0
      else some (0, x)

unfoldable pub delimited :
    (fuel : ℕ) → Pmx → (pat pat_end txt : Text) → (braced : Bool) → Option (ℕ × Pmx)
delimited fuel x pat pat_end txt braced = do
  l ← get_limits x.utf8 pat pat_end txt braced
  elim l [ none ↦ some (0, x) | some l' ↦ get_delimited fuel x l' pat txt ]
