-- ===== src/Pmx/Chars.antt =====
-- Reading characters: `utl_pmx_nextch`, `utl_pmx_gethex`, `utl_pmx_isin`, `utl_pmx_iscapt`.
use clibutl.Prelude.{
  ℕ, zero, suc, ◌+◌, ◌-◌, ◌*◌, Bool, true, false, not, [], ◌∷◌, ◌&&◌, Option, none, some, leb, ltb,
  ◌==◌, if◌then◌else◌,
}
use clibutl.Prelude.Fault.{◌>>=◌}
use clibutl.Utf.Next.{next_utf8}
use clibutl.Pmx.Store.{Text, Pmx, int32_max, peek, advance, is_before, pmxstart, pmxend}

-- A length, and the character read.
abbrev pub CharRead : Type 0
CharRead = ℕ × ℕ

unfoldable pub nextch : (utf8 : Bool) → Text → Option CharRead
nextch true t = next_utf8 t
nextch false [] = none
nextch false (c ∷ s) = some ((if c == 0 then 0 else 1), c)

-- The value of a hexadecimal digit, as the three tests of `utl_pmx_gethex` give it.
abbrev pub hex_digit : ℕ → Option ℕ
hex_digit c =
    if leb b'0' c && leb c b'9'
    then some (c - b'0')
    else if leb b'A' c && leb c b'F'
    then some (c - b'A' + 10)
    else if leb b'a' c && leb c b'f'
    then some (c - b'a' + 10)
    else none

-- while (*pat) { ... len++; pat++; }; a code that an `int32_t` does not hold is a fault.
unfoldable pub hex_digits : (len ch : ℕ) → Text → Option CharRead
hex_digits len ch [] = none
hex_digits len ch (c ∷ s) = elim (if c == 0 then none else hex_digit c) [
  | none ↦ some (len, ch)
  | some d ↦
      let rest = hex_digits (len + 1) (ch * 16 + d) s in
      if leb (ch * 16 + d) int32_max then rest else none
]

-- The loop before it, which passes over what is no digit. `isxdigit` is the C library's.
unfoldable pub gethex_from : (isxdigit : ℕ → Bool) → (len : ℕ) → Text → Option CharRead
gethex_from isxdigit len [] = none
gethex_from isxdigit len (c ∷ s) =
    let rest = gethex_from isxdigit (len + 1) s in
    if not (c == 0) && (not (c == b'>') && not (isxdigit c)) then rest else hex_digits len 0 (c ∷ s)

unfoldable pub gethex : (isxdigit : ℕ → Bool) → Text → Option CharRead
gethex isxdigit pat = gethex_from isxdigit 0 pat

-- Behind a character `c1` and a '-': is the character in the range up to the next one?
unfoldable pub in_range : (nxt : Text → Option CharRead) → Text → (c1 ch : ℕ) → Option (Option Text)
in_range nxt pat c1 ch = do
  second ← advance pat 1
  (len, c2) ← nxt second
  if leb c1 ch && leb ch c2 then some none else (do next ← advance second len; some (some next))

-- One round of the loop of `utl_pmx_isin`: the answer, or the pattern to go on from.
unfoldable pub isin_round : (nxt : Text → Option CharRead) → Text → (ch : ℕ) → Option (Option Text)
isin_round nxt pat ch = do
  (len, c1) ← nxt pat
  if ch == c1 then some none else (do
    pat' ← advance pat len
    c ← peek pat'
    if c == b'-' then in_range nxt pat' c1 ch else some (some pat'))

-- `utl_pmx_isin`; `none` also where the fuel runs out.
unfoldable pub isin :
    (fuel : ℕ) → (nxt : Text → Option CharRead) → (pat pat_end : Text) → (ch : ℕ) → Option Bool
isin zero nxt pat pat_end ch = none
isin (suc fuel) nxt pat pat_end ch = elim (is_before pat pat_end) [
  | false ↦ some false
  | true ↦ elim (isin_round nxt pat ch) [
    | none ↦ none
    | some none ↦ some true
    | some (some next) ↦ isin fuel nxt next pat_end ch
  ]
]

-- The loop of `utl_pmx_iscapt`: the bytes that agree, and whether the capture's end was reached.
unfoldable pub same_capt : (cap cap_end txt : Text) → (len : ℕ) → Option (ℕ × Bool)
same_capt [] cap_end txt len = if is_before [] cap_end then none else some (len, true)
same_capt (c ∷ cap) cap_end [] len =
    if is_before (c ∷ cap) cap_end
    then (if c == 0 then some (len, false) else none)
    else some (len, true)
same_capt (c ∷ cap) cap_end (t ∷ txt) len =
    let rest = same_capt cap cap_end txt (len + 1) in
    if is_before (c ∷ cap) cap_end
    then if not (c == 0) && c == t then rest else some (len, false)
    else some (len, true)

unfoldable pub compare_capt : (start end_at : Option Text) → Text → Option ℕ
compare_capt none end_at txt = some 0
compare_capt (some cap) none txt = some 0
compare_capt (some cap) (some cap_end) txt = do
  (len, whole) ← same_capt cap cap_end txt 0
  some (if whole then len else 0)

unfoldable pub iscapt : Pmx → (pat txt : Text) → Option ℕ
iscapt x pat txt = do
  c ← peek pat
  if leb b'1' c && leb c b'9' && ltb (c - b'0') x.capnum
      then (do
        start ← pmxstart x (c - b'0')
        end_at ← pmxend x (c - b'0')
        compare_capt start end_at txt)
      else some 0
