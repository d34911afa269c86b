-- ===== src/Pmx/Class.antt =====
-- `utl_pmx_class`: what stands between `<` and `>`, matched a number of times.
use clibutl.Prelude.{
  ℕ, zero, suc, ◌+◌, Bool, true, false, not, [], ◌∷◌, ◌&&◌, ◌||◌, Option, none, some, ltb, ◌==◌,
  if◌then◌else◌,
}
use clibutl.Prelude.Fault.{◌>>=◌}
use clibutl.Utf.Classes.{
  utlisalpha, utlisupper, utlislower, utlisdigit, utlisalnum, utlisblank, utlisctype,
}
use clibutl.Pmx.Store.{Text, Pmx, peek, advance, set_paterror, state_push}
use clibutl.Pmx.Chars.{CharRead, nextch, gethex, isin, iscapt}
use clibutl.Pmx.Delim.{delimited}
use clibutl.Pmx.Times.{past_close, class_end, Times, class_times}

-- What the matcher calls and does not implement: the C library's classes, and the function that
-- `utl_pmx_extend` installs, with its arguments pattern, text, length and character.
pub record Outside : Type 0 where
  pub isspace : ℕ → Bool
  pub isblank : ℕ → Bool
  pub isxdigit : ℕ → Bool
  pub iscntrl : ℕ → Bool
  pub isgraph : ℕ → Bool
  pub ispunct : ℕ → Bool
  pub isprint : ℕ → Bool
  pub ext : Option (Text → Text → ℕ → ℕ → ℕ)

-- The outcome of a test `tst` in `utl_W`: whether it holds, and the length that it leaves in `len`.
pub record Tested : Type 0 where
  pub holds : Bool
  pub len : ℕ
  pub x : Pmx

abbrev pub tested : Bool → ℕ → Pmx → Tested
tested holds len x = record { holds = holds; len = len; x = x }

abbrev pub Test : Type 0
Test = Pmx → Text → (len ch : ℕ) → Option Tested

-- (!tst) == inv
abbrev pub differ : Bool → Bool → Bool
differ true inv = not inv
differ false inv = inv

-- `utl_W`: the number of matches, and the text behind them.
unfoldable pub match_times :
    (fuel : ℕ) → Test → (inv : Bool) → (max_n n : ℕ) → Pmx → Text → Option (ℕ × Text × Pmx)
match_times zero tst inv max_n n x txt = none
match_times (suc fuel) tst inv max_n n x txt = elim (nextch x.utf8 txt) [
  | none ↦ none
  | some (zero, ch) ↦ some (n, txt, x)
  | some (suc l, ch) ↦ elim (tst x txt (suc l) ch) [
    | none ↦ none
    | some t ↦ elim (differ t.holds inv && ltb n max_n) [
      | false ↦ some (n, txt, t.x)
      | true ↦ elim (advance txt t.len) [
        | none ↦ none
        | some txt' ↦ match_times fuel tst inv max_n (n + 1) t.x txt'
      ]
    ]
  ]
]

-- The classes that ask for one character only.
unfoldable pub char_class : Outside → (letter ch : ℕ) → Option Bool
char_class o letter ch =
    if letter == b'a'
    then some (utlisalpha ch)
    else if letter == b's'
    then some (utlisctype o.isspace ch)
    else if letter == b'u'
    then some (utlisupper ch)
    else if letter == b'l'
    then some (utlislower ch)
    else if letter == b'd'
    then some (utlisdigit ch)
    else if letter == b'k'
    then some (utlisblank o.isblank ch)
    else if letter == b'x'
    then some (utlisctype o.isxdigit ch)
    else if letter == b'w'
    then some (utlisalnum ch)
    else if letter == b'c'
    then some (utlisctype o.iscntrl ch)
    else if letter == b'g'
    then some (utlisctype o.isgraph ch)
    else if letter == b'p'
    then some (utlisctype o.ispunct ch)
    else if letter == b'r'
    then some (utlisctype o.isprint ch)
    else if letter == b'i'
    then some (ltb ch 0x80)
    else if letter == b'.'
    then some (not (ch == 0) && not (ch == b'\n'))
    else none

unfoldable pub letter_test : Outside → (letter : ℕ) → Test
letter_test o letter x txt len ch = do r ← char_class o letter ch; some (tested r len x)

-- case 'N': a line end, of which CR LF makes `len` one longer.
unfoldable pub newline_test : Test
newline_test x txt len ch = do
  c ← peek txt
  if c == b'\r'
      then (do
        after ← advance txt 1
        c' ← peek after
        some (tested true (if c' == b'\n' then len + 1 else len) x))
      else some (tested (c == b'\n') len x)

-- `len = ...` as the test: it holds where the length is not 0.
abbrev pub length_test : ℕ → Pmx → Tested
length_test len x = tested (ltb 0 len) len x

unfoldable pub delimited_test : (fuel : ℕ) → (pat pat_end : Text) → (braced : Bool) → Test
delimited_test fuel pat pat_end braced x txt len ch = do
  (n, x') ← delimited fuel x pat pat_end txt braced
  some (length_test n x')

unfoldable pub isin_test : (fuel : ℕ) → (Text → Option CharRead) → (pat pat_end : Text) → Test
isin_test fuel nxt pat pat_end x txt len ch = do
  r ← isin fuel nxt pat pat_end ch
  some (tested r len x)

unfoldable pub capt_test : (pat : Text) → Test
capt_test pat x txt len ch = do n ← iscapt x pat txt; some (length_test n x)

unfoldable pub ext_test : (Text → Text → ℕ → ℕ → ℕ) → (pat : Text) → Test
ext_test ext pat x txt len ch = some (length_test (ext pat txt len ch) x)

-- case 'L': the rest of the line; what follows it stays, as `*txt` is not both CR and LF.
unfoldable pub line_rest : Text → Option Text
line_rest [] = none
line_rest (c ∷ s) =
    let rest = line_rest s in
    if c == 0 || (c == b'\r' || c == b'\n')
    then some (if c == b'\r' && c == b'\n' then s else c ∷ s)
    else rest

-- The number of matches, the text behind them and the state; the outer `none` is a fault, the inner
-- one the early return of case '>'.
abbrev pub Matched : Type 0
Matched = Option (ℕ × Text × Pmx)

abbrev pub counted : Option (ℕ × Text × Pmx) → Option Matched
counted none = none
counted (some r) = some (some r)

-- The switch on the letter. `pat` stands on it, with its times read and `inv` taken off.
unfoldable pub match_letter :
    (fuel : ℕ)
    → Outside
    → (letter : ℕ) → (pat pat_end : Text) → (inv : Bool) → Times
    → Pmx
    → Text
    → Option Matched
match_letter fuel o letter pat pat_end inv t x txt =
    if letter == b'='
    then counted (match_times fuel (isin_test fuel (nextch x.utf8) pat pat_end) inv t.max_n 0 x txt)
    else if letter == b'#'
    then counted
        (match_times fuel (isin_test fuel (gethex o.isxdigit) pat pat_end) inv t.max_n 0 x txt)
    else if letter == b'L'
    then (do rest ← line_rest txt; some (some (1, rest, x)))
    else if letter == b'N'
    then counted (match_times fuel newline_test inv t.max_n 0 x txt)
    else if letter == b'Q'
    then counted (match_times fuel (delimited_test fuel pat pat_end false) inv t.max_n 0 x txt)
    else if letter == b'B'
    then counted (match_times fuel (delimited_test fuel pat pat_end true) inv t.max_n 0 x txt)
    else if letter == b'I'
    then some (some (t.min_n, txt, record x { csens = false }))
    else if letter == b'C'
    then some (some (t.min_n, txt, record x { csens = true }))
    else if letter == b'$'
    then (do c ← peek txt; some (some ((if c == 0 then t.min_n else 0), txt, x)))
    else if letter == b'>'
    then some none
    else if letter == b'^'
    then counted (
        match_times fuel (capt_test pat) false t.max_n 0
          (if inv then set_paterror x (letter ∷ pat) else x) txt)
    else if letter == b':'
    then elim (o.ext) [
      | none ↦ some (some (0, txt, x))
      | some ext ↦ counted (match_times fuel (ext_test ext pat) inv t.max_n 0 x txt)
    ]
    else elim (char_class o letter 0) [
      | none ↦ some (some (0, txt, x))
      | some b ↦ counted (match_times fuel (letter_test o letter) inv t.max_n 0 x txt)
    ]

-- What the function leaves: its result, and the two pointers.
pub record Classed : Type 0 where
  pub ok : Bool
  pub pat : Text
  pub txt : Text
  pub x : Pmx

abbrev pub classed : Bool → Text → Text → Pmx → Classed
classed ok pat txt x = record { ok = ok; pat = pat; txt = txt; x = x }

-- `<...>(`, the repetition of a group.
unfoldable pub open_repeated : Pmx → (pat txt : Text) → Times → (inv : Bool) → Classed
open_repeated x pat txt t inv =
    let (done, x') = state_push x pat txt t.min_n t.max_n inv in
    classed true pat txt (if done then x' else set_paterror x' pat)

-- The end of the function, behind the switch: `start` is the '<'.
unfoldable pub class_done : (start pat pat_end txt : Text) → Times → Pmx → Matched → Option Classed
class_done start pat pat_end txt t x none = some (classed false start txt (set_paterror x pat))
class_done start pat pat_end txt t x (some (n, txt', x')) = do
  rest ← past_close pat_end
  some (if ltb n t.min_n then classed false rest txt x' else classed true rest txt' x')

-- The part behind the times and the `!`; `pat` stands on the letter.
unfoldable pub class_letter :
    (fuel : ℕ)
    → Outside
    → Pmx
    → (start pat pat_end txt : Text) → Times
    → (inv : Bool) → Option Classed
class_letter fuel o x start pat pat_end txt t inv = do
  letter ← peek pat
  after ← advance pat 1
  opening ← (if letter == b'>' then peek after else some 0)
  if opening == b'('
      then (do group ← advance after 1; some (open_repeated x group txt t inv))
      else (do
        m ← match_letter fuel o letter after pat_end inv t x txt
        class_done start pat pat_end txt t x m)

unfoldable pub pmx_class : (fuel : ℕ) → Outside → Pmx → (pat txt : Text) → Option Classed
pmx_class fuel o x start txt = do
  pat ← advance start 1
  pat_end ← class_end pat
  t ← class_times pat
  c ← peek t.rest
  letter_at ← (if c == b'!' then advance t.rest 1 else some t.rest)
  class_letter fuel o x start letter_at pat_end txt t (c == b'!')
