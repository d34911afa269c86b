-- ===== src/Pmx/Match.antt =====
-- `utl_pmx_match`, `utl_pmx_search` and `utl_pmx_scan`: the matcher as a machine that steps through
-- a pattern and a text.
use clibutl.Prelude.{
  ℕ, zero, suc, ◌+◌, ◌-◌, Bool, true, false, ◌++◌, Option, none, some, length, take, replicate, ltb,
  ◌==◌, if◌then◌else◌,
}
use clibutl.Prelude.Fault.{◌>>=◌}
use clibutl.Utf.Classes.{utlfoldchar}
use clibutl.Pmx.Store.{
  Text, Pmx, Level, Capture, peek, advance, set_paterror, newcap, state_reset, state_push,
  state_pop, state_top, set_top, set_capt, pmxstart,
}
use clibutl.Pmx.Chars.{nextch}
use clibutl.Pmx.Class.{Outside, pmx_class}
use clibutl.Pmx.Alt.{alt_skip, alt}

-- The variables of the loop: `inv` keeps its value from one group to the next.
pub record Machine : Type 0 where
  pub pat : Text
  pub txt : Text
  pub inv : Bool
  pub x : Pmx

abbrev pub machine : Text → Text → Bool → Pmx → Machine
machine pat txt inv x = record { pat = pat; txt = txt; inv = inv; x = x }

-- A round of the switch: go on, or the jump to `fail` with the pattern and text of that moment.
pub data Stepped : Type 0 where
  next : Machine → Stepped
  failed : Machine → Stepped

-- case '('
unfoldable pub step_open : Machine → Option Stepped
step_open m = do
  after ← advance m.pat 1
  c ← peek after
  pat ← (if c == b'|' then advance after 1 else some after)
  let inv : Bool = if c == b'|' then true else m.inv
  let (done, x) = state_push m.x pat m.txt 1 1 inv
  some (next (machine pat m.txt inv (if done then x else set_paterror x pat)))

-- case ')', behind the test of the stack, for the top of the stack `l`.
unfoldable pub step_matched : Machine → (pat : Text) → Level → Option Stepped
step_matched m pat l =
    if l.inv
    then some (failed (machine pat m.txt true (state_pop m.x).1))
    else if ltb (suc l.n) l.max_n
    then (do
      x ← set_top m.x (record l { n = suc l.n })
      x' ← set_capt x l.cap (some m.txt, some m.txt)
      some (next (machine l.pat m.txt false x')))
    else (do
      x ← set_capt m.x l.cap (some l.txt, some m.txt)
      some (next (machine pat m.txt false (state_pop x).1)))

unfoldable pub step_close : Machine → Option Stepped
step_close m = do
  pat ← advance m.pat 1
  if ltb (length m.x.stack) 2
      then some (next (machine pat m.txt m.inv (set_paterror m.x m.pat)))
      else (do l ← state_top m.x; step_matched m pat l)

-- case '<'
unfoldable pub step_class : (fuel : ℕ) → Outside → Machine → Option Stepped
step_class fuel o m = do
  r ← pmx_class fuel o m.x m.pat m.txt
  let m' = machine r.pat r.txt m.inv r.x
  some (if r.ok then next m' else failed m')

-- The character that the pattern asks for, and the bytes it takes there: case '%' and the default.
unfoldable pub wanted : (utf8 : Bool) → Text → Option (ℕ × ℕ)
wanted utf8 pat = do
  c ← peek pat
  second ← (if c == b'%' then (do after ← advance pat 1; peek after) else some 0)
  (plen, c1) ←
      (if second == 0
        then some (0, 0)
        else (do after ← advance pat 1; (len, ch) ← nextch utf8 after; some (1 + len, ch)))
  if c1 == 0 then nextch utf8 pat else some (plen, c1)

-- Equality of the two characters, folded where case does not matter.
unfoldable pub same_char : (csens : Bool) → (ch c1 : ℕ) → Bool
same_char true ch c1 = ch == c1
same_char false ch c1 = utlfoldchar ch == utlfoldchar c1

unfoldable pub step_char : Machine → Option Stepped
step_char m = do
  (plen, c1) ← wanted m.x.utf8 m.pat
  (len, ch) ← nextch m.x.utf8 m.txt
  if same_char m.x.csens ch c1
      then (do
        txt ← advance m.txt len
        pat ← advance m.pat plen
        some (next (machine pat txt m.inv m.x)))
      else some (failed m)

-- The switch on the first character of the pattern.
unfoldable pub step : (fuel : ℕ) → Outside → Machine → Option Stepped
step fuel o m = do
  c ← peek m.pat
  if c == b'('
      then step_open m
      else if c == b'|'
      then (do (pat, x) ← alt_skip fuel m.x m.pat 0; some (next (machine pat m.txt m.inv x)))
      else if c == b')'
      then step_close m
      else if c == b'<'
      then step_class fuel o m
      else step_char m

-- The label `fail`: an alternative, or no capture where there is none.
unfoldable pub resume : (fuel : ℕ) → Machine → Option Machine
resume fuel m = do
  r ← alt fuel m.x m.pat m.txt 0
  c ← peek r.pat
  some (machine r.pat r.txt m.inv (if c == 0 then record (r.x) { capnum = 0 } else r.x))

-- One round of the loop.
unfoldable pub round : (fuel : ℕ) → Outside → Machine → Option Machine
round fuel o m = do s ← step fuel o m; elim s [ next m' ↦ some m' | failed m' ↦ resume fuel m' ]

-- while (*pat) ...; the fuel of the loop also serves the loops inside.
unfoldable pub match_loop : (fuel : ℕ) → Outside → Machine → Option Machine
match_loop zero o m = none
match_loop (suc fuel) o m = elim (peek m.pat) [
  | none ↦ none
  | some c ↦ elim (c == 0) [
    | true ↦ some m
    | false ↦ elim (round fuel o m) [ none ↦ none | some m' ↦ match_loop fuel o m' ]
  ]
]

-- The captures behind `capnum` are cleared.
abbrev pub no_capture : Capture
no_capture = (none, none)

unfoldable pub clear_captures : Pmx → Pmx
clear_captures x = record x {
  capt = take x.capnum x.capt ++ replicate (length x.capt - x.capnum) no_capture;
}

-- What `utl_pmx_match` returns: the start of capture 0, and the state.
abbrev pub Result : Type 0
Result = Option Text × Pmx

-- Behind the loop: the end of capture 0, and the result.
unfoldable pub finish : Machine → Option Result
finish m = do
  start ← pmxstart m.x 0
  ended ← set_capt m.x 0 (start, some m.txt)
  r ← pmxstart (clear_captures ended) 0
  some (r, clear_captures ended)

-- The machine that the loop begins with.
unfoldable pub first_machine : Pmx → (pat txt : Text) → Machine
unfolding state_reset state_push newcap
first_machine x pat txt = machine pat txt false (state_push (state_reset x) pat txt 1 1 false).1

unfoldable pub pmx_match : (fuel : ℕ) → Outside → Pmx → (pat txt : Text) → Option Result
pmx_match fuel o x pat txt = do m ← match_loop fuel o (first_machine x pat txt); finish m
