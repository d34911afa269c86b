-- ===== src/Pmx/Alt.antt =====
-- `utl_pmx_alt_skip` and `utl_pmx_alt`: from a place in a pattern to the end of its group, or to
-- the next alternative.
use clibutl.Prelude.{
  ℕ, zero, suc, ◌+◌, ◌-◌, true, false, [], ◌∷◌, Option, none, some, length, leb, ltb, ◌==◌,
  if◌then◌else◌,
}
use clibutl.Prelude.Fault.{◌>>=◌}
use clibutl.Pmx.Store.{
  Text, Pmx, peek, advance, set_paterror, newcap, state_pop, state_top, set_capt, pmxstart,
}
use clibutl.Pmx.Times.{to_close, past_close}

-- case '%': the next character, if there is one.
unfoldable pub skip_escaped : Text → Option Text
skip_escaped pat = do c ← peek pat; if c == 0 then some pat else advance pat 1

-- case '<': behind the class.
unfoldable pub skip_class : Text → Option Text
skip_class pat = do at_end ← to_close pat; past_close at_end

-- `utl_pmx_alt_skip`: each round reads one character at least.
unfoldable pub alt_skip : (fuel : ℕ) → Pmx → Text → (paren : ℕ) → Option (Text × Pmx)
alt_skip zero x pat paren = none
alt_skip (suc fuel) x [] paren = none
alt_skip (suc fuel) x (c ∷ pat) paren = elim (c == 0) [
  | true ↦ some (c ∷ pat, x)
  | false ↦ elim (c == b'%') [
    | true ↦ elim (skip_escaped pat) [ none ↦ none | some pat' ↦ alt_skip fuel x pat' paren ]
    | false ↦ elim (c == b'(') [
      | true ↦ alt_skip fuel (newcap x none) pat (paren + 1)
      | false ↦ elim (c == b')') [
        | true ↦ elim (paren == 0) [
          | true ↦ some (c ∷ pat, x)
          | false ↦ alt_skip fuel x pat (paren - 1)
        ]
        | false ↦ elim (c == b'<') [
          | true ↦ elim (skip_class pat) [ none ↦ none | some pat' ↦ alt_skip fuel x pat' paren ]
          | false ↦ alt_skip fuel x pat paren
        ]
      ]
    ]
  ]
]

-- `newcap(NULL)` and the pointers that a group's end or a '|' gives: the pattern to go on from, the
-- text, and the state.
pub record Resumed : Type 0 where
  pub pat : Text
  pub txt : Text
  pub x : Pmx

abbrev pub resumed : Text → Text → Pmx → Resumed
resumed pat txt x = record { pat = pat; txt = txt; x = x }

-- case ')' of `utl_pmx_alt`, outside inner groups and with two levels at least. `pat` is behind the
-- parenthesis. An inner `none` says that the search goes
-- on. A capture that starts at NULL cannot be gone back to.
unfoldable pub close_failed : Pmx → (pat txt : Text) → Option (Option Resumed)
close_failed x pat txt = do
  l ← state_top x
  if l.inv
      then (do
        start ← pmxstart x l.cap
        at_start ← start
        some (some (resumed pat at_start (state_pop x).1)))
      else if leb l.min_n l.n
      then (do
        x' ← set_capt x l.cap (some l.txt, some txt)
        some (some (resumed pat txt (state_pop x').1)))
      else some none

-- case '|', outside inner groups.
unfoldable pub next_alternative : Pmx → (pat : Text) → Option Resumed
next_alternative x pat = do
  l ← state_top x
  start ← pmxstart x l.cap
  at_start ← start
  some (resumed pat at_start x)

-- `utl_emptystring`
abbrev pub empty_string : Text
empty_string = 0 ∷ []

unfoldable pub alt : (fuel : ℕ) → Pmx → (pat txt : Text) → (paren : ℕ) → Option Resumed
alt zero x pat txt paren = none
alt (suc fuel) x [] txt paren = none
alt (suc fuel) x (c ∷ pat) txt paren = elim (c == 0) [
  | true ↦ some (resumed empty_string txt x)
  | false ↦ elim (c == b'%') [
    | true ↦ elim (skip_escaped pat) [ none ↦ none | some pat' ↦ alt fuel x pat' txt paren ]
    | false ↦ elim (c == b'(') [
      | true ↦ alt fuel (newcap x none) pat txt (paren + 1)
      | false ↦ elim (c == b')') [
        | true ↦ elim (ltb 0 paren) [
          | true ↦ alt fuel x pat txt (paren - 1)
          | false ↦ elim (ltb (length x.stack) 2) [
            | true ↦ alt fuel (set_paterror x pat) pat txt paren
            | false ↦ elim (close_failed x pat txt) [
              | none ↦ none
              | some (some r) ↦ some r
              | some none ↦ alt fuel x pat txt paren
            ]
          ]
        ]
        | false ↦ elim (c == b'<') [
          | true ↦ elim (skip_class pat) [ none ↦ none | some pat' ↦ alt fuel x pat' txt paren ]
          | false ↦ elim (c == b'|') [
            | true ↦ elim (paren == 0) [
              | true ↦ next_alternative x pat
              | false ↦ alt fuel x pat txt paren
            ]
            | false ↦ alt fuel x pat txt paren
          ]
        ]
      ]
    ]
  ]
]
