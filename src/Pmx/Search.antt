-- ===== src/Pmx/Search.antt =====
-- `utl_pmx_search` and `utl_pmx_scan`: the matcher at one place after another.
use clibutl.Prelude.{
  ℕ, zero, suc, Bool, true, false, [], ◌∷◌, Option, none, some, ◌==◌, if◌then◌else◌,
}
use clibutl.Prelude.Fault.{◌>>=◌}
use clibutl.Utf.Next.{next_utf8}
use clibutl.Pmx.Store.{Text, Pmx, peek, advance, state_reset, pmxend}
use clibutl.Pmx.Class.{Outside}
use clibutl.Pmx.Match.{Result, pmx_match}

-- strncmp(pat,prefix,n) == 0: the pattern behind the prefix.
unfoldable pub behind_prefix : (prefix pat : Text) → Option Text
behind_prefix [] pat = some pat
behind_prefix (p ∷ prefix) [] = none
behind_prefix (p ∷ prefix) (c ∷ pat) = if p == c then behind_prefix prefix pat else none

abbrev pub utf_prefix : Text
utf_prefix = b'<' ∷ b'u' ∷ b't' ∷ b'f' ∷ b'>' ∷ []

abbrev pub iso_prefix : Text
iso_prefix = b'<' ∷ b'i' ∷ b's' ∷ b'o' ∷ b'>' ∷ []

-- The beginning of both functions: no error, case matters, and the encoding that the pattern names.
unfoldable pub set_up : Pmx → (pat : Text) → Text × Pmx
set_up x pat =
    let x' = record x { error = none; csens = true } in
    elim (behind_prefix utf_prefix pat) [
      | some rest ↦ (rest, record x' { utf8 = true })
      | none ↦ elim (behind_prefix iso_prefix pat) [
        | some rest ↦ (rest, record x' { utf8 = false })
        | none ↦ (pat, x')
      ]
    ]

-- txt += utl_pmx_.utf8 ? utlnextutf8(txt) : 1;
unfoldable pub next_place : Pmx → Text → Option Text
next_place x txt = if x.utf8 then (do (len, ch) ← next_utf8 txt; advance txt len) else advance txt 1

-- The loop of `utl_pmx_search`; the fuel is for this loop and those of the matcher.
unfoldable pub search_loop :
    (fuel : ℕ) → (inner : ℕ) → Outside → Pmx → (pat txt : Text) → (fromstart : Bool) → Option Result
search_loop zero inner o x pat txt fromstart = none
search_loop (suc fuel) inner o x pat txt fromstart = elim (pmx_match inner o x pat txt) [
  | none ↦ none
  | some (some found, x') ↦ some (some found, x')
  | some (none, x') ↦ elim (peek txt) [
    | none ↦ none
    | some c ↦ elim (if c == 0 then true else fromstart) [
      | true ↦ some (none, x')
      | false ↦ elim (next_place x' txt) [
        | none ↦ none
        | some txt' ↦ search_loop fuel inner o x' pat txt' fromstart
      ]
    ]
  ]
]

unfoldable pub pmx_search :
    (fuel inner : ℕ) → Outside → Pmx → (pat txt : Text) → (fromstart : Bool) → Option Result
pmx_search fuel inner o x pat txt fromstart = do
  let (pat', x') = set_up x pat
  c ← peek pat'
  if c == b'^'
      then (do rest ← advance pat' 1; pmx_match inner o x' rest txt)
      else search_loop fuel inner o x' pat' txt fromstart

-- The text behind a match for which the action returned 0.
unfoldable pub behind_match : Pmx → Option Text
behind_match x = do ended ← pmxend x 0; ended

-- The loop of `utl_pmx_scan`; `action` is the client's, and gets the start and the end of a match.
unfoldable pub scan_loop :
    (fuel inner : ℕ)
    → Outside
    → (action : (start ended : Option Text) → Bool) → Pmx
    → (pat txt : Text) → Option (Text × Pmx)
scan_loop zero inner o action x pat txt = none
scan_loop (suc fuel) inner o action x pat txt = elim (peek txt) [
  | none ↦ none
  | some c ↦ elim (c == 0) [
    | true ↦ some (txt, x)
    | false ↦ elim (pmx_match inner o x pat txt) [
      | none ↦ none
      | some (none, x') ↦ elim (next_place x' txt) [
        | none ↦ none
        | some txt' ↦ scan_loop fuel inner o action x' pat txt'
      ]
      | some (some start, x') ↦ elim (behind_match x') [
        | none ↦ none
        | some ended ↦ elim (action (some start) (some ended)) [
          | true ↦ some (txt, x')
          | false ↦ scan_loop fuel inner o action x' pat ended
        ]
      ]
    ]
  ]
]

unfoldable pub pmx_scan :
    (fuel inner : ℕ)
    → Outside
    → (action : (start ended : Option Text) → Bool) → Pmx
    → (pat txt : Text) → Option (Text × Pmx)
pmx_scan fuel inner o action x pat txt =
    let (pat', x') = set_up x pat in scan_loop fuel inner o action x' pat' txt

-- `utl_pmx_save`: what it copies, and the state that goes on.
unfoldable pub pmx_save : Pmx → Pmx × Pmx
pmx_save x = (x, state_reset x)

unfoldable pub pmx_restore : (saved x : Pmx) → Pmx
pmx_restore saved x = saved
