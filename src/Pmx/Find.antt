-- ===== src/Pmx/Find.antt =====
-- `utl_pmx_search` for a pattern of plain characters finds the first place where it stands.
use clibutl.Prelude.{
  ℕ, zero, suc, ◌+◌, ◌<◌, ◌≡◌, ◌≢◌, ◌⊎◌, refl, true, false, [], ◌∷◌, ◌++◌, Option, none, some,
  length, ◌==◌, if◌then◌else◌, Bool-cases, inl, inr, arith,
}
use clibutl.Prelude.Fault.{Ends, Ends-some, Ends-map}
use clibutl.Pmx.Store.{Text, Pmx, max_capt, peek, advance, pmxstart, pmxend}
use clibutl.Pmx.Class.{Outside}
use clibutl.Pmx.Match.{Result, pmx_match}
use clibutl.Pmx.Search.{behind_prefix, set_up, next_place, search_loop, pmx_search}
use clibutl.Pmx.Literal.{all_plain, has_nul, behind}
use clibutl.Pmx.Anchored.{IsReady, match-literal}

-- The first place, up to the NUL, where the text goes on with `lit`.
unfoldable pub find : (lit txt : Text) → Option Text
find lit [] = none
find lit (t ∷ txt) =
    let rest = find lit txt in
    elim (behind lit (t ∷ txt)) [
      | some after ↦ some (t ∷ txt)
      | none ↦ if t == 0 then none else rest
    ]

-- What the search returns: the place, with the literal there as capture 0 and the only one.
abbrev pub FindsLiteral : (lit txt : Text) → Result → Type 0
FindsLiteral lit txt (r, x) =
    ((find lit txt ≡ none) × (r ≡ none) × (x.capnum ≡ 0))
    ⊎ ((place : Text) × (after : Text) × (find lit txt ≡ some place)
        × (r ≡ some place)
        × (behind lit place ≡ some after)
        × (pmxstart x 0 ≡ some (some place))
        × (pmxend x 0 ≡ some (some after)))

next_place-byte :
    (x : Pmx) (t : ℕ) (txt : Text) → x.utf8 ≡ false → next_place x (t ∷ txt) ≡ some txt
unfolding next_place advance
next_place-byte x t txt byte = ground arith

module _ (inner : ℕ) (o : Outside) (lit : Text) (plain : all_plain lit ≡ true)
    (enough : length lit + 2 < inner) where
  search_loop-literal :
      (fuel : ℕ) (x : Pmx) (txt : Text)
      → IsReady x
      → has_nul txt ≡ true
      → length txt < fuel
      → Ends (search_loop fuel inner o x (lit ++ (0 ∷ [])) txt false) (FindsLiteral lit txt)
  unfolding search_loop find peek
  search_loop-literal zero x txt ready nul lt = absurd (omega arith)
  search_loop-literal (suc fuel) x [] ready nul lt = cc
  search_loop-literal (suc fuel) x (t ∷ txt) ready nul lt =
      let ((r, x'), matched, (outcome, ready')) =
        Ends-some (pmx_match inner o x (lit ++ (0 ∷ [])) (t ∷ txt)) _
          (match-literal inner o x lit (t ∷ txt) ready plain nul enough) in
      elim outcome [
        | inl (after, found, place, start, ended, one) ↦
            rw (matched, place, search_loop, Ends)
              (inr (t ∷ txt, after, rw (found, find) refl, refl, found, start, ended))
        | inr (missing, null, zero_left) ↦ elim (Bool-cases (t == 0)) [
          | inl last ↦
              rw (matched, null, last, search_loop, Ends)
                (inl (rw (missing, last, find) refl, refl, zero_left))
          | inr more ↦
              let left : has_nul txt ≡ true = ground arith in
              let moved = next_place-byte x' t txt ready'.bytes in
              let same : find lit (t ∷ txt) ≡ find lit txt = rw (missing, more, find) refl in
              rw (matched, null, more, moved, search_loop)
                (Ends-map (FindsLiteral lit txt) (FindsLiteral lit (t ∷ txt))
                  (search_loop fuel inner o x' (lit ++ (0 ∷ [])) txt false) (λ r h. rw same h)
                  (search_loop-literal fuel x' txt ready' left (omega arith)))
        ]
      ]

-- What begins a pattern for the encoding or the anchor does not begin a plain one.
set_up-plain :
    (x : Pmx) (lit : Text)
    → all_plain lit ≡ true
    → set_up x (lit ++ (0 ∷ [])) ≡ (lit ++ (0 ∷ []), record x { error = none; csens = true })
unfolding set_up behind_prefix
set_up-plain x [] plain = refl
set_up-plain x (c ∷ lit) plain = ground arith

-- A literal that the search does not take for an anchor.
abbrev pub IsLiteral : Text → Type 0
IsLiteral [] = ⊥
IsLiteral (c ∷ lit) = (c ≢ b'^') × (all_plain (c ∷ lit) ≡ true)

-- `utl_pmx_search` with a plain pattern, not empty and not beginning with '^', on bytes: it returns
-- the first place of the text where the literal stands, with the literal there as capture 0, or NULL
-- where the text has none. It reads nothing behind the NUL of either, and the fuel stated is enough.
pub pmx_search-find :
    (fuel inner : ℕ) (o : Outside) (x : Pmx) (lit txt : Text)
    → x.utf8 ≡ false
    → length x.capt ≡ max_capt
    → IsLiteral lit
    → has_nul txt ≡ true
    → length lit + 2 < inner
    → length txt < fuel
    → Ends (pmx_search fuel inner o x (lit ++ (0 ∷ [])) txt false) (FindsLiteral lit txt)
unfolding pmx_search peek
pmx_search-find fuel inner o x [] txt byte slots h nul enough lt = elim h [ ]
pmx_search-find fuel inner o x (c ∷ lit) txt byte slots (ne, plain) nul enough lt =
    let up = set_up-plain x (c ∷ lit) plain in
    let no_anchor : (c == b'^') ≡ false = ground arith in
    rw (up, no_anchor, pmx_search)
      (search_loop-literal inner o (c ∷ lit) plain enough fuel
        (record x { error = none; csens = true }) txt
        (record { bytes = byte; exact = refl; slots = slots }) nul lt)
