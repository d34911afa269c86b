-- ===== src/Pmx/Anchored.antt =====
-- A pattern of plain characters: `utl_pmx_match` compares it with the beginning of the text.
use clibutl.Prelude.{
  ℕ, suc, ◌+◌, ◌-◌, ◌<◌, ◌≡◌, ◌∙◌, refl, sym, ap, true, false, List, [], ◌∷◌, ◌++◌, none, some,
  length, length-replicate, ltb, ◌⊎◌, inl, inr, arith,
}
use clibutl.Prelude.Fault.{Ends, Ends-bind}
use clibutl.Pmx.Store.{Text, Pmx, Capture, max_capt, set_capt, pmxstart, pmxend}
use clibutl.Pmx.Class.{Outside}
use clibutl.Pmx.Match.{
  Machine, match_loop, no_capture, clear_captures, Result, finish, first_machine, pmx_match,
}
use clibutl.Pmx.Literal.{all_plain, behind, has_nul, LoopEnds, match_loop-plain}

-- What a match of a plain pattern returns: the place, with the text it covers as capture 0 and the
-- only one, or NULL.
abbrev pub MatchesLiteral : (lit txt : Text) → Result → Type 0
MatchesLiteral lit txt (r, x) =
    ((after : Text) × (behind lit txt ≡ some after)
      × (r ≡ some txt)
      × (pmxstart x 0 ≡ some (some txt))
      × (pmxend x 0 ≡ some (some after))
      × (x.capnum ≡ 1))
    ⊎ ((behind lit txt ≡ none) × (r ≡ none) × (x.capnum ≡ 0))

-- The state for the matcher that a call of it leaves to the next.
pub record IsReady (x : Pmx) : Type 0 where
  pub bytes : x.utf8 ≡ false
  pub exact : x.csens ≡ true
  pub slots : length x.capt ≡ max_capt

-- The end of a match that kept capture 0.
finish-kept :
    (x : Pmx) (cs : List Capture) (lit txt : Text) (m : Machine)
    → IsReady x
    → suc (length cs) ≡ max_capt
    → behind lit txt ≡ some m.txt
    → m.x ≡ record x { capt = (some txt, some txt) ∷ cs; capnum = 1; stack = m.x.stack }
    → Ends (finish m) (λ r. MatchesLiteral lit txt r × IsReady r.1)
unfolding finish pmxstart pmxend set_capt clear_captures
finish-kept x cs lit txt m ready len found e =
    let inside : ltb 0 (suc (length cs)) ≡ true = ground arith in
    rw (e, inside, Ends)
      (
        inl (m.txt, found, refl, refl, refl, refl),
        record {
          bytes = ready.bytes;
          exact = ready.exact;
          slots = omega (arith, length-replicate (suc (length cs) - 1) no_capture, len);
        },
      )

finish-lost :
    (x : Pmx) (cs : List Capture) (lit txt : Text) (m : Machine)
    → IsReady x
    → suc (length cs) ≡ max_capt
    → behind lit txt ≡ none
    → m.x ≡ record x { capt = (some txt, some txt) ∷ cs; capnum = 0; stack = m.x.stack }
    → Ends (finish m) (λ r. MatchesLiteral lit txt r × IsReady r.1)
unfolding finish pmxstart pmxend set_capt clear_captures
finish-lost x cs lit txt m ready len missing e =
    let inside : ltb 0 (suc (length cs)) ≡ true = ground arith in
    let all : suc (length cs) - 0 ≡ suc (length cs) = omega arith in
    rw (e, inside, all, Ends)
      (
        inr (missing, refl, refl),
        record {
          bytes = ready.bytes;
          exact = ready.exact;
          slots = omega (arith, length-replicate (length cs) no_capture, len);
        },
      )

first_slot :
    (xs : List Capture) → length xs ≡ max_capt → (c : Capture) × (cs : List Capture) × (xs ≡ c ∷ cs)
first_slot [] h = absurd (omega arith)
first_slot (c ∷ cs) h = (c, cs, refl)

finished :
    (x : Pmx) (lit txt : Text) (m : Machine)
    → IsReady x
    → LoopEnds (first_machine x (lit ++ (0 ∷ [])) txt).x lit txt m
    → Ends (finish m) (λ r. MatchesLiteral lit txt r × IsReady r.1)
unfolding first_machine
finished x lit txt m ready (inl (found, same)) =
    let (c, cs, e) = first_slot x.capt ready.slots in
    finish-kept x cs lit txt m ready (ap length (sym e) ∙ ready.slots) found (rw same (rw e refl))
finished x lit txt m ready (inr (missing, same)) =
    let (c, cs, e) = first_slot x.capt ready.slots in
    finish-lost x cs lit txt m ready (ap length (sym e) ∙ ready.slots) missing (rw same (rw e refl))

-- `utl_pmx_match` of a plain pattern compares it with the beginning of the text: where the text
-- begins with it, the result is the text, and capture 0, the only one, ends behind the literal; else
-- the result is NULL.
pub match-literal :
    (fuel : ℕ) (o : Outside) (x : Pmx) (lit txt : Text)
    → IsReady x
    → all_plain lit ≡ true
    → has_nul txt ≡ true
    → length lit + 2 < fuel
    → Ends (pmx_match fuel o x (lit ++ (0 ∷ [])) txt) (λ r. MatchesLiteral lit txt r × IsReady r.1)
unfolding pmx_match first_machine
match-literal fuel o x lit txt ready plain nul lt =
    Ends-bind (LoopEnds (first_machine x (lit ++ (0 ∷ [])) txt).x lit txt)
      (λ r. MatchesLiteral lit txt r × IsReady r.1)
      (match_loop fuel o (first_machine x (lit ++ (0 ∷ [])) txt)) finish
      (match_loop-plain fuel o (first_machine x (lit ++ (0 ∷ [])) txt).x lit txt ready.bytes
        ready.exact plain nul lt)
      (λ m e. finished x lit txt m ready e)
