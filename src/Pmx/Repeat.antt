-- ===== src/Pmx/Repeat.antt =====
-- A class that asks for one character, as `<2-4l>`: how many characters it takes.
use clibutl.Prelude.{
  ℕ, zero, suc, ◌+◌, ◌<◌, ◌≡◌, ◌∙◌, refl, sym, ap, Bool, true, false, [], ◌∷◌, ◌&&◌, none, some,
  length, ltb, ◌==◌, ==_iff, if◌then◌else◌, Bool-cases, inl, inr, arith,
}
use clibutl.Pmx.Store.{Text, Pmx, peek, advance}
use clibutl.Pmx.Times.{Times, past_close}
use clibutl.Pmx.Literal.{has_nul, nextch-byte}
use clibutl.Pmx.Class.{
  Outside, tested, differ, match_times, char_class, letter_test, Classed, classed, match_letter,
  class_done, class_letter,
}

-- From count `n` on: characters that the class takes (or, with `inv`, does not take), up to `max_n`,
-- and not the NUL.
unfoldable pub span : (p : ℕ → Bool) → (inv : Bool) → (max_n n : ℕ) → Text → ℕ × Text
span p inv max_n n [] = (n, [])
span p inv max_n n (t ∷ txt) =
    let rest = span p inv max_n (n + 1) txt in
    if t == 0 then (n, t ∷ txt) else if differ (p t) inv && ltb n max_n then rest else (n, t ∷ txt)

abbrev with_state : Pmx → ℕ × Text → ℕ × Text × Pmx
with_state x (n, txt) = (n, txt, x)

module _ (o : Outside) (letter : ℕ) (p : ℕ → Bool)
    (takes : (ch : ℕ) → char_class o letter ch ≡ some (p ch)) where
  letter_test_lem :
      (x : Pmx) (txt : Text) (len ch : ℕ)
      → letter_test o letter x txt len ch ≡ some (tested (p ch) len x)
  unfolding letter_test
  letter_test_lem x txt len ch = rw (takes ch) refl

  match_times-span :
      (fuel : ℕ) (inv : Bool) (max_n n : ℕ) (x : Pmx) (txt : Text)
      → x.utf8 ≡ false
      → has_nul txt ≡ true
      → length txt < fuel
      → match_times fuel (letter_test o letter) inv max_n n x txt
        ≡ some (with_state x (span p inv max_n n txt))
  unfolding match_times span advance
  match_times-span zero inv max_n n x txt byte nul lt = absurd (omega arith)
  match_times-span (suc fuel) inv max_n n x [] byte nul lt = cc
  match_times-span (suc fuel) inv max_n n x (t ∷ txt) byte nul lt =
      let read = nextch-byte x.utf8 t txt byte in
      elim (Bool-cases (t == 0)) [
        | inl last ↦ rw (read, last, match_times) refl
        | inr more ↦ elim (Bool-cases (differ (p t) inv && ltb n max_n)) [
          | inl again ↦
              rw (read, more, match_times)
                (rw (letter_test_lem x (t ∷ txt) 1 t) (
                  rw again (
                    match_times-span fuel inv max_n (n + 1) x txt byte (ground arith)
                      (omega arith))))
          | inr over ↦
              rw (read, more, match_times) (rw (letter_test_lem x (t ∷ txt) 1 t) (rw over refl))
        ]
      ]

  -- The letter is none of those that `utl_pmx_class` treats in another way.
  other_letter : (s : ℕ) → char_class o s 0 ≡ none → (letter == s) ≡ false
  other_letter s h = elim (Bool-cases (letter == s)) [
    | inl same ↦
        let e : letter ≡ s = (==_iff letter s).0 same in
        let taken : char_class o s 0 ≡ some (p 0) = ap (λ k. char_class o k 0) (sym e) ∙ takes 0 in
        cc
    | inr other ↦ other
  ]

  other_letters :
      ((letter == b'=') ≡ false)
      × ((letter == b'#') ≡ false)
      × ((letter == b'L') ≡ false)
      × ((letter == b'N') ≡ false)
      × ((letter == b'Q') ≡ false)
      × ((letter == b'B') ≡ false)
      × ((letter == b'I') ≡ false)
      × ((letter == b'C') ≡ false)
      × ((letter == b'$') ≡ false)
      × ((letter == b'>') ≡ false)
      × ((letter == b'^') ≡ false)
      × ((letter == b':') ≡ false)
  unfolding char_class
  other_letters = (
    other_letter b'=' refl,
    other_letter b'#' refl,
    other_letter b'L' refl,
    other_letter b'N' refl,
    other_letter b'Q' refl,
    other_letter b'B' refl,
    other_letter b'I' refl,
    other_letter b'C' refl,
    other_letter b'$' refl,
    other_letter b'>' refl,
    other_letter b'^' refl,
    other_letter b':' refl,
  )

  match_letter-span :
      (fuel : ℕ) (pat pat_end : Text) (inv : Bool) (t : Times) (x : Pmx) (txt : Text)
      → x.utf8 ≡ false
      → has_nul txt ≡ true
      → length txt < fuel
      → match_letter fuel o letter pat pat_end inv t x txt
        ≡ some (some (with_state x (span p inv t.max_n 0 txt)))
  unfolding match_letter
  match_letter-span fuel pat pat_end inv t x txt byte nul lt =
      let (e0, e1, e2, e3, e4, e5, e6, e7, e8, e9, e10, e11) = other_letters in
      rw (e0, e1, e2, e3, e4, e5, e6, e7, e8, e9, e10, e11, match_letter)
        (rw (takes 0) (rw (match_times-span fuel inv t.max_n 0 x txt byte nul lt) refl))

  -- What a class leaves: where enough characters were taken it goes on behind them, and else the text
  -- stays; the pattern goes on behind the class.
  abbrev pub Taken : Times → (pat txt : Text) → Pmx → ℕ × Text → Classed
  Taken t pat txt x (n, rest) =
      if ltb n t.min_n then classed false pat txt x else classed true pat rest x

  -- The part of `utl_pmx_class` behind the times and the `!`, for a letter that asks for one
  -- character, on bytes: it takes as many characters as the class allows in a row, `max_n` at most,
  -- and succeeds exactly when these are `min_n` or more. The state stays as it was.
  pub class_letter-span :
      (fuel : ℕ) (start pat pat_end after txt : Text) (inv : Bool) (t : Times) (x : Pmx)
      → x.utf8 ≡ false
      → has_nul txt ≡ true
      → length txt < fuel
      → past_close pat_end ≡ some after
      → class_letter fuel o x start (letter ∷ pat) pat_end txt t inv
        ≡ some (Taken t after txt x (span p inv t.max_n 0 txt))
  unfolding class_letter class_done peek advance
  class_letter-span fuel start pat pat_end after txt inv t x byte nul lt closed =
      let (e0, e1, e2, e3, e4, e5, e6, e7, e8, e9, e10, e11) = other_letters in
      let matched = match_letter-span fuel pat pat_end inv t x txt byte nul lt in
      rw (e9, class_letter) (rw matched (rw closed refl))
