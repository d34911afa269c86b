-- ===== src/Pmx/Stuck.antt =====
-- src/utl_pmx.c: loops of `utl_pmx_isin` and `utl_pmx_scan` that do not end, whatever the fuel.
use clibutl.Prelude.{
  ℕ, zero, suc, ◌+◌, ◌-◌, ◌≡◌, ◌≢◌, ◌∙◌, refl, ap, Bool, true, false, List, [], ◌∷◌, Option, none,
  some, length, ltb, ◌==◌, replicate, length-replicate, arith,
}
use clibutl.Utf.Classes.{utlisdigit}
use clibutl.Pmx.Store.{
  Text, Pmx, Capture, int32_max, peek, advance, newcap, state_reset, state_push, set_capt, pmxstart,
  pmxend,
}
use clibutl.Pmx.Chars.{gethex, gethex_from, hex_digits, isin, isin_round}
use clibutl.Pmx.Times.{
  past_close, to_close, class_end, number, upper_count, sign_count, class_times,
}
use clibutl.Pmx.Class.{
  Outside, char_class, class_letter, match_times, letter_test, match_letter, class_done, pmx_class,
  classed,
}
use clibutl.Pmx.Literal.{nextch-byte}
use clibutl.Pmx.Match.{
  Machine, no_capture, machine, pmx_match, step_class, step, round, match_loop, clear_captures,
  finish, first_machine,
}
use clibutl.Pmx.Search.{behind_match, behind_prefix, set_up, scan_loop, pmx_scan}

gethex-close : (isxdigit : ℕ → Bool) (rest : Text) → gethex isxdigit (b'>' ∷ rest) ≡ some (0, 0)
unfolding gethex gethex_from hex_digits
gethex-close isxdigit rest = refl

round-close :
    (isxdigit : ℕ → Bool) (rest : Text) (ch : ℕ)
    → ch ≢ 0
    → isin_round (gethex isxdigit) (b'>' ∷ b'>' ∷ rest) ch ≡ some (some (b'>' ∷ b'>' ∷ rest))
unfolding isin_round advance peek
round-close isxdigit rest ch ne =
    let other : (ch == 0) ≡ false = ground arith in
    rw (gethex-close isxdigit (b'>' ∷ rest), isin_round) (rw other refl)

-- A list of codes that ends in `>>`, as `<#41>>`: once its codes are compared without success, the
-- loop of `utl_pmx_isin` stays at the first `>` for ever, for every character but NUL.
isin-stuck :
    (fuel : ℕ) (isxdigit : ℕ → Bool) (rest : Text) (ch : ℕ)
    → ch ≢ 0
    → isin fuel (gethex isxdigit) (b'>' ∷ b'>' ∷ rest) (b'>' ∷ rest) ch ≡ none
unfolding isin
isin-stuck zero isxdigit rest ch ne = refl
isin-stuck (suc fuel) isxdigit rest ch ne =
    let longer : ltb (suc (length rest)) (suc (suc (length rest))) ≡ true = ground arith in
    rw (longer, round-close isxdigit rest ch ne, isin) (isin-stuck fuel isxdigit rest ch ne)

-- <*d>
abbrev pub digits_star : Text
digits_star = b'<' ∷ b'*' ∷ b'd' ∷ b'>' ∷ 0 ∷ []

-- The state after `<*d>` has matched the empty text at the beginning of `txt`.
abbrev pub matched_at : Text → Pmx → Pmx
matched_at txt x = record x {
  capt = (some txt, some txt) ∷ replicate (length x.capt - 1) no_capture;
  capnum = 1;
  stack =
      record { pat = digits_star; txt = txt; min_n = 1; max_n = 1; n = 0; inv = false; cap = 0 }
      ∷ [];
}

next_round :
    (fuel : ℕ) (o : Outside) (c : ℕ) (pat txt : Text) (x : Pmx) (m : Machine)
    → (c == 0) ≡ false
    → round fuel o (machine (c ∷ pat) txt false x) ≡ some m
    → match_loop (suc fuel) o (machine (c ∷ pat) txt false x) ≡ match_loop fuel o m
unfolding match_loop peek
next_round fuel o c pat txt x m more stepped = rw (more, stepped, match_loop) refl

-- `<*d>` at a character that is neither NUL nor a digit.
module _ (o : Outside) (t : ℕ) (txt : Text) (more : (t == 0) ≡ false)
    (other : utlisdigit t ≡ false) where
  no_digit :
      (inner max_n : ℕ) (x : Pmx)
      → x.utf8 ≡ false
      → match_times (suc inner) (letter_test o b'd') false max_n 0 x (t ∷ txt)
        ≡ some (0, t ∷ txt, x)
  unfolding match_times letter_test char_class
  no_digit inner max_n x bytes =
      rw (nextch-byte x.utf8 t txt bytes, more, match_times) (rw other refl)

  class_passed :
      (inner : ℕ) (x : Pmx)
      → x.utf8 ≡ false
      → pmx_class (suc inner) o x digits_star (t ∷ txt) ≡ some (classed true (0 ∷ []) (t ∷ txt) x)
  unfolding peek advance to_close past_close class_end number upper_count sign_count class_times
      char_class match_letter class_letter class_done pmx_class
  class_passed inner x bytes = rw (no_digit inner int32_max x bytes, pmx_class) refl

  passed :
      (inner : ℕ) (x : Pmx)
      → x.utf8 ≡ false
      → round (suc inner) o (machine digits_star (t ∷ txt) false x)
        ≡ some (machine (0 ∷ []) (t ∷ txt) false x)
  unfolding round step step_class peek
  passed inner x bytes = rw (class_passed inner x bytes, round) refl

  loop_passed :
      (inner : ℕ) (x : Pmx)
      → x.utf8 ≡ false
      → match_loop (suc (suc inner)) o (machine digits_star (t ∷ txt) false x)
        ≡ some (machine (0 ∷ []) (t ∷ txt) false x)
  unfolding match_loop peek
  loop_passed inner x bytes =
      next_round (suc inner) o b'<' (b'*' ∷ b'd' ∷ b'>' ∷ 0 ∷ []) (t ∷ txt) x
        (machine (0 ∷ []) (t ∷ txt) false x) refl (passed inner x bytes)

  star_match :
      (inner : ℕ) (c : Capture) (cs : List Capture) (x : Pmx)
      → x.utf8 ≡ false
      → pmx_match (suc (suc inner)) o (record x { capt = c ∷ cs }) digits_star (t ∷ txt)
        ≡ some (some (t ∷ txt), matched_at (t ∷ txt) (record x { capt = c ∷ cs }))
  unfolding newcap state_reset state_push set_capt pmxstart clear_captures finish first_machine
      pmx_match
  star_match inner c cs x bytes =
      let begun : Pmx = record x {
        capt = (some (t ∷ txt), some (t ∷ txt)) ∷ cs;
        capnum = 1;
        stack = (matched_at (t ∷ txt) x).stack;
      } in
      let ended : match_loop (suc (suc inner)) o (machine digits_star (t ∷ txt) false begun)
          ≡ some (machine (0 ∷ []) (t ∷ txt) false begun) =
        loop_passed inner begun bytes in
      let inside : ltb 0 (suc (length cs)) ≡ true = ground arith in
      rw (ended, pmx_match) (rw (inside, finish) refl)

-- The state after a match is its own: the next match leaves it.
matched_again : (txt : Text) (x : Pmx) → matched_at txt (matched_at txt x) ≡ matched_at txt x
matched_again txt x =
    ap (λ n. record (matched_at txt x) { capt = (some txt, some txt) ∷ replicate n no_capture })
      (omega (arith, length-replicate (length x.capt - 1) no_capture))

module _ (o : Outside) (t : ℕ) (txt : Text) (more : (t == 0) ≡ false) (other : utlisdigit t ≡ false)
    (inner : ℕ) (action : (start ended : Option Text) → Bool)
    (goes_on : action (some (t ∷ txt)) (some (t ∷ txt)) ≡ false) where
  scan_round :
      (fuel : ℕ) (c : Capture) (cs : List Capture) (x : Pmx)
      → x.utf8 ≡ false
      → scan_loop
          (suc fuel)
          (suc (suc inner))
          o
          action
          (record x { capt = c ∷ cs })
          digits_star
          (t ∷ txt)
        ≡ scan_loop fuel
            (suc (suc inner))
            o
            action
            (matched_at (t ∷ txt) (record x { capt = c ∷ cs }))
            digits_star
            (t ∷ txt)
  unfolding scan_loop peek behind_match pmxend
  scan_round fuel c cs x bytes =
      rw (more, star_match o t txt more other inner c cs x bytes, scan_loop) (rw goes_on refl)

  scan_rounds :
      (rounds fuel : ℕ) (x : Pmx)
      → x.utf8 ≡ false
      → scan_loop
          (rounds + fuel)
          (suc (suc inner))
          o
          action
          (matched_at (t ∷ txt) x)
          digits_star
          (t ∷ txt)
        ≡ scan_loop fuel (suc (suc inner)) o action (matched_at (t ∷ txt) x) digits_star (t ∷ txt)
  scan_rounds zero fuel x bytes = let none_more : 0 + fuel ≡ fuel = omega arith in rw none_more refl
  scan_rounds (suc rounds) fuel x bytes =
      let one_more : suc rounds + fuel ≡ suc (rounds + fuel) = omega arith in
      rw one_more (
        scan_round (rounds + fuel) (some (t ∷ txt), some (t ∷ txt))
          (replicate (length x.capt - 1) no_capture) (matched_at (t ∷ txt) x) bytes
        ∙ ap (λ y. scan_loop (rounds + fuel) (suc (suc inner)) o action y digits_star (t ∷ txt))
            (matched_again (t ∷ txt) x)
        ∙ scan_rounds rounds fuel x bytes)

  -- `utl_pmx_scan` with the pattern `<*d>`, on single bytes, at a character that is neither NUL nor a
  -- digit, where the action does not stop it, with fuel of two or more for the matcher and at least
  -- one capture in the array: after any number of rounds it is at the same place, and there the
  -- pattern matches the empty text again, with the same state after it.
  pub pmx_scan-stays :
      (rounds fuel : ℕ) (c : Capture) (cs : List Capture) (x : Pmx)
      → x.utf8 ≡ false
      → let m = matched_at (t ∷ txt) (record x { capt = c ∷ cs; error = none; csens = true }) in
        (pmx_scan
            (suc (rounds + fuel))
            (suc (suc inner))
            o
            action
            (record x { capt = c ∷ cs })
            digits_star
            (t ∷ txt)
          ≡ scan_loop fuel (suc (suc inner)) o action m digits_star (t ∷ txt))
        × (pmx_match (suc (suc inner)) o m digits_star (t ∷ txt) ≡ some (some (t ∷ txt), m))
        × (behind_match m ≡ some (t ∷ txt))
  unfolding pmx_scan set_up behind_prefix behind_match pmxend
  pmx_scan-stays rounds fuel c cs x bytes =
      let x' : Pmx = record x { capt = c ∷ cs; error = none; csens = true } in
      (
        scan_round (rounds + fuel) c cs x' bytes ∙ scan_rounds rounds fuel x' bytes,
        star_match o t txt more other inner (some (t ∷ txt), some (t ∷ txt))
              (replicate (suc (length cs) - 1) no_capture) (matched_at (t ∷ txt) x') bytes
            ∙ ap (λ y. some (some (t ∷ txt), y)) (matched_again (t ∷ txt) x'),
        refl,
      )
