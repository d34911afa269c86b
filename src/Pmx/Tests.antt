-- ===== src/Pmx/Tests.antt =====
-- Runs of the matcher, and each theorem at an input.
use clibutl.Prelude.{
  ℕ, suc, ◌+◌, ◌≡◌, refl, true, false, List, [], ◌∷◌, ◌++◌, Option, none, some, take, ltb, ◌==◌,
  replicate, arith,
}
use clibutl.Prelude.Fault.{Ends}
use clibutl.Utf.Classes.{enc, has_bits, utlisdigit, utlislower}
use clibutl.Pmx.Store.{
  Text, Pmx, pmxend, peek, advance, set_paterror, newcap, state_reset, state_push, state_pop,
  state_top, set_top, set_capt, pmxstart,
}
use clibutl.Pmx.Chars.{nextch, isin}
use clibutl.Pmx.Times.{
  times, past_close, to_close, class_end, number, upper_count, sign_count, class_times,
}
use clibutl.Pmx.Class.{
  Outside, char_class, class_letter, match_times, letter_test, match_letter, open_repeated,
  class_done, pmx_class,
}
use clibutl.Pmx.Alt.{skip_escaped, skip_class, alt_skip, close_failed, next_alternative, alt}
use clibutl.Pmx.Match.{
  step_open, step_close, pmx_match, step_matched, step_class, wanted, same_char, step_char, step,
  resume, round, match_loop, clear_captures, finish, first_machine,
}
use clibutl.Pmx.Search.{
  behind_match, scan_loop, pmx_scan, pmx_search, behind_prefix, set_up, next_place, search_loop,
}
use clibutl.Pmx.Find.{FindsLiteral, pmx_search-find}
use clibutl.Pmx.Stuck.{digits_star, matched_at, pmx_scan-stays}
use clibutl.Pmx.Listed.{single, range, isin-in_set}
use clibutl.Pmx.Repeat.{span, Taken, class_letter-span}

abbrev outside : Outside
outside = record {
  isspace = λ c. c == 32;
  isblank = λ c. c == 32;
  isxdigit = λ c. false;
  iscntrl = λ c. ltb c 32;
  isgraph = λ c. ltb 32 c;
  ispunct = λ c. false;
  isprint = λ c. ltb 31 c;
  ext = none;
}

abbrev fresh : Pmx
fresh = record {
  capt = replicate 16 (none, none);
  capnum = 0;
  error = none;
  utf8 = false;
  csens = true;
  stack = [];
}

-- (<+d>)-<l>
abbrev number_dash : Text
number_dash = b'(' ∷ b'<' ∷ b'+' ∷ b'd' ∷ b'>' ∷ b')' ∷ b'-' ∷ b'<' ∷ b'l' ∷ b'>' ∷ 0 ∷ []

abbrev sample : Text
sample = b'a' ∷ b'1' ∷ b'2' ∷ b'-' ∷ b'x' ∷ b'y' ∷ 0 ∷ []

-- The captures that a search leaves, as far as `capnum` says.
captured : Option (Option Text × Pmx) → List (Option Text × Option Text)
captured none = []
captured (some (r, x)) = take x.capnum x.capt

number_dash-runs :
    captured (pmx_search 30 30 outside fresh number_dash sample false)
    ≡ (some (b'1' ∷ b'2' ∷ b'-' ∷ b'x' ∷ b'y' ∷ 0 ∷ []), some (b'y' ∷ 0 ∷ []))
      ∷ (some (b'1' ∷ b'2' ∷ b'-' ∷ b'x' ∷ b'y' ∷ 0 ∷ []), some (b'-' ∷ b'x' ∷ b'y' ∷ 0 ∷ []))
      ∷ []
unfolding captured peek advance set_paterror newcap state_reset state_push state_pop state_top
    set_top set_capt pmxstart pmxend nextch to_close past_close class_end number upper_count
    sign_count class_times match_times char_class letter_test match_letter open_repeated class_done
    class_letter pmx_class skip_escaped skip_class alt_skip close_failed next_alternative alt
    step_open step_matched step_close step_class wanted same_char step_char step resume round
    match_loop clear_captures finish first_machine pmx_match behind_prefix set_up next_place
    search_loop pmx_search utlisdigit utlislower has_bits enc
number_dash-runs = refl

-- (|a)(1) does not match "12": the second group is taken for an inverted one.
inverted_leak-runs :
    captured (
      pmx_search 30 30 outside fresh
        (b'(' ∷ b'|' ∷ b'a' ∷ b')' ∷ b'(' ∷ b'1' ∷ b')' ∷ 0 ∷ [])
        (b'1' ∷ b'2' ∷ 0 ∷ [])
        true)
    ≡ []
unfolding captured peek advance set_paterror newcap state_reset state_push state_pop state_top
    set_top set_capt pmxstart pmxend nextch to_close past_close class_end number upper_count
    sign_count class_times match_times char_class letter_test match_letter open_repeated class_done
    class_letter pmx_class skip_escaped skip_class alt_skip close_failed next_alternative alt
    step_open step_matched step_close step_class wanted same_char step_char step resume round
    match_loop clear_captures finish first_machine pmx_match behind_prefix set_up next_place
    search_loop pmx_search utlisdigit utlislower has_bits enc
inverted_leak-runs = refl

-- (a|b)1 with `<*>` for the group: "ab1".
group_repeats :
    captured (
      pmx_search 30 30 outside fresh
        (b'<' ∷ b'*' ∷ b'>' ∷ b'(' ∷ b'a' ∷ b'|' ∷ b'b' ∷ b')' ∷ b'1' ∷ 0 ∷ [])
        (b'a' ∷ b'b' ∷ b'1' ∷ 0 ∷ [])
        true)
    ≡ (some (b'a' ∷ b'b' ∷ b'1' ∷ 0 ∷ []), some (0 ∷ []))
      ∷ (some (b'a' ∷ b'b' ∷ b'1' ∷ 0 ∷ []), some (b'1' ∷ 0 ∷ []))
      ∷ []
unfolding captured peek advance set_paterror newcap state_reset state_push state_pop state_top
    set_top set_capt pmxstart pmxend nextch to_close past_close class_end number upper_count
    sign_count class_times match_times char_class letter_test match_letter open_repeated class_done
    class_letter pmx_class skip_escaped skip_class alt_skip close_failed next_alternative alt
    step_open step_matched step_close step_class wanted same_char step_char step resume round
    match_loop clear_captures finish first_machine pmx_match behind_prefix set_up next_place
    search_loop pmx_search utlisdigit utlislower has_bits enc
group_repeats = refl

pmx_search-find_example :
    Ends
      (pmx_search 8 5 outside fresh ((b'-' ∷ b'x' ∷ []) ++ (0 ∷ [])) sample false)
      (FindsLiteral (b'-' ∷ b'x' ∷ []) sample)
pmx_search-find_example =
    pmx_search-find 8 5 outside fresh (b'-' ∷ b'x' ∷ []) sample refl refl (omega arith, refl) refl
      (omega arith) (omega arith)

isin-in_set_example :
    isin 3 (nextch false) (b'_' ∷ b'a' ∷ b'-' ∷ b'f' ∷ b'>' ∷ 0 ∷ []) (b'>' ∷ 0 ∷ []) b'c'
    ≡ some true
isin-in_set_example =
    isin-in_set 3 (single b'_' ∷ range b'a' b'f' ∷ []) (b'>' ∷ 0 ∷ []) b'c' refl (omega arith)
      (omega arith)

-- The letter `i` asks for an ASCII character.
ascii_class : (ch : ℕ) → char_class outside b'i' ch ≡ some (ltb ch 0x80)
unfolding char_class
ascii_class ch = refl

past_two : past_close (b'>' ∷ 0 ∷ []) ≡ some (0 ∷ [])
unfolding past_close
past_two = refl

class_letter-span_example :
    class_letter 8 outside fresh
      (b'<' ∷ b'i' ∷ b'>' ∷ 0 ∷ [])
      (b'i' ∷ b'>' ∷ 0 ∷ [])
      (b'>' ∷ 0 ∷ [])
      sample
      (times 2 4 [])
      false
    ≡ some (
        Taken outside b'i'
          (λ ch. ltb ch 0x80)
          ascii_class
          (times 2 4 [])
          (0 ∷ [])
          sample
          fresh
          (span (λ ch. ltb ch 0x80) false 4 0 sample))
class_letter-span_example =
    class_letter-span outside b'i' (λ ch. ltb ch 0x80) ascii_class 8 (b'<' ∷ b'i' ∷ b'>' ∷ 0 ∷ [])
      (b'>' ∷ 0 ∷ []) (b'>' ∷ 0 ∷ []) (0 ∷ []) sample false (times 2 4 []) fresh refl refl
      (omega arith) past_two

-- `<*d>` on "x", where the action never stops the scan.
no_digit_there : utlisdigit b'x' ≡ false
unfolding utlisdigit has_bits enc
no_digit_there = refl

abbrev after_x : Pmx
after_x = matched_at (b'x' ∷ 0 ∷ []) fresh

pmx_scan-stays_example :
    (pmx_scan (suc (40 + 59)) 9 outside (λ start ended. false) fresh digits_star (b'x' ∷ 0 ∷ [])
      ≡ scan_loop 59 9 outside (λ start ended. false) after_x digits_star (b'x' ∷ 0 ∷ []))
    × (pmx_match 9 outside after_x digits_star (b'x' ∷ 0 ∷ [])
        ≡ some (some (b'x' ∷ 0 ∷ []), after_x))
    × (behind_match after_x ≡ some (b'x' ∷ 0 ∷ []))
pmx_scan-stays_example =
    pmx_scan-stays outside b'x' (0 ∷ []) refl no_digit_there 7 (λ start ended. false) refl 40 59
      (none, none) (replicate 15 (none, none)) fresh refl
