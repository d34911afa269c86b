-- ===== src/Pmx/Literal.antt =====
-- A pattern of plain characters, in the loop of `utl_pmx_match`.
use clibutl.Prelude.{
  ℕ, zero, suc, ◌+◌, ◌<◌, ◌≡◌, refl, Bool, true, false, not, List, [], ◌∷◌, ◌&&◌, ◌||◌, ◌++◌,
  Option, none, some, length, ◌==◌, if◌then◌else◌, ◌⊎◌, Bool-cases, inl, inr, arith,
}
use clibutl.Prelude.Fault.{Ends, Ends-map}
use clibutl.Pmx.Store.{Text, Pmx, peek, advance}
use clibutl.Pmx.Chars.{nextch}
use clibutl.Pmx.Class.{Outside}
use clibutl.Pmx.Alt.{resumed, empty_string, alt}
use clibutl.Pmx.Match.{
  Machine, machine, next, failed, wanted, same_char, step_char, step, resume, round, match_loop,
}

-- A character that stands for itself in a pattern.
abbrev pub is_plain : ℕ → Bool
is_plain c = not (c == 0 || (c == b'(' || (c == b'|' || (c == b')' || (c == b'<' || c == b'%')))))

abbrev pub all_plain : List ℕ → Bool
all_plain [] = true
all_plain (c ∷ cs) = is_plain c && all_plain cs

-- The text behind `lit`, if the text begins with it.
unfoldable pub behind : (lit txt : Text) → Option Text
behind [] txt = some txt
behind (c ∷ lit) [] = none
behind (c ∷ lit) (t ∷ txt) = if t == c then behind lit txt else none

alt-plain :
    (fuel : ℕ) (x : Pmx) (lit txt : Text)
    → all_plain lit ≡ true
    → length lit < fuel
    → alt fuel x (lit ++ (0 ∷ [])) txt 0 ≡ some (resumed empty_string txt x)
unfolding alt
alt-plain zero x lit txt h lt = absurd (omega arith)
alt-plain (suc fuel) x [] txt h lt = refl
alt-plain (suc fuel) x (c ∷ lit) txt h lt = ground (arith, alt-plain fuel x lit txt)

wanted-plain :
    (utf8 : Bool) (c : ℕ) (pat : Text)
    → utf8 ≡ false
    → is_plain c ≡ true
    → wanted utf8 (c ∷ pat) ≡ some (1, c)
unfolding wanted peek nextch
wanted-plain true c pat byte plain = cc
wanted-plain false c pat byte plain = ground arith

pub nextch-byte :
    (utf8 : Bool) (t : ℕ) (txt : Text)
    → utf8 ≡ false
    → nextch utf8 (t ∷ txt) ≡ some ((if t == 0 then 0 else 1), t)
unfolding nextch
nextch-byte true t txt byte = cc
nextch-byte false t txt byte = refl

same_char-exact : (csens : Bool) (ch c1 : ℕ) → csens ≡ true → same_char csens ch c1 ≡ (ch == c1)
unfolding same_char
same_char-exact true ch c1 sens = refl
same_char-exact false ch c1 sens = cc

step-plain :
    (fuel : ℕ) (o : Outside) (c : ℕ) (pat txt : Text) (inv : Bool) (x : Pmx)
    → is_plain c ≡ true
    → step fuel o (machine (c ∷ pat) txt inv x) ≡ step_char (machine (c ∷ pat) txt inv x)
unfolding step peek
step-plain fuel o c pat txt inv x plain = ground arith

step_char-plain :
    (c : ℕ) (pat : Text) (t : ℕ) (txt : Text) (inv : Bool) (x : Pmx)
    → x.utf8 ≡ false
    → x.csens ≡ true
    → is_plain c ≡ true
    → step_char (machine (c ∷ pat) (t ∷ txt) inv x)
      ≡ some (
          if t == c
          then next (machine pat txt inv x)
          else failed (machine (c ∷ pat) (t ∷ txt) inv x))
unfolding step_char advance
step_char-plain c pat t txt inv x byte sens plain =
    let want = wanted-plain x.utf8 c pat byte plain in
    let read = nextch-byte x.utf8 t txt byte in
    let same = same_char-exact x.csens t c sens in
    elim (Bool-cases (t == c)) [
      | inl equal ↦
          let nonzero : (t == 0) ≡ false = ground arith in
          rw (want, read, same, equal, nonzero, step_char) refl
      | inr other ↦ rw (want, read, same, other, step_char) refl
    ]

-- A round at a plain character.
round-plain :
    (fuel : ℕ) (o : Outside) (x : Pmx) (c : ℕ) (lit : Text) (t : ℕ) (txt : Text)
    → x.utf8 ≡ false
    → x.csens ≡ true
    → all_plain (c ∷ lit) ≡ true
    → length lit + 1 < fuel
    → round fuel o (machine (c ∷ (lit ++ (0 ∷ []))) (t ∷ txt) false x)
      ≡ some (
          if t == c
          then machine (lit ++ (0 ∷ [])) txt false x
          else machine empty_string (t ∷ txt) false (record x { capnum = 0 }))
unfolding round resume peek
round-plain fuel o x c lit t txt byte sens plain lt =
    let one : is_plain c ≡ true = ground arith in
    let stepped = step-plain fuel o c (lit ++ (0 ∷ [])) (t ∷ txt) false x one in
    let moved = step_char-plain c (lit ++ (0 ∷ [])) t txt false x byte sens one in
    let rest = alt-plain fuel x (c ∷ lit) (t ∷ txt) plain (omega arith) in
    elim (Bool-cases (t == c)) [
      | inl equal ↦ rw (stepped, moved, equal, round) refl
      | inr other ↦ rw (stepped, moved, other, round) (rw (rest, resume) refl)
    ]

-- The text has its NUL.
abbrev pub has_nul : Text → Bool
has_nul [] = false
has_nul (t ∷ txt) = if t == 0 then true else has_nul txt

-- How the loop ends on a plain pattern: behind the literal, or with no capture left.
abbrev pub LoopEnds : Pmx → (lit txt : Text) → Machine → Type 0
LoopEnds x lit txt m =
    ((behind lit txt ≡ some m.txt) × (m.x ≡ x))
    ⊎ ((behind lit txt ≡ none) × (m.x ≡ record x { capnum = 0 }))

LoopEnds-cons :
    (x : Pmx) (c : ℕ) (lit : Text) (t : ℕ) (txt : Text) (m : Machine)
    → (t == c) ≡ true
    → LoopEnds x lit txt m
    → LoopEnds x (c ∷ lit) (t ∷ txt) m
unfolding behind
LoopEnds-cons x c lit t txt m equal (inl (e, f)) = inl (rw equal e, f)
LoopEnds-cons x c lit t txt m equal (inr (e, f)) = inr (rw equal e, f)

loop_over :
    (fuel : ℕ) (o : Outside) (txt : Text) (x : Pmx)
    → 0 < fuel
    → match_loop fuel o (machine empty_string txt false x) ≡ some (machine empty_string txt false x)
unfolding match_loop peek
loop_over zero o txt x pos = absurd (omega arith)
loop_over (suc fuel) o txt x pos = refl

pub match_loop-plain :
    (fuel : ℕ) (o : Outside) (x : Pmx) (lit txt : Text)
    → x.utf8 ≡ false
    → x.csens ≡ true
    → all_plain lit ≡ true
    → has_nul txt ≡ true
    → length lit + 2 < fuel
    → Ends (match_loop fuel o (machine (lit ++ (0 ∷ [])) txt false x)) (LoopEnds x lit txt)
unfolding match_loop behind peek
match_loop-plain zero o x lit txt byte sens plain nul lt = absurd (omega arith)
match_loop-plain (suc fuel) o x [] txt byte sens plain nul lt = inl (refl, refl)
match_loop-plain (suc fuel) o x (c ∷ lit) [] byte sens plain nul lt = cc
match_loop-plain (suc fuel) o x (c ∷ lit) (t ∷ txt) byte sens plain nul lt =
    let stepped = round-plain fuel o x c lit t txt byte sens plain (omega arith) in
    let more : (c == 0) ≡ false = ground arith in
    elim (Bool-cases (t == c)) [
      | inl equal ↦
          let left : has_nul txt ≡ true = ground arith in
          rw (more, stepped, equal, match_loop)
            (Ends-map (LoopEnds x lit txt) (LoopEnds x (c ∷ lit) (t ∷ txt))
              (match_loop fuel o (machine (lit ++ (0 ∷ [])) txt false x))
              (λ m e. LoopEnds-cons x c lit t txt m equal e)
              (match_loop-plain fuel o x lit txt byte sens (ground arith) left (omega arith)))
      | inr other ↦
          rw (more, stepped, other, match_loop)
            (rw (loop_over fuel o (t ∷ txt) (record x { capnum = 0 }) (omega arith), Ends)
              (inr (rw other refl, refl)))
    ]
