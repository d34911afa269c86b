-- ===== src/Pmx/Listed.antt =====
-- `utl_pmx_isin` on bytes: a set of characters, as it stands in `<=...>`.
use clibutl.Prelude.{
  ℕ, zero, suc, ◌≤◌, ◌<◌, ◌≡◌, ◌≢◌, refl, Bool, true, false, not, List, [], ◌∷◌, ◌&&◌, ◌||◌, none,
  some, length, leb, ltb, ◌==◌, if◌then◌else◌, Bool-cases, inl, inr, arith,
}
use clibutl.Pmx.Store.{Text, peek, advance}
use clibutl.Pmx.Chars.{nextch, isin, isin_round, in_range}

-- An item of a set: a character, or the characters from one to another.
pub data Item : Type 0 where
  single : ℕ → Item
  range : ℕ → ℕ → Item

abbrev pub holds : Item → ℕ → Bool
holds (single c) ch = ch == c
holds (range lo hi) ch = leb lo ch && leb ch hi

abbrev pub in_set : List Item → ℕ → Bool
in_set [] ch = false
in_set (i ∷ is) ch = holds i ch || in_set is ch

-- The set as it is written, in front of the rest of the pattern.
abbrev pub write_set : List Item → Text → Text
write_set [] rest = rest
write_set (single c ∷ is) rest = c ∷ write_set is rest
write_set (range lo hi ∷ is) rest = lo ∷ b'-' ∷ hi ∷ write_set is rest

-- No NUL, and no '-' where it would be read as that of a range; a range is not empty.
abbrev pub is_item : Item → Bool
is_item (single c) = not (c == 0) && not (c == b'-')
is_item (range lo hi) = not (lo == 0) && (not (lo == b'-') && (not (hi == 0) && leb lo hi))

abbrev pub all_items : List Item → Bool
all_items [] = true
all_items (i ∷ is) = is_item i && all_items is

write_set-longer : (is : List Item) (rest : Text) → length rest ≤ length (write_set is rest)
write_set-longer [] rest = omega arith
write_set-longer (single c ∷ is) rest = omega (arith, write_set-longer is rest)
write_set-longer (range lo hi ∷ is) rest = omega (arith, write_set-longer is rest)

-- What follows a set is not a '-'.
abbrev NoDash : Text → Type 0
NoDash [] = ⊥
NoDash (c ∷ s) = c ≢ b'-'

write_set-NoDash :
    (is : List Item) (rest : Text) → all_items is ≡ true → NoDash rest → NoDash (write_set is rest)
write_set-NoDash [] rest h no_dash = no_dash
write_set-NoDash (single c ∷ is) rest h no_dash = ground arith
write_set-NoDash (range lo hi ∷ is) rest h no_dash = ground arith

round-single :
    (c ch : ℕ) (s : Text)
    → (c == 0) ≡ false
    → NoDash s
    → isin_round (nextch false) (c ∷ s) ch ≡ some (if ch == c then none else some s)
unfolding isin_round nextch advance peek
round-single c ch [] nonzero no_dash = elim no_dash [ ]
round-single c ch (d ∷ s) nonzero no_dash = rw (nonzero, isin_round) (ground arith)

round-range :
    (lo hi ch : ℕ) (s : Text)
    → (lo == 0) ≡ false
    → (hi == 0) ≡ false
    → leb lo hi ≡ true
    → isin_round (nextch false) (lo ∷ b'-' ∷ hi ∷ s) ch
      ≡ some (if leb lo ch && leb ch hi then none else some s)
unfolding isin_round in_range nextch advance peek
round-range lo hi ch s nonzero nonzero' le = rw (nonzero, nonzero', isin_round) (ground arith)

-- `utl_pmx_isin` on single bytes, not UTF-8, with the pattern from the set on and the set's end:
-- whether the character is one of the set or in one of its ranges. The single characters are neither
-- NUL nor '-'; a range has no NUL, does not begin with '-', and its second character is not below the
-- first; what stands behind the set does not begin with '-'. The fuel needed is one more than the
-- items.
pub isin-in_set :
    (fuel : ℕ) (is : List Item) (rest : Text) (ch : ℕ)
    → all_items is ≡ true
    → NoDash rest
    → length is < fuel
    → isin fuel (nextch false) (write_set is rest) rest ch ≡ some (in_set is ch)
unfolding isin
isin-in_set zero is rest ch items no_dash lt = absurd (omega arith)
isin-in_set (suc fuel) [] rest ch items no_dash lt =
    let over : ltb (length rest) (length rest) ≡ false = ground arith in rw (over, isin) refl
isin-in_set (suc fuel) (single c ∷ is) rest ch items no_dash lt =
    let more : ltb (length rest) (suc (length (write_set is rest))) ≡ true =
      ground (arith, write_set-longer is rest) in
    let others : all_items is ≡ true = ground arith in
    let read =
      round-single c ch (write_set is rest) (ground arith)
        (write_set-NoDash is rest others no_dash) in
    elim (Bool-cases (ch == c)) [
      | inl yes_it ↦ rw (more, read, yes_it, isin) refl
      | inr other ↦
          rw (more, read, other, isin) (isin-in_set fuel is rest ch others no_dash (omega arith))
    ]
isin-in_set (suc fuel) (range lo hi ∷ is) rest ch items no_dash lt =
    let more : ltb (length rest) (suc (suc (suc (length (write_set is rest))))) ≡ true =
      ground (arith, write_set-longer is rest) in
    let others : all_items is ≡ true = ground arith in
    let read =
      round-range lo hi ch (write_set is rest) (ground arith) (ground arith) (ground arith) in
    elim (Bool-cases (leb lo ch && leb ch hi)) [
      | inl within ↦ rw (more, read, within, isin) refl
      | inr outside ↦
          rw (more, read, outside, isin) (isin-in_set fuel is rest ch others no_dash (omega arith))
    ]
