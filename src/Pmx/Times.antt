-- ===== src/Pmx/Times.antt =====
-- `utl_pmx_class`: the end of a class, and how often it has to match.
use clibutl.Prelude.{
  ℕ, ◌+◌, ◌-◌, ◌*◌, [], ◌∷◌, ◌&&◌, ◌||◌, Option, none, some, leb, ltb, ◌==◌, if◌then◌else◌,
}
use clibutl.Prelude.Fault.{◌>>=◌}
use clibutl.Pmx.Store.{Text, int32_max, peek, advance}

-- while (*pat_end && *pat_end != '>') pat_end++;
unfoldable pub to_close : Text → Option Text
to_close [] = none
to_close (c ∷ s) = let rest = to_close s in if c == 0 || c == b'>' then some (c ∷ s) else rest

-- while (*pat == '>') pat++;
unfoldable pub past_close : Text → Option Text
past_close [] = none
past_close (c ∷ s) = let rest = past_close s in if c == b'>' then rest else some (c ∷ s)

-- The end of the pattern, where one '>' may stand before the closing one.
unfoldable pub class_end : Text → Option Text
class_end pat = do
  pat_end ← to_close pat
  after ← advance pat_end 1
  c ← peek after
  some (if c == b'>' then after else pat_end)

-- The digits of a number; a number that an `int32_t` does not hold is a fault.
unfoldable pub number : (value : ℕ) → Text → Option (ℕ × Text)
number value [] = none
number value (c ∷ s) =
    let rest = number (value * 10 + (c - b'0')) s in
    if leb b'0' c && leb c b'9'
    then if leb (value * 10 + (c - b'0')) int32_max then rest else none
    else some (value, c ∷ s)

-- How often the class has to match.
pub record Times : Type 0 where
  pub min_n : ℕ
  pub max_n : ℕ
  pub rest : Text

abbrev pub times : ℕ → ℕ → Text → Times
times min_n max_n rest = record { min_n = min_n; max_n = max_n; rest = rest }

-- The number behind a '-', and INT32_MAX if there is none.
unfoldable pub upper_count : Text → Option (ℕ × Text)
upper_count pat = do
  c ← peek pat
  if c == b'-'
      then (do
        after ← advance pat 1
        (max_n, rest) ← number 0 after
        some ((if max_n == 0 then int32_max else max_n), rest))
      else some (0, pat)

-- '*', '+', '?', or nothing, where no number was given.
unfoldable pub sign_count : Text → Option Times
sign_count pat = do
  c ← peek pat
  after ← advance pat 1
  some (
      if c == b'*'
      then times 0 int32_max after
      else if c == b'+'
      then times 1 int32_max after
      else if c == b'?'
      then times 0 1 after
      else times 1 1 pat)

unfoldable pub class_times : Text → Option Times
class_times pat = do
  (min_n, pat') ← number 0 pat
  (upper, pat'') ← upper_count pat'
  let max_n = if ltb upper min_n then min_n else upper
  if max_n == 0 then sign_count pat'' else some (times min_n max_n pat'')
