-- ===== src/Pmx/Store.antt =====
-- The global state `utl_pmx_` of the matcher: captures, the stack of open parentheses, the flags.
use clibutl.Prelude.{
  ℕ, suc, ◌-◌, Bool, true, false, List, [], ◌∷◌, Option, none, some, length, set, get_elem?, leb,
  ltb, if◌then◌else◌,
}
use clibutl.Prelude.Fault.{◌>>=◌}

-- A `char *`: the rest of the bytes from it on.
abbrev pub Text : Type 0
Text = List ℕ

abbrev pub max_capt : ℕ
max_capt = 16

abbrev pub int32_max : ℕ
int32_max = 0x7FFF_FFFF

-- A capture: where it starts and ends, both NULL where there is none.
abbrev pub Capture : Type 0
Capture = Option Text × Option Text

-- `utl_pmx_state_s`
pub record Level : Type 0 where
  pub pat : Text
  pub txt : Text
  pub min_n : ℕ
  pub max_n : ℕ
  pub n : ℕ
  pub inv : Bool
  pub cap : ℕ

-- `pmx_t`: `stack` is the used part of the array, the top first, so that `stack_ptr` is its length.
pub record Pmx : Type 0 where
  pub capt : List Capture
  pub capnum : ℕ
  pub error : Option Text
  pub utf8 : Bool
  pub csens : Bool
  pub stack : List Level

-- *p
unfoldable pub peek : Text → Option ℕ
peek [] = none
peek (c ∷ s) = some c

-- p + n
unfoldable pub advance : Text → ℕ → Option Text
advance s ℕ.zero = some s
advance [] (suc n) = none
advance (c ∷ s) (suc n) = advance s n

-- p - q, of two pointers into one text with `q` before `p`.
abbrev pub distance : (q p : Text) → ℕ
distance q p = length q - length p

-- p < q, likewise.
abbrev pub is_before : (p q : Text) → Bool
is_before p q = ltb (length q) (length p)

unfoldable pub set_paterror : Pmx → Text → Pmx
set_paterror x t = elim (x.error) [ none ↦ record x { error = some t } | some e ↦ x ]

unfoldable pub newcap : Pmx → Option Text → Pmx
newcap x t =
    if ltb x.capnum max_capt
    then record x { capt = set x.capt x.capnum (t, t); capnum = suc x.capnum }
    else x

unfoldable pub state_reset : Pmx → Pmx
state_reset x = record x { stack = []; capnum = 0 }

unfoldable pub state_push : Pmx → (pat txt : Text) → (min_n max_n : ℕ) → (inv : Bool) → Bool × Pmx
state_push x pat txt min_n max_n inv = if leb max_capt (length x.stack) then (false, x) else (
  true,
  record (newcap x (some txt)) {
    stack =
        record {
          pat = pat;
          txt = txt;
          min_n = min_n;
          max_n = max_n;
          n = 0;
          inv = inv;
          cap = x.capnum;
        }
        ∷ x.stack;
  },
)

unfoldable pub state_pop : Pmx → Bool × Pmx
state_pop x = elim (x.stack) [ [] ↦ (false, x) | l ∷ ls ↦ (true, record x { stack = ls }) ]

unfoldable pub state_top : Pmx → Option Level
state_top x = elim (x.stack) [ [] ↦ none | l ∷ ls ↦ some l ]

-- The updates of the top of the stack and of a capture, `none` outside the arrays.
unfoldable pub set_top : Pmx → Level → Option Pmx
set_top x l = elim (x.stack) [ [] ↦ none | l' ∷ ls ↦ some (record x { stack = l ∷ ls }) ]

unfoldable pub set_capt : Pmx → ℕ → Capture → Option Pmx
set_capt x i c = if ltb i (length x.capt) then some (record x { capt = set x.capt i c }) else none

unfoldable pub pmxstart : Pmx → ℕ → Option (Option Text)
pmxstart x i = do c ← get_elem? x.capt i; some c.0

unfoldable pub pmxend : Pmx → ℕ → Option (Option Text)
pmxend x i = do c ← get_elem? x.capt i; some c.1
