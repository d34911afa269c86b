-- ===== src/Prelude/Tables.antt =====
-- Theorems by a table: a test that succeeds on each of the first numbers.
use Prim.Native.Nat.{ℕ, zero, suc, ◌+◌, ◌≤◌, ◌<◌}
use mathlib.Core.Path.{◌≡◌, ◌∙◌, ap}
use mathlib.Core.Logic.{inl, inr}
use mathlib.Core.Bool.{Bool, true, ◌&&◌}
use native.Mathlib.Omega.{arith}
use clibutl.Prelude.Tests.{◌==◌, ==_iff, Bool-cases}

-- The test on the `count` numbers from `first` on.
unfoldable pub test_range : (test : ℕ → Bool) → (first count : ℕ) → Bool
test_range test first zero = true
test_range test first (suc count) = test_range test (suc first) count && test first

both_true : (a b : Bool) → (a && b) ≡ true → (a ≡ true) × (b ≡ true)
both_true a b h = ground arith

pub test_range_lem :
    (test : ℕ → Bool) (first count : ℕ)
    → test_range test first count ≡ true
    → (c : ℕ) → first ≤ c
    → c < first + count
    → test c ≡ true
unfolding test_range
test_range_lem test first zero all c le lt = absurd (omega arith)
test_range_lem test first (suc count) all c le lt =
    let both = both_true (test_range test (suc first) count) (test first) all in
    elim (Bool-cases (c == first)) [
      | inl same ↦ ap test ((==_iff c first).0 same) ∙ both.1
      | inr later ↦ test_range_lem test (suc first) count both.0 c (ground arith) (omega arith)
    ]
