-- ===== src/Vec/Tests/Sets.antt =====
-- Runs of the sorted set and of the iteration, and each theorem at an input.
use Prim.Native.Nat.{compare}
use clibutl.Prelude.{true, ℕ, ◌+◌, ◌≤◌, zero, suc, ◌≡◌, refl, [], ◌∷◌, none, some, arith}
use clibutl.Prelude.Fault.{Ends}
use clibutl.Vec.Defs.{Vec}
use clibutl.Vec.Sorted.{element, bisect, find_place, search_sorted, add_sorted}
use clibutl.Vec.Sorted.Bisect.{IsOrder, IsAscending, IsSearchable}
use clibutl.Vec.Sorted.Set.{Searched, search_sorted_lem, AddedTo, add_sorted_lem}
use clibutl.Vec.Iter.{vec_last, last_slot}
use clibutl.Vec.Iter.Visit.{IsArray, visit_all, visit_all-items}
use clibutl.Vec.Swap.{Bytes, dpqswap}
use clibutl.Vec.Swap.Exchange.{Apart, IsExchange, dpqswap_lem}
use clibutl.Vec.Swap.Remainder.{dpqswap_stays}
use clibutl.Vec.New.{vec_new, NewArray, vec_new-NewArray}
use clibutl.Vec.Tests.{ample, holding, three, three-IsValid}

-- The set of 10, 20 and 30, with 20 to search for.
abbrev numbers : Vec ℕ
numbers = record three { cmp = some compare; elm = 20 }

compare-IsOrder : IsOrder {A = ℕ} compare
compare-IsOrder = record {
  lt_before = λ a b c p q. ground arith;
  gt_behind = λ a b c p q. ground arith;
}

numbers-ascending : IsAscending compare numbers
numbers-ascending zero zero lt lt' = absurd (omega arith)
numbers-ascending zero (suc zero) lt lt' = λ e. cc
numbers-ascending zero (suc (suc zero)) lt lt' = λ e. cc
numbers-ascending (suc zero) (suc (suc zero)) lt lt' = λ e. cc
numbers-ascending (suc zero) zero lt lt' = absurd (omega arith)
numbers-ascending (suc zero) (suc zero) lt lt' = absurd (omega arith)
numbers-ascending (suc (suc i)) j lt lt' = absurd (omega arith)
numbers-ascending i (suc (suc (suc j))) lt lt' = absurd (omega arith)

numbers-IsSearchable : IsSearchable compare numbers
numbers-IsSearchable = record {
  valid = omega arith;
  small = omega arith;
  order = compare-IsOrder;
  ascending = numbers-ascending;
}

search_found : search_sorted numbers ≡ some (some 1)
unfolding search_sorted find_place bisect element
search_found = refl

search_sorted_lem_example :
    Ends (search_sorted numbers) (Searched compare numbers numbers-IsSearchable)
search_sorted_lem_example = search_sorted_lem compare numbers numbers-IsSearchable refl

add_sorted_lem_example :
    Ends (add_sorted ample numbers) (AddedTo compare numbers numbers-IsSearchable ample)
add_sorted_lem_example =
    add_sorted_lem compare numbers numbers-IsSearchable ample refl (omega arith)

three-IsArray : IsArray three
three-IsArray = record { valid = three-IsValid; plain = refl; from_zero = refl; no_queue = refl }

visit_all-items_example : visit_all (λ x. x) 4 three ≡ some (10 ∷ 20 ∷ 30 ∷ [])
visit_all-items_example = visit_all-items (λ x. x) three three-IsArray

-- Two elements in the last two of four slots.
abbrev round : Vec ℕ
round = holding 2 0 2 (0 ∷ 0 ∷ 10 ∷ 20 ∷ [])

last_wrapped : vec_last (λ x. x) round ≡ none
unfolding vec_last last_slot
last_wrapped = refl

-- The bytes 0 to 31.
abbrev counting : Bytes
counting = record { len = 32; byte = λ i. i }

counting-Apart : (n : ℕ) → n ≤ 8 → Apart counting 4 20 n
counting-Apart n le = record { first = omega arith; second = omega arith; disjoint = ground arith }

dpqswap_lem_example : Ends (dpqswap counting 4 20 5) (IsExchange counting 4 20 5)
dpqswap_lem_example = dpqswap_lem counting 4 20 5 (counting-Apart 5 (omega arith)) (omega arith)

dpqswap_stays_example : Ends (dpqswap counting 4 20 6) (λ m'. m'.byte (20 + 5) ≡ 25)
dpqswap_stays_example = dpqswap_stays counting 4 20 6 (omega arith) (omega arith) (omega arith) refl

vec_new-NewArray_example :
    NewArray ample (λ bytes. true) 72 4 none (vec_new ample (λ bytes. true) 72 7 0 4 none none)
vec_new-NewArray_example =
    vec_new-NewArray ample (λ bytes. true) 72 7 0 4 none (omega arith) (omega arith)
