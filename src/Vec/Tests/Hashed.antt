-- ===== src/Vec/Tests/Hashed.antt =====
-- Runs of the hash table, and each theorem at an input.
use Prim.Native.Nat.{Ordering, compare}
use clibutl.Prelude.{
  ◌≢◌, none, ℕ, ◌*◌, ◌<◌, ◌≡◌, refl, true, List, [], ◌∷◌, ◌++◌, none, some, replicate, u32_max,
  u32_mod, inr, arith,
}
use clibutl.Prelude.Fault.{Ends}
use clibutl.Vec.Slots.{Allocator}
use clibutl.Vec.Defs.{Vec}
use clibutl.Vec.Hash.{
  Layout, close_gap, remove_hashed, probe, search_hashed, place, go_back, hsh_set, add_element,
  is_loaded, add_with, add_hashed,
}
use clibutl.Vec.Hash.Lookup.{FoundAt}
use clibutl.Vec.Hash.Keys.{IsKeyed}
use clibutl.Vec.Hash.Table.{IsHashed, search_hashed_lem}
use clibutl.Vec.Hash.Add.{AddedOrRefused, add_hashed_lem}
use clibutl.Vec.Hash.Made.{made, made-IsHashed, NewTable, vec_new-NewTable}
use clibutl.Vec.Hash.Remove.{Removed, remove_hashed_lem}
use clibutl.Vec.Hash.Trip.{with_key, FoundAfter, add_hashed-search_hashed}
use clibutl.Vec.New.{vec_new}
use clibutl.Vec.Que.{vec_first, first_slot, first_used}
use clibutl.Vec.Iter.Visit.{visit_all}
use clibutl.Vec.Iter.Table.{in_use, IsVisited, visit_all-in_use}
use clibutl.Vec.Tests.{filled_with}

-- An element: its hash value and its key.
abbrev Entry : Type 0
Entry = ℕ × ℕ

abbrev entries : Layout Entry
entries = record {
  stored = λ x. x.0;
  with_hash = λ h x. (h, x.1);
  free = (u32_max, 0);
  stored-with_hash = λ h x lt. refl;
  stored-free = refl;
}

-- The key itself is the hash value.
abbrev by_key : Entry → ℕ
by_key x = x.1

abbrev compare_keys : Entry → Entry → Ordering
compare_keys a b = compare a.1 b.1

compare_keys-IsKeyed : IsKeyed compare_keys
compare_keys-IsKeyed = record {
  eq_refl = λ a. ground arith;
  eq_sym = λ a b e. ground arith;
  eq_trans = λ a b c e f. ground arith;
}

abbrev plenty : Allocator Entry
plenty = filled_with entries.free

-- Three entries, with the hash values 13, 29 and 14 in a table of 16 slots, added one by one to an
-- empty one; `*elm` is the next to add.
abbrev empty : Vec Entry
empty = record (made entries by_key compare_keys compare_keys-IsKeyed 8 (0, 0)) { elm = (0, 13) }

abbrev free_slots : ℕ → List Entry
free_slots n = replicate n entries.free

abbrev one_entry : Vec Entry
one_entry = record empty {
  cnt = 1;
  vec = free_slots 13 ++ ((13, 13) ∷ free_slots 2);
  elm = (0, 29);
}

abbrev two_entries : Vec Entry
two_entries = record empty {
  cnt = 2;
  vec = free_slots 13 ++ ((29, 29) ∷ (13, 13) ∷ free_slots 1);
  elm = (0, 14);
}

abbrev three_entries : Vec Entry
three_entries = record empty {
  cnt = 3;
  vec = free_slots 13 ++ ((29, 29) ∷ (13, 13) ∷ (14, 14) ∷ []);
  elm = (0, 30);
}

empty-IsHashed : IsHashed entries by_key compare_keys empty
empty-IsHashed =
    with_key entries by_key compare_keys compare_keys-IsKeyed
      (made entries by_key compare_keys compare_keys-IsKeyed 8 (0, 0)) (0, 13)
      (made-IsHashed entries by_key compare_keys compare_keys-IsKeyed 8 (0, 0) (omega arith)
        (omega arith))

add_first : add_hashed entries plenty empty ≡ some (some 13, record one_entry { elm = (13, 13) })
unfolding add_hashed add_with is_loaded add_element hsh_set place go_back
add_first = refl

add_second :
    add_hashed entries plenty one_entry ≡ some (some 13, record two_entries { elm = (29, 29) })
unfolding add_hashed add_with is_loaded add_element hsh_set place go_back
add_second = refl

-- The entry goes to slot 15, and the pointer is at slot 14, whose entry is nearer to its home.
add_third :
    add_hashed entries plenty two_entries ≡ some (some 14, record three_entries { elm = (14, 14) })
unfolding add_hashed add_with is_loaded add_element hsh_set place go_back
add_third = refl

-- The tables stay in order, by the theorem on `add_hashed`.
added-IsHashed :
    (v w : Vec Entry) (e : ℕ) (next : Entry)
    → IsHashed entries by_key compare_keys v
    → v.max * 2 * v.esz < u32_mod
    → v.cnt * 100 < u32_mod
    → add_hashed entries plenty v ≡ some (some e, w)
    → IsHashed entries by_key compare_keys (record w { elm = next })
added-IsHashed v w e next h fits exact run =
    let ends : Ends (add_hashed entries plenty v)
        (AddedOrRefused entries by_key compare_keys compare_keys-IsKeyed plenty v) =
      add_hashed_lem entries by_key compare_keys compare_keys-IsKeyed plenty v h fits exact in
    let a : Ends (some (some e, w))
        (AddedOrRefused entries by_key compare_keys compare_keys-IsKeyed plenty v) =
      rw run at ends in
    with_key entries by_key compare_keys compare_keys-IsKeyed w next a.hashed

two_entries-IsHashed : IsHashed entries by_key compare_keys two_entries
two_entries-IsHashed =
    added-IsHashed one_entry (record two_entries { elm = (29, 29) }) 13 (0, 14)
      (added-IsHashed empty (record one_entry { elm = (13, 13) }) 13 (0, 29) empty-IsHashed
        (omega arith) (omega arith) add_first)
      (omega arith) (omega arith) add_second

add_hashed_lem_example :
    Ends
      (add_hashed entries plenty two_entries)
      (AddedOrRefused entries by_key compare_keys compare_keys-IsKeyed plenty two_entries)
add_hashed_lem_example =
    add_hashed_lem entries by_key compare_keys compare_keys-IsKeyed plenty two_entries
      two_entries-IsHashed (omega arith) (omega arith)

-- The key 29 is found after 14 was added.
add_hashed-search_hashed_example :
    Ends
      (add_hashed entries plenty two_entries)
      (FoundAfter entries by_key compare_keys compare_keys-IsKeyed plenty two_entries (0, 29))
add_hashed-search_hashed_example =
    add_hashed-search_hashed entries by_key compare_keys compare_keys-IsKeyed plenty two_entries
      (0, 29) two_entries-IsHashed (omega arith) (omega arith) (inr (13, omega arith, refl))

search_hashed_lem_example : Ends (search_hashed entries two_entries) (
    FoundAt entries compare_keys 14
      (0, 14)
      16
      two_entries.vec
      two_entries-IsHashed.table
      (omega arith))
search_hashed_lem_example =
    search_hashed_lem entries by_key compare_keys two_entries two_entries-IsHashed

remove_hashed_lem_example :
    Ends (remove_hashed entries two_entries 13) (Removed entries by_key compare_keys 13 two_entries)
remove_hashed_lem_example =
    remove_hashed_lem entries by_key compare_keys two_entries 13 two_entries-IsHashed (omega arith)
      (λ (e : 29 ≡ u32_max). absurd (omega arith))

vec_new-NewTable_example :
    NewTable entries by_key compare_keys compare_keys-IsKeyed plenty
      (λ bytes. true)
      72
      4
      (vec_new plenty (λ bytes. true) 72 entries.free (0, 0) 4 (some compare_keys) (some by_key))
vec_new-NewTable_example =
    vec_new-NewTable entries by_key compare_keys compare_keys-IsKeyed plenty (λ bytes. true) 72
      (0, 0) 4 (omega arith)

-- Entries of the homes 13, 14, 15, 15 and 13, the last of which stands behind the end of the table.
-- Removing the one of home 14 leaves its slot free, and the last one is not found any more.
abbrev around : Vec Entry
around = record empty {
  cnt = 4;
  vec = (15, 15) ∷ (free_slots 12 ++ ((13, 13) ∷ (14, 14) ∷ (31, 31) ∷ []));
  elm = (0, 29);
}

abbrev around_full : List Entry
around_full = (15, 15) ∷ (29, 29) ∷ (free_slots 11 ++ ((13, 13) ∷ (14, 14) ∷ (31, 31) ∷ []))

abbrev around_less : List Entry
around_less = (15, 15) ∷ (29, 29) ∷ (free_slots 11 ++ ((13, 13) ∷ entries.free ∷ (31, 31) ∷ []))

add_around :
    add_hashed entries plenty around
    ≡ some (some 0, record around { cnt = 5; vec = around_full; elm = (29, 29) })
unfolding add_hashed add_with is_loaded add_element hsh_set place go_back
add_around = refl

found_before : search_hashed entries (record around { vec = around_full }) ≡ some (some 1)
unfolding search_hashed probe
found_before = refl

remove_between :
    remove_hashed entries (record around { cnt = 5; vec = around_full }) 14
    ≡ some (some 15, record around { cnt = 4; vec = around_less })
unfolding remove_hashed close_gap
remove_between = refl

lost_after : search_hashed entries (record around { vec = around_less }) ≡ some none
unfolding search_hashed probe
lost_after = refl

two_entries-IsVisited : IsVisited entries.stored two_entries
two_entries-IsVisited = record {
  sized = refl;
  some_left = refl;
  hashed = (by_key, refl);
  no_queue = refl;
  small = omega arith;
}

two_entries-filled : in_use entries.stored two_entries.vec ≢ []
unfolding in_use
two_entries-filled e = absurd (let some_left : (29, 29) ∷ (13, 13) ∷ [] ≡ [] = e in cc)

visit_all-in_use_example :
    visit_all entries.stored 17 two_entries ≡ some (in_use entries.stored two_entries.vec)
visit_all-in_use_example =
    visit_all-in_use entries.stored two_entries two_entries-IsVisited two_entries-filled

-- The key 13 is added once more, where it replaces itself, and removed: `cnt` says one element is left
-- where there is none, and `utl_vec_first` looks for it behind the end of the table.
add_again :
    add_hashed entries plenty (record one_entry { elm = (0, 13) })
    ≡ some (some 13, record one_entry { cnt = 2; elm = (13, 13) })
unfolding add_hashed add_with is_loaded add_element hsh_set place go_back
add_again = refl

remove_only :
    remove_hashed entries (record one_entry { cnt = 2; elm = (13, 13) }) 13
    ≡ some (some 14, record one_entry { cnt = 1; vec = free_slots 16; elm = (13, 13) })
unfolding remove_hashed close_gap
remove_only = refl

first_behind :
    vec_first entries.stored (record one_entry { cnt = 1; vec = free_slots 16; elm = (13, 13) })
    ≡ none
unfolding vec_first first_slot first_used
first_behind = refl
