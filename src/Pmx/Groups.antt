-- ===== src/Pmx/Groups.antt =====
-- Groups: what `(` pushes, and what `)` does to captures.
use clibutl.Prelude.{
  ℕ, suc, ◌<◌, ◌≡◌, ◌≢◌, refl, Bool, false, List, ◌∷◌, none, some, length, leb, ltb, ◌==◌,
  Bool-cases, inl, inr, arith,
}
use clibutl.Prelude.Fault.{Ends}
use clibutl.Pmx.Store.{
  Text, Pmx, Level, max_capt, peek, advance, newcap, state_push, state_top, set_top, set_capt,
}
use clibutl.Pmx.Match.{Machine, machine, Stepped, next, failed, step_open, step_matched, step_close}

-- The level that `(` opens.
abbrev Opened : Machine → (inv : Bool) → (pat : Text) → Stepped → Type 0
Opened m inv pat (failed m') = ⊥
Opened m inv pat (next m') =
    (m'.pat ≡ pat)
    × (m'.txt ≡ m.txt)
    × (state_top m'.x
        ≡ some (record {
          pat = pat;
          txt = m.txt;
          min_n = 1;
          max_n = 1;
          n = 0;
          inv = inv;
          cap = m.x.capnum;
        }))

-- A group that is not marked with '|' is taken for an inverted one after an inverted group: the mark
-- is never taken back. With room on the stack, the group's level has the mark of the last one.
step_open-inv :
    (m : Machine) (c : ℕ) (rest : Text)
    → m.pat ≡ b'(' ∷ c ∷ rest
    → c ≢ b'|'
    → length m.x.stack < max_capt
    → Ends (step_open m) (Opened m m.inv (c ∷ rest))
unfolding step_open state_push newcap state_top peek advance
step_open-inv m c rest e ne room =
    let plain : (c == b'|') ≡ false = ground arith in
    let free : leb max_capt (length m.x.stack) ≡ false = ground arith in
    rw (e, plain, free, Ends) (refl, refl, refl)

-- A group that was opened with all sixteen captures in use, so that its own would be number 16: the
-- `)` that closes it writes past the array of captures.
step_close-overflow :
    (x : Pmx) (rest txt : Text) (inv : Bool) (l l' : Level) (ls : List Level)
    → l.inv ≡ false
    → l.cap ≡ max_capt
    → length x.capt ≡ max_capt
    → step_close (machine (b')' ∷ rest) txt inv (record x { stack = l ∷ l' ∷ ls })) ≡ none
unfolding step_close step_matched state_top set_top set_capt advance
step_close-overflow x rest txt inv l l' ls plain cap slots =
    let two : ltb (suc (suc (length ls))) 2 ≡ false = ground arith in
    let past : ltb l.cap (length x.capt) ≡ false = ground arith in
    elim (Bool-cases (ltb (suc l.n) l.max_n)) [
      | inl again ↦ rw (two, step_close) (simp (plain, again, past))
      | inr last ↦ rw (two, step_close) (simp (plain, last, past))
    ]
