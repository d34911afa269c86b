-- ===== src/Vec/Que/Inv.antt =====
-- The invariant of the queue and the list of its elements.
use clibutl.Prelude.{
  ℕ, ◌+◌, ◌-◌, ◌%◌, ◌<◌, ◌≡◌, List, ◌++◌, take, drop, leb, ◌==◌, if◌then◌else◌, u32_max,
}
use clibutl.Vec.Defs.{Vec}
use clibutl.Vec.Growth.{IsValid}

-- A position at most twice round the ring of `m` slots.
abbrev pub wrapped : (m k : ℕ) → ℕ
wrapped m k = if leb m k then k - m else k

module _ {ℓ} {A : Type ℓ} where
  -- The buffer from slot `k` on, round its end.
  abbrev pub rotate : ℕ → List A → List A
  rotate k xs = drop k xs ++ take k xs

  -- The elements in the queue, oldest first.
  abbrev pub contents : Vec A → List A
  contents v = take v.cnt (rotate v.fst v.vec)

  -- `lst` is `cnt` slots behind `fst`. The capacity is even, as every growth leaves it.
  pub record IsQueue (v : Vec A) : Type 0 where
    pub valid : IsValid v
    pub even : v.max % 2 ≡ 0
    pub start : v.fst < v.max
    pub behind : (if v.lst == u32_max then 0 else v.lst) ≡ wrapped v.max (v.fst + v.cnt)
