-- ===== src/Vec/Swap/Remainder.antt =====
-- src/utl_vec.c: `utl_dpqswap` of elements whose size leaves a remainder of two.
use clibutl.Prelude.{ℕ, zero, suc, ◌+◌, ◌-◌, ◌*◌, ◌/◌, ◌%◌, ◌≤◌, ◌<◌, ◌≡◌, ◌∙◌, false, ◌==◌, arith}
use clibutl.Prelude.Fault.{Ends, Ends-bind, Ends-map}
use clibutl.Vec.Swap.{Bytes, swap_part, swap_words, swap_rest, dpqswap}
use clibutl.Vec.Swap.Exchange.{
  Apart, IsExchange, part-IsExchange, words-IsExchange, Apart-begin, Apart-rest,
}

-- The byte at `j` is the same.
abbrev Unchanged : Bytes → ℕ → Bytes → Type 0
Unchanged m j m' = m'.byte j ≡ m.byte j

two_left :
    (m : Bytes) (a b : ℕ)
    → 0 < a
    → 0 < b
    → Apart m a b 2
    → a + 2 ≤ b
    → Ends (swap_rest 2 m a b) (Unchanged m (b + 1))
unfolding swap_rest
two_left m zero b pos pos' apart before = absurd (omega arith)
two_left m (suc a) zero pos pos' apart before = absurd (omega arith)
two_left m (suc a) (suc b) pos pos' apart before =
    Ends-bind (IsExchange m (suc a) (suc b) 1) (Unchanged m (suc b + 1))
      (swap_part 1 m (suc a) (suc b)) _
      (part-IsExchange 1 m (suc a) (suc b) (Apart-begin m (suc a) (suc b) 1 1 apart))
      (λ m' start.
        Ends-map (IsExchange m' a b 1) (Unchanged m (suc b + 1)) (swap_part 1 m' a b)
          (λ m'' end.
            end.others (suc b + 1) (ground arith) (ground arith)
            ∙ start.others (suc b + 1) (ground arith) (ground arith))
          (part-IsExchange 1 m' a b (record {
            first = omega (arith, apart.first, start.kept);
            second = omega (arith, apart.second, start.kept);
            disjoint = ground arith;
          })))

-- The last byte of the later one of two elements is the same after `utl_dpqswap`, where their size
-- leaves a remainder of two by four: the elements are not exchanged.
pub dpqswap_stays :
    (m : Bytes) (a b sz : ℕ)
    → 0 < a
    → a + sz ≤ b
    → b + sz ≤ m.len
    → sz % 4 ≡ 2
    → Ends (dpqswap m a b sz) (Unchanged m (b + (sz - 1)))
unfolding dpqswap
dpqswap_stays m a b sz pos before inside two =
    let other : (a == b) ≡ false = ground arith in
    let at : b + (sz - 1) ≡ b + sz / 4 * 4 + 1 = omega arith in
    let apart : Apart m a b (sz / 4 * 4 + 2) = record {
      first = omega arith;
      second = omega arith;
      disjoint = ground arith;
    } in
    rw (other, two, at, dpqswap)
      (Ends-bind (IsExchange m a b (sz / 4 * 4)) (Unchanged m (b + sz / 4 * 4 + 1))
        (swap_words (sz / 4) m a b) _
        (words-IsExchange (sz / 4) m a b (Apart-begin m a b (sz / 4 * 4) 2 apart))
        (λ m' start.
          Ends-map (Unchanged m' (b + sz / 4 * 4 + 1)) (Unchanged m (b + sz / 4 * 4 + 1))
            (swap_rest 2 m' (a + sz / 4 * 4) (b + sz / 4 * 4))
            (λ m'' same. same ∙ start.others (b + sz / 4 * 4 + 1) (ground arith) (ground arith))
            (two_left m' (a + sz / 4 * 4) (b + sz / 4 * 4) (omega arith) (omega arith)
              (Apart-rest m m' a b (sz / 4 * 4) 2 apart start.kept) (omega arith))))
