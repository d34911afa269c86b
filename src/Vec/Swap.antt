-- ===== src/Vec/Swap.antt =====
-- src/utl_vec.c: `utl_dpqswap`, which exchanges two elements of a vector byte by byte. A pointer is a
-- position in the buffer.
pub mod Exchange
pub mod Remainder
use clibutl.Prelude.{
  ℕ, zero, suc, ◌+◌, ◌-◌, ◌*◌, ◌/◌, ◌%◌, Bool, true, false, Option, none, some, leb, ltb, ◌==◌,
  ◌&&◌, if◌then◌else◌,
}
use clibutl.Prelude.Fault.{◌>>=◌}

-- The bytes of the buffer.
pub record Bytes : Type 0 where
  pub len : ℕ
  pub byte : ℕ → ℕ

-- `n` bytes from `p` on.
abbrev pub written : Bytes → (n p : ℕ) → (ℕ → ℕ) → Bytes
written m n p f = record m { byte = λ j. if leb p j && ltb j (p + n) then f (j - p) else m.byte j }

-- tmp = *pa; *pa = *pb; *pb = tmp; for words of `n` bytes, `none` outside the buffer.
unfoldable pub swap_part : (n : ℕ) → Bytes → (pa pb : ℕ) → Option Bytes
swap_part n m pa pb =
    if leb (pa + n) m.len && leb (pb + n) m.len
    then some (written (written m n pa (λ i. m.byte (pb + i))) n pb (λ i. m.byte (pa + i)))
    else none

-- while (sz >= 4) ...
unfoldable pub swap_words : (words : ℕ) → Bytes → (pa pb : ℕ) → Option Bytes
swap_words zero m pa pb = some m
swap_words (suc words) m pa pb = do m' ← swap_part 4 m pa pb; swap_words words m' (pa + 4) (pb + 4)

-- The cases 3, 2 and 1 of the switch, each with the next: pa--; pb--; in between.
unfoldable pub swap_rest : (sz : ℕ) → Bytes → (pa pb : ℕ) → Option Bytes
swap_rest zero m pa pb = some m
swap_rest (suc zero) m pa pb = swap_part 1 m pa pb
swap_rest (suc (suc sz)) m zero pb = none
swap_rest (suc (suc sz)) m (suc pa) zero = none
swap_rest (suc (suc sz)) m (suc pa) (suc pb) = do
  m' ← swap_part 1 m (suc pa) (suc pb)
  swap_rest (suc sz) m' pa pb

unfoldable pub dpqswap : Bytes → (a b sz : ℕ) → Option Bytes
dpqswap m a b sz = if a == b then some m else (do
  m' ← swap_words (sz / 4) m a b
  swap_rest (sz % 4) m' (a + sz / 4 * 4) (b + sz / 4 * 4))
