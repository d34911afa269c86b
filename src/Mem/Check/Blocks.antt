-- ===== src/Mem/Check/Blocks.antt =====
-- The check bytes of a block: when `utl_check` calls a block valid, and which writes it notices.
use clibutl.Prelude.{
  ℕ, zero, suc, ◌+◌, ◌≤◌, ◌<◌, ◌≡◌, ◌≢◌, ◌↔◌, ◌∙◌, refl, ap, true, false, List, [], ◌∷◌, some,
  length, take, drop, get_or, leb, arith,
}
use clibutl.Prelude.Fault.{Ends}
use clibutl.Mem.Check.{
  mem_overflow, mem_valid, beg_chk, end_chk, Block, overwrite, write_bytes, read_bytes, same_bytes,
  check_block, sealed,
}

pub same_bytes_iff : (xs ys : List ℕ) → (same_bytes xs ys ≡ true) ↔ (xs ≡ ys)
unfolding same_bytes
same_bytes_iff xs ys = (same xs ys, λ e. rw e (self ys))
  where
    same : (xs ys : List ℕ) → same_bytes xs ys ≡ true → xs ≡ ys
    same [] [] h = refl
    same [] (y ∷ ys) h = cc
    same (x ∷ xs) [] h = cc
    same (x ∷ xs) (y ∷ ys) h = ground (arith, same xs ys)

    self : (ys : List ℕ) → same_bytes ys ys ≡ true
    self [] = refl
    self (y ∷ ys) = ground (arith, self ys)

-- A block as the allocator made it: both groups of check bytes are whole.
pub record IsSealed (b : Block) : Type 0 where
  pub before : b.chk ≡ beg_chk
  pub behind : read_bytes b.blk b.size 4 ≡ some end_chk

pub check-IsSealed : (b : Block) → IsSealed b → check_block b ≡ some mem_valid
unfolding check_block
check-IsSealed b s =
    rw
      ((same_bytes_iff b.chk beg_chk).1 s.before, s.behind, (same_bytes_iff end_chk end_chk).1 refl)
      refl

length-overwrite : (xs : List ℕ) (at : ℕ) (ys : List ℕ) → length (overwrite xs at ys) ≡ length xs
length-overwrite [] at ys = refl
length-overwrite (x ∷ xs) (suc at) ys = ap suc (length-overwrite xs at ys)
length-overwrite (x ∷ xs) zero [] = refl
length-overwrite (x ∷ xs) zero (y ∷ ys) = ap suc (length-overwrite xs zero ys)

-- What is written can be read again.
pub read-overwrite :
    (xs : List ℕ) (at : ℕ) (ys : List ℕ)
    → at + length ys ≤ length xs
    → take (length ys) (drop at (overwrite xs at ys)) ≡ ys
read-overwrite [] zero [] h = refl
read-overwrite [] (suc at) ys h = absurd (omega arith)
read-overwrite [] zero (y ∷ ys) h = absurd (omega arith)
read-overwrite (x ∷ xs) (suc at) ys h = read-overwrite xs at ys (omega arith)
read-overwrite (x ∷ xs) zero [] h = refl
read-overwrite (x ∷ xs) zero (y ∷ ys) h =
    ap (λ zs. y ∷ zs) (read-overwrite xs zero ys (omega arith))

-- A write below position `n` leaves the bytes from `n` on.
drop-overwrite :
    (xs : List ℕ) (at : ℕ) (ys : List ℕ) (n : ℕ)
    → at + length ys ≤ n
    → drop n (overwrite xs at ys) ≡ drop n xs
drop-overwrite [] at ys n h = refl
drop-overwrite (x ∷ xs) (suc at) ys zero h = absurd (omega arith)
drop-overwrite (x ∷ xs) (suc at) ys (suc n) h = drop-overwrite xs at ys n (omega arith)
drop-overwrite (x ∷ xs) zero [] n h = refl
drop-overwrite (x ∷ xs) zero (y ∷ ys) zero h = absurd (omega arith)
drop-overwrite (x ∷ xs) zero (y ∷ ys) (suc n) h = drop-overwrite xs zero ys n (omega arith)

-- And one from position `n` on leaves those before.
pub take-overwrite :
    (xs : List ℕ) (at : ℕ) (ys : List ℕ) (n : ℕ) → n ≤ at → take n (overwrite xs at ys) ≡ take n xs
take-overwrite [] at ys n h = refl
take-overwrite (x ∷ xs) (suc at) ys zero h = refl
take-overwrite (x ∷ xs) (suc at) ys (suc n) h =
    ap (λ zs. x ∷ zs) (take-overwrite xs at ys n (omega arith))
take-overwrite (x ∷ xs) zero [] n h = refl
take-overwrite (x ∷ xs) zero (y ∷ ys) zero h = refl
take-overwrite (x ∷ xs) zero (y ∷ ys) (suc n) h = absurd (omega arith)

pub write_bytes_lem :
    (xs : List ℕ) (at : ℕ) (ys : List ℕ)
    → at + length ys ≤ length xs
    → write_bytes xs at ys ≡ some (overwrite xs at ys)
unfolding write_bytes
write_bytes_lem xs at ys h =
    let fits : leb (at + length ys) (length xs) ≡ true = ground arith in rw fits

read_bytes_lem :
    (xs : List ℕ) (at n : ℕ) → at + n ≤ length xs → read_bytes xs at n ≡ some (take n (drop at xs))
unfolding read_bytes
read_bytes_lem xs at n h = let fits : leb (at + n) (length xs) ≡ true = ground arith in rw fits

-- The block that `utl_malloc` and `utl_realloc` make.
pub sealed_lem :
    (size : ℕ) (bytes : List ℕ)
    → length bytes ≡ size + 4
    → Ends
        (sealed size bytes)
        (λ b. IsSealed b × (b.size ≡ size) × (b.blk ≡ overwrite bytes size end_chk))
unfolding sealed
sealed_lem size bytes h =
    rw (write_bytes_lem bytes size end_chk (omega arith), Ends)
      (
        record {
          before = refl;
          behind =
              read_bytes_lem (overwrite bytes size end_chk) size 4
                (omega (arith, length-overwrite bytes size end_chk))
              ∙ ap some (read-overwrite bytes size end_chk (omega arith));
        },
        refl,
        refl,
      )

-- The bytes of a block up to its check bytes are all there.
pub IsSealed-length : (b : Block) → IsSealed b → b.size + 4 ≤ length b.blk
unfolding read_bytes
IsSealed-length b s = ground (arith, s.behind)

-- A write inside the block does no harm.
pub inside-IsSealed :
    (b : Block) (at : ℕ) (ys : List ℕ)
    → IsSealed b
    → at + length ys ≤ b.size
    → IsSealed (record b { blk = overwrite b.blk at ys })
unfolding read_bytes
inside-IsSealed b at ys s h = record {
  before = s.before;
  behind = rw (length-overwrite b.blk at ys, drop-overwrite b.blk at ys b.size h) (s.behind);
}

drop-overwrite_later :
    (xs : List ℕ) (n i : ℕ) (ys : List ℕ)
    → drop n (overwrite xs (n + i) ys) ≡ overwrite (drop n xs) i ys
drop-overwrite_later xs zero i ys = ap (λ k. overwrite xs k ys) (omega arith)
drop-overwrite_later [] (suc n) i ys = refl
drop-overwrite_later (x ∷ xs) (suc n) i ys =
    let e : suc n + i ≡ suc (n + i) = omega arith in rw e (drop-overwrite_later xs n i ys)

take-overwrite_byte :
    (xs : List ℕ) (m i v : ℕ) → take m (overwrite xs i (v ∷ [])) ≡ overwrite (take m xs) i (v ∷ [])
take-overwrite_byte [] zero i v = refl
take-overwrite_byte [] (suc m) i v = refl
take-overwrite_byte (x ∷ xs) zero zero v = refl
take-overwrite_byte (x ∷ xs) zero (suc i) v = refl
take-overwrite_byte (x ∷ xs) (suc m) zero v = ap (λ zs. v ∷ zs) (overwrite_nothing xs m)
  where
    overwrite_nothing :
        (xs : List ℕ) (m : ℕ) → take m (overwrite xs zero []) ≡ overwrite (take m xs) zero []
    overwrite_nothing [] zero = refl
    overwrite_nothing [] (suc m) = refl
    overwrite_nothing (x ∷ xs) zero = refl
    overwrite_nothing (x ∷ xs) (suc m) = refl
take-overwrite_byte (x ∷ xs) (suc m) (suc i) v = ap (λ zs. x ∷ zs) (take-overwrite_byte xs m i v)

other_byte :
    (i v : ℕ)
    → i < 4
    → get_or end_chk i 0 ≢ v
    → same_bytes (overwrite end_chk i (v ∷ [])) end_chk ≡ false
unfolding same_bytes
other_byte zero v h ne = ground arith
other_byte (suc zero) v h ne = ground arith
other_byte (suc (suc zero)) v h ne = ground arith
other_byte (suc (suc (suc zero))) v h ne = ground arith
other_byte (suc (suc (suc (suc i)))) v h ne = absurd (omega arith)

-- A write of another byte just past the end of the block is found out.
pub overrun-check :
    (b : Block) (i v : ℕ)
    → IsSealed b
    → i < 4
    → get_or end_chk i 0 ≢ v
    → check_block (record b { blk = overwrite b.blk (b.size + i) (v ∷ []) }) ≡ some mem_overflow
unfolding check_block read_bytes
overrun-check b i v s h ne =
    let fits : leb (b.size + 4) (length b.blk) ≡ true = ground (arith, IsSealed-length b s) in
    let found : take 4 (drop b.size b.blk) ≡ end_chk = ground (arith, s.behind) in
    rw
      (
        (same_bytes_iff b.chk beg_chk).1 s.before,
        length-overwrite b.blk (b.size + i) (v ∷ []),
        fits,
        drop-overwrite_later b.blk b.size i (v ∷ []),
        take-overwrite_byte (drop b.size b.blk) 4 i v,
        found,
        other_byte i v h ne,
      )
      refl
