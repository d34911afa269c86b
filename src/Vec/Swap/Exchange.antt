-- ===== src/Vec/Swap/Exchange.antt =====
-- src/utl_vec.c: what `utl_dpqswap` exchanges.
use clibutl.Prelude.{
  ℕ, zero, suc, ◌+◌, ◌-◌, ◌*◌, ◌/◌, ◌%◌, ◌≤◌, ◌<◌, ◌≡◌, ◌⊎◌, ◌∙◌, refl, ap, true, false, leb, ltb,
  ◌==◌, ◌&&◌, Bool-cases, inl, inr, arith,
}
use clibutl.Prelude.Fault.{Ends, Ends-bind, Ends-map}
use clibutl.Vec.Swap.{Bytes, written, swap_part, swap_words, swap_rest, dpqswap}

-- Two parts of the buffer that do not overlap.
pub record Apart (m : Bytes) (a b n : ℕ) : Type 0 where
  pub first : a + n ≤ m.len
  pub second : b + n ≤ m.len
  pub disjoint : (a + n ≤ b) ⊎ (b + n ≤ a)

-- The `n` bytes at `a` and those at `b` have changed places, and no others have changed.
pub record IsExchange (m : Bytes) (a b n : ℕ) (m' : Bytes) : Type 0 where
  pub kept : m'.len ≡ m.len
  pub at_a : (i : ℕ) → i < n → m'.byte (a + i) ≡ m.byte (b + i)
  pub at_b : (i : ℕ) → i < n → m'.byte (b + i) ≡ m.byte (a + i)
  pub others : (j : ℕ) → (j < a) ⊎ (a + n ≤ j) → (j < b) ⊎ (b + n ≤ j) → m'.byte j ≡ m.byte j

written-inside : (m : Bytes) (n p i : ℕ) (f : ℕ → ℕ) → i < n → (written m n p f).byte (p + i) ≡ f i
written-inside m n p i f lt =
    let inside : (leb p (p + i) && ltb (p + i) (p + n)) ≡ true = ground arith in
    let back : p + i - p ≡ i = omega arith in rw (inside, back) refl

written-outside :
    (m : Bytes) (n p j : ℕ) (f : ℕ → ℕ)
    → (j < p) ⊎ (p + n ≤ j)
    → (written m n p f).byte j ≡ m.byte j
written-outside m n p j f out =
    let outside : (leb p j && ltb j (p + n)) ≡ false = ground arith in rw outside refl

pub part-IsExchange :
    (n : ℕ) (m : Bytes) (a b : ℕ) → Apart m a b n → Ends (swap_part n m a b) (IsExchange m a b n)
unfolding swap_part
part-IsExchange n m a b apart =
    let fits : (leb (a + n) m.len && leb (b + n) m.len) ≡ true =
      ground (arith, apart.first, apart.second) in
    let m' : Bytes = written m n a (λ i. m.byte (b + i)) in
    rw (fits, swap_part, Ends)
      (record {
        kept = refl;
        at_a = λ i lt.
            written-outside m' n b (a + i) (λ i. m.byte (a + i)) (ground (arith, apart.disjoint))
            ∙ written-inside m n a i (λ i. m.byte (b + i)) lt;
        at_b = λ i lt. written-inside m' n b i (λ i. m.byte (a + i)) lt;
        others = λ j p q.
            written-outside m' n b j (λ i. m.byte (a + i)) q
            ∙ written-outside m n a j (λ i. m.byte (b + i)) p;
      })

module _ (m m' m'' : Bytes) (a b k n : ℕ) (apart : Apart m a b (k + n))
    (start : IsExchange m a b k m') (end : IsExchange m' (a + k) (b + k) n m'') where
  joined_a : (i : ℕ) → i < k + n → m''.byte (a + i) ≡ m.byte (b + i)
  joined_a i lt = elim (Bool-cases (ltb i k)) [
    | inl before ↦
        end.others (a + i) (ground (arith, apart.disjoint)) (ground (arith, apart.disjoint))
        ∙ start.at_a i (ground arith)
    | inr behind ↦
        let left : a + i ≡ a + k + (i - k) = ground arith in
        let right : b + k + (i - k) ≡ b + i = ground arith in
        ap m''.byte left
        ∙ end.at_a (i - k) (ground arith)
        ∙ start.others (b + k + (i - k)) (ground (arith, apart.disjoint))
            (ground (arith, apart.disjoint))
        ∙ ap m.byte right
  ]

  joined_b : (i : ℕ) → i < k + n → m''.byte (b + i) ≡ m.byte (a + i)
  joined_b i lt = elim (Bool-cases (ltb i k)) [
    | inl before ↦
        end.others (b + i) (ground (arith, apart.disjoint)) (ground (arith, apart.disjoint))
        ∙ start.at_b i (ground arith)
    | inr behind ↦
        let left : b + i ≡ b + k + (i - k) = ground arith in
        let right : a + k + (i - k) ≡ a + i = ground arith in
        ap m''.byte left
        ∙ end.at_b (i - k) (ground arith)
        ∙ start.others (a + k + (i - k)) (ground (arith, apart.disjoint))
            (ground (arith, apart.disjoint))
        ∙ ap m.byte right
  ]

  -- The exchange of `k` bytes and of the `n` behind them is one of all.
  joined-IsExchange : IsExchange m a b (k + n) m''
  joined-IsExchange = record {
    kept = end.kept ∙ start.kept;
    at_a = joined_a;
    at_b = joined_b;
    others = λ j p q.
        end.others j (ground arith) (ground arith) ∙ start.others j (ground arith) (ground arith);
  }

none-IsExchange : (m : Bytes) (a b : ℕ) → IsExchange m a b 0 m
none-IsExchange m a b = record {
  kept = refl;
  at_a = λ i lt. absurd (omega arith);
  at_b = λ i lt. absurd (omega arith);
  others = λ j p q. refl;
}

-- The rest of two parts behind their first bytes, in a buffer of the same length.
pub Apart-rest :
    (m m' : Bytes) (a b k n : ℕ) → Apart m a b (k + n) → m'.len ≡ m.len → Apart m' (a + k) (b + k) n
Apart-rest m m' a b k n apart same = record {
  first = omega (arith, apart.first);
  second = omega (arith, apart.second);
  disjoint = ground (arith, apart.disjoint);
}

pub Apart-begin : (m : Bytes) (a b k n : ℕ) → Apart m a b (k + n) → Apart m a b k
Apart-begin m a b k n apart = record {
  first = omega (arith, apart.first);
  second = omega (arith, apart.second);
  disjoint = ground (arith, apart.disjoint);
}

pub words-IsExchange :
    (words : ℕ) (m : Bytes) (a b : ℕ)
    → Apart m a b (words * 4)
    → Ends (swap_words words m a b) (IsExchange m a b (words * 4))
unfolding swap_words
words-IsExchange zero m a b apart = none-IsExchange m a b
words-IsExchange (suc words) m a b apart =
    let more : 4 + words * 4 ≡ suc words * 4 = omega arith in
    let apart' : Apart m a b (4 + words * 4) = rw more apart in
    rw (← more) (
      Ends-bind (IsExchange m a b 4) (IsExchange m a b (4 + words * 4)) (swap_part 4 m a b) _
        (part-IsExchange 4 m a b (Apart-begin m a b 4 (words * 4) apart'))
        (λ m' start.
          Ends-map (IsExchange m' (a + 4) (b + 4) (words * 4)) (IsExchange m a b (4 + words * 4))
            (swap_words words m' (a + 4) (b + 4))
            (λ m'' end. joined-IsExchange m m' m'' a b 4 (words * 4) apart' start end)
            (words-IsExchange words m' (a + 4) (b + 4)
              (Apart-rest m m' a b 4 (words * 4) apart' start.kept))))

rest-IsExchange :
    (n : ℕ) (m : Bytes) (a b : ℕ)
    → n ≤ 1
    → Apart m a b n
    → Ends (swap_rest n m a b) (IsExchange m a b n)
unfolding swap_rest
rest-IsExchange zero m a b le apart = none-IsExchange m a b
rest-IsExchange (suc zero) m a b le apart = part-IsExchange 1 m a b apart
rest-IsExchange (suc (suc n)) m a b le apart = absurd (omega arith)

module _ (m : Bytes) (a b sz : ℕ) (apart : Apart m a b sz) where
  words : ℕ
  words = sz / 4 * 4

  split : words + sz % 4 ≡ sz
  unfolding words
  split = omega arith

  apart' : Apart m a b (words + sz % 4)
  apart' = rw split apart

  -- `utl_dpqswap` exchanges two elements that do not overlap, where their size is a multiple of four
  -- or one more, and touches no other byte.
  pub dpqswap_lem : sz % 4 ≤ 1 → Ends (dpqswap m a b sz) (IsExchange m a b sz)
  unfolding dpqswap words
  dpqswap_lem small = elim (Bool-cases (a == b)) [
    | inl same ↦
        let none_left : sz ≡ 0 = ground (arith, apart.disjoint) in
        rw (same, none_left, dpqswap, Ends) (none-IsExchange m a b)
    | inr other ↦
        rw (other, dpqswap)
          (Ends-bind (IsExchange m a b words) (IsExchange m a b sz) (swap_words (sz / 4) m a b) _
            (words-IsExchange (sz / 4) m a b (Apart-begin m a b words (sz % 4) apart'))
            (λ m' start.
              Ends-map (IsExchange m' (a + words) (b + words) (sz % 4)) (IsExchange m a b sz)
                (swap_rest (sz % 4) m' (a + words) (b + words))
                (λ m'' end.
                  rw (← split) (joined-IsExchange m m' m'' a b words (sz % 4) apart' start end))
                (rest-IsExchange (sz % 4) m' (a + words) (b + words) small
                  (Apart-rest m m' a b words (sz % 4) apart' start.kept))))
  ]
