-- ===== src/Prelude/Lists.antt =====
-- Lists measured and indexed by native numbers, under the library's names: the model of the C
-- arrays of the library, and of its strings and linked lists.
use Prim.Native.Nat.{ℕ, zero, suc, ◌+◌, ◌-◌, ◌≤◌, ◌<◌, min}
use mathlib.Core.Path.{◌≡◌, refl, sym, ap, ◌∙◌}
use mathlib.Core.Logic.{◌≢◌}
use mathlib.Core.List.{List, [], ◌∷◌, ◌++◌}
use mathlib.Core.Option.{Option, none, some}
use native.Mathlib.Omega.{arith}

module _ {ℓ} {A : Type ℓ} where
  abbrev pub length : List A → ℕ
  length [] = 0
  length (x ∷ xs) = suc (length xs)

  abbrev pub get_elem? : List A → ℕ → Option A
  get_elem? [] i = none
  get_elem? (x ∷ xs) zero = some x
  get_elem? (x ∷ xs) (suc i) = get_elem? xs i

  -- A write out of bounds changes nothing.
  abbrev pub set : List A → ℕ → A → List A
  set [] i v = []
  set (x ∷ xs) zero v = v ∷ xs
  set (x ∷ xs) (suc i) v = x ∷ set xs i v

  abbrev pub take : ℕ → List A → List A
  take zero xs = []
  take (suc n) [] = []
  take (suc n) (x ∷ xs) = x ∷ take n xs

  abbrev pub drop : ℕ → List A → List A
  drop zero xs = xs
  drop (suc n) [] = []
  drop (suc n) (x ∷ xs) = drop n xs

  abbrev pub replicate : ℕ → A → List A
  replicate zero a = []
  replicate (suc n) a = a ∷ replicate n a

  pub length-append : (xs ys : List A) → length (xs ++ ys) ≡ length xs + length ys
  length-append [] ys = omega arith
  length-append (x ∷ xs) ys = omega (arith, length-append xs ys)

module _ {ℓ} {A : Type ℓ} where
  pub length-set : (xs : List A) (i : ℕ) (v : A) → length (set xs i v) ≡ length xs
  length-set [] i v = refl
  length-set (x ∷ xs) zero v = refl
  length-set (x ∷ xs) (suc i) v = ap suc (length-set xs i v)

  pub length-take : (n : ℕ) (xs : List A) → length (take n xs) ≡ min n (length xs)
  length-take zero xs = omega arith
  length-take (suc n) [] = omega arith
  length-take (suc n) (x ∷ xs) = omega (arith, length-take n xs)

  pub length-drop : (n : ℕ) (xs : List A) → length (drop n xs) ≡ length xs - n
  length-drop zero xs = omega arith
  length-drop (suc n) [] = omega arith
  length-drop (suc n) (x ∷ xs) = omega (arith, length-drop n xs)

  pub length-replicate : (n : ℕ) (a : A) → length (replicate n a) ≡ n
  length-replicate zero a = refl
  length-replicate (suc n) a = ap suc (length-replicate n a)

  pub take-append-drop : (n : ℕ) (xs : List A) → take n xs ++ drop n xs ≡ xs
  take-append-drop zero xs = refl
  take-append-drop (suc n) [] = refl
  take-append-drop (suc n) (x ∷ xs) = ap (λ ys. x ∷ ys) (take-append-drop n xs)

  pub get_elem?-set_self :
      (xs : List A) (i : ℕ) (v : A) → i < length xs → get_elem? (set xs i v) i ≡ some v
  get_elem?-set_self [] i v h = elim h [ ]
  get_elem?-set_self (x ∷ xs) zero v h = refl
  get_elem?-set_self (x ∷ xs) (suc i) v h = get_elem?-set_self xs i v (omega arith)

  pub get_elem?-set_ne :
      (xs : List A) {i j : ℕ} (v : A) → i ≢ j → get_elem? (set xs i v) j ≡ get_elem? xs j
  get_elem?-set_ne [] v h = refl
  get_elem?-set_ne (x ∷ xs) {i = zero} {j = zero} v h = absurd (h refl)
  get_elem?-set_ne (x ∷ xs) {i = zero} {j = suc j} v h = refl
  get_elem?-set_ne (x ∷ xs) {i = suc i} {j = zero} v h = refl
  get_elem?-set_ne (x ∷ xs) {i = suc i} {j = suc j} v h = get_elem?-set_ne xs v (λ e. h (ap suc e))

  pub take-nil : (n : ℕ) → take {A = A} n [] ≡ []
  take-nil zero = refl
  take-nil (suc n) = refl

  pub take-all : (n : ℕ) (xs : List A) → length xs ≤ n → take n xs ≡ xs
  take-all zero [] h = refl
  take-all zero (x ∷ xs) h = absurd (omega arith)
  take-all (suc n) [] h = refl
  take-all (suc n) (x ∷ xs) h = ap (λ ys. x ∷ ys) (take-all n xs (omega arith))

  pub take-take : (m n : ℕ) (xs : List A) → m ≤ n → take m (take n xs) ≡ take m xs
  take-take zero n xs h = refl
  take-take (suc m) zero xs h = absurd (omega arith)
  take-take (suc m) (suc n) [] h = refl
  take-take (suc m) (suc n) (x ∷ xs) h = ap (λ ys. x ∷ ys) (take-take m n xs (omega arith))

  pub take-append_short : (n : ℕ) (xs ys : List A) → n ≤ length xs → take n (xs ++ ys) ≡ take n xs
  take-append_short zero xs ys h = refl
  take-append_short (suc n) [] ys h = absurd (omega arith)
  take-append_short (suc n) (x ∷ xs) ys h =
      ap (λ zs. x ∷ zs) (take-append_short n xs ys (omega arith))

  pub drop-take : (l n : ℕ) (xs : List A) → drop l (take n xs) ≡ take (n - l) (drop l xs)
  drop-take zero n xs = ap (λ k. take k xs) (omega arith)
  drop-take (suc l) zero [] = sym (take-nil (0 - suc l))
  drop-take (suc l) zero (x ∷ xs) =
      let e : zero ≡ 0 - suc l = omega arith in ap (λ k. take k (drop l xs)) e
  drop-take (suc l) (suc n) [] = sym (take-nil (suc n - suc l))
  drop-take (suc l) (suc n) (x ∷ xs) = drop-take l n xs ∙ ap (λ k. take k (drop l xs)) (omega arith)

  pub get_elem?-take :
      (n : ℕ) (xs : List A) (i : ℕ) → i < n → get_elem? (take n xs) i ≡ get_elem? xs i
  get_elem?-take zero xs i h = absurd (omega arith)
  get_elem?-take (suc n) [] i h = refl
  get_elem?-take (suc n) (x ∷ xs) zero h = refl
  get_elem?-take (suc n) (x ∷ xs) (suc i) h = get_elem?-take n xs i (omega arith)

  -- A list of equal content up to a length has the same beginnings up to it.
  pub take-of_take : (m n : ℕ) (xs ys : List A) → m ≤ n → take n xs ≡ ys → take m xs ≡ take m ys
  take-of_take m n xs ys h e = sym (take-take m n xs h) ∙ ap (take m) e

  -- `memmove` up by one and a write make an insertion: the slots `i` to `cnt` go to `i + 1`.
  pub take-set_shift :
      (xs : List A) (i cnt : ℕ) (e : A)
      → i ≤ cnt
      → cnt < length xs
      → take
          (suc cnt)
          (set (take (suc i) xs ++ (take (cnt - i) (drop i xs) ++ drop (suc cnt) xs)) i e)
        ≡ take i (take cnt xs) ++ (e ∷ drop i (take cnt xs))
  take-set_shift [] i cnt e p q = absurd (omega arith)
  take-set_shift (x ∷ xs) zero cnt e p q =
      let k : cnt - 0 ≡ cnt = omega arith in
      rw k (
        ap (λ ys. e ∷ ys)
          (take-append_short cnt (take cnt (x ∷ xs)) (drop cnt xs)
              (omega (arith, length-take cnt (x ∷ xs)))
            ∙ take-take cnt cnt (x ∷ xs) (omega arith)))
  take-set_shift (x ∷ xs) (suc i) zero e p q = absurd (omega arith)
  take-set_shift (x ∷ xs) (suc i) (suc cnt) e p q =
      let k : suc cnt - suc i ≡ cnt - i = omega arith in
      rw k (ap (λ ys. x ∷ ys) (take-set_shift xs i cnt e (omega arith) (omega arith)))

  -- `memmove` down makes a removal: the `k` slots from `m` on go to `i`.
  pub take-shift_down :
      (xs : List A) (i m k : ℕ)
      → i ≤ m
      → m + k ≤ length xs
      → take (i + k) (take i xs ++ (take k (drop m xs) ++ drop (i + k) xs))
        ≡ take i (take (m + k) xs) ++ drop m (take (m + k) xs)
  take-shift_down xs zero m k p q =
      let e : 0 + k ≡ k = omega arith in
      let f : m + k - m ≡ k = omega arith in
      rw (e, drop-take, f)
        (take-append_short k (take k (drop m xs)) (drop k xs)
            (omega (arith, length-take k (drop m xs), length-drop m xs))
          ∙ take-take k k (drop m xs) (omega arith))
  take-shift_down [] (suc i) m k p q = absurd (omega arith)
  take-shift_down (x ∷ xs) (suc i) zero k p q = absurd (omega arith)
  take-shift_down (x ∷ xs) (suc i) (suc m) k p q =
      let e : suc i + k ≡ suc (i + k) = omega arith in
      let f : suc m + k ≡ suc (m + k) = omega arith in
      rw (e, f) (ap (λ ys. x ∷ ys) (take-shift_down xs i m k (omega arith) (omega arith)))

  -- A write just past the first `cnt` slots appends to them.
  pub take-set_end :
      (xs : List A) (cnt : ℕ) (e : A)
      → cnt < length xs
      → take (suc cnt) (set xs cnt e) ≡ take cnt (take cnt xs) ++ (e ∷ drop cnt (take cnt xs))
  take-set_end [] cnt e h = absurd (omega arith)
  take-set_end (x ∷ xs) zero e h = refl
  take-set_end (x ∷ xs) (suc cnt) e h = ap (λ ys. x ∷ ys) (take-set_end xs cnt e (omega arith))

  pub drop-all : (n : ℕ) (xs : List A) → length xs ≤ n → drop n xs ≡ []
  drop-all zero [] h = refl
  drop-all zero (x ∷ xs) h = absurd (omega arith)
  drop-all (suc n) [] h = refl
  drop-all (suc n) (x ∷ xs) h = drop-all n xs (omega arith)

module _ {ℓ} {A : Type ℓ} where
  abbrev pub get_or : List A → ℕ → A → A
  get_or [] i d = d
  get_or (x ∷ xs) zero d = x
  get_or (x ∷ xs) (suc i) d = get_or xs i d

  pub get_elem?-eq-get_or :
      (xs : List A) (i : ℕ) (d : A) → i < length xs → get_elem? xs i ≡ some (get_or xs i d)
  get_elem?-eq-get_or [] i d h = absurd (omega arith)
  get_elem?-eq-get_or (x ∷ xs) zero d h = refl
  get_elem?-eq-get_or (x ∷ xs) (suc i) d h = get_elem?-eq-get_or xs i d (omega arith)

  pub get_or-past : (xs : List A) (i : ℕ) (d : A) → length xs ≤ i → get_or xs i d ≡ d
  get_or-past [] i d h = refl
  get_or-past (x ∷ xs) zero d h = absurd (omega arith)
  get_or-past (x ∷ xs) (suc i) d h = get_or-past xs i d (omega arith)

  pub get_or-take :
      (n : ℕ) (xs : List A) (i : ℕ) (d : A) → i < n → get_or (take n xs) i d ≡ get_or xs i d
  get_or-take zero xs i d h = absurd (omega arith)
  get_or-take (suc n) [] i d h = refl
  get_or-take (suc n) (x ∷ xs) zero d h = refl
  get_or-take (suc n) (x ∷ xs) (suc i) d h = get_or-take n xs i d (omega arith)

  pub get_or-append_end :
      (xs ys : List A) (x d : A) (n : ℕ) → length xs ≡ n → get_or (xs ++ (x ∷ ys)) n d ≡ x
  get_or-append_end [] ys x d n h = ap (λ k. get_or (x ∷ ys) k d) (sym h)
  get_or-append_end (y ∷ xs) ys x d zero h = absurd (omega arith)
  get_or-append_end (y ∷ xs) ys x d (suc n) h = get_or-append_end xs ys x d n (omega arith)

  pub take-append_left : (xs ys : List A) (n : ℕ) → length xs ≡ n → take n (xs ++ ys) ≡ xs
  take-append_left xs ys n h = take-append_short n xs ys (omega arith) ∙ take-all n xs (omega arith)

  pub drop-append_short :
      (n : ℕ) (xs ys : List A) → n ≤ length xs → drop n (xs ++ ys) ≡ drop n xs ++ ys
  drop-append_short zero xs ys h = refl
  drop-append_short (suc n) [] ys h = absurd (omega arith)
  drop-append_short (suc n) (x ∷ xs) ys h = drop-append_short n xs ys (omega arith)

  pub drop-append_left : (xs ys : List A) (n : ℕ) → length xs ≡ n → drop n (xs ++ ys) ≡ ys
  drop-append_left xs ys n h =
      drop-append_short n xs ys (omega arith) ∙ ap (λ zs. zs ++ ys) (drop-all n xs (omega arith))
