-- ===== src/Vec/Buf/Del.antt =====
-- src/utl_vec.c, `utl_buf_del`: removing characters from a text.
use native.Mathlib.Nat.{mul-le-mul_right}
use clibutl.Prelude.{
  ℕ, zero, suc, [], ◌∷◌, ◌+◌, ◌-◌, ◌/◌, ◌≤◌, ◌<◌, ◌≡◌, ◌∙◌, refl, sym, ap, Bool, true, false, List,
  Option, none, some, get_elem?, length, take, drop, add32, sub32, u32_max, u32_mod, if◌then◌else◌,
  inl, inr, arith, length-append, length-take, length-drop,
}
use clibutl.Prelude.Fault.{◌>>=◌, Ends, Ends-bind}
use clibutl.Vec.Slots.{Allocator}
use clibutl.Vec.Defs.{Vec, items, delgap}
use clibutl.Vec.Growth.{IsValid, IsAffordable}
use clibutl.Vec.Insert.{length-items}
use clibutl.Vec.Remove.{remove_at, delgap-Removed, delgap-rest}
use clibutl.Vec.Buf.{terminate, terminate_lem, IsText, Terminated}

unfoldable pub buf_del : Allocator ℕ → Vec ℕ → (i j : ℕ) → Option (Bool × Vec ℕ)
buf_del os b i j = do
  (r, b') ← delgap b i (add32 (sub32 j i) 1)
  if r then (do b'' ← terminate os b'; some (r, b'')) else some (r, b')

Ends-and {ℓ} :
    {A : Type ℓ} (P Q : A → Type 0) (o : Option A) → Ends o P → Ends o Q → Ends o (λ a. P a × Q a)
Ends-and P Q none p q = elim p [ ]
Ends-and P Q (some a) p q = (p, q)

get_elem?-length : (xs : List ℕ) (n x : ℕ) → get_elem? xs n ≡ some x → n < length xs
get_elem?-length [] n x e = absurd (let none_some : none ≡ some x = e in cc)
get_elem?-length (y ∷ xs) zero x e = omega arith
get_elem?-length (y ∷ xs) (suc n) x e = omega (arith, get_elem?-length xs n x e)

module _ (os : Allocator ℕ) (b : Vec ℕ) (i j : ℕ) (text : IsText b) (afford : IsAffordable b b.cnt)
    (le : i ≤ j) (below : j < u32_max) where
  abbrev left : List ℕ
  left = remove_at i (j - i + 1) (items b)

  -- The text without the characters from `i` to `j`, and the NUL behind it.
  abbrev pub Shortened : Bool × Vec ℕ → Type 0
  Shortened (r, w) = (r ≡ true) × IsText w × (items w ≡ left)

  abbrev CutTo : Bool × Vec ℕ → Type 0
  CutTo (r, u) = (r ≡ true) × IsValid u × (items u ≡ left)

  abbrev Rest : Bool × Vec ℕ → Type 0
  Rest (r, u) = u ≡ record b { vec = u.vec; cnt = u.cnt }

  left_short : length left ≤ b.cnt
  left_short = omega (
    arith,
    length-append (take i (items b)) (drop (i + (j - i + 1)) (items b)),
    length-take i (items b),
    length-drop (i + (j - i + 1)) (items b),
    length-items b text.valid,
  )

  fewer : (u : Vec ℕ) → IsValid u → items u ≡ left → u.cnt ≤ b.cnt
  fewer u valid same =
      let count : u.cnt ≡ length left = sym (length-items u valid) ∙ ap (λ xs. length xs) same in
      omega (arith, count, left_short)

  closed-Shortened :
      (u w : Vec ℕ) → CutTo (true, u) → Rest (true, u) → Terminated os u w → Shortened (true, w)
  unfolding Terminated
  closed-Shortened u w (done, valid, same) rest (inl (full, refused, e)) =
      let max_same : u.max ≡ b.max = ap (λ (x : Vec ℕ). x.max) rest in
      let last : b.cnt < length b.vec = get_elem?-length b.vec b.cnt 0 text.closed in
      absurd (omega (arith, full, max_same, last, text.valid.slots, fewer u valid same))
  closed-Shortened u w (done, valid, same) rest (inr (text', kept)) = (refl, text', kept ∙ same)

  cut-Shortened :
      (r : Bool × Vec ℕ)
      → CutTo r × Rest r
      → Ends (if r.0 then (terminate os r.1 >>= λ w. some (r.0, w)) else some (r.0, r.1)) Shortened
  cut-Shortened (false, u) (cut, rest) = absurd (let no : false ≡ true = cut.0 in cc)
  cut-Shortened (true, u) (cut, rest) =
      let esz_same : u.esz ≡ b.esz = ap (λ (x : Vec ℕ). x.esz) rest in
      let few : u.cnt ≤ b.cnt = fewer u cut.1 cut.2 in
      let less : u.cnt + u.cnt / 2 + 1 ≤ b.cnt + b.cnt / 2 + 1 = omega (arith, few) in
      Ends-bind (Terminated os u) Shortened (terminate os u) (λ w. some (true, w))
        (terminate_lem os u cut.1
          (rw esz_same (omega (arith, afford, mul-le-mul_right b.esz less))))
        (λ w t. closed-Shortened u w cut rest t)

  -- `utl_buf_del` of the characters from `i` to `j` of a text, for `i` up to `j` and `j` below
  -- `vec_MAX_CNT`, where the sizes fit 32 bits, leaves the others in their order, with a NUL behind
  -- them. Positions past the end remove nothing.
  pub buf_del_lem : Ends (buf_del os b i j) Shortened
  unfolding buf_del
  buf_del_lem =
      let len : add32 (sub32 j i) 1 ≡ j - i + 1 = omega (arith, le, below) in
      let fits : i + (j - i + 1) < u32_mod = omega (arith, le, below) in
      rw (len, buf_del)
        (Ends-bind (λ r. CutTo r × Rest r) Shortened (delgap b i (j - i + 1)) _
          (Ends-and CutTo Rest (delgap b i (j - i + 1))
            (delgap-Removed b text.valid i (j - i + 1) fits)
            (delgap-rest b text.valid i (j - i + 1) fits))
          cut-Shortened)
