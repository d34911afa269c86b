-- ===== src/Vec/Tests.antt =====
-- Runs of the vector and of the queue, and each theorem at an input.
mod Sets
mod Hashed
mod Trees
use clibutl.Prelude.{
  ℕ, zero, suc, ◌/◌, ◌≤◌, ◌<◌, ◌≡◌, ◌⊎◌, ◌∙◌, refl, ap, true, false, List, [], ◌∷◌, none, some,
  length, take, u32_max, arith,
}
use clibutl.Prelude.Fault.{Ends}
use clibutl.Vec.Slots.{Allocator}
use clibutl.Vec.Defs.{
  Vec, items, grow, regrow, makeroom, open_gap, makegap, vec_alloc, fill, vec_set, vec_ins, vec_del,
  vec_delrange, vecset, vecins, vecget, vecpush,
}
use clibutl.Vec.Growth.{HasRoom}
use clibutl.Vec.Array.{Refused}
use clibutl.Vec.Insert.{Written, vecset_lem}
use clibutl.Vec.Gap.{InsertedTo, vecins_lem}
use clibutl.Vec.Growth.{IsValid}
use clibutl.Vec.Range.{vec_delrange_lem}
use clibutl.Vec.Stack.{PushedTo, vecpush-vectop}
use clibutl.Vec.Buf.{IsText, terminate, buf_addc, Added, buf_addc_lem}
use clibutl.Vec.Buf.Del.{buf_del, Shortened, buf_del_lem}
use clibutl.Vec.Buf.Insc.{buf_insc}
use clibutl.Vec.Buf.Inside.{Inserted, buf_insc_lem}
use clibutl.Vec.Que.{spread, que_grow, que_makeroom, enq_last, vec_enq, vecenq, vec_deq, vec_first}
use clibutl.Vec.Que.Inv.{contents, IsQueue}
use clibutl.Vec.Que.Fifo.{EnqueuedTo, vecenq_lem}
use clibutl.Vec.Que.Deq.{vec_first-vec_deq}

-- Memory that never runs out: new slots are filled with `d`.
pub resize {ℓ} : {A : Type ℓ} (d : A) → ℕ → List A → List A
resize d zero xs = []
resize d (suc n) [] = d ∷ resize d n []
resize d (suc n) (x ∷ xs) = x ∷ resize d n xs

length-resize {ℓ} : {A : Type ℓ} (d : A) (n : ℕ) (xs : List A) → length (resize d n xs) ≡ n
unfolding resize
length-resize d zero xs = refl
length-resize d (suc n) [] = ap suc (length-resize d n [])
length-resize d (suc n) (x ∷ xs) = ap suc (length-resize d n xs)

take-resize {ℓ} :
    {A : Type ℓ} (d : A) (k n : ℕ) (xs : List A)
    → k ≤ length xs
    → k ≤ n
    → take k (resize d n xs) ≡ take k xs
unfolding resize
take-resize d zero n xs h g = refl
take-resize d (suc k) zero xs h g = absurd (omega arith)
take-resize d (suc k) (suc n) [] h g = absurd (omega arith)
take-resize d (suc k) (suc n) (x ∷ xs) h g =
    ap (λ ys. x ∷ ys) (take-resize d k n xs (omega arith) (omega arith))

pub length-given {ℓ} :
    {A : Type ℓ} (d : A) (n : ℕ) (xs ys : List A) → some (resize d n xs) ≡ some ys → length ys ≡ n
length-given d n xs ys e =
    let same : ys ≡ resize d n xs = cc in ap length same ∙ length-resize d n xs

pub take-given {ℓ} :
    {A : Type ℓ} (d : A) (n : ℕ) (xs ys : List A) (k : ℕ)
    → some (resize d n xs) ≡ some ys
    → k ≤ length xs
    → k ≤ n
    → take k ys ≡ take k xs
take-given d n xs ys k e h g =
    let same : ys ≡ resize d n xs = cc in ap (take k) same ∙ take-resize d k n xs h g

abbrev pub filled_with {ℓ} : {A : Type ℓ} → A → Allocator A
filled_with d = record {
  malloc = λ bytes esz. some (resize d (bytes / esz) []);
  realloc = λ xs bytes esz. some (resize d (bytes / esz) xs);
  length-malloc = λ bytes esz xs e. length-given d (bytes / esz) [] xs e;
  length-realloc = λ xs bytes esz ys e. length-given d (bytes / esz) xs ys e;
  take-realloc = λ xs bytes esz ys n e h g. take-given d (bytes / esz) xs ys n e h g;
}

abbrev pub ample : Allocator ℕ
ample = filled_with 0

-- Four slots of four bytes.
abbrev pub holding : (fst lst cnt : ℕ) → List ℕ → Vec ℕ
holding fst lst cnt xs = record {
  fst = fst;
  lst = lst;
  cur = 0;
  max = 4;
  cnt = cnt;
  esz = 4;
  sorted = true;
  cmp = none;
  hsh = none;
  vec = xs;
  elm = 0;
}

abbrev pub three : Vec ℕ
three = holding 0 u32_max 3 (10 ∷ 20 ∷ 30 ∷ 0 ∷ [])

abbrev full : Vec ℕ
full = holding 0 u32_max 4 (10 ∷ 20 ∷ 30 ∷ 40 ∷ [])

pub three-IsValid : IsValid three
three-IsValid = omega arith

full-IsValid : IsValid full
full-IsValid = omega arith

-- A full ring whose oldest element is in slot 3.
abbrev pub ring : Vec ℕ
ring = holding 3 3 4 (20 ∷ 30 ∷ 40 ∷ 10 ∷ [])

pub ring-IsQueue : IsQueue ring
ring-IsQueue = omega arith

array : Unit {0}
unfolding resize grow regrow makeroom open_gap makegap vec_alloc fill vec_set vec_ins vecins
array = tt

ins_full : Ends (vecins ample full 1 15) (λ r. items r.1 ≡ 10 ∷ 15 ∷ 20 ∷ 30 ∷ 40 ∷ [])
unfolding array
ins_full = refl

queue : Unit {0}
unfolding resize spread que_grow que_makeroom enq_last vec_enq vecenq vec_deq
queue = tt

enq_full : Ends (vecenq ample ring 50) (λ r. contents r.1 ≡ 10 ∷ 20 ∷ 30 ∷ 40 ∷ 50 ∷ [])
unfolding queue
enq_full = refl

vecset_lem_example : Ends (vecset ample three 7 99) (λ r.
    Refused ample (record three { elm = 99 }) 7 r.0 r.1
    ⊎ ((r.0 ≡ some 7) × Written (items three) 7 99 r.1))
vecset_lem_example = vecset_lem ample three 7 99 three-IsValid (omega arith)

vecins_lem_example : Ends (vecins ample full 1 15) (InsertedTo ample (record full { elm = 15 }) 1)
vecins_lem_example = vecins_lem ample full 1 15 full-IsValid (omega arith) (omega arith)

vec_delrange_lem_example : Ends (vec_delrange full 1 2) (λ r.
    ((2 < 1) × (r.0 ≡ false) × (r.1 ≡ full))
    ⊎ ((1 ≤ 2) × (r.0 ≡ true) × IsValid r.1 × (items r.1 ≡ 10 ∷ 40 ∷ [])))
vec_delrange_lem_example = vec_delrange_lem full full-IsValid 1 2 (omega arith)

-- Of three items with one free slot, "all from position 1 on" makes four.

vecpush-vectop_example : Ends (vecpush ample full 50) (PushedTo ample full 50 0)
vecpush-vectop_example = vecpush-vectop ample full 50 0 full-IsValid (omega arith)

vecenq_lem_example : Ends (vecenq ample ring 50) (EnqueuedTo ample (record ring { elm = 50 }))
vecenq_lem_example = vecenq_lem ample ring 50 ring-IsQueue (omega arith)

vec_first-vec_deq_example :
    IsQueue (vec_deq ring)
    × (((contents ring ≡ [])
          × (vec_first (λ x. x) ring ≡ some (none, record ring { cur = u32_max }))
          × (contents (vec_deq ring) ≡ []))
        ⊎ ((x : ℕ) × (vec_first (λ x. x) ring ≡ some (some 3, record ring { cur = 3; elm = x }))
            × (10 ∷ 20 ∷ 30 ∷ 40 ∷ [] ≡ x ∷ contents (vec_deq ring))))
vec_first-vec_deq_example = vec_first-vec_deq ring ring-IsQueue (λ x. x) refl

buf_addc_lem_example : Ends (buf_addc ample full 50) (Added ample full 50)
buf_addc_lem_example = buf_addc_lem ample full 50 full-IsValid (omega arith)

addc_full :
    Ends (buf_addc ample full 50) (λ r. (r.0 ≡ 4) × (items r.1 ≡ 10 ∷ 20 ∷ 30 ∷ 40 ∷ 50 ∷ []))
unfolding buf_addc terminate vecset vec_set vec_alloc fill makeroom grow regrow resize
addc_full = (refl, refl)

-- A text of three characters.
abbrev word : Vec ℕ
word = holding 0 0 3 (72 ∷ 101 ∷ 121 ∷ 0 ∷ [])

word-IsText : IsText word
word-IsText = record { valid = omega arith; closed = refl }

buf_del_lem_example :
    Ends
      (buf_del ample word 0 1)
      (Shortened ample word 0 1 word-IsText (omega arith) (omega arith) (omega arith))
buf_del_lem_example =
    buf_del_lem ample word 0 1 word-IsText (omega arith) (omega arith) (omega arith)

buf_insc_lem_example :
    Ends
      (buf_insc ample word 1 101)
      (Inserted ample word 1 101 (word-IsText.valid) (omega arith) (omega arith))
buf_insc_lem_example = buf_insc_lem ample word 1 101 (word-IsText.valid) (omega arith) (omega arith)
