-- ===== src/Vec/Defs.antt =====
-- src/utl_vec.c: the operations of the array, on `vec_s` of src/utl_vec.h. One that updates `*v`
-- returns the new vector beside its result; a pointer to an element is the number of its slot,
-- and NULL is `none`. The outer `none` is a fault.
use Prim.Native.Nat.{Ordering}
use clibutl.Prelude.{
  ℕ, zero, suc, ◌-◌, ◌/◌, ◌%◌, Bool, true, false, List, Option, none, some, get_elem?, take, leb,
  ltb, ◌==◌, if◌then◌else◌, u32_max, add32, sub32, mul32,
}
use clibutl.Prelude.Fault.{◌>>=◌}
use clibutl.Vec.Slots.{Allocator, move, store}

-- `vec_s` without the pointers `aux` and `elm`: `elm` is the spare element `eld` itself. Of `flg`
-- the field `sorted` is the bit vecSORTED. `cmp` gives the sign of what the comparison returns.
pub record Vec {ℓ} (A : Type ℓ) : Type ℓ where
  pub fst : ℕ
  pub lst : ℕ
  pub cur : ℕ
  pub max : ℕ
  pub cnt : ℕ
  pub esz : ℕ
  pub sorted : Bool
  pub cmp : Option (A → A → Ordering)
  pub hsh : Option (A → ℕ)
  pub vec : List A
  pub elm : A

-- The elements that the vector holds.
abbrev pub items {ℓ} : {A : Type ℓ} → Vec A → List A
items v = take v.cnt v.vec

abbrev pub vec_min_elem : ℕ
vec_min_elem = 16

-- new_max += new_max / 2; new_max += new_max & 1;
abbrev pub grown : ℕ → ℕ
grown m = let h = add32 m (m / 2) in add32 h (h % 2)

-- while (new_max <= n) ...; `none` if the fuel runs out.
unfoldable pub grow : (fuel new_max n : ℕ) → Option ℕ
grow zero m n = none
grow (suc fuel) m n = elim (leb m n) [ true ↦ grow fuel (grown m) n | false ↦ some m ]

-- `vec_MAX_CNT` as a position stands for another, the end or the last element.
abbrev pub or_at : ℕ → ℕ → ℕ
or_at i at_max = if i == u32_max then at_max else i

module _ {ℓ} {A : Type ℓ} where
  -- The end of `makeroom`: `new_max * v->esz` is computed in 32 bits.
  unfoldable pub regrow : Allocator A → Vec A → (new_max : ℕ) → Option (Bool × Vec A)
  regrow os v new_max = elim (os.realloc v.vec (mul32 new_max v.esz) v.esz) [
    | none ↦ some (false, v)
    | some new_vec ↦ some (true, record v { vec = new_vec; max = new_max })
  ]

  unfoldable pub makeroom : Allocator A → Vec A → ℕ → Option (Bool × Vec A)
  makeroom os v n =
      if ltb n v.max
      then some (true, v)
      else (do new_max ← grow (suc n) v.max n; regrow os v new_max)

  -- The move of `makegap`, behind its test `i < cnt`.
  unfoldable pub open_gap : Vec A → (i l : ℕ) → Option (Bool × Vec A)
  open_gap v i l =
      if ltb i v.cnt
      then (do
        vec ← move v.vec (add32 i l) i (v.cnt - i)
        some (true, record v { vec = vec; cnt = add32 v.cnt l }))
      else some (true, v)

  unfoldable pub makegap : Allocator A → Vec A → (i l : ℕ) → Option (Bool × Vec A)
  makegap os v i l = do
    (done, v') ← makeroom os v (add32 v.cnt l)
    if done then open_gap v' i l else some (false, v')

  unfoldable pub delgap : Vec A → (i l : ℕ) → Option (Bool × Vec A)
  delgap v i l =
      if ltb i v.cnt
      then if leb v.cnt (add32 i l) then some (true, record v { cnt = i }) else (do
        vec ← move v.vec i (add32 i l) (sub32 v.cnt (add32 i l))
        some (true, record v { vec = vec; cnt = sub32 v.cnt l }))
      else some (true, v)

  unfoldable pub vec_del : Vec A → ℕ → Option (Bool × Vec A)
  vec_del v i = delgap v i 1

  unfoldable pub vec_delrange : Vec A → (i j : ℕ) → Option (Bool × Vec A)
  vec_delrange v i j = if ltb j i then some (false, v) else delgap v i (add32 (sub32 j i) 1)

  unfoldable pub vec_get : Vec A → ℕ → Option (Option ℕ × Vec A)
  vec_get v i =
      let k = or_at i (sub32 v.cnt 1) in
      if ltb k v.cnt
      then (do x ← get_elem? v.vec k; some (some k, record v { elm = x }))
      else some (none, v)

  -- The end of `vec_alloc`, once there is room for slot `k`.
  abbrev pub extend : Vec A → ℕ → Vec A
  extend v k = record v { cnt = if leb v.cnt k then add32 k 1 else v.cnt; sorted = false }

  unfoldable pub vec_alloc : Allocator A → Vec A → ℕ → Option (Option ℕ × Vec A)
  vec_alloc os v i = do
    let k = or_at i v.cnt
    (done, v') ← makeroom os v k
    if done then some (some k, extend v' k) else some (none, v')

  -- memcpy(elm, v->elm, v->esz), if there is an `elm`.
  unfoldable pub fill : Option ℕ → Vec A → Option (Option ℕ × Vec A)
  fill none v = some (none, v)
  fill (some k) v = do vec ← store v.vec k v.elm; some (some k, record v { vec = vec })

  unfoldable pub vec_set : Allocator A → Vec A → ℕ → Option (Option ℕ × Vec A)
  vec_set os v i = do (p, v') ← vec_alloc os v i; fill p v'

  unfoldable pub vec_ins : Allocator A → Vec A → ℕ → Option (Option ℕ × Vec A)
  vec_ins os v i = do
    let k = or_at i v.cnt
    (done, v') ← makegap os v k 1
    (p, v'') ← (if done then vec_set os v' k else some (none, v'))
    some (p, record v'' { sorted = false })

  -- The macros: `vecset` and `vecins` put the element into `*elm` first, `vecget` the default.
  unfoldable pub vecset : Allocator A → Vec A → ℕ → A → Option (Option ℕ × Vec A)
  vecset os v i e = vec_set os (record v { elm = e }) i

  unfoldable pub vecins : Allocator A → Vec A → ℕ → A → Option (Option ℕ × Vec A)
  vecins os v i e = vec_ins os (record v { elm = e }) i

  unfoldable pub vecget : Vec A → ℕ → A → Option (A × Vec A)
  vecget v i d = do (p, v') ← vec_get (record v { elm = d }) i; some (v'.elm, v')

  unfoldable pub vecpush : Allocator A → Vec A → A → Option (Option ℕ × Vec A)
  vecpush os v e = vecins os v u32_max e

  unfoldable pub vectop : Vec A → A → Option (A × Vec A)
  vectop v d = vecget v u32_max d

  unfoldable pub vecdrop : Vec A → ℕ → Vec A
  vecdrop v n = record v { cnt = if ltb n v.cnt then v.cnt - n else 0 }
