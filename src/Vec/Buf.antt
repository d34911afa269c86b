-- ===== src/Vec/Buf.antt =====
-- src/utl_vec.c: the character buffer, a vector of characters with a NUL behind the text. The NUL is
-- not counted.
pub mod Insc
pub mod Inside
pub mod Del
use native.Mathlib.Nat.{mul-le-mul_right}
use mathlib.Core.Path.{subst}
use clibutl.Prelude.{
  ℕ, zero, suc, ◌+◌, ◌/◌, ◌≤◌, ◌<◌, ◌≡◌, ◌⊎◌, ◌∙◌, refl, sym, ap, ap₂, true, List, [], ◌∷◌, ◌++◌,
  Option, none, some, get_elem?, take, set, length, u32_max, sub32, inl, inr, arith, take-set_end,
  length-set, get_elem?-set_self,
}
use clibutl.Prelude.Fault.{◌>>=◌, Ends, Ends-bind, Ends-map}
use clibutl.Vec.Slots.{Allocator}
use clibutl.Vec.Defs.{Vec, items, or_at, vec_get, vec_set, vecset}
use clibutl.Vec.Growth.{IsValid, IsAffordable, NoMemory, HasRoom, max-lt}
use clibutl.Vec.Array.{put, put-IsValid, SetTo, set-SetTo}
use clibutl.Vec.Gap.{insert_at}
use clibutl.Vec.Stack.{insert_at-end}
use clibutl.Vec.Insert.{with_elm, length-items, HasRoom-items}

-- `utl_buf_get`: NUL where there is no character.
unfoldable pub buf_get : Vec ℕ → ℕ → Option (ℕ × Vec ℕ)
buf_get b n = do (s, b') ← vec_get b n; some (elim s [ none ↦ 0 | some k ↦ b'.elm ], b')

-- bufsetc(b,b->cnt,'\0'); b->cnt--; what `bufsetc` returns is not looked at.
unfoldable pub terminate : Allocator ℕ → Vec ℕ → Option (Vec ℕ)
terminate os b = do (p, b') ← vecset os b b.cnt 0; some (record b' { cnt = sub32 b'.cnt 1 })

-- `utl_buf_addc`, with the slot that it returns.
unfoldable pub buf_addc : Allocator ℕ → Vec ℕ → (c : ℕ) → Option (ℕ × Vec ℕ)
buf_addc os b c = do
  (p, b') ← vecset os b b.cnt c
  b'' ← terminate os b'
  some (sub32 b''.cnt 1, b'')

-- The buffer holds a text with a NUL behind it.
pub record IsText (b : Vec ℕ) : Type 0 where
  pub valid : IsValid b
  pub closed : get_elem? b.vec b.cnt ≡ some 0

pub take-set_past : (n : ℕ) (xs : List ℕ) (e : ℕ) → take n (set xs n e) ≡ take n xs
take-set_past zero [] e = refl
take-set_past zero (x ∷ xs) e = refl
take-set_past (suc n) [] e = refl
take-set_past (suc n) (x ∷ xs) e = ap (λ ys. x ∷ ys) (take-set_past n xs e)

-- What `terminate` makes of `b`: the text is as before, with a NUL behind it. Where there is no room
-- for the NUL and `realloc` refuses a larger buffer, the text loses its last character.
pub Terminated : Allocator ℕ → Vec ℕ → Vec ℕ → Type 0
Terminated os b w =
    ((b.max ≤ b.cnt) × NoMemory os b b.cnt × (w ≡ record b { cnt = sub32 b.cnt 1; elm = 0 }))
    ⊎ (IsText w × (items w ≡ items b))

put-IsText :
    (u : Vec ℕ) (k : ℕ) → IsValid u → u.elm ≡ 0 → k < u.max → IsText (record (put u k) { cnt = k })
put-IsText u k valid nul lt = record {
  valid = ground (arith, valid.slots, length-set u.vec k u.elm);
  closed = get_elem?-set_self u.vec k u.elm (omega (arith, valid.slots)) ∙ ap some nul;
}

put-Terminated :
    (os : Allocator ℕ) (b u : Vec ℕ)
    → IsValid b
    → HasRoom os (record b { elm = 0 }) b.cnt true u
    → Terminated os b (record (put u b.cnt) { cnt = sub32 (put u b.cnt).cnt 1 })
unfolding Terminated
put-Terminated os b u valid h =
    let cnt_same : u.cnt ≡ b.cnt = ap (λ (x : Vec ℕ). x.cnt) h.rest in
    let count : sub32 (put u b.cnt).cnt 1 ≡ b.cnt =
      ground (arith, h.room refl, cnt_same, max-lt h.valid) in
    rw count (
      inr (
        put-IsText u b.cnt h.valid (ap (λ (x : Vec ℕ). x.elm) h.rest) (h.room refl),
        take-set_past b.cnt u.vec u.elm ∙ HasRoom-items b.cnt b.cnt h valid.count,
      ))

or_at-same : (k : ℕ) → or_at k k ≡ k
or_at-same k = ground arith

sub32-suc : (n : ℕ) → n < u32_max → sub32 (suc n) 1 ≡ n
sub32-suc n h = omega arith

pub IsAffordable-less : (b : Vec ℕ) (n : ℕ) → IsAffordable b (n + 1) → IsAffordable b n
IsAffordable-less b n afford =
    let less : n + n / 2 + 1 ≤ n + 1 + (n + 1) / 2 + 1 = omega arith in
    omega (arith, afford, mul-le-mul_right b.esz less)

-- The buffer after `bufaddc`: the character is behind the text, and the NUL behind it. The text is
-- left shorter only where `realloc` refuses room for the character, or for the NUL behind it.
pub Added : Allocator ℕ → Vec ℕ → ℕ → ℕ × Vec ℕ → Type 0
Added os b c (p, w) =
    ((p ≡ b.cnt) × IsText w × (items w ≡ items b ++ (c ∷ [])))
    ⊎ ((b.max ≤ b.cnt)
        × NoMemory os b b.cnt
        × ((IsText w × (items w ≡ items b)) ⊎ (w ≡ record b { cnt = sub32 b.cnt 1; elm = 0 })))
    ⊎ ((u : Vec ℕ) × HasRoom os (record b { elm = c }) b.cnt true u
        × (u.max ≤ b.cnt + 1)
        × NoMemory os (put u b.cnt) (b.cnt + 1)
        × (w.cnt ≡ b.cnt)
        × (items w ≡ items b))

module _ (os : Allocator ℕ) where
  -- `vecset` at the end.
  set_end :
      (b : Vec ℕ) (c : ℕ)
      → IsValid b
      → IsAffordable b b.cnt
      → Ends (vecset os b b.cnt c) (SetTo os (record b { elm = c }) b.cnt)
  unfolding vecset
  set_end b c valid afford =
      subst
        (λ k. Ends (vec_set os (record b { elm = c }) b.cnt) (SetTo os (record b { elm = c }) k))
        (or_at-same b.cnt)
        (set-SetTo os (record b { elm = c }) b.cnt (with_elm b c valid)
          (rw (or_at-same b.cnt) afford))

  pub terminate_lem :
      (b : Vec ℕ) → IsValid b → IsAffordable b b.cnt → Ends (terminate os b) (Terminated os b)
  unfolding terminate Terminated
  terminate_lem b valid afford =
      Ends-bind (SetTo os (record b { elm = 0 }) b.cnt) (Terminated os b) (vecset os b b.cnt 0) _
        (set_end b 0 valid afford) step
    where
      step :
          (r : Option ℕ × Vec ℕ)
          → SetTo os (record b { elm = 0 }) b.cnt r
          → Ends {A = Vec ℕ} (some (record (r.1) { cnt = sub32 (r.1).cnt 1 })) (Terminated os b)
      step (p, w) (inl (null, full, refused, same)) =
          inl (full, refused, ap (λ (x : Vec ℕ). record x { cnt = sub32 x.cnt 1 }) same)
      step (p, w) (inr (u, h, found, same)) = rw same (put-Terminated os b u valid h)

  items-put :
      (b u : Vec ℕ) (c : ℕ)
      → IsValid b
      → HasRoom os (record b { elm = c }) b.cnt true u
      → items (put u b.cnt) ≡ items b ++ (c ∷ [])
  items-put b u c valid h =
      let cnt_same : u.cnt ≡ b.cnt = ap (λ (x : Vec ℕ). x.cnt) h.rest in
      let elm_same : u.elm ≡ c = ap (λ (x : Vec ℕ). x.elm) h.rest in
      let count : (put u b.cnt).cnt ≡ suc b.cnt =
        ground (arith, h.room refl, cnt_same, max-lt h.valid) in
      let kept : take b.cnt u.vec ≡ items b = HasRoom-items b.cnt b.cnt h valid.count in
      rw count (
        take-set_end u.vec b.cnt u.elm (omega (arith, h.room refl, h.valid.slots))
        ∙ ap₂ (λ xs x. insert_at b.cnt x xs) kept elm_same
        ∙ insert_at-end b c valid)

  cnt-items : (v w : Vec ℕ) → IsValid v → IsValid w → items w ≡ items v → w.cnt ≡ v.cnt
  cnt-items v w ok valid same =
      sym (length-items w valid) ∙ ap (λ xs. length xs) same ∙ length-items v ok

  refused-Added :
      (b w' : Vec ℕ) (c : ℕ)
      → IsValid b
      → b.max ≤ b.cnt
      → NoMemory os b b.cnt
      → Terminated os (record b { elm = c }) w'
      → Added os b c (sub32 w'.cnt 1, w')
  unfolding Terminated Added
  refused-Added b w' c valid full refused (inl (still_full, again, e)) =
      inr (inl (full, refused, inr e))
  refused-Added b w' c valid full refused (inr (text, same)) =
      inr (inl (full, refused, inl (text, same)))

  put-Added :
      (b u w' : Vec ℕ) (c : ℕ)
      → IsValid b
      → HasRoom os (record b { elm = c }) b.cnt true u
      → IsValid (put u b.cnt)
      → (put u b.cnt).cnt ≡ suc b.cnt
      → Terminated os (put u b.cnt) w'
      → Added os b c (sub32 w'.cnt 1, w')
  unfolding Terminated Added
  put-Added b u w' c valid h ok count (inl (full, refused, e)) =
      let cnt_same : w'.cnt ≡ b.cnt =
        ap (λ (x : Vec ℕ). x.cnt) e
        ∙ rw count (sub32-suc b.cnt (omega (arith, ok.count, count, max-lt ok))) in
      inr (
        inr (
          u,
          h,
          omega (arith, full, count),
          subst (λ n. NoMemory os (put u b.cnt) n) (count ∙ next) refused,
          cnt_same,
          ap₂ (λ n xs. take n xs) cnt_same (ap (λ (x : Vec ℕ). x.vec) e)
              ∙ take-set_past b.cnt u.vec u.elm
              ∙ HasRoom-items b.cnt b.cnt h valid.count,
        ))
    where
      next : suc b.cnt ≡ b.cnt + 1
      next = omega arith
  put-Added b u w' c valid h ok count (inr (text, same)) =
      let cnt : w'.cnt ≡ suc b.cnt = cnt-items (put u b.cnt) w' ok text.valid same ∙ count in
      inl (
        rw cnt (sub32-suc b.cnt (omega (arith, ok.count, count, max-lt ok))),
        text,
        same ∙ items-put b u c valid h,
      )

  terminate-Added :
      (b : Vec ℕ) (c : ℕ) (r : Option ℕ × Vec ℕ)
      → IsValid b
      → IsAffordable b (b.cnt + 1)
      → SetTo os (record b { elm = c }) b.cnt r
      → Ends (terminate os r.1) (λ w'. Added os b c (sub32 w'.cnt 1, w'))
  terminate-Added b c (p, w) valid afford (inl (null, full, refused, same)) = rw (same) (
      Ends-map (Terminated os (record b { elm = c })) _ (terminate os (record b { elm = c }))
        (λ w' t. refused-Added b w' c valid full refused t)
        (terminate_lem (record b { elm = c }) (with_elm b c valid)
          (IsAffordable-less b b.cnt afford)))
  terminate-Added b c (p, w) valid afford (inr (u, h, found, same)) =
      let cnt_same : u.cnt ≡ b.cnt = ap (λ (x : Vec ℕ). x.cnt) h.rest in
      let ok : IsValid (put u b.cnt) = put-IsValid u b.cnt h.valid (h.room refl) in
      let count : (put u b.cnt).cnt ≡ suc b.cnt =
        ground (arith, h.room refl, cnt_same, max-lt h.valid) in
      let next : suc b.cnt ≡ b.cnt + 1 = omega arith in
      let esz_same : u.esz ≡ b.esz = ap (λ (x : Vec ℕ). x.esz) h.rest in
      rw (same) (
        Ends-map (Terminated os (put u b.cnt)) _ (terminate os (put u b.cnt))
          (λ w' t. put-Added b u w' c valid h ok count t)
          (terminate_lem (put u b.cnt) ok (rw (count, esz_same, next) afford)))

  -- `bufaddc` appends the character to the text and puts a NUL behind it; it returns the slot of the
  -- character. Where the buffer had no slot for the character and `realloc` refuses one, the text is
  -- as before, or its count is less by one, which wraps at the empty text; where there is a slot
  -- for the character and `realloc` refuses one for the NUL, the text is as before.
  pub buf_addc_lem :
      (b : Vec ℕ) (c : ℕ)
      → IsValid b
      → IsAffordable b (b.cnt + 1)
      → Ends (buf_addc os b c) (Added os b c)
  unfolding buf_addc
  buf_addc_lem b c valid afford =
      Ends-bind (SetTo os (record b { elm = c }) b.cnt) (Added os b c) (vecset os b b.cnt c) _
        (set_end b c valid (IsAffordable-less b b.cnt afford))
        (λ r h.
          Ends-bind (λ w. Added os b c (sub32 w.cnt 1, w)) (Added os b c) (terminate os r.1) _
            (terminate-Added b c r valid afford h) (λ w a. a))
