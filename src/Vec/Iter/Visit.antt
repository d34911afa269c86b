-- ===== src/Vec/Iter/Visit.antt =====
-- src/utl_vec.c: going through an array from its first element, and where it fails for a queue.
use clibutl.Prelude.{
  ℕ, zero, suc, ◌-◌, ◌<◌, ◌≡◌, ◌∙◌, refl, ap, true, false, List, [], ◌∷◌, Option, none, some,
  length, drop, get_or, get_elem?-eq-get_or, get_or-take, leb, ◌==◌, if◌then◌else◌, u32_max, add32,
  drop-all, inl, inr, Bool-cases, arith,
}
use clibutl.Vec.Defs.{Vec, items}
use clibutl.Vec.Growth.{IsValid, max-lt}
use clibutl.Vec.Insert.{length-items}
use clibutl.Vec.Que.{vec_first, first_slot}
use clibutl.Vec.Iter.{next_slot, vec_next}

pub drop-step {ℓ} :
    {A : Type ℓ} (xs : List A) (k : ℕ) (d : A)
    → k < length xs
    → drop k xs ≡ get_or xs k d ∷ drop (suc k) xs
drop-step [] k d lt = absurd (omega arith)
drop-step (x ∷ xs) zero d lt = refl
drop-step (x ∷ xs) (suc k) d lt = drop-step xs k d (omega arith)

-- A vector that is an array: neither hashed nor a queue, as `utl_vec_new` makes it without `hsh`.
pub record IsArray {ℓ} {A : Type ℓ} (v : Vec A) : Type ℓ where
  pub valid : IsValid v
  pub plain : v.hsh ≡ none
  pub from_zero : v.fst ≡ 0
  pub no_queue : v.lst ≡ u32_max

module _ {ℓ} {A : Type ℓ} (stored : A → ℕ) where
  -- for (p = vecfirst(v); p; p = vecnext(v)) ...: the elements that are seen.
  unfoldable pub visit : (fuel : ℕ) → Option ℕ × Vec A → Option (List A)
  visit zero r = none
  visit (suc fuel) (none, v) = some []
  visit (suc fuel) (some k, v) = elim (vec_next stored v) [
    | none ↦ none
    | some r ↦ elim (visit fuel r) [ none ↦ none | some xs ↦ some (v.elm ∷ xs) ]
  ]

  unfoldable pub visit_all : (fuel : ℕ) → Vec A → Option (List A)
  visit_all fuel v = elim (vec_first stored v) [ none ↦ none | some r ↦ visit fuel r ]

  -- The vector during the visit, at slot `k`.
  abbrev pub visiting : Vec A → ℕ → Vec A
  visiting v k = record v { cur = k; elm = get_or v.vec k v.elm }

  -- `utl_vec_next` on an array.
  next-array :
      (v : Vec A) (k : ℕ)
      → IsArray v
      → k < v.cnt
      → vec_next stored (visiting v k)
        ≡ some (
            if leb v.cnt (suc k)
            then (none, record (visiting v k) { cur = suc k })
            else (some (suc k), visiting v (suc k)))
  unfolding vec_next next_slot
  next-array v k a lt =
      let some_left : (v.cnt == 0) ≡ false = ground arith in
      let here : (k == v.lst) ≡ false = ground (arith, a.no_queue, max-lt a.valid, a.valid.count) in
      let going : (k == u32_max) ≡ false = ground (arith, max-lt a.valid, a.valid.count) in
      let on : add32 k 1 ≡ suc k = omega (arith, max-lt a.valid, a.valid.count) in
      let array : (v.lst == u32_max) ≡ true = ground (arith, a.no_queue) in
      elim (Bool-cases (leb v.cnt (suc k))) [
        | inl past ↦ rw (some_left, here, going, on, a.plain, array, past) refl
        | inr inside ↦
            let lt' : suc k < length v.vec = ground (arith, a.valid.slots, a.valid.count) in
            rw
              (
                some_left,
                here,
                going,
                on,
                a.plain,
                array,
                inside,
                get_elem?-eq-get_or v.vec (suc k) v.elm lt',
              )
              refl
      ]

  pub visit-none : (fuel : ℕ) (v : Vec A) → 0 < fuel → visit fuel (none, v) ≡ some []
  unfolding visit
  visit-none zero v pos = absurd (omega arith)
  visit-none (suc fuel) v pos = refl

  visit-drop :
      (v : Vec A) (fuel k : ℕ)
      → IsArray v
      → k < v.cnt
      → v.cnt - k < fuel
      → visit fuel (some k, visiting v k) ≡ some (drop k (items v))
  unfolding visit
  visit-drop v zero k a lt few = absurd (omega arith)
  visit-drop v (suc fuel) k a lt few =
      let rest : drop k (items v) ≡ get_or v.vec k v.elm ∷ drop (suc k) (items v) =
        drop-step (items v) k v.elm (omega (arith, length-items v a.valid))
        ∙ ap (λ x. x ∷ drop (suc k) (items v)) (get_or-take v.cnt v.vec k v.elm lt) in
      elim (Bool-cases (leb v.cnt (suc k))) [
        | inl past ↦
            let none_behind : drop (suc k) (items v) ≡ [] =
              drop-all (suc k) (items v) (ground (arith, length-items v a.valid)) in
            rw (next-array v k a lt, past, rest, none_behind, visit)
              (rw (visit-none fuel (record (visiting v k) { cur = suc k }) (omega arith)) refl)
        | inr inside ↦
            rw (next-array v k a lt, inside, rest, visit)
              (rw (visit-drop v fuel (suc k) a (ground arith) (omega arith)) refl)
      ]

  vec_first-array :
      (v : Vec A) → IsArray v → 0 < v.cnt → vec_first stored v ≡ some (some 0, visiting v 0)
  unfolding vec_first first_slot
  vec_first-array v a pos =
      let some_left : (v.cnt == 0) ≡ false = ground arith in
      rw
        (
          some_left,
          a.plain,
          a.from_zero,
          get_elem?-eq-get_or v.vec 0 v.elm (omega (arith, a.valid.slots, a.valid.count)),
        )
        refl

  vec_first-empty :
      (v : Vec A)
      → (v.cnt == 0) ≡ true
      → vec_first stored v ≡ some (none, record v { cur = u32_max })
  unfolding vec_first
  vec_first-empty v e = rw e refl

  -- Going through an array from `utl_vec_first` on by `utl_vec_next`, until NULL is returned, shows
  -- its items in their order, each once.
  pub visit_all-items : (v : Vec A) → IsArray v → visit_all (suc v.cnt) v ≡ some (items v)
  unfolding visit_all
  visit_all-items v a = elim (Bool-cases (v.cnt == 0)) [
    | inl none_left ↦
        let none_held : items v ≡ [] = (let e : v.cnt ≡ 0 = ground arith in rw e refl) in
        rw (vec_first-empty v none_left, none_held, visit_all)
          (visit-none (suc v.cnt) (record v { cur = u32_max }) (omega arith))
    | inr some_left ↦
        let pos : 0 < v.cnt = ground arith in
        rw (vec_first-array v a pos, visit_all) (visit-drop v (suc v.cnt) 0 a pos (omega arith))
  ]
