-- ===== src/Vec/Iter/Table.antt =====
-- src/utl_vec.c: going through a hash table.
use clibutl.Prelude.{
  ℕ, zero, suc, ◌+◌, ◌-◌, ◌≤◌, ◌<◌, ◌≡◌, ◌≢◌, ◌∙◌, refl, ap, true, false, List, [], ◌∷◌, none, some,
  length, drop, get_or, get_elem?-eq-get_or, leb, ◌==◌, if◌then◌else◌, u32_max, add32, drop-all,
  inl, inr, Bool-cases, arith,
}
use clibutl.Prelude.Fault.{Ends, Ends-some, Ends-map}
use clibutl.Vec.Defs.{Vec}
use clibutl.Vec.Que.{vec_first, first_slot, first_used}
use clibutl.Vec.Iter.{next_used, next_slot, vec_next}
use clibutl.Vec.Iter.Visit.{visit, visit_all, visiting, drop-step, visit-none}

module _ {ℓ} {A : Type ℓ} (stored : A → ℕ) where
  -- The elements of the slots in use, in their order.
  unfoldable pub in_use : List A → List A
  in_use [] = []
  in_use (x ∷ xs) = let rest = in_use xs in if stored x == u32_max then rest else x ∷ rest

  -- Where the loop of `utl_vec_next` stops: at a slot in use, or behind the last one.
  abbrev StopsAt : (xs : List A) (d : A) (cur k : ℕ) → Type ℓ
  StopsAt xs d cur k =
      (cur ≤ k)
      × (k ≤ length xs)
      × (in_use (drop cur xs) ≡ in_use (drop k xs))
      × (k < length xs → (stored (get_or xs k d) == u32_max) ≡ false)

  in_use-free :
      (xs : List A) (d : A) (k : ℕ)
      → k < length xs
      → (stored (get_or xs k d) == u32_max) ≡ true
      → in_use (drop k xs) ≡ in_use (drop (suc k) xs)
  unfolding in_use
  in_use-free xs d k lt free = rw (drop-step xs k d lt, free, in_use) refl

  in_use-taken :
      (xs : List A) (d : A) (k : ℕ)
      → k < length xs
      → (stored (get_or xs k d) == u32_max) ≡ false
      → in_use (drop k xs) ≡ get_or xs k d ∷ in_use (drop (suc k) xs)
  unfolding in_use
  in_use-taken xs d k lt taken = rw (drop-step xs k d lt, taken, in_use) refl

  next_used-StopsAt :
      (xs : List A) (d : A) (left cur : ℕ)
      → cur + left ≡ length xs
      → Ends (next_used stored left cur xs) (StopsAt xs d cur)
  unfolding next_used
  next_used-StopsAt xs d zero cur all =
      (omega arith, omega (arith, all), refl, λ lt. absurd (omega (arith, lt, all)))
  next_used-StopsAt xs d (suc left) cur all =
      let inside : cur < length xs = omega (arith, all) in
      elim (Bool-cases (stored (get_or xs cur d) == u32_max)) [
        | inl free ↦
            rw (get_elem?-eq-get_or xs cur d inside, next_used)
              (rw (free, next_used)
                (Ends-map (StopsAt xs d (suc cur)) (StopsAt xs d cur)
                  (next_used stored left (suc cur) xs)
                  (λ k s. (omega (arith, s.0), s.1, in_use-free xs d cur inside free ∙ s.2, s.3))
                  (next_used-StopsAt xs d left (suc cur) (omega (arith, all)))))
        | inr taken ↦
            rw (get_elem?-eq-get_or xs cur d inside, next_used)
              (rw (taken, Ends) (omega arith, omega arith, refl, λ lt. taken))
      ]

  -- A hash table of `max` slots that elements were never queued in.
  pub record IsVisited (v : Vec A) : Type ℓ where
    pub sized : length v.vec ≡ v.max
    pub some_left : (v.cnt == 0) ≡ false
    pub hashed : (h : A → ℕ) × (v.hsh ≡ some h)
    pub no_queue : v.lst ≡ u32_max
    pub small : v.max < u32_max

  next-table :
      (v : Vec A) (k : ℕ)
      → IsVisited v
      → k < v.max
      → (m : ℕ) × StopsAt v.vec v.elm (suc k) m
        × (vec_next stored (visiting stored v k)
            ≡ some (
                if leb v.max m
                then (none, record (visiting stored v k) { cur = m })
                else (some m, visiting stored v m)))
  unfolding vec_next next_slot
  next-table v k t lt =
      let (m, found, stops) =
        Ends-some (next_used stored (v.max - suc k) (suc k) v.vec) (StopsAt v.vec v.elm (suc k))
          (next_used-StopsAt v.vec v.elm (v.max - suc k) (suc k) (omega (arith, lt, t.sized))) in
      let here : (k == v.lst) ≡ false = ground (arith, t.no_queue, lt, t.small) in
      let going : (k == u32_max) ≡ false = ground (arith, lt, t.small) in
      let on : add32 k 1 ≡ suc k = omega (arith, lt, t.small) in
      (
        m,
        stops,
        elim (Bool-cases (leb v.max m)) [
          | inl past ↦ rw (t.some_left, here, going, on, t.hashed.1, found, past) refl
          | inr inside ↦
              let lt' : m < length v.vec = ground (arith, t.sized, inside) in
              rw
                (
                  t.some_left,
                  here,
                  going,
                  on,
                  t.hashed.1,
                  found,
                  inside,
                  get_elem?-eq-get_or v.vec m v.elm lt',
                )
                refl
        ],
      )

  visit-in_use :
      (v : Vec A) (fuel k : ℕ)
      → IsVisited v
      → k < v.max
      → (stored (get_or v.vec k v.elm) == u32_max) ≡ false
      → v.max - k < fuel
      → visit stored fuel (some k, visiting stored v k) ≡ some (in_use (drop k v.vec))
  unfolding visit in_use
  visit-in_use v zero k t lt taken few = absurd (omega arith)
  visit-in_use v (suc fuel) k t lt taken few =
      let (m, stops, next) = next-table v k t lt in
      let here : in_use (drop k v.vec) ≡ get_or v.vec k v.elm ∷ in_use (drop m v.vec) =
        in_use-taken v.vec v.elm k (omega (arith, lt, t.sized)) taken
        ∙ ap (λ xs. get_or v.vec k v.elm ∷ xs) stops.2 in
      elim (Bool-cases (leb v.max m)) [
        | inl past ↦
            let behind : drop m v.vec ≡ [] = drop-all m v.vec (ground (arith, t.sized, past)) in
            rw (next, past, here, behind, visit)
              (rw
                (visit-none stored fuel (record (visiting stored v k) { cur = m })
                  (omega (arith, lt, few)))
                refl)
        | inr inside ↦
            let lt' : m < v.max = ground (arith, inside) in
            rw (next, inside, here, visit)
              (rw
                (visit-in_use v fuel m t lt' (stops.3 (omega (arith, lt', t.sized)))
                  (omega (arith, lt, few, stops.0)))
                refl)
      ]

  -- The first slot in use, where there is one.
  first_used-found :
      (xs : List A) (d : A) (k : ℕ)
      → in_use xs ≢ []
      → (m : ℕ) × (first_used stored k xs ≡ some (k + m))
        × (m < length xs)
        × ((stored (get_or xs m d) == u32_max) ≡ false)
        × (in_use xs ≡ in_use (drop m xs))
  unfolding in_use first_used
  first_used-found [] d k some_there = absurd (some_there refl)
  first_used-found (x ∷ xs) d k some_there = elim (Bool-cases (stored x == u32_max)) [
    | inl free ↦
        let (m, found, lt, taken, same) =
          first_used-found xs d (suc k) (λ e. some_there (rw free e)) in
        (suc m, rw free (found ∙ ap some (omega arith)), omega (arith, lt), taken, rw free same)
    | inr taken ↦ (0, rw taken (ap some (omega arith)), omega arith, taken, refl)
  ]

  vec_first-table :
      (v : Vec A)
      → IsVisited v
      → in_use v.vec ≢ []
      → (m : ℕ) × (vec_first stored v ≡ some (some m, visiting stored v m))
        × (m < v.max)
        × ((stored (get_or v.vec m v.elm) == u32_max) ≡ false)
        × (in_use v.vec ≡ in_use (drop m v.vec))
  unfolding vec_first first_slot
  vec_first-table v t some_there =
      let (m, found, lt, taken, same) = first_used-found v.vec v.elm 0 some_there in
      let start : 0 + m ≡ m = omega arith in
      (
        m,
        rw (t.some_left, t.hashed.1, found, start, get_elem?-eq-get_or v.vec m v.elm lt) refl,
        omega (arith, lt, t.sized),
        taken,
        same,
      )

  -- Going through a hash table with at least one element, from `utl_vec_first` on by `utl_vec_next` until
  -- NULL is returned, shows the elements of its slots in use in their order, each once.
  pub visit_all-in_use :
      (v : Vec A)
      → IsVisited v
      → in_use v.vec ≢ []
      → visit_all stored (suc v.max) v ≡ some (in_use v.vec)
  unfolding visit_all
  visit_all-in_use v t some_there =
      let (m, first, lt, taken, same) = vec_first-table v t some_there in
      rw (first, same, visit_all) (visit-in_use v (suc v.max) m t lt taken (omega (arith, lt)))
