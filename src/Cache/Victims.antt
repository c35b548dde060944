-- ===== src/Cache/Victims.antt =====
-- The entry that src/cache/cache.c evicts, by its address and by its contents.
use backend_in_c.Prelude.{
  ◌≤◌, ◌<◌, ◌≡◌, refl, sym, ap, subst, ◌∙◌, List, [], ◌∷◌, map, none, some, inl, inr, ◌⊎◌,
  Bool-cases, Bool, true, false, arith, ltb, ◌==◌, if◌then◌else◌, some_inj,
}
use backend_in_c.Cache.{Ptr, Item, EvictionPolicy, eviction_lru, eviction_lfu}
use backend_in_c.Cache.Lists.{occurrences, last_or, last_or-occurs}
use backend_in_c.Cache.Recency.{Once}
use backend_in_c.Cache.Keys.{without}
use backend_in_c.Cache.Eviction.{least, victim}
use backend_in_c.Cache.Model.{drop_last, min_count, drop_count, evict_one}

module _ (item : Ptr → Item) where
  map-without-last :
      (v : Ptr) (xs : List Ptr)
      → Once xs
      → last_or none xs ≡ some v
      → map item (without v xs) ≡ drop_last (map item xs)
  map-without-last v [] once e = refl
  map-without-last v (x ∷ []) once e =
      let same : x ≡ v = some_inj e in let here : x == v ≡ true = ground arith in rw here refl
  map-without-last v (x ∷ (y ∷ xs)) once e =
      let later = last_or-occurs (y ∷ xs) v e in
      let apart : x == v ≡ false = distinct x v (y ∷ xs) (once v) later in
      let rest = map-without-last v (y ∷ xs) (λ q. less q x (y ∷ xs) (once q)) e in
      rw apart (ap (λ t. item x ∷ t) rest)
    where
      distinct :
          (x v : Ptr) (ys : List Ptr)
          → occurrences v (x ∷ ys) ≤ 1
          → 0 < occurrences v ys
          → x == v ≡ false
      distinct x v ys once later = ground arith

      less : (q x : Ptr) (ys : List Ptr) → occurrences q (x ∷ ys) ≤ 1 → occurrences q ys ≤ 1
      less q x ys once = omega arith

  least-pick :
      (v x : Ptr) (xs : List Ptr) {less : Bool}
      → ltb (item x).access_count (item v).access_count ≡ less
      → least item v (x ∷ xs) ≡ least item (if less then x else v) xs
  least-pick v x xs e = ap (λ b. least item (if b then x else v) xs) e

  least-count :
      (v : Ptr) (xs : List Ptr)
      → (item (least item v xs)).access_count ≡ min_count (item v).access_count (map item xs)
  least-count v [] = refl
  least-count v (x ∷ xs) = elim (Bool-cases (ltb (item x).access_count (item v).access_count)) [
    | inl less ↦
        ap (λ t. (item t).access_count) (least-pick v x xs less)
        ∙ least-count x xs
        ∙ ap
            (λ b.
              min_count (if b then (item x).access_count else (item v).access_count) (map item xs))
            (sym less)
    | inr more ↦
        ap (λ t. (item t).access_count) (least-pick v x xs more)
        ∙ least-count v xs
        ∙ ap
            (λ b.
              min_count (if b then (item x).access_count else (item v).access_count) (map item xs))
            (sym more)
  ]

  found :
      (x : Ptr) (xs : List Ptr)
      → map item (without x (x ∷ xs)) ≡ drop_count (item x).access_count (map item (x ∷ xs))
  found x xs =
      let here : x == x ≡ true = ground arith in
      let same : (item x).access_count == (item x).access_count ≡ true = ground arith in
      rw (here, same) refl

  same_place : (x l : Ptr) → x == l ≡ true → x ≡ l
  same_place x l same = ground arith

  differ : (l x : Ptr) → (item l).access_count < (item x).access_count → x == l ≡ false
  differ l x below = elim (Bool-cases (x == l)) [
    | inl same ↦
        absurd (omega (arith, below, ap (λ t. (item t).access_count) (same_place x l same)))
    | inr other ↦ other
  ]

  skip :
      (l x : Ptr) (xs : List Ptr)
      → (item l).access_count < (item x).access_count
      → map item (without l xs) ≡ drop_count (item l).access_count (map item xs)
      → map item (without l (x ∷ xs)) ≡ drop_count (item l).access_count (map item (x ∷ xs))
  skip l x xs below rest =
      let apart : x == l ≡ false = differ l x below in
      let counts : (item x).access_count == (item l).access_count ≡ false = ground arith in
      rw (apart, counts) (ap (λ t. item x ∷ t) rest)

  -- An entry is `v`, or is read less and is the first of the others with its count.
  abbrev FirstLeast : Ptr → Ptr → List Ptr → Type 0
  FirstLeast l v xs =
      (l ≡ v)
      ⊎ (((item l).access_count < (item v).access_count)
          × (map item (without l xs) ≡ drop_count (item l).access_count (map item xs)))

  least-first : (v : Ptr) (xs : List Ptr) → FirstLeast (least item v xs) v xs
  least-first v [] = inl refl
  least-first v (x ∷ xs) = elim (Bool-cases (ltb (item x).access_count (item v).access_count)) [
    | inl less ↦
        subst (λ l. FirstLeast l v (x ∷ xs)) (sym (least-pick v x xs less))
          (step-less (ground arith) (least item x xs) (least-first x xs))
    | inr more ↦
        subst (λ l. FirstLeast l v (x ∷ xs)) (sym (least-pick v x xs more))
          (step-more (ground arith) (least item v xs) (least-first v xs))
  ]
    where
      step-less :
          (item x).access_count < (item v).access_count
          → (l : Ptr) → FirstLeast l x xs
          → FirstLeast l v (x ∷ xs)
      step-less lt l (inl first) =
          subst (λ t. FirstLeast t v (x ∷ xs)) (sym first) (inr (lt, found x xs))
      step-less lt l (inr (below, rest)) = inr (omega (arith, below, lt), skip l x xs below rest)

      step-more :
          (item v).access_count ≤ (item x).access_count
          → (l : Ptr) → FirstLeast l v xs
          → FirstLeast l v (x ∷ xs)
      step-more ge l (inl first) = inl first
      step-more ge l (inr (below, rest)) = inr (below, skip l x xs (omega (arith, below, ge)) rest)

  map-without-least :
      (p : Ptr) (xs : List Ptr)
      → map item (without (least item p xs) (p ∷ xs))
        ≡ drop_count (min_count (item p).access_count (map item xs)) (map item (p ∷ xs))
  map-without-least p xs =
      at_count (least item p xs) (least-first p xs)
      ∙ ap (λ n. drop_count n (map item (p ∷ xs))) (least-count p xs)
    where
      at_count :
          (l : Ptr)
          → FirstLeast l p xs
          → map item (without l (p ∷ xs)) ≡ drop_count (item l).access_count (map item (p ∷ xs))
      at_count l (inl first) =
          subst
            (λ t.
              map item (without t (p ∷ xs)) ≡ drop_count (item t).access_count (map item (p ∷ xs)))
            (sym first) (found p xs)
      at_count l (inr (below, rest)) = skip l p xs below rest

  -- The victim's entry is the one that the model drops.
  pub map-without-victim :
      (policy : EvictionPolicy) (v : Ptr) (xs : List Ptr)
      → Once xs
      → victim policy item xs ≡ some v
      → map item (without v xs) ≡ evict_one policy (map item xs)
  map-without-victim policy v [] once e = refl
  map-without-victim eviction_lru v (p ∷ xs) once e = map-without-last v (p ∷ xs) once e
  map-without-victim eviction_lfu v (p ∷ xs) once e =
      let same : least item p xs ≡ v = some_inj e in
      ap (λ t. map item (without t (p ∷ xs))) (sym same) ∙ map-without-least p xs
