-- ===== src/Cache/Keys.antt =====
-- The entries under a key, and a list without an entry: what the lists and chains of
-- src/cache/cache.c have in common.
use backend_in_c.Prelude.{
  ℕ, ◌+◌, ◌≤◌, ◌<◌, ◌≡◌, refl, sym, ap, List, [], ◌∷◌, ◌++◌, inl, inr, Bool-cases, true, false,
  arith, length, ◌==◌, if◌then◌else◌, CString, str_eq, str_eq_refl,
}
use backend_in_c.Cache.{Ptr, Item}
use backend_in_c.Cache.Lists.{occurrences}
use backend_in_c.Cache.Chains.{with_key}

-- The list without the first occurrence of an address.
abbrev pub without : Ptr → List Ptr → List Ptr
without p [] = []
without p (q ∷ xs) = if q == p then xs else q ∷ without p xs

pub without-absent : (p : Ptr) (xs : List Ptr) → occurrences p xs ≡ 0 → without p xs ≡ xs
without-absent p [] out = refl
without-absent p (q ∷ xs) out = ground (arith, without-absent p xs)

pub occurrences-without :
    (p q : Ptr) (xs : List Ptr)
    → 0 < occurrences p xs
    → occurrences q (without p xs) + (if p == q then 1 else 0) ≡ occurrences q xs
occurrences-without p q [] there = absurd (omega arith)
occurrences-without p q (x ∷ xs) there = ground (arith, occurrences-without p q xs)

pub length-without :
    (p : Ptr) (xs : List Ptr) → 0 < occurrences p xs → length (without p xs) + 1 ≡ length xs
length-without p [] there = absurd (omega arith)
length-without p (x ∷ xs) there = ground (arith, length-without p xs)

-- A list that holds every address at most as often as another is no longer.
pub length-le-of_occurrences :
    (xs ys : List Ptr) → ((p : Ptr) → occurrences p xs ≤ occurrences p ys) → length xs ≤ length ys
length-le-of_occurrences [] ys h = omega arith
length-le-of_occurrences (x ∷ xs) ys h =
    let there : 0 < occurrences x ys = ground (arith, h x) in
    omega (
      arith,
      length-without x ys there,
      length-le-of_occurrences xs (without x ys)
          (λ p. omega (arith, h p, occurrences-without x p ys there)),
    )

-- An address that occurs parts the list.
pub split_at :
    (p : Ptr) (xs : List Ptr)
    → 0 < occurrences p xs
    → (us : List Ptr) × (vs : List Ptr) × (xs ≡ us ++ p ∷ vs)
      × (occurrences p us ≡ 0)
      × (without p xs ≡ us ++ vs)
split_at p [] there = absurd (omega arith)
split_at p (x ∷ xs) there = elim (Bool-cases (x == p)) [
  | inl same ↦ let e : x ≡ p = ground arith in ([], xs, ap (λ t. t ∷ xs) e, refl, rw same refl)
  | inr other ↦
      let (us, vs, e, out, rest) = split_at p xs (ground arith) in
      (x ∷ us, vs, ap (λ t. x ∷ t) e, rw other (omega arith), rw other (ap (λ t. x ∷ t) rest))
]

one_less : (p m : ℕ) {n : ℕ} → n ≤ 1 → m + (if p == p then 1 else 0) ≡ n → m ≡ 0
one_less p m once e = ground arith

pub occurrences-without_self :
    (p : Ptr) (xs : List Ptr)
    → 0 < occurrences p xs
    → occurrences p xs ≤ 1
    → occurrences p (without p xs) ≡ 0
occurrences-without_self p xs there once =
    one_less p (occurrences p (without p xs)) once (occurrences-without p p xs there)

module _ (item : Ptr → Item) where
  pub occurrences-with_key :
      (p : Ptr) (xs : List Ptr) → occurrences p (with_key item (item p).key xs) ≡ occurrences p xs
  occurrences-with_key p [] = refl
  occurrences-with_key p (x ∷ xs) = elim (Bool-cases (x == p)) [
    | inl same ↦
        let e : x ≡ p = ground arith in
        rw (e, str_eq_refl (item p).key) (omega (arith, occurrences-with_key p xs))
    | inr other ↦ ground (arith, occurrences-with_key p xs)
  ]

  pub occurrences-with_key-other :
      (p : Ptr) (k : CString) (xs : List Ptr)
      → str_eq (item p).key k ≡ false
      → occurrences p (with_key item k xs) ≡ 0
  occurrences-with_key-other p k [] other = refl
  occurrences-with_key-other p k (x ∷ xs) other = elim (Bool-cases (x == p)) [
    | inl same ↦
        let e : x ≡ p = ground arith in rw (e, other) (occurrences-with_key-other p k xs other)
    | inr differ ↦ ground (arith, occurrences-with_key-other p k xs other)
  ]

  pub with_key-without :
      (p : Ptr) (k : CString) (xs : List Ptr)
      → with_key item k (without p xs) ≡ without p (with_key item k xs)
  with_key-without p k [] = refl
  with_key-without p k (x ∷ xs) = elim (Bool-cases (x == p)) [
    | inl same ↦ elim (Bool-cases (str_eq (item x).key k)) [
      | inl mine ↦ rw (same, mine, same) refl
      | inr other ↦
          let e : x ≡ p = ground arith in
          rw (same, other)
            (sym (
              without-absent p (with_key item k xs)
                (occurrences-with_key-other p k xs (rw e at other))))
    ]
    | inr differ ↦ ground (arith, with_key-without p k xs)
  ]

  pub with_key-append :
      (k : CString) (xs ys : List Ptr)
      → with_key item k (xs ++ ys) ≡ with_key item k xs ++ with_key item k ys
  with_key-append k [] ys = refl
  with_key-append k (x ∷ xs) ys = ground (arith, with_key-append k xs ys)

  -- Only the keys of its nodes count.
  pub with_key-frame :
      (item' : Ptr → Item) (k : CString) (xs : List Ptr)
      → ((p : Ptr) → 0 < occurrences p xs → (item' p).key ≡ (item p).key)
      → with_key item' k xs ≡ with_key item k xs
  with_key-frame item' k [] same = refl
  with_key-frame item' k (x ∷ xs) same =
      rw (same x (ground arith), with_key-frame item' k xs (λ p there. same p (omega arith))) refl

  pub with_key-found :
      (k : CString) (p : Ptr) (xs rest : List Ptr)
      → with_key item k xs ≡ p ∷ rest
      → (0 < occurrences p xs) × (str_eq (item p).key k ≡ true)
  with_key-found k p [] rest e = absurd (cc)
  with_key-found k p (x ∷ xs) rest e = elim (Bool-cases (str_eq (item x).key k)) [
    | inl mine ↦ let e' = rw mine at e in let same : x ≡ p = cc in (ground arith, rw (← same) mine)
    | inr other ↦ let ih = with_key-found k p xs rest (rw other at e) in (omega (arith, ih.0), ih.1)
  ]
