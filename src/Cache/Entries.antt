-- ===== src/Cache/Entries.antt =====
-- The entries of src/cache/cache.c by their addresses and by their contents: what is done to one list
-- is done to the other.
use backend_in_c.Prelude.{
  ℕ, ◌≤◌, ◌≡◌, ◌≢◌, refl, ap, List, [], ◌∷◌, map, Option, none, some, inl, inr, Bool-cases, Bool,
  true, false, arith, ◌==◌, CString, str_eq, some_inj, eq_of_==,
}
use backend_in_c.Cache.{Ptr, Item, write, expired}
use backend_in_c.Cache.Lists.{occurrences, write-same, write-other}
use backend_in_c.Cache.Chains.{newest, with_key}
use backend_in_c.Cache.Keys.{without, with_key-found}
use backend_in_c.Cache.Model.{lookup, drop_key, set_key}

abbrev pub item? : (Ptr → Item) → Option Ptr → Option Item
item? item none = none
item? item (some p) = some (item p)

module _ (item : Ptr → Item) where
  pub lookup-map :
      (now : ℕ) (k : CString) (xs : List Ptr)
      → lookup now k (map item xs) ≡ item? item (newest now item (with_key item k xs))
  lookup-map now k [] = refl
  lookup-map now k (x ∷ xs) = elim (Bool-cases (str_eq (item x).key k)) [
    | inl mine ↦ elim (Bool-cases (expired now (item x))) [
      | inl old ↦ rw (mine, old) refl
      | inr fresh ↦ rw (mine, fresh) refl
    ]
    | inr other ↦ rw other (lookup-map now k xs)
  ]

  pub newest-some :
      (now : ℕ) (p : Ptr) (xs : List Ptr)
      → newest now item xs ≡ some p
      → (rest : List Ptr) × (xs ≡ p ∷ rest)
  newest-some now p [] e = absurd cc
  newest-some now p (x ∷ xs) e = elim (Bool-cases (expired now (item x))) [
    | inl old ↦ absurd (none-some p (rw old at e))
    | inr fresh ↦ (xs, ap (λ t. t ∷ xs) (some_inj (rw fresh at e)))
  ]
    where
      none-some : (p : Ptr) → none ≢ some p
      none-some p = λ e. cc

  -- The first entry with its key is the one that goes.
  pub map-without :
      (p : Ptr) (k : CString) (xs rest : List Ptr)
      → with_key item k xs ≡ p ∷ rest
      → map item (without p xs) ≡ drop_key k (map item xs)
  map-without p k [] rest e = absurd cc
  map-without p k (x ∷ xs) rest e = elim (Bool-cases (str_eq (item x).key k)) [
    | inl mine ↦
        let same : x ≡ p = head_of (rw mine at e) in
        let here : x == p ≡ true = ground arith in rw (mine, here) refl
    | inr other ↦
        let f = rw other at e in
        elim (Bool-cases (x == p)) [
          | inl here ↦
              let mine = (with_key-found item k p xs rest f).1 in
              absurd (clash other (rw (eq_of_== x p here) mine))
          | inr apart ↦ rw (other, apart) (ap (λ t. item x ∷ t) (map-without p k xs rest f))
        ]
  ]
    where
      head_of : {x y : Ptr} {xs ys : List Ptr} → x ∷ xs ≡ y ∷ ys → x ≡ y
      head_of e = cc

      clash : {b : Bool} → b ≡ false → b ≡ true → ⊥
      clash e f = cc

  pub map-write-absent :
      (p : Ptr) (e : Item) (xs : List Ptr)
      → occurrences p xs ≡ 0
      → map (write item p e) xs ≡ map item xs
  map-write-absent p e [] out = refl
  map-write-absent p e (x ∷ xs) out =
      let apart : p ≢ x = λ (s : p ≡ x). absurd (differs p x xs out s) in
      rw (write-other item p x e apart, map-write-absent p e xs (omega arith)) refl
    where
      differs : (p x : Ptr) (xs : List Ptr) → occurrences p (x ∷ xs) ≡ 0 → p ≡ x → ⊥
      differs p x xs out s = ground arith

  pub map-write :
      (p : Ptr) (k : CString) (e : Item) (xs rest : List Ptr)
      → occurrences p xs ≤ 1
      → with_key item k xs ≡ p ∷ rest
      → map (write item p e) xs ≡ set_key k e (map item xs)
  map-write p k e [] rest once f = absurd cc
  map-write p k e (x ∷ xs) rest once f = elim (Bool-cases (str_eq (item x).key k)) [
    | inl mine ↦
        let same : x ≡ p = head_of (rw mine at f) in
        let out : occurrences p xs ≡ 0 = ground arith in
        rw (mine, map-write-absent p e xs out, same, write-same item p e) refl
    | inr other ↦
        let g = rw other at f in
        let (there, mine) = with_key-found item k p xs rest g in
        let apart = λ (s : p ≡ x). clash other (rw (← s) mine) in
        rw (other, write-other item p x e apart)
          (ap (λ t. item x ∷ t) (map-write p k e xs rest (omega arith) g))
  ]
    where
      head_of : {x y : Ptr} {xs ys : List Ptr} → x ∷ xs ≡ y ∷ ys → x ≡ y
      head_of e = cc

      clash : {b : Bool} → b ≡ false → b ≡ true → ⊥
      clash e f = cc
