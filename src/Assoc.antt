-- ===== src/Assoc.antt =====
-- Singly linked lists of nodes with a string for a key, as the loops of the source walk them from
-- the head: the chains of the hash table in src/database/database.c, and the clients, services and
-- metrics in src/distributed/distributed.c. The first node with a key is the one that a loop stops
-- at.
use mathlib.Core.Option
use backend_in_c.Prelude.{
  ℕ, ◌+◌, ◌≤◌, ◌≡◌, refl, List, [], ◌∷◌, ◌++◌, Option, none, some, inl, inr, Option-cases, arith,
  CString, str_eq, str_eq_iff, length, or_else, is_some, true, if◌then◌else◌,
}

abbrev pub Assoc : Type 0 → Type 0
Assoc V = List (CString × V)

module _ {V : Type 0} where
  -- `hash_table_get`: the value of the first entry with the key
  unfoldable pub find : CString → Assoc V → Option V
  find k [] = none
  find k ((j, v) ∷ c) = if str_eq j k then some v else find k c

  -- `hash_table_put`: the chain with the first such entry given the new value, if there is one
  unfoldable pub update : CString → V → Assoc V → Option (Assoc V)
  update k v [] = none
  update k v ((j, w) ∷ c) =
      if str_eq j k then some ((j, v) ∷ c) else Option.map (λ r. (j, w) ∷ r) (update k v c)

  -- `hash_table_delete`: the chain without the first such entry, if there is one
  unfoldable pub remove : CString → Assoc V → Option (Assoc V)
  remove k [] = none
  remove k ((j, w) ∷ c) = if str_eq j k then some c else Option.map (λ r. (j, w) ∷ r) (remove k c)

  -- How many entries have the key.
  unfoldable pub count : CString → Assoc V → ℕ
  count k [] = 0
  count k ((j, w) ∷ c) = (if str_eq j k then 1 else 0) + count k c

  pub count-append : (k : CString) (a b : Assoc V) → count k (a ++ b) ≡ count k a + count k b
  unfolding count
  count-append k [] b = omega arith
  count-append k (e ∷ a) b = omega (arith, count-append k a b)

  pub find-append : (k : CString) (a b : Assoc V) → find k (a ++ b) ≡ or_else (find k a) (find k b)
  unfolding find
  find-append k [] b = refl
  find-append k ((j, w) ∷ a) b = ground (arith, find-append k a b)

  pub find-eq-none : (k : CString) (c : Assoc V) → count k c ≡ 0 → find k c ≡ none
  unfolding count find
  find-eq-none k [] h = refl
  find-eq-none k ((j, w) ∷ c) h = ground (arith, find-eq-none k c)

  pub count-eq-zero : (k : CString) (c : Assoc V) → find k c ≡ none → count k c ≡ 0
  unfolding count find
  count-eq-zero k [] h = refl
  count-eq-zero k ((j, w) ∷ c) h = ground (arith, count-eq-zero k c)

  module _ (k : CString) (v : V) where
    pub update-find : (c : Assoc V) → update k v c ≡ none → find k c ≡ none
    unfolding update find
    update-find [] h = refl
    update-find ((j, w) ∷ c) h = ground (arith, update-find c)

    pub update-found :
        (c : Assoc V) {d : Assoc V} → update k v c ≡ some d → is_some (find k c) ≡ true
    unfolding update find
    update-found [] h = cc
    update-found ((j, w) ∷ c) {d} h = elim (Option-cases (update k v c)) [
      | inl e ↦ ground arith
      | inr (r, e) ↦ ground (arith, update-found c {d = r} e)
    ]

    pub find-update :
        (c : Assoc V) {d : Assoc V} (q : CString)
        → update k v c ≡ some d
        → find q d ≡ (if str_eq k q then some v else find q c)
    unfolding update find
    find-update [] q h = cc
    find-update ((j, w) ∷ c) {d} q h = elim (Option-cases (update k v c)) [
      | inl e ↦ ground (arith, str_eq_iff j k, str_eq_iff j q, str_eq_iff k q)
      | inr (r, e) ↦
          ground (arith, find-update c {d = r} q e, str_eq_iff j k, str_eq_iff j q, str_eq_iff k q)
    ]

    pub count-update :
        (c : Assoc V) {d : Assoc V} (q : CString) → update k v c ≡ some d → count q d ≡ count q c
    unfolding update count
    count-update [] q h = cc
    count-update ((j, w) ∷ c) {d} q h = elim (Option-cases (update k v c)) [
      | inl e ↦ ground arith
      | inr (r, e) ↦ ground (arith, count-update c {d = r} q e)
    ]

    pub length-update : (c : Assoc V) {d : Assoc V} → update k v c ≡ some d → length d ≡ length c
    unfolding update
    length-update [] h = cc
    length-update ((j, w) ∷ c) {d} h = elim (Option-cases (update k v c)) [
      | inl e ↦ ground arith
      | inr (r, e) ↦ ground (arith, length-update c {d = r} e)
    ]

  module _ (k : CString) where
    pub remove-find : (c : Assoc V) → remove k c ≡ none → find k c ≡ none
    unfolding remove find
    remove-find [] h = refl
    remove-find ((j, w) ∷ c) h = ground (arith, remove-find c)

    pub remove-found : (c : Assoc V) {d : Assoc V} → remove k c ≡ some d → is_some (find k c) ≡ true
    unfolding remove find
    remove-found [] h = cc
    remove-found ((j, w) ∷ c) {d} h = elim (Option-cases (remove k c)) [
      | inl e ↦ ground arith
      | inr (r, e) ↦ ground (arith, remove-found c {d = r} e)
    ]

    -- With at most one entry under the looked up key, no second one comes to light.
    pub find-remove :
        (c : Assoc V) {d : Assoc V} (q : CString)
        → remove k c ≡ some d
        → count q c ≤ 1
        → find q d ≡ (if str_eq k q then none else find q c)
    unfolding remove find count
    find-remove [] q h once = cc
    find-remove ((j, w) ∷ c) {d} q h once = elim (Option-cases (remove k c)) [
      | inl e ↦ ground (arith, find-eq-none q c, str_eq_iff j k, str_eq_iff j q, str_eq_iff k q)
      | inr (r, e) ↦ ground (
        arith,
        find-remove c {d = r} q e,
        find-eq-none q c,
        str_eq_iff j k,
        str_eq_iff j q,
        str_eq_iff k q,
      )
    ]

    pub count-remove-le :
        (c : Assoc V) {d : Assoc V} (q : CString) → remove k c ≡ some d → count q d ≤ count q c
    unfolding remove count
    count-remove-le [] q h = absurd (cc)
    count-remove-le ((j, w) ∷ c) {d} q h = elim (Option-cases (remove k c)) [
      | inl e ↦ ground arith
      | inr (r, e) ↦ ground (arith, count-remove-le c {d = r} q e)
    ]

    pub length-remove : (c : Assoc V) {d : Assoc V} → remove k c ≡ some d → length c ≡ length d + 1
    unfolding remove
    length-remove [] h = cc
    length-remove ((j, w) ∷ c) {d} h = elim (Option-cases (remove k c)) [
      | inl e ↦ ground arith
      | inr (r, e) ↦ ground (arith, length-remove c {d = r} e)
    ]
