-- ===== src/Cache/Chains.antt =====
-- The chains of the hash table of src/cache/cache.c: the loops of `find_entry` and `remove_entry`.
use backend_in_c.Prelude.{
  ℕ, zero, suc, ◌≤◌, ◌<◌, ◌≡◌, refl, ap, subst, List, [], ◌∷◌, ◌++◌, Option, none, some, inl, inr,
  Bool-cases, some_inj, true, false, arith, length, ◌==◌, if◌then◌else◌, CString, str_eq,
}
use backend_in_c.Cache.{Ptr, Item, Cache, write, expired, walk, unlink_chain}
use backend_in_c.Cache.Lists.{
  occurrences, occurrences-append, last_or, last_or-some, write-same, write-other,
}

-- From `q` the links `f` lead through `xs` to the end.
abbrev pub Chain : (Ptr → Option Ptr) → Option Ptr → List Ptr → Type 0
Chain f q [] = q ≡ none
Chain f q (p ∷ xs) = (q ≡ some p) × Chain f (f p) xs

pub Chain-frame :
    (f g : Ptr → Option Ptr) (q : Option Ptr) (xs : List Ptr)
    → ((p : Ptr) → 0 < occurrences p xs → g p ≡ f p)
    → Chain f q xs
    → Chain g q xs
Chain-frame f g q [] same h = h
Chain-frame f g q (x ∷ xs) same h = (
  h.0,
  rw (same x (ground arith)) (Chain-frame f g (f x) xs (λ p there. same p (omega arith)) h.1),
)

-- The first entry of some, unless it has expired.
abbrev pub newest : ℕ → (Ptr → Item) → List Ptr → Option Ptr
newest now item [] = none
newest now item (p ∷ xs) = if expired now (item p) then none else some p

-- The entries under a key.
abbrev pub with_key : (Ptr → Item) → CString → List Ptr → List Ptr
with_key item k [] = []
with_key item k (p ∷ xs) =
    if str_eq (item p).key k then p ∷ with_key item k xs else with_key item k xs

-- The walk over a chain stops at the first entry with the key.
pub walk-newest :
    (fuel now : ℕ) (k : CString) (item : Ptr → Item) (f : Ptr → Option Ptr) (q : Option Ptr)
    (xs : List Ptr)
    → length xs < fuel
    → Chain f q xs
    → walk fuel now k item f q ≡ newest now item (with_key item k xs)
unfolding walk
walk-newest zero now k item f q xs enough h = absurd (omega arith)
walk-newest (suc fuel) now k item f q [] enough h = rw h refl
walk-newest (suc fuel) now k item f q (p ∷ xs) enough h =
    let ih = walk-newest fuel now k item f (f p) xs (omega arith) h.1 in
    elim (Bool-cases (str_eq (item p).key k)) [
      | inl same ↦ rw (h.0, walk, same) refl
      | inr other ↦ rw (h.0, walk, other) ih
    ]

-- The cache with `nx` behind `pr` in the chain of bucket `b`, or first in it.
abbrev pub rechained : ℕ → Option Ptr → Option Ptr → Cache → Cache
rechained b pr nx c = record c {
  hash_table = elim pr [ none ↦ write c.hash_table b nx | some _ ↦ c.hash_table ];
  hash_next = elim pr [ none ↦ c.hash_next | some r ↦ write c.hash_next r nx ];
}

pub unlink_chain-rechained :
    (fuel b : ℕ) (p : Ptr) (pr q : Option Ptr) (us vs : List Ptr) (c : Cache)
    → length us < fuel
    → occurrences p us ≡ 0
    → Chain c.hash_next q (us ++ p ∷ vs)
    → unlink_chain fuel b p pr q c ≡ rechained b (last_or pr us) (c.hash_next p) c
unfolding unlink_chain
unlink_chain-rechained zero b p pr q us vs c enough out h = absurd (omega arith)
unlink_chain-rechained (suc fuel) b p none q [] vs c enough out h =
    let here : p == p ≡ true = ground arith in rw (h.0, unlink_chain, here) refl
unlink_chain-rechained (suc fuel) b p (some r) q [] vs c enough out h =
    let here : p == p ≡ true = ground arith in rw (h.0, unlink_chain, here) refl
unlink_chain-rechained (suc fuel) b p pr q (u ∷ us) vs c enough out h =
    let other : u == p ≡ false = ground arith in
    rw (h.0, unlink_chain, other)
      (unlink_chain-rechained fuel b p (some u) (c.hash_next u) us vs c (omega arith) (omega arith)
        h.1)

Chain-relink :
    (f : Ptr → Option Ptr) (p r : Ptr) (q : Option Ptr) (us vs : List Ptr)
    → ((t : Ptr) → occurrences t (us ++ p ∷ vs) ≤ 1)
    → last_or none us ≡ some r
    → Chain f q (us ++ p ∷ vs)
    → Chain (write f r (f p)) q (us ++ vs)
Chain-relink f p r q [] vs once e h = absurd (cc)
Chain-relink f p r q (u ∷ []) vs once e h =
    let same : u ≡ r = some_inj e in
    (
      h.0,
      subst (λ t. Chain (write f t (f p)) (write f t (f p) u) vs) same
          (rw (write-same f u (f p)) (
            Chain-frame f (write f u (f p)) (f p) vs
              (λ t there. write-other f u t (f p) (λ ut. ground (arith, once t))) h.1.1)),
    )
Chain-relink f p r q (u ∷ (w ∷ us)) vs once e h = (
  h.0,
  rw (write-other f r u (f p) (λ ru. differ ru))
      (Chain-relink f p r (f u) (w ∷ us) vs (λ t. omega (arith, once t)) e h.1),
)
  where
    occurs : (w : Ptr) (us : List Ptr) → last_or (some w) us ≡ some r → 0 < occurrences r (w ∷ us)
    occurs w [] e = ground (arith, some_inj e)
    occurs w (x ∷ us) e = omega (arith, occurs x us e)

    differ : r ≡ u → ⊥
    differ ru =
        let here : occurrences u (u ∷ []) ≡ 1 = ground arith in
        omega (
          arith,
          once u,
          ap (λ t. occurrences t (w ∷ us)) ru,
          occurs w us e,
          occurrences-append u (w ∷ us) (p ∷ vs),
          here,
        )

-- The chain after the entry between its parts is taken out.
pub Chain-rechained :
    (c : Cache) (b : ℕ) (p : Ptr) (us vs : List Ptr)
    → ((t : Ptr) → occurrences t (us ++ p ∷ vs) ≤ 1)
    → Chain c.hash_next (c.hash_table b) (us ++ p ∷ vs)
    → let c' = rechained b (last_or none us) (c.hash_next p) c in
      Chain c'.hash_next (c'.hash_table b) (us ++ vs)
Chain-rechained c b p [] vs once h = rw (write-same c.hash_table b (c.hash_next p)) h.1
Chain-rechained c b p (u ∷ us) vs once h = go (u ∷ us) once h (last_or-some u us)
  where
    go :
        (us : List Ptr)
        → ((t : Ptr) → occurrences t (us ++ p ∷ vs) ≤ 1)
        → Chain c.hash_next (c.hash_table b) (us ++ p ∷ vs)
        → ((t : Ptr) × (last_or none us ≡ some t))
        → let c' = rechained b (last_or none us) (c.hash_next p) c in
          Chain c'.hash_next (c'.hash_table b) (us ++ vs)
    go us once h (r, e) = rw e (Chain-relink c.hash_next p r (c.hash_table b) us vs once e h)
