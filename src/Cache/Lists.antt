-- ===== src/Cache/Lists.antt =====
-- The two kinds of list of src/cache/cache.c: the doubly linked list of all entries, and the chains.
-- An address is in such a list as often as it occurs, which is once at most.
use backend_in_c.Prelude.{
  ℕ, ◌+◌, ◌<◌, ◌≡◌, ◌≢◌, refl, sym, ap, ◌∙◌, List, [], ◌∷◌, ◌++◌, Option, none, some, inl, inr,
  Option-cases, some_inj, arith, ◌==◌, if◌then◌else◌,
}
use backend_in_c.Cache.{Ptr, write}

abbrev pub occurrences : Ptr → List Ptr → ℕ
occurrences p [] = 0
occurrences p (q ∷ xs) = (if q == p then 1 else 0) + occurrences p xs

pub occurrences-append :
    (p : Ptr) (xs ys : List Ptr) → occurrences p (xs ++ ys) ≡ occurrences p xs + occurrences p ys
occurrences-append p [] ys = omega arith
occurrences-append p (x ∷ xs) ys = omega (arith, occurrences-append p xs ys)

-- The first node, or what comes behind the list.
abbrev pub first_or : List Ptr → Option Ptr → Option Ptr
first_or [] a = a
first_or (p ∷ xs) a = some p

-- The last node, or what comes before the list.
abbrev pub last_or : Option Ptr → List Ptr → Option Ptr
last_or b [] = b
last_or b (p ∷ xs) = last_or (some p) xs

pub first_or-append :
    (xs ys : List Ptr) (a : Option Ptr) → first_or (xs ++ ys) a ≡ first_or xs (first_or ys a)
first_or-append [] ys a = refl
first_or-append (x ∷ xs) ys a = refl

pub last_or-append :
    (b : Option Ptr) (xs ys : List Ptr) → last_or b (xs ++ ys) ≡ last_or (last_or b xs) ys
last_or-append b [] ys = refl
last_or-append b (x ∷ xs) ys = last_or-append (some x) xs ys

-- The nodes of `xs` are linked both ways, between `b` and `a`.
abbrev pub Linked :
    (Ptr → Option Ptr) → (Ptr → Option Ptr) → Option Ptr → List Ptr → Option Ptr → Type 0
Linked prev next b [] a = Unit {0}
Linked prev next b (p ∷ xs) a =
    ((prev p ≡ b) × (next p ≡ first_or xs a)) × Linked prev next (some p) xs a

module _ (prev next : Ptr → Option Ptr) where
  pub Linked-append :
      (b : Option Ptr) (xs ys : List Ptr) (a : Option Ptr)
      → Linked prev next b (xs ++ ys) a
      → Linked prev next b xs (first_or ys a) × Linked prev next (last_or b xs) ys a
  Linked-append b [] ys a l = (tt, l)
  Linked-append b (x ∷ xs) ys a l =
      let rest = Linked-append (some x) xs ys a l.1 in
      (((l.0.0, l.0.1 ∙ first_or-append xs ys a), rest.0), rest.1)

  pub Linked-join :
      (b : Option Ptr) (xs ys : List Ptr) (a : Option Ptr)
      → Linked prev next b xs (first_or ys a)
      → Linked prev next (last_or b xs) ys a
      → Linked prev next b (xs ++ ys) a
  Linked-join b [] ys a l k = k
  Linked-join b (x ∷ xs) ys a l k =
      ((l.0.0, l.0.1 ∙ sym (first_or-append xs ys a)), Linked-join (some x) xs ys a l.1 k)

  -- The links of other nodes are of no account.
  pub Linked-frame :
      (prev' next' : Ptr → Option Ptr) (b : Option Ptr) (xs : List Ptr) (a : Option Ptr)
      → ((p : Ptr) → 0 < occurrences p xs → (prev' p ≡ prev p) × (next' p ≡ next p))
      → Linked prev next b xs a
      → Linked prev' next' b xs a
  Linked-frame prev' next' b [] a same l = tt
  Linked-frame prev' next' b (x ∷ xs) a same l =
      let here = same x (ground arith) in
      (
        (here.0 ∙ l.0.0, here.1 ∙ l.0.1),
        Linked-frame prev' next' (some x) xs a (λ p there. same p (omega arith)) l.1,
      )

-- A link field written where there is a node to write to.
abbrev pub write? : (Ptr → Option Ptr) → Option Ptr → Option Ptr → Ptr → Option Ptr
write? f none v = f
write? f (some r) v = write f r v

pub write-same {ℓ} : {A : Type ℓ} (f : ℕ → A) (p : ℕ) (v : A) → write f p v p ≡ v
unfolding write
write-same f p v = ground arith

pub write-other {ℓ} : {A : Type ℓ} (f : ℕ → A) (p q : ℕ) (v : A) → p ≢ q → write f p v q ≡ f q
unfolding write
write-other f p q v other = ground arith

pub last_or-occurs : (xs : List Ptr) (r : Ptr) → last_or none xs ≡ some r → 0 < occurrences r xs
last_or-occurs [] r e = absurd (cc)
last_or-occurs (x ∷ []) r e = ground (arith, some_inj e)
last_or-occurs (x ∷ (y ∷ xs)) r e = omega (arith, last_or-occurs (y ∷ xs) r e)

pub first_or-occurs : (xs : List Ptr) (r : Ptr) → first_or xs none ≡ some r → 0 < occurrences r xs
first_or-occurs [] r e = absurd (cc)
first_or-occurs (x ∷ xs) r e = ground (arith, some_inj e)

-- A write to the last node of one list leaves the nodes of another.
pub write?-last :
    (f : Ptr → Option Ptr) (xs : List Ptr) (v : Option Ptr) (p : Ptr)
    → occurrences p xs ≡ 0
    → write? f (last_or none xs) v p ≡ f p
write?-last f xs v p out = elim (Option-cases (last_or none xs)) [
  | inl e ↦ rw e refl
  | inr (r, e) ↦ rw e (
      write-other f r p v (λ same.
        absurd (omega (arith, last_or-occurs xs r e, ap (λ t. occurrences t xs) same, out))))
]

pub write?-first :
    (f : Ptr → Option Ptr) (xs : List Ptr) (v : Option Ptr) (p : Ptr)
    → occurrences p xs ≡ 0
    → write? f (first_or xs none) v p ≡ f p
write?-first f [] v p out = refl
write?-first f (x ∷ xs) v p out = write-other f x p v (λ same. ground arith)

pub last_or-some : (q : Ptr) (xs : List Ptr) → (t : Ptr) × (last_or (some q) xs ≡ some t)
last_or-some q [] = (q, refl)
last_or-some q (x ∷ xs) = last_or-some x xs
