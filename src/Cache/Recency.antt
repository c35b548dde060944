-- ===== src/Cache/Recency.antt =====
-- The doubly linked list of src/cache/cache.c: `remove_from_list`, `add_to_head` and `move_to_head`
-- on the order of the entries.
use backend_in_c.Prelude.{
  ◌≤◌, ◌≡◌, ◌≢◌, refl, sym, ap, ◌∙◌, List, [], ◌∷◌, ◌++◌, Option, none, some, inl, inr,
  Option-cases, arith,
}
use backend_in_c.Cache.{
  Ptr, Cache, write, unlink_before, unlink_behind, remove_from_list, add_to_head,
}
use backend_in_c.Cache.Lists.{
  occurrences, occurrences-append, first_or, last_or, last_or-append, Linked, Linked-append,
  Linked-join, Linked-frame, last_or-some, write?, write-same, write-other, write?-last,
  write?-first, last_or-occurs,
}

abbrev pub Once : List Ptr → Type 0
Once xs = (p : Ptr) → occurrences p xs ≤ 1

-- The list's fields describe the order of its nodes.
pub record IsList (c : Cache) (xs : List Ptr) : Type 0 where
  pub head : c.head ≡ first_or xs none
  pub tail : c.tail ≡ last_or none xs
  pub linked : Linked c.prev c.next none xs none

-- The cache without the entry between `pr` and `nx`.
abbrev pub spliced : Option Ptr → Option Ptr → Cache → Cache
spliced pr nx c = record c {
  next = write? c.next pr nx;
  prev = write? c.prev nx pr;
  head = elim pr [ none ↦ nx | some _ ↦ c.head ];
  tail = elim nx [ none ↦ pr | some _ ↦ c.tail ];
}

remove_from_list-spliced :
    (p : Ptr) (pr nx : Option Ptr) (c : Cache)
    → c.prev p ≡ pr
    → c.next p ≡ nx
    → pr ≢ some p
    → remove_from_list p c ≡ spliced pr nx c
unfolding remove_from_list
remove_from_list-spliced p none none c e f other =
    rw (e, unlink_before, f, unlink_behind) (ground arith)
remove_from_list-spliced p none (some n) c e f other =
    rw (e, unlink_before, f, unlink_behind) (ground arith)
remove_from_list-spliced p (some r) none c e f other =
    let kept = write-other c.next r p (c.next p) (λ s. other (ap (λ (t : Ptr). some t) s)) in
    rw (e, unlink_before, kept, f, unlink_behind) (ground arith)
remove_from_list-spliced p (some r) (some n) c e f other =
    let kept = write-other c.next r p (c.next p) (λ s. other (ap (λ (t : Ptr). some t) s)) in
    rw (e, unlink_before, kept, f, unlink_behind) (ground arith)

-- The last node of a list is given what comes behind.
Linked-after :
    (prev next : Ptr → Option Ptr) (b : Option Ptr) (xs : List Ptr) (a a' : Option Ptr)
    → Once xs
    → Linked prev next b xs a
    → Linked prev (write? next (last_or none xs) a') b xs a'
Linked-after prev next b [] a a' once l = tt
Linked-after prev next b (p ∷ []) a a' once l = ((l.0.0, write-same next p a'), tt)
Linked-after prev next b (p ∷ (q ∷ xs)) a a' once l = (
  (l.0.0, write?-last next (q ∷ xs) a' p (ground (arith, once p)) ∙ l.0.1),
  Linked-after prev next (some p) (q ∷ xs) a a' (λ r. omega (arith, once r)) l.1,
)

-- The first node of a list is given what comes before.
Linked-before :
    (prev next : Ptr → Option Ptr) (b b' : Option Ptr) (ys : List Ptr) (a : Option Ptr)
    → Once ys
    → Linked prev next b ys a
    → Linked (write? prev (first_or ys none) b') next b' ys a
Linked-before prev next b b' [] a once l = tt
Linked-before prev next b b' (q ∷ ys) a once l = (
  (write-same prev q b', l.0.1),
  Linked-frame prev next (write prev q b') next (some q) ys a
      (λ p there. (write-other prev q p b' (λ e. ground (arith, once p)), refl)) l.1,
)

-- Without the node between them, the two parts of a list are linked to each other.
Linked-spliced :
    (prev next : Ptr → Option Ptr) (p : Ptr) (xs ys : List Ptr)
    → Once (xs ++ p ∷ ys)
    → Linked prev next none (xs ++ p ∷ ys) none
    → Linked
        (write? prev (first_or ys none) (last_or none xs))
        (write? next (last_or none xs) (first_or ys none))
        none
        (xs ++ ys)
        none
Linked-spliced prev next p xs ys once l =
    let parts = Linked-append prev next none xs (p ∷ ys) none l in
    let v = first_or ys none in
    let w = last_or none xs in
    let next' = write? next w v in
    let both = λ (q : Ptr). occurrences-append q xs (p ∷ ys) in
    Linked-join (write? prev v w) next' none xs ys none
      (Linked-frame prev next' (write? prev v w) next' none xs v
        (λ q there. (write?-first prev ys w q (omega (arith, once q, both q)), refl))
        (Linked-after prev next none xs (some p) v (λ q. omega (arith, once q, both q)) parts.0))
      (Linked-before prev next' (some p) w ys none (λ q. omega (arith, once q, both q))
        (Linked-frame prev next prev next' (some p) ys none
          (λ q there. (refl, write?-last next xs v q (omega (arith, once q, both q)))) parts.1.1))

last_or-cons :
    (b : Option Ptr) (x : Ptr) (xs : List Ptr) → last_or b (x ∷ xs) ≡ last_or none (x ∷ xs)
last_or-cons b x xs = refl

-- The ends after the node is gone.
spliced-head :
    (p : Ptr) (xs ys : List Ptr) (head : Option Ptr)
    → head ≡ first_or (xs ++ p ∷ ys) none
    → (elim (last_or none xs) [ none ↦ first_or ys none | some _ ↦ head ])
      ≡ first_or (xs ++ ys) none
spliced-head p [] ys head e = refl
spliced-head p (x ∷ xs) ys head e = elim (Option-cases (last_or none (x ∷ xs))) [
  | inl none_last ↦ absurd (nonempty x xs none_last)
  | inr (r, last) ↦ rw last e
]
  where
    nonempty : (x : Ptr) (xs : List Ptr) → last_or none (x ∷ xs) ≢ none
    nonempty x [] = λ h. cc
    nonempty x (y ∷ xs) = nonempty y xs

spliced-tail :
    (p : Ptr) (xs ys : List Ptr) (tail : Option Ptr)
    → tail ≡ last_or none (xs ++ p ∷ ys)
    → (elim (first_or ys none) [ none ↦ last_or none xs | some _ ↦ tail ]) ≡ last_or none (xs ++ ys)
spliced-tail p xs [] tail e = sym (last_or-append none xs [])
spliced-tail p xs (y ∷ ys) tail e =
    e ∙ last_or-append none xs (p ∷ (y ∷ ys)) ∙ sym (last_or-append none xs (y ∷ ys))

-- What `remove_from_list` of an entry that is once in the list does.
pub remove_from_list_lem :
    (c : Cache) (p : Ptr) (xs ys : List Ptr)
    → Once (xs ++ p ∷ ys)
    → IsList c (xs ++ p ∷ ys)
    → remove_from_list p c ≡ spliced (last_or none xs) (first_or ys none) c
remove_from_list_lem c p xs ys once l =
    let at = (Linked-append c.prev c.next none xs (p ∷ ys) none l.linked).1.0 in
    remove_from_list-spliced p (last_or none xs) (first_or ys none) c at.0 at.1
      (λ e. omega (arith, once p, occurrences-append p xs (p ∷ ys), last_or-occurs xs p e, here p))
  where
    here : (p : Ptr) → occurrences p (p ∷ []) ≡ 1
    here p = ground arith

pub spliced-IsList :
    (c : Cache) (p : Ptr) (xs ys : List Ptr)
    → Once (xs ++ p ∷ ys)
    → IsList c (xs ++ p ∷ ys)
    → IsList (spliced (last_or none xs) (first_or ys none) c) (xs ++ ys)
spliced-IsList c p xs ys once l = record {
  head = spliced-head p xs ys c.head l.head;
  tail = spliced-tail p xs ys c.tail l.tail;
  linked = Linked-spliced c.prev c.next p xs ys once l.linked;
}

-- The cache with `p` put before the first entry.
abbrev added : Ptr → Option Ptr → Option Ptr → Cache → Cache
added p head tail c = record c {
  prev = write? (write c.prev p none) head (some p);
  next = write c.next p head;
  head = some p;
  tail = elim tail [ some t ↦ some t | none ↦ some p ];
}

add_to_head-added :
    (p : Ptr) (head tail : Option Ptr) (c : Cache)
    → c.head ≡ head
    → c.tail ≡ tail
    → add_to_head p c ≡ added p head tail c
unfolding add_to_head
add_to_head-added p none none c e f = rw (e, f) (ground arith)
add_to_head-added p none (some t) c e f = rw (e, f) (ground arith)
add_to_head-added p (some h) none c e f = rw (e, f) (ground arith)
add_to_head-added p (some h) (some t) c e f = rw (e, f) (ground arith)

added-tail :
    (p : Ptr) (xs : List Ptr)
    → (elim (last_or none xs) [ some t ↦ some t | none ↦ some p ]) ≡ last_or (some p) xs
added-tail p [] = refl
added-tail p (x ∷ xs) = let (t, e) = last_or-some x xs in rw e refl

Linked-added :
    (prev next : Ptr → Option Ptr) (p : Ptr) (xs : List Ptr)
    → occurrences p xs ≡ 0
    → Once xs
    → Linked prev next none xs none
    → Linked
        (write? (write prev p none) (first_or xs none) (some p))
        (write next p (first_or xs none))
        none
        (p ∷ xs)
        none
Linked-added prev next p xs out once l =
    let next' = write next p (first_or xs none) in
    let prev' = write prev p none in
    (
      (
        write?-first prev' xs (some p) p out ∙ write-same prev p none,
        write-same next p (first_or xs none) ∙ refl,
      ),
      Linked-before prev' next' none (some p) xs none once (
          Linked-frame prev next prev' next' none xs none
            (λ q there. (
              write-other prev p q none (λ e. absurd (omega (arith, ap (λ t. occurrences t xs) e))),
              write-other next p q (first_or xs none)
                  (λ e. absurd (omega (arith, ap (λ t. occurrences t xs) e))),
            ))
            l),
    )

pub add_to_head-IsList :
    (c : Cache) (p : Ptr) (xs : List Ptr)
    → occurrences p xs ≡ 0
    → Once xs
    → IsList c xs
    → IsList (add_to_head p c) (p ∷ xs)
add_to_head-IsList c p xs out once l =
    rw (add_to_head-added p (first_or xs none) (last_or none xs) c l.head l.tail) (record {
      head = refl;
      tail = added-tail p xs;
      linked = Linked-added c.prev c.next p xs out once l.linked;
    })
