-- ===== src/MQueue/Links.antt =====
-- The linked list of a queue of src/mqueue/mqueue.c as a chain: the addresses of its nodes, each with
-- the message it holds.
use backend_in_c.Prelude.{
  ◌≡◌, ◌≢◌, refl, ap, List, [], ◌∷◌, ◌++◌, Option, none, some, arith, sym, subst, ◌∙◌, or_else,
  some_inj,
}
use backend_in_c.MQueue.{Message, Ptr, Node, Heap, write, set_next}

abbrev pub Chain : Type 0
Chain = List (Ptr × Message)

abbrev pub head_of : Chain → Option Ptr
head_of [] = none
head_of ((p, m) ∷ xs) = some p

abbrev pub last_of : Chain → Option Ptr
last_of [] = none
last_of ((p, m) ∷ []) = some p
last_of ((p, m) ∷ (x ∷ xs)) = last_of (x ∷ xs)

-- The nodes stand in the heap, each with the next one's address, the last with `q`.
abbrev pub Links : Heap → Chain → Option Ptr → Type 0
Links h [] q = Unit {0}
Links h ((p, m) ∷ xs) q =
    (h p ≡ some (record { message = m; next = or_else (head_of xs) q })) × Links h xs q

abbrev pub Absent : Ptr → Chain → Type 0
Absent p [] = Unit {0}
Absent p ((r, m) ∷ xs) = (r ≢ p) × Absent p xs

abbrev pub Distinct : Chain → Type 0
Distinct [] = Unit {0}
Distinct ((p, m) ∷ xs) = Absent p xs × Distinct xs

pub write-same : (h : Heap) (p : Ptr) (n : Option Node) → write h p n p ≡ n
unfolding write
write-same h p n = ground arith

pub write-other : (h : Heap) (p q : Ptr) (n : Option Node) → p ≢ q → write h p n q ≡ h q
unfolding write
write-other h p q n other = ground arith

pub Links-write :
    (h : Heap) (p : Ptr) (n : Option Node) (xs : Chain) (q : Option Ptr)
    → Absent p xs
    → Links h xs q
    → Links (write h p n) xs q
Links-write h p n [] q absent l = tt
Links-write h p n ((r, m) ∷ xs) q absent l =
    (rw (write-other h p r n (λ e. absent.0 (sym e))) l.0, Links-write h p n xs q absent.1 l.1)

pub set_next_lem :
    (h : Heap) (p : Ptr) (q : Option Ptr) {n : Node}
    → h p ≡ some n
    → set_next h p q ≡ write h p (some (record n { next = q }))
unfolding set_next
set_next_lem h p q {n} e = rw (e, set_next) refl

Absent-append-left : (p : Ptr) (xs ys : Chain) → Absent p (xs ++ ys) → Absent p xs
Absent-append-left p [] ys h = tt
Absent-append-left p ((r, m) ∷ xs) ys h = (h.0, Absent-append-left p xs ys h.1)

Absent-append-right : (p : Ptr) (xs ys : Chain) → Absent p (xs ++ ys) → Absent p ys
Absent-append-right p [] ys h = h
Absent-append-right p ((r, m) ∷ xs) ys h = Absent-append-right p xs ys h.1

pub Absent-insert :
    (r p : Ptr) (m : Message) (xs ys : Chain)
    → p ≢ r
    → Absent r (xs ++ ys)
    → Absent r (xs ++ (p, m) ∷ ys)
Absent-insert r p m [] ys other h = (other, h)
Absent-insert r p m (x ∷ xs) ys other h = (h.0, Absent-insert r p m xs ys other h.1)

pub Distinct-insert :
    (p : Ptr) (m : Message) (xs ys : Chain)
    → Absent p (xs ++ ys)
    → Distinct (xs ++ ys)
    → Distinct (xs ++ (p, m) ∷ ys)
Distinct-insert p m [] ys absent d = (absent, d)
Distinct-insert p m ((r, n) ∷ xs) ys absent d =
    (Absent-insert r p m xs ys (λ e. absent.0 (sym e)) d.0, Distinct-insert p m xs ys absent.1 d.1)

-- The last node of a chain is none of those that are absent from it.
pub last_of-other : (p r : Ptr) (xs : Chain) → Absent p xs → last_of xs ≡ some r → r ≢ p
last_of-other p r [] absent e = absurd (cc)
last_of-other p r ((s, m) ∷ []) absent e = λ same. absent.0 (some_inj e ∙ same)
last_of-other p r ((s, m) ∷ (x ∷ xs)) absent e = last_of-other p r (x ∷ xs) absent.1 e

-- The last node of the front of a chain is not in its back.
last_of-back : (r : Ptr) (xs ys : Chain) → Distinct (xs ++ ys) → last_of xs ≡ some r → Absent r ys
last_of-back r [] ys d e = absurd (cc)
last_of-back r ((s, m) ∷ []) ys d e = subst (λ t. Absent t ys) (some_inj e) d.0
last_of-back r ((s, m) ∷ (x ∷ xs)) ys d e = last_of-back r (x ∷ xs) ys d.1 e

-- Where the last node is given another successor, the chain ends there.
Links-relink :
    (h : Heap) (r : Ptr) (xs : Chain) (q q' : Option Ptr) {n : Node}
    → last_of xs ≡ some r
    → h r ≡ some n
    → Distinct xs
    → Links h xs q
    → Links (write h r (some (record n { next = q' }))) xs q'
Links-relink h r [] q q' last here d l = absurd (cc)
Links-relink h r ((p, m) ∷ []) q q' {n} last here d l =
    let e : p ≡ r = some_inj last in
    rw e (
      write-same h r _
          ∙ ap (λ (x : Message). some (record { message = x; next = q' }))
              (ap (λ (x : Node). x.message) (some_inj (sym here ∙ ap h (sym e) ∙ l.0))),
      tt,
    )
Links-relink h r ((p, m) ∷ (x ∷ xs)) q q' {n} last here d l = (
  rw (write-other h r p _ (last_of-other p r (x ∷ xs) d.0 last)) l.0,
  Links-relink h r (x ∷ xs) q q' {n = n} last here d.1 l.1,
)

pub Links-append :
    (h : Heap) (xs ys : Chain) (q : Option Ptr)
    → Links h (xs ++ ys) q
    → Links h xs (or_else (head_of ys) q) × Links h ys q
Links-append h [] ys q l = (tt, l)
Links-append h ((p, m) ∷ []) ys q l = ((l.0, tt), l.1)
Links-append h ((p, m) ∷ (x ∷ xs)) ys q l =
    let rest = Links-append h (x ∷ xs) ys q l.1 in ((l.0, rest.0), rest.1)

pub Links-join :
    (h : Heap) (xs ys : Chain) (q : Option Ptr)
    → Links h xs (or_else (head_of ys) q)
    → Links h ys q
    → Links h (xs ++ ys) q
Links-join h [] ys q l k = k
Links-join h ((p, m) ∷ []) ys q l k = (l.0, k)
Links-join h ((p, m) ∷ (x ∷ xs)) ys q l k = (l.0, Links-join h (x ∷ xs) ys q l.1 k)

Distinct-append-left : (xs ys : Chain) → Distinct (xs ++ ys) → Distinct xs
Distinct-append-left [] ys d = tt
Distinct-append-left ((p, m) ∷ xs) ys d =
    (Absent-append-left p xs ys d.0, Distinct-append-left xs ys d.1)

pub last-here :
    (h : Heap) (r : Ptr) (xs : Chain) (q : Option Ptr)
    → last_of xs ≡ some r
    → Links h xs q
    → (n : Node) × (h r ≡ some n)
last-here h r [] q e l = absurd (cc)
last-here h r ((p, m) ∷ []) q e l =
    (record { message = m; next = q }, ap h (sym (some_inj e)) ∙ l.0)
last-here h r ((p, m) ∷ (x ∷ xs)) q e l = last-here h r (x ∷ xs) q e l.1

pub or_else-none : (o : Option Ptr) → or_else o none ≡ o
or_else-none none = refl
or_else-none (some p) = refl

-- The predecessor of `p`, if there is one, is given `p`.
abbrev pub relinked : Heap → Option Ptr → Ptr → Heap
relinked h prev p = elim prev [ some r ↦ set_next h r (some p) | none ↦ h ]

-- A node given the head of a chain for its successor stands before the chain.
Links-first :
    (h : Heap) (p : Ptr) (n : Node) (ys : Chain)
    → Absent p ys
    → Links h ys none
    → Links (write h p (some (record n { next = head_of ys }))) ((p, n.message) ∷ ys) none
Links-first h p n ys absent l = (
  write-same h p _
      ∙ ap (λ (q : Option Ptr). some (record { message = n.message; next = q }))
          (sym (or_else-none (head_of ys))),
  Links-write h p _ ys none absent l,
)

-- A chain whose last node is given the next chain's head for its successor.
Links-behind :
    (h : Heap) (p r : Ptr) (m : Message) (xs ys : Chain) (q : Option Ptr)
    → last_of xs ≡ some r
    → Absent p xs
    → Distinct (xs ++ ys)
    → Links h xs q
    → Links h ((p, m) ∷ ys) none
    → Links (set_next h r (some p)) (xs ++ (p, m) ∷ ys) none
Links-behind h p r m xs ys q e absent d front back =
    let (n, here) = last-here h r xs q e front in
    let h' = write h r (some (record n { next = some p })) in
    subst (λ t. Links t (xs ++ (p, m) ∷ ys) none) (sym (set_next_lem h r (some p) {n = n} here))
      (Links-join h' xs ((p, m) ∷ ys) none
        (Links-relink h r xs q (some p) {n = n} e here (Distinct-append-left xs ys d) front)
        (Links-write h r _ ((p, m) ∷ ys) none
          (λ same. last_of-other p r xs absent e (sym same), last_of-back r xs ys d e) back))

pub last_of-some : (x : Ptr × Message) (xs : Chain) → (r : Ptr) × (last_of (x ∷ xs) ≡ some r)
last_of-some x [] = (x.0, refl)
last_of-some x (y ∷ xs) = last_of-some y xs

Links-relinked :
    (h : Heap) (p : Ptr) (m : Message) (xs ys : Chain) (q : Option Ptr)
    → Absent p xs
    → Distinct (xs ++ ys)
    → Links h xs q
    → Links h ((p, m) ∷ ys) none
    → Links (relinked h (last_of xs) p) (xs ++ (p, m) ∷ ys) none
Links-relinked h p m [] ys q absent d front back = back
Links-relinked h p m (x ∷ xs) ys q absent d front back =
    let (r, e) = last_of-some x xs in
    subst (λ prev. Links (relinked h prev p) (x ∷ xs ++ (p, m) ∷ ys) none) (sym e)
      (Links-behind h p r m (x ∷ xs) ys q e absent d front back)

-- A node put behind the front of a chain and before its back makes the chain with the node between.
pub Links-spliced :
    (h : Heap) (p : Ptr) (n : Node) (xs ys : Chain)
    → h p ≡ some n
    → Absent p (xs ++ ys)
    → Distinct (xs ++ ys)
    → Links h (xs ++ ys) none
    → Links (relinked (set_next h p (head_of ys)) (last_of xs) p) (xs ++ (p, n.message) ∷ ys) none
Links-spliced h p n xs ys here absent d l =
    let parts = Links-append h xs ys none l in
    let before = Absent-append-left p xs ys absent in
    subst (λ t. Links (relinked t (last_of xs) p) (xs ++ (p, n.message) ∷ ys) none)
      (sym (set_next_lem h p (head_of ys) {n = n} here))
      (Links-relinked (write h p (some (record n { next = head_of ys }))) p n.message xs ys _ before
        d (Links-write h p _ xs _ before parts.0)
        (Links-first h p n ys (Absent-append-right p xs ys absent) parts.1))
