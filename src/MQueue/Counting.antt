-- ===== src/MQueue/Counting.antt =====
-- The addresses that come up in a chain of src/mqueue/mqueue.c, and the nodes at them.
use backend_in_c.Prelude.{
  ◌==◌, ℕ, ◌+◌, ◌<◌, ◌≡◌, refl, ap, [], ◌∷◌, ◌++◌, Option, none, some, inl, inr, Bool-cases, arith,
  length, if◌then◌else◌, ◌∙◌, length-append,
}
use backend_in_c.MQueue.{Ordering, Message, Ptr, Heap}
use backend_in_c.MQueue.Links.{Chain, Links, Absent}
use backend_in_c.MQueue.Order.{inserted, parts_of, parts_of-join}
use backend_in_c.MQueue.Delivery.{message_at}

-- How often an address comes up.
unfoldable pub occurrences : Ptr → Chain → ℕ
occurrences p [] = 0
occurrences p ((r, m) ∷ c) = (if r == p then 1 else 0) + occurrences p c

pub occurrences-append :
    (p : Ptr) (c d : Chain) → occurrences p (c ++ d) ≡ occurrences p c + occurrences p d
unfolding occurrences
occurrences-append p [] d = omega arith
occurrences-append p (x ∷ c) d = omega (arith, occurrences-append p c d)

pub Absent-occurrences : (p : Ptr) (c : Chain) → occurrences p c ≡ 0 → Absent p c
unfolding occurrences
Absent-occurrences p [] e = tt
Absent-occurrences p ((r, m) ∷ c) e = (ground arith, Absent-occurrences p c (ground arith))

pub occurrences-inserted :
    (q p : Ptr) (o : Ordering) (m : Message) (c : Chain)
    → occurrences q (inserted o p m c) ≡ (if p == q then 1 else 0) + occurrences q c
unfolding occurrences
occurrences-inserted q p o m c =
    let parts = parts_of o m.priority c in
    let whole = ap (occurrences q) (parts_of-join o m.priority c) in
    omega (
      arith,
      occurrences-append q parts.0 ((p, m) ∷ parts.1),
      occurrences-append q parts.0 parts.1,
      whole,
    )

pub length-inserted :
    (o : Ordering) (p : Ptr) (m : Message) (c : Chain) → length (inserted o p m c) ≡ length c + 1
length-inserted o p m c =
    let parts = parts_of o m.priority c in
    omega (
      arith,
      length-append parts.0 ((p, m) ∷ parts.1),
      length-append parts.0 parts.1,
      ap length (parts_of-join o m.priority c),
    )

-- The nodes are in the heap with their messages.
abbrev pub Held : Heap → Chain → Type 0
Held h [] = Unit {0}
Held h ((p, m) ∷ ts) = (message_at h p ≡ some m) × Held h ts

pub Held-change :
    (h h' : Heap) (ts : Chain)
    → ((p : Ptr) → 0 < occurrences p ts → message_at h' p ≡ message_at h p)
    → Held h ts
    → Held h' ts
unfolding occurrences
Held-change h h' [] same held = tt
Held-change h h' ((p, m) ∷ ts) same held =
    (same p (ground arith) ∙ held.0, Held-change h h' ts (λ q there. same q (omega arith)) held.1)

pub occurrences-unallocated :
    (h : Heap) (p : Ptr) (ts : Chain) → message_at h p ≡ none → Held h ts → occurrences p ts ≡ 0
unfolding occurrences
occurrences-unallocated h p [] e held = refl
occurrences-unallocated h p ((r, m) ∷ ts) e held = elim (Bool-cases (r == p)) [
  | inl same ↦ let eq : r ≡ p = ground arith in absurd (cc (e, ap (message_at h) eq, held.0))
  | inr other ↦ rw other (omega (arith, occurrences-unallocated h p ts e held.1))
]

pub Held-append :
    (h : Heap) (xs ys : Chain) (p : Ptr) (m : Message)
    → Held h (xs ++ (p, m) ∷ ys)
    → Held h (xs ++ ys) × (message_at h p ≡ some m)
Held-append h [] ys p m held = (held.1, held.0)
Held-append h (x ∷ xs) ys p m held =
    let rest = Held-append h xs ys p m held.1 in ((held.0, rest.0), rest.1)

pub Links-Held : (h : Heap) (c : Chain) (q : Option Ptr) → Links h c q → Held h c
unfolding message_at
Links-Held h [] q l = tt
Links-Held h ((p, m) ∷ c) q l = (rw l.0 refl, Links-Held h c _ l.1)
