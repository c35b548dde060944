-- ===== src/MQueue/Order.antt =====
-- Where `enqueue_message` of src/mqueue/mqueue.c puts a message, and which one `dequeue_message`
-- takes.
use backend_in_c.Prelude.{
  ℕ, zero, suc, ◌+◌, ◌≤◌, ◌≡◌, refl, ap, [], ◌∷◌, ◌++◌, Option, none, some, inl, inr, Bool-cases,
  arith, length, or_else, if◌then◌else◌, sym, ◌∙◌, subst, length-append, append-nil,
}
use backend_in_c.Common.Words.{ℤ, leb_ℤ}
use backend_in_c.MQueue.{
  Ordering, ordering_none, ordering_fifo, ordering_priority, Message, Ptr, Node, Heap, Broker,
  find_place, place, link, enqueue_message, next_of, dequeue_message,
}
use backend_in_c.MQueue.Links.{
  Chain, head_of, last_of, Links, Absent, Distinct, or_else-none, Links-spliced, Distinct-insert,
  last_of-some,
}

-- The messages that are at least as urgent, as far as they come first, and what comes behind them.
abbrev pub front : ℤ → Chain → Chain
front priority [] = []
front priority ((p, m) ∷ xs) = if leb_ℤ priority m.priority then (p, m) ∷ front priority xs else []

abbrev pub back : ℤ → Chain → Chain
back priority [] = []
back priority ((p, m) ∷ xs) = if leb_ℤ priority m.priority then back priority xs else (p, m) ∷ xs

front-back : (priority : ℤ) (xs : Chain) → front priority xs ++ back priority xs ≡ xs
front-back priority [] = refl
front-back priority ((p, m) ∷ xs) = ground (arith, front-back priority xs)

-- The part of a chain before the place of a message of the priority, and the part behind it.
abbrev pub parts_of : Ordering → ℤ → Chain → Chain × Chain
parts_of ordering_none priority c = (c, [])
parts_of ordering_fifo priority c = (c, [])
parts_of ordering_priority priority c = (front priority c, back priority c)

pub parts_of-join :
    (o : Ordering) (priority : ℤ) (c : Chain)
    → (parts_of o priority c).0 ++ (parts_of o priority c).1 ≡ c
parts_of-join ordering_none priority c = append-nil c
parts_of-join ordering_fifo priority c = append-nil c
parts_of-join ordering_priority priority c = front-back priority c

-- The chain with a message in its place.
abbrev pub inserted : Ordering → Ptr → Message → Chain → Chain
inserted o p m c = (parts_of o m.priority c).0 ++ (p, m) ∷ (parts_of o m.priority c).1

last_of-cons :
    (c : Ptr) (m : Message) (xs : Chain) (prev : Option Ptr)
    → or_else (last_of xs) (some c) ≡ or_else (last_of ((c, m) ∷ xs)) prev
last_of-cons c m [] prev = refl
last_of-cons c m (x ∷ []) prev = refl
last_of-cons c m (x ∷ (y ∷ xs)) prev = last_of-cons c m (y ∷ xs) prev

find_place-front :
    (fuel : ℕ) (h : Heap) (priority : ℤ) (prev : Option Ptr) (xs : Chain)
    → length xs ≤ fuel
    → Links h xs none
    → find_place fuel h priority prev (head_of xs)
      ≡ (or_else (last_of (front priority xs)) prev, head_of (back priority xs))
unfolding find_place
find_place-front zero h priority prev [] enough l = refl
find_place-front zero h priority prev (x ∷ xs) enough l = absurd (omega arith)
find_place-front (suc fuel) h priority prev [] enough l = refl
find_place-front (suc fuel) h priority prev ((c, m) ∷ xs) enough l =
    let ih = find_place-front fuel h priority (some c) xs (omega arith) l.1 in
    elim (Bool-cases (leb_ℤ priority m.priority)) [
      | inl urgent ↦
          rw (l.0, find_place, or_else-none (head_of xs), urgent)
            (ih
              ∙ ap (λ (o : Option Ptr). (o, head_of (back priority xs)))
                  (last_of-cons c m (front priority xs) prev))
      | inr later ↦ rw (l.0, find_place, later) refl
    ]

-- The queue's fields describe the chain of its nodes, which are in the heap.
pub record IsQueue (b : Broker) (c : Chain) : Type 0 where
  pub links : Links b.heap c none
  pub head : b.head ≡ head_of c
  pub tail : b.tail ≡ last_of c
  pub size : b.size ≡ length c
  pub distinct : Distinct c

place-parts_of :
    (b : Broker) (priority : ℤ) (c : Chain)
    → IsQueue b c
    → place b priority
      ≡ (last_of (parts_of b.ordering priority c).0, head_of (parts_of b.ordering priority c).1)
unfolding place
place-parts_of b priority c q = go b.ordering refl
  where
    go :
        (o : Ordering)
        → b.ordering ≡ o
        → place b priority ≡ (last_of (parts_of o priority c).0, head_of (parts_of o priority c).1)
    go ordering_none e = rw (e, place) (rw q.tail refl)
    go ordering_fifo e = rw (e, place) (rw q.tail refl)
    go ordering_priority e =
        rw (e, place)
          (rw q.head (
            find_place-front (b.size + 1) b.heap priority none c (omega (arith, q.size)) q.links
            ∙ ap (λ (o : Option Ptr). (o, head_of (back priority c))) (or_else-none _)))

last_of-append : (xs ys : Chain) (y : Ptr × Message) → last_of (xs ++ y ∷ ys) ≡ last_of (y ∷ ys)
last_of-append [] ys y = refl
last_of-append (x ∷ []) ys y = refl
last_of-append (x ∷ (z ∷ xs)) ys y = last_of-append (z ∷ xs) ys y

-- The head and the tail after a node is linked in between two parts.
head_of-link :
    (p : Ptr) (m : Message) (xs ys : Chain) (head : Option Ptr)
    → head ≡ head_of (xs ++ ys)
    → (elim (last_of xs) [ some _ ↦ head | none ↦ some p ]) ≡ head_of (xs ++ (p, m) ∷ ys)
head_of-link p m [] ys head e = refl
head_of-link p m (x ∷ xs) ys head e = let (r, last) = last_of-some x xs in rw last e

last_of-link :
    (p : Ptr) (m : Message) (xs ys : Chain) (tail : Option Ptr)
    → tail ≡ last_of (xs ++ ys)
    → (elim (head_of ys) [ some _ ↦ tail | none ↦ some p ]) ≡ last_of (xs ++ (p, m) ∷ ys)
last_of-link p m xs [] tail e = sym (last_of-append xs [] (p, m))
last_of-link p m xs (y ∷ ys) tail e =
    e ∙ last_of-append xs ys y ∙ sym (last_of-append xs (y ∷ ys) (p, m))

link-IsQueue :
    (b : Broker) (p : Ptr) (n : Node) (xs ys : Chain)
    → b.heap p ≡ some n
    → Absent p (xs ++ ys)
    → IsQueue b (xs ++ ys)
    → IsQueue (link (last_of xs, head_of ys) p b) (xs ++ (p, n.message) ∷ ys)
unfolding link
link-IsQueue b p n xs ys here absent q = record {
  links = Links-spliced b.heap p n xs ys here absent q.distinct q.links;
  head = head_of-link p n.message xs ys b.head q.head;
  tail = last_of-link p n.message xs ys b.tail q.tail;
  size = let e = length-append xs ys in rw length-append (omega (arith, q.size, e));
  distinct = Distinct-insert p n.message xs ys absent q.distinct;
}

-- A node in the heap that is not in the queue is put in its place: last in a queue that is not by
-- priority, and behind the messages at the front that are at least as urgent in one that is.
pub enqueue-IsQueue :
    (b : Broker) (p : Ptr) (n : Node) (c : Chain)
    → b.heap p ≡ some n
    → Absent p c
    → IsQueue b c
    → IsQueue (enqueue_message p n.message.priority b) (inserted b.ordering p n.message c)
unfolding enqueue_message
enqueue-IsQueue b p n c here absent q =
    let parts = parts_of b.ordering n.message.priority c in
    let join = parts_of-join b.ordering n.message.priority c in
    subst (λ pl. IsQueue (link pl p b) (parts.0 ++ (p, n.message) ∷ parts.1))
      (sym (place-parts_of b n.message.priority c q))
      (link-IsQueue b p n parts.0 parts.1 here (subst (Absent p) (sym join) absent)
        (subst (IsQueue b) (sym join) q))

-- What a dequeue does to a queue with a chain: of a chain with a node it takes the first, and leaves
-- the rest and the heap; an empty queue it leaves as it is.
abbrev pub Dequeues : Broker → Chain → Option Ptr × Broker → Type 0
Dequeues b [] r = r ≡ (none, b)
Dequeues b ((p, m) ∷ c) r =
    (r.0 ≡ some p)
    × IsQueue r.1 c
    × (r.1.heap ≡ b.heap)
    × (b.heap p ≡ some (record { message = m; next = head_of c }))

tail-rest :
    (p : Ptr) (m : Message) (c : Chain) (tail : Option Ptr)
    → tail ≡ last_of ((p, m) ∷ c)
    → (elim (head_of c) [ none ↦ none | some _ ↦ tail ]) ≡ last_of c
tail-rest p m [] tail e = refl
tail-rest p m (x ∷ c) tail e = e

next_of-Links :
    (h : Heap) (p : Ptr) (m : Message) (c : Chain)
    → Links h ((p, m) ∷ c) none
    → next_of h p ≡ head_of c
unfolding next_of
next_of-Links h p m c l = rw (l.0, next_of) (or_else-none (head_of c))

dequeue-empty : (b : Broker) → b.head ≡ none → dequeue_message b ≡ (none, b)
unfolding dequeue_message
dequeue-empty b e = ground arith

-- A dequeue takes the first message of a queue, and its size with it, and leaves the others in order;
-- of an empty queue it takes nothing.
pub dequeue-Dequeues : (b : Broker) (c : Chain) → IsQueue b c → Dequeues b c (dequeue_message b)
unfolding dequeue_message
dequeue-Dequeues b [] q = dequeue-empty b q.head
dequeue-Dequeues b ((p, m) ∷ c) q =
    rw (q.head, dequeue_message, next_of-Links b.heap p m c q.links)
      (
        refl,
        record {
          links = q.links.1;
          head = refl;
          tail = tail-rest p m c b.tail q.tail;
          size = omega (arith, q.size);
          distinct = q.distinct.1;
        },
        refl,
        q.links.0
            ∙ ap (λ (o : Option Ptr). some (record { message = m; next = o }))
                (or_else-none (head_of c)),
      )
