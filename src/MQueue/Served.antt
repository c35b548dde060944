-- ===== src/MQueue/Served.antt =====
-- What the critical sections of the threads on a queue of src/mqueue/mqueue.c leave of its nodes, with
-- those that consumers have taken out, and of its counts.
use backend_in_c.Prelude.{
  leb, ◌==◌, ◌%◌, ℕ, ◌+◌, ◌≤◌, ◌<◌, ◌≡◌, refl, ap, [], ◌∷◌, ◌++◌, Option, none, some, inl, inr,
  Bool-cases, Option-cases, arith, length, some_inj, if◌then◌else◌, sym, ◌∙◌, subst, length-append,
  CString, str_eq,
}
use backend_in_c.Common.{ErrorCode}
use backend_in_c.Common.Words.{u64}
use backend_in_c.MQueue.{
  Message, Ptr, Node, Broker, write, enqueue_message, dequeue_message, finish,
}
use backend_in_c.MQueue.Links.{Chain, Links-write}
use backend_in_c.MQueue.Order.{IsQueue, inserted, enqueue-IsQueue, dequeue-Dequeues}
use backend_in_c.MQueue.Counting.{
  occurrences, occurrences-append, Absent-occurrences, occurrences-inserted, length-inserted, Held,
  Held-change, occurrences-unallocated, Held-append, Links-Held,
}
use backend_in_c.MQueue.Delivery.{
  message_at, message_at-write, message_at-enqueue, enqueue-fields, IsFresh, Publishes,
}

-- The nodes in the queue and those taken out are all different and in the heap, and every
-- publication that is counted has been consumed, is in the queue, or is taken out.
pub record IsServed (b : Broker) (taken : Chain) : Type 0 where
  pub chain : Chain
  pub queue : IsQueue b chain
  pub fresh : IsFresh b
  pub held : Held b.heap taken
  pub apart : (p : Ptr) → occurrences p chain + occurrences p taken ≤ 1
  pub counted : b.total_published ≡ b.total_consumed + (b.size + length taken)
  pub bounded : b.total_published < u64

pub publish-IsServed :
    (b : Broker) (taken : Chain) (m : Message) {r : ErrorCode × Option Broker}
    → (s : IsServed b taken) → (P : Publishes b s.chain m r) → b.total_published + 1 < u64
    → IsServed P.after taken
publish-IsServed b taken m s P room = record {
  chain = inserted b.ordering b.next_free m s.chain;
  queue = P.queue;
  fresh = P.fresh;
  held = Held-change b.heap P.after.heap taken (λ p there. P.kept p (below p there)) s.held;
  apart = λ p. apart p;
  counted = omega (
    arith,
    P.counted,
    P.consumed,
    P.queue.size,
    s.queue.size,
    s.counted,
    length-inserted b.ordering b.next_free m s.chain,
  );
  bounded = omega (arith, P.counted);
}
  where
    none_at : (p : Ptr) → b.next_free ≤ p → occurrences p s.chain + occurrences p taken ≡ 0
    none_at p above = omega (
      arith,
      occurrences-unallocated b.heap p taken (s.fresh p above) s.held,
      occurrences-unallocated b.heap p s.chain (s.fresh p above)
          (Links-Held b.heap s.chain none s.queue.links),
    )

    below : (p : Ptr) → 0 < occurrences p taken → p < b.next_free
    below p there = elim (Bool-cases (leb b.next_free p)) [
      | inl above ↦ absurd (ground (arith, none_at p))
      | inr under ↦ ground arith
    ]

    apart :
        (p : Ptr)
        → occurrences p (inserted b.ordering b.next_free m s.chain) + occurrences p taken ≤ 1
    apart p =
        ground
          (arith, occurrences-inserted p b.next_free b.ordering m s.chain, s.apart p, none_at p)

dequeue-fields :
    (b : Broker)
    → let b' = (dequeue_message b).1 in
      (b'.next_free ≡ b.next_free)
      × (b'.total_published ≡ b.total_published)
      × (b'.total_consumed ≡ b.total_consumed)
unfolding dequeue_message
dequeue-fields b = ground arith

-- What a consumer has taken out of the queue was the first of its chain.
pub take_first :
    (b : Broker) (c taken : Chain) (p : Ptr) (m : Message)
    → IsServed b taken
    → IsQueue b c
    → ((q : Ptr) → occurrences q c + occurrences q taken ≤ 1)
    → (dequeue_message b).0 ≡ some p
    → message_at b.heap p ≡ some m
    → IsServed (dequeue_message b).1 ((p, m) ∷ taken)
unfolding occurrences
take_first b [] taken p m s q apart e at_p = absurd (cc (e, dequeue-Dequeues b [] q))
take_first b ((r, n) ∷ c) taken p m s q apart e at_p =
    let d = dequeue-Dequeues b ((r, n) ∷ c) q in
    let f = dequeue-fields b in
    let same : r ≡ p = some_inj (sym d.0 ∙ e) in
    record {
      chain = c;
      queue = d.1;
      fresh = λ a above. ap (λ h. message_at h a) d.2 ∙ s.fresh a (omega (arith, f.0));
      held = (ap (λ h. message_at h p) d.2 ∙ at_p, subst (λ h. Held h taken) (sym d.2) s.held);
      apart = λ a. omega (arith, apart a, ap {B = ℕ} (λ t. if t == a then 1 else 0) same);
      counted = omega (arith, f, d.1.size, q.size, s.counted);
      bounded = omega (arith, f, s.bounded);
    }

-- A node that is taken out is not in the queue, and is taken out once.
taken_once :
    {b : Broker} (p : Ptr) (m : Message) (xs ys : Chain)
    → (s : IsServed b (xs ++ (p, m) ∷ ys))
    → (occurrences p s.chain ≡ 0) × (occurrences p (xs ++ ys) ≡ 0)
unfolding occurrences
taken_once {b} p m xs ys s =
    let all = occurrences-append p xs ((p, m) ∷ ys) in
    let rest = occurrences-append p xs ys in
    (ground (arith, s.apart p, all), ground (arith, s.apart p, all, rest))

fewer-apart :
    {b : Broker} (p : Ptr) (m : Message) (xs ys : Chain) (q : Ptr)
    → (s : IsServed b (xs ++ (p, m) ∷ ys))
    → occurrences q s.chain + ((if p == q then 1 else 0) + occurrences q (xs ++ ys)) ≤ 1
unfolding occurrences
fewer-apart {b} p m xs ys q s =
    omega (arith, s.apart q, occurrences-append q xs ((p, m) ∷ ys), occurrences-append q xs ys)

length-taken :
    (p : Ptr) (m : Message) (xs ys : Chain) → length (xs ++ (p, m) ∷ ys) ≡ length (xs ++ ys) + 1
length-taken p m xs ys = omega (arith, length-append xs ((p, m) ∷ ys), length-append xs ys)

abbrev consumed : Ptr → Broker → Broker
consumed p b = record b {
  heap = write b.heap p none;
  queue = record b.queue { total_consumed = (b.total_consumed + 1) % u64 };
}

consumed-IsServed :
    (b : Broker) (p : Ptr) (m : Message) (xs ys : Chain)
    → IsServed b (xs ++ (p, m) ∷ ys)
    → IsServed (consumed p b) (xs ++ ys)
consumed-IsServed b p m xs ys s =
    let once = taken_once p m xs ys s in
    record {
      chain = s.chain;
      queue = record {
        links =
            Links-write b.heap p none s.chain none (Absent-occurrences p s.chain once.0)
              s.queue.links;
        head = s.queue.head;
        tail = s.queue.tail;
        size = s.queue.size;
        distinct = s.queue.distinct;
      };
      fresh = λ r above. message_at-write b.heap p r none ∙ ground (arith, s.fresh r above);
      held =
          Held-change b.heap (write b.heap p none) (xs ++ ys)
            (λ r there. message_at-write b.heap p r none ∙ other r there once.1)
            (Held-append b.heap xs ys p m s.held).0;
      apart = λ q. omega (arith, fewer-apart p m xs ys q s);
      counted = omega (arith, s.counted, s.bounded, length-taken p m xs ys);
      bounded = s.bounded;
    }
  where
    other :
        (r : Ptr)
        → 0 < occurrences r (xs ++ ys)
        → occurrences p (xs ++ ys) ≡ 0
        → (if p == r then none else message_at b.heap r) ≡ message_at b.heap r
    other r there once = elim (Bool-cases (p == r)) [
      | inl same ↦
          let e : p ≡ r = ground arith in
          absurd (omega (arith, ap (λ t. occurrences t (xs ++ ys)) e))
      | inr differ ↦ rw differ refl
    ]

requeued-IsServed :
    (b : Broker) (p : Ptr) (n : Node) (m : Message) (xs ys : Chain)
    → b.heap p ≡ some n
    → IsServed b (xs ++ (p, m) ∷ ys)
    → IsServed (enqueue_message p n.message.priority b) (xs ++ ys)
requeued-IsServed b p n m xs ys found s =
    let once = taken_once p m xs ys s in
    let f = enqueue-fields p n.message.priority b in
    let q = enqueue-IsQueue b p n s.chain found (Absent-occurrences p s.chain once.0) s.queue in
    let kept = message_at-enqueue p n.message.priority b in
    record {
      chain = inserted b.ordering p n.message s.chain;
      queue = q;
      fresh = λ r above. kept r ∙ s.fresh r (omega (arith, f.0));
      held =
          Held-change b.heap (enqueue_message p n.message.priority b).heap (xs ++ ys)
            (λ r there. kept r) (Held-append b.heap xs ys p m s.held).0;
      apart = λ r.
          omega (
            arith,
            fewer-apart p m xs ys r s,
            occurrences-inserted r p b.ordering n.message s.chain,
          );
      counted = omega (
        arith,
        f,
        q.size,
        s.queue.size,
        length-inserted b.ordering p n.message s.chain,
        s.counted,
        length-taken p m xs ys,
      );
      bounded = omega (arith, f, s.bounded);
    }

pub finish-IsServed :
    (topic : CString) (b : Broker) (p : Ptr) (m : Message) (xs ys : Chain)
    → IsServed b (xs ++ (p, m) ∷ ys)
    → IsServed (finish topic p b).1 (xs ++ ys)
unfolding finish message_at
finish-IsServed topic b p m xs ys s = elim (Option-cases (b.heap p)) [
  | inl e ↦ absurd (cc (rw e at (Held-append b.heap xs ys p m s.held).1))
  | inr (n, e) ↦ elim (Bool-cases (str_eq n.message.topic topic)) [
    | inl mine ↦ rw (e, finish, mine) (consumed-IsServed b p m xs ys s)
    | inr other ↦ rw (e, finish, other) (requeued-IsServed b p n m xs ys e s)
  ]
]
