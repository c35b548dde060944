-- ===== src/MQueue/Serving.antt =====
-- One consumer of src/mqueue/mqueue.c that is alone with a queue: its thread's turns, one after the
-- other, as long as there are messages.
use backend_in_c.Prelude.{
  ◌==◌, ◌%◌, ℕ, zero, suc, ◌+◌, ◌≤◌, ◌<◌, ◌≡◌, refl, ap, List, [], ◌∷◌, Option, none, some, true,
  false, arith, length, if◌then◌else◌, ◌∙◌, CString, str_eq, str_eq_refl, inl, inr, Option-cases,
  if_true,
}
use backend_in_c.Common.Words.{u64}
use backend_in_c.MQueue.{Message, Ptr, Node, Heap, Broker, write, dequeue_message, finish}
use backend_in_c.MQueue.Links.{Chain, head_of, Links-write}
use backend_in_c.MQueue.Order.{IsQueue, dequeue-Dequeues}
use backend_in_c.MQueue.Counting.{occurrences}
use backend_in_c.MQueue.Consumers.{Turn, waits, takes_out, turn}

abbrev with_handled : Option Message → List Message × Broker → List Message × Broker
with_handled none rest = rest
with_handled (some m) rest = (m ∷ rest.0, rest.1)

-- The turns of an active consumer of a topic, until one finds the queue empty: the messages that it
-- hands to its handler, and the queue then. `fuel` bounds the turns.
unfoldable pub serve : ℕ → CString → Broker → List Message × Broker
serve zero topic b = ([], b)
serve (suc fuel) topic b =
    let taken = turn true b in
    elim taken.0 [
      | takes_out (some p) ↦
          let done = finish topic p taken.1 in with_handled done.0 (serve fuel topic done.1)
      | _ ↦ ([], b)
    ]

abbrev pub messages_of : Chain → List Message
messages_of [] = []
messages_of ((p, m) ∷ c) = m ∷ messages_of c

-- All messages have the topic.
abbrev pub Concerns : CString → List Message → Type 0
Concerns topic [] = Unit {0}
Concerns topic (m ∷ ms) = (m.topic ≡ topic) × Concerns topic ms

-- What serving a queue with a chain of nodes comes to: every message is handled, in order, and
-- counted, its node is freed and no other changed, and the queue is empty.
pub record Serves (b : Broker) (c : Chain) (r : List Message × Broker) : Type 0 where
  pub handled : r.0 ≡ messages_of c
  pub empty : IsQueue r.1 []
  pub consumed : r.1.total_consumed ≡ b.total_consumed + length c
  pub heap : (q : Ptr) → r.1.heap q ≡ (if occurrences q c == 0 then b.heap q else none)

turn-takes :
    (b : Broker) (p : Ptr) (m : Message) (c : Chain)
    → IsQueue b ((p, m) ∷ c)
    → turn true b ≡ (takes_out (some p), (dequeue_message b).1)
unfolding turn
turn-takes b p m c q =
    let d = dequeue-Dequeues b ((p, m) ∷ c) q in
    let nonzero : (b.size == 0) ≡ false = ground (arith, q.size) in
    rw nonzero (ap (λ (o : Option Ptr). (takes_out o, (dequeue_message b).1)) d.0)

-- The broker after a message has been handled.
abbrev handled_of : Ptr → Broker → Broker
handled_of p b = record b {
  heap = write b.heap p none;
  queue = record b.queue { total_consumed = (b.total_consumed + 1) % u64 };
}

finish-handles :
    (topic : CString) (p : Ptr) (n : Node) (b : Broker)
    → b.heap p ≡ some n
    → n.message.topic ≡ topic
    → finish topic p b ≡ (some n.message, handled_of p b)
unfolding finish
finish-handles topic p n b here same =
    let yes : str_eq n.message.topic topic ≡ true = rw same (str_eq_refl topic) in
    rw (here, finish) (rw yes refl)

dequeue_message-consumed : (b : Broker) → (dequeue_message b).1.total_consumed ≡ b.total_consumed
unfolding dequeue_message
dequeue_message-consumed b = elim (Option-cases b.head) [
  | inl e ↦ rw (e, dequeue_message) refl
  | inr (p, e) ↦ rw (e, dequeue_message) refl
]

-- What is left after the first message has been taken out and handled.
handled_of-IsQueue :
    (p : Ptr) (m : Message) (b b' : Broker) (c : Chain)
    → IsQueue b ((p, m) ∷ c)
    → IsQueue b' c
    → IsQueue (handled_of p b') c
handled_of-IsQueue p m b b' c q q' = record {
  links = Links-write b'.heap p none c none q.distinct.0 q'.links;
  head = q'.head;
  tail = q'.tail;
  size = q'.size;
  distinct = q'.distinct;
}

serve-step :
    (fuel : ℕ) (topic : CString) (b : Broker) (p : Ptr) (m : Message) (c : Chain)
    → IsQueue b ((p, m) ∷ c)
    → m.topic ≡ topic
    → serve (suc fuel) topic b
      ≡ (let rest = serve fuel topic (handled_of p (dequeue_message b).1) in (m ∷ rest.0, rest.1))
unfolding serve
serve-step fuel topic b p m c q same =
    let d = dequeue-Dequeues b ((p, m) ∷ c) q in
    let n : Node = record { message = m; next = head_of c } in
    let there = ap (λ (h : Heap). h p) d.2 ∙ d.3 in
    let f = finish-handles topic p n (dequeue_message b).1 there same in
    let t = turn-takes b p m c q in
    let done = ap (λ (x : Turn × Broker). finish topic p x.1) t ∙ f in
    rw (ap (λ (x : Turn × Broker). x.0) t, serve)
      (ap (λ (x : Option Message × Broker). with_handled x.0 (serve fuel topic x.1)) done)

turn-waits : (b : Broker) → IsQueue b [] → turn true b ≡ (waits, b)
unfolding turn
turn-waits b q =
    let zero_size : (b.size == 0) ≡ true = ground (arith, q.size) in if_true _ _ zero_size

serve-none : (fuel : ℕ) (topic : CString) (b : Broker) → IsQueue b [] → serve fuel topic b ≡ ([], b)
unfolding serve
serve-none zero topic b q = refl
serve-none (suc fuel) topic b q = rw (ap (λ (x : Turn × Broker). x.0) (turn-waits b q), serve) refl

heap-handled :
    (p q : Ptr) (m : Message) (h h' : Heap) (c : Chain)
    → h' ≡ h
    → (if occurrences q c == 0 then write h' p none q else none)
      ≡ (if occurrences q ((p, m) ∷ c) == 0 then h q else none)
unfolding write occurrences
heap-handled p q m h h' c e = rw e (ground arith)

-- A consumer alone with a queue whose messages all have its topic hands every one of them to its
-- handler, in the order of the queue, within as many turns as there are messages; it counts and
-- frees each of them, changes no other node, and leaves the queue empty. (As long as the count does
-- not overflow.)
pub serve-Serves :
    (fuel : ℕ) (topic : CString) (b : Broker) (c : Chain)
    → IsQueue b c
    → Concerns topic (messages_of c)
    → length c ≤ fuel
    → b.total_consumed + length c < u64
    → Serves b c (serve fuel topic b)
unfolding occurrences
serve-Serves fuel topic b [] q concerns enough small =
    rw (serve-none fuel topic b q)
      (record { handled = refl; empty = q; consumed = omega arith; heap = λ r. refl })
serve-Serves zero topic b ((p, m) ∷ c) q concerns enough small = absurd (omega arith)
serve-Serves (suc fuel) topic b ((p, m) ∷ c) q concerns enough small =
    let d = dequeue-Dequeues b ((p, m) ∷ c) q in
    let b' = handled_of p (dequeue_message b).1 in
    let count : b'.total_consumed ≡ b.total_consumed + 1 =
      rw (dequeue_message-consumed b) (omega arith) in
    let ih =
      serve-Serves fuel topic b' c (handled_of-IsQueue p m b (dequeue_message b).1 c q d.1)
        concerns.1 (omega arith) (omega (arith, count)) in
    rw (serve-step fuel topic b p m c q concerns.0) (record {
      handled = ap (λ (ms : List Message). m ∷ ms) ih.handled;
      empty = ih.empty;
      consumed = omega (arith, count, ih.consumed);
      heap = λ r. ih.heap r ∙ heap-handled p r m b.heap (dequeue_message b).1.heap c d.2;
    })
