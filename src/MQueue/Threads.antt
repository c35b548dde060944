-- ===== src/MQueue/Threads.antt =====
-- Any number of publishing and consuming threads on one queue of src/mqueue/mqueue.c: their critical
-- sections, in any order, and the nodes that consumers have taken out and not finished with.
use backend_in_c.Prelude.{
  ℕ, ◌+◌, ◌<◌, ◌≡◌, refl, ap, [], ◌∷◌, ◌++◌, Option, none, some, arith, length, some_inj, sym, ◌∙◌,
  subst, CString, Bytes,
}
use backend_in_c.Common.{ErrorCode, success}
use backend_in_c.Common.Words.{ℤ, u64}
use backend_in_c.MQueue.{
  Ordering, Message, Ptr, Broker, dequeue_message, publish_with_priority, finish, create,
}
use backend_in_c.MQueue.Links.{Chain}
use backend_in_c.MQueue.Counting.{occurrences}
use backend_in_c.MQueue.Delivery.{message_at, publish-Publishes}
use backend_in_c.MQueue.Served.{IsServed, publish-IsServed, take_first, finish-IsServed}

-- One critical section: of a publisher; of a consumer that takes a node out; and of a consumer of a
-- topic that finishes with a node that it, or another thread, has out.
pub data Step (b : Broker) (taken : Chain) (b' : Broker) (taken' : Chain) : Type 0 where
  publishes :
      (now now' : ℕ) (topic : CString) (payload : Bytes) (priority : ℤ)
      → 0 < length payload
      → b.total_published + 1 < u64
      → publish_with_priority now now' (some topic) (some payload) priority (some b)
        ≡ (success, some b')
      → taken' ≡ taken
      → Step b taken b' taken'
  takes :
      (p : Ptr) (m : Message)
      → dequeue_message b ≡ (some p, b')
      → message_at b.heap p ≡ some m
      → taken' ≡ (p, m) ∷ taken
      → Step b taken b' taken'
  finishes :
      (topic : CString) (p : Ptr) (m : Message) (xs ys : Chain)
      → taken ≡ xs ++ (p, m) ∷ ys
      → b' ≡ (finish topic p b).1
      → taken' ≡ xs ++ ys
      → Step b taken b' taken'

abbrev pub new_broker : CString → Ordering → Broker
new_broker name ordering = record {
  queue = create name ordering;
  heap = λ p. none;
  next_free = 1;
  counter = 0;
}

-- What the threads can lead to from a new queue.
pub data Reach (name : CString) (ordering : Ordering) : Broker → Chain → Type 0 where
  here : Reach name ordering (new_broker name ordering) []
  next :
      {b b' : Broker} {taken taken' : Chain}
      → Reach name ordering b taken
      → Step b taken b' taken'
      → Reach name ordering b' taken'

Step-IsServed :
    {b b' : Broker} {taken taken' : Chain}
    → Step b taken b' taken'
    → IsServed b taken
    → IsServed b' taken'
Step-IsServed {b} {b'} {taken} (publishes now now' topic payload priority nonempty room e same) s =
    let P = publish-Publishes now now' topic payload priority b s.chain nonempty s.fresh s.queue in
    let e' : P.after ≡ b' =
      some_inj (ap (λ (r : ErrorCode × Option Broker). r.1) (sym P.code ∙ e)) in
    rw same (subst (λ x. IsServed x taken) e' (publish-IsServed b taken _ s P room))
Step-IsServed {b} {b'} {taken} (takes p m e at_p same) s = rw same (
    subst (λ x. IsServed x ((p, m) ∷ taken)) (ap (λ (r : Option Ptr × Broker). r.1) e)
      (take_first b s.chain taken p m s s.queue s.apart (ap (λ (r : Option Ptr × Broker). r.0) e)
        at_p))
Step-IsServed {b} (finishes topic p m xs ys before e same) s =
    rw (same, e) (finish-IsServed topic b p m xs ys (subst (IsServed b) before s))

new-IsServed : (name : CString) (ordering : Ordering) → IsServed (new_broker name ordering) []
unfolding create occurrences message_at
new-IsServed name ordering = record {
  chain = [];
  queue = record { links = tt; head = refl; tail = refl; size = refl; distinct = tt };
  fresh = λ r above. refl;
  held = tt;
  apart = λ p. omega arith;
  counted = omega arith;
  bounded = omega arith;
}

-- Whatever publishers and consumers do to a queue, in any order of their critical sections and with
-- fewer than 2 ^ 64 publications, its nodes stay in one list with the right head, tail and size, no
-- node is in it twice or both in it and in a consumer's hands, and the publications counted are those
-- consumed, those in the queue and those in a consumer's hands.
pub Reach-IsServed :
    (name : CString) (ordering : Ordering) {b : Broker} {taken : Chain}
    → Reach name ordering b taken
    → IsServed b taken
Reach-IsServed name ordering here = new-IsServed name ordering
Reach-IsServed name ordering (next reached step) =
    Step-IsServed step (Reach-IsServed name ordering reached)
