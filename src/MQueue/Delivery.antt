-- ===== src/MQueue/Delivery.antt =====
-- What becomes of the messages of a queue of src/mqueue/mqueue.c, with any number of publishing and
-- consuming threads: their critical sections, in any order.
use mathlib.Core.Option
use backend_in_c.Prelude.{
  ◌==◌, ◌%◌, ℕ, ◌+◌, ◌≤◌, ◌<◌, ◌≡◌, refl, ap, [], ◌∷◌, Option, none, some, inl, inr, Option-cases,
  arith, length, if◌then◌else◌, false, sym, ◌∙◌, CString, Bytes,
}
use backend_in_c.Common.{ErrorCode, success}
use backend_in_c.Common.Words.{ℤ, u64}
use backend_in_c.MQueue.{
  Message, Ptr, Node, Heap, Broker, write, set_next, link, place, enqueue_message, message_create,
  publish_with_priority,
}
use backend_in_c.MQueue.Links.{Chain, Links, Absent, Links-write, write-same, relinked}
use backend_in_c.MQueue.Order.{IsQueue, inserted, enqueue-IsQueue}

-- The message of the node at an address, if there is a node.
unfoldable pub message_at : Heap → Ptr → Option Message
message_at h p = Option.map (λ (n : Node). n.message) (h p)

pub message_at-write :
    (h : Heap) (p r : Ptr) (n : Option Node)
    → message_at (write h p n) r
      ≡ (if p == r then Option.map (λ (x : Node). x.message) n else message_at h r)
unfolding message_at write
message_at-write h p r n = ground arith

message_at-set_next :
    (h : Heap) (p : Ptr) (q : Option Ptr) (r : Ptr) → message_at (set_next h p q) r ≡ message_at h r
unfolding message_at set_next write
message_at-set_next h p q r = elim (Option-cases (h p)) [
  | inl e ↦ rw (e, set_next) refl
  | inr (n, e) ↦ ground arith
]

message_at-relinked :
    (h : Heap) (prev : Option Ptr) (p r : Ptr) → message_at (relinked h prev p) r ≡ message_at h r
message_at-relinked h none p r = refl
message_at-relinked h (some s) p r = message_at-set_next h s (some p) r

-- Putting a node into the queue changes no message.
pub message_at-enqueue :
    (p : Ptr) (priority : ℤ) (b : Broker) (r : Ptr)
    → message_at (enqueue_message p priority b).heap r ≡ message_at b.heap r
unfolding enqueue_message link
message_at-enqueue p priority b r =
    let pl = place b priority in
    message_at-relinked (set_next b.heap p pl.1) pl.0 p r ∙ message_at-set_next b.heap p pl.1 r

pub Absent-unallocated :
    (h : Heap) (p : Ptr) (c : Chain) (q : Option Ptr)
    → message_at h p ≡ none
    → Links h c q
    → Absent p c
unfolding message_at
Absent-unallocated h p [] q e l = tt
Absent-unallocated h p ((r, m) ∷ c) q e l =
    (λ same. absurd (cc (rw (sym same, l.0) at e)), Absent-unallocated h p c q e l.1)

-- The message of `publish_with_priority`.
abbrev pub published : ℕ → ℕ → CString → Bytes → ℤ → Broker → Message
published now now' topic payload priority b =
    record (message_create now now' b.counter topic payload priority) {
      max_retries = b.max_retries;
    }

-- No node has an address that is still to be given out.
abbrev pub IsFresh : Broker → Type 0
IsFresh b = (r : Ptr) → b.next_free ≤ r → message_at b.heap r ≡ none

-- What a publication does: it succeeds, puts a new node with the message in its place, and changes
-- no other message.
pub record Publishes (b : Broker) (c : Chain) (m : Message) (r : ErrorCode × Option Broker)
    : Type 0 where
  pub after : Broker
  pub code : r ≡ (success, some after)
  pub queue : IsQueue after (inserted b.ordering b.next_free m c)
  pub fresh : IsFresh after
  pub kept : (p : Ptr) → p < b.next_free → message_at after.heap p ≡ message_at b.heap p
  pub counted : after.total_published ≡ (b.total_published + 1) % u64
  pub consumed : after.total_consumed ≡ b.total_consumed
  pub numbered : after.counter ≡ (b.counter + 1) % u64
  pub settings : (after.ordering ≡ b.ordering) × (after.max_retries ≡ b.max_retries)

-- The broker with the new node allocated.
abbrev allocated : Message → Broker → Broker
allocated m b = record b {
  heap = write b.heap b.next_free (some (record { message = m; next = none }));
  next_free = b.next_free + 1;
  counter = (b.counter + 1) % u64;
}

allocated-IsQueue :
    (m : Message) (b : Broker) (c : Chain) → IsFresh b → IsQueue b c → IsQueue (allocated m b) c
allocated-IsQueue m b c fresh q =
    let absent =
      Absent-unallocated b.heap b.next_free c none (fresh b.next_free (omega arith)) q.links in
    record {
      links = Links-write b.heap b.next_free _ c none absent q.links;
      head = q.head;
      tail = q.tail;
      size = q.size;
      distinct = q.distinct;
    }

message_at-allocated :
    (m : Message) (b : Broker) (r : Ptr)
    → message_at (enqueue_message b.next_free m.priority (allocated m b)).heap r
      ≡ (if b.next_free == r then some m else message_at b.heap r)
message_at-allocated m b r =
    message_at-enqueue b.next_free m.priority (allocated m b) r
    ∙ message_at-write b.heap b.next_free r (some (record { message = m; next = none }))

enqueue-settings :
    (p : Ptr) (priority : ℤ) (b : Broker)
    → let b' = enqueue_message p priority b in
      (b'.counter ≡ b.counter) × (b'.ordering ≡ b.ordering) × (b'.max_retries ≡ b.max_retries)
unfolding enqueue_message link
enqueue-settings p priority b = (refl, refl, refl)

pub enqueue-fields :
    (p : Ptr) (priority : ℤ) (b : Broker)
    → let b' = enqueue_message p priority b in
      (b'.next_free ≡ b.next_free)
      × (b'.total_published ≡ b.total_published)
      × (b'.total_consumed ≡ b.total_consumed)
unfolding enqueue_message link
enqueue-fields p priority b = (refl, refl, refl)

-- A publication of a payload that is not empty, of whatever priority, to a queue whose nodes are in
-- order succeeds, puts the message in its place among the others in a node of its own, changes the
-- message of no other node, and is counted.
pub publish-Publishes :
    (now now' : ℕ) (topic : CString) (payload : Bytes) (priority : ℤ) (b : Broker) (c : Chain)
    → 0 < length payload
    → IsFresh b
    → IsQueue b c
    → Publishes b c
        (published now now' topic payload priority b)
        (publish_with_priority now now' (some topic) (some payload) priority (some b))
unfolding publish_with_priority message_create
publish-Publishes now now' topic payload priority b c nonempty fresh q =
    let m = published now now' topic payload priority b in
    let b' = enqueue_message b.next_free priority (allocated m b) in
    let nonzero : (length payload == 0) ≡ false = ground arith in
    let settings = enqueue-settings b.next_free priority (allocated m b) in
    let same = enqueue-fields b.next_free priority (allocated m b) in
    let absent =
      Absent-unallocated b.heap b.next_free c none (fresh b.next_free (omega arith)) q.links in
    let q' =
      enqueue-IsQueue (allocated m b) b.next_free (record { message = m; next = none }) c
        (write-same b.heap b.next_free _) absent (allocated-IsQueue m b c fresh q) in
    record {
      after = record b' {
        queue = record b'.queue { total_published = (b'.total_published + 1) % u64 };
      };
      code = rw nonzero refl;
      queue = record {
        links = q'.links;
        head = q'.head;
        tail = q'.tail;
        size = q'.size;
        distinct = q'.distinct;
      };
      fresh = λ r above. message_at-allocated m b r ∙ ground (arith, same.0, fresh r);
      kept = λ r below. message_at-allocated m b r ∙ ground arith;
      counted = ap (λ t. (t + 1) % u64) same.1;
      consumed = same.2;
      numbered = settings.0;
      settings = (settings.1, settings.2);
    }
