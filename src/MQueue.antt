-- ===== src/MQueue.antt =====
-- The message queue of src/mqueue/mqueue.c, with its nodes at addresses of a heap. A message belongs
-- to one node and is modelled as its contents. The critical sections of the functions and of the
-- consumer threads are the operations here; the mutex makes each of them one step.
pub mod Links
pub mod Order
pub mod Delivery
pub mod Counting
pub mod Served
pub mod Threads
pub mod Admin
pub mod Consumers
pub mod Serving
pub mod Sorting
pub mod Publishing
pub mod Tests
pub mod ServeTests
use backend_in_c.Prelude.{
  ℕ, zero, suc, ◌+◌, ◌-◌, ◌%◌, List, [], ◌∷◌, ◌++◌, Option, none, some, Bool, true, false, CString,
  Bytes, codes, length, str_eq, ◌==◌, if◌then◌else◌,
}
use backend_in_c.Common.{ErrorCode, success, error_invalid_param}
use backend_in_c.Common.Words.{ℤ, pos, leb_ℤ, u64}
use backend_in_c.Common.Decimal.{print_lu}

pub data DeliveryGuarantee : Type 0 where
  at_most_once at_least_once exactly_once : DeliveryGuarantee

pub data Ordering : Type 0 where
  ordering_none ordering_fifo ordering_priority : Ordering

-- The size of the payload is its length.
pub record Message : Type 0 where
  pub id : CString
  pub topic : CString
  pub payload : Bytes
  pub timestamp : ℕ
  pub priority : ℤ
  pub retry_count : ℤ
  pub max_retries : ℤ

abbrev pub Ptr : Type 0
Ptr = ℕ

pub record Node : Type 0 where
  pub message : Message
  pub next : Option Ptr

abbrev pub Heap : Type 0
Heap = Ptr → Option Node

unfoldable pub write : Heap → Ptr → Option Node → Heap
write h p n q = if p == q then n else h q

-- `p->next = q`; a write through a dangling pointer is not defined, and changes nothing here
unfoldable pub set_next : Heap → Ptr → Option Ptr → Heap
set_next h p q = elim (h p) [ none ↦ h | some n ↦ write h p (some (record n { next = q })) ]

-- The consumers of a queue are threads of their own, and are modelled in `Consumers`.
pub record MQueue : Type 0 where
  pub name : CString
  pub ordering : Ordering
  pub guarantee : DeliveryGuarantee
  pub max_retries : ℤ
  pub head : Option Ptr
  pub tail : Option Ptr
  pub size : ℕ
  pub consumer_count : ℕ
  pub total_published : ℕ
  pub total_consumed : ℕ
  pub total_rejected : ℕ
  pub total_retries : ℕ
  pub running : Bool

-- A queue with the heap of nodes, the next free address, and the counter of `generate_message_id`.
pub record Broker : Type 0 where
  pub queue : MQueue
  pub open queue use *
  pub heap : Heap
  pub next_free : Ptr
  pub counter : ℕ

-- `mqueue_create`
unfoldable pub create : CString → Ordering → MQueue
create name ordering = record {
  name = name;
  ordering = ordering;
  guarantee = at_least_once;
  max_retries = pos 3;
  head = none;
  tail = none;
  size = 0;
  consumer_count = 0;
  total_published = 0;
  total_consumed = 0;
  total_rejected = 0;
  total_retries = 0;
  running = true;
}

-- `generate_message_id`: "msg-%lu-%lu", at most 45 of the 63 characters that fit
unfoldable pub generate_message_id : ℕ → ℕ → CString
generate_message_id now id = codes "msg-" ++ (print_lu now ++ (b'-' ∷ print_lu id))

-- `message_create` with the id's timestamp `now` and its own, `now'`
unfoldable pub message_create : ℕ → ℕ → ℕ → CString → Bytes → ℤ → Message
message_create now now' id topic payload priority = record {
  id = generate_message_id now id;
  topic = topic;
  payload = payload;
  timestamp = now';
  priority = priority;
  retry_count = pos 0;
  max_retries = pos 3;
}

-- The loop of `enqueue_message` for a priority queue: the node before the place, and the one behind
-- it. The list has no more nodes than `fuel`.
unfoldable pub find_place : ℕ → Heap → ℤ → Option Ptr → Option Ptr → Option Ptr × Option Ptr
find_place zero h priority prev current = (prev, current)
find_place (suc fuel) h priority prev none = (prev, none)
find_place (suc fuel) h priority prev (some c) = elim (h c) [
  | none ↦ (prev, some c)
  | some n ↦
      if leb_ℤ priority n.message.priority
      then find_place fuel h priority (some c) n.next
      else (prev, some c)
]

-- The place where `enqueue_message` puts a node: behind the tail, unless by priority.
unfoldable pub place : Broker → ℤ → Option Ptr × Option Ptr
place b priority = elim b.ordering [
  | ordering_priority ↦ find_place (b.size + 1) b.heap priority none b.head
  | _ ↦ (b.tail, none)
]

-- The node linked in between, with the queue's ends moved where it is the first or the last.
unfoldable pub link : Option Ptr × Option Ptr → Ptr → Broker → Broker
link (prev, current) p b =
    let h = set_next b.heap p current in
    record b {
      heap = elim prev [ some r ↦ set_next h r (some p) | none ↦ h ];
      queue = record b.queue {
        head = elim prev [ some _ ↦ b.head | none ↦ some p ];
        tail = elim current [ some _ ↦ b.tail | none ↦ some p ];
        size = b.size + 1;
      };
    }

-- `enqueue_message` of a node with a message of the priority
unfoldable pub enqueue_message : Ptr → ℤ → Broker → Broker
enqueue_message p priority b = link (place b priority) p b

next_of : Heap → Ptr → Option Ptr
next_of h p = elim (h p) [ none ↦ none | some n ↦ n.next ]

-- `dequeue_message`
unfoldable pub dequeue_message : Broker → Option Ptr × Broker
unfolding next_of
dequeue_message b = elim b.head [
  | none ↦ (none, b)
  | some p ↦
      let rest = next_of b.heap p in
      (
        some p,
        record b {
          queue = record b.queue {
            head = rest;
            tail = elim rest [ none ↦ none | some _ ↦ b.tail ];
            size = b.size - 1;
          };
        },
      )
]

-- `mqueue_publish_with_priority`; the size of the payload is its length. The message's own
-- `max_retries` is that of the queue.
unfoldable pub publish_with_priority :
    ℕ → ℕ → Option CString → Option Bytes → ℤ → Option Broker → ErrorCode × Option Broker
publish_with_priority now now' (some topic) (some payload) priority (some b) =
    if length payload == 0
    then (error_invalid_param, some b)
    else let msg = record (message_create now now' b.counter topic payload priority) {
      max_retries = b.max_retries;
    } in
      let p = b.next_free in
      let b' = enqueue_message p priority (record b {
        heap = write b.heap p (some (record { message = msg; next = none }));
        next_free = p + 1;
        counter = (b.counter + 1) % u64;
      }) in
      (
        success,
        some (record b' {
          queue = record b'.queue { total_published = (b'.total_published + 1) % u64 };
        }),
      )
publish_with_priority now now' topic payload priority b = (error_invalid_param, b)

-- `mqueue_publish`
unfoldable pub publish :
    ℕ → ℕ → Option CString → Option Bytes → Option Broker → ErrorCode × Option Broker
unfolding publish_with_priority
publish now now' topic payload b = publish_with_priority now now' topic payload (pos 0) b

-- What the consumer thread does with a dequeued node, once it holds the lock again: a message of
-- its own topic has been handled, is counted and freed; any other goes back into the queue.
unfoldable pub finish : CString → Ptr → Broker → Option Message × Broker
unfolding enqueue_message
finish topic p b = elim (b.heap p) [
  | none ↦ (none, b)
  | some n ↦
      if str_eq n.message.topic topic
      then (
        some n.message,
        record b {
          heap = write b.heap p none;
          queue = record b.queue { total_consumed = (b.total_consumed + 1) % u64 };
        },
      )
      else (none, enqueue_message p n.message.priority b)
]
