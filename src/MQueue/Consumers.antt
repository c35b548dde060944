-- ===== src/MQueue/Consumers.antt =====
-- The consumers of a queue of src/mqueue/mqueue.c: the list that `mqueue_subscribe` and
-- `mqueue_unsubscribe` keep, what a consumer's thread does each time it holds the lock, and
-- `mqueue_destroy`. A consumer is known by its address, which is a number that is not given twice.
use backend_in_c.Prelude.{
  ℕ, ◌+◌, ◌-◌, ◌≡◌, List, [], ◌∷◌, Option, none, some, Bool, true, false, CString, arith, length,
  ◌==◌, if◌then◌else◌,
}
use backend_in_c.Common.{ErrorCode, success, error_invalid_param}
use backend_in_c.MQueue.{Ptr, Broker, dequeue_message}
use backend_in_c.MQueue.Admin.{clear}

pub record Consumer : Type 0 where
  pub address : ℕ
  pub topic : CString

-- The newest consumer comes first.
pub record Hub : Type 0 where
  pub broker : Broker
  pub consumers : List Consumer
  pub next_address : ℕ

abbrev pub with_count : ℕ → Broker → Broker
with_count n b = record b { queue = record b.queue { consumer_count = n } }

-- `mqueue_subscribe`: whether there is a handler, and whether `pthread_create` succeeds, are
-- arguments
unfoldable pub subscribe : Bool → Bool → Option CString → Option Hub → Option ℕ × Option Hub
subscribe handler started (some topic) (some h) =
    if handler
    then (if started
        then (
          some h.next_address,
          some (record {
            broker = with_count (h.broker.consumer_count + 1) h.broker;
            consumers = record { address = h.next_address; topic = topic } ∷ h.consumers;
            next_address = h.next_address + 1;
          }),
        )
        else (none, some h))
    else (none, some h)
subscribe handler started topic h = (none, h)

-- The loop of `mqueue_unsubscribe`: the list without the consumer, and whether it was there.
unfoldable pub unlink_consumer : ℕ → List Consumer → List Consumer × Bool
unlink_consumer a [] = ([], false)
unlink_consumer a (c ∷ cs) =
    let (rest, there) = unlink_consumer a cs in
    if c.address == a then (cs, true) else (c ∷ rest, there)

-- `mqueue_unsubscribe`, when the consumer's thread has ended
unfoldable pub unsubscribe : Option ℕ → Hub → ErrorCode × Hub
unsubscribe none h = (error_invalid_param, h)
unsubscribe (some a) h =
    let (rest, there) = unlink_consumer a h.consumers in
    (
      success,
      record h {
        broker = if there then with_count (h.broker.consumer_count - 1) h.broker else h.broker;
        consumers = rest;
      },
    )

-- What `consumer_thread` does when it has the lock.
pub data Turn : Type 0 where
  stops : Turn
  waits : Turn
  takes_out : Option Ptr → Turn

-- The first critical section of a turn of `consumer_thread`.
unfoldable pub turn : Bool → Broker → Turn × Broker
turn active b =
    let (node, b') = dequeue_message b in
    if active then (if b.size == 0 then (waits, b) else (takes_out node, b')) else (stops, b)

-- `mqueue_destroy`, up to the freeing of the queue: every consumer is unsubscribed, from the first
-- on, and the nodes are freed.
unfoldable pub unsubscribe_all : List Consumer → Hub → Hub
unsubscribe_all [] h = h
unsubscribe_all (c ∷ cs) h = unsubscribe_all cs (unsubscribe (some c.address) h).1

unfoldable pub destroy : Option Hub → Option Hub
destroy none = none
destroy (some h) =
    let h' = unsubscribe_all h.consumers (record h {
      broker = record h.broker { queue = record h.broker.queue { running = false } };
    }) in
    elim (clear (some h'.broker)) [ none ↦ none | some b ↦ some (record h' { broker = b }) ]

-- The count is that of the list.
abbrev pub IsCounted : Hub → Type 0
IsCounted h = h.broker.consumer_count ≡ length h.consumers

unlink_consumer-length :
    (a : ℕ) (cs : List Consumer)
    → length (unlink_consumer a cs).0 + (if (unlink_consumer a cs).1 then 1 else 0) ≡ length cs
unfolding unlink_consumer
unlink_consumer-length a [] = omega arith
unlink_consumer-length a (c ∷ cs) = ground (arith, unlink_consumer-length a cs)

pub unsubscribe-IsCounted : (a : ℕ) (h : Hub) → IsCounted h → IsCounted (unsubscribe (some a) h).1
unfolding unsubscribe
unsubscribe-IsCounted a h counted = ground (arith, unlink_consumer-length a h.consumers)

unsubscribe-first :
    (c : Consumer) (cs : List Consumer) (h : Hub)
    → h.consumers ≡ c ∷ cs
    → (unsubscribe (some c.address) h).1.consumers ≡ cs
unfolding unsubscribe unlink_consumer
unsubscribe-first c cs h e = rw (e, unlink_consumer) (ground arith)

-- Of a queue whose consumer count is right, unsubscribing all of its consumers in turn, as a destroy
-- does, leaves no consumer and a count of 0.
pub unsubscribe_all-none :
    (cs : List Consumer) (h : Hub)
    → h.consumers ≡ cs
    → IsCounted h
    → ((unsubscribe_all cs h).consumers ≡ []) × ((unsubscribe_all cs h).broker.consumer_count ≡ 0)
unfolding unsubscribe_all
unsubscribe_all-none [] h e counted = (e, ground arith)
unsubscribe_all-none (c ∷ cs) h e counted =
    unsubscribe_all-none cs (unsubscribe (some c.address) h).1 (unsubscribe-first c cs h e)
      (unsubscribe-IsCounted c.address h counted)
