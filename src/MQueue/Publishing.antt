-- ===== src/MQueue/Publishing.antt =====
-- Publications to a new queue of src/mqueue/mqueue.c, and the one consumer that then serves it.
use backend_in_c.Prelude.{
  ◌%◌, ℕ, ◌+◌, ◌<◌, ◌≡◌, refl, ap, List, [], ◌∷◌, ◌++◌, Option, some, arith, length, sym, ◌∙◌,
  CString, Bytes, append_assoc, append-nil, subst,
}
use backend_in_c.Common.Words.{ℤ, u64}
use backend_in_c.MQueue.{
  Ordering, ordering_none, ordering_fifo, ordering_priority, Message, Ptr, Broker, message_create,
  publish_with_priority, create,
}
use backend_in_c.MQueue.Links.{Chain}
use backend_in_c.MQueue.Order.{IsQueue, inserted, parts_of, parts_of-join}
use backend_in_c.MQueue.Counting.{length-inserted}
use backend_in_c.MQueue.Delivery.{IsFresh, published, publish-Publishes, message_at}
use backend_in_c.MQueue.Threads.{new_broker}
use backend_in_c.MQueue.Serving.{serve, messages_of, Concerns, serve-Serves}
use backend_in_c.MQueue.Sorting.{InOrder, inserted-InOrder}

-- The arguments of a publication, and the times at which it reads the clock.
pub record Publication : Type 0 where
  pub now : ℕ
  pub now' : ℕ
  pub topic : CString
  pub payload : Bytes
  pub priority : ℤ

-- The calls of `mqueue_publish_with_priority`, one after the other.
unfoldable pub publish_all : List Publication → Option Broker → Option Broker
publish_all [] b = b
publish_all (r ∷ rs) b =
    publish_all rs
      (publish_with_priority r.now r.now' (some r.topic) (some r.payload) r.priority b).1

-- The messages of the publications, with the number of the first of them.
abbrev pub requested : ℤ → ℕ → List Publication → List Message
requested max_retries count [] = []
requested max_retries count (r ∷ rs) =
    record (message_create r.now r.now' count r.topic r.payload r.priority) {
      max_retries = max_retries;
    }
    ∷ requested max_retries ((count + 1) % u64) rs

-- Every publication has the topic, and a payload that is not empty.
abbrev pub AreAbout : CString → List Publication → Type 0
AreAbout topic [] = Unit {0}
AreAbout topic (r ∷ rs) = ((r.topic ≡ topic) × (0 < length r.payload)) × AreAbout topic rs

-- A queue with a chain of nodes, of a topic, that messages have come to in an order.
record Holds (topic : CString) (ms : List Message) (n : ℕ) (b : Broker) : Type 0 where
  chain : Chain
  queue : IsQueue b chain
  fresh : IsFresh b
  order : InOrder b.ordering (messages_of chain) ms
  about : Concerns topic (messages_of chain)
  size : length chain ≡ n
  consumed : b.total_consumed ≡ 0

InOrder-none : (o : Ordering) → InOrder o [] []
InOrder-none ordering_none = refl
InOrder-none ordering_fifo = refl
InOrder-none ordering_priority = (tt, λ k. refl)

Concerns-between :
    (topic : CString) (p : Ptr) (m : Message) (xs ys : Chain)
    → m.topic ≡ topic
    → Concerns topic (messages_of (xs ++ ys))
    → Concerns topic (messages_of (xs ++ (p, m) ∷ ys))
Concerns-between topic p m [] ys e h = (e, h)
Concerns-between topic p m ((r, x) ∷ xs) ys e h = (h.0, Concerns-between topic p m xs ys e h.1)

Concerns-inserted :
    (topic : CString) (o : Ordering) (p : Ptr) (m : Message) (c : Chain)
    → m.topic ≡ topic
    → Concerns topic (messages_of c)
    → Concerns topic (messages_of (inserted o p m c))
Concerns-inserted topic o p m c e h =
    let parts = parts_of o m.priority c in
    Concerns-between topic p m parts.0 parts.1 e
      (subst (λ d. Concerns topic (messages_of d)) (sym (parts_of-join o m.priority c)) h)

new_broker-Holds : (name topic : CString) (o : Ordering) → Holds topic [] 0 (new_broker name o)
unfolding create message_at
new_broker-Holds name topic o = record {
  chain = [];
  queue = record { links = tt; head = refl; tail = refl; size = refl; distinct = tt };
  fresh = λ r above. refl;
  order = InOrder-none o;
  about = tt;
  size = refl;
  consumed = refl;
}

-- A publication adds its message to those that have come.
publish-Holds :
    (topic : CString) (ms : List Message) (n : ℕ) (b : Broker) (r : Publication)
    → (r.topic ≡ topic) × (0 < length r.payload)
    → (h : Holds topic ms n b)
    → let m = published r.now r.now' r.topic r.payload r.priority b in
      (b' : Broker) × ((publish_with_priority r.now r.now'
          (some r.topic)
          (some r.payload)
          r.priority
          (some b)).1
        ≡ some b')
      × Holds topic (ms ++ m ∷ []) (n + 1) b'
      × (b'.counter ≡ (b.counter + 1) % u64)
      × (b'.ordering ≡ b.ordering)
      × (b'.max_retries ≡ b.max_retries)
unfolding message_create
publish-Holds topic ms n b r ok h =
    let m = published r.now r.now' r.topic r.payload r.priority b in
    let P =
      publish-Publishes r.now r.now' r.topic r.payload r.priority b h.chain ok.1 h.fresh h.queue in
    let kept = inserted-InOrder b.ordering b.next_free m h.chain ms h.order in
    (
      P.after,
      ap (λ r. r.1) P.code,
      record {
        chain = inserted b.ordering b.next_free m h.chain;
        queue = P.queue;
        fresh = P.fresh;
        order =
            subst
              (λ o.
                InOrder o (messages_of (inserted b.ordering b.next_free m h.chain)) (ms ++ m ∷ []))
              (sym P.settings.0) kept;
        about = Concerns-inserted topic b.ordering b.next_free m h.chain ok.0 h.about;
        size = length-inserted b.ordering b.next_free m h.chain ∙ ap (λ k. k + 1) h.size;
        consumed = P.consumed ∙ h.consumed;
      },
      P.numbered,
      P.settings.0,
      P.settings.1,
    )

publish_all-Holds :
    (topic : CString) (rs : List Publication) (ms : List Message) (n : ℕ) (b : Broker)
    → AreAbout topic rs
    → Holds topic ms n b
    → (b' : Broker) × (publish_all rs (some b) ≡ some b')
      × Holds topic (ms ++ requested b.max_retries b.counter rs) (n + length rs) b'
      × (b'.ordering ≡ b.ordering)
unfolding publish_all
publish_all-Holds topic [] ms n b about h = (
  b,
  refl,
  subst (λ k. Holds topic (ms ++ []) k b) (omega arith)
      (subst (λ ns. Holds topic ns n b) (sym (append-nil ms)) h),
  refl,
)
publish_all-Holds topic (r ∷ rs) ms n b about h =
    let m = published r.now r.now' r.topic r.payload r.priority b in
    let (b1, e, h1, counter, ordering, max_retries) = publish-Holds topic ms n b r about.0 h in
    let (b2, e', h2, ordering') = publish_all-Holds topic rs (ms ++ m ∷ []) (n + 1) b1 about.1 h1 in
    (
      b2,
      ap (publish_all rs) e ∙ e',
      subst (λ k. Holds topic (ms ++ requested b.max_retries b.counter (r ∷ rs)) k b2) (omega arith)
          (subst (λ ns. Holds topic ns ((n + 1) + length rs) b2)
            (rw (counter, max_retries) (append_assoc ms (m ∷ []) _)) h2),
      ordering' ∙ ordering,
    )

-- What becomes of publications to a new queue with an ordering that one consumer then serves.
pub record Delivers (topic : CString) (o : Ordering) (b : Option Broker) (rs : List Publication)
    (ms : List Message) : Type 0 where
  pub after : Broker
  pub succeeds : b ≡ some after
  pub in_order : InOrder o (serve (length rs) topic after).0 ms
  pub empty : IsQueue (serve (length rs) topic after).1 []
  pub consumed : (serve (length rs) topic after).1.total_consumed ≡ length rs

-- Whatever is published to a new queue on one topic, and with payloads that are not empty, a consumer
-- of the topic that is then alone with the queue hands to its handler within one turn for each
-- message: in the order of the publications, or in a queue by priority the more urgent before the
-- less urgent, and those of one priority in the order of the publications. The queue is then empty,
-- and all are counted. (There are fewer than 2^64 of them.)
pub publish_all-serve :
    (name topic : CString) (o : Ordering) (rs : List Publication)
    → AreAbout topic rs
    → length rs < u64
    → let b = new_broker name o in
      Delivers topic o (publish_all rs (some b)) rs (requested b.max_retries b.counter rs)
unfolding create
publish_all-serve name topic o rs about few =
    let b = new_broker name o in
    let (b', e, h, ordering) =
      publish_all-Holds topic rs [] 0 b about (new_broker-Holds name topic o) in
    let s =
      serve-Serves (length rs) topic b' h.chain h.queue h.about (omega (arith, h.size))
        (omega (arith, h.size, h.consumed)) in
    record {
      after = b';
      succeeds = e;
      in_order =
          subst (λ hs. InOrder o hs (requested b.max_retries b.counter rs)) (sym s.handled)
            (subst (λ o'. InOrder o' (messages_of h.chain) (requested b.max_retries b.counter rs))
              ordering h.order);
      empty = s.empty;
      consumed = omega (arith, s.consumed, h.size, h.consumed);
    }
