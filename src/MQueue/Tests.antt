-- ===== src/MQueue/Tests.antt =====
-- A queue by priority with messages in it, and the laws of the queue at it.
use backend_in_c.Prelude.{[], ◌∷◌, none, some, ◌≡◌, refl, arith, Bytes, CString, codes}
use backend_in_c.Common.Words.{pos}
use backend_in_c.MQueue.{
  Broker, Message, Node, ordering_priority, publish_with_priority, create, write,
}
use backend_in_c.MQueue.Consumers.{Hub}
use backend_in_c.MQueue.Links.{Chain}
use backend_in_c.MQueue.Order.{IsQueue}
use backend_in_c.MQueue.Delivery.{IsFresh, message_at, published, Publishes, publish-Publishes}
use backend_in_c.MQueue.Threads.{new_broker, Reach, here, next, publishes, Reach-IsServed}
use backend_in_c.MQueue.Served.{IsServed}

abbrev orders : CString
orders = codes "orders"

abbrev payload : Bytes
payload = 1 ∷ 2 ∷ 3 ∷ []

abbrev broker : Broker
broker = new_broker orders ordering_priority

broker-IsQueue : IsQueue broker []
unfolding create
broker-IsQueue = record { links = tt; head = refl; tail = refl; size = refl; distinct = tt }

broker-IsFresh : IsFresh broker
unfolding message_at
broker-IsFresh r above = refl

-- One message of priority 5.
abbrev urgent : Message
urgent = published 10 11 orders payload (pos 5) broker

abbrev first :
    Publishes broker [] urgent
      (publish_with_priority 10 11 (some orders) (some payload) (pos 5) (some broker))
first =
    publish-Publishes 10 11 orders payload (pos 5) broker [] (omega arith) broker-IsFresh
      broker-IsQueue

abbrev one : Broker
one = first.after

abbrev calm : Message
calm = published 12 13 orders payload (pos 1) one

one-Reach : Reach orders ordering_priority one []
one-Reach = next {b = broker} {taken = []} here (
    publishes 10 11 orders payload (pos 5) (omega arith) (unfold create in omega arith) first.code
      refl)

Reach-IsServed_example : IsServed one []
Reach-IsServed_example = Reach-IsServed orders ordering_priority {b = one} {taken = []} one-Reach

-- A queue by priority with two messages, and a third in a node of its own.
abbrev node_of : Message → Node
node_of m = record { message = m; next = none }

abbrev two : Broker
two = record {
  queue = record (create orders ordering_priority) { head = some 1; tail = some 2; size = 2 };
  heap =
      write (write (write (λ p. none) 3 (some (node_of urgent))) 2 (some (node_of calm))) 1
        (some (record { message = urgent; next = some 2 }));
  next_free = 4;
  counter = 3;
}

abbrev two_nodes : Chain
two_nodes = (1, urgent) ∷ (2, calm) ∷ []

two-IsQueue : IsQueue two two_nodes
unfolding write create
two-IsQueue = record {
  links = (refl, (refl, tt));
  head = refl;
  tail = refl;
  size = refl;
  distinct = ((omega arith, tt), (tt, tt));
}

third-here : two.heap 3 ≡ some (node_of urgent)
unfolding write
third-here = refl

-- Two consumers of one queue.
abbrev hub : Hub
hub = record {
  broker = record broker { queue = record broker.queue { consumer_count = 2 } };
  consumers = record { address = 8; topic = orders } ∷ record { address = 7; topic = orders } ∷ [];
  next_address = 9;
}
