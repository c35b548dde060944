-- ===== src/MQueue/ServeTests.antt =====
-- Three publications to a queue by priority, and the consumer that serves them.
use backend_in_c.Prelude.{List, [], ◌∷◌, none, some, refl, arith, CString, codes}
use backend_in_c.Common.Words.{pos}
use backend_in_c.MQueue.{Broker, Message, ordering_priority, create, write, message_create}
use backend_in_c.MQueue.Links.{Chain}
use backend_in_c.MQueue.Order.{IsQueue}
use backend_in_c.MQueue.Delivery.{published}
use backend_in_c.MQueue.Threads.{new_broker}
use backend_in_c.MQueue.Serving.{serve, Serves, serve-Serves}
use backend_in_c.MQueue.Publishing.{
  Publication, publish_all, requested, AreAbout, Delivers, publish_all-serve,
}

abbrev jobs : CString
jobs = codes "jobs"

abbrev three : List Publication
three =
    record { now = 1; now' = 1; topic = jobs; payload = 7 ∷ []; priority = pos 1 }
    ∷ record { now = 2; now' = 2; topic = jobs; payload = 8 ∷ []; priority = pos 5 }
    ∷ record { now = 3; now' = 3; topic = jobs; payload = 9 ∷ []; priority = pos 1 }
    ∷ []

abbrev fresh : Broker
fresh = new_broker jobs ordering_priority

three-AreAbout : AreAbout jobs three
three-AreAbout = ((refl, omega arith), ((refl, omega arith), ((refl, omega arith), tt)))

publish_all-serve_example :
    Delivers jobs ordering_priority
      (publish_all three (some fresh))
      three
      (requested fresh.max_retries fresh.counter three)
publish_all-serve_example =
    publish_all-serve jobs jobs ordering_priority three three-AreAbout (omega arith)

-- A queue with one message in it.
abbrev only : Message
only = published 1 1 jobs (7 ∷ []) (pos 1) fresh

abbrev one : Broker
one = record {
  queue = record (create jobs ordering_priority) { head = some 1; tail = some 1; size = 1 };
  heap = write (λ p. none) 1 (some (record { message = only; next = none }));
  next_free = 2;
  counter = 1;
}

abbrev one_node : Chain
one_node = (1, only) ∷ []

one-IsQueue : IsQueue one one_node
unfolding write create
one-IsQueue = record {
  links = (refl, tt);
  head = refl;
  tail = refl;
  size = refl;
  distinct = (tt, tt);
}

serve-Serves_example : Serves one one_node (serve 3 jobs one)
unfolding create message_create
serve-Serves_example =
    serve-Serves 3 jobs one one_node one-IsQueue (refl, tt) (omega arith) (omega arith)
