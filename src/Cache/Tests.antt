-- ===== src/Cache/Tests.antt =====
-- A cache of two entries in use, and the laws of src/cache/cache.c at it.
use backend_in_c.Prelude.{
  ◌≤◌, ◌<◌, ◌≡◌, refl, List, [], ◌∷◌, codes, none, some, inl, arith, length, false, Bool, ap, ◌∙◌,
  str_eq,
}
use backend_in_c.Common.{success, error_not_found}
use backend_in_c.Cache.{
  Ptr, Item, Cache, eviction_lru, eviction_lfu, create, add_to_head, expired, evict_if_needed,
}
use backend_in_c.Cache.Calls.{insert, put_with_ttl, get, destroy}
use backend_in_c.Cache.Invariant.{IsCached}
use backend_in_c.Cache.Insert.{insert-IsCached}
use backend_in_c.Cache.Eviction.{evict_if_needed-IsCached, trimmed}
use backend_in_c.Cache.Clear.{create-IsCached}
use backend_in_c.Cache.Touch.{Represents}
use backend_in_c.Cache.Runs.{
  Call, put_call, get_call, delete_call, Reply, run, model_run, empty_model, run-create,
  run-bounded, run-destroy,
}
use backend_in_c.Cache.Reads.{put-get}

abbrev calls : List Call
calls =
    put_call 10 10 (codes "a") (codes "1") 0
    ∷ put_call 11 11 (codes "b") (codes "2") 5
    ∷ get_call 12 (codes "a")
    ∷ put_call 13 13 (codes "c") (codes "3") 0
    ∷ get_call 14 (codes "b")
    ∷ delete_call 15 (codes "a")
    ∷ []

abbrev replies : List Reply
replies =
    (success, none)
    ∷ (success, none)
    ∷ (success, some (codes "1"))
    ∷ (success, none)
    ∷ (error_not_found, none)
    ∷ (success, none)
    ∷ []

-- The entry read last stays when the third comes.
model-replies : (model_run calls (empty_model 2 eviction_lru)).0 ≡ replies
unfolding str_eq expired
model-replies = refl

abbrev first_item : Item
first_item = record {
  key = codes "a";
  value = codes "1";
  timestamp = 10;
  ttl_ms = 0;
  access_count = 0;
}

abbrev second_item : Item
second_item = record {
  key = codes "b";
  value = codes "2";
  timestamp = 11;
  ttl_ms = 5;
  access_count = 3;
}

abbrev two_cached : Cache
two_cached = insert second_item (insert first_item (create 2 eviction_lfu))

two_cached-IsCached : IsCached two_cached (2 ∷ 1 ∷ [])
unfolding insert create add_to_head
two_cached-IsCached =
    insert-IsCached second_item
      (insert-IsCached first_item (create-IsCached 2 eviction_lfu (omega arith) (omega arith))
        (omega arith))
      (omega arith)

two_cached-room : 0 < two_cached.max_size
unfolding insert create add_to_head
two_cached-room = omega arith

run-create_example :
    (c' : Cache) × (run calls (some (create 2 eviction_lru))
      ≡ ((model_run calls (empty_model 2 eviction_lru)).0, some c'))
    × Represents c' (model_run calls (empty_model 2 eviction_lru)).1
run-create_example = run-create 2 eviction_lru (omega arith) (omega arith) calls

abbrev six_calls : (c' : Cache) × (run calls (some (create 2 eviction_lru)) ≡ (replies, some c'))
six_calls =
    let (c', e, r) = run-create 2 eviction_lru (omega arith) (omega arith) calls in
    (c', e ∙ ap (λ t. (t, some c')) model-replies)

run-bounded_example : six_calls.0.size ≤ 2
run-bounded_example =
    run-bounded 2 eviction_lru (omega arith) (omega arith) calls six_calls.0 replies six_calls.1

run-destroy_example :
    (live : Ptr → Bool) × (destroy (run calls (some (create 2 eviction_lru))).1 ≡ some live)
    × ((p : Ptr) → live p ≡ false)
run-destroy_example = run-destroy 2 eviction_lru (omega arith) (omega arith) calls

evict_if_needed-IsCached_example :
    IsCached (evict_if_needed two_cached) (trimmed two_cached (2 ∷ 1 ∷ []))
    × (length (trimmed two_cached (2 ∷ 1 ∷ [])) < two_cached.max_size)
evict_if_needed-IsCached_example = evict_if_needed-IsCached two_cached-IsCached two_cached-room

put-get_example :
    (c1 c2 : Cache) × (put_with_ttl 20 20 (some (codes "z")) (some (codes "9")) 0 (some two_cached)
      ≡ (success, some c1))
    × (get 30 (some (codes "z")) (some c1) ≡ (success, some (codes "9"), some c2))
put-get_example =
    put-get 20 20 30 (codes "z") (codes "9") 0 two_cached-IsCached two_cached-room refl (inl refl)
