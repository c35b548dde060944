-- ===== src/Cache/Calls.antt =====
-- The functions of src/cache/cache.c that a program calls, on the operations of its lists and chains.
use backend_in_c.Prelude.{
  ℕ, zero, suc, ◌+◌, ◌%◌, Option, none, some, Bool, true, false, CString, Bytes, length, ltb, ◌==◌,
  if◌then◌else◌,
}
use backend_in_c.Common.{ErrorCode, success, error_invalid_param, error_not_found}
use backend_in_c.Common.Words.{u64}
use backend_in_c.Cache.{
  Ptr, Item, Cache, write, bucket_of, add_to_head, move_to_head, find_entry, remove_entry,
  evict_if_needed, eviction_lru, eviction_lfu,
}

-- The entry used: it moves to the head, by LRU.
unfoldable pub touch : Ptr → Cache → Cache
touch p c = elim c.policy [ eviction_lru ↦ move_to_head p c | eviction_lfu ↦ c ]

-- The part of `cache_put_with_ttl` for a key that is there.
unfoldable pub refresh : Ptr → Bytes → ℕ → ℕ → Cache → Cache
unfolding write
refresh p value timestamp ttl_ms c = touch p (record c {
  item =
      write c.item p (record (c.item p) { value = value; timestamp = timestamp; ttl_ms = ttl_ms });
})

-- A new entry, first in its chain and first in the list.
unfoldable pub insert : Item → Cache → Cache
unfolding write bucket_of
insert e c =
    let p = c.next_free in
    let b = bucket_of c e.key in
    let c' = add_to_head p (record c {
      item = write c.item p e;
      hash_next = write c.hash_next p (c.hash_table b);
      hash_table = write c.hash_table b (some p);
      live = write c.live p true;
      next_free = p + 1;
    }) in
    record c' { size = c'.size + 1 }

-- `cache_put_with_ttl`; `now` is read by `find_entry`, and `now'` when the value is stored
unfoldable pub put_with_ttl :
    ℕ → ℕ → Option CString → Option Bytes → ℕ → Option Cache → ErrorCode × Option Cache
put_with_ttl now now' (some key) (some value) ttl_ms (some c) =
    if length value == 0 then (error_invalid_param, some c) else elim (find_entry now key c) [
      | some p ↦ (success, some (refresh p value now' ttl_ms c))
      | none ↦
          let e : Item = record {
            key = key;
            value = value;
            timestamp = now';
            ttl_ms = ttl_ms;
            access_count = 0;
          } in
          (success, some (insert e (evict_if_needed c)))
    ]
put_with_ttl now now' key value ttl_ms c = (error_invalid_param, c)

-- `cache_put`
unfoldable pub put : ℕ → ℕ → Option CString → Option Bytes → Option Cache → ErrorCode × Option Cache
unfolding put_with_ttl
put now now' key value c = put_with_ttl now now' key value 0 c

-- An entry that is found: the hit and the access are counted.
unfoldable pub hit : Ptr → Cache → Cache
unfolding write
hit p c = touch p (record c {
  hits = (c.hits + 1) % u64;
  item = write c.item p (record (c.item p) { access_count = ((c.item p).access_count + 1) % u64 });
})

-- `cache_get`: the value copied out
unfoldable pub get : ℕ → Option CString → Option Cache → ErrorCode × Option Bytes × Option Cache
get now (some key) (some c) = elim (find_entry now key c) [
  | none ↦ (error_not_found, none, some (record c { misses = (c.misses + 1) % u64 }))
  | some p ↦ (success, some (c.item p).value, some (hit p c))
]
get now key c = (error_invalid_param, none, c)

-- `cache_delete`
unfoldable pub delete : ℕ → Option CString → Option Cache → ErrorCode × Option Cache
delete now (some key) (some c) = elim (find_entry now key c) [
  | none ↦ (error_not_found, some c)
  | some p ↦ (success, some (remove_entry p c))
]
delete now key c = (error_invalid_param, c)

-- `cache_exists`
unfoldable pub exists : ℕ → Option CString → Option Cache → Bool
exists now (some key) (some c) = elim (find_entry now key c) [ none ↦ false | some p ↦ true ]
exists now key c = false

-- The loop of `cache_clear`.
unfoldable pub free_all : ℕ → (Ptr → Option Ptr) → Option Ptr → (Ptr → Bool) → Ptr → Bool
unfolding write
free_all zero next current live = live
free_all (suc fuel) next none live = live
free_all (suc fuel) next (some p) live = free_all fuel next (next p) (write live p false)

unfoldable pub cleared : Cache → Cache
cleared c = record c {
  live = free_all (c.size + 1) c.next c.head c.live;
  hash_table = λ i. if ltb i c.hash_size then none else c.hash_table i;
  head = none;
  tail = none;
  size = 0;
}

-- `cache_clear`
unfoldable pub clear : Option Cache → Option Cache
unfolding cleared
clear none = none
clear (some c) = some (cleared c)

-- `cache_destroy`: which entries are still allocated when the cache itself is freed
unfoldable pub destroy : Option Cache → Option (Ptr → Bool)
unfolding cleared
destroy none = none
destroy (some c) = some (cleared c).live

pub record Stats : Type 0 where
  pub size : ℕ
  pub max_size : ℕ
  pub hits : ℕ
  pub misses : ℕ
  pub evictions : ℕ

-- `cache_get_stats`
unfoldable pub get_stats : Option Cache → ErrorCode × Option Stats
get_stats none = (error_invalid_param, none)
get_stats (some c) = (
  success,
  some (record {
    size = c.size;
    max_size = c.max_size;
    hits = c.hits;
    misses = c.misses;
    evictions = c.evictions;
  }),
)
