-- ===== src/Cache.antt =====
-- The cache of src/cache/cache.c: entries in a hash table of chains and in a doubly linked list, most
-- recently used first. The entries stand at addresses, with one array of the memory for each link
-- field of `cache_entry_t` (`prev`, `next`, `hash_next`), one for its other fields (`item`), and one
-- that says which addresses are allocated (`live`). Every call holds the cache's lock throughout.
pub mod Calls
pub mod Lists
pub mod Recency
pub mod Chains
pub mod Keys
pub mod Invariant
pub mod Remove
pub mod Moves
pub mod Insert
pub mod Eviction
pub mod Model
pub mod Entries
pub mod Victims
pub mod Touch
pub mod Refinement
pub mod Clear
pub mod Runs
pub mod Reads
pub mod Tests
use backend_in_c.Prelude.{
  ℕ, zero, suc, ◌+◌, ◌-◌, ◌*◌, ◌%◌, List, [], Option, none, some, Bool, true, false, ◌&&◌, CString,
  Bytes, length, ltb, leb, str_eq, ◌==◌, if◌then◌else◌,
}
use backend_in_c.Common.{ErrorCode, success, error_invalid_param, error_not_found}
use backend_in_c.Common.Words.{u64, sub64}
use backend_in_c.HashTable.Hash.{hash_string}

abbrev pub Ptr : Type 0
Ptr = ℕ

pub data EvictionPolicy : Type 0 where
  eviction_lru eviction_lfu : EvictionPolicy

-- The fields of an entry that are no links; the size of the value is its length.
pub record Item : Type 0 where
  pub key : CString
  pub value : Bytes
  pub timestamp : ℕ
  pub ttl_ms : ℕ
  pub access_count : ℕ

pub record Cache : Type 0 where
  pub hash_table : ℕ → Option Ptr
  pub hash_size : ℕ
  pub head : Option Ptr
  pub tail : Option Ptr
  pub size : ℕ
  pub max_size : ℕ
  pub policy : EvictionPolicy
  pub hits : ℕ
  pub misses : ℕ
  pub evictions : ℕ
  pub item : Ptr → Item
  pub prev : Ptr → Option Ptr
  pub next : Ptr → Option Ptr
  pub hash_next : Ptr → Option Ptr
  pub live : Ptr → Bool
  pub next_free : Ptr

-- An array with one place written.
unfoldable pub write {ℓ} : {A : Type ℓ} → (ℕ → A) → ℕ → A → ℕ → A
write f p v q = if p == q then v else f q

-- `hash_key(key) % cache->hash_size`; `hash_key` has the text of `hash_string`
unfoldable pub bucket_of : Cache → CString → ℕ
bucket_of c key = hash_string key % c.hash_size

-- The two halves of `remove_from_list`: the links from before and from behind.
unfoldable pub unlink_before : Ptr → Cache → Cache
unfolding write
unlink_before p c = elim (c.prev p) [
  | some r ↦ record c { next = write c.next r (c.next p) }
  | none ↦ record c { head = c.next p }
]

unfoldable pub unlink_behind : Ptr → Cache → Cache
unfolding write
unlink_behind p c = elim (c.next p) [
  | some n ↦ record c { prev = write c.prev n (c.prev p) }
  | none ↦ record c { tail = c.prev p }
]

unfoldable pub remove_from_list : Ptr → Cache → Cache
unfolding unlink_before unlink_behind
remove_from_list p c = unlink_behind p (unlink_before p c)

unfoldable pub add_to_head : Ptr → Cache → Cache
unfolding write
add_to_head p c =
    let prev = write c.prev p none in
    record c {
      prev = elim c.head [ some h ↦ write prev h (some p) | none ↦ prev ];
      next = write c.next p c.head;
      head = some p;
      tail = elim c.tail [ some t ↦ some t | none ↦ some p ];
    }

same_ptr : Option Ptr → Ptr → Bool
same_ptr none p = false
same_ptr (some q) p = q == p

unfoldable pub move_to_head : Ptr → Cache → Cache
unfolding same_ptr
move_to_head p c = if same_ptr c.head p then c else add_to_head p (remove_from_list p c)

-- `ttl_ms > 0 && now - timestamp > ttl_ms` in uint64_t
unfoldable pub expired : ℕ → Item → Bool
expired now e = ltb 0 e.ttl_ms && ltb e.ttl_ms (sub64 now e.timestamp)

-- The loop of `find_entry`. No chain has as many nodes as `fuel`.
unfoldable pub walk : ℕ → ℕ → CString → (Ptr → Item) → (Ptr → Option Ptr) → Option Ptr → Option Ptr
unfolding expired
walk zero now key item hash_next entry = none
walk (suc fuel) now key item hash_next none = none
walk (suc fuel) now key item hash_next (some p) =
    let rest = walk fuel now key item hash_next (hash_next p) in
    if str_eq (item p).key key then (if expired now (item p) then none else some p) else rest

unfoldable pub find_entry : ℕ → CString → Cache → Option Ptr
unfolding bucket_of
find_entry now key c = walk (c.size + 1) now key c.item c.hash_next (c.hash_table (bucket_of c key))

-- The loop of `remove_entry` over the chain of bucket `b`, which takes the entry `p` out of it.
unfoldable pub unlink_chain : ℕ → ℕ → Ptr → Option Ptr → Option Ptr → Cache → Cache
unfolding write
unlink_chain zero b p prev current c = c
unlink_chain (suc fuel) b p prev none c = c
unlink_chain (suc fuel) b p prev (some q) c =
    let rest = unlink_chain fuel b p (some q) (c.hash_next q) c in
    if q == p
    then elim prev [
      | some r ↦ record c { hash_next = write c.hash_next r (c.hash_next q) }
      | none ↦ record c { hash_table = write c.hash_table b (c.hash_next q) }
    ]
    else rest

-- The entry is freed.
unfoldable pub free_entry : Ptr → Cache → Cache
unfolding write
free_entry p c = record c { live = write c.live p false; size = c.size - 1 }

unfoldable pub remove_entry : Ptr → Cache → Cache
unfolding bucket_of
remove_entry p c =
    let b = bucket_of c (c.item p).key in
    free_entry p (remove_from_list p (unlink_chain (c.size + 1) b p none (c.hash_table b) c))

-- The loop of `find_victim`.
unfoldable pub least_used : ℕ → (Ptr → Item) → (Ptr → Option Ptr) → Ptr → Option Ptr → Ptr
least_used zero item next victim current = victim
least_used (suc fuel) item next victim none = victim
least_used (suc fuel) item next victim (some p) =
    least_used fuel item next
      (if ltb (item p).access_count (item victim).access_count then p else victim) (next p)

unfoldable pub find_victim : Cache → Option Ptr
find_victim c = elim c.policy [
  | eviction_lru ↦ c.tail
  | eviction_lfu ↦ elim c.head [
    | none ↦ none
    | some p ↦ some (least_used (c.size + 1) c.item c.next p (some p))
  ]
]

unfoldable pub evicted : Ptr → Cache → Cache
evicted p c = let c' = remove_entry p c in record c' { evictions = (c'.evictions + 1) % u64 }

-- The loop of `evict_if_needed`; each turn but the last takes an entry out.
unfoldable pub evict : ℕ → Cache → Cache
unfolding evicted
evict zero c = c
evict (suc fuel) c =
    let rest : Cache = elim (find_victim c) [ none ↦ c | some v ↦ evict fuel (evicted v c) ] in
    if leb c.max_size c.size then rest else c

unfoldable pub evict_if_needed : Cache → Cache
evict_if_needed c = evict (c.size + 1) c

-- `cache_create`
unfoldable pub create : ℕ → EvictionPolicy → Cache
create max_size policy = record {
  hash_table = λ i. none;
  hash_size = (max_size * 2) % u64;
  head = none;
  tail = none;
  size = 0;
  max_size = max_size;
  policy = policy;
  hits = 0;
  misses = 0;
  evictions = 0;
  item = λ p. record { key = []; value = []; timestamp = 0; ttl_ms = 0; access_count = 0 };
  prev = λ p. none;
  next = λ p. none;
  hash_next = λ p. none;
  live = λ p. false;
  next_free = 1;
}
