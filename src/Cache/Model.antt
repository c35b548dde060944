-- ===== src/Cache/Model.antt =====
-- What src/cache/cache.c promises, without addresses: the entries in one list, most recently used
-- first by LRU, most recently added first by LFU.
use backend_in_c.Prelude.{
  ℕ, ◌+◌, ◌%◌, List, [], ◌∷◌, Option, none, some, length, ltb, leb, ◌==◌, if◌then◌else◌, CString,
  Bytes, str_eq,
}
use backend_in_c.Common.Words.{u64}
use backend_in_c.Cache.{Item, EvictionPolicy, eviction_lru, eviction_lfu, expired}

pub record Model : Type 0 where
  pub max_size : ℕ
  pub policy : EvictionPolicy
  pub entries : List Item

-- The first entry under a key, unless it has expired.
abbrev pub lookup : ℕ → CString → List Item → Option Item
lookup now k [] = none
lookup now k (e ∷ es) =
    if str_eq e.key k then (if expired now e then none else some e) else lookup now k es

-- The entries without the first under a key.
abbrev pub drop_key : CString → List Item → List Item
drop_key k [] = []
drop_key k (e ∷ es) = if str_eq e.key k then es else e ∷ drop_key k es

-- The entries with another in the place of the first under a key.
abbrev pub set_key : CString → Item → List Item → List Item
set_key k new [] = []
set_key k new (e ∷ es) = if str_eq e.key k then new ∷ es else e ∷ set_key k new es

abbrev pub drop_last : List Item → List Item
drop_last [] = []
drop_last (e ∷ []) = []
drop_last (e ∷ (e' ∷ es)) = e ∷ drop_last (e' ∷ es)

abbrev pub min_count : ℕ → List Item → ℕ
min_count n [] = n
min_count n (e ∷ es) = min_count (if ltb e.access_count n then e.access_count else n) es

-- The entries without the first that has been read `n` times.
abbrev pub drop_count : ℕ → List Item → List Item
drop_count n [] = []
drop_count n (e ∷ es) = if e.access_count == n then es else e ∷ drop_count n es

-- One entry less: the last by LRU, the first of those read least by LFU.
abbrev pub evict_one : EvictionPolicy → List Item → List Item
evict_one policy [] = []
evict_one eviction_lru (e ∷ es) = drop_last (e ∷ es)
evict_one eviction_lfu (e ∷ es) = drop_count (min_count e.access_count es) (e ∷ es)

-- An entry that is used takes its place, or goes first.
abbrev pub used : EvictionPolicy → CString → Item → List Item → List Item
used eviction_lru k e es = e ∷ drop_key k es
used eviction_lfu k e es = set_key k e es

abbrev pub model_put : ℕ → ℕ → CString → Bytes → ℕ → Model → Model
model_put now now' k v ttl m = record m {
  entries = elim (lookup now k m.entries) [
    | some e ↦ used m.policy k (record e { value = v; timestamp = now'; ttl_ms = ttl }) m.entries
    | none ↦
        record { key = k; value = v; timestamp = now'; ttl_ms = ttl; access_count = 0 }
        ∷ (if leb m.max_size (length m.entries) then evict_one m.policy m.entries else m.entries)
  ];
}

abbrev pub model_get : ℕ → CString → Model → Model
model_get now k m = record m {
  entries = elim (lookup now k m.entries) [
    | some e ↦ used m.policy k (record e { access_count = (e.access_count + 1) % u64 }) m.entries
    | none ↦ m.entries
  ];
}

abbrev pub model_delete : ℕ → CString → Model → Model
model_delete now k m = record m {
  entries = elim (lookup now k m.entries) [ some e ↦ drop_key k m.entries | none ↦ m.entries ];
}
