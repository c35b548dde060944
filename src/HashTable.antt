-- ===== src/HashTable.antt =====
-- The hash table of src/database/database.c: `hash_string`, `hash_table_create`, `hash_table_put`,
-- `hash_table_get`, `hash_table_delete`, and the walk over all buckets that its clients make.
-- A chain is the list of its entries from the head; the first entry with a key is the one that
-- every loop stops at. A stored value is the buffer that is copied in, with its size.
pub mod Hash
pub mod Placed
pub mod Laws
pub mod Blocks
pub mod Destroy
pub mod Tests
use backend_in_c.Prelude.{
  ℕ, suc, ◌+◌, ◌-◌, ◌%◌, List, [], ◌∷◌, Option, none, some, CString, Bytes, length, get_or, set,
  replicate, concat, is_some,
}
use backend_in_c.Common.{ErrorCode, success, error_invalid_param, error_not_found}
use Hash.{hash_string}
use backend_in_c.Assoc.{Assoc, find, update, remove}

pub record Table : Type 0 where
  pub buckets : List (Assoc Bytes)
  pub bucket_count : ℕ
  pub size : ℕ

unfoldable pub create : ℕ → Table
create bucket_count = record {
  buckets = replicate bucket_count [];
  bucket_count = bucket_count;
  size = 0;
}

-- `hash % table->bucket_count`
unfoldable pub bucket_of : Table → CString → ℕ
bucket_of t key = hash_string key % t.bucket_count

-- `table->buckets[bucket]`
unfoldable pub chain_of : Table → CString → Assoc Bytes
unfolding bucket_of
chain_of t key = get_or t.buckets (bucket_of t key) []

unfoldable pub with_chain : Table → CString → Assoc Bytes → Table
unfolding bucket_of
with_chain t key c = record t { buckets = set t.buckets (bucket_of t key) c }

-- The table that `hash_table_put` leaves, for a key that is there.
unfoldable pub insert : Table → CString → Bytes → Table
unfolding chain_of with_chain update
insert t key value = elim (update key value (chain_of t key)) [
  | some c ↦ with_chain t key c
  | none ↦ record (with_chain t key ((key, value) ∷ chain_of t key)) { size = t.size + 1 }
]

unfoldable pub put : Table → Option CString → Bytes → ErrorCode × Table
unfolding insert
put t none value = (error_invalid_param, t)
put t (some key) value = (success, insert t key value)

-- The value that the loop of `hash_table_get` finds.
unfoldable pub lookup : Table → CString → Option Bytes
unfolding chain_of find
lookup t key = find key (chain_of t key)

-- The value copied out, where one is found.
unfoldable pub get : Table → Option CString → ErrorCode × Option Bytes
unfolding lookup
get t none = (error_invalid_param, none)
get t (some key) = elim (lookup t key) [
  | some v ↦ (success, some v)
  | none ↦ (error_not_found, none)
]

unfoldable pub delete : Table → Option CString → ErrorCode × Table
unfolding chain_of with_chain remove
delete t none = (error_invalid_param, t)
delete t (some key) = elim (remove key (chain_of t key)) [
  | some c ↦ (success, record (with_chain t key c) { size = t.size - 1 })
  | none ↦ (error_not_found, t)
]

-- The entries in the order in which a walk over the buckets meets them.
abbrev pub entries : Table → Assoc Bytes
entries t = concat t.buckets
