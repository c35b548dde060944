-- ===== src/Database/Operations.antt =====
-- What `database_put`, `database_get`, `database_delete`, `database_exists` and
-- `database_get_stats` of src/database/database.c promise a client.
use backend_in_c.Prelude.{
  ◌<◌, ◌≡◌, ◌↔◌, refl, [], Option, none, some, true, CString, Bytes, length, str_eq, arith,
  if◌then◌else◌,
}
use backend_in_c.Common.{ErrorCode, success, error_not_found}
use backend_in_c.HashTable
use backend_in_c.HashTable.{Table, lookup, insert, entries}
use backend_in_c.HashTable.Placed.{IsPlaced}
use backend_in_c.HashTable.Laws.{lookup-insert, delete-Deletes}
use backend_in_c.Wal.{wal_entry_put, wal_entry_delete, entry_bytes}
use backend_in_c.Database.{Os, System, log, put, get, delete, exists, with_table}

pub log-table : (os : Os) (entry : Bytes) (s : System) → (log os entry s).table ≡ s.table
unfolding log
log-table os entry s = ground arith

-- `database_get` of a live store and key, by the table's abstract map.
abbrev pub answer : Option Bytes → ErrorCode × Option Bytes
answer none = (error_not_found, none)
answer (some v) = (success, some v)

pub get-answer : (k : CString) (s : System) → get (some k) (some s) ≡ answer (lookup s.table k)
unfolding get HashTable.get
get-answer k s = ground arith

pub put_lem :
    (os : Os) (k : CString) (v : Bytes) (s : System)
    → 0 < length v
    → put os (some k) (some v) (some s)
      ≡ (success, some (with_table (log os (entry_bytes wal_entry_put k v) s) (insert s.table k v)))
unfolding put HashTable.put
put_lem os k v s h = ground (arith, log-table os (entry_bytes wal_entry_put k v) s)

-- In a well-formed store a put of a non-empty value succeeds, and after it a get finds the new
-- value under the key and under every other key what it found before.
pub get-put :
    (os : Os) (k q : CString) (v : Bytes) (s : System)
    → IsPlaced s.table
    → 0 < length v
    → ((put os (some k) (some v) (some s)).0 ≡ success)
      × (get (some q) (put os (some k) (some v) (some s)).1
          ≡ (if str_eq k q then (success, some v) else get (some q) (some s)))
get-put os k q v s h nonempty = rw (put_lem os k v s nonempty) (
  refl,
  rw
      (
        get-answer q (with_table (log os (entry_bytes wal_entry_put k v) s) (insert s.table k v)),
        get-answer q s,
      )
      (ground (arith, lookup-insert s.table k q v h)),
)

pub delete_lem :
    (os : Os) (k : CString) (s : System)
    → delete os (some k) (some s) ≡ (
      (HashTable.delete s.table (some k)).0,
      some (
          with_table
            (log os (entry_bytes wal_entry_delete k []) s)
            (HashTable.delete s.table (some k)).1),
    )
unfolding delete
delete_lem os k s = ground (arith, log-table os (entry_bytes wal_entry_delete k []) s)

-- In a well-formed store a delete reports whether the key was there, and after it a get finds
-- nothing under the key and under every other key what it found before.
pub get-delete :
    (os : Os) (k q : CString) (s : System)
    → IsPlaced s.table
    → ((delete os (some k) (some s)).0 ≡ (get (some k) (some s)).0)
      × (get (some q) (delete os (some k) (some s)).1
          ≡ (if str_eq k q then (error_not_found, none) else get (some q) (some s)))
get-delete os k q s h =
    let d = delete-Deletes s.table k h in
    rw
      (
        delete_lem os k s,
        get-answer k s,
        get-answer q s,
        get-answer q (
            with_table (log os (entry_bytes wal_entry_delete k []) s)
              (HashTable.delete s.table (some k)).1),
      )
      (ground (arith, d.code, d.reads q))

-- `exists` says of a live store and key whether a get succeeds.
pub exists-get :
    (k : CString) (s : System)
    → (exists (some k) (some s) ≡ true) ↔ ((get (some k) (some s)).0 ≡ success)
unfolding exists get HashTable.get
exists-get k s = ground arith
