-- ===== src/Database.antt =====
-- src/database/database.c: the key-value store with its write-ahead log. A handle that may be NULL
-- is an `Option`. Every function holds the store's lock from its first access to its last, so each
-- is one step here. The file system is a parameter: `Os` says what the calls on the log do.
-- `System` is a live `database_t` with the contents of the log file of its directory, which outlive
-- the process.
pub mod Operations
pub mod Durability
pub mod Failures
pub mod Transaction
pub mod Tests
use backend_in_c.Prelude.{
  ℕ, ◌+◌, ◌-◌, List, [], ◌∷◌, ◌++◌, Option, none, some, Bool, true, false, CString, Bytes, codes,
  length, take, is_some, ◌==◌, if◌then◌else◌,
}
use backend_in_c.Common.{ErrorCode, success, error_invalid_param, error_io}
use backend_in_c.Common.Words.{sub64}
use backend_in_c.HashTable
use backend_in_c.Assoc.{Assoc}
use backend_in_c.HashTable.{Table, entries}
use backend_in_c.Wal
use backend_in_c.Wal.{Heap, wal_entry_put, wal_entry_delete, entry_bytes}

-- `open` of the log's path gives a descriptor or fails; `append` is what a file holds after a
-- `write` of some bytes to it; `truncate` is `ftruncate` to 0, which may fail; `rewind` says
-- whether `lseek` to 0 succeeds; `heap` is what recovery finds in memory that it has not written.
pub record Os : Type 0 where
  pub open_wal : CString → Option ℕ
  pub append : Bytes → Bytes → Bytes
  pub truncate : Bytes → Option Bytes
  pub rewind : Bool
  pub heap : Heap

-- `wal_fd` is none where the int is negative.
pub record Database : Type 0 where
  pub data_dir : CString
  pub table : Table
  pub wal_fd : Option ℕ
  pub next_txn_id : ℕ
  pub is_open : Bool

pub record System : Type 0 where
  pub db : Database
  pub open db use *
  pub wal : Bytes

unfoldable pub create : CString → Database
create data_dir = record {
  data_dir = data_dir;
  table = HashTable.create 1024;
  wal_fd = none;
  next_txn_id = 1;
  is_open = false;
}

abbrev pub with_table : System → Table → System
with_table s t = record s { db = record s.db { table = t } }

-- `database_recover`
unfoldable pub recover : Os → Option System → ErrorCode × Option System
recover os none = (error_invalid_param, none)
recover os (some s) =
    if is_some s.wal_fd
    then (success, some (with_table s (Wal.recover os.heap s.wal s.table)))
    else (error_invalid_param, some s)

-- `snprintf(wal_path, 1024, "%s/wal.log", data_dir)`
unfoldable pub wal_path : CString → CString
wal_path data_dir = take 1023 (data_dir ++ codes "/wal.log")

opened : System → System
opened s = record s { db = record s.db { is_open = true } }

-- `database_open`; the result of `mkdir` is ignored, and so is that of the recovery
unfoldable pub open_database : Os → Option System → ErrorCode × Option System
unfolding opened
open_database os none = (error_invalid_param, none)
open_database os (some s) =
    if s.is_open then (error_invalid_param, some s) else elim (os.open_wal (wal_path s.data_dir)) [
      | none ↦ (error_io, some (record s { db = record s.db { wal_fd = none } }))
      | some fd ↦
          let s' : System = record s { db = record s.db { wal_fd = some fd } } in
          elim (recover os (some s')).1 [
            | none ↦ (success, none)
            | some s'' ↦ (success, some (opened s''))
          ]
    ]

-- `database_checkpoint`
unfoldable pub checkpoint : Os → Option System → ErrorCode × Option System
checkpoint os none = (error_invalid_param, none)
checkpoint os (some s) =
    if is_some s.wal_fd
    then elim (os.truncate s.wal) [
      | none ↦ (error_io, some s)
      | some wal ↦ (if os.rewind then success else error_io, some (record s { wal = wal }))
    ]
    else (error_invalid_param, some s)

closed : System → System
closed s = record s { db = record s.db { wal_fd = none; is_open = false } }

-- `database_close`; the result of the checkpoint is ignored
unfoldable pub close_database : Os → Option System → ErrorCode × Option System
unfolding closed
close_database os none = (error_invalid_param, none)
close_database os (some s) =
    if s.is_open
    then elim (checkpoint os (some s)).1 [
      | none ↦ (success, none)
      | some s' ↦ (success, some (closed s'))
    ]
    else (error_invalid_param, some s)

-- `database_destroy`: the log file that is left of the system
unfoldable pub destroy : Os → Option System → Option Bytes
destroy os none = none
destroy os (some s) =
    if s.is_open
    then elim (close_database os (some s)).1 [ none ↦ none | some s' ↦ some s'.wal ]
    else some s.wal

-- the branch `if (db->wal_fd >= 0)`; the results of `write` and `fsync` are ignored
unfoldable pub log : Os → Bytes → System → System
log os entry s = if is_some s.wal_fd then record s { wal = os.append s.wal entry } else s

-- `database_put`; the size of the value is the length of the buffer
unfoldable pub put : Os → Option CString → Option Bytes → Option System → ErrorCode × Option System
put os (some key) (some value) (some s) =
    if length value == 0
    then (error_invalid_param, some s)
    else let s' = log os (entry_bytes wal_entry_put key value) s in
      let (result, table) = HashTable.put s'.table (some key) value in
      (result, some (with_table s' table))
put os key value s = (error_invalid_param, s)

-- `database_get`: the value copied out
unfoldable pub get : Option CString → Option System → ErrorCode × Option Bytes
get (some key) (some s) = HashTable.get s.table (some key)
get key s = (error_invalid_param, none)

-- `database_delete`
unfoldable pub delete : Os → Option CString → Option System → ErrorCode × Option System
delete os (some key) (some s) =
    let s' = log os (entry_bytes wal_entry_delete key []) s in
    let (result, table) = HashTable.delete s'.table (some key) in
    (result, some (with_table s' table))
delete os key s = (error_invalid_param, s)

is_success : ErrorCode → Bool
is_success success = true
is_success _ = false

-- `database_exists`
unfoldable pub exists : Option CString → Option System → Bool
unfolding is_success
exists (some key) (some s) = is_success (HashTable.get s.table (some key)).0
exists key s = false

-- `database_create_index`, `database_drop_index` and `database_compact` are placeholders that
-- succeed whatever the handle.
unfoldable pub create_index : Option System → ErrorCode × Option System
create_index s = (success, s)

unfoldable pub drop_index : Option System → ErrorCode × Option System
drop_index s = (success, s)

unfoldable pub compact : Option System → ErrorCode × Option System
compact s = (success, s)

pub record Stats : Type 0 where
  pub num_keys : ℕ
  pub total_size : ℕ
  pub wal_size : ℕ
  pub num_transactions : ℕ

unfoldable pub entries_size : Assoc Bytes → ℕ
entries_size [] = 0
entries_size ((k, v) ∷ es) = (length k + length v) + entries_size es

-- `database_get_stats`: `lseek` to the end gives the size of the log
unfoldable pub get_stats : Option System → ErrorCode × Option Stats
unfolding entries_size
get_stats none = (error_invalid_param, none)
get_stats (some s) = (
  success,
  some (record {
    num_keys = s.table.size;
    total_size = entries_size (entries s.table);
    wal_size = if is_some s.wal_fd then length s.wal else 0;
    num_transactions = sub64 s.next_txn_id 1;
  }),
)
