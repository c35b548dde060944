-- ===== src/Database/Transaction.antt =====
-- The transactions of src/database/database.c. A transaction keeps a pointer to its store: the
-- functions that follow it take the store as an argument. A transaction that is ended is freed, and
-- its handle is none from then on. The isolation level is stored and never read.
pub mod Laws
pub mod Isolation
use backend_in_c.Prelude.{
  ℕ, ◌+◌, ◌%◌, List, [], ◌∷◌, Option, none, some, Bool, true, false, CString, Bytes, if◌then◌else◌,
}
use backend_in_c.Common.{ErrorCode, success, error_invalid_param}
use backend_in_c.Common.Words.{u64}
use backend_in_c.HashTable
use backend_in_c.Assoc.{Assoc}
use backend_in_c.HashTable.{Table, entries}
use backend_in_c.Database
use backend_in_c.Database.{System, with_table}

pub data IsolationLevel : Type 0 where
  read_uncommitted read_committed repeatable_read serializable : IsolationLevel

pub record Transaction : Type 0 where
  pub txn_id : ℕ
  pub level : IsolationLevel
  pub writes : Table
  pub committed : Bool

-- `database_begin_transaction`; the counter is a uint64_t
unfoldable pub begin_transaction :
    IsolationLevel → Option System → Option Transaction × Option System
begin_transaction level none = (none, none)
begin_transaction level (some s) = (
  some (record {
    txn_id = s.next_txn_id;
    level = level;
    writes = HashTable.create 64;
    committed = false;
  }),
  some (record s { db = record s.db { next_txn_id = (s.next_txn_id + 1) % u64 } }),
)

-- the loops over the buckets and chains of the write set
unfoldable pub apply_writes : Assoc Bytes → Table → Table
apply_writes [] table = table
apply_writes ((key, value) ∷ es) table = apply_writes es (HashTable.put table (some key) value).1

-- `transaction_commit`
unfoldable pub commit : Option Transaction → System → ErrorCode × Option Transaction × System
commit none s = (error_invalid_param, none, s)
commit (some txn) s =
    if txn.committed
    then (error_invalid_param, some txn, s)
    else (success, none, with_table s (apply_writes (entries txn.writes) s.table))

-- `transaction_rollback`
unfoldable pub rollback : Option Transaction → ErrorCode × Option Transaction
rollback none = (error_invalid_param, none)
rollback (some txn) = (success, none)

-- `transaction_put`: unlike `database_put` it takes a value of no bytes
unfoldable pub put :
    Option CString → Option Bytes → Option Transaction → ErrorCode × Option Transaction
put (some key) (some value) (some txn) =
    let (result, writes) = HashTable.put txn.writes (some key) value in
    (result, some (record txn { writes = writes }))
put key value txn = (error_invalid_param, txn)

-- `transaction_get`: the write set first, then the store
unfoldable pub get : Option CString → Option Transaction → System → ErrorCode × Option Bytes
get (some key) (some txn) s =
    let (result, value) = HashTable.get txn.writes (some key) in
    elim result [ success ↦ (success, value) | _ ↦ Database.get (some key) (some s) ]
get key txn s = (error_invalid_param, none)

-- `transaction_delete`
unfoldable pub delete : Option CString → Option Transaction → ErrorCode × Option Transaction
delete (some key) (some txn) =
    let (result, writes) = HashTable.delete txn.writes (some key) in
    (result, some (record txn { writes = writes }))
delete key txn = (error_invalid_param, txn)
