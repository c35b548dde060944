-- ===== src/Database/Tests.antt =====
-- A file system whose calls succeed, small stores and a transaction, and the laws of the database at
-- them.
use backend_in_c.Prelude.{
  ◌≡◌, ◌≢◌, ap, refl, [], ◌++◌, none, some, Option, true, false, CString, arith, str_eq, codes,
}
use backend_in_c.Common.{ErrorCode, success, error_not_found}
use backend_in_c.HashTable
use backend_in_c.HashTable.Hash.{hash_string}
use backend_in_c.HashTable.Placed.{create-IsPlaced, insert-IsPlaced}
use backend_in_c.HashTable.{insert, lookup}
use backend_in_c.Database.Transaction.Isolation.{
  IsLive, CommitsBoth, commit-CommitsBoth, unrepeatable_read,
}
use backend_in_c.HashTable.Tests.{key_a, key_b, value_1, value_2, two_keys, two_keys-IsPlaced}
use backend_in_c.Wal
use backend_in_c.Wal.{entry_bytes, wal_entry_put}
use backend_in_c.Database.{
  Os, System, create, get, put, open_database, close_database, with_table, log,
}
use backend_in_c.Database.Operations.{put_lem}
use backend_in_c.Database.Failures.{put_unlogged}
use backend_in_c.Database.Durability.{
  Appends, put_step, Reach, started, written, new_system, running, open_lem, crash_recovery,
  close_loses,
}
use backend_in_c.Database.Transaction
use backend_in_c.Database.Transaction.{Transaction, serializable, read_committed, commit}
use backend_in_c.Database.Transaction.Laws.{get-commit, delete_unseen, commit_not_durable}

abbrev honest_os : Os
honest_os = record {
  open_wal = λ path. some 3;
  append = λ file bytes. file ++ bytes;
  truncate = λ file. some [];
  rewind = true;
  heap = record { uninit = λ i. 0; beyond = [] };
}

honest_os-Appends : Appends honest_os
honest_os-Appends file bytes = refl

abbrev dir : CString
dir = codes "/tmp/db"

-- An open store with two keys.
abbrev store : System
store = running 3 two_keys (new_system dir [])

-- A store opened on a new log.
abbrev fresh : System
fresh = running 3 (Wal.recover honest_os.heap [] (create dir).table) (new_system dir [])

-- The same store after a put.
abbrev wrote : System
wrote =
    with_table (log honest_os (entry_bytes wal_entry_put key_a value_1) fresh)
      (insert fresh.table key_a value_1)

fresh-Reach : Reach honest_os dir fresh
fresh-Reach = started (open_lem honest_os (new_system dir []) 3 (unfold create in refl) refl)

wrote-Reach : Reach honest_os dir wrote
wrote-Reach = written fresh-Reach (
    put_step key_a value_1 (omega arith, tt) (omega arith) (omega arith)
      (ap (λ (r : ErrorCode × Option System). r.1)
        (put_lem honest_os key_a value_1 fresh (omega arith))))

crash_recovery_example :
    open_database honest_os (some (new_system dir wrote.wal))
    ≡ (success, some (running 3 wrote.table (new_system dir wrote.wal)))
crash_recovery_example =
    crash_recovery honest_os dir 3 {s = wrote} honest_os-Appends refl wrote-Reach

close_loses_example :
    (s' : System) × ((close_database honest_os (some store)).1 ≡ some s')
    × (get (some key_a) (open_database honest_os (some (new_system dir s'.wal))).1
        ≡ (error_not_found, none))
close_loses_example = close_loses honest_os dir 3 store key_a refl refl refl refl

-- A transaction that has written `key_a` and `key_b`.
abbrev txn : Transaction
txn = record { txn_id = 1; level = serializable; writes = two_keys; committed = false }

get-commit_example :
    Transaction.get (some key_a) (some txn) store
    ≡ get (some key_a) (some (commit (some txn) store).2)
get-commit_example = get-commit txn store key_a refl two_keys-IsPlaced two_keys-IsPlaced

commit_not_durable_example :
    ((commit (some txn) wrote).0 ≡ success)
    × (open_database honest_os (some (new_system dir (commit (some txn) wrote).2.wal))
        ≡ (success, some (running 3 wrote.table (new_system dir wrote.wal))))
commit_not_durable_example =
    commit_not_durable honest_os dir 3 txn {s = wrote} honest_os-Appends refl wrote-Reach refl

-- Another transaction, which has written `key_b`.
abbrev other : Transaction
other = record {
  txn_id = 2;
  level = serializable;
  writes = insert (HashTable.create 4) key_b value_2;
  committed = false;
}

txn-IsLive : IsLive txn
txn-IsLive = record { open_still = refl; placed = two_keys-IsPlaced }

other-IsLive : IsLive other
other-IsLive = record {
  open_still = refl;
  placed = insert-IsPlaced (HashTable.create 4) key_b value_2 (create-IsPlaced 4 (omega arith));
}

other-unwritten : lookup other.writes key_a ≡ none
unfolding lookup insert hash_string HashTable.create str_eq
other-unwritten = refl

-- The store has `key_a`, which the transaction has not written.
delete_unseen_example :
    (txn' : Transaction) × (Transaction.delete (some key_a) (some other)
      ≡ (error_not_found, some txn'))
    × (get (some key_a) (some (commit (some txn') store).2) ≡ get (some key_a) (some store))
delete_unseen_example =
    delete_unseen other store key_a refl other-IsLive.placed two_keys-IsPlaced other-unwritten

commit-CommitsBoth_example :
    CommitsBoth txn other store (commit (some other) (commit (some txn) store).2).2
commit-CommitsBoth_example =
    commit-CommitsBoth txn other store txn-IsLive other-IsLive two_keys-IsPlaced

-- A transaction that has written another value under `key_a` than the store has.
abbrev change : Transaction
change = record {
  txn_id = 3;
  level = read_committed;
  writes = insert (HashTable.create 4) key_a value_2;
  committed = false;
}

change-IsLive : IsLive change
change-IsLive = record {
  open_still = refl;
  placed = insert-IsPlaced (HashTable.create 4) key_a value_2 (create-IsPlaced 4 (omega arith));
}

stored_a : lookup two_keys key_a ≡ some value_1
unfolding lookup insert hash_string HashTable.create str_eq
stored_a = refl

values_differ : lookup two_keys key_a ≢ some value_2
values_differ e = absurd (cc (e, stored_a))

unrepeatable_read_example :
    (Transaction.get (some key_a) (some other) store ≡ get (some key_a) (some store))
    × (Transaction.get (some key_a) (some other) (commit (some change) store).2
        ≡ (success, some value_2))
    × (Transaction.get (some key_a) (some other) store
        ≢ Transaction.get (some key_a) (some other) (commit (some change) store).2)
unfolding lookup insert hash_string HashTable.create str_eq
unrepeatable_read_example =
    unrepeatable_read other change store key_a value_2 change-IsLive two_keys-IsPlaced refl refl
      values_differ

-- A file system on which every write fails.
abbrev full_disk : Os
full_disk = record honest_os { append = λ file bytes. file }

put_unlogged_example :
    (s' : System) × (put full_disk (some key_b) (some value_2) (some wrote) ≡ (success, some s'))
    × (s'.table ≡ (HashTable.put wrote.table (some key_b) value_2).1)
    × (open_database honest_os (some (new_system dir s'.wal))
        ≡ (success, some (running 3 wrote.table (new_system dir wrote.wal))))
put_unlogged_example =
    put_unlogged honest_os full_disk dir 3 key_b value_2 {s = wrote} honest_os-Appends refl
      wrote-Reach (λ file bytes. refl) (omega arith)
