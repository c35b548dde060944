-- ===== src/Database/Transaction/Laws.antt =====
-- What a transaction of src/database/database.c reads, what its commit does, and what neither does.
use backend_in_c.Prelude.{
  ℕ, ◌≤◌, ◌≡◌, refl, ◌∙◌, ap, [], ◌∷◌, Option, none, some, false, CString, Bytes, arith,
  str_eq_refl, or_else,
}
use backend_in_c.Common.{ErrorCode, success, error_not_found}
use backend_in_c.HashTable
use backend_in_c.Assoc.{Assoc, find, count, find-eq-none}
use backend_in_c.HashTable.Placed.{IsPlaced, insert-IsPlaced, find-entries, count-entries-le}
use backend_in_c.HashTable.Laws.{lookup-insert, delete-Deletes}
use backend_in_c.HashTable.{Table, lookup, insert, entries}
use backend_in_c.Database
use backend_in_c.Database.Operations.{answer, get-answer}
use backend_in_c.Database.{System, Os, open_database, wal_path, with_table}
use backend_in_c.Database.Durability.{Appends, Reach, crash_recovery, new_system, running}
use backend_in_c.Database.Transaction.{Transaction, apply_writes, commit, get, delete}

apply_writes-IsPlaced : (es : Assoc Bytes) (t : Table) → IsPlaced t → IsPlaced (apply_writes es t)
unfolding apply_writes HashTable.put
apply_writes-IsPlaced [] t h = h
apply_writes-IsPlaced ((k, v) ∷ es) t h =
    apply_writes-IsPlaced es (insert t k v) (insert-IsPlaced t k v h)

-- With one entry to a key, the order of the writes is of no account.
lookup-apply_writes :
    (es : Assoc Bytes) (t : Table) (q : CString)
    → IsPlaced t
    → count q es ≤ 1
    → lookup (apply_writes es t) q ≡ or_else (find q es) (lookup t q)
unfolding apply_writes HashTable.put find count
lookup-apply_writes [] t q h once = refl
lookup-apply_writes ((k, v) ∷ es) t q h once =
    rw
      (
        lookup-apply_writes es (insert t k v) q (insert-IsPlaced t k v h) (omega arith),
        lookup-insert t k q v h,
      )
      (ground (arith, find-eq-none q es))

-- What a successful commit leaves.
pub record Commits (txn : Transaction) (s : System) (r : ErrorCode × Option Transaction × System)
    : Type 0 where
  pub code : r.0 ≡ success
  pub freed : r.1 ≡ none
  pub kept : IsPlaced r.2.table
  pub reads : (q : CString) → lookup r.2.table q ≡ or_else (lookup txn.writes q) (lookup s.table q)
  pub log : r.2.wal ≡ s.wal
  pub count : r.2.next_txn_id ≡ s.next_txn_id

-- The commit of a live transaction, its write set and the store well-formed, succeeds, frees the
-- transaction and keeps the store well-formed; every key then reads as in the write set if it is
-- there, and as before otherwise; nothing is written to the log.
pub commit-Commits :
    (txn : Transaction) (s : System)
    → txn.committed ≡ false
    → IsPlaced txn.writes
    → IsPlaced s.table
    → Commits txn s (commit (some txn) s)
unfolding commit
commit-Commits txn s live w h = rw live (record {
  code = refl;
  freed = refl;
  kept = apply_writes-IsPlaced (entries txn.writes) s.table h;
  reads = λ q.
      lookup-apply_writes (entries txn.writes) s.table q h (count-entries-le txn.writes q w)
      ∙ ap (λ o. or_else o (lookup s.table q)) (find-entries txn.writes q w);
  log = refl;
  count = refl;
})

pub get-or_else :
    (txn : Transaction) (s : System) (q : CString)
    → get (some q) (some txn) s ≡ answer (or_else (lookup txn.writes q) (lookup s.table q))
unfolding get HashTable.get
get-or_else txn s q = ground (arith, get-answer q s)

-- What a live transaction reads, its write set and the store well-formed, is what a get reads from
-- the store once the transaction is committed.
pub get-commit :
    (txn : Transaction) (s : System) (q : CString)
    → txn.committed ≡ false
    → IsPlaced txn.writes
    → IsPlaced s.table
    → get (some q) (some txn) s ≡ Database.get (some q) (some (commit (some txn) s).2)
get-commit txn s q live w h =
    rw (get-or_else txn s q, get-answer q, (commit-Commits txn s live w h).reads q)

-- A delete, in a live transaction with a well-formed write set, of a key that it has not written
-- itself reports that there is no such key, and after the commit the store holds the key as before.
pub delete_unseen :
    (txn : Transaction) (s : System) (k : CString)
    → txn.committed ≡ false
    → IsPlaced txn.writes
    → IsPlaced s.table
    → lookup txn.writes k ≡ none
    → (txn' : Transaction) × (delete (some k) (some txn) ≡ (error_not_found, some txn'))
      × (Database.get (some k) (some (commit (some txn') s).2) ≡ Database.get (some k) (some s))
unfolding delete
delete_unseen txn s k live w h absent =
    let d = delete-Deletes txn.writes k w in
    let txn' : Transaction = record txn { writes = (HashTable.delete txn.writes (some k)).1 } in
    (
      txn',
      ground (arith, d.code),
      rw (get-answer k, get-answer k)
          (ap answer (
            (commit-Commits txn' s live d.kept h).reads k
            ∙ ground (arith, d.reads k, str_eq_refl k))),
    )

-- A store that a process opened on a new log, whose writes do not fail, and wrote to within the sizes
-- of the log's fields commits a live transaction with success, and the process crashes. A new process
-- that gets a descriptor for the log that is left has the table from before the commit.
pub commit_not_durable :
    (os : Os) (dir : CString) (fd : ℕ) (txn : Transaction) {s : System}
    → Appends os
    → os.open_wal (wal_path dir) ≡ some fd
    → Reach os dir s
    → txn.committed ≡ false
    → ((commit (some txn) s).0 ≡ success)
      × (open_database os (some (new_system dir (commit (some txn) s).2.wal))
          ≡ (success, some (running fd s.table (new_system dir s.wal))))
unfolding commit
commit_not_durable os dir fd txn {s} honest e r live =
    rw live (refl, crash_recovery os dir fd honest e r)
