-- ===== src/Database/Failures.antt =====
-- Writes to the log of src/database/database.c that fail: nothing looks at what `write` returns.
use backend_in_c.Prelude.{
  ℕ, ◌≡◌, ◌<◌, refl, ap, ◌∙◌, some, inl, inr, Bool-cases, CString, Bytes, length, is_some,
}
use backend_in_c.Common.{success}
use backend_in_c.HashTable
use backend_in_c.Wal.{wal_entry_put, entry_bytes}
use backend_in_c.Database.{System, Os, open_database, put, log, wal_path, with_table}
use backend_in_c.Database.Operations.{put_lem}
use backend_in_c.Database.Durability.{Appends, Reach, crash_recovery, new_system, running}

-- Nothing is written.
abbrev pub Fails : Os → Type 0
Fails os = (file bytes : Bytes) → os.append file bytes ≡ file

log-Fails : (os : Os) (entry : Bytes) (s : System) → Fails os → (log os entry s).wal ≡ s.wal
unfolding log
log-Fails os entry s fails = elim (Bool-cases (is_some s.wal_fd)) [
  | inl has_fd ↦ rw has_fd (fails s.wal entry)
  | inr no_fd ↦ rw no_fd refl
]

-- A process opened the store on a new log and wrote to it within the sizes of the log's fields, without
-- a failure. A put then, of a value that is not empty, whose write to the log fails, succeeds and is in
-- the table; but when the process crashes, a new one that gets a descriptor for the log that is left
-- has the table from before the put.
pub put_unlogged :
    (os failing : Os) (dir : CString) (fd : ℕ) (k : CString) (v : Bytes) {s : System}
    → Appends os
    → os.open_wal (wal_path dir) ≡ some fd
    → Reach os dir s
    → Fails failing
    → 0 < length v
    → (s' : System) × (put failing (some k) (some v) (some s) ≡ (success, some s'))
      × (s'.table ≡ (HashTable.put s.table (some k) v).1)
      × (open_database os (some (new_system dir s'.wal))
          ≡ (success, some (running fd s.table (new_system dir s.wal))))
unfolding HashTable.put
put_unlogged os failing dir fd k v {s} honest e r fails nonempty =
    let same = log-Fails failing (entry_bytes wal_entry_put k v) s fails in
    (
      with_table (log failing (entry_bytes wal_entry_put k v) s) (HashTable.insert s.table k v),
      put_lem failing k v s nonempty,
      refl,
      ap (λ w. open_database os (some (new_system dir w))) same
          ∙ crash_recovery os dir fd {s = s} honest e r,
    )
