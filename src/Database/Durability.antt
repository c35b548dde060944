-- ===== src/Database/Durability.antt =====
-- What the write-ahead log of src/database/database.c keeps across a crash, and what a clean close
-- drops.
use backend_in_c.Prelude.{
  ℕ, ◌+◌, ◌<◌, ◌≡◌, refl, ◌∙◌, sym, ap, subst, inl, inr, Option-cases, some_inj, List, [], ◌∷◌,
  ◌++◌, Option, none, some, true, false, CString, Bytes, length, is_some, arith, append_assoc,
  append-nil,
}
use backend_in_c.Common.{ErrorCode, success, error_not_found, error_io}
use backend_in_c.HashTable
use backend_in_c.HashTable.Hash.{u32}
use backend_in_c.HashTable.{Table}
use backend_in_c.HashTable.Laws.{lookup-create}
use backend_in_c.Wal
use backend_in_c.Wal.{wal_entry_put, wal_entry_delete, entry_bytes}
use backend_in_c.Wal.Parse.{IsCString}
use backend_in_c.Wal.Replay.{
  LogEntry, IsLoggable, AllLoggable, bytes_of, file_of, effect, replay, recover-replay,
}
use backend_in_c.Database.{
  Os, System, create, log, recover, put, get, delete, open_database, close_database, closed,
  checkpoint, wal_path, with_table,
}
use backend_in_c.Database.Operations.{put_lem, delete_lem, answer, get-answer}

file_of-append : (es ds : List LogEntry) → file_of (es ++ ds) ≡ file_of es ++ file_of ds
file_of-append [] ds = refl
file_of-append (e ∷ es) ds = rw (file_of-append es ds, append_assoc)

replay-append : (es ds : List LogEntry) (t : Table) → replay (es ++ ds) t ≡ replay ds (replay es t)
replay-append [] ds t = refl
replay-append (e ∷ es) ds t = replay-append es ds (effect e t)

AllLoggable-append :
    (es ds : List LogEntry) → AllLoggable es → AllLoggable ds → AllLoggable (es ++ ds)
AllLoggable-append [] ds h k = k
AllLoggable-append (e ∷ es) ds h k = (h.0, AllLoggable-append es ds h.1 k)

-- A `write` to the log, opened with O_APPEND, that does not fail.
abbrev pub Appends : Os → Type 0
Appends os = (file bytes : Bytes) → os.append file bytes ≡ file ++ bytes

-- The log holds entries whose replay into an empty table gives the table.
pub record IsLogged (s : System) : Type 0 where
  pub fd : is_some s.wal_fd ≡ true
  pub log_entries : List LogEntry
  pub loggable : AllLoggable log_entries
  pub file : s.wal ≡ file_of log_entries
  pub replayed : s.table ≡ replay log_entries (HashTable.create 1024)

-- One more entry in the log and its effect on the table keep the log in step.
step-IsLogged :
    (os : Os) (e : LogEntry) (s : System)
    → Appends os
    → IsLoggable e
    → IsLogged s
    → IsLogged (with_table (log os (bytes_of e) s) (effect e s.table))
unfolding log
step-IsLogged os e s honest small h = rw h.fd (record {
  fd = h.fd;
  log_entries = h.log_entries ++ e ∷ [];
  loggable = AllLoggable-append h.log_entries (e ∷ []) h.loggable (small, tt);
  file =
      honest s.wal (bytes_of e)
      ∙ ap (λ w. w ++ bytes_of e) h.file
      ∙ sym (
          file_of-append h.log_entries (e ∷ [])
          ∙ ap (λ b. file_of h.log_entries ++ b) (append-nil (bytes_of e)));
  replayed = rw (replay-append h.log_entries (e ∷ [])) (ap (effect e) h.replayed);
})

-- A successful put, and a delete whatever its result, under a key that is a C string and with sizes
-- that fit the log's fields.
pub data Write (os : Os) (s s' : System) : Type 0 where
  put_step :
      (k : CString) (v : Bytes)
      → IsCString k
      → 0 < length v
      → length k + 1 + length v < u32
      → (put os (some k) (some v) (some s)).1 ≡ some s'
      → Write os s s'
  delete_step :
      (k : CString)
      → IsCString k
      → length k + 1 < u32
      → (delete os (some k) (some s)).1 ≡ some s'
      → Write os s s'

abbrev pub new_system : CString → Bytes → System
new_system dir wal = record { db = create dir; wal = wal }

-- The states of a process that opened the store on a new log and then wrote to it.
pub data Reach (os : Os) (dir : CString) : System → Type 0 where
  started :
      {s : System}
      → open_database os (some (new_system dir [])) ≡ (success, some s)
      → Reach os dir s
  written : {s s' : System} → Reach os dir s → Write os s s' → Reach os dir s'

Write-IsLogged : (os : Os) {s s' : System} → Appends os → Write os s s' → IsLogged s → IsLogged s'
unfolding effect HashTable.put
Write-IsLogged os {s} {s'} honest (put_step k v cs pos small e) h =
    let entry : LogEntry = record { type = wal_entry_put; key = k; value = v } in
    subst IsLogged
      (some_inj (sym (ap (λ (r : ErrorCode × Option System). r.1) (put_lem os k v s pos)) ∙ e))
      (step-IsLogged os entry s honest (record { key = cs; small = small }) h)
Write-IsLogged os {s} {s'} honest (delete_step k cs small e) h =
    let entry : LogEntry = record { type = wal_entry_delete; key = k; value = [] } in
    subst IsLogged
      (some_inj (sym (ap (λ (r : ErrorCode × Option System). r.1) (delete_lem os k s)) ∙ e))
      (step-IsLogged os entry s honest (record { key = cs; small = omega arith }) h)

abbrev pub running : ℕ → Table → System → System
running fd t s = record s { db = record s.db { table = t; wal_fd = some fd; is_open = true } }

-- Opening replays the log onto the table of the handle.
pub open_lem :
    (os : Os) (s : System) (fd : ℕ)
    → s.is_open ≡ false
    → os.open_wal (wal_path s.data_dir) ≡ some fd
    → open_database os (some s) ≡ (success, some (running fd (Wal.recover os.heap s.wal s.table) s))
unfolding open_database recover
open_lem os s fd shut e = rw (shut, e) refl

open_fails :
    (os : Os) (s : System)
    → s.is_open ≡ false
    → os.open_wal (wal_path s.data_dir) ≡ none
    → (open_database os (some s)).0 ≡ error_io
unfolding open_database
open_fails os s shut e = rw (shut, e) refl

create-shut : (dir : CString) → (create dir).is_open ≡ false
unfolding create
create-shut dir = refl

create-dir : (dir : CString) → (create dir).data_dir ≡ dir
unfolding create
create-dir dir = refl

create-table : (dir : CString) → (create dir).table ≡ HashTable.create 1024
unfolding create
create-table dir = refl

running-IsLogged :
    (os : Os) (dir : CString) (fd : ℕ)
    → IsLogged (running fd (Wal.recover os.heap [] (create dir).table) (new_system dir []))
running-IsLogged os dir fd = record {
  fd = refl;
  log_entries = [];
  loggable = tt;
  file = refl;
  replayed = recover-replay os.heap [] [] (create dir).table tt (omega arith) ∙ create-table dir;
}

started-IsLogged :
    (os : Os) (dir : CString) {s : System}
    → open_database os (some (new_system dir [])) ≡ (success, some s)
    → IsLogged s
started-IsLogged os dir {s} e = elim (Option-cases (os.open_wal (wal_path (create dir).data_dir))) [
  | inl no_fd ↦ cc (e, open_fails os (new_system dir []) (create-shut dir) no_fd)
  | inr (fd, got) ↦
      subst IsLogged
        (some_inj (
          ap (λ (r : ErrorCode × Option System). r.1)
            (sym (open_lem os (new_system dir []) fd (create-shut dir) got) ∙ e)))
        (running-IsLogged os dir fd)
]

-- In every state of a process that opened the store on a new log, whose writes do not fail, and then
-- put and deleted keys, with keys that are C strings, values that are not empty and sizes that fit
-- the log's fields, the log is open and holds entries that recovery can read and whose replay into an
-- empty table gives the table.
pub Reach-IsLogged :
    (os : Os) (dir : CString) {s : System} → Appends os → Reach os dir s → IsLogged s
Reach-IsLogged os dir honest (started e) = started-IsLogged os dir e
Reach-IsLogged os dir honest (written r w) =
    Write-IsLogged os honest w (Reach-IsLogged os dir honest r)

-- A process opens the store on a new log, whose writes do not fail, puts and deletes keys in any
-- order, with keys that are C strings, values that are not empty and sizes that fit the log's fields,
-- and crashes. A new process that gets a descriptor for the log that is left opens the store with
-- success, and has the very table of the one that crashed.
pub crash_recovery :
    (os : Os) (dir : CString) (fd : ℕ) {s : System}
    → Appends os
    → os.open_wal (wal_path dir) ≡ some fd
    → Reach os dir s
    → open_database os (some (new_system dir s.wal))
      ≡ (success, some (running fd s.table (new_system dir s.wal)))
crash_recovery os dir fd {s} honest e r =
    let h = Reach-IsLogged os dir honest r in
    open_lem os (new_system dir s.wal) fd (create-shut dir) (rw (create-dir dir) e)
    ∙ ap (λ t. (success, some (running fd t (new_system dir s.wal))))
        (ap (λ w. Wal.recover os.heap w (create dir).table)
            (h.file ∙ sym (append-nil (file_of h.log_entries)))
          ∙ recover-replay os.heap h.log_entries [] (create dir).table h.loggable (omega arith)
          ∙ ap (replay h.log_entries) (create-table dir)
          ∙ sym h.replayed)

-- A clean close of an open store whose log can be truncated, and can be opened again, empties the
-- log, although nothing else keeps the table: whatever the table held, a new process that opens the
-- store finds no key.
pub close_loses :
    (os : Os) (dir : CString) (fd : ℕ) (s : System) (k : CString)
    → s.is_open ≡ true
    → is_some s.wal_fd ≡ true
    → os.truncate s.wal ≡ some []
    → os.open_wal (wal_path dir) ≡ some fd
    → (s' : System) × ((close_database os (some s)).1 ≡ some s')
      × (get (some k) (open_database os (some (new_system dir s'.wal))).1 ≡ (error_not_found, none))
unfolding close_database checkpoint
close_loses os dir fd s k is_open has_fd empties e = (
  closed (record s { wal = [] }),
  rw (is_open, has_fd, empties) refl,
  rw (open_lem os (new_system dir []) fd (create-shut dir) (rw (create-dir dir) e)) (
      get-answer k _
      ∙ ap (λ t. answer (HashTable.lookup t k))
          (recover-replay os.heap [] [] (create dir).table tt (omega arith) ∙ create-table dir)
      ∙ ap answer (lookup-create 1024 k)),
)
