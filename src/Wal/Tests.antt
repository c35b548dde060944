-- ===== src/Wal/Tests.antt =====
-- A small log, and the laws of the write-ahead log at it.
use backend_in_c.Prelude.{◌≡◌, refl, List, [], ◌∷◌, ◌++◌, some, take, Bytes, arith}
use backend_in_c.HashTable.{create, put}
use backend_in_c.HashTable.Tests.{key_a, key_b, value_1, value_2}
use backend_in_c.Wal.{Heap, wal_entry_put, wal_entry_delete, header_bytes, read_into, recover}
use backend_in_c.Wal.Torn.{recover_torn}
use backend_in_c.Wal.Replay.{LogEntry, AllLoggable, header_for, file_of, replay, recover-replay}

abbrev heap : Heap
heap = record { uninit = λ i. i; beyond = 5 ∷ [] }

abbrev log_entries : List LogEntry
log_entries =
    record { type = wal_entry_put; key = key_a; value = value_1 }
    ∷ record { type = wal_entry_put; key = key_b; value = value_2 }
    ∷ record { type = wal_entry_delete; key = key_a; value = [] }
    ∷ []

log_entries-AllLoggable : AllLoggable log_entries
log_entries-AllLoggable = (
  record { key = (omega arith, tt); small = omega arith },
  (
    record { key = (omega arith, tt); small = omega arith },
    (record { key = (omega arith, tt); small = omega arith }, tt),
  ),
)

abbrev torn : Bytes
torn = 0 ∷ 76 ∷ 65 ∷ []

recover-replay_example :
    recover heap (file_of log_entries ++ torn) (create 8) ≡ replay log_entries (create 8)
recover-replay_example =
    recover-replay heap log_entries torn (create 8) log_entries-AllLoggable (omega arith)

-- Of the value [7, 8, 9] only the 7 got into the log: `malloc` has left a 1 and a 0 for the rest.
recover_torn_example :
    recover heap
      (file_of log_entries
        ++ (header_bytes
              (header_for (record { type = wal_entry_put; key = key_b; value = 7 ∷ 8 ∷ 9 ∷ [] }))
            ++ (key_b ++ 0 ∷ take 1 (7 ∷ 8 ∷ 9 ∷ []))))
      (create 8)
    ≡ (put
        (replay log_entries (create 8))
        (some key_b)
        (read_into heap.uninit 3 (take 1 (7 ∷ 8 ∷ 9 ∷ [])))).1
recover_torn_example =
    recover_torn heap log_entries key_b (7 ∷ 8 ∷ 9 ∷ []) 1 (create 8) log_entries-AllLoggable
      (record { key = (omega arith, tt); small = omega arith }) (omega arith)

torn_value : read_into heap.uninit 3 (take 1 (7 ∷ 8 ∷ 9 ∷ [])) ≡ 7 ∷ 1 ∷ 0 ∷ []
unfolding read_into
torn_value = refl
