-- ===== src/Wal/Replay.antt =====
-- The log as a sequence of entries, and its recovery: `database_recover` of src/database/database.c
-- against the replay of the entries that were logged.
use backend_in_c.Prelude.{
  ℕ, zero, suc, ◌+◌, ◌%◌, ◌≤◌, ◌<◌, ◌≡◌, refl, ◌∙◌, List, [], ◌∷◌, ◌++◌, some, inl, inr, Bool-cases,
  length-drop, take-append, arith, CString, Bytes, length, take, drop, ap, length-append,
  drop-append, append_assoc, ltb,
}
use backend_in_c.HashTable.Hash.{u32}
use backend_in_c.HashTable.{Table, put, delete}
use backend_in_c.Wal.Parse.{
  FitsFields, header-round_trip, drop-header, length-header, read_into-append, IsCString,
  c_string-append,
}
use backend_in_c.Wal.{
  Header, Heap, WalEntryType, wal_entry_put, wal_entry_delete, wal_magic, header_size, type_code,
  header_bytes, header_of_bytes, entry_bytes, read_into, apply_entry, recover_loop, recover,
}

pub record LogEntry : Type 0 where
  pub type : WalEntryType
  pub key : CString
  pub value : Bytes

abbrev pub bytes_of : LogEntry → Bytes
bytes_of e = entry_bytes e.type e.key e.value

-- What an entry means for the table. No code writes the two entry types for transactions, and
-- recovery passes over them.
unfoldable pub effect : LogEntry → Table → Table
unfolding put delete
effect e t = elim e.type [
  | wal_entry_put ↦ (put t (some e.key) e.value).1
  | wal_entry_delete ↦ (delete t (some e.key)).1
  | _ ↦ t
]

abbrev pub replay : List LogEntry → Table → Table
replay [] t = t
replay (e ∷ es) t = replay es (effect e t)

abbrev pub file_of : List LogEntry → Bytes
file_of [] = []
file_of (e ∷ es) = bytes_of e ++ file_of es

-- The key is a C string, and the sizes of key and value fit their uint32_t sum.
pub record IsLoggable (e : LogEntry) : Type 0 where
  pub key : IsCString e.key
  pub small : length e.key + 1 + length e.value < u32

abbrev pub AllLoggable : List LogEntry → Type 0
AllLoggable [] = Unit {0}
AllLoggable (e ∷ es) = IsLoggable e × AllLoggable es

abbrev pub header_for : LogEntry → Header
header_for e = record {
  magic = wal_magic;
  type = type_code e.type;
  txn_id = 0;
  key_size = length e.key + 1;
  value_size = length e.value;
}

abbrev body_for : LogEntry → Bytes
body_for e = e.key ++ (0 ∷ e.value)

pub drop-key : (k v : Bytes) → drop (length k + 1) (k ++ (0 ∷ v)) ≡ v
drop-key [] v = refl
drop-key (b ∷ k) v =
    let e : suc (length k) + 1 ≡ suc (length k + 1) = omega arith in rw e (drop-key k v)

pub length-body : (k v : Bytes) → length (k ++ (0 ∷ v)) ≡ length k + 1 + length v
length-body k v = rw (length-append k (0 ∷ v)) (omega arith)

-- What recovery does with an entry whose header and data it has is what the entry means.
apply_entry-effect :
    (type : WalEntryType) (k : CString) (v beyond : Bytes) (t : Table)
    → IsCString k
    → let e : LogEntry = record { type = type; key = k; value = v } in
      apply_entry (header_for e) (body_for e ++ beyond) t ≡ effect e t
unfolding apply_entry effect type_code
apply_entry-effect wal_entry_put k v beyond t h = rw (
  append_assoc k (0 ∷ v) beyond,
  c_string-append k (v ++ beyond) h,
  drop-key k (v ++ beyond),
  take-append v beyond,
)
apply_entry-effect wal_entry_delete k v beyond t h =
    rw (append_assoc k (0 ∷ v) beyond, c_string-append k (v ++ beyond) h)
apply_entry-effect _ k v beyond t h = refl

type_code-lt : (type : WalEntryType) → type_code type < u32
unfolding type_code
type_code-lt type = ground arith

pub header_for-FitsFields : (e : LogEntry) → IsLoggable e → FitsFields (header_for e)
header_for-FitsFields e h = record {
  magic = omega arith;
  type = type_code-lt e.type;
  txn_id = omega arith;
  key_size = omega (arith, h.small);
  value_size = omega (arith, h.small);
}

-- One turn of the loop takes a header and its data off the log.
pub recover_loop-turn :
    (heap : Heap) (fuel : ℕ) (h : Header) (body rest : Bytes) (t : Table)
    → FitsFields h
    → h.magic ≡ wal_magic
    → length body ≡ (h.key_size + h.value_size) % u32
    → recover_loop heap (suc fuel) (header_bytes h ++ (body ++ rest)) t
      ≡ recover_loop heap fuel rest (apply_entry h (body ++ heap.beyond) t)
unfolding recover_loop
recover_loop-turn heap fuel h body rest t fits magic size =
    rw
      (
        header-round_trip h (body ++ rest) fits,
        drop-header h (body ++ rest),
        ← size,
        read_into-append heap.uninit body rest,
        drop-append body rest,
      )
      (ground (arith, length-header h (body ++ rest)))

-- One turn of the loop takes one whole entry off the log and applies it.
pub recover_loop-entry :
    (heap : Heap) (fuel : ℕ) (e : LogEntry) (rest : Bytes) (t : Table)
    → IsLoggable e
    → recover_loop heap (suc fuel) (bytes_of e ++ rest) t ≡ recover_loop heap fuel rest (effect e t)
unfolding entry_bytes
recover_loop-entry heap fuel e rest t h = rw append_assoc (
    recover_loop-turn heap fuel (header_for e) (body_for e) rest t (header_for-FitsFields e h) refl
      (rw (length-body e.key e.value) (omega (arith, h.small)))
    ∙ ap (recover_loop heap fuel rest)
        (apply_entry-effect e.type e.key e.value heap.beyond t h.key))

-- What is left at the end, too short for a header, stops the loop.
pub recover_loop-tail :
    (heap : Heap) (fuel : ℕ) (tail : Bytes) (t : Table)
    → length tail < header_size
    → recover_loop heap fuel tail t ≡ t
unfolding recover_loop
recover_loop-tail heap zero tail t h = refl
recover_loop-tail heap (suc fuel) tail t h = ground arith

recover_loop-replay :
    (heap : Heap) (fuel : ℕ) (es : List LogEntry) (tail : Bytes) (t : Table)
    → AllLoggable es
    → length tail < header_size
    → length es ≤ fuel
    → recover_loop heap fuel (file_of es ++ tail) t ≡ replay es t
recover_loop-replay heap fuel [] tail t h short enough = recover_loop-tail heap fuel tail t short
recover_loop-replay heap zero (e ∷ es) tail t h short enough = absurd (omega arith)
recover_loop-replay heap (suc fuel) (e ∷ es) tail t h short enough = rw append_assoc (
    recover_loop-entry heap fuel e (file_of es ++ tail) t h.0
    ∙ recover_loop-replay heap fuel es tail (effect e t) h.1 short (omega arith))

pub length-file_of : (es : List LogEntry) → length es ≤ length (file_of es)
unfolding entry_bytes header_bytes
length-file_of [] = omega arith
length-file_of (e ∷ es) = rw length-append (omega (arith, length-file_of es))

-- Recovery of a log of entries whose keys are C strings and whose sizes fit uint32_t, ending in
-- fewer bytes than a header, applies exactly those entries, in order, whatever `malloc` leaves in
-- its buffers and whatever lies behind them.
pub recover-replay :
    (heap : Heap) (es : List LogEntry) (tail : Bytes) (t : Table)
    → AllLoggable es
    → length tail < header_size
    → recover heap (file_of es ++ tail) t ≡ replay es t
unfolding recover
recover-replay heap es tail t h short =
    recover_loop-replay heap (length (file_of es ++ tail) + 1) es tail t h short
      (rw length-append (omega (arith, length-file_of es)))

-- With as much fuel as there are bytes the loop has ended by itself: more fuel changes nothing.
pub recover_loop-fuel :
    (heap : Heap) (fuel more : ℕ) (file : Bytes) (t : Table)
    → length file < fuel
    → recover_loop heap (fuel + more) file t ≡ recover_loop heap fuel file t
unfolding recover_loop
recover_loop-fuel heap zero more file t h = absurd (omega arith)
recover_loop-fuel heap (suc fuel) more file t h =
    let header = header_of_bytes (take header_size file) in
    let body = drop header_size file in
    let data_size = (header.key_size + header.value_size) % u32 in
    let e : suc fuel + more ≡ suc (fuel + more) = omega arith in
    rw e (elim (Bool-cases (ltb (length file) header_size)) [
      | inl stop ↦ rw stop
      | inr go ↦ rw (
        go,
        recover_loop-fuel heap fuel more (drop data_size body)
            (apply_entry header (read_into heap.uninit data_size body ++ heap.beyond) t)
            (ground (arith, length-drop data_size body, length-drop header_size file)),
      )
    ])
