-- ===== src/Wal.antt =====
-- The write-ahead log of src/database/database.c: the entries as they stand in the file, and the
-- loop of `database_recover` that reads them back into a table.
pub mod Words
pub mod Parse
pub mod Replay
pub mod Torn
pub mod Beyond
pub mod Tests
use backend_in_c.Prelude.{
  ℕ, zero, suc, ◌+◌, ◌-◌, ◌%◌, List, [], ◌∷◌, ◌++◌, Option, none, some, Bool, CString, Bytes,
  length, take, drop, ltb, ◌==◌, if◌then◌else◌,
}
use backend_in_c.HashTable.Hash.{u32}
use backend_in_c.HashTable.{Table, put, delete}
use Words.{le_bytes, of_le_bytes}

-- "WAL\0"
abbrev pub wal_magic : ℕ
wal_magic = 0x57414C00

pub data WalEntryType : Type 0 where
  wal_entry_put wal_entry_delete wal_entry_commit wal_entry_rollback : WalEntryType

-- the enum's numbers
unfoldable pub type_code : WalEntryType → ℕ
type_code wal_entry_put = 0
type_code wal_entry_delete = 1
type_code wal_entry_commit = 2
type_code wal_entry_rollback = 3

-- The fixed fields of `wal_entry_t`; `type` is the int of the enum.
pub record Header : Type 0 where
  pub magic : ℕ
  pub type : ℕ
  pub txn_id : ℕ
  pub key_size : ℕ
  pub value_size : ℕ

-- `sizeof(wal_entry_t)`: 4 + 4 + 8 + 4 + 4 bytes with no padding on a 64-bit target.
abbrev pub header_size : ℕ
header_size = 24

-- The header's bytes, little-endian; a field keeps as many bytes as its type has.
unfoldable pub header_bytes : Header → Bytes
unfolding le_bytes
header_bytes h =
    le_bytes 4 h.magic
    ++ (le_bytes 4 h.type
        ++ (le_bytes 8 h.txn_id ++ (le_bytes 4 h.key_size ++ le_bytes 4 h.value_size)))

unfoldable pub header_of_bytes : Bytes → Header
unfolding of_le_bytes
header_of_bytes b = record {
  magic = of_le_bytes (take 4 b);
  type = of_le_bytes (take 4 (drop 4 b));
  txn_id = of_le_bytes (take 8 (drop 8 b));
  key_size = of_le_bytes (take 4 (drop 16 b));
  value_size = of_le_bytes (take 4 (drop 20 b));
}

-- The entry that `database_put` and `database_delete` build: the key goes in with its NUL.
unfoldable pub entry_bytes : WalEntryType → CString → Bytes → Bytes
unfolding header_bytes type_code
entry_bytes type key value =
    header_bytes (record {
      magic = wal_magic;
      type = type_code type;
      txn_id = 0;
      key_size = length key + 1;
      value_size = length value;
    })
    ++ (key ++ (0 ∷ value))

-- The C string that starts at a buffer's first byte. Without a NUL the code reads on behind the buffer:
-- then `bytes` has to hold what lies there too.
unfoldable pub c_string : Bytes → CString
c_string [] = []
c_string (b ∷ bs) = if b == 0 then [] else b ∷ c_string bs

-- `read(fd, data, n)` into a fresh buffer of `n` bytes, at the end of the file as far as it goes:
-- the rest of the buffer keeps what `malloc` left in it.
unfoldable pub read_into : (ℕ → ℕ) → ℕ → Bytes → Bytes
read_into uninit zero file = []
read_into uninit (suc n) [] = uninit n ∷ read_into uninit n []
read_into uninit (suc n) (b ∷ file) = b ∷ read_into uninit n file

-- What the code finds in memory that it has not written: what `malloc` leaves in a buffer, and the
-- bytes behind the buffer, as far as they can be read (past them the program is killed, and here the
-- C string or the value ends).
pub record Heap : Type 0 where
  pub uninit : ℕ → ℕ
  pub beyond : Bytes

-- One turn of the loop after the header is read and its magic is right. `buffer` is the memory from
-- `data` on, with what lies behind the data: the code takes it from the header where the key ends and
-- how long the value is, and a key without NUL, or two sizes whose uint32_t sum wraps around, let it
-- read behind the data.
unfoldable pub apply_entry : Header → Bytes → Table → Table
unfolding c_string put delete
apply_entry header buffer table =
    let key = c_string buffer in
    if header.type == 0
    then (put table (some key) (take header.value_size (drop header.key_size buffer))).1
    else if header.type == 1
    then (delete table (some key)).1
    else table

-- The loop of `database_recover` from the offset where `file` is what is left of the log.
-- The two sizes are uint32_t, and so is their sum.
unfoldable pub recover_loop : Heap → ℕ → Bytes → Table → Table
recover_loop heap zero file table = table
recover_loop heap (suc fuel) file table =
    let header = header_of_bytes (take header_size file) in
    let body = drop header_size file in
    let data_size = (header.key_size + header.value_size) % u32 in
    let rest =
      recover_loop heap fuel (drop data_size body)
        (apply_entry header (read_into heap.uninit data_size body ++ heap.beyond) table) in
    if ltb (length file) header_size
    then table
    else if header.magic == wal_magic
    then rest
    else table

-- Each turn takes a header off the file, so there are never more turns than bytes.
unfoldable pub recover : Heap → Bytes → Table → Table
unfolding recover_loop header_of_bytes read_into apply_entry
recover heap file table = recover_loop heap (length file + 1) file table
