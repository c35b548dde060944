-- ===== src/Wal/Beyond.antt =====
-- Recovery of a file that no program of this repository wrote: `database_recover` of
-- src/database/database.c trusts that a NUL ends the key of an entry.
use backend_in_c.Prelude.{CString, Bytes, length}
use backend_in_c.Wal.{Header, wal_entry_put, type_code, wal_magic}

-- The header of a put whose key has no NUL.
abbrev pub open_header : CString → Bytes → Header
unfolding type_code
open_header key value = record {
  magic = wal_magic;
  type = type_code wal_entry_put;
  txn_id = 0;
  key_size = length key;
  value_size = length value;
}
