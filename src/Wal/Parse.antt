-- ===== src/Wal/Parse.antt =====
-- What `database_put` and `database_delete` write to the log, the loop of `database_recover` reads
-- back (src/database/database.c).
use backend_in_c.Prelude.{
  ℕ, ◌+◌, ◌^◌, ◌<◌, ◌≡◌, ◌≢◌, refl, [], ◌∷◌, ◌++◌, arith, CString, Bytes, length, take, drop, ap,
}
use backend_in_c.HashTable.Hash.{u32}
use backend_in_c.Wal.Words.{of_le_bytes-le_bytes}
use backend_in_c.Wal.{Header, header_size, header_bytes, header_of_bytes, c_string, read_into}

-- Every field is in the range of its type.
pub record FitsFields (h : Header) : Type 0 where
  pub magic : h.magic < u32
  pub type : h.type < u32
  pub txn_id : h.txn_id < 2 ^ 64
  pub key_size : h.key_size < u32
  pub value_size : h.value_size < u32

-- A header whose fields are in range is read back from its bytes, whatever follows them.
pub header-round_trip :
    (h : Header) (rest : Bytes)
    → FitsFields h
    → header_of_bytes (take header_size (header_bytes h ++ rest)) ≡ h
unfolding header_of_bytes header_bytes
header-round_trip h rest f = λ i. record {
  magic = of_le_bytes-le_bytes 4 h.magic f.magic i;
  type = of_le_bytes-le_bytes 4 h.type f.type i;
  txn_id = of_le_bytes-le_bytes 8 h.txn_id f.txn_id i;
  key_size = of_le_bytes-le_bytes 4 h.key_size f.key_size i;
  value_size = of_le_bytes-le_bytes 4 h.value_size f.value_size i;
}

pub drop-header : (h : Header) (rest : Bytes) → drop header_size (header_bytes h ++ rest) ≡ rest
unfolding header_bytes
drop-header h rest = refl

pub length-header :
    (h : Header) (rest : Bytes) → length (header_bytes h ++ rest) ≡ header_size + length rest
unfolding header_bytes
length-header h rest = omega arith

-- A buffer that lies whole in the file is filled from it.
pub read_into-append :
    (uninit : ℕ → ℕ) (bs rest : Bytes) → read_into uninit (length bs) (bs ++ rest) ≡ bs
unfolding read_into
read_into-append uninit [] rest = refl
read_into-append uninit (b ∷ bs) rest = ap (λ t. b ∷ t) (read_into-append uninit bs rest)

-- No byte of a C string is its terminator.
abbrev pub IsCString : CString → Type 0
IsCString [] = Unit {0}
IsCString (c ∷ s) = (c ≢ 0) × IsCString s

pub c_string-append : (s : CString) (rest : Bytes) → IsCString s → c_string (s ++ 0 ∷ rest) ≡ s
unfolding c_string
c_string-append [] rest h = refl
c_string-append (c ∷ s) rest h = ground (arith, c_string-append s rest h.1, h.0)
