-- ===== src/Common.antt =====
-- include/common.h: the error codes that every component returns; src/common/common.c:
-- `safe_strdup`, `safe_strcmp` and the reading of the clock; the other wrappers are in `Blocks`. The
-- clock itself is the operating system's, so an operation takes each reading of it as an argument.
pub mod Words
pub mod Decimal
pub mod Blocks
pub mod Nodes
use backend_in_c.Prelude.{
  ℕ, suc, zero, ◌+◌, ◌*◌, ◌/◌, ◌%◌, ◌-◌, [], ◌∷◌, Option, none, some, CString, ltb, ◌==◌,
  if◌then◌else◌,
}
use Words.{u64, ℤ, pos, negsuc}

pub data ErrorCode : Type 0 where
  success error_memory error_invalid_param error_not_found error_already_exists : ErrorCode
  error_io error_full error_empty error_timeout : ErrorCode

-- The int that the enum gives a code.
unfoldable pub int_of : ErrorCode → ℤ
int_of success = pos 0
int_of error_memory = negsuc 0
int_of error_invalid_param = negsuc 1
int_of error_not_found = negsuc 2
int_of error_already_exists = negsuc 3
int_of error_io = negsuc 4
int_of error_full = negsuc 5
int_of error_empty = negsuc 6
int_of error_timeout = negsuc 7

-- A copy, or NULL of NULL; the call does not return where the allocation fails.
unfoldable pub safe_strdup : Option CString → Option CString
safe_strdup none = none
safe_strdup (some s) = some s

-- The sign of `strcmp`, which compares bytes as unsigned chars.
unfoldable pub strcmp : CString → CString → ℤ
strcmp [] [] = pos 0
strcmp [] (y ∷ b) = negsuc 0
strcmp (x ∷ a) [] = pos 1
strcmp (x ∷ a) (y ∷ b) = if x == y then strcmp a b else if ltb x y then negsuc 0 else pos 1

-- NULL comes before every string.
unfoldable pub safe_strcmp : Option CString → Option CString → ℤ
unfolding strcmp
safe_strcmp none none = pos 0
safe_strcmp none (some b) = negsuc 0
safe_strcmp (some a) none = pos 1
safe_strcmp (some a) (some b) = strcmp a b

-- `get_timestamp_ms`, from the two fields that `clock_gettime` fills.
unfoldable pub timestamp_ms : ℕ → ℕ → ℕ
timestamp_ms tv_sec tv_nsec = (tv_sec * 1000 + tv_nsec / 1_000_000) % u64
