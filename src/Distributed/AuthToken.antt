-- ===== src/Distributed/AuthToken.antt =====
-- The tokens of src/distributed/distributed.c. The calls of `snprintf` and `sscanf` go by their
-- formats: `%s:%lu:%lu` out, at most 255 characters, and `%127[^:]:%lu:%lu` in.
pub mod Laws
use backend_in_c.Prelude.{
  ℕ, zero, suc, ◌+◌, ◌*◌, ◌%◌, [], ◌∷◌, ◌++◌, Option, none, some, Bool, true, false, CString,
  length, take, ltb, leb, ◌==◌, if◌then◌else◌,
}
use backend_in_c.Common.Words.{u64, sub64}
use backend_in_c.Common.Decimal.{print_lu, scan_lu}

pub record AuthToken : Type 0 where
  pub user_id : CString
  pub created_at : ℕ
  pub ttl_seconds : ℕ

-- `auth_token_create` at the time `now`
unfoldable pub create : ℕ → Option CString → ℕ → Option AuthToken
create now none ttl_seconds = none
create now (some user_id) ttl_seconds =
    some (record { user_id = user_id; created_at = now; ttl_seconds = ttl_seconds })

-- `auth_token_validate` at the time `now`; both the age and the lifetime in ms are uint64_t
unfoldable pub validate : ℕ → Option AuthToken → Bool
validate now none = false
validate now (some token) =
    let age_ms = sub64 now token.created_at in
    let ttl_ms = (token.ttl_seconds * 1000) % u64 in ltb age_ms ttl_ms

-- The text that `auth_token_serialize` prints, before it is cut to the buffer.
unfoldable pub printed : AuthToken → CString
printed token =
    token.user_id ++ (b':' ∷ (print_lu token.created_at ++ (b':' ∷ print_lu token.ttl_seconds)))

-- `auth_token_serialize`
unfoldable pub serialize : Option AuthToken → Option CString
serialize none = none
serialize (some token) = some (take 255 (printed token))

-- `%127[^:]`: at most so many characters up to a colon, and what follows
unfoldable pub scan_field : ℕ → CString → CString × CString
scan_field zero s = ([], s)
scan_field (suc n) [] = ([], [])
scan_field (suc n) (c ∷ s) =
    let (field, rest) = scan_field n s in if c == b':' then ([], c ∷ s) else (c ∷ field, rest)

-- a conversion behind a colon
scan_colon_lu : CString → Option (ℕ × CString)
scan_colon_lu [] = none
scan_colon_lu (c ∷ s) = if c == b':' then scan_lu s else none

-- the three conversions; a field of no characters is no match
unfoldable pub scan_token : CString × CString → Option AuthToken
unfolding scan_colon_lu
scan_token ([], rest) = none
scan_token (c ∷ user, rest) = elim (scan_colon_lu rest) [
  | none ↦ none
  | some (created_at, rest') ↦ elim (scan_colon_lu rest') [
    | none ↦ none
    | some (ttl_seconds, _) ↦
        some (record { user_id = c ∷ user; created_at = created_at; ttl_seconds = ttl_seconds })
  ]
]

-- `auth_token_deserialize`
unfoldable pub deserialize : Option CString → Option AuthToken
deserialize none = none
deserialize (some token_str) =
    if ltb 256 (length token_str) then none else scan_token (scan_field 127 token_str)

-- `auth_token_get_user_id`
unfoldable pub get_user_id : Option AuthToken → Option CString
get_user_id none = none
get_user_id (some token) = some token.user_id
