-- ===== src/Http/Request.antt =====
-- The requests of src/http/http_parser.c and their headers. The name and the value of a header are
-- pointers that may be NULL: `http_request_parse` allocates more headers than it fills where a line
-- has no colon.
use backend_in_c.Prelude.{
  ◌+◌, List, [], ◌∷◌, ◌++◌, Option, none, some, ◌&&◌, CString, Bytes, leb, map, str_eq,
  if◌then◌else◌, ℕ,
}
use backend_in_c.Common.{ErrorCode, success, error_invalid_param}
use backend_in_c.Http.{Method, http_unknown, Version, http_version_unknown}

pub record Header : Type 0 where
  pub name : Option CString
  pub value : Option CString

pub record Request : Type 0 where
  pub method : Method
  pub version : Version
  pub uri : Option CString
  pub path : Option CString
  pub query : Option CString
  pub headers : List Header
  pub body : Option Bytes

-- `http_request_create`
unfoldable pub request_create : Request
request_create = record {
  method = http_unknown;
  version = http_version_unknown;
  uri = none;
  path = none;
  query = none;
  headers = [];
  body = none;
}

-- `http_request_add_header`
unfoldable pub add_header :
    Option CString → Option CString → Option Request → ErrorCode × Option Request
add_header (some name) (some value) (some r) = (
  success,
  some (record r { headers = r.headers ++ record { name = some name; value = some value } ∷ [] }),
)
add_header name value r = (error_invalid_param, r)

-- `tolower` in the C locale
unfoldable pub to_lower : ℕ → ℕ
to_lower c = if leb 65 c && leb c 90 then c + 32 else c

-- What a search for a header gives: `strcasecmp` of a name that is NULL has no defined result.
pub data Found : Type 0 where
  undefined : Found
  found : Option CString → Found

-- The loop of `http_request_get_header`.
unfoldable pub find_header : CString → List Header → Found
unfolding to_lower
find_header name [] = found none
find_header name (h ∷ hs) =
    let rest = find_header name hs in
    elim h.name [
      | none ↦ undefined
      | some n ↦ if str_eq (map to_lower n) (map to_lower name) then found h.value else rest
    ]

-- `http_request_get_header`
unfoldable pub get_header : Option CString → Option Request → Found
unfolding find_header
get_header (some name) (some r) = find_header name r.headers
get_header name r = found none
