-- ===== src/Http.antt =====
-- src/http/http_parser.c: the names of the methods, and the responses with their serialization. A
-- header of a response comes from `http_response_add_header`, so its name and value are no NULL.
-- The requests are in `Request`, and their parsing in `Parse`.
pub mod Methods
pub mod Request
pub mod Parse
pub mod Cut
pub mod Lines
pub mod Message
pub mod RoundTrip
pub mod Blocks
pub mod Destroy
pub mod Leaks
pub mod Responses
pub mod Serialize
pub mod Tests
use backend_in_c.Prelude.{
  ℕ, ◌+◌, ◌-◌, ◌<◌, List, [], ◌∷◌, ◌++◌, Option, none, some, Bool, true, false, ◌||◌, CString,
  Bytes, codes, length, take, ltb, str_eq, if◌then◌else◌,
}
use backend_in_c.Common.{ErrorCode, success, error_invalid_param}
use backend_in_c.Common.Words.{ℤ, pos, negsuc, sub64}
use backend_in_c.Common.Decimal.{print_lu}

pub data Method : Type 0 where
  http_get http_post http_put http_delete http_head http_options http_patch http_unknown : Method

pub data Version : Type 0 where
  http_1_0 http_1_1 http_2_0 http_version_unknown : Version

-- `http_method_to_string`
unfoldable pub method_to_string : Method → CString
method_to_string http_get = codes "GET"
method_to_string http_post = codes "POST"
method_to_string http_put = codes "PUT"
method_to_string http_delete = codes "DELETE"
method_to_string http_head = codes "HEAD"
method_to_string http_options = codes "OPTIONS"
method_to_string http_patch = codes "PATCH"
method_to_string http_unknown = codes "UNKNOWN"

-- `http_method_from_string`
unfoldable pub method_from_string : Option CString → Method
method_from_string none = http_unknown
method_from_string (some s) =
    if str_eq s (codes "GET")
    then http_get
    else if str_eq s (codes "POST")
    then http_post
    else if str_eq s (codes "PUT")
    then http_put
    else if str_eq s (codes "DELETE")
    then http_delete
    else if str_eq s (codes "HEAD")
    then http_head
    else if str_eq s (codes "OPTIONS")
    then http_options
    else if str_eq s (codes "PATCH")
    then http_patch
    else http_unknown

-- A body that is NULL is the body of no bytes.
pub record Response : Type 0 where
  pub version : Version
  pub status_code : ℤ
  pub status_message : CString
  pub headers : List (CString × CString)
  pub body : Bytes

-- `http_response_create`
unfoldable pub response_create : ℤ → Option CString → Response
response_create status_code status_message = record {
  version = http_1_1;
  status_code = status_code;
  status_message = elim status_message [ some s ↦ s | none ↦ codes "OK" ];
  headers = [];
  body = [];
}

-- `http_response_add_header`
unfoldable pub add_header :
    Option CString → Option CString → Option Response → ErrorCode × Option Response
add_header (some name) (some value) (some r) =
    (success, some (record r { headers = r.headers ++ (name, value) ∷ [] }))
add_header name value r = (error_invalid_param, r)

-- `http_response_set_body`; the length is that of the buffer
unfoldable pub set_body : Option Bytes → Option Response → ErrorCode × Option Response
set_body body none = (error_invalid_param, none)
set_body none (some r) = (success, some (record r { body = [] }))
set_body (some body) (some r) = (success, some (record r { body = body }))

-- `%d`
unfoldable pub print_d : ℤ → CString
print_d (pos n) = print_lu n
print_d (negsuc n) = b'-' ∷ print_lu (n + 1)

abbrev pub crlf : CString
crlf = 13 ∷ 10 ∷ []

unfoldable pub status_line : Response → CString
unfolding print_d
status_line r = codes "HTTP/1.1 " ++ (print_d r.status_code ++ (b' ' ∷ (r.status_message ++ crlf)))

abbrev pub header_line : CString × CString → CString
header_line (name, value) = name ++ (b':' ∷ b' ' ∷ (value ++ crlf))

-- The buffer while it is filled: the text in it, the offset for the next write, and whether a write
-- went past its end.
pub record Output : Type 0 where
  pub text : Bytes
  pub offset : ℕ
  pub overrun : Bool

-- `offset += snprintf(buffer + offset, size - offset, …)`
unfoldable pub append_text : ℕ → CString → Output → Output
append_text size t o =
    let limit = sub64 size o.offset in
    record {
      text = o.text ++ (if ltb (length t) limit then t else take (limit - 1) t);
      offset = o.offset + length t;
      overrun =
          o.overrun || ltb size (o.offset + (if ltb (length t) limit then length t + 1 else limit));
    }

-- `memcpy(buffer + offset, body, body_length)`
unfoldable pub append_bytes : ℕ → Bytes → Output → Output
append_bytes size bytes o = record {
  text = o.text ++ bytes;
  offset = o.offset + length bytes;
  overrun = o.overrun || ltb size (o.offset + length bytes);
}

unfoldable pub append_headers : ℕ → List (CString × CString) → Output → Output
append_headers size [] o = o
append_headers size (h ∷ hs) o = append_headers size hs (append_text size (header_line h) o)

unfoldable pub headers_size : List (CString × CString) → ℕ
headers_size [] = 0
headers_size ((name, value) ∷ hs) = (length name + length value + 4) + headers_size hs

-- The size of the buffer that is allocated.
unfoldable pub required_size : Response → ℕ
required_size r = (256 + headers_size r.headers) + (length r.body + 4)

abbrev pub empty_output : Output
empty_output = record { text = []; offset = 0; overrun = false }

-- `http_response_serialize`: the buffer, with the length that is reported
unfoldable pub serialize : Option Response → Option Output
serialize none = none
serialize (some r) =
    let size = required_size r in
    let head = append_headers size r.headers (append_text size (status_line r) empty_output) in
    some (append_bytes size r.body (append_text size crlf head))
