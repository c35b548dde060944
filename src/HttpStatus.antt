-- ===== src/HttpStatus.antt =====
-- src/http_status/http_status.c: the reason phrase and the category of a status code.
pub mod Ranges
use backend_in_c.Prelude.{
  ℕ, zero, suc, List, [], ◌∷◌, Option, none, some, Bool, true, false, ◌&&◌, ◌||◌, not, CString,
  codes, leb, ◌==◌, if◌then◌else◌,
}
use backend_in_c.Common.Words.{ℤ, pos, negsuc, leb_ℤ}

pub data StatusCategory : Type 0 where
  informational success redirection client_error server_error : StatusCategory

-- The cases of the switch of `http_status_get_message`.
abbrev pub messages : List (ℕ × CString)
messages =
    (100, codes "Continue")
    ∷ (101, codes "Switching Protocols")
    ∷ (102, codes "Processing")
    ∷ (103, codes "Early Hints")
    ∷ (200, codes "OK")
    ∷ (201, codes "Created")
    ∷ (202, codes "Accepted")
    ∷ (203, codes "Non-Authoritative Information")
    ∷ (204, codes "No Content")
    ∷ (205, codes "Reset Content")
    ∷ (206, codes "Partial Content")
    ∷ (300, codes "Multiple Choices")
    ∷ (301, codes "Moved Permanently")
    ∷ (302, codes "Found")
    ∷ (303, codes "See Other")
    ∷ (304, codes "Not Modified")
    ∷ (307, codes "Temporary Redirect")
    ∷ (308, codes "Permanent Redirect")
    ∷ (400, codes "Bad Request")
    ∷ (401, codes "Unauthorized")
    ∷ (402, codes "Payment Required")
    ∷ (403, codes "Forbidden")
    ∷ (404, codes "Not Found")
    ∷ (405, codes "Method Not Allowed")
    ∷ (406, codes "Not Acceptable")
    ∷ (407, codes "Proxy Authentication Required")
    ∷ (408, codes "Request Timeout")
    ∷ (409, codes "Conflict")
    ∷ (410, codes "Gone")
    ∷ (411, codes "Length Required")
    ∷ (412, codes "Precondition Failed")
    ∷ (413, codes "Payload Too Large")
    ∷ (414, codes "URI Too Long")
    ∷ (415, codes "Unsupported Media Type")
    ∷ (416, codes "Range Not Satisfiable")
    ∷ (417, codes "Expectation Failed")
    ∷ (418, codes "I'm a teapot")
    ∷ (422, codes "Unprocessable Entity")
    ∷ (429, codes "Too Many Requests")
    ∷ (500, codes "Internal Server Error")
    ∷ (501, codes "Not Implemented")
    ∷ (502, codes "Bad Gateway")
    ∷ (503, codes "Service Unavailable")
    ∷ (504, codes "Gateway Timeout")
    ∷ (505, codes "HTTP Version Not Supported")
    ∷ []

-- The text of the first case with the number.
unfoldable pub case_of : ℕ → List (ℕ × CString) → Option CString
case_of n [] = none
case_of n ((code, message) ∷ rest) = if n == code then some message else case_of n rest

-- `http_status_get_message`; the default of the switch is "Unknown"
unfoldable pub get_message : ℤ → CString
unfolding case_of
get_message (pos n) = elim (case_of n messages) [ some message ↦ message | none ↦ codes "Unknown" ]
get_message (negsuc n) = codes "Unknown"

-- `status_code >= from && status_code < to`
abbrev pub between : ℕ → ℕ → ℤ → Bool
between from to status_code = leb_ℤ (pos from) status_code && not (leb_ℤ (pos to) status_code)

-- `http_status_get_category`
unfoldable pub get_category : ℤ → StatusCategory
get_category status_code =
    if between 100 200 status_code
    then informational
    else if between 200 300 status_code
    then success
    else if between 300 400 status_code
    then redirection
    else if between 400 500 status_code
    then client_error
    else if between 500 600 status_code
    then server_error
    else client_error

unfoldable pub is_informational : ℤ → Bool
is_informational status_code = between 100 200 status_code

unfoldable pub is_success : ℤ → Bool
is_success status_code = between 200 300 status_code

unfoldable pub is_redirection : ℤ → Bool
is_redirection status_code = between 300 400 status_code

unfoldable pub is_client_error : ℤ → Bool
is_client_error status_code = between 400 500 status_code

unfoldable pub is_server_error : ℤ → Bool
is_server_error status_code = between 500 600 status_code

-- `http_status_is_error`
unfoldable pub is_error : ℤ → Bool
unfolding is_client_error is_server_error
is_error status_code = is_client_error status_code || is_server_error status_code
