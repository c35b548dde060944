-- ===== src/Http/Parse.antt =====
-- `http_request_parse` of src/http/http_parser.c. The request is a buffer of `length` bytes with a NUL
-- behind it, as `handle_client` of src/webserver/webserver.c hands it over; the string functions see
-- its bytes before the first NUL, and a pointer into it is the rest of the string from there on.
use backend_in_c.Prelude.{
  ℕ, zero, suc, ◌+◌, ◌-◌, List, [], ◌∷◌, ◌++◌, Option, none, some, Bool, ◌&&◌, ◌||◌, CString, Bytes,
  codes, length, drop, replicate, ltb, leb, ◌==◌, str_eq, if◌then◌else◌,
}
use backend_in_c.Common.{ErrorCode, success, error_invalid_param}
use backend_in_c.Wal.{c_string}
use backend_in_c.Http.{Version, http_1_0, http_1_1, http_2_0, method_from_string, crlf}
use backend_in_c.Http.Request.{Header, Request}

-- The bytes behind a prefix, if the string starts with it.
unfoldable pub strip : CString → CString → Option CString
strip [] s = some s
strip (c ∷ cs) [] = none
strip (c ∷ cs) (d ∷ s) = if c == d then strip cs s else none

-- `strstr`: the text before the first occurrence, and the text behind it
unfoldable pub cut : CString → CString → Option (CString × CString)
unfolding strip
cut pattern [] = elim (strip pattern []) [ none ↦ none | some rest ↦ some ([], rest) ]
cut pattern (c ∷ s) =
    let later : Option (CString × CString) = elim (cut pattern s) [
      | none ↦ none
      | some t ↦ some (c ∷ t.0, t.1)
    ] in
    elim (strip pattern (c ∷ s)) [ none ↦ later | some rest ↦ some ([], rest) ]

-- `isspace` in the C locale
unfoldable pub is_space : ℕ → Bool
is_space c = c == 32 || (leb 9 c && leb c 13)

unfoldable pub skip_space : CString → CString
unfolding is_space
skip_space [] = []
skip_space (c ∷ s) = if is_space c then skip_space s else c ∷ s

-- Up to `width` bytes that are no space, and what comes after them.
unfoldable pub word : ℕ → CString → CString × CString
unfolding is_space
word zero s = ([], s)
word (suc width) [] = ([], [])
word (suc width) (c ∷ s) =
    let (w, rest) = word width s in if is_space c then ([], c ∷ s) else (c ∷ w, rest)

-- `%15s` or `%2047s`
unfoldable pub scan_s : ℕ → CString → Option (CString × CString)
unfolding word skip_space
scan_s width s = let t = word width (skip_space s) in if length t.0 == 0 then none else some t

-- `sscanf(raw_request, "%15s %2047s %15s", …)`, where all three are read
unfoldable pub scan_line : CString → Option (CString × CString × CString)
unfolding scan_s
scan_line s = elim (scan_s 15 s) [
  | none ↦ none
  | some t ↦ elim (scan_s 2047 t.1) [
    | none ↦ none
    | some u ↦ elim (scan_s 15 u.1) [ none ↦ none | some v ↦ some (t.0, u.0, v.0) ]
  ]
]

-- The version that is named, or the one that the request has.
unfoldable pub version_of : CString → Version → Version
version_of s old =
    if str_eq s (codes "HTTP/1.0")
    then http_1_0
    else if str_eq s (codes "HTTP/1.1")
    then http_1_1
    else if str_eq s (codes "HTTP/2.0")
    then http_2_0
    else old

-- The path, and the query behind the first question mark.
unfoldable pub split_uri : CString → CString × Option CString
unfolding cut
split_uri uri = elim (cut (b'?' ∷ []) uri) [ some t ↦ (t.0, some t.1) | none ↦ (uri, none) ]

-- The first loop over the header lines. `left` is the distance to the end of the headers.
unfoldable pub count_lines : ℕ → ℕ → CString → ℕ
unfolding cut
count_lines zero left current = 0
count_lines (suc fuel) left current = elim (cut crlf current) [
  | none ↦ 0
  | some t ↦
      let rest = count_lines fuel (left - (length t.0 + 2)) t.1 in
      if ltb 0 left && leb (length t.0) left then rest + 1 else 0
]

-- The header on a line, if there is a colon.
unfoldable pub header_of : CString → List Header
unfolding cut skip_space
header_of line = elim (cut (b':' ∷ []) line) [
  | none ↦ []
  | some t ↦ record { name = some t.0; value = some (skip_space t.1) } ∷ []
]

-- The second loop, which fills `count - idx` headers at most.
unfoldable pub fill_headers : ℕ → ℕ → ℕ → CString → List Header
unfolding cut header_of
fill_headers zero idx_left left current = []
fill_headers (suc fuel) idx_left left current = elim (cut crlf current) [
  | none ↦ []
  | some t ↦
      let h = header_of t.0 in
      let rest = fill_headers fuel (idx_left - length h) (left - (length t.0 + 2)) t.1 in
      if ltb 0 left && (ltb 0 idx_left && leb (length t.0) left) then h ++ rest else []
]

-- A header as `calloc` leaves it.
abbrev pub blank_header : Header
blank_header = record { name = none; value = none }

-- The headers from the text up to the empty line, if there is a line.
unfoldable pub headers_of : CString → CString → List Header → List Header
unfolding count_lines fill_headers
headers_of block current old =
    let fuel = length current + 1 in
    let count = count_lines fuel (length block) current in
    let filled = fill_headers fuel count (length block) current in
    if ltb 0 count then filled ++ replicate (count - length filled) blank_header else old

-- The body, if there are bytes left.
unfoldable pub body_of : Bytes → Option Bytes → Option Bytes
body_of [] old = old
body_of (b ∷ bytes) old = some (b ∷ bytes)

unfoldable pub parse_headers : Bytes → CString → CString → Request → Request
unfolding cut headers_of body_of
parse_headers raw line current r = elim (cut (crlf ++ crlf) current) [
  | none ↦ r
  | some t ↦ record r {
    headers = headers_of t.0 current r.headers;
    body = body_of (drop (length line + 2 + length t.0 + 4) raw) r.body;
  }
]

unfoldable pub parse_line : CString × CString × CString → Request → Request
unfolding version_of split_uri
parse_line (method, uri, version) r =
    let t = split_uri uri in
    record r {
      method = method_from_string (some method);
      uri = some uri;
      version = version_of version r.version;
      path = some t.0;
      query = elim t.1 [ some q ↦ some q | none ↦ r.query ];
    }

-- `http_request_parse`
unfoldable pub parse : Option Bytes → Option Request → ErrorCode × Option Request
unfolding cut scan_line parse_line parse_headers
parse (some raw) (some r) =
    let text = c_string raw in
    if length raw == 0 then (error_invalid_param, some r) else elim (cut crlf text) [
      | none ↦ (error_invalid_param, some r)
      | some t ↦ elim (scan_line text) [
        | none ↦ (error_invalid_param, some r)
        | some fields ↦ (success, some (parse_headers raw t.0 t.1 (parse_line fields r)))
      ]
    ]
parse raw r = (error_invalid_param, r)
