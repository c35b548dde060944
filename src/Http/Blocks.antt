-- ===== src/Http/Blocks.antt =====
-- The memory of the requests and responses of src/http/http_parser.c: what their functions allocate
-- and free, and `http_request_destroy` and `http_response_destroy`.
use backend_in_c.Prelude.{
  ℕ, ◌+◌, List, [], ◌∷◌, ◌++◌, Option, none, some, CString, Bytes, length, drop, ltb, ◌==◌,
  if◌then◌else◌,
}
use backend_in_c.Common.Blocks.{Blocks, allocate, release}
use backend_in_c.Wal.{c_string}
use backend_in_c.Http.{Response, crlf}
use backend_in_c.Http.Request.{Header, Request}
use backend_in_c.Http.Parse.{cut, scan_line, split_uri, count_lines, fill_headers}

-- `safe_free` of a pointer that may be NULL frees so many blocks.
unfoldable pub held {ℓ} : {A : Type ℓ} → Option A → ℕ
held none = 0
held (some _) = 1

-- An array or a body of no elements is NULL.
unfoldable pub held_array {ℓ} : {A : Type ℓ} → List A → ℕ
held_array xs = if length xs == 0 then 0 else 1

-- The loop over the headers of `http_request_destroy`
unfoldable pub destroy_headers : List Header → Blocks → Blocks
unfolding held
destroy_headers [] blocks = blocks
destroy_headers (h ∷ hs) blocks =
    destroy_headers hs (release (held h.value) (release (held h.name) blocks))

-- `http_request_destroy`
unfoldable pub request_destroy : Option Request → Blocks → Blocks
unfolding held held_array destroy_headers
request_destroy none blocks = blocks
request_destroy (some r) blocks =
    let pointers =
      release (held r.body)
        (release (held r.query) (release (held r.path) (release (held r.uri) blocks))) in
    release 1 (release (held_array r.headers) (destroy_headers r.headers pointers))

-- The loop over the headers of `http_response_destroy`, whose names and values are not NULL
unfoldable pub destroy_fields : List (CString × CString) → Blocks → Blocks
destroy_fields [] blocks = blocks
destroy_fields (h ∷ hs) blocks = destroy_fields hs (release 1 (release 1 blocks))

-- `http_response_destroy`
unfoldable pub response_destroy : Option Response → Blocks → Blocks
unfolding held_array destroy_fields
response_destroy none blocks = blocks
response_destroy (some r) blocks = release 1 (
    release (held_array r.headers)
      (destroy_fields r.headers (release (held_array r.body) (release 1 blocks))))

-- What `http_request_create` allocates
unfoldable pub request_create_blocks : Blocks → Blocks
request_create_blocks blocks = allocate 1 blocks

-- What `http_request_add_header` and `http_response_add_header` allocate: the copies of the name and
-- the value, and an array where there was none; an array that is there is moved or extended.
unfoldable pub add_header_blocks {ℓ} : {A : Type ℓ} → List A → Blocks → Blocks
unfolding held_array
add_header_blocks headers blocks = allocate ((if length headers == 0 then 1 else 0) + 2) blocks

-- What `http_response_create` allocates: the response and its message
unfoldable pub response_create_blocks : Blocks → Blocks
response_create_blocks blocks = allocate 2 blocks

-- What `http_response_set_body` frees and allocates
unfoldable pub set_body_blocks : Option Bytes → Response → Blocks → Blocks
unfolding held_array
set_body_blocks none r blocks = release (held_array r.body) blocks
set_body_blocks (some body) r blocks =
    allocate (held_array body) (release (held_array r.body) blocks)

-- The names and values of the headers that are filled.
unfoldable pub fields_held : List Header → ℕ
unfolding held
fields_held [] = 0
fields_held (h ∷ hs) = (held h.name + held h.value) + fields_held hs

-- What the part of `http_request_parse` for the headers and the body allocates
unfoldable pub headers_allocated : CString → CString → ℕ
unfolding fields_held count_lines fill_headers
headers_allocated block current =
    let fuel = length current + 1 in
    let count = count_lines fuel (length block) current in
    if ltb 0 count then 1 + fields_held (fill_headers fuel count (length block) current) else 0

unfoldable pub rest_allocated : Bytes → CString → CString → ℕ
unfolding cut headers_allocated held_array
rest_allocated raw line current = elim (cut (crlf ++ crlf) current) [
  | none ↦ 0
  | some t ↦
      headers_allocated t.0 current + held_array (drop (length line + 2 + length t.0 + 4) raw)
]

-- What `http_request_parse` allocates: the address and the path, the query if there is one, the
-- headers and the body. What the request held before is not freed.
unfoldable pub parse_blocks : Bytes → Blocks → Blocks
unfolding cut scan_line split_uri rest_allocated held
parse_blocks raw blocks =
    let text = c_string raw in
    if length raw == 0 then blocks else elim (cut crlf text) [
      | none ↦ blocks
      | some t ↦ elim (scan_line text) [
        | none ↦ blocks
        | some fields ↦
            allocate ((2 + held (split_uri fields.1).1) + rest_allocated raw t.0 t.1) blocks
      ]
    ]
