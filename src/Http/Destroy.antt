-- ===== src/Http/Destroy.antt =====
-- What is left of the memory of a request of src/http/http_parser.c when it has been parsed and
-- destroyed, and of a response that was filled and destroyed.
use backend_in_c.Prelude.{
  ℕ, zero, suc, ◌+◌, ◌-◌, ◌<◌, ◌≡◌, refl, ap, ◌∙◌, List, [], ◌∷◌, ◌++◌, Option, none, some, inl,
  inr, Bool-cases, CString, Bytes, length, drop, ltb, ◌==◌, if◌then◌else◌, arith, replicate,
  length-append, length-replicate,
}
use backend_in_c.Common.Blocks.{Blocks, release, release-to}
use backend_in_c.Http.{crlf}
use backend_in_c.Http.Request.{Header, Request}
use backend_in_c.Http.Parse.{
  cut, split_uri, count_lines, fill_headers, blank_header, headers_of, body_of,
}
use backend_in_c.Http.Blocks.{
  held, held_array, destroy_headers, request_destroy, fields_held, headers_allocated,
}

-- The blocks that a request holds.
unfoldable pub owned : Request → ℕ
owned r =
    (1 + ((held r.uri + held r.path) + (held r.query + held r.body)))
    + (held_array r.headers + fields_held r.headers)

destroy_headers_lem :
    (hs : List Header) (live : ℕ) → destroy_headers hs (some (live + fields_held hs)) ≡ some live
unfolding destroy_headers fields_held
destroy_headers_lem [] live = ap (λ (n : ℕ). some n) (omega arith)
destroy_headers_lem (h ∷ hs) live =
    let rest = live + fields_held hs in
    let name =
      release-to (held h.name) (live + ((held h.name + held h.value) + fields_held hs))
        (rest + held h.value) (omega arith) in
    let value = release-to (held h.value) (rest + held h.value) rest refl in
    ap (λ b. destroy_headers hs (release (held h.value) b)) name
    ∙ ap (destroy_headers hs) value
    ∙ destroy_headers_lem hs live

-- Destroying a request frees what it holds.
pub request_destroy-owned :
    (r : Request) (live : ℕ) → request_destroy (some r) (some (live + owned r)) ≡ some live
unfolding request_destroy owned
request_destroy-owned r live =
    let array = (live + 1) + held_array r.headers in
    let fields = array + fields_held r.headers in
    let body = fields + held r.body in
    let query = body + held r.query in
    let path = query + held r.path in
    let headers =
      λ (b : Blocks). release 1 (release (held_array r.headers) (destroy_headers r.headers b)) in
    ap (λ b. headers (release (held r.body) (release (held r.query) (release (held r.path) b))))
      (release-to (held r.uri) (live + owned r) path (omega arith))
    ∙ ap (λ b. headers (release (held r.body) (release (held r.query) b)))
        (release-to (held r.path) path query refl)
    ∙ ap (λ b. headers (release (held r.body) b)) (release-to (held r.query) query body refl)
    ∙ ap headers (release-to (held r.body) body fields refl)
    ∙ ap (λ b. release 1 (release (held_array r.headers) b)) (destroy_headers_lem r.headers array)
    ∙ ap (release 1) (release-to (held_array r.headers) array (live + 1) refl)
    ∙ release-to 1 (live + 1) live refl

-- The blocks of a request that a parse overwrites the pointers to.
unfoldable pub lost_headers : CString → CString → List Header → ℕ
lost_headers block current old =
    if ltb 0 (count_lines (length current + 1) (length block) current)
    then held_array old + fields_held old
    else 0

unfoldable pub lost_body : Bytes → Option Bytes → ℕ
lost_body bytes old = if length bytes == 0 then 0 else held old

unfoldable pub lost_rest : Bytes → CString → CString → Request → ℕ
unfolding lost_headers lost_body
lost_rest raw line current r = elim (cut (crlf ++ crlf) current) [
  | none ↦ 0
  | some t ↦
      lost_headers t.0 current r.headers
      + lost_body (drop (length line + 2 + length t.0 + 4) raw) r.body
]

unfoldable pub lost_line : CString × CString × CString → Request → ℕ
lost_line (method, uri, version) r =
    (held r.uri + held r.path) + (elim (split_uri uri).1 [ some _ ↦ held r.query | none ↦ 0 ])

pub body_of-held :
    (bytes : Bytes) (old : Option Bytes)
    → held (body_of bytes old) + lost_body bytes old ≡ held old + held_array bytes
unfolding body_of lost_body held_array held
body_of-held [] old = ground arith
body_of-held (b ∷ bytes) old = ground arith

fields_held-append :
    (hs : List Header) (n : ℕ) → fields_held (hs ++ replicate n blank_header) ≡ fields_held hs
unfolding fields_held held
fields_held-append [] zero = refl
fields_held-append [] (suc n) = omega (arith, fields_held-append [] n)
fields_held-append (h ∷ hs) n = omega (arith, fields_held-append hs n)

held_array-filled :
    (hs : List Header) (count : ℕ)
    → 0 < count
    → held_array (hs ++ replicate (count - length hs) blank_header) ≡ 1
unfolding held_array
held_array-filled hs count some_lines =
    let n = length-append hs (replicate (count - length hs) blank_header) in
    let m = length-replicate (count - length hs) blank_header in ground (arith, n, m)

pub headers_of-held :
    (block current : CString) (old : List Header)
    → let new = headers_of block current old in
      (held_array new + fields_held new) + lost_headers block current old
      ≡ (held_array old + fields_held old) + headers_allocated block current
unfolding headers_of lost_headers headers_allocated
headers_of-held block current old =
    let count = count_lines (length current + 1) (length block) current in
    let filled = fill_headers (length current + 1) count (length block) current in
    elim (Bool-cases (ltb 0 count)) [
      | inl some_lines ↦ rw some_lines (
          omega (
            arith,
            held_array-filled filled count (ground arith),
            fields_held-append filled (count - length filled),
          ))
      | inr no_line ↦ rw no_line refl
    ]
