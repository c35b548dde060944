-- ===== src/Http/Leaks.antt =====
-- The memory that `http_request_parse` of src/http/http_parser.c loses.
use backend_in_c.Prelude.{
  ℕ, ◌+◌, ◌<◌, ◌≡◌, refl, ap, sym, ◌∙◌, none, some, inl, inr, Option-cases, Bool-cases, ◌++◌, [],
  CString, Bytes, length, drop, ◌==◌, if◌then◌else◌, arith,
}
use backend_in_c.Common.{success}
use backend_in_c.Common.Blocks.{allocate}
use backend_in_c.Wal.{c_string}
use backend_in_c.Http.{crlf}
use backend_in_c.Http.Request.{Request, request_create}
use backend_in_c.Http.Parse.{cut, scan_line, split_uri, parse_headers, parse_line, parse}
use backend_in_c.Http.Blocks.{
  held, held_array, request_destroy, fields_held, rest_allocated, parse_blocks,
  request_create_blocks,
}
use backend_in_c.Http.Destroy.{
  owned, request_destroy-owned, lost_headers, lost_body, lost_rest, lost_line, body_of-held,
  headers_of-held,
}

parse_headers-owned :
    (raw : Bytes) (line current : CString) (r : Request)
    → owned (parse_headers raw line current r) + lost_rest raw line current r
      ≡ owned r + rest_allocated raw line current
unfolding parse_headers lost_rest rest_allocated owned
parse_headers-owned raw line current r = elim (Option-cases (cut (crlf ++ crlf) current)) [
  | inl e ↦ rw (e, parse_headers, lost_rest, rest_allocated) refl
  | inr (t, e) ↦
      rw (e, parse_headers, lost_rest, rest_allocated)
        (omega (
          arith,
          headers_of-held t.0 current r.headers,
          body_of-held (drop (length line + 2 + length t.0 + 4) raw) r.body,
        ))
]

parse_line-owned :
    (method uri version : CString) (r : Request)
    → owned (parse_line (method, uri, version) r) + lost_line (method, uri, version) r
      ≡ owned r + (2 + held (split_uri uri).1)
unfolding parse_line lost_line owned held
parse_line-owned method uri version r = elim (Option-cases (split_uri uri).1) [
  | inl e ↦ rw (e, parse_line, lost_line) (omega arith)
  | inr (q, e) ↦ rw (e, parse_line, lost_line) (omega arith)
]

-- The blocks that a parse of a buffer loses: those of the pointers of the request that it overwrites.
unfoldable pub lost : Bytes → Request → ℕ
unfolding lost_line lost_rest
lost raw r =
    let text = c_string raw in
    if length raw == 0 then 0 else elim (cut crlf text) [
      | none ↦ 0
      | some t ↦ elim (scan_line text) [
        | none ↦ 0
        | some fields ↦ lost_line fields r + lost_rest raw t.0 t.1 (parse_line fields r)
      ]
    ]

-- What a parse leaves of a request, and of the blocks.
pub record Parses (raw : Bytes) (r : Request) : Type 0 where
  pub after : Request
  pub allocated : ℕ
  pub gives : (parse (some raw) (some r)).1 ≡ some after
  pub blocks : (b : ℕ) → parse_blocks raw (some b) ≡ some (b + allocated)
  pub balance : owned after + lost raw r ≡ owned r + allocated

pub parse-Parses : (raw : Bytes) (r : Request) → Parses raw r
unfolding parse parse_blocks lost allocate
parse-Parses raw r = elim (Bool-cases (length raw == 0)) [
  | inl empty ↦ record {
    after = r;
    allocated = 0;
    gives = rw empty refl;
    blocks = λ b. rw empty (ap (λ (n : ℕ). some n) (omega arith));
    balance = rw empty refl;
  }
  | inr bytes ↦ elim (Option-cases (cut crlf (c_string raw))) [
    | inl e ↦ record {
      after = r;
      allocated = 0;
      gives = rw (bytes, e, parse) refl;
      blocks = λ b. rw (bytes, e, parse_blocks) (ap (λ (n : ℕ). some n) (omega arith));
      balance = rw (bytes, e, lost) refl;
    }
    | inr (t, e) ↦ elim (Option-cases (scan_line (c_string raw))) [
      | inl f ↦ record {
        after = r;
        allocated = 0;
        gives = rw (bytes, e, f, parse) refl;
        blocks = λ b. rw (bytes, e, f, parse_blocks) (ap (λ (n : ℕ). some n) (omega arith));
        balance = rw (bytes, e, f, lost) refl;
      }
      | inr (fields, f) ↦ record {
        after = parse_headers raw t.0 t.1 (parse_line fields r);
        allocated = (2 + held (split_uri fields.1).1) + rest_allocated raw t.0 t.1;
        gives = rw (bytes, e, f, parse) refl;
        blocks = λ b. rw (bytes, e, f, parse_blocks) refl;
        balance =
            rw (bytes, e, f, lost)
              (omega (
                arith,
                parse_headers-owned raw t.0 t.1 (parse_line fields r),
                parse_line-owned fields.0 fields.1 fields.2 r,
              ));
      }
    ]
  ]
]

lost_rest-none :
    (raw : Bytes) (line current : CString) (r : Request)
    → r.headers ≡ []
    → r.body ≡ none
    → lost_rest raw line current r ≡ 0
unfolding lost_rest lost_headers lost_body held held_array fields_held
lost_rest-none raw line current r headers body = elim (Option-cases (cut (crlf ++ crlf) current)) [
  | inl e ↦ rw (e, lost_rest) refl
  | inr (t, e) ↦ rw (e, lost_rest, headers, body) (ground arith)
]

lost_line-none :
    (method uri version : CString) → lost_line (method, uri, version) request_create ≡ 0
unfolding lost_line request_create held
lost_line-none method uri version = elim (Option-cases (split_uri uri).1) [
  | inl e ↦ rw (e, lost_line) refl
  | inr (q, e) ↦ rw (e, lost_line) refl
]

lost_rest-create :
    (raw : Bytes) (line current method uri version : CString)
    → lost_rest raw line current (parse_line (method, uri, version) request_create) ≡ 0
unfolding parse_line request_create
lost_rest-create raw line current method uri version =
    lost_rest-none raw line current (parse_line (method, uri, version) request_create) refl refl

-- A request that holds nothing loses nothing.
lost-create : (raw : Bytes) → lost raw request_create ≡ 0
unfolding lost
lost-create raw = elim (Bool-cases (length raw == 0)) [
  | inl empty ↦ rw empty refl
  | inr bytes ↦ elim (Option-cases (cut crlf (c_string raw))) [
    | inl e ↦ rw (bytes, e, lost) refl
    | inr (t, e) ↦ elim (Option-cases (scan_line (c_string raw))) [
      | inl f ↦ rw (bytes, e, f, lost) refl
      | inr (fields, f) ↦
          let line = lost_line-none fields.0 fields.1 fields.2 in
          let rest = lost_rest-create raw t.0 t.1 fields.0 fields.1 fields.2 in
          rw (bytes, e, f, lost) (omega (arith, line, rest))
    ]
  ]
]

-- What `http_request_parse` of a buffer leaves of a request, whatever the request held before,
-- `http_request_destroy` frees, up to the blocks whose pointers the parse wrote over.
pub parse-leaves :
    (raw : Bytes) (r : Request) (live : ℕ)
    → (after : Request) × ((parse (some raw) (some r)).1 ≡ some after)
      × (request_destroy (some after) (parse_blocks raw (some (live + owned r)))
          ≡ some (live + lost raw r))
parse-leaves raw r live =
    let p = parse-Parses raw r in
    (
      p.after,
      p.gives,
      ap (request_destroy (some p.after)) (
            p.blocks (live + owned r)
            ∙ ap (λ (n : ℕ). some n) (let b = p.balance in omega (arith, b)))
          ∙ request_destroy-owned p.after (live + lost raw r),
    )

owned-create : owned request_create ≡ 1
unfolding owned request_create held held_array fields_held
owned-create = refl

-- A new request, into which any buffer is parsed, successfully or not, is freed by
-- `http_request_destroy` with all that it then holds: as many blocks are left as before it was
-- created.
pub parse-destroy :
    (raw : Bytes) (live : ℕ)
    → (after : Request) × ((parse (some raw) (some request_create)).1 ≡ some after)
      × (request_destroy (some after) (parse_blocks raw (request_create_blocks (some live)))
          ≡ some live)
unfolding request_create_blocks allocate
parse-destroy raw live =
    let (after, gives, left) = parse-leaves raw request_create live in
    (
      after,
      gives,
      ap (λ n. request_destroy (some after) (parse_blocks raw (some (live + n)))) (sym owned-create)
          ∙ left
          ∙ ap (λ (n : ℕ). some n) (let none_lost = lost-create raw in omega (arith, none_lost)),
    )

lost_line-some :
    (method uri version u : CString) (r : Request)
    → r.uri ≡ some u
    → 0 < lost_line (method, uri, version) r
unfolding lost_line held
lost_line-some method uri version u r here = rw here (omega arith)

lost-some :
    (raw : Bytes) (r : Request) (u : CString)
    → r.uri ≡ some u
    → (parse (some raw) (some r)).0 ≡ success
    → 0 < lost raw r
unfolding lost parse
lost-some raw r u here ok = elim (Bool-cases (length raw == 0)) [
  | inl empty ↦ let no = rw empty at ok in absurd (cc no)
  | inr bytes ↦ elim (Option-cases (cut crlf (c_string raw))) [
    | inl e ↦ let no = rw (bytes, e, parse) at ok in absurd (cc no)
    | inr (t, e) ↦ elim (Option-cases (scan_line (c_string raw))) [
      | inl f ↦ let no = rw (bytes, e, f, parse) at ok in absurd (cc no)
      | inr (fields, f) ↦
          let line = lost_line-some fields.0 fields.1 fields.2 u r here in
          rw (bytes, e, f, lost) (omega (arith, line))
    ]
  ]
]

-- A parse that succeeds into a request that has an address already, as one that was parsed before,
-- loses blocks: when the request is destroyed, more are left than there were beside its own.
pub parse_again :
    (raw : Bytes) (r : Request) (u : CString) (live : ℕ)
    → r.uri ≡ some u
    → (parse (some raw) (some r)).0 ≡ success
    → (after : Request) × (n : ℕ) × ((parse (some raw) (some r)).1 ≡ some after)
      × (request_destroy (some after) (parse_blocks raw (some (live + owned r))) ≡ some n)
      × (live < n)
parse_again raw r u live here ok =
    let (after, gives, left) = parse-leaves raw r live in
    (
      after,
      live + lost raw r,
      gives,
      left,
      (let more = lost-some raw r u here ok in omega (arith, more)),
    )
