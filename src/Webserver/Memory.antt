-- ===== src/Webserver/Memory.antt =====
-- The memory that `handle_client` of src/webserver/webserver.c takes for a connection. The handler is
-- the user's; it fills the response by calls of src/http/http_parser.c, which depend on the request.
use backend_in_c.Prelude.{
  ℕ, ◌+◌, ◌≡◌, refl, ap, sym, ◌∙◌, List, [], ◌∷◌, Option, none, some, inl, inr, Bool-cases, Bool,
  Bytes, codes, length, ◌==◌, if◌then◌else◌,
}
use backend_in_c.Common.Blocks.{Blocks, allocate, release, release-to}
use backend_in_c.Http.{Response, response_create, add_header, set_body}
use backend_in_c.Http.Request.{Request, request_create}
use backend_in_c.Http.Parse.{parse}
use backend_in_c.Http.Blocks.{
  held_array, request_destroy, response_destroy, request_create_blocks, response_create_blocks,
  parse_blocks,
}
use backend_in_c.Http.Responses
use backend_in_c.Http.Responses.{
  Call, adds_header, sets_body, call, run, run-owned, response_destroy-owned, fields_blocks,
}
use backend_in_c.Http.Leaks.{parse-Parses, parse-destroy}
use backend_in_c.Webserver.{ok_response, default_response, succeeded}

-- The calls of `handle_client` where the server has no handler.
abbrev pub default_calls : List Call
default_calls =
    sets_body (some (codes "Hello from backend-in-c!"))
    ∷ adds_header (codes "Content-Type") (codes "text/plain")
    ∷ []

-- They make the response that is sent then.
pub default_calls-run :
    (blocks : Blocks)
    → (run default_calls ok_response blocks).0 ≡ some (default_response ok_response)
unfolding run call set_body add_header default_response
default_calls-run blocks = refl

-- The part of `handle_client` for a request that was parsed: the response is created, filled,
-- serialized into a buffer, which is freed, and destroyed.
unfoldable pub answer_blocks : (Request → List Call) → Request → Blocks → Blocks
answer_blocks calls request blocks =
    let response = run (calls request) ok_response (response_create_blocks blocks) in
    response_destroy response.0 (release 1 (allocate 1 response.1))

-- `handle_client` with the bytes that `recv` gives: the request is created, parsed and destroyed,
-- and the context that the accepting thread allocated is freed.
unfoldable pub client_blocks : (Request → List Call) → Bytes → Blocks → Blocks
unfolding answer_blocks
client_blocks calls received blocks =
    let parsed = parse (some received) (some request_create) in
    let after_parse = parse_blocks received (request_create_blocks blocks) in
    let after_request : Blocks = elim parsed.1 [
      | none ↦ after_parse
      | some r ↦
          request_destroy (some r)
            (if succeeded parsed.0 then answer_blocks calls r after_parse else after_parse)
    ] in
    release 1 (if length received == 0 then blocks else after_request)

ok_response-owned : Responses.owned ok_response ≡ 2
unfolding ok_response response_create Responses.owned held_array fields_blocks
ok_response-owned = refl

-- An answer leaves as many blocks as there were.
answer_blocks_lem :
    (calls : Request → List Call) (r : Request) (live : ℕ)
    → answer_blocks calls r (some live) ≡ some live
unfolding answer_blocks response_create_blocks allocate
answer_blocks_lem calls r live =
    let (response, e) = run-owned (calls r) ok_response live in
    let n = live + Responses.owned response in
    ap
      (λ (m : ℕ).
        let x = run (calls r) ok_response (some (live + m)) in
        response_destroy x.0 (release 1 (allocate 1 x.1)))
      (sym ok_response-owned)
    ∙ ap (λ (x : Option Response × Blocks). response_destroy x.0 (release 1 (allocate 1 x.1))) e
    ∙ ap (response_destroy (some response)) (release-to 1 (n + 1) n refl)
    ∙ response_destroy-owned response live

unchanged :
    (calls : Request → List Call) (r : Request) (s : Bool) (live : ℕ)
    → (if s then answer_blocks calls r (some live) else some live) ≡ some live
unchanged calls r s live = elim (Bool-cases s) [
  | inl parsed ↦ rw parsed (answer_blocks_lem calls r live)
  | inr failed ↦ rw failed refl
]

-- The blocks when the request has been destroyed.
after_request_lem :
    (calls : Request → List Call) (received : Bytes) (s : Bool) (live : ℕ)
    → let blocks = parse_blocks received (request_create_blocks (some live)) in
      (after : Request) × ((parse (some received) (some request_create)).1 ≡ some after)
      × (request_destroy (some after) (if s then answer_blocks calls after blocks else blocks)
          ≡ some live)
unfolding request_create_blocks allocate
after_request_lem calls received s live =
    let (after, gives, left) = parse-destroy received live in
    let p = parse-Parses received request_create in
    let b = p.blocks (live + 1) in
    let n = (live + 1) + p.allocated in
    (
      after,
      gives,
      ap (λ x. request_destroy (some after) (if s then answer_blocks calls after x else x)) b
          ∙ ap (request_destroy (some after)) (unchanged calls after s n ∙ sym b)
          ∙ left,
    )

-- Serving a connection leaves as many blocks allocated as before its context was, whatever bytes
-- `recv` gives, none included, whether or not they are a request, and with whatever calls the handler
-- fills the response.
pub client-releases :
    (calls : Request → List Call) (received : Bytes) (live : ℕ)
    → client_blocks calls received (allocate 1 (some live)) ≡ some live
unfolding client_blocks allocate
client-releases calls received live =
    let s = succeeded (parse (some received) (some request_create)).0 in
    let (after, gives, left) = after_request_lem calls received s (live + 1) in
    elim (Bool-cases (length received == 0)) [
      | inl empty ↦ rw empty (release-to 1 (live + 1) live refl)
      | inr bytes ↦ rw (bytes, gives) (ap (release 1) left ∙ release-to 1 (live + 1) live refl)
    ]
