-- ===== src/Http/Responses.antt =====
-- The memory of a response of src/http/http_parser.c, from its creation through the calls that fill it
-- to its destruction.
use backend_in_c.Prelude.{
  ℕ, ◌+◌, ◌≡◌, refl, ap, ◌∙◌, List, [], ◌∷◌, ◌++◌, Option, none, some, CString, Bytes, length, ◌==◌,
  if◌then◌else◌, arith,
}
use backend_in_c.Common.Blocks.{Blocks, allocate, release, release-to}
use backend_in_c.Http
use backend_in_c.Http.{Response, response_create, set_body}
use backend_in_c.Http.Blocks.{
  held_array, destroy_fields, response_destroy, add_header_blocks, set_body_blocks,
}

-- The calls that fill a response; a body that is NULL takes the one that there was.
pub data Call : Type 0 where
  adds_header : CString → CString → Call
  sets_body : Option Bytes → Call

unfoldable pub call : Call → Response → Option Response
call (adds_header name value) r = (Http.add_header (some name) (some value) (some r)).1
call (sets_body body) r = (set_body body (some r)).1

unfoldable pub call_blocks : Call → Response → Blocks → Blocks
call_blocks (adds_header name value) r blocks = add_header_blocks r.headers blocks
call_blocks (sets_body body) r blocks = set_body_blocks body r blocks

-- A response and the blocks of the process, call by call.
unfoldable pub run : List Call → Response → Blocks → Option Response × Blocks
run [] r blocks = (some r, blocks)
run (c ∷ calls) r blocks = elim (call c r) [
  | some r' ↦ run calls r' (call_blocks c r blocks)
  | none ↦ (none, blocks)
]

-- The blocks of the names and values.
unfoldable pub fields_blocks : List (CString × CString) → ℕ
fields_blocks [] = 0
fields_blocks (h ∷ hs) = 2 + fields_blocks hs

-- The blocks that a response holds.
unfoldable pub owned : Response → ℕ
owned r = (2 + held_array r.body) + (held_array r.headers + fields_blocks r.headers)

fields_blocks-append :
    (hs : List (CString × CString)) (h : CString × CString)
    → fields_blocks (hs ++ h ∷ []) ≡ fields_blocks hs + 2
unfolding fields_blocks
fields_blocks-append [] h = omega arith
fields_blocks-append (x ∷ hs) h = omega (arith, fields_blocks-append hs h)

held_array-append :
    (hs : List (CString × CString)) (h : CString × CString) → held_array (hs ++ h ∷ []) ≡ 1
unfolding held_array
held_array-append [] h = ground arith
held_array-append (x ∷ hs) h = ground arith

new-array : (hs : List (CString × CString)) → (if length hs == 0 then 1 else 0) + held_array hs ≡ 1
unfolding held_array
new-array hs = ground arith

no-body : held_array {A = ℕ} [] ≡ 0
unfolding held_array
no-body = refl

add_header-owned :
    (name value : CString) (r : Response) (live : ℕ)
    → add_header_blocks r.headers (some (live + owned r))
      ≡ some (live + owned (record r { headers = r.headers ++ (name, value) ∷ [] }))
unfolding add_header_blocks owned allocate
add_header-owned name value r live =
    let fields = fields_blocks-append r.headers (name, value) in
    let array = held_array-append r.headers (name, value) in
    let old : (if length r.headers == 0 then 1 else 0) + held_array r.headers ≡ 1 =
      new-array r.headers in
    ap (λ (n : ℕ). some n) (omega (arith, fields, array, old))

set_body-owned :
    (body : Option Bytes) (r : Response) (live : ℕ)
    → (r' : Response) × ((set_body body (some r)).1 ≡ some r')
      × (set_body_blocks body r (some (live + owned r)) ≡ some (live + owned r'))
unfolding set_body set_body_blocks owned
set_body-owned none r live =
    (record r { body = [] }, refl, release-to (held_array r.body) _ _ (omega (arith, no-body)))
set_body-owned (some body) r live =
    let rest = live + (2 + (held_array r.headers + fields_blocks r.headers)) in
    (
      record r { body = body },
      refl,
      ap (allocate (held_array body)) (release-to (held_array r.body) _ rest (omega arith))
          ∙ unfold allocate in ap (λ (n : ℕ). some n) (omega arith),
    )

destroy_fields_lem :
    (hs : List (CString × CString)) (live : ℕ)
    → destroy_fields hs (some (live + fields_blocks hs)) ≡ some live
unfolding destroy_fields fields_blocks
destroy_fields_lem [] live = ap (λ (n : ℕ). some n) (omega arith)
destroy_fields_lem (h ∷ hs) live =
    let rest = live + fields_blocks hs in
    ap (λ b. destroy_fields hs (release 1 b))
      (release-to 1 (live + (2 + fields_blocks hs)) (rest + 1) (omega arith))
    ∙ ap (destroy_fields hs) (release-to 1 (rest + 1) rest refl)
    ∙ destroy_fields_lem hs live

pub response_destroy-owned :
    (r : Response) (live : ℕ) → response_destroy (some r) (some (live + owned r)) ≡ some live
unfolding response_destroy owned
response_destroy-owned r live =
    let array = (live + 1) + held_array r.headers in
    let fields = array + fields_blocks r.headers in
    let body = fields + held_array r.body in
    let headers =
      λ (b : Blocks). release 1 (release (held_array r.headers) (destroy_fields r.headers b)) in
    ap (λ b. headers (release (held_array r.body) b))
      (release-to 1 (live + owned r) body (omega arith))
    ∙ ap headers (release-to (held_array r.body) body fields refl)
    ∙ ap (λ b. release 1 (release (held_array r.headers) b)) (destroy_fields_lem r.headers array)
    ∙ ap (release 1) (release-to (held_array r.headers) array (live + 1) refl)
    ∙ release-to 1 (live + 1) live refl

call-owned :
    (c : Call) (r : Response) (live : ℕ)
    → (r' : Response) × (call c r ≡ some r')
      × (call_blocks c r (some (live + owned r)) ≡ some (live + owned r'))
unfolding call call_blocks Http.add_header
call-owned (adds_header name value) r live = (_, refl, add_header-owned name value r live)
call-owned (sets_body body) r live = set_body-owned body r live

pub run-owned :
    (calls : List Call) (r : Response) (live : ℕ)
    → (r' : Response) × (run calls r (some (live + owned r)) ≡ (some r', some (live + owned r')))
unfolding run
run-owned [] r live = (r, refl)
run-owned (c ∷ calls) r live =
    let (r', e, b) = call-owned c r live in rw (e, run) (rw b (run-owned calls r' live))
