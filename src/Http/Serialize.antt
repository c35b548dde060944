-- ===== src/Http/Serialize.antt =====
-- The buffer of `http_response_serialize` in src/http/http_parser.c.
use backend_in_c.Prelude.{
  ℕ, ◌+◌, ◌≤◌, ◌<◌, ◌≡◌, refl, ◌∙◌, sym, ap, List, [], ◌∷◌, ◌++◌, append_assoc, append-nil, concat,
  map, some, false, CString, Bytes, length, length-append, arith,
}
use backend_in_c.Common.Words.{u64}
use backend_in_c.Http.{
  Response, Output, append_text, append_bytes, append_headers, headers_size, required_size,
  empty_output, serialize, status_line, header_line, crlf,
}

append_text-fits :
    (size : ℕ) (t : CString) (text : Bytes) (offset : ℕ)
    → size < u64
    → offset + length t < size
    → append_text size t (record { text = text; offset = offset; overrun = false })
      ≡ record { text = text ++ t; offset = offset + length t; overrun = false }
unfolding append_text
append_text-fits size t text offset small h = ground arith

abbrev lines_of : List (CString × CString) → Bytes
lines_of hs = concat (map header_line hs)

length-lines_of : (hs : List (CString × CString)) → length (lines_of hs) ≡ headers_size hs
unfolding headers_size
length-lines_of [] = refl
length-lines_of ((name, value) ∷ hs) = simp length-append (omega (arith, length-lines_of hs))

-- What the output holds after some text.
abbrev filled : Bytes → ℕ → Output
filled text offset = record { text = text; offset = offset; overrun = false }

append_headers-fits :
    (size : ℕ) (hs : List (CString × CString)) (text : Bytes) (offset : ℕ)
    → size < u64
    → offset + length (lines_of hs) < size
    → append_headers size hs (filled text offset)
      ≡ filled (text ++ lines_of hs) (offset + length (lines_of hs))
unfolding append_headers
append_headers-fits size [] text offset small h =
    let e : offset ≡ offset + 0 = omega arith in λ i. filled (sym (append-nil text) i) (e i)
append_headers-fits size (x ∷ hs) text offset small h =
    let split = length-append (header_line x) (lines_of hs) in
    let e : offset + length (header_line x) + length (lines_of hs)
        ≡ offset + length (lines_of (x ∷ hs)) =
      omega (arith, split) in
    ap (append_headers size hs)
      (append_text-fits size (header_line x) text offset small (omega (arith, split)))
    ∙ append_headers-fits size hs (text ++ header_line x) (offset + length (header_line x)) small
        (omega (arith, split))
    ∙ λ i. filled (append_assoc text (header_line x) (lines_of hs) i) (e i)

append_bytes-fits :
    (size : ℕ) (bytes text : Bytes) (offset : ℕ)
    → offset + length bytes ≤ size
    → append_bytes size bytes (filled text offset) ≡ filled (text ++ bytes) (offset + length bytes)
unfolding append_bytes
append_bytes-fits size bytes text offset h = ground arith

-- The response as it goes out.
abbrev pub message_of : Response → Bytes
message_of r = ((status_line r ++ lines_of r.headers) ++ crlf) ++ r.body

length-message_of :
    (r : Response)
    → length (message_of r)
      ≡ 0 + length (status_line r) + length (lines_of r.headers) + length crlf + length r.body
length-message_of r = omega (
  arith,
  length-append ((status_line r ++ lines_of r.headers) ++ crlf) r.body,
  length-append (status_line r ++ lines_of r.headers) crlf,
  length-append (status_line r) (lines_of r.headers),
)

-- The writes in turn, into a buffer that has room.
writes-fit :
    (size : ℕ) (s lines b : Bytes) (hs : List (CString × CString))
    → lines ≡ lines_of hs
    → size < u64
    → length s + length lines + length crlf < size
    → length s + length lines + length crlf + length b ≤ size
    → append_bytes size b
        (append_text size crlf (append_headers size hs (append_text size s empty_output)))
      ≡ filled (((s ++ lines) ++ crlf) ++ b) (0 + length s + length lines + length crlf + length b)
writes-fit size s lines b hs e small room room' =
    let same = ap {B = ℕ} length e in
    ap (λ o. append_bytes size b (append_text size crlf (append_headers size hs o)))
      (append_text-fits size s [] 0 small (omega arith))
    ∙ ap (λ o. append_bytes size b (append_text size crlf o))
        (append_headers-fits size hs s (0 + length s) small (omega (arith, same))
          ∙ ap (λ l. filled (s ++ l) (0 + length s + length l)) (sym e))
    ∙ ap (append_bytes size b)
        (append_text-fits size crlf (s ++ lines) (0 + length s + length lines) small (omega arith))
    ∙ append_bytes-fits size b ((s ++ lines) ++ crlf) (0 + length s + length lines + length crlf)
        (omega arith)

-- A response whose status line is shorter than 258 bytes, and whose buffer is smaller than 2 ^ 64, is
-- serialized within the buffer as its status line, its headers in order, an empty line and its body,
-- and the length that is reported is theirs.
pub serialize-fits :
    (r : Response)
    → length (status_line r) < 258
    → required_size r < u64
    → serialize (some r)
      ≡ some (record { text = message_of r; offset = length (message_of r); overrun = false })
unfolding serialize required_size
serialize-fits r short small =
    let l = length-lines_of r.headers in
    ap (λ (o : Output). some o)
      (writes-fit (required_size r) (status_line r) (lines_of r.headers) r.body r.headers refl small
          (omega (arith, l)) (omega (arith, l))
        ∙ ap (filled (message_of r)) (sym (length-message_of r)))
