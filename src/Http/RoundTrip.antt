-- ===== src/Http/RoundTrip.antt =====
-- `http_request_parse` of src/http/http_parser.c reads back the requests that are written as HTTP says.
use backend_in_c.Prelude.{
  drop-append, ℕ, ◌+◌, ◌<◌, ◌≡◌, refl, sym, ap, ◌∙◌, [], ◌∷◌, ◌++◌, append_assoc, map, Option, none,
  some, true, false, CString, Bytes, length, length-append, drop, ◌==◌, arith,
}
use backend_in_c.Common.{success}
use backend_in_c.Wal.{c_string}
use backend_in_c.Http.{http_version_unknown, method_to_string, crlf}
use backend_in_c.Http.Methods.{method_from_string-to_string}
use backend_in_c.Http.Request.{Request, request_create}
use backend_in_c.Http.Parse.{cut, scan_line, body_of, parse_headers, parse_line, parse}
use backend_in_c.Http.Cut.{lacks, lacks-append, cut-first, c_string-append, no_space-lacks}
use backend_in_c.Http.Lines.{joined, length-ended, cut-lines, headers_of-ended}
use backend_in_c.Http.Message.{
  Message, message_uri, version_text, line_of, request_line, header_lines, print, header_record,
  request_of, IsPlain, lines-AreLines, lines-Gives, lines-lacks, cut-headerless, c_string-lacks,
  version_of-version_text, scan-method, scan-uri, scan-version, method-lacks, version-lacks,
  split_uri-message,
}

parse_headers-lost :
    (raw : Bytes) (line current : CString) (r : Request)
    → cut (crlf ++ crlf) current ≡ none
    → parse_headers raw line current r ≡ r
unfolding parse_headers
parse_headers-lost raw line current r e = rw (parse_headers, e) refl

nonzero : (n : ℕ) → 0 < n → n == 0 ≡ false
nonzero n some_there = ground arith

module _ (m : Message) (p : IsPlain m) where
  request_line-lacks :
      (c : ℕ) → c < 32 → lacks c (message_uri m) ≡ true → lacks c (request_line m) ≡ true
  request_line-lacks c below uri =
      lacks-append c (method_to_string m.method)
        (b' ' ∷ (message_uri m ++ (b' ' ∷ version_text m.version)))
        (method-lacks m.method c (omega arith))
        (lacks-append c (b' ' ∷ message_uri m) (b' ' ∷ version_text m.version)
          (spaced c (message_uri m) below uri) (version-lacks m.version c below))
    where
      spaced : (c : ℕ) (s : CString) → c < 32 → lacks c s ≡ true → lacks c (b' ' ∷ s) ≡ true
      spaced c s below h = ground arith

  scan_line-request :
      (rest : CString)
      → scan_line (request_line m ++ (13 ∷ rest))
        ≡ some (method_to_string m.method, message_uri m, version_text m.version)
  unfolding scan_line method_to_string
  scan_line-request rest =
      let v = version_text m.version in
      let uri = message_uri m in
      let arranged : request_line m ++ (13 ∷ rest)
          ≡ method_to_string m.method ++ (b' ' ∷ (uri ++ (b' ' ∷ (v ++ (13 ∷ rest))))) =
        append_assoc (method_to_string m.method) (b' ' ∷ (uri ++ (b' ' ∷ v))) (13 ∷ rest)
        ∙ ap (λ t. method_to_string m.method ++ (b' ' ∷ t))
            (append_assoc uri (b' ' ∷ v) (13 ∷ rest)) in
      let some_uri : 0 < length uri = omega (
        arith,
        length-append m.path (elim m.query [ none ↦ [] | some q ↦ b'?' ∷ q ]),
        p.path_there,
      ) in
      rw
        (
          scan_line,
          arranged,
          scan-method (uri ++ (b' ' ∷ (v ++ (13 ∷ rest)))) m.method,
          scan-uri (v ++ (13 ∷ rest)) uri some_uri p.uri_fits p.uri_solid,
          scan-version rest m.version,
        )
        refl

  -- What `parse_line` makes of a fresh request.
  parse_line-request :
      parse_line (method_to_string m.method, message_uri m, version_text m.version) request_create
      ≡ record request_create {
        method = m.method;
        version = m.version;
        uri = some (message_uri m);
        path = some m.path;
        query = m.query;
      }
  unfolding parse_line request_create
  parse_line-request =
      rw
        (
          parse_line,
          split_uri-message m p,
          method_from_string-to_string m.method,
          version_of-version_text m.version http_version_unknown p.known_version,
        )
        (by_query m.query)
    where
      by_query :
          (q : Option CString)
          → Path Request
              (record {
                method = m.method;
                version = m.version;
                uri = some (message_uri m);
                path = some m.path;
                query = elim q [ some t ↦ some t | none ↦ none ];
                headers = [];
                body = none;
              })
              (record {
                method = m.method;
                version = m.version;
                uri = some (message_uri m);
                path = some m.path;
                query = q;
                headers = [];
                body = none;
              })
      by_query none = refl
      by_query (some q) = refl

  -- The string functions see the text up to the first NUL of the body.
  c_string-print :
      c_string (print m) ≡ request_line m ++ (crlf ++ (header_lines m ++ (crlf ++ c_string m.body)))
  c_string-print =
      c_string-append (request_line m) (crlf ++ (header_lines m ++ (crlf ++ m.body)))
        (request_line-lacks 0 (omega arith) p.uri_no_nul)
      ∙ ap (λ t. request_line m ++ t)
          (c_string-append crlf (header_lines m ++ (crlf ++ m.body)) refl
            ∙ ap (λ t. crlf ++ t)
                (c_string-append (header_lines m) (crlf ++ m.body) lines
                  ∙ ap (λ t. header_lines m ++ t) (c_string-append crlf m.body refl)))
    where
      lines : lacks 0 (header_lines m) ≡ true
      lines = lines-lacks (m.header ∷ m.headers) (p.plain_header, p.plain_headers)

  block : CString
  block = joined (line_of m.header) (map line_of m.headers)

  -- The body starts behind the empty line.
  drop-body : drop (length (request_line m) + 2 + length block + 4) (print m) ≡ m.body
  unfolding block
  drop-body =
      let before = request_line m ++ (crlf ++ (header_lines m ++ crlf)) in
      let arranged : print m ≡ before ++ m.body = sym (
        append_assoc (request_line m) (crlf ++ (header_lines m ++ crlf)) m.body
        ∙ ap (λ t. request_line m ++ (crlf ++ t)) (append_assoc (header_lines m) crlf m.body)) in
      let size : length (request_line m) + 2 + length block + 4 ≡ length before = omega (
        arith,
        length-append (request_line m) (crlf ++ (header_lines m ++ crlf)),
        length-append (header_lines m) crlf,
        length-ended (line_of m.header) (map line_of m.headers),
      ) in
      ap (λ n. drop n (print m)) size
      ∙ ap (drop (length before)) arranged
      ∙ drop-append before m.body

  parse_headers-request :
      (r : Request)
      → parse_headers (print m) (request_line m) (header_lines m ++ (crlf ++ c_string m.body)) r
        ≡ record r {
          headers = header_record m.header ∷ map header_record m.headers;
          body = body_of m.body r.body;
        }
  unfolding parse_headers block
  parse_headers-request r =
      let lines = lines-AreLines (m.header ∷ m.headers) (p.plain_header, p.plain_headers) in
      let found = cut-lines (line_of m.header) (map line_of m.headers) (c_string m.body) lines in
      let given = lines-Gives (m.header ∷ m.headers) (p.plain_header, p.plain_headers) in
      let hs =
        headers_of-ended (line_of m.header) (map line_of m.headers)
          (header_record m.header ∷ map header_record m.headers) r.headers (crlf ++ c_string m.body)
          lines given in
      rw (parse_headers, found, hs, drop-body) refl

  -- A request that is written with a version, a path and at least one header, with no white space in the
  -- address and at most 2047 bytes of it, no colon in a header's name and no space before its value, and
  -- line ends and NULs at most in the body, is read back as it was meant: the method, the version, the
  -- address with its path and query, the headers in order, and the body, all bytes of it.
  pub parse-print : parse (some (print m)) (some request_create) ≡ (success, some (request_of m))
  unfolding parse body_of request_create
  parse-print =
      let rest = header_lines m ++ (crlf ++ c_string m.body) in
      let found : cut crlf (request_line m ++ (crlf ++ rest)) ≡ some (request_line m, rest) =
        cut-first 13 (10 ∷ []) (request_line m) rest
          (request_line-lacks 13 (omega arith) (no_space-lacks (message_uri m) p.uri_solid)) in
      let filled : length (print m) == 0 ≡ false = nonzero (length (print m)) (
        omega
          (arith, length-append (request_line m) (crlf ++ (header_lines m ++ (crlf ++ m.body))))) in
      let scanned = ap scan_line c_string-print ∙ scan_line-request (10 ∷ rest) in
      rw
        (
          parse,
          c_string-print,
          filled,
          found,
          scanned,
          parse_line-request,
          parse_headers-request (record request_create {
            method = m.method;
            version = m.version;
            uri = some (message_uri m);
            path = some m.path;
            query = m.query;
          }),
        )
        (ap (λ t. (success, some (record (request_of m) { body = t }))) (by_body m.body))
    where
      by_body : (b : Bytes) → body_of b none ≡ (elim b [ [] ↦ none | x ∷ bs ↦ some (x ∷ bs) ])
      by_body [] = refl
      by_body (x ∷ bs) = refl

  -- A request as in `parse-print`, but with no header at all, loses its body: the empty line behind the
  -- request line is not recognised, so a body that has no line end itself is not read, although the call
  -- succeeds.
  pub parse_headerless :
      lacks 13 m.body ≡ true
      → parse (some (request_line m ++ (crlf ++ (crlf ++ m.body)))) (some request_create)
        ≡ (success, some (record (request_of m) { headers = []; body = none }))
  unfolding parse request_create
  parse_headerless one_line =
      let rest = crlf ++ c_string m.body in
      let text : c_string (request_line m ++ (crlf ++ (crlf ++ m.body)))
          ≡ request_line m ++ (crlf ++ rest) =
        c_string-append (request_line m) (crlf ++ (crlf ++ m.body))
          (request_line-lacks 0 (omega arith) p.uri_no_nul)
        ∙ ap (λ t. request_line m ++ t) (c_string-append (crlf ++ crlf) m.body refl) in
      let found : cut crlf (request_line m ++ (crlf ++ rest)) ≡ some (request_line m, rest) =
        cut-first 13 (10 ∷ []) (request_line m) rest
          (request_line-lacks 13 (omega arith) (no_space-lacks (message_uri m) p.uri_solid)) in
      let filled : length (request_line m ++ (crlf ++ (crlf ++ m.body))) == 0 ≡ false =
        nonzero (length (request_line m ++ (crlf ++ (crlf ++ m.body))))
          (omega (arith, length-append (request_line m) (crlf ++ (crlf ++ m.body)))) in
      let scanned = ap scan_line text ∙ scan_line-request (10 ∷ rest) in
      let lost = cut-headerless (c_string m.body) (c_string-lacks 13 m.body one_line) in
      rw (parse, text, filled, found, scanned)
        (ap (λ r. (success, some r))
          (parse_headers-lost (request_line m ++ (crlf ++ (crlf ++ m.body))) (request_line m) rest _
              lost
            ∙ parse_line-request))
