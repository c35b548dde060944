-- ===== src/Http/Message.antt =====
-- Requests as `http_request_parse` of src/http/http_parser.c should read them, their text, and what its
-- scans make of the parts.
use backend_in_c.Prelude.{
  ℕ, ◌≤◌, ◌<◌, ◌≡◌, ◌≢◌, refl, ap, ◌∙◌, List, [], ◌∷◌, ◌++◌, append-nil, map, Option, none, some,
  true, false, CString, Bytes, codes, length, length-append, ◌==◌, arith, str_eq, inl, inr,
  Bool-cases,
}
use backend_in_c.Wal.{c_string}
use backend_in_c.Http.{
  Method, http_get, http_post, http_put, http_delete, http_head, http_options, http_patch,
  http_unknown, Version, http_1_0, http_1_1, http_2_0, http_version_unknown, method_to_string, crlf,
}
use backend_in_c.Http.Request.{Header, Request}
use backend_in_c.Http.Parse.{
  strip, cut, is_space, skip_space, scan_s, version_of, split_uri, header_of,
}
use backend_in_c.Http.Cut.{
  lacks, shifted, lacks-append, cut-first, cut-none, no_space, scan_s-word, scan_s-space,
}
use backend_in_c.Http.Lines.{cut-between, ended, IsLine, AreLines, Gives}

-- A request as a client means it.
pub record Message : Type 0 where
  pub method : Method
  pub version : Version
  pub path : CString
  pub query : Option CString
  pub header : CString × CString
  pub headers : List (CString × CString)
  pub body : Bytes

abbrev pub message_uri : Message → CString
message_uri m = m.path ++ (elim m.query [ none ↦ [] | some q ↦ b'?' ∷ q ])

abbrev pub version_text : Version → CString
version_text http_1_0 = codes "HTTP/1.0"
version_text http_1_1 = codes "HTTP/1.1"
version_text http_2_0 = codes "HTTP/2.0"
version_text http_version_unknown = codes "HTTP/?"

abbrev pub line_of : CString × CString → CString
line_of h = h.0 ++ (b':' ∷ (b' ' ∷ h.1))

abbrev pub request_line : Message → CString
request_line m =
    method_to_string m.method ++ (b' ' ∷ (message_uri m ++ (b' ' ∷ version_text m.version)))

abbrev pub header_lines : Message → CString
header_lines m = ended (line_of m.header ∷ map line_of m.headers)

-- The request's text: its line, its headers, an empty line and the body.
abbrev pub print : Message → Bytes
print m = request_line m ++ (crlf ++ (header_lines m ++ (crlf ++ m.body)))

-- The request that is read.
abbrev pub header_record : CString × CString → Header
header_record h = record { name = some h.0; value = some h.1 }

abbrev pub request_of : Message → Request
request_of m = record {
  method = m.method;
  version = m.version;
  uri = some (message_uri m);
  path = some m.path;
  query = m.query;
  headers = header_record m.header ∷ map header_record m.headers;
  body = elim m.body [ [] ↦ none | b ∷ bs ↦ some (b ∷ bs) ];
}

-- A header whose name has no colon, whose value starts with no space, and which has no line end and no NUL.
pub record IsPlainHeader (h : CString × CString) : Type 0 where
  pub no_colon : lacks 58 h.0 ≡ true
  pub one_line : lacks 13 (line_of h) ≡ true
  pub no_nul : lacks 0 (line_of h) ≡ true
  pub value_at_once : skip_space h.1 ≡ h.1

abbrev pub ArePlain : List (CString × CString) → Type 0
ArePlain [] = Unit {0}
ArePlain (h ∷ hs) = IsPlainHeader h × ArePlain hs

pub record IsPlain (m : Message) : Type 0 where
  pub known_version : m.version ≢ http_version_unknown
  pub path_there : 0 < length m.path
  pub no_question : lacks 63 m.path ≡ true
  pub uri_fits : length (message_uri m) ≤ 2047
  pub uri_solid : no_space (message_uri m) ≡ true
  pub uri_no_nul : lacks 0 (message_uri m) ≡ true
  pub plain_header : IsPlainHeader m.header
  pub plain_headers : ArePlain m.headers

line_of-IsLine : (h : CString × CString) → IsPlainHeader h → IsLine (line_of h)
line_of-IsLine h p = (omega (arith, length-append h.0 (b':' ∷ (b' ' ∷ h.1))), p.one_line)

pub lines-AreLines : (hs : List (CString × CString)) → ArePlain hs → AreLines (map line_of hs)
lines-AreLines [] p = tt
lines-AreLines (h ∷ hs) p = (line_of-IsLine h p.0, lines-AreLines hs p.1)

header_of-line_of :
    (h : CString × CString) → IsPlainHeader h → header_of (line_of h) ≡ header_record h ∷ []
unfolding header_of skip_space is_space
header_of-line_of h p =
    rw (header_of, cut-first 58 [] h.0 (b' ' ∷ h.1) p.no_colon)
      (ap (λ (t : CString). record { name = some h.0; value = some t } ∷ []) p.value_at_once)

pub lines-Gives :
    (hs : List (CString × CString)) → ArePlain hs → Gives (map line_of hs) (map header_record hs)
lines-Gives [] p = tt
lines-Gives (h ∷ hs) p = (header_of-line_of h p.0, lines-Gives hs p.1)

pub lines-lacks :
    (hs : List (CString × CString)) → ArePlain hs → lacks 0 (ended (map line_of hs)) ≡ true
lines-lacks [] p = refl
lines-lacks (h ∷ hs) p =
    lacks-append 0 (line_of h) (crlf ++ ended (map line_of hs)) p.0.no_nul (lines-lacks hs p.1)

-- There is no empty line behind the first line where neither headers nor another line end come.
pub cut-headerless : (s : CString) → lacks 13 s ≡ true → cut (crlf ++ crlf) (crlf ++ s) ≡ none
unfolding cut strip
cut-headerless [] h = refl
cut-headerless (d ∷ s) h =
    cut-between d s (first d s h) ∙ ap (shifted crlf) (cut-none 13 (10 ∷ crlf) (d ∷ s) h)
  where
    first : (d : ℕ) (s : CString) → lacks 13 (d ∷ s) ≡ true → d == 13 ≡ false
    first d s h = ground arith

pub c_string-lacks : (c : ℕ) (b : Bytes) → lacks c b ≡ true → lacks c (c_string b) ≡ true
unfolding c_string
c_string-lacks c [] h = refl
c_string-lacks c (x ∷ b) h = elim (Bool-cases (x == 0)) [
  | inl nul ↦ rw (c_string, nul) refl
  | inr other ↦
      let (apart, rest) = lacks-cons c x b h in
      rw (c_string, other, apart) (c_string-lacks c b rest)
]
  where
    lacks-cons :
        (c x : ℕ) (b : Bytes) → lacks c (x ∷ b) ≡ true → (x == c ≡ false) × (lacks c b ≡ true)
    lacks-cons c x b h = ground arith

-- What the scan of the first line gives.
pub version_of-version_text :
    (v old : Version) → v ≢ http_version_unknown → version_of (version_text v) old ≡ v
unfolding version_of str_eq
version_of-version_text http_1_0 old k = refl
version_of-version_text http_1_1 old k = refl
version_of-version_text http_2_0 old k = refl
version_of-version_text http_version_unknown old k = absurd (k refl)

module _ (s : CString) where
  pub scan-method :
      (m : Method)
      → scan_s 15 (method_to_string m ++ (b' ' ∷ s)) ≡ some (method_to_string m, b' ' ∷ s)
  unfolding method_to_string is_space
  scan-method http_get = scan_s-word 15 32 _ _ s refl refl (omega arith)
  scan-method http_post = scan_s-word 15 32 _ _ s refl refl (omega arith)
  scan-method http_put = scan_s-word 15 32 _ _ s refl refl (omega arith)
  scan-method http_delete = scan_s-word 15 32 _ _ s refl refl (omega arith)
  scan-method http_head = scan_s-word 15 32 _ _ s refl refl (omega arith)
  scan-method http_options = scan_s-word 15 32 _ _ s refl refl (omega arith)
  scan-method http_patch = scan_s-word 15 32 _ _ s refl refl (omega arith)
  scan-method http_unknown = scan_s-word 15 32 _ _ s refl refl (omega arith)

  pub scan-uri :
      (uri : CString)
      → 0 < length uri
      → length uri ≤ 2047
      → no_space uri ≡ true
      → scan_s 2047 (b' ' ∷ (uri ++ (b' ' ∷ s))) ≡ some (uri, b' ' ∷ s)
  unfolding is_space
  scan-uri [] there fits solid = absurd (omega arith)
  scan-uri (x ∷ a) there fits solid = scan_s-space 2047 32 x a s solid refl fits

  pub scan-version :
      (v : Version)
      → scan_s 15 (b' ' ∷ (version_text v ++ (13 ∷ s))) ≡ some (version_text v, 13 ∷ s)
  unfolding is_space
  scan-version http_1_0 = scan_s-space 15 13 _ _ s refl refl (omega arith)
  scan-version http_1_1 = scan_s-space 15 13 _ _ s refl refl (omega arith)
  scan-version http_2_0 = scan_s-space 15 13 _ _ s refl refl (omega arith)
  scan-version http_version_unknown = scan_s-space 15 13 _ _ s refl refl (omega arith)

pub method-lacks : (m : Method) (c : ℕ) → c < 65 → lacks c (method_to_string m) ≡ true
unfolding method_to_string
method-lacks http_get c h = ground arith
method-lacks http_post c h = ground arith
method-lacks http_put c h = ground arith
method-lacks http_delete c h = ground arith
method-lacks http_head c h = ground arith
method-lacks http_options c h = ground arith
method-lacks http_patch c h = ground arith
method-lacks http_unknown c h = ground arith

pub version-lacks : (v : Version) (c : ℕ) → c < 32 → lacks c (b' ' ∷ version_text v) ≡ true
version-lacks http_1_0 c h = ground arith
version-lacks http_1_1 c h = ground arith
version-lacks http_2_0 c h = ground arith
version-lacks http_version_unknown c h = ground arith

-- The path and the query are the parts of the address.
pub split_uri-message : (m : Message) → IsPlain m → split_uri (message_uri m) ≡ (m.path, m.query)
unfolding split_uri
split_uri-message m p = by_query m.query
  where
    by_query :
        (q : Option CString)
        → split_uri (m.path ++ (elim q [ none ↦ [] | some t ↦ b'?' ∷ t ])) ≡ (m.path, q)
    by_query none =
        ap split_uri (append-nil m.path) ∙ rw (split_uri, cut-none 63 [] m.path p.no_question) refl
    by_query (some q) = rw (split_uri, cut-first 63 [] m.path q p.no_question) refl
