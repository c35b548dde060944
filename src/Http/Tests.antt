-- ===== src/Http/Tests.antt =====
-- A small response, and the laws of HTTP messages at it.
use backend_in_c.Prelude.{
  ℕ, ◌<◌, ◌+◌, Bytes, ◌≡◌, refl, none, some, [], ◌∷◌, ◌++◌, codes, length, arith, false,
}
use backend_in_c.Common.{success}
use backend_in_c.Http.Request.{Request, request_create}
use backend_in_c.Http.Blocks.{request_destroy, parse_blocks}
use backend_in_c.Http.Destroy.{owned}
use backend_in_c.Http.Leaks.{parse_again}
use backend_in_c.Wal.{c_string}
use backend_in_c.Http.Parse.{parse, is_space, skip_space, cut, strip, scan_line, scan_s, word}
use backend_in_c.Http.Message.{Message, print, request_of, request_line, IsPlain}
use backend_in_c.Http.RoundTrip.{parse-print, parse_headerless}
use backend_in_c.Common.Words.{pos}
use backend_in_c.Common.Decimal.{print_lu, print_digits}
use backend_in_c.Http.{
  http_post, crlf, Response, http_1_1, serialize, status_line, required_size, headers_size,
}
use backend_in_c.Http.Serialize.{message_of, serialize-fits}

abbrev response : Response
response = record {
  version = http_1_1;
  status_code = pos 200;
  status_message = codes "OK";
  headers = (codes "Server", codes "backend") ∷ [];
  body = codes "hello";
}

response-line : length (status_line response) ≡ 17
unfolding status_line print_lu print_digits
response-line = refl

response-size : required_size response ≡ 282
unfolding required_size headers_size
response-size = refl

serialize-fits_example :
    serialize (some response)
    ≡ some (record {
      text = message_of response;
      offset = length (message_of response);
      overrun = false;
    })
serialize-fits_example =
    serialize-fits response (omega (arith, response-line)) (omega (arith, response-size))

abbrev message : Message
message = record {
  method = http_post;
  version = http_1_1;
  path = codes "/items";
  query = some (codes "id=7");
  header = (codes "Host", codes "localhost");
  headers = (codes "Accept", codes "*/*") ∷ [];
  body = codes "hello";
}

message-IsPlain : IsPlain message
unfolding is_space skip_space
message-IsPlain = record {
  known_version = λ e. cc;
  path_there = omega arith;
  no_question = refl;
  uri_fits = omega arith;
  uri_solid = refl;
  uri_no_nul = refl;
  plain_header = record { no_colon = refl; one_line = refl; no_nul = refl; value_at_once = refl };
  plain_headers =
      (record { no_colon = refl; one_line = refl; no_nul = refl; value_at_once = refl }, tt);
}

parse-print_example :
    parse (some (print message)) (some request_create) ≡ (success, some (request_of message))
parse-print_example = parse-print message message-IsPlain

parse_headerless_example :
    parse (some (request_line message ++ (crlf ++ (crlf ++ message.body)))) (some request_create)
    ≡ (success, some (record (request_of message) { headers = []; body = none }))
parse_headerless_example = parse_headerless message message-IsPlain refl

abbrev short_request : Bytes
short_request = codes "GET / HTTP/1.1" ++ (crlf ++ crlf)

-- A request that has been parsed before.
abbrev used : Request
used = record request_create { uri = some (codes "/old"); path = some (codes "/old") }

short-parses : (parse (some short_request) (some used)).0 ≡ success
unfolding parse cut strip scan_line scan_s word skip_space is_space c_string
short-parses = refl

parse_again_example :
    (after : Request) × (n : ℕ) × ((parse (some short_request) (some used)).1 ≡ some after)
    × (request_destroy (some after) (parse_blocks short_request (some (5 + owned used))) ≡ some n)
    × (5 < n)
unfolding request_create
parse_again_example = parse_again short_request used (codes "/old") 5 refl short-parses
