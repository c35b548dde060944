-- ===== src/Webserver/Tests.antt =====
-- A server in use, and the laws of src/webserver/webserver.c at it.
use backend_in_c.Prelude.{◌≡◌, refl, List, [], ◌∷◌, none, some, true, false, codes, arith, length}
use backend_in_c.Common.Words.{pos}
use backend_in_c.Common.Decimal.{print_lu, print_digits}
use backend_in_c.Http.{
  method_to_string, http_get, http_1_1, response_create, set_body, add_header, status_line,
  required_size, headers_size, print_d,
}
use backend_in_c.Http.Parse.{is_space, skip_space}
use backend_in_c.Http.Message.{Message, print, request_of, IsPlain}
use backend_in_c.Http.Serialize.{message_of}
use backend_in_c.Webserver.{
  Webserver, Answers, create, destroy, sent, closed, ok_response, default_response, respond,
  handle_client,
}
use backend_in_c.Common.Blocks.{allocate}
use backend_in_c.Webserver.Memory.{client_blocks, default_calls, client-releases}
use backend_in_c.Webserver.Clients.{handle_client-print}
use backend_in_c.Webserver.Sockets.{
  ServerCall, start_call, stop_call, set_handler_call, perform_all, destroy-closes,
}

abbrev message : Message
message = record {
  method = http_get;
  version = http_1_1;
  path = codes "/";
  query = none;
  header = (codes "Host", codes "localhost");
  headers = [];
  body = [];
}

message-IsPlain : IsPlain message
unfolding is_space skip_space
message-IsPlain = record {
  known_version = λ e. cc;
  path_there = omega arith;
  no_question = refl;
  uri_fits = omega arith;
  uri_solid = refl;
  uri_no_nul = refl;
  plain_header = record { no_colon = refl; one_line = refl; no_nul = refl; value_at_once = refl };
  plain_headers = tt;
}

abbrev server : Webserver Unit
server = create (pos 8080)

short-line : length (status_line (respond server (request_of message))) ≡ 17
unfolding respond create default_response ok_response status_line print_d print_lu print_digits
    add_header set_body response_create
short-line = refl

small-size : required_size (respond server (request_of message)) ≡ 310
unfolding respond create default_response ok_response required_size headers_size add_header set_body
    response_create
small-size = refl

handle_client-print_example :
    handle_client server 5 (print message)
    ≡ sent 5 (message_of (respond server (request_of message))) ∷ closed 5 ∷ []
unfolding method_to_string
handle_client-print_example =
    handle_client-print server 5 message message-IsPlain (omega arith) (omega (arith, short-line))
      (omega (arith, small-size))

abbrev healthy : Answers
healthy = record {
  socket = some 4;
  setsockopt = true;
  bind = true;
  listen = true;
  pthread_create = true;
}

abbrev port_taken : Answers
port_taken = record healthy { bind = false }

abbrev server_calls : List (ServerCall Unit)
server_calls =
    start_call port_taken
    ∷ start_call healthy
    ∷ set_handler_call none none
    ∷ start_call healthy
    ∷ stop_call
    ∷ start_call healthy
    ∷ []

destroy-closes_example :
    let s = perform_all server_calls (some (create (pos 8080)), 0 ∷ 1 ∷ []) in
    destroy s.0 s.1 ≡ 0 ∷ 1 ∷ []
destroy-closes_example = destroy-closes (pos 8080) (0 ∷ 1 ∷ []) server_calls

client-releases_example :
    client_blocks (λ request. default_calls) (print message) (allocate 1 (some 20)) ≡ some 20
client-releases_example = client-releases (λ request. default_calls) (print message) 20
