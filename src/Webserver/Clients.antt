-- ===== src/Webserver/Clients.antt =====
-- What `handle_client` of src/webserver/webserver.c sends to a client.
use backend_in_c.Prelude.{
  ℕ, ◌<◌, ◌≡◌, refl, ap, [], ◌∷◌, false, Bytes, length, length-append, take, ◌==◌, arith,
}
use backend_in_c.Common.Words.{u64}
use backend_in_c.Http.{status_line, required_size}
use backend_in_c.Http.Serialize.{message_of, serialize-fits}
use backend_in_c.Http.Message.{Message, print, request_of, request_line, IsPlain}
use backend_in_c.Http.RoundTrip.{parse-print}
use backend_in_c.Webserver.{Webserver, sent, closed, buffer_size, succeeded, respond, handle_client}

take-all : (b : Bytes) → take (length b) b ≡ b
take-all [] = refl
take-all (x ∷ b) = ap (λ t. x ∷ t) (take-all b)

module _ {U : Type 0} (server : Webserver U) (client_fd : ℕ) (m : Message) (p : IsPlain m) where
  -- A client that sends a request as `parse-print` says, in one piece that fits the buffer, gets the
  -- response that the handler, or else the default, makes for the request as it was meant, status line,
  -- headers, empty line and body, if its status line is shorter than 258 bytes and its buffer smaller
  -- than 2 ^ 64; then the connection is closed.
  pub handle_client-print :
      length (print m) < buffer_size
      → length (status_line (respond server (request_of m))) < 258
      → required_size (respond server (request_of m)) < u64
      → handle_client server client_fd (print m)
        ≡ sent client_fd (message_of (respond server (request_of m))) ∷ closed client_fd ∷ []
  unfolding handle_client succeeded
  handle_client-print fits short small =
      let r = respond server (request_of m) in
      let some_read : length (print m) == 0 ≡ false =
        nonzero (length (print m)) (omega (arith, length-append (request_line m) _)) in
      rw
        (
          handle_client,
          some_read,
          parse-print m p,
          serialize-fits r short small,
          take-all (message_of r),
        )
        refl
    where
      nonzero : (n : ℕ) → 0 < n → n == 0 ≡ false
      nonzero n some_there = ground arith
