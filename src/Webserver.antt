-- ===== src/Webserver.antt =====
-- The web server of src/webserver/webserver.c. What the operating system answers is an argument of the
-- functions that ask it, and so is the list of the descriptors that the process has open. The `user_data`
-- of a handler is of some type `U`; a handler fills in the response that it is given.
pub mod Clients
pub mod Sockets
pub mod Memory
pub mod Tests
use backend_in_c.Prelude.{
  ℕ, zero, suc, ◌-◌, List, [], ◌∷◌, ◌++◌, Option, none, some, Bool, true, false, not, CString,
  Bytes, codes, length, take, ◌==◌, if◌then◌else◌,
}
use backend_in_c.Common.{ErrorCode, success, error_invalid_param, error_io}
use backend_in_c.Common.Words.{ℤ, pos, negsuc}
use backend_in_c.Http.{Response, response_create, set_body, add_header, serialize}
use backend_in_c.Http.Request.{Request, request_create}
use backend_in_c.Http.Parse.{parse}

abbrev pub Handler : Type 0 → Type 0
Handler U = Request → Response → Option U → Response

pub record Webserver (U : Type 0) : Type 0 where
  pub port : ℤ
  pub socket_fd : ℤ
  pub is_running : Bool
  pub handler : Option (Handler U)
  pub user_data : Option U

-- What becomes of a client's connection.
pub data Event : Type 0 where
  sent : ℕ → Bytes → Event
  closed : ℕ → Event
  handed_over : ℕ → Event

-- `recv` fills all but the last byte.
abbrev pub buffer_size : ℕ
buffer_size = 8192

-- The response before the handler sees it.
unfoldable pub ok_response : Response
ok_response = response_create (pos 200) (some (codes "OK"))

unfoldable pub default_response : Response → Response
default_response r =
    let with_body : Response =
      elim (set_body (some (codes "Hello from backend-in-c!")) (some r)).1 [
        | some r' ↦ r'
        | none ↦ r
      ] in
    elim (add_header (some (codes "Content-Type")) (some (codes "text/plain")) (some with_body)).1 [
      | some r' ↦ r'
      | none ↦ with_body
    ]

unfoldable pub succeeded : ErrorCode → Bool
succeeded success = true
succeeded code = false

-- A descriptor that is closed; nothing happens where it is no open one.
unfoldable pub close_fd : ℤ → List ℕ → List ℕ
close_fd (pos fd) [] = []
close_fd (pos fd) (n ∷ fds) = if n == fd then fds else n ∷ close_fd (pos fd) fds
close_fd (negsuc k) fds = fds

-- What the calls of `webserver_start` answer: a descriptor or -1, and which of the others succeed.
pub record Answers : Type 0 where
  pub socket : Option ℕ
  pub setsockopt : Bool
  pub bind : Bool
  pub listen : Bool
  pub pthread_create : Bool

module _ {U : Type 0} where
  -- The handler is called with the `user_data` that it was set with.
  unfoldable pub respond : Webserver U → Request → Response
  respond server request = elim server.handler [
    | none ↦ default_response ok_response
    | some handle ↦ handle request ok_response server.user_data
  ]

  -- `handle_client` with the bytes that `recv` puts into the buffer, which are none where it fails
  unfoldable pub handle_client : Webserver U → ℕ → Bytes → List Event
  handle_client server client_fd received =
      let request = parse (some received) (some request_create) in
      let answer : List Event = elim request.1 [
        | none ↦ []
        | some r ↦ elim (serialize (some (respond server r))) [
          | none ↦ []
          | some o ↦ sent client_fd (take o.offset o.text) ∷ []
        ]
      ] in
      let none_read = length received == 0 in
      (if none_read then [] else if succeeded request.0 then answer else [])
      ++ closed client_fd ∷ []

  -- `webserver_create`
  unfoldable pub create : ℤ → Webserver U
  create port = record {
    port = port;
    socket_fd = negsuc 0;
    is_running = false;
    handler = none;
    user_data = none;
  }

  -- `webserver_set_handler`
  unfoldable pub set_handler :
      Option (Handler U) → Option U → Option (Webserver U) → ErrorCode × Option (Webserver U)
  set_handler handler user_data none = (error_invalid_param, none)
  set_handler handler user_data (some server) =
      (success, some (record server { handler = handler; user_data = user_data }))

  -- The part of `webserver_start` from the call of `socket` on, by what the calls answer in their order.
  unfoldable pub bring_up :
      Option ℕ
      → Bool
      → Bool
      → Bool
      → Bool
      → Webserver U
      → List ℕ
      → ErrorCode × Option (Webserver U) × List ℕ
  unfolding close_fd
  bring_up none setsockopt bind listen thread server fds =
      (error_io, some (record server { socket_fd = negsuc 0 }), fds)
  bring_up (some fd) setsockopt bind listen thread server fds =
      let with_socket : Webserver U = record server { socket_fd = pos fd } in
      let failed : ErrorCode × Option (Webserver U) × List ℕ =
        (error_io, some with_socket, close_fd (pos fd) (fd ∷ fds)) in
      if not setsockopt
      then failed
      else if not bind
      then failed
      else if not listen
      then failed
      else if thread
      then (success, some (record with_socket { is_running = true }), fd ∷ fds)
      else failed

  -- `webserver_start`
  unfoldable pub start :
      Answers → Option (Webserver U) → List ℕ → ErrorCode × Option (Webserver U) × List ℕ
  unfolding bring_up
  start os none fds = (error_invalid_param, none, fds)
  start os (some server) fds =
      if server.is_running
      then (error_invalid_param, some server, fds)
      else bring_up os.socket os.setsockopt os.bind os.listen os.pthread_create server fds

  -- `webserver_stop`
  unfoldable pub stop : Option (Webserver U) → List ℕ → Option (Webserver U) × List ℕ
  unfolding close_fd
  stop none fds = (none, fds)
  stop (some server) fds =
      if server.is_running
      then (some (record server { is_running = false }), close_fd server.socket_fd fds)
      else (some server, fds)

  -- `webserver_destroy`: the descriptors that are left open
  unfoldable pub destroy : Option (Webserver U) → List ℕ → List ℕ
  unfolding stop
  destroy none fds = fds
  destroy (some server) fds = if server.is_running then (stop (some server) fds).1 else fds

  -- `webserver_is_running`
  unfoldable pub is_running_of : Option (Webserver U) → Bool
  is_running_of none = false
  is_running_of (some server) = server.is_running

-- A turn of the loop that takes the clients: what `is_running` is when it is read, and what `accept`
-- and `pthread_create` answer.
pub record Turn : Type 0 where
  pub running : Bool
  pub accepted : Option ℕ
  pub thread_created : Bool

unfoldable pub take_client : Turn → List Event
take_client t = elim t.accepted [
  | none ↦ []
  | some fd ↦ if t.thread_created then handed_over fd ∷ [] else closed fd ∷ []
]

-- `server_loop`
unfoldable pub server_loop : List Turn → List Event
unfolding take_client
server_loop [] = []
server_loop (t ∷ ts) = let rest = server_loop ts in if t.running then take_client t ++ rest else []
