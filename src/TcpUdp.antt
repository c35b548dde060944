-- ===== src/TcpUdp.antt =====
-- src/tcp_udp/tcp_udp.c: servers, connections, clients and datagram sockets, whose functions keep flags
-- and open no descriptor. Where a function closes a descriptor, the ones closed are a result. A text in
-- an array of `n` bytes is cut to `n - 1`, as `strncpy` does into memory that is zero.
pub mod Sessions
pub mod Multiplexer
use backend_in_c.Prelude.{
  ℕ, ◌-◌, List, [], ◌∷◌, ◌++◌, Option, none, some, Bool, true, false, ◌||◌, CString, codes, length,
  take, ltb, leb, ◌==◌, if◌then◌else◌,
}
use backend_in_c.Common.{ErrorCode, success, error_invalid_param}
use backend_in_c.Common.Words.{ℤ, pos, negsuc, u64}

pub record TcpServer : Type 0 where
  pub sockfd : ℤ
  pub backlog : ℤ
  pub host : CString
  pub port : CString
  pub is_listening : Bool

pub record TcpConnection : Type 0 where
  pub sockfd : ℤ
  pub is_active : Bool

pub record TcpClient : Type 0 where
  pub sockfd : ℤ
  pub host : CString
  pub port : ℤ
  pub is_connected : Bool

pub record UdpSocket : Type 0 where
  pub sockfd : ℤ
  pub is_bound : Bool
  pub is_connected : Bool

abbrev array_text : ℕ → Option CString → CString
array_text size none = []
array_text size (some s) = take (size - 1) s

-- `close(sockfd)` and `sockfd = -1`, if it is a descriptor: the descriptors closed
unfoldable pub closed_fd : ℤ → List ℕ
closed_fd (pos fd) = fd ∷ []
closed_fd (negsuc k) = []

unfoldable pub after_close : ℤ → ℤ
after_close (pos fd) = negsuc 0
after_close (negsuc k) = negsuc k

-- `tcp_server_create`
unfoldable pub server_create : Option CString → Option CString → ℤ → TcpServer
server_create host port backlog = record {
  sockfd = negsuc 0;
  backlog = backlog;
  host = array_text 256 host;
  port = array_text 32 port;
  is_listening = false;
}

-- `tcp_server_accept`, whose place for the client may be NULL
unfoldable pub server_accept : Option TcpServer → Bool → ErrorCode × Option TcpConnection
server_accept (some server) true = (success, some (record { sockfd = negsuc 0; is_active = false }))
server_accept server place = (error_invalid_param, none)

-- `tcp_server_listen`
unfoldable pub server_listen : Option TcpServer → ErrorCode × Option TcpServer
server_listen none = (error_invalid_param, none)
server_listen (some server) = (success, some (record server { is_listening = true }))

-- `tcp_server_stop`
unfoldable pub server_stop : Option TcpServer → Option TcpServer × List ℕ
unfolding closed_fd after_close
server_stop none = (none, [])
server_stop (some server) = (
  some (record server { sockfd = after_close server.sockfd; is_listening = false }),
  closed_fd server.sockfd,
)

-- `tcp_server_destroy`
unfoldable pub server_destroy : Option TcpServer → List ℕ
unfolding server_stop
server_destroy server = (server_stop server).1

-- `tcp_client_create`
unfoldable pub client_create : Option CString → ℤ → TcpClient
client_create host port = record {
  sockfd = negsuc 0;
  host = array_text 256 host;
  port = port;
  is_connected = false;
}

-- `tcp_client_connect`
unfoldable pub client_connect : Option TcpClient → ErrorCode × Option TcpClient
client_connect none = (error_invalid_param, none)
client_connect (some client) = (success, some (record client { is_connected = true }))

-- `tcp_client_destroy`
unfoldable pub client_destroy : Option TcpClient → List ℕ
unfolding closed_fd
client_destroy none = []
client_destroy (some client) = closed_fd client.sockfd

-- `(ssize_t)len`
unfoldable pub ssize_of : ℕ → ℤ
ssize_of len = if ltb len 9_223_372_036_854_775_808 then pos len else negsuc ((u64 - 1) - len)

-- `tcp_send`; whether `data` is NULL is an argument
unfoldable pub send : Option TcpConnection → Bool → ℕ → ℤ
unfolding ssize_of
send (some conn) true len = if len == 0 then negsuc 0 else ssize_of len
send conn bytes len = negsuc 0

-- `tcp_recv`
unfoldable pub recv : Option TcpConnection → Bool → ℕ → ℤ
recv (some conn) true len = if len == 0 then negsuc 0 else pos 0
recv conn buffer len = negsuc 0

-- `tcp_close`
unfoldable pub connection_close : Option TcpConnection → Option TcpConnection × List ℕ
unfolding closed_fd after_close
connection_close none = (none, [])
connection_close (some conn) = (
  some (record conn { sockfd = after_close conn.sockfd; is_active = false }),
  closed_fd conn.sockfd,
)

-- `udp_socket_create`
unfoldable pub udp_create : UdpSocket
udp_create = record { sockfd = negsuc 0; is_bound = false; is_connected = false }

-- `udp_bind`
unfoldable pub udp_bind : Option UdpSocket → ErrorCode × Option UdpSocket
udp_bind none = (error_invalid_param, none)
udp_bind (some s) = (success, some (record s { is_bound = true }))

-- `udp_connect`
unfoldable pub udp_connect : Option UdpSocket → ErrorCode × Option UdpSocket
udp_connect none = (error_invalid_param, none)
udp_connect (some s) = (success, some (record s { is_connected = true }))

-- `udp_sendto` and `udp_send`, which do the same
unfoldable pub udp_send : Option UdpSocket → Bool → ℕ → ℤ
unfolding ssize_of
udp_send (some s) true len = if len == 0 then negsuc 0 else ssize_of len
udp_send s bytes len = negsuc 0

-- `udp_recvfrom` and `udp_recv`, which do the same
unfoldable pub udp_recv : Option UdpSocket → Bool → ℕ → ℤ
udp_recv (some s) true len = if len == 0 then negsuc 0 else pos 0
udp_recv s buffer len = negsuc 0

-- `udp_close`
unfoldable pub udp_close : Option UdpSocket → Option UdpSocket × List ℕ
unfolding closed_fd after_close
udp_close none = (none, [])
udp_close (some s) = (
  some (record s { sockfd = after_close s.sockfd; is_bound = false; is_connected = false }),
  closed_fd s.sockfd,
)

-- `udp_socket_destroy`
unfoldable pub udp_destroy : Option UdpSocket → List ℕ
unfolding udp_close
udp_destroy s = (udp_close s).1

-- `socket_set_option` and `socket_get_option`, whose pointers must not be NULL
unfoldable pub option_call : ℤ → Bool → ErrorCode
option_call (pos fd) true = success
option_call sockfd pointers = error_invalid_param

-- `socket_set_nonblocking` and the seven other settings, which do the same
unfoldable pub set_call : ℤ → ErrorCode
set_call (pos fd) = success
set_call (negsuc k) = error_invalid_param
