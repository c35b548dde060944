-- ===== src/TcpUdp/Multiplexer.antt =====
-- The rest of src/tcp_udp/tcp_udp.c: the addresses, the multiplexer, the echo programs and the names
-- of the errors. These functions look at their arguments and do nothing else. An argument that is a
-- place for a result, or an array, is true where it is not NULL.
use backend_in_c.Prelude.{
  ℕ, ◌-◌, List, [], ◌∷◌, Option, none, some, Bool, true, false, ◌&&◌, CString, Bytes, codes, take,
  zero, suc, ◌==◌, if◌then◌else◌,
}
use backend_in_c.Common.{ErrorCode, success, error_invalid_param, int_of}
use backend_in_c.Common.Words.{ℤ, pos, negsuc}
use backend_in_c.Common.Blocks.{Blocks, allocate, release}

-- A `socket_address_t` is known by its bytes.
pub record AddressInfo : Type 0 where
  pub family : ℤ
  pub socktype : ℤ
  pub protocol : ℤ
  pub address : Bytes
  pub host : CString
  pub service : CString

-- `resolve_address`: the list of results, where one is written
unfoldable pub resolve_address : Option CString → Bool → ErrorCode × Option (List AddressInfo)
resolve_address (some hostname) true = (success, some [])
resolve_address hostname results = (error_invalid_param, none)

-- `free_address_info`
unfoldable pub free_address_info : List AddressInfo → Blocks → Blocks
free_address_info [] blocks = blocks
free_address_info (info ∷ rest) blocks = free_address_info rest (release 1 blocks)

-- `address_to_string`: the text in a buffer of `len` bytes
unfoldable pub address_to_string : Bool → Bool → ℕ → ErrorCode × Option CString
address_to_string addr buffer len =
    if addr && buffer
    then (if len == 0
        then (error_invalid_param, none)
        else (success, some (take (len - 1) (codes "0.0.0.0"))))
    else (error_invalid_param, none)

-- `string_to_address`: whether the address is cleared
unfoldable pub string_to_address : Option CString → Bool → ErrorCode × Bool
string_to_address (some str) true = (success, true)
string_to_address str addr = (error_invalid_param, false)

pub data MultiplexerType : Type 0 where
  multiplexer_select multiplexer_poll multiplexer_epoll multiplexer_kqueue : MultiplexerType

-- `internal_data` is NULL from the creation on.
pub record Multiplexer : Type 0 where
  pub type : MultiplexerType
  pub max_events : ℕ

-- `multiplexer_create`, where `calloc` gives memory
unfoldable pub multiplexer_create : MultiplexerType → Bool → Blocks → Option Multiplexer × Blocks
multiplexer_create type false blocks = (none, blocks)
multiplexer_create type true blocks =
    (some (record { type = type; max_events = 1024 }), allocate 1 blocks)

-- `multiplexer_add`, `multiplexer_modify` and `multiplexer_remove` of a descriptor
unfoldable pub multiplexer_add : Option Multiplexer → ℤ → ErrorCode
multiplexer_add (some mux) (pos sockfd) = success
multiplexer_add mux sockfd = error_invalid_param

unfoldable pub multiplexer_modify : Option Multiplexer → ℤ → ErrorCode
multiplexer_modify (some mux) (pos sockfd) = success
multiplexer_modify mux sockfd = error_invalid_param

unfoldable pub multiplexer_remove : Option Multiplexer → ℤ → ErrorCode
multiplexer_remove (some mux) (pos sockfd) = success
multiplexer_remove mux sockfd = error_invalid_param

-- `multiplexer_wait`: the number of events, or an error
unfoldable pub multiplexer_wait : Option Multiplexer → Bool → ℤ → ℤ
multiplexer_wait (some mux) true (pos (suc n)) = pos 0
multiplexer_wait mux events max_events = int_of error_invalid_param

-- `multiplexer_destroy`
unfoldable pub multiplexer_destroy : Option Multiplexer → Blocks → Blocks
multiplexer_destroy none blocks = blocks
multiplexer_destroy (some mux) blocks = release 1 blocks

-- `tcp_echo_server` and `udp_echo_server`, `tcp_echo_client` and `udp_echo_client`
abbrev pub echo_server : ErrorCode
echo_server = success

unfoldable pub echo_client : Option CString → Option CString → ErrorCode
echo_client (some host) (some message) = success
echo_client host message = error_invalid_param

-- `socket_error_string`
unfoldable pub socket_error_string : ℤ → CString
socket_error_string (pos zero) = codes "Success"
socket_error_string (pos (suc n)) = codes "Unknown error"
socket_error_string (negsuc n) =
    if n == 0
    then codes "Memory allocation error"
    else if n == 1
    then codes "Invalid parameter"
    else if n == 2
    then codes "Not found"
    else if n == 7
    then codes "Timeout"
    else codes "Unknown error"
