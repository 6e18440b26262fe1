-- ===== src/TcpSocket.antt =====
-- src/brutils/TcpSocket/TcpSocket.cpp: a socket's state, and its operations with the signals that they
-- emit and the system calls that they make. What a system call returns is an argument. The mutex is
-- recursive, so a call within a call does not wait, and each call is one step.
pub mod Transfer
pub mod Reading
pub mod Requests
mod Tests
use brutils.Base.{
  ℕ, zero, suc, ◌+◌, ◌*◌, ℤ, pos, negsuc, Bytes, codes, Bool, true, false, Option, none, some, List,
  [], ◌∷◌, ◌++◌, length, ltb, ◌==◌, ◌||◌, if◌then◌else◌,
}
use brutils.Json.Generator.{show_int}

pub data ConnectionStatus : Type 0 where
  not_connected connected : ConnectionStatus

pub data ErrorCode : Type 0 where
  no_error sys_error not_allowed_in_current_state not_allowed_while_buffer_is_not_empty
        bad_socket_descriptor :
      ErrorCode

pub record TcpError : Type 0 where
  pub error_code : ErrorCode
  pub error_str : Bytes

pub record TcpSocket : Type 0 where
  pub connection_status : ConnectionStatus
  pub last_error : TcpError
  pub read_buffer_size : ℕ
  pub data_buffer : Bytes
  pub socket_d : ℤ

pub record SockAddr : Type 0 where
  pub sin_family : ℕ
  pub sin_addr : ℕ
  pub sin_port : ℕ

-- The system: its error numbers and their texts, the conversions of addresses and ports, and
-- `max_size` of a vector.
pub record System : Type 0 where
  pub eagain : ℕ
  pub ewouldblock : ℕ
  pub strerror : ℕ → Bytes
  pub inet_pton : Bytes → Option ℕ
  pub inet_ntoa : ℕ → Bytes
  pub ntohs : ℕ → ℕ
  pub max_size : ℕ

-- What a system call returns, and `errno` after it.
pub record Call : Type 0 where
  pub result : ℤ
  pub errno : ℕ

-- A result of `recv`: some bytes, none when the peer has closed the connection, or -1 with `errno`.
pub data Received : Type 0 where
  received : Bytes → Received
  failed : ℕ → Received

-- A signal that is emitted, or a system call that is made.
pub data Event : Type 0 where
  emit_connected emit_disconnected emit_data_ready emit_destroyed : Event
  emit_error : TcpError → Event
  call_socket : Event
  call_connect : ℤ → SockAddr → Event
  call_close call_shutdown : ℤ → Event
  call_send : ℤ → Bytes → Event

abbrev pub Step {ℓ} : Type ℓ → Type ℓ
Step A = A × TcpSocket × List Event

abbrev pub incoming_data_size : ℕ
incoming_data_size = 1024

abbrev pub default_read_buffer_size : ℕ
default_read_buffer_size = 1024 * 1024

unfoldable pub is_connected : ConnectionStatus → Bool
is_connected connected = true
is_connected not_connected = false

unfoldable pub is_zero : ℤ → Bool
is_zero (pos n) = n == 0
is_zero (negsuc n) = false

unfoldable pub is_minus_one : ℤ → Bool
is_minus_one (pos n) = false
is_minus_one (negsuc n) = n == 0

unfoldable pub is_positive : ℤ → Bool
is_positive (pos n) = ltb 0 n
is_positive (negsuc n) = false

-- The error that is recorded and emitted, and what the call returns then.
unfoldable pub fail_with {ℓ} : {A : Type ℓ} → A → TcpError → TcpSocket → Step A
fail_with a e w = (a, record w { last_error = e }, emit_error e ∷ [])

abbrev pub not_allowed : Bytes → TcpError
not_allowed s = record { error_code = not_allowed_in_current_state; error_str = s }

unfoldable pub system_error : System → ℕ → TcpError
unfolding show_int
system_error os errno = record {
  error_code = sys_error;
  error_str = show_int (pos errno) ++ codes " - " ++ os.strerror errno;
}

unfoldable pub peer_address : System → Call → ℕ → TcpSocket → Step Bytes
unfolding is_connected is_zero fail_with system_error
peer_address os getpeername sin_addr w =
    if is_connected w.connection_status
    then (if is_zero getpeername.result
        then (os.inet_ntoa sin_addr, w, [])
        else fail_with [] (system_error os getpeername.errno) w)
    else fail_with [] (not_allowed (codes "Peer address is not available in not connected state")) w

unfoldable pub peer_port : System → Call → ℕ → TcpSocket → Step ℕ
unfolding is_connected is_zero fail_with system_error
peer_port os getpeername sin_port w =
    if is_connected w.connection_status
    then (if is_zero getpeername.result
        then (os.ntohs sin_port, w, [])
        else fail_with 0 (system_error os getpeername.errno) w)
    else fail_with 0 (not_allowed (codes "Peer port is not available in not connected state")) w

unfoldable pub set_read_buffer_size : System → ℕ → TcpSocket → Step Bool
unfolding fail_with
set_read_buffer_size os size w =
    if length w.data_buffer == 0
    then (
      true,
      record w { read_buffer_size = if ltb size os.max_size then size else os.max_size },
      [],
    )
    else fail_with false
        record {
          error_code = not_allowed_while_buffer_is_not_empty;
          error_str = codes "Cannot modify read buffer size while buffer is not empty";
        }
        w

-- The constructor that the others call; the error that nothing sets yet is `unset`.
unfoldable pub tcp_socket : System → TcpError → ℤ → ConnectionStatus → ℕ → TcpSocket
unfolding set_read_buffer_size
tcp_socket os unset d status size =
    (set_read_buffer_size os size record {
      connection_status = status;
      last_error = unset;
      read_buffer_size = size;
      data_buffer = [];
      socket_d = d;
    }).1

unfoldable pub tcp_socket_of : System → TcpError → ℤ → ConnectionStatus → TcpSocket
unfolding tcp_socket
tcp_socket_of os unset d status = tcp_socket os unset d status default_read_buffer_size

unfoldable pub tcp_socket_sized : System → TcpError → ℕ → TcpSocket
unfolding tcp_socket
tcp_socket_sized os unset size = tcp_socket os unset (negsuc 0) not_connected size

unfoldable pub tcp_socket_new : System → TcpError → TcpSocket
unfolding tcp_socket
tcp_socket_new os unset = tcp_socket os unset (negsuc 0) not_connected default_read_buffer_size

unfoldable pub set_socket_descriptor : ℤ → TcpSocket → Step Bool
unfolding is_connected fail_with
set_socket_descriptor d w =
    if is_connected w.connection_status
    then fail_with false
        (not_allowed (codes "Peer address is not available in not connected state")) w
    else (true, record w { socket_d = d }, [])

-- The address that `connect` fills in: its family stays 0, and the port is stored as it is.
unfoldable pub socket_address : System → Bytes → ℕ → SockAddr
socket_address os address port = record {
  sin_family = 0;
  sin_addr = elim (os.inet_pton address) [ none ↦ 0 | some a ↦ a ];
  sin_port = port;
}

abbrev pub bad_descriptor : TcpError
bad_descriptor = record {
  error_code = bad_socket_descriptor;
  error_str = codes "Cannot connected while socked descriptor is valid before connect operation";
}

-- Events that stand before those of a step.
unfoldable pub after {ℓ} : {A : Type ℓ} → List Event → Step A → Step A
after es (a, w, fs) = (a, w, es ++ fs)

-- `connect` with what `socket` and `::connect` return.
unfoldable pub connect : System → Call → Call → Bytes → ℕ → TcpSocket → Step Bool
unfolding is_connected is_positive is_minus_one is_zero fail_with system_error socket_address after
connect os socket connecting address port w =
    if is_connected w.connection_status
    then fail_with false (not_allowed (codes "Cannot connect while already connected")) w
    else if is_positive w.socket_d
    then fail_with false bad_descriptor w
    else let w' : TcpSocket = record w { socket_d = socket.result } in
      let called : List Event =
        call_socket ∷ call_connect socket.result (socket_address os address port) ∷ [] in
      if is_minus_one socket.result
      then after (call_socket ∷ []) (fail_with false (system_error os socket.errno) w')
      else if is_zero connecting.result
      then (true, record w' { connection_status = connected }, called ++ emit_connected ∷ [])
      else after called (fail_with false (system_error os connecting.errno) w')

-- `disconnect` with what `close` or `shutdown` returns, and whether the calling thread owns the socket.
unfoldable pub disconnect : System → Call → Bool → TcpSocket → Step Bool
unfolding is_connected is_zero fail_with system_error after
disconnect os closing same_thread w =
    let called : List Event =
      (if same_thread then call_close w.socket_d else call_shutdown w.socket_d) ∷ [] in
    if is_connected w.connection_status
    then (if is_zero closing.result
        then (
          true,
          record w { connection_status = if same_thread then not_connected else connected },
          called,
        )
        else after called (fail_with false (system_error os closing.errno) w))
    else fail_with false (not_allowed (codes "Cannot disconnect while already disconnected")) w

-- The destructor.
unfoldable pub destroy : System → Call → Bool → TcpSocket → TcpSocket × List Event
unfolding is_connected disconnect
destroy os closing same_thread w =
    if is_connected w.connection_status
    then (let s = disconnect os closing same_thread w in (s.1, s.2 ++ emit_destroyed ∷ []))
    else (w, emit_destroyed ∷ [])
