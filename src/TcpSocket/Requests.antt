-- ===== src/TcpSocket/Requests.antt =====
-- What the operations of src/brutils/TcpSocket/TcpSocket.cpp report, and the life of a descriptor.
use brutils.Base.{
  ℕ, ℤ, pos, Bytes, ◌≡◌, ◌<◌, refl, Bool, true, false, List, [], ◌∷◌, ◌++◌, ◌+◌, arith, ap, ◌∙◌,
}
use brutils.TcpSocket.{
  TcpError, TcpSocket, System, Call, Event, Step, fail_with, after, set_read_buffer_size,
  set_socket_descriptor, connect, disconnect, is_positive, is_connected, emit_connected,
  emit_disconnected, emit_data_ready, emit_destroyed, emit_error, call_socket, call_connect,
  call_close, call_shutdown, call_send, not_connected,
}
use brutils.TcpSocket.Transfer.{write}

-- The operations that return whether they succeeded, with what their system calls return.
pub data Request : Type 0 where
  set_size : ℕ → Request
  set_descriptor : ℤ → Request
  connect_to : Call → Call → Bytes → ℕ → Request
  close_it : Call → Bool → Request
  send_bytes : Call → Bytes → Request

unfoldable pub perform : System → Request → TcpSocket → Step Bool
unfolding set_read_buffer_size set_socket_descriptor connect disconnect write
perform os (set_size n) w = set_read_buffer_size os n w
perform os (set_descriptor d) w = set_socket_descriptor d w
perform os (connect_to socket connecting address port) w =
    connect os socket connecting address port w
perform os (close_it closing same_thread) w = disconnect os closing same_thread w
perform os (send_bytes send input) w = write os send input w

-- The errors among the events.
abbrev pub errors_of : List Event → List TcpError
errors_of [] = []
errors_of (emit_error e ∷ es) = e ∷ errors_of es
errors_of (emit_connected ∷ es) = errors_of es
errors_of (emit_disconnected ∷ es) = errors_of es
errors_of (emit_data_ready ∷ es) = errors_of es
errors_of (emit_destroyed ∷ es) = errors_of es
errors_of (call_socket ∷ es) = errors_of es
errors_of (call_connect d a ∷ es) = errors_of es
errors_of (call_close d ∷ es) = errors_of es
errors_of (call_shutdown d ∷ es) = errors_of es
errors_of (call_send d b ∷ es) = errors_of es

-- A failure emits one error, the last one that the socket keeps, and changes neither the connection's
-- status nor the buffer; a success emits none and keeps the error as it was.
abbrev pub Reported : TcpSocket → Step Bool → Type 0
Reported w (true, w', es) =
    (errors_of es ≡ []) × (w'.last_error ≡ w.last_error) × (w'.data_buffer ≡ w.data_buffer)
Reported w (false, w', es) =
    (errors_of es ≡ w'.last_error ∷ [])
    × (w'.connection_status ≡ w.connection_status)
    × (w'.data_buffer ≡ w.data_buffer)

-- Setting the size or the descriptor, connecting, disconnecting and writing, in any state and whatever
-- the system calls return: a failure emits one error, which is then the socket's last one, and changes
-- neither the connection's status nor the buffer; a success emits none, and the last error and the buffer
-- stay as they were.
pub perform-Reported : (os : System) (q : Request) (w : TcpSocket) → Reported w (perform os q w)
unfolding perform set_read_buffer_size set_socket_descriptor connect disconnect write fail_with
    after
perform-Reported os (set_size n) w = ground arith
perform-Reported os (set_descriptor d) w = ground arith
perform-Reported os (connect_to socket connecting address port) w = ground arith
perform-Reported os (close_it closing same_thread) w = ground arith
perform-Reported os (send_bytes send input) w = ground arith

unfoldable pub perform_all : System → List Request → TcpSocket → TcpSocket × List Event
unfolding perform
perform_all os [] w = (w, [])
perform_all os (q ∷ qs) w =
    let s = perform os q w in let rest = perform_all os qs s.1 in (rest.0, s.2 ++ rest.1)

abbrev pub opens : Event → ℕ
opens call_socket = 1
opens (call_connect d a) = 1
opens emit_connected = 1
opens _ = 0

-- How many of the events open a descriptor, connect one or say that one is connected.
abbrev pub openings : List Event → ℕ
openings [] = 0
openings (e ∷ es) = opens e + openings es

-- None of the requests sets the descriptor.
abbrev pub KeepsDescriptor : List Request → Type 0
KeepsDescriptor [] = Unit {0}
KeepsDescriptor (set_descriptor d ∷ qs) = ⊥
KeepsDescriptor (set_size n ∷ qs) = KeepsDescriptor qs
KeepsDescriptor (connect_to socket connecting address port ∷ qs) = KeepsDescriptor qs
KeepsDescriptor (close_it closing same_thread ∷ qs) = KeepsDescriptor qs
KeepsDescriptor (send_bytes send input ∷ qs) = KeepsDescriptor qs

openings-append : (es fs : List Event) → openings (es ++ fs) ≡ openings es + openings fs
openings-append [] fs = omega arith
openings-append (e ∷ es) fs = omega (arith, openings-append es fs)

abbrev Idle : TcpSocket → Step Bool → Type 0
Idle w (ok, w', es) = (w'.socket_d ≡ w.socket_d) × (openings es ≡ 0)

perform-Idle :
    (os : System) (q : Request) (w : TcpSocket)
    → KeepsDescriptor (q ∷ [])
    → is_positive w.socket_d ≡ true
    → Idle w (perform os q w)
unfolding perform set_read_buffer_size connect disconnect write fail_with after
perform-Idle os (set_size n) w k p = ground arith
perform-Idle os (set_descriptor d) w k p = absurd k
perform-Idle os (connect_to socket connecting address port) w k p = ground arith
perform-Idle os (close_it closing same_thread) w k p = ground arith
perform-Idle os (send_bytes send input) w k p = ground arith

KeepsDescriptor-head :
    (q : Request) (qs : List Request) → KeepsDescriptor (q ∷ qs) → KeepsDescriptor (q ∷ [])
KeepsDescriptor-head (set_size n) qs k = tt
KeepsDescriptor-head (set_descriptor d) qs k = k
KeepsDescriptor-head (connect_to socket connecting address port) qs k = tt
KeepsDescriptor-head (close_it closing same_thread) qs k = tt
KeepsDescriptor-head (send_bytes send input) qs k = tt

KeepsDescriptor-tail :
    (q : Request) (qs : List Request) → KeepsDescriptor (q ∷ qs) → KeepsDescriptor qs
KeepsDescriptor-tail (set_size n) qs k = k
KeepsDescriptor-tail (set_descriptor d) qs k = absurd k
KeepsDescriptor-tail (connect_to socket connecting address port) qs k = k
KeepsDescriptor-tail (close_it closing same_thread) qs k = k
KeepsDescriptor-tail (send_bytes send input) qs k = k

perform_all-Idle :
    (os : System) (qs : List Request) (w : TcpSocket)
    → KeepsDescriptor qs
    → is_positive w.socket_d ≡ true
    → ((perform_all os qs w).0.socket_d ≡ w.socket_d) × (openings (perform_all os qs w).1 ≡ 0)
unfolding perform_all
perform_all-Idle os [] w k p = (refl, refl)
perform_all-Idle os (q ∷ qs) w k p =
    let s = perform os q w in
    let (same, idle) = perform-Idle os q w (KeepsDescriptor-head q qs k) p in
    let (same', idle') =
      perform_all-Idle os qs s.1 (KeepsDescriptor-tail q qs k) (ap is_positive same ∙ p) in
    (same' ∙ same, openings-append s.2 (perform_all os qs s.1).1 ∙ omega (arith, idle, idle'))

is_positive-pos : (d : ℕ) → 0 < d → is_positive (pos d) ≡ true
unfolding is_positive
is_positive-pos d l = ground arith

connect-socket_d :
    (os : System) (socket connecting : Call) (address : Bytes) (port : ℕ) (w : TcpSocket)
    → w.connection_status ≡ not_connected
    → is_positive w.socket_d ≡ false
    → (connect os socket connecting address port w).1.socket_d ≡ socket.result
unfolding connect fail_with after is_connected
connect-socket_d os socket connecting address port w status free = ground arith

-- A socket that is not connected and has no positive descriptor, and that gets one from `socket` in
-- `connect`, is connected once at most, also when `::connect` fails: whatever requests follow, short
-- of setting the descriptor, the descriptor stays as it is, no `socket` or `::connect` is called
-- again, and `connected` is not emitted again.
pub connect-perform_all :
    (os : System) (socket connecting : Call) (address : Bytes) (port d : ℕ) (w : TcpSocket)
    (qs : List Request)
    → w.connection_status ≡ not_connected
    → is_positive w.socket_d ≡ false
    → socket.result ≡ pos d
    → 0 < d
    → KeepsDescriptor qs
    → let s = connect os socket connecting address port w in
      let rest = perform_all os qs s.1 in (rest.0.socket_d ≡ pos d) × (openings rest.1 ≡ 0)
connect-perform_all os socket connecting address port d w qs status free result l k =
    let s = connect os socket connecting address port w in
    let same : s.1.socket_d ≡ pos d =
      connect-socket_d os socket connecting address port w status free ∙ result in
    let (kept, idle) = perform_all-Idle os qs s.1 k (ap is_positive same ∙ is_positive-pos d l) in
    (kept ∙ same, idle)
