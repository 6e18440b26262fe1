-- ===== src/TcpSocket/Transfer.antt =====
-- Reading and writing in src/brutils/TcpSocket/TcpSocket.cpp.
use brutils.Base.{
  ℕ, ◌+◌, Bytes, codes, Bool, true, false, Option, none, some, List, [], ◌∷◌, ◌++◌, length, ltb,
  ◌==◌, ◌||◌, if◌then◌else◌,
}
use brutils.TcpSocket.{
  not_allowed, TcpSocket, System, Call, Received, received, failed, Event, emit_disconnected,
  emit_data_ready, emit_error, call_send, Step, incoming_data_size, is_connected, is_zero,
  fail_with, system_error, after, disconnect,
}

unfoldable pub read : TcpSocket → Bytes × TcpSocket
read w = (w.data_buffer, record w { data_buffer = [] })

-- The loop of `readFromSocket` over the results of `recv`, with the size received so far; `none`: it
-- still waits for `recv`.
unfoldable pub receive : System → Call → Bool → List Received → ℕ → TcpSocket → Option (Step ℕ)
unfolding disconnect system_error
receive os closing same_thread [] total w = none
receive os closing same_thread (failed errno ∷ rs) total w =
    let e = system_error os errno in
    if (errno == os.eagain) || (errno == os.ewouldblock)
    then some (total, w, [])
    else some (total, record w { last_error = e }, emit_error e ∷ [])
receive os closing same_thread (received bytes ∷ rs) total w =
    let size = length bytes in
    let s = disconnect os closing same_thread w in
    let w' : TcpSocket = record w { data_buffer = w.data_buffer ++ bytes } in
    let rest = receive os closing same_thread rs (total + size) w' in
    if size == 0
    then some (total, s.1, s.2 ++ emit_disconnected ∷ [])
    else if size == incoming_data_size
    then rest
    else some (total + size, w', [])

unfoldable pub read_from_socket :
    System → Call → Bool → List Received → TcpSocket → Option (Step Bool)
unfolding is_connected fail_with receive
read_from_socket os closing same_thread rs w =
    if is_connected w.connection_status
    then (elim (receive os closing same_thread rs 0 w) [
      | none ↦ none
      | some s ↦ some (true, s.1, if ltb 0 s.0 then s.2 ++ emit_data_ready ∷ [] else s.2)
    ])
    else some
        (fail_with false (not_allowed (codes "Cannot read from socket while not connected")) w)

-- `write` with what `send` returns.
unfoldable pub write : System → Call → Bytes → TcpSocket → Step Bool
unfolding is_connected is_zero fail_with system_error after
write os send input w =
    let called : List Event = call_send w.socket_d input ∷ [] in
    if is_connected w.connection_status
    then (if is_zero send.result
        then (true, w, called)
        else after called (fail_with false (system_error os send.errno) w))
    else fail_with false (not_allowed (codes "Cannot write while not connected")) w
