-- ===== src/TcpServer/Tests.antt =====
-- A server of src/brutils/TcpServer/TcpServer.cpp at work.
use brutils.Base.{
  ℕ, ◌+◌, ◌-◌, length, List, ◌∷◌, negsuc, ap, arith, ◌≡◌, refl, pos, true, false, none, some, [],
  ◌==◌, if◌then◌else◌,
}
use brutils.Timers.Combined.{TimerData, find_timer}
use brutils.TcpServer.Timeouts.{new_incoming_data-find_timer}
use brutils.TcpServer.{
  new_incoming_data, timeout_on_socket, TcpServer, listening, tcp_server, SystemCalls, is_zero,
  is_negative, is_nine, listen, set_up, add_to_socket_list, remove_from_socket_list,
  add_new_connection, connection_closed, add_to_active_connections, start_timeout_timer,
}
use brutils.TcpServer.Poll.{
  Revents, Accepted, accepted, Polled, done, undefined, accept_new_connections, process_clients,
}
use brutils.TcpServer.Poll.Rounds.{
  any_hang_up, accept_new_connections-Placed, process_clients-Placed,
}
use brutils.TcpServer.Connections.{set_up-Placed, add_new_connection-Placed}
use brutils.TcpServer.Runs.{connects, sends, closes, Happening, handle, run, Together, run-Placed}
use brutils.TcpServer.Places.{contains, Placed, remove_from_socket_list-Placed}

abbrev empty_server : TcpServer
empty_server =
    tcp_server 4 1000 (record { last_timer_id = 0; time_keeper_map = []; stopped = true })

-- The server's own socket is 3.
abbrev ready : TcpServer
ready = set_up 3 empty_server

ready-Placed : Placed ready
ready-Placed = set_up-Placed 3 empty_server λ fd. refl

abbrev with_seven : TcpServer
with_seven = (add_new_connection 10 7 70 ready).1

with_seven-Placed : Placed with_seven
unfolding set_up
with_seven-Placed = (add_new_connection-Placed 10 7 70 ready ready-Placed refl).0

remove_from_socket_list-Placed_example :
    let w' = (remove_from_socket_list 7 with_seven).1 in
    Placed w'
    × (w'.socket_fd_index 7 ≡ none)
    × ((i : ℕ) → with_seven.socket_fd_index 7 ≡ some i → contains i w'.empty_indices ≡ true)
    × ((fd' : ℕ) → (7 == fd') ≡ false → w'.socket_fd_index fd' ≡ with_seven.socket_fd_index fd')
remove_from_socket_list-Placed_example =
    remove_from_socket_list-Placed 7 with_seven with_seven-Placed

-- All calls go well, and the address is a good one.
abbrev good_calls : SystemCalls
good_calls = record {
  socket = pos 3;
  setsockopt = pos 0;
  fcntl = pos 0;
  inet_pton = pos 1;
  bind = pos 0;
  listen = pos 0;
}

-- With these results, an address makes `listen` fail.
refuses_address : (listen good_calls false empty_server).0 ≡ false
unfolding listen is_nine is_zero is_negative
refuses_address = refl

abbrev working : TcpServer
working = record empty_server { server_state = listening; running = true }

-- Descriptor 7 with its socket at address 70, without a timer.
-- The connection 7 has the timer 3.
abbrev old_timer : TimerData
old_timer = record { periodic = false; id = 3; duration = 1000; expiration_date = 1005 }

abbrev talking : TcpServer
talking = record empty_server {
  active_connections = λ fd. if fd == 7 then some 70 else none;
  socket_fd_timer_id = λ fd. if fd == 7 then some 3 else none;
  timer_id_socket_fd = λ n. if n == 3 then some 7 else none;
  timer = record { last_timer_id = 4; time_keeper_map = old_timer ∷ []; stopped = false };
}

new_incoming_data-find_timer_example :
    let w' = (new_incoming_data 10 7 talking).1 in
    (w'.socket_fd_timer_id 7 ≡ some 4)
    × (timeout_on_socket 4 w' ≡ some 70)
    × (timeout_on_socket 3 w' ≡ none)
    × ((m : ℕ)
        → find_timer m w'.timer.time_keeper_map ≡ (
            if 4 == m
            then some record {
              periodic = false;
              id = 4;
              duration = talking.connection_timeout;
              expiration_date = 10 + talking.connection_timeout;
            }
            else if 3 == m
            then none
            else find_timer m talking.timer.time_keeper_map))
unfolding find_timer
new_incoming_data-find_timer_example =
    new_incoming_data-find_timer 10 7 70 3 old_timer talking refl refl refl refl (tt, tt)

abbrev quiet_events : Revents
quiet_events = record { pollin = true; pollhup = false; other = false }

abbrev hung_up : Revents
hung_up = record { pollin = true; pollhup = true; other = false }

abbrev two_and_end : List Accepted
two_and_end = accepted (pos 8) 20 80 ∷ accepted (pos 9) 21 90 ∷ accepted (negsuc 0) 22 0 ∷ []

accept_new_connections-Placed_example :
    let w = record with_seven { running = true } in
    (w' : TcpServer) × (accept_new_connections two_and_end w ≡ some (true, w'))
    × Placed w'
    × (length w'.empty_indices ≡ length w.empty_indices - 2)
unfolding set_up add_new_connection add_to_socket_list add_to_active_connections start_timeout_timer
accept_new_connections-Placed_example =
    accept_new_connections-Placed two_and_end (record with_seven { running = true }) refl
      with_seven-Placed (λ e. ground (arith, ap length e)) (refl, (refl, refl))
      ((refl, (refl, tt), (refl, tt, tt)))

process_clients-Placed_example :
    let es : List Polled = record { fd = 7; index = 1; revents = hung_up; now = 30 } ∷ [] in
    (any_hang_up es ≡ true → process_clients es with_seven ≡ undefined)
    × (any_hang_up es ≡ false
        → (w' : TcpServer) × (process_clients es with_seven ≡ done true w')
          × Placed w'
          × (w'.socket_list ≡ with_seven.socket_list))
unfolding set_up add_new_connection add_to_socket_list add_to_active_connections start_timeout_timer
process_clients-Placed_example =
    process_clients-Placed (record { fd = 7; index = 1; revents = hung_up; now = 30 } ∷ [])
      with_seven with_seven-Placed (refl, tt)

-- Two connections, of which one sends something and closes, and its descriptor again.
abbrev come_and_go : List Happening
come_and_go = connects 10 7 70 ∷ connects 11 8 80 ∷ sends 12 7 ∷ closes 7 ∷ connects 13 7 71 ∷ []

run-Placed_example : Placed (run come_and_go ready) × Together (run come_and_go ready)
unfolding set_up handle add_new_connection new_incoming_data connection_closed add_to_socket_list
    remove_from_socket_list
run-Placed_example =
    run-Placed come_and_go 3 empty_server (λ fd. (refl, refl)) (refl, (refl, (refl, tt)))
