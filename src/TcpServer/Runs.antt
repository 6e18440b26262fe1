-- ===== src/TcpServer/Runs.antt =====
-- Sequences of the calls that src/brutils/TcpServer/TcpServer.cpp makes as its sockets come, send and go.
use brutils.Base.{ℕ, ◌≡◌, ◌↔◌, none, List, [], ◌∷◌, arith}
use brutils.TcpServer.{
  TcpServer, set_up, add_to_socket_list, add_to_active_connections, start_timeout_timer,
  stop_timeout_timer, remove_from_socket_list, remove_from_active_connections, add_new_connection,
  new_incoming_data, connection_closed,
}
use brutils.TcpServer.Connections.{
  SamePlaces-Placed, set_up-Placed, add_new_connection-Placed, connection_closed-Placed,
}
use brutils.TcpServer.Places.{Placed}
use brutils.TcpServer.Poll.Rounds.{new_incoming_data-SamePlaces}

pub data Happening : Type 0 where
  connects : ℕ → ℕ → ℕ → Happening
  sends : ℕ → ℕ → Happening
  closes : ℕ → Happening

unfoldable pub handle : Happening → TcpServer → TcpServer
unfolding add_new_connection new_incoming_data connection_closed
handle (connects now fd socket) w = (add_new_connection now fd socket w).1
handle (sends now fd) w = (new_incoming_data now fd w).1
handle (closes fd) w = (connection_closed fd w).1

unfoldable pub run : List Happening → TcpServer → TcpServer
unfolding handle
run [] w = w
run (h ∷ hs) w = run hs (handle h w)

-- A descriptor that `accept` gives has no place yet.
abbrev pub AllFresh : List Happening → TcpServer → Type 0
AllFresh [] w = Unit {0}
AllFresh (connects now fd socket ∷ hs) w =
    (w.socket_fd_index fd ≡ none) × AllFresh hs (handle (connects now fd socket) w)
AllFresh (h ∷ hs) w = AllFresh hs (handle h w)

-- The descriptors with a place are those with a connection.
abbrev pub Together : TcpServer → Type 0
Together w = (fd : ℕ) → (w.socket_fd_index fd ≡ none) ↔ (w.active_connections fd ≡ none)

add_new_connection-Together :
    (now fd socket : ℕ) (w : TcpServer)
    → w.socket_fd_index fd ≡ none
    → Together w
    → Together (add_new_connection now fd socket w).1
unfolding add_new_connection add_to_socket_list add_to_active_connections start_timeout_timer
add_new_connection-Together now fd socket w fresh h = λ fd'. ground (arith, h fd, h fd')

new_incoming_data-Together :
    (now fd : ℕ) (w : TcpServer) → Together w → Together (new_incoming_data now fd w).1
unfolding new_incoming_data start_timeout_timer stop_timeout_timer
new_incoming_data-Together now fd w h = λ fd'. ground (arith, h fd')

connection_closed-Together :
    (fd : ℕ) (w : TcpServer) → Together w → Together (connection_closed fd w).1
unfolding connection_closed remove_from_socket_list stop_timeout_timer
    remove_from_active_connections
connection_closed-Together fd w h = λ fd'. ground (arith, h fd, h fd')

handle-kept :
    (h : Happening) (hs : List Happening) (w : TcpServer)
    → AllFresh (h ∷ hs) w
    → Placed w × Together w
    → Placed (handle h w) × Together (handle h w) × AllFresh hs (handle h w)
unfolding handle
handle-kept (connects now fd socket) hs w (fresh, later) (p, t) = (
  (add_new_connection-Placed now fd socket w p fresh).0,
  add_new_connection-Together now fd socket w fresh t,
  later,
)
handle-kept (sends now fd) hs w later (p, t) = (
  SamePlaces-Placed (new_incoming_data now fd w).1 w (new_incoming_data-SamePlaces now fd w) p,
  new_incoming_data-Together now fd w t,
  later,
)
handle-kept (closes fd) hs w later (p, t) =
    ((connection_closed-Placed fd w p).0, connection_closed-Together fd w t, later)

run-kept :
    (hs : List Happening) (w : TcpServer)
    → AllFresh hs w
    → Placed w × Together w
    → Placed (run hs w) × Together (run hs w)
unfolding run
run-kept [] w fresh kept = kept
run-kept (h ∷ hs) w fresh kept =
    let (p, t, later) = handle-kept h hs w fresh kept in run-kept hs (handle h w) later (p, t)

set_up-Together :
    (server_fd : ℕ) (w : TcpServer)
    → ((fd : ℕ) → (w.socket_fd_index fd ≡ none) × (w.active_connections fd ≡ none))
    → Together (set_up server_fd w)
unfolding set_up
set_up-Together server_fd w nothing = λ fd. ground (arith, nothing fd)

-- A server without sockets and connections, once `run` has set up its list, and then connections that
-- come, also when there is no place for them, send data and close, in any order, where the descriptors
-- that come have no place yet: the tables of places agree with one another, and the descriptors with
-- a place are those with an active connection.
pub run-Placed :
    (hs : List Happening) (server_fd : ℕ) (w : TcpServer)
    → ((fd : ℕ) → (w.socket_fd_index fd ≡ none) × (w.active_connections fd ≡ none))
    → AllFresh hs (set_up server_fd w)
    → Placed (run hs (set_up server_fd w)) × Together (run hs (set_up server_fd w))
run-Placed hs server_fd w nothing fresh =
    run-kept hs (set_up server_fd w) fresh
      (set_up-Placed server_fd w (λ fd. (nothing fd).0), set_up-Together server_fd w nothing)
