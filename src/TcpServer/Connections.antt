-- ===== src/TcpServer/Connections.antt =====
-- How src/brutils/TcpServer/TcpServer.cpp starts, stops, and takes and closes connections.
use brutils.Base.{
  ℕ, zero, suc, ◌+◌, ◌-◌, ◌≤◌, ◌<◌, ◌≡◌, ◌≢◌, refl, ◌∙◌, ap, ◌↔◌, ◌⊎◌, inl, inr, Bool, true, false,
  none, [], ◌||◌, if◌then◌else◌, arith, Bool-cases,
}
use brutils.TcpServer.{
  TcpServer, inactive, stopping, SystemCalls, is_zero, is_negative, is_nine, listen, stop,
  wait_for_finished, places_from, set_up, add_to_socket_list, remove_from_socket_list,
  add_to_active_connections, remove_from_active_connections, start_timeout_timer,
  stop_timeout_timer, add_new_connection, connection_closed,
}
use brutils.TcpServer.Places.{
  contains, Above, Ascending, Placed, add_to_socket_list-Placed, remove_from_socket_list-Placed,
}

-- `listen` succeeds just when the new descriptor is not 9, `setsockopt` returns 0, `fcntl` no positive
-- number, `bind` and `::listen` no negative one, and the address is empty or `inet_pton` returns 0,
-- which is its answer for an address that is none. The server then runs; else it runs if it ran before.
listen_iff :
    (os : SystemCalls) (address_empty : Bool) (w : TcpServer)
    → (((listen os address_empty w).0 ≡ true) ↔ (
        (is_nine os.socket ≡ false)
        × (is_zero os.setsockopt ≡ true)
        × (is_zero os.fcntl || is_negative os.fcntl ≡ true)
        × (address_empty || is_zero os.inet_pton ≡ true)
        × (is_negative os.bind ≡ false)
        × (is_negative os.listen ≡ false)))
      × ((listen os address_empty w).1.running
          ≡ (if (listen os address_empty w).0 then true else w.running))
unfolding listen
listen_iff os address_empty w = (ground arith, ground arith)

-- `stop` stops a server just when it has not been started or is stopping already. A server that starts,
-- listens or works through its sockets keeps running, and `waitForFinished` does not wait for it.
stop-wait_for_finished :
    (w : TcpServer)
    → (((stop w).0 ≡ true) ↔ ((w.server_state ≡ inactive) ⊎ (w.server_state ≡ stopping)))
      × (wait_for_finished (stop w).1 ≡ (stop w).0)
      × ((stop w).1.running ≡ (if (stop w).0 then false else w.running))
unfolding stop wait_for_finished
stop-wait_for_finished w = ground arith

contains-places_from : (i n m : ℕ) → (contains m (places_from i n) ≡ true) ↔ ((i ≤ m) × (m < i + n))
unfolding contains places_from
contains-places_from i zero m = ground arith
contains-places_from i (suc n) m = ground (arith, contains-places_from (i + 1) n m)

Above-places_from : (j i n : ℕ) → j < i → Above j (places_from i n)
unfolding places_from
Above-places_from j i zero l = tt
Above-places_from j i (suc n) l = (l, Above-places_from i (i + 1) n (omega arith))

places_from-Ascending : (i n : ℕ) → Ascending (places_from i n)
unfolding places_from
places_from-Ascending i zero = tt
places_from-Ascending i (suc n) = Above-places_from i (i + 1) n (omega arith)

-- A server without sockets, once `run` has set up its list: the tables agree.
pub set_up-Placed :
    (server_fd : ℕ) (w : TcpServer)
    → ((fd : ℕ) → w.socket_fd_index fd ≡ none)
    → Placed (set_up server_fd w)
unfolding set_up
set_up-Placed server_fd w none_yet = (
  (λ fd i e. absurd (ground (arith, none_yet fd))),
  (λ fd i le e. ground arith),
  (λ i. ground (arith, contains-places_from 1 (w.max_connection_size - 1) i)),
  places_from-Ascending 1 (w.max_connection_size - 1),
)

-- Two states of a server with the same tables of places.
abbrev pub SamePlaces : TcpServer → TcpServer → Type 0
SamePlaces v w =
    (v.socket_list ≡ w.socket_list)
    × (v.socket_fd_index ≡ w.socket_fd_index)
    × (v.empty_indices ≡ w.empty_indices)
    × (v.max_connection_size ≡ w.max_connection_size)

pub SamePlaces-Placed : (v w : TcpServer) → SamePlaces v w → Placed w → Placed v
SamePlaces-Placed v w (a, b, c, d) h = rw (a, b, c, d) h

add_to_active_connections-SamePlaces :
    (fd socket : ℕ) (w : TcpServer) → SamePlaces (add_to_active_connections fd socket w).1 w
unfolding add_to_active_connections
add_to_active_connections-SamePlaces fd socket w = ground arith

remove_from_active_connections-SamePlaces :
    (fd : ℕ) (w : TcpServer) → SamePlaces (remove_from_active_connections fd w).1 w
unfolding remove_from_active_connections
remove_from_active_connections-SamePlaces fd w = ground arith

start_timeout_timer-SamePlaces :
    (now fd : ℕ) (w : TcpServer) → SamePlaces (start_timeout_timer now fd w).1 w
unfolding start_timeout_timer
start_timeout_timer-SamePlaces now fd w = (refl, refl, refl, refl)

stop_timeout_timer-SamePlaces : (fd : ℕ) (w : TcpServer) → SamePlaces (stop_timeout_timer fd w).1 w
unfolding stop_timeout_timer
stop_timeout_timer-SamePlaces fd w = ground arith

remove_from_active_connections-none :
    (fd : ℕ) (w : TcpServer) → (remove_from_active_connections fd w).1.active_connections fd ≡ none
unfolding remove_from_active_connections
remove_from_active_connections-none fd w = ground arith

add_to_active_connections_iff :
    (fd socket : ℕ) (w : TcpServer)
    → ((add_to_active_connections fd socket w).0 ≡ true) ↔ (w.active_connections fd ≡ none)
unfolding add_to_active_connections
add_to_active_connections_iff fd socket w = ground arith

add_to_socket_list-active_connections :
    (fd : ℕ) (w : TcpServer) → (add_to_socket_list fd w).1.active_connections ≡ w.active_connections
unfolding add_to_socket_list
add_to_socket_list-active_connections fd w = ground arith

add_to_socket_list_iff :
    (fd : ℕ) (w : TcpServer) → ((add_to_socket_list fd w).0 ≡ true) ↔ (w.empty_indices ≢ [])
unfolding add_to_socket_list
add_to_socket_list_iff fd w = ground arith

-- Taking a new connection, when the tables of places agree and the descriptor has no place: they still
-- agree, also when the connection is refused; and it is taken just when a place is free and no
-- connection with the descriptor is active.
pub add_new_connection-Placed :
    (now fd socket : ℕ) (w : TcpServer)
    → Placed w
    → w.socket_fd_index fd ≡ none
    → let (taken, w') = add_new_connection now fd socket w in
      Placed w' × ((taken ≡ true) ↔ ((w.empty_indices ≢ []) × (w.active_connections fd ≡ none)))
unfolding add_new_connection
add_new_connection-Placed now fd socket w h fresh =
    let w1 = (add_to_socket_list fd w).1 in
    let w2 = (add_to_active_connections fd socket w1).1 in
    let p1 : Placed w1 = (add_to_socket_list-Placed fd w h fresh).0 in
    let p2 : Placed w2 =
      SamePlaces-Placed w2 w1 (add_to_active_connections-SamePlaces fd socket w1) p1 in
    let p3 =
      SamePlaces-Placed (start_timeout_timer now fd w2).1 w2
        (start_timeout_timer-SamePlaces now fd w2) p2 in
    let free = add_to_socket_list_iff fd w in
    let new = add_to_active_connections_iff fd socket w1 in
    let kept = ap (λ t. t fd) (add_to_socket_list-active_connections fd w) in
    elim (Bool-cases (add_to_socket_list fd w).0) [
      | inr full ↦ rw full (p1, ground (arith, free, new, kept))
      | inl listed ↦ elim (Bool-cases (add_to_active_connections fd socket w1).0) [
        | inr known ↦ rw (listed, known) (p2, ground (arith, free, new, kept))
        | inl active ↦ rw (listed, active) (p3, ground (arith, free, new, kept))
      ]
    ]

-- Closing a connection, when the tables of places agree: they still agree, and the descriptor has no
-- place and no connection any more.
pub connection_closed-Placed :
    (fd : ℕ) (w : TcpServer)
    → Placed w
    → let w' = (connection_closed fd w).1 in
      Placed w' × (w'.socket_fd_index fd ≡ none) × (w'.active_connections fd ≡ none)
unfolding connection_closed
connection_closed-Placed fd w h =
    let w1 = (remove_from_socket_list fd w).1 in
    let w2 = (stop_timeout_timer fd w1).1 in
    let (placed, gone, spare, others) = remove_from_socket_list-Placed fd w h in
    let s2 = stop_timeout_timer-SamePlaces fd w1 in
    let s3 = remove_from_active_connections-SamePlaces fd w2 in
    (
      SamePlaces-Placed (remove_from_active_connections fd w2).1 w2 s3
          (SamePlaces-Placed w2 w1 s2 placed),
      ap (λ t. t fd) (s3.1 ∙ s2.1) ∙ gone,
      remove_from_active_connections-none fd w2,
    )
