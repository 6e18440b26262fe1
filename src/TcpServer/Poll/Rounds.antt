-- ===== src/TcpServer/Poll/Rounds.antt =====
-- What a round of the loop in src/brutils/TcpServer/TcpServer.cpp leaves of the tables of places.
use brutils.Base.{
  ℕ, suc, ◌-◌, ◌≡◌, ◌≢◌, refl, sym, ap, ◌∙◌, pos, negsuc, Bool, true, false, ◌||◌, none, some, List,
  [], ◌∷◌, length, ◌==◌, if◌then◌else◌, arith, Bool-cases, inl, inr, subst,
}
use brutils.TcpServer.{
  TcpServer, add_to_socket_list, add_to_active_connections, start_timeout_timer, stop_timeout_timer,
  add_new_connection, new_incoming_data,
}
use brutils.TcpServer.Places.{Placed}
use brutils.TcpServer.Connections.{SamePlaces, SamePlaces-Placed, add_new_connection-Placed}
use brutils.TcpServer.Poll.{
  Accepted, accepted, Polled, done, undefined, accept_loop, accept_new_connections, process_clients,
}

-- Descriptors come, and then -1.
abbrev pub Ends : List Accepted → Type 0
Ends [] = ⊥
Ends (accepted (pos n) now socket ∷ as') = ((n == 0) ≡ false) × Ends as'
Ends (accepted (negsuc n) now socket ∷ as') = (n == 0) ≡ true

-- How many descriptors come.
abbrev pub count : List Accepted → ℕ
count [] = 0
count (accepted (pos n) now socket ∷ as') = suc (count as')
count (accepted (negsuc n) now socket ∷ as') = 0

-- The descriptor does not come.
abbrev pub Differs : ℕ → List Accepted → Type 0
Differs fd [] = Unit {0}
Differs fd (accepted (pos n) now socket ∷ as') = ((fd == n) ≡ false) × Differs fd as'
Differs fd (accepted (negsuc n) now socket ∷ as') = Unit {0}

-- The descriptors that come have no place, and none of them comes twice.
abbrev pub Fresh : List Accepted → TcpServer → Type 0
Fresh [] w = Unit {0}
Fresh (accepted (pos n) now socket ∷ as') w =
    (w.socket_fd_index n ≡ none) × Differs n as' × Fresh as' w
Fresh (accepted (negsuc n) now socket ∷ as') w = Unit {0}

add_new_connection-tables :
    (now fd socket : ℕ) (w : TcpServer)
    → let w' = (add_new_connection now fd socket w).1 in
      (w'.running ≡ w.running)
      × (length w'.empty_indices ≡ length w.empty_indices - 1)
      × ((fd' : ℕ) → (fd == fd') ≡ false → w'.socket_fd_index fd' ≡ w.socket_fd_index fd')
unfolding add_new_connection add_to_socket_list add_to_active_connections start_timeout_timer
add_new_connection-tables now fd socket w = (ground arith, ground arith, λ fd' other. ground arith)

Fresh-add_new_connection :
    (fd : ℕ) (as' : List Accepted) (w w' : TcpServer)
    → ((fd' : ℕ) → (fd == fd') ≡ false → w'.socket_fd_index fd' ≡ w.socket_fd_index fd')
    → Differs fd as'
    → Fresh as' w
    → Fresh as' w'
Fresh-add_new_connection fd [] w w' others d f = tt
Fresh-add_new_connection fd (accepted (pos n) now socket ∷ as') w w' others d f =
    (others n d.0 ∙ f.0, f.1, Fresh-add_new_connection fd as' w w' others d.1 f.2)
Fresh-add_new_connection fd (accepted (negsuc n) now socket ∷ as') w w' others d f = tt

accept_loop-Placed :
    (as' : List Accepted) (w : TcpServer)
    → w.running ≡ true
    → Placed w
    → Ends as'
    → Fresh as' w
    → (w' : TcpServer) × (accept_loop as' w ≡ some (true, w'))
      × Placed w'
      × (length w'.empty_indices ≡ length w.empty_indices - count as')
unfolding accept_loop
accept_loop-Placed [] w r h e f = absurd e
accept_loop-Placed (accepted (negsuc n) now socket ∷ as') w r h e f =
    (w, ground arith, h, omega arith)
accept_loop-Placed (accepted (pos n) now socket ∷ as') w r h e f =
    let w1 = (add_new_connection now n socket w).1 in
    let (runs, fewer, others) = add_new_connection-tables now n socket w in
    let (w', returned, placed, left) =
      accept_loop-Placed as' w1 (runs ∙ r) (add_new_connection-Placed now n socket w h f.0).0 e.1
        (Fresh-add_new_connection n as' w w1 others f.1 f.2) in
    (w', ground arith, placed, omega (arith, left, fewer))

-- Accepting, while the server runs, the tables of places agree and a place is free, positive
-- descriptors that differ and have no place, until `accept` has no more: it ends and returns true; the
-- tables still agree, and the connections have taken a place each for as long as there were free ones.
pub accept_new_connections-Placed :
    (as' : List Accepted) (w : TcpServer)
    → w.running ≡ true
    → Placed w
    → w.empty_indices ≢ []
    → Ends as'
    → Fresh as' w
    → (w' : TcpServer) × (accept_new_connections as' w ≡ some (true, w'))
      × Placed w'
      × (length w'.empty_indices ≡ length w.empty_indices - count as')
unfolding accept_new_connections
accept_new_connections-Placed as' w r h free e f =
    let (w', returned, placed, left) = accept_loop-Placed as' w r h e f in
    (w', ground arith, placed, left)

-- A hang-up of one of the sockets.
abbrev pub any_hang_up : List Polled → Bool
any_hang_up [] = false
any_hang_up (e ∷ es) = e.revents.pollhup || any_hang_up es

-- Each entry names the place that has its socket.
abbrev pub Listed : List Polled → TcpServer → Type 0
Listed [] w = Unit {0}
Listed (e ∷ es) w = (w.socket_list e.index ≡ some e.fd) × Listed es w

pub new_incoming_data-SamePlaces :
    (now fd : ℕ) (w : TcpServer) → SamePlaces (new_incoming_data now fd w).1 w
unfolding new_incoming_data start_timeout_timer stop_timeout_timer
new_incoming_data-SamePlaces now fd w = ground arith

after_data : Polled → TcpServer → TcpServer
after_data e w = if e.revents.pollin then (new_incoming_data e.now e.fd w).1 else w

after_data-SamePlaces : (e : Polled) (w : TcpServer) → SamePlaces (after_data e w) w
unfolding after_data
after_data-SamePlaces e w = elim (Bool-cases e.revents.pollin) [
  | inl some_data ↦
      subst (λ b. SamePlaces (if b then (new_incoming_data e.now e.fd w).1 else w) w)
        (sym some_data) (new_incoming_data-SamePlaces e.now e.fd w)
  | inr no_data ↦
      subst (λ b. SamePlaces (if b then (new_incoming_data e.now e.fd w).1 else w) w) (sym no_data)
        (refl, refl, refl, refl)
]

Listed-SamePlaces :
    (es : List Polled) (w w' : TcpServer)
    → w'.socket_list ≡ w.socket_list
    → Listed es w
    → Listed es w'
Listed-SamePlaces [] w w' same l = tt
Listed-SamePlaces (e ∷ es) w w' same l =
    (ap (λ t. t e.index) same ∙ l.0, Listed-SamePlaces es w w' same l.1)

process_clients-cons :
    (e : Polled) (es : List Polled) (w : TcpServer)
    → w.socket_list e.index ≡ some e.fd
    → process_clients (e ∷ es) w
      ≡ (if e.revents.pollhup then undefined else process_clients es (after_data e w))
unfolding process_clients after_data
process_clients-cons e es w listed = ground arith

-- The clients' part of a round, when the tables of places agree and each entry names the place that has
-- its socket: as soon as one of the sockets has hung up, the round is undefined, since the loop goes on
-- from the entry that it has erased; and if none has, the round ends and returns true, and the tables
-- still agree, the places being what they were.
pub process_clients-Placed :
    (es : List Polled) (w : TcpServer)
    → Placed w
    → Listed es w
    → (any_hang_up es ≡ true → process_clients es w ≡ undefined)
      × (any_hang_up es ≡ false
          → (w' : TcpServer) × (process_clients es w ≡ done true w')
            × Placed w'
            × (w'.socket_list ≡ w.socket_list))
unfolding process_clients
process_clients-Placed [] w h l = ((λ e. absurd (ground arith)), (λ e. (w, refl, h, refl)))
process_clients-Placed (e ∷ es) w h l =
    let w1 = after_data e w in
    let same = after_data-SamePlaces e w in
    let step = process_clients-cons e es w l.0 in
    let (hang_up, none_left) =
      process_clients-Placed es w1 (SamePlaces-Placed w1 w same h)
        (Listed-SamePlaces es w w1 same.0 l.1) in
    elim (Bool-cases e.revents.pollhup) [
      | inl gone ↦ (
        (λ any. step ∙ ap (λ b. if b then undefined else process_clients es w1) gone),
        (λ any. absurd (ground arith)),
      )
      | inr stays ↦
          let next : process_clients (e ∷ es) w ≡ process_clients es w1 =
            step ∙ ap (λ b. if b then undefined else process_clients es w1) stays in
          (
            (λ any. next ∙ hang_up (ground arith)),
            (λ any.
                let (w', returned, placed, kept) = none_left (ground arith) in
                (w', next ∙ returned, placed, kept ∙ same.0)),
          )
    ]
