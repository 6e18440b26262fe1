-- ===== src/TcpServer/Poll.antt =====
-- A round of the loop in `run` of src/brutils/TcpServer/TcpServer.cpp: `processSockets` and
-- `acceptNewConnections`, over the results of `poll` and `accept`.
pub mod Rounds
use brutils.Base.{
  ℕ, zero, suc, ◌≡◌, ℤ, pos, negsuc, Bool, true, false, not, ◌&&◌, ◌||◌, Option, none, some, List,
  [], ◌∷◌, length, ◌==◌, if◌then◌else◌,
}
use brutils.TcpServer.{
  TcpServer, listening, processing, add_new_connection, new_incoming_data, connection_closed,
}

-- The bits of `revents`.
pub record Revents : Type 0 where
  pub pollin : Bool
  pub pollhup : Bool
  pub other : Bool

-- What `accept` returns, when, and the address of the `TcpSocket` that the server then makes.
pub data Accepted : Type 0 where
  accepted : ℤ → ℕ → ℕ → Accepted

-- An entry of `_socketFdIndexMap` and the events at its place.
pub record Polled : Type 0 where
  pub fd : ℕ
  pub index : ℕ
  pub revents : Revents
  pub now : ℕ

-- `undefined`: the loop goes on from an entry of the map that it has erased.
pub data Round : Type 0 where
  done : Bool → TcpServer → Round
  undefined : Round

abbrev pub no_events : Revents → Bool
no_events r = not (r.pollin || r.pollhup || r.other)

-- The loop of `acceptNewConnections`; `none`: it still waits for `accept`.
unfoldable pub accept_loop : List Accepted → TcpServer → Option (Bool × TcpServer)
unfolding add_new_connection
accept_loop [] w = none
accept_loop (accepted (pos n) now socket ∷ as') w =
    let next = accept_loop as' (add_new_connection now n socket w).1 in
    if w.running then (if n == 0 then some (false, w) else next) else some (true, w)
accept_loop (accepted (negsuc n) now socket ∷ as') w =
    if w.running then some (n == 0, w) else some (true, w)

unfoldable pub accept_new_connections : List Accepted → TcpServer → Option (Bool × TcpServer)
unfolding accept_loop
accept_new_connections as' w =
    if length w.empty_indices == 0 then some (false, w) else accept_loop as' w

abbrev pub holds : Option ℕ → ℕ → Bool
holds none fd = false
holds (some fd') fd = fd' == fd

-- The loop of `processSockets` over the entries of the map.
unfoldable pub process_clients : List Polled → TcpServer → Round
unfolding new_incoming_data
process_clients [] w = done true w
process_clients (e ∷ es) w =
    let w' : TcpServer = if e.revents.pollin then (new_incoming_data e.now e.fd w).1 else w in
    let rest = process_clients es w' in
    if not (holds (w.socket_list e.index) e.fd)
    then done false w
    else if not (no_events e.revents) && e.revents.pollhup
    then undefined
    else rest

-- `processSockets`; `server` has the events on the server's own socket.
unfoldable pub process_sockets : Revents → List Accepted → List Polled → TcpServer → Option Round
unfolding accept_new_connections process_clients
process_sockets server as' es w =
    let w0 : TcpServer = record w { server_state = processing } in
    if server.pollin && not (server.pollhup || server.other)
    then (elim (accept_new_connections as' w0) [
      | none ↦ none
      | some p ↦ some (if p.0 then process_clients es p.1 else done false p.1)
    ])
    else if no_events server
    then some (process_clients es w0)
    else some (done false w0)

-- A round of the loop in `run`, with what `poll` returns: `none` when `acceptNewConnections` still waits;
-- the Boolean says whether the loop goes on.
unfoldable pub poll_round : ℤ → Revents → List Accepted → List Polled → TcpServer → Option Round
unfolding process_sockets
poll_round polled server as' es w =
    let w' : TcpServer = record w { server_state = listening } in
    elim polled [
      | negsuc n ↦ some (done false w')
      | pos n ↦
          let next = process_sockets server as' es w' in
          if n == 0 then some (done true w') else elim next [
            | none ↦ none
            | some r ↦ elim r [
              | done result w'' ↦ some (done true w'')
              | undefined ↦ some undefined
            ]
          ]
    ]
