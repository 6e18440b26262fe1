-- ===== src/TcpServer.antt =====
-- src/brutils/TcpServer/TcpServer.cpp: the server's state machine, and the tables that say which socket
-- has which place in the list for `poll`, which timer, and which connection. Results of system calls
-- are arguments.
pub mod Places
pub mod Connections
pub mod Timeouts
pub mod Poll
pub mod Lookups
pub mod Runs
mod Tests
use brutils.Base.{
  ℕ, zero, suc, ◌+◌, ◌-◌, ℤ, pos, negsuc, Bool, true, false, Option, none, some, List, [], ◌∷◌, ltb,
  ◌==◌, if◌then◌else◌, not, ◌&&◌,
}
use brutils.Timers.Combined.{CombinedTimer, add_timer, stop_timer}

pub data TcpServerState : Type 0 where
  inactive starting listening processing stopping : TcpServerState

-- A table from descriptors, places or timers; `none` is a missing key, and -1 in `socket_list`.
abbrev pub Table : Type 0
Table = ℕ → Option ℕ

pub record TcpServer : Type 0 where
  pub max_connection_size : ℕ
  pub connection_timeout : ℕ
  pub server_state : TcpServerState
  pub running : Bool
  pub socket_list : Table
  pub empty_indices : List ℕ
  pub socket_fd_index : Table
  pub socket_fd_timer_id : Table
  pub timer_id_socket_fd : Table
  pub active_connections : Table
  pub timer : CombinedTimer

-- A new server; its sizes and timeout are the given ones or the defaults.
abbrev pub tcp_server : ℕ → ℕ → CombinedTimer → TcpServer
tcp_server max_connection_size connection_timeout timer = record {
  max_connection_size = max_connection_size;
  connection_timeout = connection_timeout;
  server_state = inactive;
  running = false;
  socket_list = λ i. none;
  empty_indices = [];
  socket_fd_index = λ fd. none;
  socket_fd_timer_id = λ fd. none;
  timer_id_socket_fd = λ n. none;
  active_connections = λ fd. none;
  timer = timer;
}

abbrev pub store : ℕ → Option ℕ → Table → Table
store k v t j = if k == j then v else t j

-- `std::set::insert`
unfoldable pub insert_index : ℕ → List ℕ → List ℕ
insert_index i [] = i ∷ []
insert_index i (j ∷ js) =
    if ltb i j then i ∷ j ∷ js else if i == j then j ∷ js else j ∷ insert_index i js

-- What the system calls in `listen` return.
pub record SystemCalls : Type 0 where
  pub socket : ℤ
  pub setsockopt : ℤ
  pub fcntl : ℤ
  pub inet_pton : ℤ
  pub bind : ℤ
  pub listen : ℤ

unfoldable pub is_zero : ℤ → Bool
is_zero (pos n) = n == 0
is_zero (negsuc n) = false

unfoldable pub is_negative : ℤ → Bool
is_negative (pos n) = false
is_negative (negsuc n) = true

unfoldable pub is_nine : ℤ → Bool
is_nine (pos n) = n == 9
is_nine (negsuc n) = false

-- The tests of `listen` in their order; `address_empty` says whether the address is the empty string.
unfoldable pub listen : SystemCalls → Bool → TcpServer → Bool × TcpServer
unfolding is_zero is_negative is_nine
listen os address_empty w =
    let failed : Bool × TcpServer = (false, record w { server_state = starting }) in
    if is_nine os.socket
    then failed
    else if not (is_zero os.setsockopt)
    then failed
    else if not (is_zero os.fcntl) && not (is_negative os.fcntl)
    then failed
    else if not address_empty && not (is_zero os.inet_pton)
    then failed
    else if is_negative os.bind
    then failed
    else if is_negative os.listen
    then failed
    else (true, record w { server_state = starting; running = true })

unfoldable pub stop : TcpServer → Bool × TcpServer
stop w = elim w.server_state [
  | inactive ↦ (true, record w { server_state = stopping; running = false })
  | stopping ↦ (true, record w { server_state = stopping; running = false })
  | _ ↦ (false, w)
]

-- Whether the caller has waited for the thread.
unfoldable pub wait_for_finished : TcpServer → Bool
wait_for_finished w = elim w.server_state [ stopping ↦ true | _ ↦ false ]

-- The places from `i` on, `n` of them.
unfoldable pub places_from : ℕ → ℕ → List ℕ
places_from i zero = []
places_from i (suc n) = i ∷ places_from (i + 1) n

-- How `run` sets up the list before its loop, for a maximum of at least 1; for 0 there is no place 0 to
-- write to.
unfoldable pub set_up : ℕ → TcpServer → TcpServer
unfolding places_from
set_up server_fd w = record w {
  socket_list = λ i. if i == 0 then some server_fd else none;
  empty_indices = places_from 1 (w.max_connection_size - 1);
}

unfoldable pub add_to_socket_list : ℕ → TcpServer → Bool × TcpServer
add_to_socket_list fd w = elim w.empty_indices [
  | [] ↦ (false, w)
  | ◌∷◌ first rest ↦ (
    true,
    record w {
      socket_list = store first (some fd) w.socket_list;
      socket_fd_index = store fd (some first) w.socket_fd_index;
      empty_indices = rest;
    },
  )
]

unfoldable pub remove_from_socket_list : ℕ → TcpServer → Bool × TcpServer
unfolding insert_index
remove_from_socket_list fd w = elim (w.socket_fd_index fd) [
  | none ↦ (false, w)
  | some i ↦ (
    true,
    record w {
      socket_list = store i none w.socket_list;
      empty_indices = insert_index i w.empty_indices;
      socket_fd_index = store fd none w.socket_fd_index;
    },
  )
]

-- A connection is the address of its `TcpSocket`.
unfoldable pub add_to_active_connections : ℕ → ℕ → TcpServer → Bool × TcpServer
add_to_active_connections fd socket w = elim (w.active_connections fd) [
  | some a ↦ (false, w)
  | none ↦ (true, record w { active_connections = store fd (some socket) w.active_connections })
]

unfoldable pub remove_from_active_connections : ℕ → TcpServer → Bool × TcpServer
remove_from_active_connections fd w = elim (w.active_connections fd) [
  | none ↦ (false, w)
  | some a ↦ (true, record w { active_connections = store fd none w.active_connections })
]

unfoldable pub start_timeout_timer : ℕ → ℕ → TcpServer → Bool × TcpServer
unfolding add_timer
start_timeout_timer now fd w =
    let (n, t) = add_timer now w.connection_timeout false w.timer in
    (
      true,
      record w {
        timer = t;
        socket_fd_timer_id = store fd (some n) w.socket_fd_timer_id;
        timer_id_socket_fd = store n (some fd) w.timer_id_socket_fd;
      },
    )

unfoldable pub stop_timeout_timer : ℕ → TcpServer → Bool × TcpServer
unfolding stop_timer
stop_timeout_timer fd w = elim (w.socket_fd_timer_id fd) [
  | none ↦ (false, w)
  | some n ↦
      let (stopped, t) = stop_timer n w.timer in
      if stopped
      then (
        true,
        record w {
          timer = t;
          socket_fd_timer_id = store fd none w.socket_fd_timer_id;
          timer_id_socket_fd = store n none w.timer_id_socket_fd;
        },
      )
      else (false, record w { timer = t })
]

-- The socket that a timeout disconnects.
unfoldable pub timeout_on_socket : ℕ → TcpServer → Option ℕ
timeout_on_socket n w = elim (w.timer_id_socket_fd n) [
  | none ↦ none
  | some fd ↦ w.active_connections fd
]

unfoldable pub add_new_connection : ℕ → ℕ → ℕ → TcpServer → Bool × TcpServer
unfolding add_to_socket_list add_to_active_connections start_timeout_timer
add_new_connection now fd socket w =
    let (listed, w1) = add_to_socket_list fd w in
    let (active, w2) = add_to_active_connections fd socket w1 in
    if not listed
    then (false, w1)
    else if not active
    then (false, w2)
    else (true, (start_timeout_timer now fd w2).1)

unfoldable pub new_incoming_data : ℕ → ℕ → TcpServer → Bool × TcpServer
unfolding start_timeout_timer stop_timeout_timer
new_incoming_data now fd w = elim (w.active_connections fd) [
  | none ↦ (false, w)
  | some socket ↦ (true, (start_timeout_timer now fd (stop_timeout_timer fd w).1).1)
]

unfoldable pub connection_closed : ℕ → TcpServer → Bool × TcpServer
unfolding remove_from_socket_list stop_timeout_timer remove_from_active_connections
connection_closed fd w = (
  true,
  (remove_from_active_connections fd (stop_timeout_timer fd (remove_from_socket_list fd w).1).1).1,
)
