-- ===== src/TcpServer/Timeouts.antt =====
-- The timeouts of src/brutils/TcpServer/TcpServer.cpp.
use brutils.Base.{ℕ, ◌+◌, ◌≡◌, refl, ap, ◌∙◌, true, false, none, some, ◌==◌, if◌then◌else◌, arith}
use brutils.Timers.Combined.{TimerData, find_timer, erase_timer, add_timer, stop_timer}
use brutils.Timers.Combined.Closest.{OneEach}
use brutils.Timers.Combined.Table.{find_timer-store_timer, find_timer-erase_timer}
use brutils.TcpServer.{
  TcpServer, store, start_timeout_timer, stop_timeout_timer, timeout_on_socket, new_incoming_data,
}

-- The server once the timer `n` of the connection `fd` has been stopped.
without_timer : ℕ → ℕ → TcpServer → TcpServer
without_timer fd n w = record w {
  timer = record (w.timer) {
    time_keeper_map = erase_timer n w.timer.time_keeper_map;
    stopped = false;
  };
  socket_fd_timer_id = store fd none w.socket_fd_timer_id;
  timer_id_socket_fd = store n none w.timer_id_socket_fd;
}

stop_timeout_timer-without_timer :
    (fd n : ℕ) (d : TimerData) (w : TcpServer)
    → w.socket_fd_timer_id fd ≡ some n
    → find_timer n w.timer.time_keeper_map ≡ some d
    → (stop_timeout_timer fd w).1 ≡ without_timer fd n w
unfolding stop_timeout_timer stop_timer without_timer
stop_timeout_timer-without_timer fd n d w has found =
    rw (has, stop_timeout_timer) (rw (found, stop_timer) refl)

new_incoming_data-start :
    (now fd socket n : ℕ) (d : TimerData) (w : TcpServer)
    → w.active_connections fd ≡ some socket
    → w.socket_fd_timer_id fd ≡ some n
    → find_timer n w.timer.time_keeper_map ≡ some d
    → (new_incoming_data now fd w).1 ≡ (start_timeout_timer now fd (without_timer fd n w)).1
unfolding new_incoming_data
new_incoming_data-start now fd socket n d w e has found =
    let active : (new_incoming_data now fd w).1
        ≡ (start_timeout_timer now fd (stop_timeout_timer fd w).1).1 =
      rw (e, new_incoming_data) refl in
    active
    ∙ ap (λ v. (start_timeout_timer now fd v).1)
        (stop_timeout_timer-without_timer fd n d w has found)

-- Data on an active connection whose timer is in the table of timers, which has one entry for each key, when
-- the next id is not that timer's. The old timer leaves the table, and `timeoutOnSocket`, if it is
-- called with its id, disconnects nothing any more; the connection's timer is now a new one, with the full
-- time from now as its deadline and not periodic, and `timeoutOnSocket`, if it is called with its id,
-- disconnects the socket of the connection; and the timers under all other ids are as they were.
pub new_incoming_data-find_timer :
    (now fd socket n : ℕ) (d : TimerData) (w : TcpServer)
    → w.active_connections fd ≡ some socket
    → w.socket_fd_timer_id fd ≡ some n
    → find_timer n w.timer.time_keeper_map ≡ some d
    → (w.timer.last_timer_id == n) ≡ false
    → OneEach w.timer.time_keeper_map
    → let w' = (new_incoming_data now fd w).1 in
      let new_id = w.timer.last_timer_id in
      (w'.socket_fd_timer_id fd ≡ some new_id)
      × (timeout_on_socket new_id w' ≡ some socket)
      × (timeout_on_socket n w' ≡ none)
      × ((m : ℕ)
          → find_timer m w'.timer.time_keeper_map ≡ (
              if new_id == m
              then some record {
                periodic = false;
                id = new_id;
                duration = w.connection_timeout;
                expiration_date = now + w.connection_timeout;
              }
              else if n == m
              then none
              else find_timer m w.timer.time_keeper_map))
unfolding without_timer start_timeout_timer timeout_on_socket add_timer
new_incoming_data-find_timer now fd socket n d w e has found fresh keyed =
    let entry : TimerData = record {
      periodic = false;
      id = w.timer.last_timer_id;
      duration = w.connection_timeout;
      expiration_date = now + w.connection_timeout;
    } in
    let ds = w.timer.time_keeper_map in
    let self = same fd in
    let here = same w.timer.last_timer_id in
    rw (new_incoming_data-start now fd socket n d w e has found) (
      rw self refl,
      rw (here, timeout_on_socket) e,
      rw (fresh, timeout_on_socket, same n) refl,
      λ m.
          find_timer-store_timer entry (erase_timer n ds) m
          ∙ ap (λ o. if w.timer.last_timer_id == m then some entry else o)
              (find_timer-erase_timer n ds m keyed),
    )
  where
    same : (k : ℕ) → (k == k) ≡ true
    same k = ground arith
