-- ===== src/TcpServer/Lookups.antt =====
-- The functions of src/brutils/TcpServer/TcpServer.cpp that nothing in the file calls: the destructor, the
-- look up of a connection, and stopping a timeout by the id of its timer.
use brutils.Base.{ℕ, ◌≡◌, Bool, true, false, Option, none, some, arith, if◌then◌else◌}
use brutils.TcpServer.{TcpServer, store, stop_timeout_timer}
use brutils.Timers.Combined.{stop_timer}

-- The destructor, up to the end of the thread and the release of the list for `poll`.
unfoldable pub destroy : TcpServer → TcpServer
destroy w = record w { running = false; socket_list = λ i. none }

unfoldable pub get_active_connection : ℕ → TcpServer → Option ℕ
get_active_connection fd w = w.active_connections fd

unfoldable pub stop_timeout_timer_by_id : ℕ → TcpServer → Bool × TcpServer
unfolding stop_timer
stop_timeout_timer_by_id n w = elim (w.timer_id_socket_fd n) [
  | none ↦ (false, w)
  | some fd ↦
      let (stopped, t) = stop_timer n w.timer in
      if stopped
      then (
        true,
        record w {
          timer = t;
          timer_id_socket_fd = store n none w.timer_id_socket_fd;
          socket_fd_timer_id = store fd none w.socket_fd_timer_id;
        },
      )
      else (false, record w { timer = t })
]

-- Where the two tables agree on a socket and its timer, stopping the timeout by the one or by the other
-- is the same.
stop_timeout_timer_by_id-stop_timeout_timer :
    (fd n : ℕ) (w : TcpServer)
    → w.socket_fd_timer_id fd ≡ some n
    → w.timer_id_socket_fd n ≡ some fd
    → stop_timeout_timer_by_id n w ≡ stop_timeout_timer fd w
unfolding stop_timeout_timer_by_id stop_timeout_timer
stop_timeout_timer_by_id-stop_timeout_timer fd n w e f = ground arith
