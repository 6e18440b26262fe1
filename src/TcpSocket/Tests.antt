-- ===== src/TcpSocket/Tests.antt =====
-- A socket of src/brutils/TcpSocket/TcpSocket.cpp at work.
use brutils.Base.{pos, negsuc, codes, ◌≡◌, refl, true, none, some, List, [], ◌∷◌, arith}
use brutils.TcpSocket.{
  no_error, TcpSocket, System, Call, received, failed, Event, connected, not_connected, connect,
  is_positive,
}
use brutils.TcpSocket.Transfer.{read, read_from_socket}
use brutils.TcpSocket.Reading.{data_ready_count, read-read_from_socket}
use brutils.TcpSocket.Requests.{
  connect_to, close_it, send_bytes, Reported, perform, perform_all, openings, perform-Reported,
  connect-perform_all,
}

abbrev linux : System
linux = record {
  eagain = 11;
  ewouldblock = 11;
  strerror = λ n. codes "error";
  inet_pton = λ s. none;
  inet_ntoa = λ n. codes "0.0.0.0";
  ntohs = λ n. n;
  max_size = 9223372036854775807;
}

abbrev fine : Call
fine = record { result = pos 0; errno = 0 }

abbrev refused : Call
refused = record { result = negsuc 0; errno = 111 }

abbrev third : Call
third = record { result = pos 3; errno = 0 }

abbrev fresh : TcpSocket
fresh = record {
  connection_status = not_connected;
  last_error = record { error_code = no_error; error_str = [] };
  read_buffer_size = 16;
  data_buffer = [];
  socket_d = negsuc 0;
}

abbrev open_socket : TcpSocket
open_socket = record fresh {
  connection_status = connected;
  socket_d = pos 3;
  data_buffer = codes "GET ";
}

read-read_from_socket_example :
    (w' : TcpSocket) × (es : List Event) × (read_from_socket linux fine true
        (received (codes "/index") ∷ failed 11 ∷ [])
        open_socket
      ≡ some (true, w', es))
    × ((read w').0 ≡ codes "GET /index")
    × ((read w').1.data_buffer ≡ [])
    × (data_ready_count es ≡ 1)
read-read_from_socket_example =
    read-read_from_socket linux fine true (received (codes "/index") ∷ failed 11 ∷ []) open_socket
      refl (λ h. absurd (ground arith))

perform-Reported_example :
    Reported open_socket (perform linux (send_bytes third (codes "GET")) open_socket)
perform-Reported_example = perform-Reported linux (send_bytes third (codes "GET")) open_socket

connect-perform_all_example :
    let s = connect linux third refused (codes "10.0.0.1") 80 fresh in
    let rest =
      perform_all linux
        (connect_to third fine (codes "10.0.0.2") 80
          ∷ close_it fine true
          ∷ connect_to third fine (codes "10.0.0.2") 80
          ∷ [])
        s.1 in
    (rest.0.socket_d ≡ pos 3) × (openings rest.1 ≡ 0)
unfolding is_positive
connect-perform_all_example =
    connect-perform_all linux third refused (codes "10.0.0.1") 80 3 fresh
      (connect_to third fine (codes "10.0.0.2") 80
        ∷ close_it fine true
        ∷ connect_to third fine (codes "10.0.0.2") 80
        ∷ [])
      refl refl refl (omega arith) tt
