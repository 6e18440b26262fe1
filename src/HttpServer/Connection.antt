-- ===== src/HttpServer/Connection.antt =====
-- src/brutils/HttpServer/HttpConnection.cpp: how a connection wires its socket to its parser, and what
-- its slots do; those for the socket and for the parser's errors are empty. Signals and slots are
-- addresses in the store of include/brutils/br_object.h.
pub mod Wiring
pub mod Requests
mod Tests
use brutils.Base.{
  ℕ, Bool, true, false, Bytes, codes, Option, none, some, List, [], ◌∷◌, if◌then◌else◌,
}
use brutils.HttpServer.RequestParser.{HttpVersion, http_10, http_11, http_20, http_30}
use brutils.HttpServer.Request.{HttpRequest, connection_version}
use brutils.HttpServer.Response.{header, version_not_supported}
use brutils.HttpServer.Response.Send.{
  HttpResponse, http_response_private, set_status, send, Outcome, ok, undefined, ◌>>=◌,
}
use brutils.Signal.{Store, auto, connect, update}
use brutils.TcpSocket
use brutils.TcpSocket.{TcpSocket, System, Call, Event, Step}
use brutils.TcpSocket.Transfer.{write}
use brutils.TimeUtils.{TimeLibrary, get_localtime_formatted_now}

-- The slots of a connection.
pub record Slots : Type 0 where
  pub tcp_error_occured : ℕ
  pub tcp_disconnected : ℕ
  pub tcp_data_received : ℕ
  pub parser_error_occured : ℕ
  pub parser_new_request : ℕ
  pub response_ready_to_send : ℕ

-- The signals of a `TcpSocket` to which a connection connects.
pub record TcpSocketSignals : Type 0 where
  pub error_occurred : ℕ
  pub disconnected : ℕ
  pub data_ready : ℕ

-- The signals of a `RequestParser`.
pub record ParserSignals : Type 0 where
  pub error_occured : ℕ
  pub new_request_ready : ℕ

unfoldable pub set_slot_function : ℕ → Store → Store
set_slot_function s w = record w {
  slots = update w.slots s (record (w.slots s) { has_function = true });
}

abbrev pub set_slot_functions : Slots → Store → Store
set_slot_functions p w = set_slot_function p.response_ready_to_send (
    set_slot_function p.parser_new_request (
      set_slot_function p.parser_error_occured (
        set_slot_function p.tcp_data_received
          (set_slot_function p.tcp_disconnected (set_slot_function p.tcp_error_occured w)))))

unfoldable pub connect_socket : ℕ → Slots → TcpSocketSignals → Store → Store
unfolding connect
connect_socket current p t w = connect current t.data_ready p.tcp_data_received auto (
    connect current t.disconnected p.tcp_disconnected auto
      (connect current t.error_occurred p.tcp_error_occured auto w))

unfoldable pub connect_parser : ℕ → Slots → ParserSignals → Store → Store
unfolding connect
connect_parser current p r w =
    connect current r.new_request_ready p.parser_new_request auto
      (connect current r.error_occured p.parser_error_occured auto w)

-- The pointers of a connection; a null one is `none`.
pub record HttpConnection : Type 0 where
  pub tcp_socket : Option TcpSocketSignals
  pub parser : Option ParserSignals

-- The constructor's initializers, which leave `_parser` out: a `unique_ptr` begins as a null one.
abbrev pub initialized : Option TcpSocketSignals → HttpConnection
initialized tcp_socket = record { tcp_socket = tcp_socket; parser = none }

-- The constructor's body. To go through a null pointer is undefined.
unfoldable pub wire : ℕ → Slots → HttpConnection → Store → Outcome Store
unfolding set_slot_function connect_socket connect_parser
wire current p c w = elim (c.tcp_socket) [
  | none ↦ undefined
  | some t ↦
      let w' = connect_socket current p t (set_slot_functions p w) in
      elim (c.parser) [ none ↦ undefined | some r ↦ ok (connect_parser current p r w') ]
]

unfoldable pub http_connection : ℕ → Slots → Option TcpSocketSignals → Store → Outcome Store
unfolding wire
http_connection current p tcp_socket w = wire current p (initialized tcp_socket) w

-- The destructor, with what the calls in `disconnect` return.
unfoldable pub destroy : System → Call → Bool → Option TcpSocket → Option (Step Bool)
destroy os closing same_thread none = none
destroy os closing same_thread (some t) = some (TcpSocket.disconnect os closing same_thread t)

-- The response that a request gets; `ready` is the address of its signal `readyToWrite`.
unfoldable pub create_response :
    TimeLibrary → ℕ → ℕ → Slots → ℕ → Store → Outcome (HttpResponse × Store)
unfolding connect header get_localtime_formatted_now
create_response lib now current p ready w =
    elim (get_localtime_formatted_now lib now (codes "%a, %d %m %Y %T %Z")) [
      | none ↦ undefined
      | some date ↦
          let hs =
            header (codes "server") (codes "brutils/cervpp") (header (codes "date") date []) in
          ok (
            record http_response_private { header_map = hs },
            connect current ready p.response_ready_to_send auto w,
          )
    ]

-- What the slot for new requests emits: `newRequestReady`, or a response that is ready to be written.
pub data Emitted : Type 0 where
  new_request_ready : HttpRequest → HttpResponse → Emitted
  ready_to_write : Bytes → Emitted

abbrev pub written : List Bytes → List Emitted
written [] = []
written (b ∷ bs) = ready_to_write b ∷ written bs

unfoldable pub is_http_11 : Option HttpVersion → Bool
is_http_11 (some http_11) = true
is_http_11 _ = false

unfoldable pub new_request_available_slot :
    TimeLibrary → ℕ → ℕ → Slots → ℕ → HttpRequest → Store → Outcome (List Emitted × Store)
unfolding create_response connection_version is_http_11 set_status send
new_request_available_slot lib now current p ready request w =
    create_response lib now current p ready w >>= λ c.
    if is_http_11 (connection_version request)
    then ok (new_request_ready request c.0 ∷ [], c.1)
    else send (set_status version_not_supported c.0) >>= λ s. ok (written s.1, c.1)

-- With what `send` returns.
unfoldable pub response_ready_slot : System → Call → Bytes → TcpSocket → Step Bool
unfolding write
response_ready_slot os sending bytes t = write os sending bytes t
