-- ===== src/HttpServer/Connection/Tests.antt =====
-- Connections and responses of src/brutils/HttpServer at work.
use brutils.Base.{◌≤◌, ◌≡◌, ◌≢◌, refl, codes, true, false, none, some, List, [], ◌∷◌, ◌⊎◌}
use brutils.HttpServer.Connection.{Slots, new_request_ready, new_request_available_slot}
use brutils.HttpServer.Connection.Requests.{first_response, new_request_available_slot-Settled}
use brutils.HttpServer.Request.{HttpRequest, empty_request, connection_version}
use brutils.HttpServer.RequestParser.{http_11}
use brutils.HttpServer.Response.{not_found}
use brutils.HttpServer.Response.Send.{HttpResponse, http_response, ok, undefined}
use brutils.HttpServer.Response.Send.Calls.{
  Call, Settled, call_header, call_status, call_send_string, all_quiet, perform_all,
  perform_all-quiet,
}
use brutils.HttpServer.Response.Table.{Ascending}
use brutils.Json.Floats.{Floats}
use brutils.Signal.{Store}
use brutils.Signal.Links.{Linked, listed, count}
use brutils.TimeUtils.{TimeLibrary, get_localtime_formatted_now}

-- Floating point without a number.
abbrev unit_floats : Floats
unit_floats = record {
  Float = Unit;
  Double = Unit;
  zero = tt;
  add_scaled = λ v d k. tt;
  add_decimal = λ v d k. tt;
  add = λ a b. tt;
  pow10 = λ v. tt;
  mul = λ a b. tt;
  div = λ a b. tt;
  mul_coeff = λ a b. tt;
  show_float = λ v. [];
  show_double = λ v. [];
}

-- A page that is not there.
abbrev three_calls : List (Call Unit Unit)
three_calls =
    call_header (codes "host") (codes "here")
    ∷ call_status not_found
    ∷ call_send_string (codes "no") (codes "text")
    ∷ []

perform_all-quiet_example :
    ((all_quiet three_calls ≡ true)
      × ((r : HttpResponse) × (perform_all unit_floats three_calls
              (record http_response { private_t = true })
            ≡ ok (r, []))
          × (r.version ≡ none)
          × Ascending r.header_map))
    ⊎ ((all_quiet three_calls ≡ false)
        × (perform_all unit_floats three_calls (record http_response { private_t = true })
            ≡ undefined))
perform_all-quiet_example = perform_all-quiet unit_floats three_calls true

abbrev empty_store : Store
empty_store = record {
  signals = λ g. record { parent = none; direct_connections = []; queued_connections = [] };
  slots = λ s. record { has_function = false; parent = none; connected_signals = [] };
}

abbrev six_slots : Slots
six_slots = record {
  tcp_error_occured = 1;
  tcp_disconnected = 2;
  tcp_data_received = 3;
  parser_error_occured = 4;
  parser_new_request = 5;
  response_ready_to_send = 6;
}

empty_store-Linked : Linked empty_store
unfolding count
empty_store-Linked = λ g s. refl

-- A library that writes each time as the same text.
abbrev fixed_time : TimeLibrary
fixed_time = record {
  Tm = Unit;
  to_time_t = λ n. n;
  gmtime = λ n. some tt;
  localtime = λ n. some tt;
  put_time = λ tm format. codes "today";
}

abbrev request_11 : HttpRequest
request_11 = record empty_request { version = some http_11 }

new_request_available_slot-Settled_example :
    ((connection_version request_11 ≡ some http_11)
      × ((w' : Store) × (new_request_available_slot fixed_time 7 1 six_slots 16 request_11
              empty_store
            ≡ ok (new_request_ready request_11 (first_response (codes "today")) ∷ [], w'))
          × Linked w'
          × (1 ≤ listed 16 6 w')
          × Settled
              (all_quiet three_calls)
              (perform_all unit_floats three_calls (first_response (codes "today")))))
    ⊎ ((connection_version request_11 ≢ some http_11)
        × (new_request_available_slot fixed_time 7 1 six_slots 16 request_11 empty_store
            ≡ undefined))
unfolding get_localtime_formatted_now
new_request_available_slot-Settled_example =
    new_request_available_slot-Settled unit_floats fixed_time 7 1 six_slots 16 request_11
      empty_store (codes "today") three_calls empty_store-Linked refl
