-- ===== src/HttpServer/Response.antt =====
-- src/brutils/HttpServer/HttpResponse.cpp: the status codes with their messages, and the table of
-- headers.
pub mod Headers
pub mod Send
pub mod Table
use brutils.Base.{
  ℕ, ◌≡◌, refl, Bool, true, false, Bytes, codes, length, Option, none, some, List, [], ◌∷◌, ◌++◌,
  ◌==◌, if◌then◌else◌, arith, ltb,
}
use brutils.Json.Variant.{less}

pub data HttpResponseStatus : Type 0 where
  continue switching_protocol ok created accepted non_authoritative_information no_content :
      HttpResponseStatus
  reset_content partial_content multiple_choices moved_permanently found see_other :
      HttpResponseStatus
  not_modified use_proxy temporary_redirect permanent_redirect bad_request unauthorized :
      HttpResponseStatus
  payment_required forbidden not_found method_not_allowed not_acceptable : HttpResponseStatus
  proxy_authentication_required request_timeout conflict gone length_required : HttpResponseStatus
  precondition_failed payload_too_large uri_too_long unsupported_media_type : HttpResponseStatus
  range_not_satisfiable expectation_failed im_a_teapot unprocessable_entity too_early :
      HttpResponseStatus
  upgrade_required precondition_required too_many_requests unavailable_for_legal_reasons :
      HttpResponseStatus
  internal_server_error not_implemented bad_gateway service_unavailable gateway_timeout :
      HttpResponseStatus
  version_not_supported network_authentication_required : HttpResponseStatus

unfoldable pub status_code : HttpResponseStatus → ℕ
status_code continue = 100
status_code switching_protocol = 101
status_code ok = 200
status_code created = 201
status_code accepted = 202
status_code non_authoritative_information = 203
status_code no_content = 204
status_code reset_content = 205
status_code partial_content = 206
status_code multiple_choices = 300
status_code moved_permanently = 301
status_code found = 302
status_code see_other = 303
status_code not_modified = 304
status_code use_proxy = 305
status_code temporary_redirect = 307
status_code permanent_redirect = 308
status_code bad_request = 400
status_code unauthorized = 401
status_code payment_required = 402
status_code forbidden = 403
status_code not_found = 404
status_code method_not_allowed = 405
status_code not_acceptable = 406
status_code proxy_authentication_required = 407
status_code request_timeout = 408
status_code conflict = 409
status_code gone = 410
status_code length_required = 411
status_code precondition_failed = 412
status_code payload_too_large = 413
status_code uri_too_long = 414
status_code unsupported_media_type = 415
status_code range_not_satisfiable = 416
status_code expectation_failed = 417
status_code im_a_teapot = 418
status_code unprocessable_entity = 422
status_code too_early = 425
status_code upgrade_required = 426
status_code precondition_required = 428
status_code too_many_requests = 431
status_code unavailable_for_legal_reasons = 451
status_code internal_server_error = 500
status_code not_implemented = 501
status_code bad_gateway = 502
status_code service_unavailable = 503
status_code gateway_timeout = 504
status_code version_not_supported = 505
status_code network_authentication_required = 511

-- `_statusMessageMap`, with the number of each status as its key: the messages below 400, and the others.
unfoldable pub good_messages : List (ℕ × Bytes)
good_messages =
    (100, codes "Continue")
    ∷ (101, codes "Switching Protocol")
    ∷ (200, codes "OK")
    ∷ (201, codes "Created")
    ∷ (202, codes "Accepted")
    ∷ (203, codes "Non-Authoritative Information")
    ∷ (204, codes "No Content")
    ∷ (205, codes "Reset Content")
    ∷ (206, codes "Partial Content")
    ∷ (300, codes "Multiple Choices")
    ∷ (301, codes "Moved Permanently")
    ∷ (302, codes "Found")
    ∷ (303, codes "See Other")
    ∷ (304, codes "Not Modified")
    ∷ (305, codes "Use Proxy")
    ∷ (307, codes "Temporary Redirect")
    ∷ (308, codes "Permanent Redirect")
    ∷ []

unfoldable pub error_messages : List (ℕ × Bytes)
error_messages =
    (400, codes "Bad Request")
    ∷ (401, codes "Unauthorized")
    ∷ (402, codes "Payment Required")
    ∷ (403, codes "Forbidden")
    ∷ (404, codes "Not Found")
    ∷ (405, codes "Method Not Allowed")
    ∷ (406, codes "Not Acceptable")
    ∷ (407, codes "Proxy Authentication,Required")
    ∷ (408, codes "Request Time-out")
    ∷ (409, codes "Conflict")
    ∷ (410, codes "Gone")
    ∷ (411, codes "Length Required")
    ∷ (412, codes "Precondition Failed")
    ∷ (413, codes "Request Entity Too Large")
    ∷ (414, codes "Request-URI Too Large")
    ∷ (415, codes "Unsupported Media Type")
    ∷ (416, codes "Range Not Satisfiable")
    ∷ (417, codes "Expectation Failed")
    ∷ (418, codes "I'm a Teapot")
    ∷ (422, codes "Unprocessable Entity")
    ∷ (425, codes "Too Early")
    ∷ (426, codes "Upgrade Required")
    ∷ (428, codes "Precondition Required")
    ∷ (431, codes "Too Many Requests")
    ∷ (451, codes "Unavailble For Legal Reasons")
    ∷ (500, codes "Internal Server Error")
    ∷ (501, codes "Not Implemented")
    ∷ (502, codes "Bad Gateway")
    ∷ (503, codes "Service Unavailable")
    ∷ (504, codes "Geteway Timeout")
    ∷ (505, codes "Version Not Supported")
    ∷ (511, codes "Network Authentication Required")
    ∷ []

unfoldable pub status_message_map : List (ℕ × Bytes)
unfolding good_messages error_messages
status_message_map = good_messages ++ error_messages

-- `at`; `none` is its exception.
unfoldable pub at_status : ℕ → List (ℕ × Bytes) → Option Bytes
at_status n [] = none
at_status n (e ∷ es) = if e.0 == n then some e.1 else at_status n es

-- The message of each status in the enumeration is in the table, so that looking it up throws no
-- exception, and it is not empty.
at_status-some :
    (s : HttpResponseStatus)
    → (c : ℕ) × (m : Bytes) × (at_status (status_code s) status_message_map ≡ some (c ∷ m))
unfolding at_status status_code status_message_map
at_status-some continue = (_, _, refl)
at_status-some _ = (_, _, refl)

-- `std::map<std::string, std::string>`, in the order of its keys.
abbrev pub Headers : Type 0
Headers = List (Bytes × Bytes)

-- `header`: `insert` leaves the value of a key that is there.
unfoldable pub header : Bytes → Bytes → Headers → Headers
unfolding less
header k v [] = (k, v) ∷ []
header k v (e ∷ es) =
    let later = e ∷ header k v es in
    if less k e.0 then (k, v) ∷ e ∷ es else if less e.0 k then later else e ∷ es

-- `_headerMap[key] = value`, which `send` uses for the content type.
unfoldable pub set_header : Bytes → Bytes → Headers → Headers
unfolding less
set_header k v [] = (k, v) ∷ []
set_header k v (e ∷ es) =
    let later = e ∷ set_header k v es in
    if less k e.0 then (k, v) ∷ e ∷ es else if less e.0 k then later else (e.0, v) ∷ es

unfoldable pub find_header : Bytes → Headers → Option Bytes
unfolding less
find_header k [] = none
find_header k (e ∷ es) =
    let later = find_header k es in
    if less k e.0 then none else if less e.0 k then later else some e.1

unfoldable pub get_header : Bytes → Headers → Bytes
unfolding find_header
get_header k es = elim (find_header k es) [ none ↦ [] | some v ↦ v ]

unfoldable pub remove_header : Bytes → Headers → Headers
unfolding less
remove_header k [] = []
remove_header k (e ∷ es) =
    let later = e ∷ remove_header k es in
    if less k e.0 then e ∷ es else if less e.0 k then later else es
