-- ===== src/HttpServer/Response/Send.antt =====
-- src/brutils/HttpServer/HttpResponse.cpp: a response, and how it is sent.
pub mod Calls
use brutils.Base.{
  ℕ, ℤ, pos, negsuc, Bool, true, false, Bytes, codes, Option, none, some, List, [], ◌∷◌, ◌++◌, ltb,
  if◌then◌else◌,
}
use brutils.HttpServer.RequestParser.{HttpVersion, http_10, http_11}
use brutils.HttpServer.Response.{
  Headers, HttpResponseStatus, status_code, status_message_map, at_status, set_header,
}
use brutils.Json.Floats.{Floats}
use brutils.Json.Generator
use brutils.Json.Generator.{show_int}
use brutils.Json.Variant.{Variant}

-- `_status` is its number, as `status` stores any number, and `UNKNOWN` is `none`. `private_t` is set in
-- an `HttpResponse_private`.
pub record HttpResponse : Type 0 where
  pub version : Option HttpVersion
  pub status : ℕ
  pub header_map : Headers
  pub private_t : Bool

-- What a call ends with; `thrown` is the exception of `at`.
pub data Outcome {ℓ} (A : Type ℓ) : Type ℓ where
  ok : A → Outcome A
  thrown undefined : Outcome A

infixl 10 ◌>>=◌
abbrev pub ◌>>=◌ {ℓ ℓ'} : {A : Type ℓ} {B : Type ℓ'} → Outcome A → (A → Outcome B) → Outcome B
ok a >>= k = k a
thrown >>= k = thrown
undefined >>= k = undefined

abbrev pub or_throw {ℓ} : {A : Type ℓ} → Option A → Outcome A
or_throw none = thrown
or_throw (some a) = ok a

abbrev pub http_response : HttpResponse
http_response = record { version = none; status = 200; header_map = []; private_t = false }

abbrev pub http_response_private : HttpResponse
http_response_private = record http_response { private_t = true }

unfoldable pub clear_headers : HttpResponse → HttpResponse
clear_headers r = record r { header_map = [] }

unfoldable pub set_status : HttpResponseStatus → HttpResponse → HttpResponse
unfolding status_code
set_status s r = record r { status = status_code s }

-- A number is cast to the enumeration, whose values are those of nine bits.
unfoldable pub set_status_number : ℤ → HttpResponse → Outcome HttpResponse
set_status_number (pos n) r = if ltb n 512 then ok (record r { status = n }) else undefined
set_status_number (negsuc n) r = undefined

-- `std::transform` writes behind the end of an empty vector.
unfoldable pub convert_string_to_bytes : Bytes → Outcome Bytes
convert_string_to_bytes [] = ok []
convert_string_to_bytes (c ∷ s) = undefined

unfoldable pub convert_http_response_status_to_vector : ℕ → Outcome Bytes
unfolding show_int convert_string_to_bytes
convert_http_response_status_to_vector n = convert_string_to_bytes (show_int (pos n))

-- `_versionMap` with `at`
unfoldable pub at_version : HttpVersion → Option Bytes
at_version http_10 = some (codes "HTTP/1.0")
at_version http_11 = some (codes "HTTP/1.1")
at_version _ = none

abbrev new_line : Bytes
new_line = 13 ∷ 10 ∷ []

abbrev header_separator : Bytes
header_separator = b':' ∷ b' ' ∷ []

-- The loop over the headers.
unfoldable pub header_lines : Headers → Outcome Bytes
unfolding convert_string_to_bytes
header_lines [] = ok []
header_lines (e ∷ es) = convert_string_to_bytes e.0 >>= λ key.
    convert_string_to_bytes e.1 >>= λ value.
    header_lines es >>= λ rest. ok (key ++ header_separator ++ value ++ new_line ++ rest)

abbrev pub version_to_send : HttpResponse → HttpVersion
version_to_send r = elim r.version [ none ↦ http_11 | some v ↦ v ]

-- A response that has been sent, and what `readyToWrite` has emitted.
abbrev pub Sent : Type 0
Sent = Outcome (HttpResponse × List Bytes)

unfoldable pub send_response : Bytes → HttpResponse → Sent
unfolding at_version convert_http_response_status_to_vector at_status header_lines
send_response body r =
    let v = version_to_send r in
    or_throw (at_version v) >>= λ version.
    convert_http_response_status_to_vector r.status >>= λ status.
    or_throw (at_status r.status status_message_map) >>= λ message.
    header_lines r.header_map >>= λ headers.
    let response = version ++ b' ' ∷ status ++ message ++ new_line ++ headers ++ body in
    ok (record r { version = some v }, if r.private_t then response ∷ [] else [])

unfoldable pub send : HttpResponse → Sent
unfolding send_response
send r = send_response [] r

abbrev pub with_content_type : Bytes → HttpResponse → HttpResponse
with_content_type t r = record r { header_map = set_header (codes "content-type") t r.header_map }

unfoldable pub send_string : Bytes → Bytes → HttpResponse → Sent
unfolding convert_string_to_bytes send_response
send_string content content_type r = convert_string_to_bytes content >>= λ body.
    send_response body (with_content_type content_type r)

unfoldable pub send_bytes : Bytes → Bytes → HttpResponse → Sent
unfolding send_response
send_bytes content content_type r = send_response content (with_content_type content_type r)

unfoldable pub send_json : (fl : Floats) → Variant fl.Float fl.Double → HttpResponse → Sent
unfolding convert_string_to_bytes send_response
send_json fl json r =
    convert_string_to_bytes (Generator.generate fl json false) >>= λ body. send_response body r

-- `sendXml` and `sendFile` do nothing yet.
unfoldable pub send_xml : (fl : Floats) → Variant fl.Float fl.Double → HttpResponse → Sent
send_xml fl json r = ok (r, [])

unfoldable pub send_file : Bytes → HttpResponse → Sent
send_file path r = ok (r, [])
