-- ===== src/HttpServer/Connection/Requests.antt =====
-- What src/brutils/HttpServer/HttpConnection.cpp does with a request, and what then becomes of its
-- response.
use brutils.Base.{
  ℕ, ◌≤◌, ◌≡◌, ◌≢◌, refl, ap, ◌∙◌, Bool, true, false, Bytes, codes, Option, none, some, List, [],
  ◌∷◌, ◌⊎◌, inl, inr, arith, if◌then◌else◌,
}
use brutils.HttpServer.Connection.{
  Slots, Emitted, new_request_ready, written, is_http_11, create_response,
  new_request_available_slot,
}
use brutils.HttpServer.Connection.Wiring.{connect-listed}
use brutils.HttpServer.RequestParser.{HttpVersion, http_10, http_11, http_20, http_30}
use brutils.HttpServer.Request.{HttpRequest, connection_version}
use brutils.HttpServer.Response.{header, version_not_supported}
use brutils.HttpServer.Response.Send.{
  HttpResponse, http_response_private, set_status, send, Outcome, ◌>>=◌, ok, undefined,
}
use brutils.HttpServer.Response.Send.Calls.{
  Call, all_quiet, IsUnsent, Settled, perform_all, perform_all-Settled, send_response-undefined,
}
use brutils.Json.Floats.{Floats}
use brutils.Json.Variant.{less}
use brutils.Signal.{Store, auto, connect}
use brutils.Signal.Links.{Linked, listed, connect-Linked}
use brutils.TimeUtils.{TimeLibrary, get_localtime_formatted_now}

-- The response that a request gets, at the time that the text `date` shows.
abbrev pub first_response : Bytes → HttpResponse
first_response date = record http_response_private {
  header_map = (codes "date", date) ∷ (codes "server", codes "brutils/cervpp") ∷ [];
}

first_response-IsUnsent : (date : Bytes) → IsUnsent (first_response date)
unfolding less
first_response-IsUnsent date = (refl, omega arith, ((refl, tt), (tt, tt)))

http_11-cases :
    (v : Option HttpVersion)
    → ((is_http_11 v ≡ true) × (v ≡ some http_11)) ⊎ ((is_http_11 v ≡ false) × (v ≢ some http_11))
unfolding is_http_11
http_11-cases none = inr (refl, λ e. ground (arith, e))
http_11-cases (some http_11) = inl (refl, refl)
http_11-cases (some http_10) = inr (refl, λ e. ground (arith, e))
http_11-cases (some http_20) = inr (refl, λ e. ground (arith, e))
http_11-cases (some http_30) = inr (refl, λ e. ground (arith, e))

create_response-first :
    (lib : TimeLibrary) (now current : ℕ) (p : Slots) (ready : ℕ) (w : Store) (date : Bytes)
    → get_localtime_formatted_now lib now (codes "%a, %d %m %Y %T %Z") ≡ some date
    → create_response lib now current p ready w
      ≡ ok (first_response date, connect current ready p.response_ready_to_send auto w)
unfolding create_response header less
create_response-first lib now current p ready w date d = rw (create_response, d) refl

-- The slot once the response is there.
answer : (request : HttpRequest) (c : HttpResponse × Store) → Bool → Outcome (List Emitted × Store)
unfolding set_status send
answer request c b =
    if b
    then ok (new_request_ready request c.0 ∷ [], c.1)
    else send (set_status version_not_supported c.0) >>= λ s. ok (written s.1, c.1)

answer-refused :
    (request : HttpRequest) (c : HttpResponse × Store)
    → c.0.version ≡ none
    → answer request c false ≡ undefined
unfolding answer set_status send
answer-refused request c e =
    ap (λ o. o >>= λ s. ok (written s.1, c.1))
      (send_response-undefined [] (set_status version_not_supported c.0) e)

-- The slot for a new request, in a store whose connections agree at both ends, at a time that can be
-- written as a text. A request of HTTP/1.1 is handed on with one response, which has
-- the two headers for the date and the server and whose signal lists the connection's slot, while the
-- connections still agree. Of the calls that are then made on that response, in any number and order:
-- if none of them sends something and every number given as a status has nine bits, all succeed,
-- nothing is written, no version is chosen and the headers ascend; else they are undefined. For every
-- other version, and for an unknown one, the slot itself sends the response, which is undefined.
pub new_request_available_slot-Settled :
    (fl : Floats) (lib : TimeLibrary) (now current : ℕ) (p : Slots) (ready : ℕ)
    (request : HttpRequest) (w : Store) (date : Bytes) (cs : List (Call fl.Float fl.Double))
    → Linked w
    → get_localtime_formatted_now lib now (codes "%a, %d %m %Y %T %Z") ≡ some date
    → ((connection_version request ≡ some http_11)
        × ((w' : Store) × (new_request_available_slot lib now current p ready request w
              ≡ ok (new_request_ready request (first_response date) ∷ [], w'))
            × Linked w'
            × (1 ≤ listed ready p.response_ready_to_send w')
            × Settled (all_quiet cs) (perform_all fl cs (first_response date))))
      ⊎ ((connection_version request ≢ some http_11)
          × (new_request_available_slot lib now current p ready request w ≡ undefined))
unfolding new_request_available_slot answer
new_request_available_slot-Settled fl lib now current p ready request w date cs h d =
    elim (http_11-cases (connection_version request)) [
      | inl (b, e) ↦ inl (
        e,
        (
          w',
          answered ∙ ap (answer request (first_response date, w')) b,
          (connect-Linked current ready p.response_ready_to_send auto w h).0,
          connect-listed current ready p.response_ready_to_send w h,
          perform_all-Settled fl cs (first_response date) (first_response-IsUnsent date),
        ),
      )
      | inr (b, e) ↦ inr (
        e,
        answered
            ∙ (ap (answer request (first_response date, w')) b
                ∙ answer-refused request (first_response date, w') refl),
      )
    ]
  where
    w' : Store
    w' = connect current ready p.response_ready_to_send auto w

    answered :
        new_request_available_slot lib now current p ready request w
        ≡ answer request (first_response date, w') (is_http_11 (connection_version request))
    answered =
        ap (λ o. o >>= λ c. answer request c (is_http_11 (connection_version request)))
          (create_response-first lib now current p ready w date d)
