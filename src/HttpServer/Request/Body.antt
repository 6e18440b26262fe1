-- ===== src/HttpServer/Request/Body.antt =====
-- The body of a request of src/brutils/HttpServer/HttpRequest.cpp, as JSON.
use brutils.Base.{◌≡◌, Bool}
use brutils.HttpServer.Request.{HttpRequest, body_json, set_raw_body}
use brutils.Json.Floats.{Floats}
use brutils.Json.Generator
use brutils.Json.Parser.Outcome.{ok}
use brutils.Json.RoundTrip.Printable.{IsPrintable}
use brutils.Json.RoundTrip.Whole.{IsContainer, parse-generate}
use brutils.Json.Variant.{Variant}

-- A request whose body is the text of a printable list or map, in either layout: `bodyJson` gives that
-- value back, whatever else the request holds.
body_json-set_raw_body :
    (fl : Floats) (compact : Bool) (v : Variant fl.Float fl.Double) (r : HttpRequest)
    → IsContainer v
    → IsPrintable compact v
    → body_json fl (set_raw_body (Generator.generate fl v compact) r) ≡ ok v
unfolding body_json set_raw_body
body_json-set_raw_body fl compact v r k h = parse-generate fl compact v k h
