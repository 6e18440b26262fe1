-- ===== src/HttpServer/Request.antt =====
-- src/brutils/HttpServer/HttpRequest.cpp: a request, what the parser stores in it and what a user reads.
pub mod Body
use brutils.Base.{Bytes, equal, Option, none, some, List, [], ◌∷◌, if◌then◌else◌}
use brutils.HttpServer.RequestParser.{
  HttpMethod, HttpVersion, Parsed, done, failed, undefined, out_of_fuel, ◌>>=◌,
}
use brutils.Json.Floats.{Floats}
use brutils.Json.Parser
use brutils.Json.Parser.Outcome.{Result}
use brutils.Json.Variant.{Variant, invalid}

-- `UNKNOWN_METHOD` and `HttpVersion::UNKNOWN` are `none`. A map is a list of its pairs in the order in
-- which they came; of two with the same key the first counts, as for `emplace` and `insert`.
pub record HttpRequest : Type 0 where
  pub method : Option HttpMethod
  pub version : Option HttpVersion
  pub path : Bytes
  pub query : List (Bytes × Bytes)
  pub raw_body : Bytes
  pub headers : List (Bytes × Bytes)

abbrev pub empty_request : HttpRequest
empty_request = record {
  method = none;
  version = none;
  path = [];
  query = [];
  raw_body = [];
  headers = [];
}

-- `toLower` of include/brutils/string_utils.h writes through an iterator of an empty string.
unfoldable pub to_lower : Bytes → Parsed Bytes
to_lower [] = done []
to_lower (c ∷ s) = undefined

-- `at`; `none` is its exception.
unfoldable pub find_value : Bytes → List (Bytes × Bytes) → Option Bytes
unfolding equal
find_value k [] = none
find_value k (h ∷ hs) = if equal h.0 k then some h.1 else find_value k hs

-- `connectionVersion`
unfoldable pub connection_version : HttpRequest → Option HttpVersion
connection_version r = r.version

unfoldable pub query_of : Bytes → HttpRequest → Parsed (Option Bytes)
unfolding to_lower find_value
query_of k r = to_lower k >>= λ k'. done (find_value k' r.query)

unfoldable pub header : Bytes → HttpRequest → Parsed (Option Bytes)
unfolding to_lower find_value
header k r = to_lower k >>= λ k'. done (find_value k' r.headers)

unfoldable pub body_json : (fl : Floats) → HttpRequest → Result (Variant fl.Float fl.Double)
body_json fl r = Parser.parse fl r.raw_body

unfoldable pub body_xml : (fl : Floats) → HttpRequest → Variant fl.Float fl.Double
body_xml fl r = invalid

unfoldable pub set_method : HttpMethod → HttpRequest → HttpRequest
set_method m r = record r { method = some m }

unfoldable pub set_version : HttpVersion → HttpRequest → HttpRequest
set_version v r = record r { version = some v }

unfoldable pub set_path : Bytes → HttpRequest → HttpRequest
set_path p r = record r { path = p }

unfoldable pub set_query : List (Bytes × Bytes) → HttpRequest → HttpRequest
set_query q r = record r { query = q }

unfoldable pub set_raw_body : Bytes → HttpRequest → HttpRequest
set_raw_body b r = record r { raw_body = b }

-- A key that is there keeps its value.
unfoldable pub insert_header : Bytes → Bytes → HttpRequest → Parsed HttpRequest
unfolding to_lower find_value
insert_header k v r = to_lower k >>= λ k'. to_lower v >>= λ v'.
    done (elim (find_value k' r.headers) [
      | none ↦ record r { headers = (k', v') ∷ r.headers }
      | some w ↦ r
    ])
