-- ===== src/HttpServer/Tests.antt =====
-- Requests and responses of src/brutils/HttpServer at work.
use brutils.Base.{◌≡◌, refl, ◌⊎◌, codes, List, none, some, [], ◌∷◌}
use brutils.HttpServer.Response.{Headers, header, set_header, find_header, remove_header}
use brutils.Json.Variant.{less}
use brutils.HttpServer.RequestParser.Parse.{
  Parser, ParseErrorCode, new_parser, error, returned, undefined_behaviour,
}
use brutils.HttpServer.RequestParser.Parse.Feeding.{Feed, sync, async, feed_all, feed_all-NotReady}
use brutils.HttpServer.Response.Table.{Ascending, header-IsTable}

abbrev two_headers : Headers
two_headers = (codes "accept", codes "text") ∷ (codes "host", codes "here") ∷ []

header-IsTable_example :
    (Ascending (header (codes "host") (codes "there") two_headers)
      × Ascending (set_header (codes "host") (codes "there") two_headers)
      × Ascending (remove_header (codes "host") two_headers))
    × (find_header (codes "accept") (header (codes "host") (codes "there") two_headers)
        ≡ some (codes "text"))
    × (find_header (codes "accept") (set_header (codes "host") (codes "there") two_headers)
        ≡ some (codes "text"))
    × (find_header (codes "accept") (remove_header (codes "host") two_headers)
        ≡ some (codes "text"))
unfolding find_header less
header-IsTable_example =
    header-IsTable (codes "accept") (codes "host") (codes "there") two_headers
      ((refl, tt), (tt, tt))

-- A method that there is not, and more data behind it.
abbrev two_pieces : List Feed
two_pieces = sync (codes "GOT / ") ∷ async (codes "HTTP/1.1") ∷ []

feed_all-NotReady_example :
    (feed_all (λ s. none) two_pieces new_parser ≡ undefined_behaviour)
    ⊎ ((p : Parser) × (es : List ParseErrorCode) × (feed_all (λ s. none) two_pieces new_parser
          ≡ returned [] p es)
        × (p.buffer ≡ codes "GOT / HTTP/1.1")
        × (p.parsing_status ≡ error))
feed_all-NotReady_example = feed_all-NotReady (λ s. none) two_pieces
