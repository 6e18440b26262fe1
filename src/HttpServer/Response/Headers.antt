-- ===== src/HttpServer/Response/Headers.antt =====
-- The table of headers of src/brutils/HttpServer/HttpResponse.cpp.
use brutils.Base.{◌≡◌, refl, true, false, Bytes, none, some, [], ◌∷◌, ◌||◌, arith}
use brutils.HttpServer.Response.{Headers, header, set_header, find_header}
use brutils.Json.RoundTrip.Keys.{less_trans}
use brutils.Json.Variant.{less}

pub less_irrefl : (k : Bytes) → less k k ≡ false
unfolding less
less_irrefl [] = refl
less_irrefl (c ∷ k) = ground (arith, less_irrefl k)

pub less_equal : (a b : Bytes) → less a b ≡ false → less b a ≡ false → a ≡ b
unfolding less
less_equal [] [] h k = refl
less_equal [] (y ∷ b) h k = absurd (ground arith)
less_equal (x ∷ a) [] h k = absurd (ground arith)
less_equal (x ∷ a) (y ∷ b) h k = ground (arith, less_equal a b)

-- `header` gives a key the value only if the key has none; a later `header` for the same key changes
-- nothing, while `send` replaces the value of its key.
pub find_header-header :
    (k v : Bytes) (es : Headers)
    → (find_header k (header k v es) ≡ some (elim (find_header k es) [ none ↦ v | some w ↦ w ]))
      × (find_header k (set_header k v es) ≡ some v)
unfolding header set_header find_header
find_header-header k v [] = (ground (arith, less_irrefl k), ground (arith, less_irrefl k))
find_header-header k v (e ∷ es) = (
  ground (arith, less_irrefl k, (find_header-header k v es).0),
  ground (arith, less_irrefl k, (find_header-header k v es).1),
)

-- Setting a header, in either way, leaves the headers with other keys as they were.
pub find_header-others :
    (j k v : Bytes) (es : Headers)
    → (less j k || less k j) ≡ true
    → (find_header j (header k v es) ≡ find_header j es)
      × (find_header j (set_header k v es) ≡ find_header j es)
unfolding header set_header find_header
find_header-others j k v [] h = (ground arith, ground arith)
find_header-others j k v (e ∷ es) h =
    let rest = find_header-others j k v es h in
    let below : (less j k ≡ true) → (less k e.0 ≡ true) → less j e.0 ≡ true = less_trans j k e.0 in
    (ground (arith, rest, below), ground (arith, rest, below, less_equal k e.0))
