-- ===== src/HttpServer/Connection/Wiring.antt =====
-- The connections that src/brutils/HttpServer/HttpConnection.cpp makes.
use brutils.Base.{ℕ, ◌≤◌, arith}
use brutils.Signal.{Store, auto, connect}
use brutils.Signal.Links.{Linked, listed, connect-Linked}

-- A connection more, and none less.
pub connect-listed :
    (current g s : ℕ) (w : Store) → Linked w → 1 ≤ listed g s (connect current g s auto w)
connect-listed current g s w h = ground (arith, (connect-Linked current g s auto w h).1 g s)
