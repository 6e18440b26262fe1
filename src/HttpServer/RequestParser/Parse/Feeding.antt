-- ===== src/HttpServer/RequestParser/Parse/Feeding.antt =====
-- Data that comes in pieces to the parser of src/brutils/HttpServer/RequestParser.cpp.
use brutils.Base.{
  ℕ, ◌≡◌, refl, sym, ap, ◌∙◌, Bool, false, Bytes, Option, List, [], ◌∷◌, ◌++◌, append_assoc,
  append-nil, ◌⊎◌, inl, inr, arith, subst,
}
use brutils.HttpServer.Request.{HttpRequest}
use brutils.HttpServer.RequestParser.Lines.{parse_request_line-fails}
use brutils.HttpServer.RequestParser.Parse.{
  ParsingStatus, request_line, error, Parser, ParseErrorCode, new_parser, Returned, returned,
  undefined_behaviour, thrown, endless, parse, new_incoming_data, new_data_received, parse_all,
}

-- The two ways to give data to the parser.
pub data Feed : Type 0 where
  sync async : Bytes → Feed

abbrev pub bytes_of : Feed → Bytes
bytes_of (sync b) = b
bytes_of (async b) = b

abbrev pub all_bytes : List Feed → Bytes
all_bytes [] = []
all_bytes (d ∷ ds) = bytes_of d ++ all_bytes ds

-- What comes before the rest.
abbrev pub prepend :
    List HttpRequest
    → List ParseErrorCode
    → Returned (List HttpRequest)
    → Returned (List HttpRequest)
prepend rs es (returned rs' p es') = returned (rs ++ rs') p (es ++ es')
prepend rs es undefined_behaviour = undefined_behaviour
prepend rs es thrown = thrown
prepend rs es endless = endless

abbrev pub and_then :
    Returned (List HttpRequest)
    → (Parser → Returned (List HttpRequest))
    → Returned (List HttpRequest)
and_then (returned rs p es) k = prepend rs es (k p)
and_then undefined_behaviour k = undefined_behaviour
and_then thrown k = thrown
and_then endless k = endless

-- The status after `bytes` in all.
abbrev pub status_after : Bytes → ParsingStatus
status_after [] = request_line
status_after (c ∷ s) = error

-- The parser has all the bytes, and has failed as soon as there were any.
abbrev HasFailed : Bytes → Parser → Type 0
HasFailed bytes p = (p.buffer ≡ bytes) × (p.parsing_status ≡ status_after bytes)

-- Undefined, or `false` from a parser that has failed.
abbrev NotReady : Bytes → Returned Bool → Type 0
NotReady bytes undefined_behaviour = Unit {0}
NotReady bytes (returned ready p es) = (ready ≡ false) × HasFailed bytes p
NotReady bytes thrown = ⊥
NotReady bytes endless = ⊥

abbrev NoRequest : Bytes → Returned (List HttpRequest) → Type 0
NoRequest bytes undefined_behaviour = Unit {0}
NoRequest bytes (returned rs p es) = (rs ≡ []) × HasFailed bytes p
NoRequest bytes thrown = ⊥
NoRequest bytes endless = ⊥

prepend-NoRequest :
    (bytes : Bytes) (rs : List HttpRequest) (es : List ParseErrorCode)
    (o : Returned (List HttpRequest))
    → rs ≡ []
    → NoRequest bytes o
    → NoRequest bytes (prepend rs es o)
prepend-NoRequest bytes rs es undefined_behaviour e n = tt
prepend-NoRequest bytes rs es (returned rs' p es') e (no_request, failed') =
    (ap (λ l. l ++ rs') e ∙ no_request, failed')
prepend-NoRequest bytes rs es thrown e n = n
prepend-NoRequest bytes rs es endless e n = n

and_then-NoRequest :
    (before bytes : Bytes) (o : Returned (List HttpRequest))
    (k : Parser → Returned (List HttpRequest))
    → NoRequest before o
    → ((p : Parser) → HasFailed before p → NoRequest bytes (k p))
    → NoRequest bytes (and_then o k)
and_then-NoRequest before bytes undefined_behaviour k n rest = tt
and_then-NoRequest before bytes (returned rs p es) k (no_request, failed') rest =
    prepend-NoRequest bytes rs es (k p) no_request (rest p failed')
and_then-NoRequest before bytes thrown k n rest = absurd n
and_then-NoRequest before bytes endless k n rest = absurd n

module _ (stoll : Bytes → Option ℕ) where
  unfoldable pub feed : Feed → Parser → Returned (List HttpRequest)
  unfolding new_incoming_data new_data_received
  feed (sync b) p = new_incoming_data stoll b p
  feed (async b) p = new_data_received stoll b p

  -- All requests that the pieces yield.
  unfoldable pub feed_all : List Feed → Parser → Returned (List HttpRequest)
  unfolding feed
  feed_all [] p = returned [] p []
  feed_all (d ∷ ds) p = and_then (feed d p) λ p'. feed_all ds p'

  -- One call, by what the buffer holds and the status.
  parse-empty :
      (p : Parser) → p.buffer ≡ [] → p.parsing_status ≡ request_line → NotReady [] (parse stoll p)
  unfolding parse
  parse-empty p b e = ground arith

  parse-request_line :
      (p : Parser) (c : ℕ) (s : Bytes)
      → p.buffer ≡ c ∷ s
      → p.parsing_status ≡ request_line
      → NotReady (c ∷ s) (parse stoll p)
  unfolding parse
  parse-request_line p c s b e = elim (parse_request_line-fails (c ∷ s)) [
    | inl fails ↦ ground (arith, fails)
    | inr breaks ↦ ground (arith, breaks)
  ]

  parse-error :
      (p : Parser) (c : ℕ) (s : Bytes)
      → p.buffer ≡ c ∷ s
      → p.parsing_status ≡ error
      → NotReady (c ∷ s) (parse stoll p)
  unfolding parse
  parse-error p c s b e = ground arith

  parse-NotReady :
      (p : Parser) (old bytes : Bytes)
      → HasFailed old p
      → NotReady (old ++ bytes) (parse stoll (record p { buffer = p.buffer ++ bytes }))
  parse-NotReady p [] [] (b, e) =
      parse-empty (record p { buffer = p.buffer ++ [] }) (ap (λ l. l ++ []) b) e
  parse-NotReady p [] (c ∷ s) (b, e) =
      parse-request_line (record p { buffer = p.buffer ++ c ∷ s }) c s (ap (λ l. l ++ c ∷ s) b) e
  parse-NotReady p (c ∷ s) bytes (b, e) =
      parse-error (record p { buffer = p.buffer ++ bytes }) c (s ++ bytes) (ap (λ l. l ++ bytes) b)
        e

  feed-NoRequest :
      (d : Feed) (p : Parser) (old : Bytes)
      → HasFailed old p
      → NoRequest (old ++ bytes_of d) (feed d p)
  unfolding feed new_incoming_data new_data_received parse_all
  feed-NoRequest (sync b) p old h =
      by_outcome (parse stoll (record p { buffer = p.buffer ++ b })) refl (parse-NotReady p old b h)
    where
      by_outcome :
          (o : Returned Bool)
          → parse stoll (record p { buffer = p.buffer ++ b }) ≡ o
          → NotReady (old ++ b) o
          → NoRequest (old ++ b) (feed (sync b) p)
      by_outcome (returned ready p' es) e (no_request, failed') = ground arith
      by_outcome undefined_behaviour e h' = ground arith
      by_outcome thrown e h' = absurd h'
      by_outcome endless e h' = absurd h'
  feed-NoRequest (async b) p old h =
      by_outcome (parse stoll (record p { buffer = p.buffer ++ b })) refl (parse-NotReady p old b h)
    where
      by_outcome :
          (o : Returned Bool)
          → parse stoll (record p { buffer = p.buffer ++ b }) ≡ o
          → NotReady (old ++ b) o
          → NoRequest (old ++ b) (feed (async b) p)
      by_outcome (returned ready p' es) e (no_request, failed') = ground arith
      by_outcome undefined_behaviour e h' = ground arith
      by_outcome thrown e h' = absurd h'
      by_outcome endless e h' = absurd h'

  feed_all-NoRequest :
      (ds : List Feed) (p : Parser) (old : Bytes)
      → HasFailed old p
      → NoRequest (old ++ all_bytes ds) (feed_all ds p)
  unfolding feed_all
  feed_all-NoRequest [] p old (b, e) =
      (refl, (b ∙ sym (append-nil old), e ∙ ap status_after (sym (append-nil old))))
  feed_all-NoRequest (d ∷ ds) p old h =
      and_then-NoRequest (old ++ bytes_of d) (old ++ (bytes_of d ++ all_bytes ds)) (feed d p)
        (λ p'. feed_all ds p') (feed-NoRequest d p old h)
        (λ p' h'.
          subst (λ b. NoRequest b (feed_all ds p')) (append_assoc old (bytes_of d) (all_bytes ds))
            (feed_all-NoRequest ds p' (old ++ bytes_of d) h'))

-- A new parser, whatever pieces come and by whichever of the two ways: unless something undefined
-- happens, no piece ever yields a request; no exception is thrown and no loop runs for ever; and in the end the
-- buffer holds all bytes that came, and the parser has failed if there were any.
pub feed_all-NotReady :
    (stoll : Bytes → Option ℕ) (ds : List Feed)
    → (feed_all stoll ds new_parser ≡ undefined_behaviour)
      ⊎ ((p : Parser) × (es : List ParseErrorCode) × (feed_all stoll ds new_parser
            ≡ returned [] p es)
          × (p.buffer ≡ all_bytes ds)
          × (p.parsing_status ≡ status_after (all_bytes ds)))
feed_all-NotReady stoll ds =
    by_outcome (feed_all stoll ds new_parser) refl
      (feed_all-NoRequest stoll ds new_parser [] (refl, refl))
  where
    by_outcome :
        (o : Returned (List HttpRequest))
        → feed_all stoll ds new_parser ≡ o
        → NoRequest (all_bytes ds) o
        → (feed_all stoll ds new_parser ≡ undefined_behaviour)
          ⊎ ((p : Parser) × (es : List ParseErrorCode) × (feed_all stoll ds new_parser
                ≡ returned [] p es)
              × (p.buffer ≡ all_bytes ds)
              × (p.parsing_status ≡ status_after (all_bytes ds)))
    by_outcome undefined_behaviour e n = inl e
    by_outcome (returned rs p es) e (no_request, failed') =
        inr (p, es, e ∙ ap (λ l. returned l p es) no_request, failed'.0, failed'.1)
    by_outcome thrown e n = absurd n
    by_outcome endless e n = absurd n
