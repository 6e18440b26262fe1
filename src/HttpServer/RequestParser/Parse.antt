-- ===== src/HttpServer/RequestParser/Parse.antt =====
-- `parse` of src/brutils/HttpServer/RequestParser.cpp, with its status between calls, and its two callers.
pub mod Feeding
use brutils.Base.{
  ℕ, zero, suc, Bool, true, false, Bytes, codes, equal, length, Option, none, some, List, [], ◌∷◌,
  ◌++◌, ltb, ◌==◌, if◌then◌else◌,
}
use brutils.HttpServer.Request.{
  HttpRequest, empty_request, header, insert_header, set_method, set_path, set_query, set_raw_body,
  set_version,
}
use brutils.HttpServer.RequestParser.{
  Parsed, done, failed, undefined, out_of_fuel, ◌>>=◌, RequestLine, find_new_line, parse_method,
  parse_request_line, parse_header, parse_body,
}

pub data ParsingStatus : Type 0 where
  request_line header_lines body finished error : ParsingStatus

pub data ParseErrorCode : Type 0 where
  no_error method uri version : ParseErrorCode

-- What a piece that failed has already stored in the request is left out.
pub record Parser : Type 0 where
  pub buffer : Bytes
  pub parsing_status : ParsingStatus
  pub request_in_production : Option HttpRequest

abbrev pub new_parser : Parser
new_parser = record { buffer = []; parsing_status = request_line; request_in_production = none }

-- What `parse` returns with the errors that it emits; `thrown`: an exception of `at` or `stoll`.
pub data Returned {ℓ} (A : Type ℓ) : Type ℓ where
  returned : A → Parser → List ParseErrorCode → Returned A
  undefined_behaviour thrown endless : Returned A

-- The request line that has been parsed, stored field by field.
unfoldable pub store_line : RequestLine → HttpRequest → HttpRequest
unfolding set_method set_path set_query set_version
store_line l r = set_version l.version (set_query l.query (set_path l.path (set_method l.method r)))

unfoldable pub insert_headers : List (Bytes × Bytes) → HttpRequest → Parsed HttpRequest
unfolding insert_header
insert_headers [] r = done r
insert_headers (p ∷ ps) r = insert_header p.0 p.1 r >>= λ r'. insert_headers ps r'

abbrev pub request_of : Parser → HttpRequest
request_of p = elim p.request_in_production [ none ↦ empty_request | some r ↦ r ]

abbrev pub finish : Parser → HttpRequest → Returned Bool
finish p r =
    returned true (record p { parsing_status = request_line; request_in_production = some r }) []

abbrev pub fail : List ParseErrorCode → Parser → Returned Bool
fail es p = returned false (record p { parsing_status = error }) (es ++ no_error ∷ [])

-- What follows a piece of the request that has been parsed or not.
abbrev pub after_piece {ℓ} :
    {A : Type ℓ} → List ParseErrorCode → Parser → Parsed A → (A → Returned Bool) → Returned Bool
after_piece es p (done a) k = k a
after_piece es p failed k = fail es p
after_piece es p undefined k = undefined_behaviour
after_piece es p out_of_fuel k = endless

-- The error that `parseRequestLine` itself emits.
unfoldable pub method_error : Bytes → List ParseErrorCode
unfolding find_new_line parse_method
method_error s = elim (parse_method (find_new_line s).0) [ failed ↦ method ∷ [] | _ ↦ [] ]

-- `stoll` is the library's; `none` is its exception.
module _ (stoll : Bytes → Option ℕ) where
  unfoldable pub body_stage : Parser → HttpRequest → Bytes → Returned Bool
  unfolding header parse_body set_raw_body
  body_stage p r s = after_piece [] p (header (codes "content-size") r) λ size. elim size [
    | none ↦ thrown
    | some text ↦ elim (stoll text) [
      | none ↦ thrown
      | some n ↦ after_piece [] p (parse_body n s) λ b. finish p (set_raw_body b.0 r)
    ]
  ]

  unfoldable pub header_stage : Parser → HttpRequest → Bytes → Returned Bool
  unfolding parse_header insert_headers header body_stage
  header_stage p r s = after_piece [] p (parse_header (suc (length s)) s) λ h.
      after_piece [] p (insert_headers h.0 r) λ r'.
        after_piece [] p (header (codes "content-size") r') λ size. elim size [
          | none ↦ thrown
          | some text ↦ if length text == 0 then finish p r' else body_stage p r' h.1
        ]

  -- The loop of `parse` returns in its first round.
  unfoldable pub parse : Parser → Returned Bool
  unfolding parse_request_line store_line header_stage body_stage method_error
  parse p =
      let r = request_of p in
      let p' : Parser = record p { request_in_production = some r } in
      elim p.buffer [
        | [] ↦ returned false p' []
        | ◌∷◌ c s ↦ elim p.parsing_status [
          | request_line ↦
              after_piece (method_error (c ∷ s)) p' (parse_request_line (c ∷ s))
                λ l. header_stage p' (store_line l.0 r) l.1
          | header_lines ↦ header_stage p' r (c ∷ s)
          | body ↦ body_stage p' r (c ∷ s)
          | finished ↦ finish p' r
          | error ↦ fail [] p'
        ]
      ]

  -- What a caller of `parse` does with a request that is ready: it is given out.
  abbrev pub take_request : Bool → Parser → List HttpRequest × Parser
  take_request true p = (request_of p ∷ [], record p { request_in_production = none })
  take_request false p = ([], p)

  unfoldable pub new_incoming_data : Bytes → Parser → Returned (List HttpRequest)
  unfolding parse
  new_incoming_data bytes p = elim (parse (record p { buffer = p.buffer ++ bytes })) [
    | returned ready p' es ↦ let t = take_request ready p' in returned t.0 t.1 es
    | undefined_behaviour ↦ undefined_behaviour
    | thrown ↦ thrown
    | endless ↦ endless
  ]

  -- The loop of `newDataReceived_slot`, on fuel.
  unfoldable pub parse_all : ℕ → Parser → Returned (List HttpRequest)
  unfolding parse
  parse_all zero p = endless
  parse_all (suc f) p = elim (parse p) [
    | returned ready p' es ↦
        let t = take_request ready p' in
        let rest = parse_all f t.1 in
        elim ready [
          | true ↦ elim rest [
            | returned rs p'' es' ↦ returned (t.0 ++ rs) p'' (es ++ es')
            | undefined_behaviour ↦ undefined_behaviour
            | thrown ↦ thrown
            | endless ↦ endless
          ]
          | false ↦ returned [] p' es
        ]
    | undefined_behaviour ↦ undefined_behaviour
    | thrown ↦ thrown
    | endless ↦ endless
  ]

  unfoldable pub new_data_received : Bytes → Parser → Returned (List HttpRequest)
  unfolding parse_all
  new_data_received bytes p =
      let p' : Parser = record p { buffer = p.buffer ++ bytes } in
      parse_all (suc (length p'.buffer)) p'
