-- ===== src/HttpServer/Response/Send/Calls.antt =====
-- Sequences of calls to a response of src/brutils/HttpServer/HttpResponse.cpp.
use brutils.Base.{
  ℕ, ℤ, pos, negsuc, ◌<◌, ◌≡◌, refl, Bool, true, false, ◌&&◌, Bytes, none, List, [], ◌∷◌, ◌++◌, ap,
  ◌∙◌, ltb, ◌⊎◌, inl, inr, arith, Bool-cases, ◌≢◌, subst, sym,
}
use brutils.HttpServer.Response.{HttpResponseStatus, status_code, continue, header, remove_header}
use brutils.HttpServer.Response.Send.{
  at_version, HttpResponse, Outcome, ok, thrown, undefined, ◌>>=◌, clear_headers, set_status,
  set_status_number, convert_string_to_bytes, convert_http_response_status_to_vector, send_response,
  Sent, send, send_string, send_bytes, send_json, send_xml, send_file, with_content_type,
  http_response,
}
use brutils.HttpServer.Response.Table.{Ascending, header-Ascending, remove_header-Ascending}
use brutils.Json.Floats.{Floats}
use brutils.Json.Generator
use brutils.Json.Generator.{show_int, show_int-ends}
use brutils.Json.Variant.{Variant}

pub data Call (F D : Type 0) : Type 0 where
  call_header : Bytes → Bytes → Call F D
  call_remove_header : Bytes → Call F D
  call_clear_headers : Call F D
  call_status : HttpResponseStatus → Call F D
  call_status_number : ℤ → Call F D
  call_send : Call F D
  call_send_string call_send_bytes : Bytes → Bytes → Call F D
  call_send_json call_send_xml : Variant F D → Call F D
  call_send_file : Bytes → Call F D

-- The calls that write no response and store no status of more than nine bits.
abbrev pub is_quiet : {F D : Type 0} → Call F D → Bool
is_quiet (call_status_number (pos n)) = ltb n 512
is_quiet (call_status_number (negsuc n)) = false
is_quiet call_send = false
is_quiet (call_send_string content content_type) = false
is_quiet (call_send_bytes content content_type) = false
is_quiet (call_send_json json) = false
is_quiet _ = true

abbrev pub all_quiet : {F D : Type 0} → List (Call F D) → Bool
all_quiet [] = true
all_quiet (c ∷ cs) = is_quiet c && all_quiet cs

-- No version has been chosen, the status has nine bits, and the keys ascend.
abbrev pub IsUnsent : HttpResponse → Type 0
IsUnsent r = (r.version ≡ none) × (r.status < 512) × Ascending r.header_map

module _ (fl : Floats) where
  unfoldable pub perform : Call fl.Float fl.Double → HttpResponse → Sent
  unfolding header remove_header clear_headers set_status set_status_number send send_string
      send_bytes send_json send_xml send_file
  perform (call_header k v) r = ok (record r { header_map = header k v r.header_map }, [])
  perform (call_remove_header k) r = ok (record r { header_map = remove_header k r.header_map }, [])
  perform call_clear_headers r = ok (clear_headers r, [])
  perform (call_status s) r = ok (set_status s r, [])
  perform (call_status_number n) r = set_status_number n r >>= λ r'. ok (r', [])
  perform call_send r = send r
  perform (call_send_string content content_type) r = send_string content content_type r
  perform (call_send_bytes content content_type) r = send_bytes content content_type r
  perform (call_send_json json) r = send_json fl json r
  perform (call_send_xml json) r = send_xml fl json r
  perform (call_send_file path) r = send_file path r

  -- The calls in order, and all that they write.
  unfoldable pub perform_all : List (Call fl.Float fl.Double) → HttpResponse → Sent
  unfolding perform
  perform_all [] r = ok (r, [])
  perform_all (c ∷ cs) r = perform c r >>= λ p. perform_all cs p.0 >>= λ q. ok (q.0, p.1 ++ q.1)

status_code-bits : (s : HttpResponseStatus) → status_code s < 512
unfolding status_code
status_code-bits continue = omega arith
status_code-bits _ = omega arith

convert_to_bytes-undefined :
    (before : Bytes) (c : ℕ) → convert_string_to_bytes (before ++ c ∷ []) ≡ undefined
unfolding convert_string_to_bytes
convert_to_bytes-undefined [] c = refl
convert_to_bytes-undefined (d ∷ before) c = refl

convert_status-undefined : (n : ℕ) → convert_http_response_status_to_vector n ≡ undefined
unfolding convert_http_response_status_to_vector convert_string_to_bytes show_int
convert_status-undefined n =
    let (s, c, e) = show_int-ends n in ap convert_string_to_bytes e ∙ convert_to_bytes-undefined s c

-- Whatever its status and headers, a response whose version is one of the table is never put together.
pub send_response-undefined :
    (content : Bytes) (r : HttpResponse) → r.version ≡ none → send_response content r ≡ undefined
unfolding send_response at_version
send_response-undefined content r e = rw (e, convert_status-undefined r.status) refl

-- What a quiet call ends with, and any other.
abbrev pub Settled : Bool → Sent → Type 0
Settled true o = (r : HttpResponse) × (o ≡ ok (r, [])) × IsUnsent r
Settled false o = o ≡ undefined

then-undefined :
    (r : HttpResponse)
    → r.version ≡ none
    → (o : Outcome Bytes) → o ≢ thrown
    → (o >>= λ b. send_response b r) ≡ undefined
then-undefined r e (ok b) h = send_response-undefined b r e
then-undefined r e thrown h = absurd (h refl)
then-undefined r e undefined h = refl

convert-not_thrown : (s : Bytes) → convert_string_to_bytes s ≢ thrown
unfolding convert_string_to_bytes
convert-not_thrown [] e = ground (arith, e)
convert-not_thrown (c ∷ s) e = ground (arith, e)

module _ (fl : Floats) where
  perform-Settled :
      (c : Call fl.Float fl.Double) (r : HttpResponse)
      → IsUnsent r
      → Settled (is_quiet c) (perform fl c r)
  unfolding perform clear_headers set_status set_status_number send send_string send_bytes send_json
      send_xml send_file
  perform-Settled (call_header k v) r (e, n, h) = (
    record r { header_map = header k v r.header_map },
    refl,
    (e, n, (header-Ascending k v r.header_map h).0),
  )
  perform-Settled (call_remove_header k) r (e, n, h) = (
    record r { header_map = remove_header k r.header_map },
    refl,
    (e, n, remove_header-Ascending k r.header_map h),
  )
  perform-Settled call_clear_headers r (e, n, h) = (record r { header_map = [] }, refl, (e, n, tt))
  perform-Settled (call_status s) r (e, n, h) =
      (record r { status = status_code s }, refl, (e, status_code-bits s, h))
  perform-Settled (call_status_number (pos m)) r (e, n, h) = elim (Bool-cases (ltb m 512)) [
    | inl b ↦
        let small : m < 512 = ground (arith, b) in
        let stored : Settled true (perform fl (call_status_number (pos m)) r) =
          (record r { status = m }, rw b refl, (e, small, h)) in
        subst (λ q. Settled q (perform fl (call_status_number (pos m)) r)) (sym b) stored
    | inr b ↦
        let refused : Settled false (perform fl (call_status_number (pos m)) r) = rw b refl in
        subst (λ q. Settled q (perform fl (call_status_number (pos m)) r)) (sym b) refused
  ]
  perform-Settled (call_status_number (negsuc m)) r u = refl
  perform-Settled call_send r (e, n, h) = send_response-undefined [] r e
  perform-Settled (call_send_string s t) r (e, n, h) =
      then-undefined (with_content_type t r) e (convert_string_to_bytes s) (convert-not_thrown s)
  perform-Settled (call_send_bytes s t) r (e, n, h) =
      send_response-undefined s (with_content_type t r) e
  perform-Settled (call_send_json json) r (e, n, h) =
      let s = Generator.generate fl json false in
      then-undefined r e (convert_string_to_bytes s) (convert-not_thrown s)
  perform-Settled (call_send_xml json) r u = (r, refl, u)
  perform-Settled (call_send_file path) r u = (r, refl, u)

  -- One call, and then the others.
  settle :
      (b bs : Bool) (cs : List (Call fl.Float fl.Double)) (o : Sent)
      → Settled b o
      → ((r : HttpResponse) → IsUnsent r → Settled bs (perform_all fl cs r))
      → Settled (b && bs) (o >>= λ p. perform_all fl cs p.0 >>= λ q. ok (q.0, p.1 ++ q.1))
  settle false bs cs o e k =
      ap (λ o. o >>= λ p. perform_all fl cs p.0 >>= λ q. ok (q.0, p.1 ++ q.1)) e
  settle true false cs o (r, e, u) k = ground (arith, e, k r u)
  settle true true cs o (r, e, u) k = let (r', e', u') = k r u in (r', ground (arith, e, e'), u')

  pub perform_all-Settled :
      (cs : List (Call fl.Float fl.Double)) (r : HttpResponse)
      → IsUnsent r
      → Settled (all_quiet cs) (perform_all fl cs r)
  unfolding perform_all
  perform_all-Settled [] r u = (r, refl, u)
  perform_all-Settled (c ∷ cs) r u =
      settle (is_quiet c) (all_quiet cs) cs (perform fl c r) (perform-Settled c r u)
        (perform_all-Settled cs)

-- A new response, and calls of its functions in any order. If none of them sends something and every
-- number given as a status has nine bits, all succeed, nothing has been written, no version has been
-- chosen, and the headers ascend; else the calls are undefined. So no response is ever written:
-- `sendXml` and `sendFile` do nothing, and the other functions that send are undefined.
pub perform_all-quiet :
    (fl : Floats) (cs : List (Call fl.Float fl.Double)) (private_t : Bool)
    → ((all_quiet cs ≡ true)
        × ((r : HttpResponse) × (perform_all fl cs (record http_response { private_t = private_t })
              ≡ ok (r, []))
            × (r.version ≡ none)
            × Ascending r.header_map))
      ⊎ ((all_quiet cs ≡ false)
          × (perform_all fl cs (record http_response { private_t = private_t }) ≡ undefined))
perform_all-quiet fl cs private_t = by_quiet (all_quiet cs) refl (
    perform_all-Settled fl cs (record http_response { private_t = private_t })
      (refl, omega arith, tt))
  where
    by_quiet :
        (b : Bool)
        → all_quiet cs ≡ b
        → Settled b (perform_all fl cs (record http_response { private_t = private_t }))
        → ((all_quiet cs ≡ true)
            × ((r : HttpResponse) × (perform_all fl cs
                    (record http_response { private_t = private_t })
                  ≡ ok (r, []))
                × (r.version ≡ none)
                × Ascending r.header_map))
          ⊎ ((all_quiet cs ≡ false)
              × (perform_all fl cs (record http_response { private_t = private_t }) ≡ undefined))
    by_quiet true b (r, e, (v, n, h)) = inl (b, (r, e, v, h))
    by_quiet false b e = inr (b, e)
