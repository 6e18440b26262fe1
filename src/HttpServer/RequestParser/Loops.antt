-- ===== src/HttpServer/RequestParser/Loops.antt =====
-- The loops of src/brutils/HttpServer/RequestParser.cpp end.
use brutils.Base.{ℕ, zero, suc, ◌-◌, ◌<◌, ◌≡◌, ◌≢◌, refl, ap, Bytes, length, drop, [], ◌∷◌, arith}
use brutils.HttpServer.RequestParser.{
  Parsed, done, failed, undefined, out_of_fuel, ◌>>=◌, find_byte, find_new_line, get_string,
  parse_pair, parse_query, parse_header_line, parse_header,
}
use brutils.HttpServer.RequestParser.Lines.{
  find_byte-length, find_new_line-length, length-drop_le, get_string-fuel, parse_header_line-fuel,
}

bind-fuel {ℓ ℓ'} :
    {A : Type ℓ} {B : Type ℓ'} (m : Parsed A) (k : A → Parsed B)
    → m ≢ out_of_fuel
    → ((a : A) → k a ≢ out_of_fuel)
    → (m >>= k) ≢ out_of_fuel
bind-fuel (done a) k h g e = g a e
bind-fuel failed k h g e = absurd (ground (arith, e))
bind-fuel undefined k h g e = absurd (ground (arith, e))
bind-fuel out_of_fuel k h g e = h refl

done-fuel {ℓ} : {A : Type ℓ} (a : A) → done a ≢ out_of_fuel
done-fuel a e = ground (arith, e)

parse_pair-fuel : (pair : Bytes) → parse_pair pair ≢ out_of_fuel
unfolding parse_pair
parse_pair-fuel pair = go (find_byte b'=' pair).1 refl
  where
    go : (rest : Bytes) → (find_byte b'=' pair).1 ≡ rest → parse_pair pair ≢ out_of_fuel
    go [] e =
        rw (e, parse_pair) (bind-fuel (get_string pair) _ (get_string-fuel pair) (λ k. done-fuel _))
    go (c ∷ value) e =
        rw (e, parse_pair)
          (bind-fuel (get_string (find_byte b'=' pair).0) _ (get_string-fuel _)
            (λ k. bind-fuel (get_string value) _ (get_string-fuel value) (λ v. done-fuel _)))

length-drop_one : (s : Bytes) → length (drop 1 s) ≡ length s - 1
length-drop_one [] = refl
length-drop_one (c ∷ s) = omega arith

-- The loop over the query ends: each round takes one byte at least, so that one round more than the
-- query has bytes is enough.
parse_query-ends : (f : ℕ) (s : Bytes) → length s < f → parse_query f s ≢ out_of_fuel
unfolding parse_query
parse_query-ends zero s l = absurd (omega arith)
parse_query-ends (suc f) [] l = done-fuel []
parse_query-ends (suc f) (c ∷ s) l =
    let rest = (find_byte b'&' (c ∷ s)).1 in
    let shorter : length (drop 1 rest) < f =
      omega (arith, length-drop_one rest, find_byte-length b'&' (c ∷ s), l) in
    bind-fuel (parse_pair (find_byte b'&' (c ∷ s)).0) _ (parse_pair-fuel (find_byte b'&' (c ∷ s)).0)
      (λ p.
        bind-fuel (parse_query f (drop 1 rest)) _ (parse_query-ends f (drop 1 rest) shorter)
          (λ ps. done-fuel _))

-- The loop over the header lines ends, with one round more than there are bytes at most.
parse_header-ends : (f : ℕ) (s : Bytes) → length s < f → parse_header f s ≢ out_of_fuel
unfolding parse_header
parse_header-ends zero s l = absurd (omega arith)
parse_header-ends (suc f) [] l = λ e. ground (arith, e)
parse_header-ends (suc f) (c ∷ s) l =
    go (find_new_line (c ∷ s)).0 refl (parse_header-ends f (drop 2 (find_new_line (c ∷ s)).1))
  where
    go :
        (line : Bytes)
        → (find_new_line (c ∷ s)).0 ≡ line
        → (length (drop 2 (find_new_line (c ∷ s)).1) < f
            → parse_header f (drop 2 (find_new_line (c ∷ s)).1) ≢ out_of_fuel)
        → parse_header (suc f) (c ∷ s) ≢ out_of_fuel
    go [] e later = rw (e, parse_header) (done-fuel _)
    go (d ∷ line) e later =
        let rest = (find_new_line (c ∷ s)).1 in
        let shorter : length (drop 2 rest) < f =
          omega (arith, length-drop_le 2 rest, find_new_line-length (c ∷ s), ap length e, l) in
        rw (e, parse_header)
          (bind-fuel (parse_header_line (d ∷ line)) _ (parse_header_line-fuel (d ∷ line))
            (λ p. bind-fuel (parse_header f (drop 2 rest)) _ (later shorter) (λ m. done-fuel _)))
