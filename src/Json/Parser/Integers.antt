-- ===== src/Json/Parser/Integers.antt =====
-- `parseNumber` of src/brutils/json_parser.cpp on numbers without a fraction and an exponent.
use brutils.Base.{
  ℕ, suc, ◌+◌, ◌-◌, ◌≡◌, refl, Bool, true, false, ◌||◌, Bytes, length, [], ◌∷◌, ◌++◌, ◌==◌, arith,
  some,
}
use brutils.Json.Floats.{Floats}
use brutils.Json.Parser.Number.{
  digit_count, sum_digits, parse_int, integer_part, number_tail, parse_number, remove_minus,
}
use brutils.Json.Parser.Outcome.{ok}
use brutils.Json.Parser.Scan.{is_digit, is_space, remove_whitespace}
use brutils.Json.Variant.{float}

abbrev pub AllDigits : Bytes → Type 0
AllDigits [] = Unit {0}
AllDigits (c ∷ s) = (is_digit c ≡ true) × AllDigits s

digit_count-AllDigits :
    (ds : Bytes) (b : ℕ) (r : Bytes)
    → AllDigits ds
    → is_digit b ≡ false
    → digit_count (ds ++ b ∷ r) ≡ ok (length ds)
unfolding digit_count
digit_count-AllDigits [] b r h k = rw k
digit_count-AllDigits (c ∷ ds) b r h k = rw (h.0, digit_count-AllDigits ds b r h.1 k)

module _ (fl : Floats) where
  open fl use {Float, Double}

  -- Each digit counts by its place: the number of digits behind it is the power of ten.
  unfoldable pub place_value : Float → Bytes → Float
  place_value x [] = x
  place_value x (c ∷ ds) = place_value (fl.add_scaled x (c - b'0') (length ds)) ds

  sum_digits-AllDigits :
      (n i : ℕ) (x : Float) (ds : Bytes) (b : ℕ) (r : Bytes)
      → n ≡ i + length ds
      → AllDigits ds
      → is_digit b ≡ false
      → sum_digits fl n i x (ds ++ b ∷ r) ≡ ok (place_value x ds, b ∷ r)
  unfolding sum_digits place_value
  sum_digits-AllDigits n i x [] b r e h k = rw k
  sum_digits-AllDigits n i x (c ∷ ds) b r e h k =
      let place : n - i - 1 ≡ length ds = omega arith in
      rw (h.0, place) (sum_digits-AllDigits n (i + 1) _ ds b r (omega arith) h.1 k)

  integer_part-AllDigits :
      (c : ℕ) (ds : Bytes) (b : ℕ) (r : Bytes)
      → (c == b'0') ≡ false
      → AllDigits (c ∷ ds)
      → is_digit b ≡ false
      → integer_part fl (c ∷ (ds ++ b ∷ r)) ≡ ok (some (place_value fl.zero (c ∷ ds)), b ∷ r)
  unfolding integer_part parse_int digit_count sum_digits place_value
  integer_part-AllDigits c ds b r z h k =
      let place : suc (length ds) - 0 - 1 ≡ length ds = omega arith in
      rw
        (
          z,
          h.0,
          digit_count-AllDigits ds b r h.1 k,
          place,
          sum_digits-AllDigits (suc (length ds)) 1 (fl.add_scaled fl.zero (c - b'0') (length ds)) ds
              b r (omega arith) h.1 k,
        )
        refl

  remove_minus-digit :
      (c : ℕ) (s : Bytes)
      → is_digit c ≡ true
      → remove_minus (remove_whitespace (c ∷ s)) ≡ ok (false, c ∷ s)
  unfolding remove_whitespace remove_minus is_digit is_space
  remove_minus-digit c s h = ground arith

  number_tail-end :
      (negative : Bool) (x : Float) (b : ℕ) (r : Bytes)
      → (b == b'.' || b == b'e' || b == b'E') ≡ false
      → number_tail fl negative x (b ∷ r) ≡ ok (float x, remove_whitespace (b ∷ r))
  number_tail-end negative x b r n = unfold number_tail in ground arith

  -- Digits with no leading zero, in front of a byte that continues no number, are read as the sum of
  -- the digits by their places, and so they are behind a minus sign: the sign is lost.
  pub parse_number-AllDigits :
      (c : ℕ) (ds : Bytes) (b : ℕ) (r : Bytes)
      → (c == b'0') ≡ false
      → AllDigits (c ∷ ds)
      → is_digit b ≡ false
      → (b == b'.' || b == b'e' || b == b'E') ≡ false
      → (parse_number fl (c ∷ (ds ++ b ∷ r))
          ≡ ok (float (place_value fl.zero (c ∷ ds)), remove_whitespace (b ∷ r)))
        × (parse_number fl (b'-' ∷ c ∷ (ds ++ b ∷ r))
            ≡ ok (float (place_value fl.zero (c ∷ ds)), remove_whitespace (b ∷ r)))
  parse_number-AllDigits c ds b r z h k n =
      let minus = remove_minus-digit c (ds ++ b ∷ r) h.0 in
      let whole = integer_part-AllDigits c ds b r z h k in
      (
        unfold parse_number in rw (minus, whole, number_tail-end false _ b r n),
        unfold parse_number in rw (whole, number_tail-end true _ b r n),
      )
