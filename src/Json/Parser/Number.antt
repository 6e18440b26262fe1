-- ===== src/Json/Parser/Number.antt =====
-- `parseNumber`, `parseInt` and `parseAfterInt` of src/brutils/json_parser.cpp.
use brutils.Base.{
  ◌&&◌, ℕ, suc, ◌+◌, ◌-◌, Bool, true, false, not, ◌||◌, Bytes, [], ◌∷◌, Option, none, some, ◌==◌,
  if◌then◌else◌,
}
use brutils.Json.Floats.{Floats}
use brutils.Json.Parser.Outcome.{Result, ok, out_of_range, ◌>>=◌}
use brutils.Json.Parser.Scan.{is_digit, remove_whitespace}
use brutils.Json.Variant.{Variant, invalid, float}

-- `for (; isdigit(input.at(strLength)); ++strLength)`
unfoldable pub digit_count : Bytes → Result ℕ
unfolding is_digit
digit_count [] = out_of_range
digit_count (c ∷ s) =
    let more = (do n ← digit_count s; ok (suc n)) in if is_digit c then more else ok 0

-- A minus sign is removed; the flag says whether there was one.
unfoldable pub remove_minus : Bytes → Result (Bool × Bytes)
remove_minus [] = out_of_range
remove_minus (c ∷ s) = ok (if c == b'-' then (true, s) else (false, c ∷ s))

module _ (fl : Floats) where
  open fl use {Float, Double, zero, add_scaled, add_decimal, add, pow10, mul, div, mul_coeff}

  -- The second loop of `parseInt`, at round `i` of a number of `n` digits.
  unfoldable pub sum_digits : ℕ → ℕ → Float → Bytes → Result (Float × Bytes)
  unfolding is_digit
  sum_digits n i val [] = out_of_range
  sum_digits n i val (c ∷ s) =
      let more = sum_digits n (i + 1) (add_scaled val (c - b'0') (n - i - 1)) s in
      if is_digit c then more else ok (val, c ∷ s)

  unfoldable pub parse_int : Bytes → Result (Float × Bytes)
  unfolding digit_count sum_digits
  parse_int s = do n ← digit_count s; sum_digits n 0 zero s

  unfoldable pub sum_decimals : ℕ → Float → Bytes → Result (Float × Bytes)
  unfolding is_digit
  sum_decimals i val [] = out_of_range
  sum_decimals i val (c ∷ s) =
      let more = sum_decimals (i + 1) (add_decimal val (c - b'0') (i + 1)) s in
      if is_digit c then more else ok (val, c ∷ s)

  unfoldable pub parse_after_int : Bytes → Result (Float × Bytes)
  unfolding sum_decimals
  parse_after_int s = sum_decimals 0 zero s

  -- The part before the point; `none` where the text has no digit.
  unfoldable pub integer_part : Bytes → Result (Option Float × Bytes)
  unfolding parse_int is_digit
  integer_part [] = out_of_range
  integer_part (c ∷ s) =
      if c == b'0'
      then ok (some zero, s)
      else if is_digit c
      then (do (number, r) ← parse_int (c ∷ s); ok (some number, r))
      else ok (none, c ∷ s)

  unfoldable pub fraction : Float → Bytes → Result (Float × Bytes)
  unfolding parse_after_int
  fraction number [] = out_of_range
  fraction number (c ∷ s) =
      if c == b'.'
      then (do (val, r) ← parse_after_int s; ok (add number val, r))
      else ok (number, c ∷ s)

  unfoldable pub exponent : Float → Bytes → Result (Float × Bytes)
  unfolding remove_minus parse_int
  exponent number [] = out_of_range
  exponent number (c ∷ s) =
      if c == b'e' || c == b'E'
      then (do
        (negative, s') ← remove_minus s
        (val, r) ← parse_int s'
        ok (if negative then div number (pow10 val) else mul number (pow10 val), r))
      else ok (number, c ∷ s)

  -- What follows the integer part.
  unfoldable pub number_tail : Bool → Float → Bytes → Result (Variant Float Double × Bytes)
  unfolding fraction exponent remove_whitespace
  number_tail negative number [] = out_of_range
  number_tail negative number (c ∷ s) =
      if not (c == b'.') && not (c == b'e') && not (c == b'E')
      then ok (float number, remove_whitespace (c ∷ s))
      else (do
        (n, r) ← fraction number (c ∷ s)
        (m, r') ← exponent n r
        ok (float (mul_coeff m negative), r'))

  unfoldable pub parse_number : Bytes → Result (Variant Float Double × Bytes)
  unfolding remove_whitespace remove_minus integer_part number_tail
  parse_number input = do
    (negative, s) ← remove_minus (remove_whitespace input)
    (n, r) ← integer_part s
    elim n [ none ↦ ok (invalid, r) | some number ↦ number_tail negative number r ]
