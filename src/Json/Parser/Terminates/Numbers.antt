-- ===== src/Json/Parser/Terminates/Numbers.antt =====
-- The loops and calls of src/brutils/json_parser.cpp end on every text without an escaped quote, and
-- never leave more than they were given.
use brutils.Base.{
  ℕ, suc, ◌+◌, ◌-◌, ◌≤◌, ◌<◌, ◌≡◌, ◌&&◌, ◌||◌, not, Bool, true, Bytes, length, Option, none, some,
  [], ◌∷◌, ◌==◌, arith,
}
use brutils.Json.Floats.{Floats}
use brutils.Json.Parser.Outcome.{Result, ok, out_of_range, no_fuel, Post, bind-Post, if-Post}
use brutils.Json.Parser.Scan.{remove_whitespace, is_digit}
use brutils.Json.Parser.Number.{
  digit_count, remove_minus, sum_digits, parse_int, sum_decimals, parse_after_int, integer_part,
  fraction, exponent, number_tail, parse_number,
}
use brutils.Json.Parser.Unescaped.{Unescaped, Unescaped-tail, Left, Left-remove_whitespace}
use brutils.Json.Parser.Terminates.Pieces.{Read}
use brutils.Json.Variant.{Variant, invalid, is_valid}

digit_count-Post : (s : Bytes) → Post (λ n. Unit {0}) (digit_count s)
unfolding digit_count
digit_count-Post [] = tt
digit_count-Post (c ∷ s) = ground (arith, digit_count-Post s)

remove_minus-Post : (s : Bytes) → Unescaped s → Post (λ p. Left (length s) p.1) (remove_minus s)
unfolding remove_minus
remove_minus-Post [] h = tt
remove_minus-Post (c ∷ s) h = ground (arith, Unescaped-tail c s h)

sum_digits-Post :
    (fl : Floats) (n i : ℕ) (val : fl.Float) (s : Bytes)
    → Unescaped s
    → Post (λ p. Left (length s) p.1) (sum_digits fl n i val s)
unfolding sum_digits
sum_digits-Post fl n i val [] h = tt
sum_digits-Post fl n i val (c ∷ s) h = ground (
  arith,
  sum_digits-Post fl n (i + 1) (fl.add_scaled val (c - b'0') (n - i - 1)) s (Unescaped-tail c s h),
)

sum_decimals-Post :
    (fl : Floats) (i : ℕ) (val : fl.Float) (s : Bytes)
    → Unescaped s
    → Post (λ p. Left (length s) p.1) (sum_decimals fl i val s)
unfolding sum_decimals
sum_decimals-Post fl i val [] h = tt
sum_decimals-Post fl i val (c ∷ s) h = ground (
  arith,
  sum_decimals-Post fl (i + 1) (fl.add_decimal val (c - b'0') (i + 1)) s (Unescaped-tail c s h),
)

parse_int-Post :
    (fl : Floats) (s : Bytes) → Unescaped s → Post (λ p. Left (length s) p.1) (parse_int fl s)
unfolding parse_int
parse_int-Post fl s h =
    bind-Post (λ n. Unit {0}) _ (digit_count s) _ (digit_count-Post s)
      (λ n _ _. sum_digits-Post fl n 0 fl.zero s h)

-- A number that starts with a digit takes it.
parse_int_digit-Post :
    (fl : Floats) (c : ℕ) (s : Bytes)
    → Unescaped (c ∷ s)
    → is_digit c ≡ true
    → Post (λ p. Left (length s) p.1) (parse_int fl (c ∷ s))
unfolding parse_int
parse_int_digit-Post fl c s h d =
    bind-Post (λ n. Unit {0}) _ (digit_count (c ∷ s)) _ (digit_count-Post (c ∷ s))
      λ n _ _.
        unfold sum_digits in
        rw d (
          sum_digits-Post fl n 1 (fl.add_scaled fl.zero (c - b'0') (n - 0 - 1)) s
            (Unescaped-tail c s h))

abbrev Found {ℓ} : {A : Type ℓ} → ℕ → Option A × Bytes → Type 0
Found n (none, r) = Left n r
Found n (some _, r) = Unescaped r × (length r < n)

integer_part-Post :
    (fl : Floats) (s : Bytes) → Unescaped s → Post (Found (length s)) (integer_part fl s)
unfolding integer_part
integer_part-Post fl [] h = tt
integer_part-Post fl (c ∷ s) h =
    if-Post (Found (suc (length s))) (c == b'0') _ _ (λ _. (Unescaped-tail c s h, omega arith))
      λ _.
        if-Post (Found (suc (length s))) (is_digit c) _ _
          (λ d.
            bind-Post (λ p. Left (length s) p.1) _ (parse_int fl (c ∷ s)) _
              (parse_int_digit-Post fl c s h d) (λ p _ l. (l.0, omega arith)))
          (λ _. (h, omega arith))

fraction-Post :
    (fl : Floats) (x : fl.Float) (s : Bytes)
    → Unescaped s
    → Post (λ p. Left (length s) p.1) (fraction fl x s)
unfolding fraction parse_after_int
fraction-Post fl x [] h = tt
fraction-Post fl x (c ∷ s) h =
    if-Post _ (c == b'.') _ _
      (λ _.
        bind-Post (λ p. Left (length s) p.1) _ (sum_decimals fl 0 fl.zero s) _
          (sum_decimals-Post fl 0 fl.zero s (Unescaped-tail c s h)) (λ p _ l. (l.0, omega arith)))
      (λ _. (h, omega arith))

exponent-Post :
    (fl : Floats) (x : fl.Float) (s : Bytes)
    → Unescaped s
    → Post (λ p. Left (length s) p.1) (exponent fl x s)
unfolding exponent
exponent-Post fl x [] h = tt
exponent-Post fl x (c ∷ s) h =
    if-Post _ (c == b'e' || c == b'E') _ _
      (λ _.
        bind-Post (λ p. Left (length s) p.1) _ (remove_minus s) _
          (remove_minus-Post s (Unescaped-tail c s h))
          λ m _ l.
            bind-Post (λ p. Left (length m.1) p.1) _ (parse_int fl m.1) _
              (parse_int-Post fl m.1 l.0) (λ p _ k. (k.0, omega arith)))
      (λ _. (h, omega arith))

number_tail-Post :
    (fl : Floats) (negative : Bool) (x : fl.Float) (s : Bytes)
    → Unescaped s
    → Post (λ p. Left (length s) p.1) (number_tail fl negative x s)
unfolding number_tail
number_tail-Post fl negative x [] h = tt
number_tail-Post fl negative x (c ∷ s) h =
    if-Post (λ p. Left (suc (length s)) p.1) (not (c == b'.') && not (c == b'e') && not (c == b'E'))
      _ _ (λ _. Left-remove_whitespace (c ∷ s) (suc (length s)) (h, omega arith))
      (λ _.
        bind-Post (λ p. Left (suc (length s)) p.1) _ (fraction fl x (c ∷ s)) _
          (fraction-Post fl x (c ∷ s) h)
          λ m _ l.
            bind-Post (λ p. Left (length m.1) p.1) _ (exponent fl m.0 m.1) _
              (exponent-Post fl m.0 m.1 l.0) (λ p _ k. (k.0, omega arith)))

parse_number_end-Post :
    (fl : Floats) (n : ℕ) (negative : Bool) (p : Option fl.Float × Bytes)
    → Found n p
    → Post
        (Read fl n)
        (elim p.0 [ none ↦ ok (invalid, p.1) | some x ↦ number_tail fl negative x p.1 ])
unfolding is_valid
parse_number_end-Post fl n negative (none, r) k = (k, λ e. cc)
parse_number_end-Post fl n negative (some x, r) k =
    weaken (number_tail fl negative x r) (number_tail-Post fl negative x r k.0)
  where
    weaken :
        (m : Result (Variant fl.Float fl.Double × Bytes))
        → Post (λ p. Left (length r) p.1) m
        → Post (Read fl n) m
    weaken (ok p) l = ((l.0, omega arith), λ _. omega arith)
    weaken out_of_range l = tt
    weaken no_fuel l = l

pub parse_number-Post :
    (fl : Floats) (s : Bytes) → Unescaped s → Post (Read fl (length s)) (parse_number fl s)
unfolding parse_number
parse_number-Post fl s h =
    let s' = remove_whitespace s in
    let start = Left-remove_whitespace s (length s) (h, omega arith) in
    bind-Post (λ p. Left (length s') p.1) (Read fl (length s)) (remove_minus s') _
      (remove_minus-Post s' start.0)
      λ m _ l.
        bind-Post (Found (length s)) (Read fl (length s)) (integer_part fl m.1) _
          (integer_part_within (length s) m.1 l.0 (omega arith))
          (λ p _ k. parse_number_end-Post fl (length s) m.0 p k)
  where
    integer_part_within :
        (n : ℕ) (s : Bytes) → Unescaped s → length s ≤ n → Post (Found n) (integer_part fl s)
    integer_part_within n s h le = widen (integer_part fl s) (integer_part-Post fl s h)
      where
        widen :
            (m : Result (Option fl.Float × Bytes)) → Post (Found (length s)) m → Post (Found n) m
        widen (ok (none, r)) k = (k.0, omega arith)
        widen (ok (some x, r)) k = (k.0, omega arith)
        widen out_of_range k = tt
        widen no_fuel k = k
