-- ===== src/Json/Parser/Escapes.antt =====
-- Escaped quotes in src/brutils/json_parser.cpp.
use brutils.Base.{ℕ, zero, suc, ◌≡◌, refl, Bytes, ◌∷◌, some}
use brutils.Json.Floats.{Floats}
use brutils.Json.Parser.Outcome.{ok, no_fuel}
use brutils.Json.Parser.Scan.{at, find_first_of}
use brutils.Json.Parser.Unescaped.{find_quote_escaped}
use brutils.Json.Parser.{parse_string, parse_value, parse_with}

parse_string_escaped :
    (f : ℕ) (s : Bytes) (i : ℕ)
    → find_first_of b'"' 0 s ≡ some (suc i)
    → at s i ≡ ok b'\\'
    → parse_string f (b'"' ∷ s) ≡ no_fuel
parse_string_escaped f s i e h = unfold parse_string in rw (find_quote_escaped f 0 s i e h) refl

module _ (fl : Floats) where
  parse_value_escaped :
      (f : ℕ) (s : Bytes) (i : ℕ)
      → find_first_of b'"' 0 s ≡ some (suc i)
      → at s i ≡ ok b'\\'
      → parse_value fl f (b'"' ∷ s) ≡ no_fuel
  parse_value_escaped zero s i e h = unfold parse_value in refl
  parse_value_escaped (suc f) s i e h =
      unfold parse_value in rw (parse_string_escaped (suc f) s i e h) refl

  -- A list that begins with a string whose first quote is escaped by a backslash is never parsed:
  -- whatever fuel there is, the loops use it up.
  pub parse_with_escaped :
      (f : ℕ) (s : Bytes) (i : ℕ)
      → find_first_of b'"' 0 s ≡ some (suc i)
      → at s i ≡ ok b'\\'
      → parse_with fl f (b'[' ∷ b'"' ∷ s) ≡ no_fuel
  parse_with_escaped zero s i e h = unfold parse_with parse_value in refl
  parse_with_escaped (suc zero) s i e h = unfold parse_with parse_value in refl
  parse_with_escaped (suc (suc f)) s i e h =
      unfold parse_with parse_value in rw (parse_value_escaped f s i e h) refl
