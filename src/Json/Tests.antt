-- ===== src/Json/Tests.antt =====
-- Texts that src/brutils/json_parser.cpp reads and src/brutils/json_generator.cpp writes.
use Prim.Native.Nat.{◌^◌}
use brutils.Base.{ℤ, pos, Bool, Bytes, ℕ, ◌+◌, ◌*◌, ◌≡◌, refl, true, false, codes, [], ◌⊎◌}
use brutils.Json.Access.{
  Typed, is_bool, is_int, is_float, is_double, is_string, is_list, is_map, is_value, to_bool,
  to_int, to_float, to_double, to_string, to_list, to_map, access-Typed,
}
use brutils.Json.Floats.{Floats}
use brutils.Json.Generator.{gen_value, generate}
use brutils.Json.Parser.{parse, parse_array, parse_with}
use brutils.Json.Parser.Escapes.{parse_with_escaped}
use brutils.Json.Parser.Integers.{place_value, parse_number-AllDigits}
use brutils.Json.Parser.Number.{parse_number}
use brutils.Json.Parser.Outcome.{ok, out_of_range, no_fuel}
use brutils.Json.Parser.Scan.{at, find_first_of, is_digit, is_space, remove_whitespace}
use brutils.Json.Parser.Terminates.{parse-ends}
use brutils.Json.RoundTrip.Printable.{IsPrintable}
use brutils.Json.RoundTrip.Whole.{parse-generate}
use brutils.Json.Variant.{
  Variant, null, int, double, Items, Fields, is_valid, invalid, bool, float, string, list, map,
  less, nil, cons, end, field,
}

-- Whole numbers in place of floating point.
abbrev exact : Floats
exact = record {
  Float = ℕ;
  Double = ℕ;
  zero = 0;
  add_scaled = λ v d k. v + d * 10 ^ k;
  add_decimal = λ v d k. v;
  add = λ a b. a + b;
  pow10 = λ a. 10 ^ a;
  mul = λ a b. a * b;
  div = λ a b. a;
  mul_coeff = λ a n. a;
  show_float = λ a. [];
  show_double = λ a. [];
}

-- {"a": [true, "x y"], "b": {}}
abbrev tree : Variant ℕ ℕ
tree = map (
    field (codes "a") (list (cons (bool true) (cons (string (codes "x y")) nil)))
      (field (codes "b") (map end) end))

reads_members :
    parse exact (codes " [ {\"k\": 25}, false ] ")
    ≡ ok (list (cons (map (field (codes "k") (float 25) end)) (cons (bool false) nil)))
unfolding parse at remove_whitespace parse_array
reads_members = refl

-- The missing bracket makes `at` throw.
misses_bracket : parse exact (codes "[true ") ≡ out_of_range
unfolding parse at remove_whitespace parse_array
misses_bracket = refl

-- An empty list with white space in it is not read, and the whole text with it.
loses_empty_list : parse exact (generate exact (list nil) false) ≡ ok invalid
unfolding parse generate at remove_whitespace gen_value parse_array
loses_empty_list = refl

parse-generate_example : parse exact (generate exact tree false) ≡ ok tree
unfolding IsPrintable less is_space
parse-generate_example =
    parse-generate exact false tree tt
      (refl, refl, (tt, (tt, ((refl, (refl, refl)), tt))), (refl, tt, tt, tt))

parse-ends_example :
    ((v : Variant ℕ ℕ) × (parse exact (codes "[\"a\", 1") ≡ ok v))
    ⊎ (parse exact (codes "[\"a\", 1") ≡ out_of_range)
parse-ends_example =
    parse-ends exact (codes "[\"a\", 1") (refl, (refl, (refl, (refl, (refl, (refl, tt))))))

-- ["\""]
parse_with_escaped_example : parse_with exact 1000 (codes "[\"\\\"\"]") ≡ no_fuel
unfolding find_first_of at
parse_with_escaped_example = parse_with_escaped exact 1000 (codes "\\\"\"]") 0 refl refl

-- 25 and -25, with a bracket behind them.
parse_number-AllDigits_example :
    (parse_number exact (codes "25]") ≡ ok (float 25, codes "]"))
    × (parse_number exact (codes "-25]") ≡ ok (float 25, codes "]"))
unfolding is_digit place_value remove_whitespace
parse_number-AllDigits_example =
    parse_number-AllDigits exact b'2' (codes "5") b']' [] refl (refl, (refl, tt)) refl refl

access-Typed_example :
    let v : Variant ℕ ℕ = null in
    Typed Bool bool v (is_bool v) (to_bool v) false
    × Typed ℤ int v (is_int v) (to_int v) (pos 0)
    × Typed ℕ float v (is_float v) (to_float 0 v) 0
    × Typed ℕ double v (is_double v) (to_double 0 v) 0
    × Typed Bytes string v (is_string v) (to_string v) []
    × Typed (Items ℕ ℕ) list v (is_list v) (to_list v) nil
    × Typed (Fields ℕ ℕ) map v (is_map v) (to_map v) end
    × (is_value v ≡ true)
unfolding is_valid is_map is_list
access-Typed_example = access-Typed 0 0 null
