-- ===== src/Json/Parser/Scan.antt =====
-- The steps of src/brutils/json_parser.cpp over single bytes, with the character classes of the C
-- locale.
use brutils.Base.{
  ℕ, zero, suc, Bool, ◌||◌, ◌&&◌, Bytes, [], ◌∷◌, Option, none, some, ◌==◌, leb, if◌then◌else◌,
}
use mathlib.Core.Option
use brutils.Json.Parser.Outcome.{Result, ok, out_of_range, ◌>>=◌}

unfoldable pub is_space : ℕ → Bool
is_space c = c == 32 || (leb 9 c && leb c 13)

unfoldable pub is_digit : ℕ → Bool
is_digit c = leb b'0' c && leb c b'9'

unfoldable pub is_alpha : ℕ → Bool
is_alpha c = (leb b'a' c && leb c b'z') || (leb b'A' c && leb c b'Z')

-- `string_view::at`
unfoldable pub at : Bytes → ℕ → Result ℕ
at [] i = out_of_range
at (c ∷ s) zero = ok c
at (c ∷ s) (suc i) = at s i

unfoldable pub remove_whitespace : Bytes → Bytes
unfolding is_space
remove_whitespace [] = []
remove_whitespace (c ∷ s) = let rest = remove_whitespace s in if is_space c then rest else c ∷ s

-- `string_view::find_first_of(c, from)`; `none` is `npos`.
unfoldable pub find_first_of : ℕ → ℕ → Bytes → Option ℕ
find_first_of c from [] = none
find_first_of c zero (x ∷ s) =
    let later = Option.map suc (find_first_of c zero s) in if x == c then some 0 else later
find_first_of c (suc from) (x ∷ s) = Option.map suc (find_first_of c from s)

-- `for (size = 0; std::isalpha(input.at(size)); ++size)`: the word, and what follows it.
unfoldable pub alpha_run : Bytes → Result (Bytes × Bytes)
unfolding is_alpha
alpha_run [] = out_of_range
alpha_run (c ∷ s) =
    let more = (do (word, rest) ← alpha_run s; ok (c ∷ word, rest)) in
    if is_alpha c then more else ok ([], c ∷ s)
