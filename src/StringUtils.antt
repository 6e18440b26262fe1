-- ===== src/StringUtils.antt =====
-- include/brutils/string_utils.h: splitting, prefixes and searching. `toLower` and `toUpper` write
-- through an iterator of an empty string; `toLower` is in HttpServer.Request, which uses it.
pub mod Splits
pub mod Prefixes
mod Tests
use brutils.Base.{
  ℕ, zero, suc, ◌+◌, ◌-◌, Bool, true, false, ◌&&◌, Bytes, Option, none, some, List, [], ◌∷◌, length,
  take, drop, ltb, leb, ◌==◌, if◌then◌else◌,
}

unfoldable pub is_prefix : Bytes → Bytes → Bool
is_prefix [] s = true
is_prefix (d ∷ ds) [] = false
is_prefix (d ∷ ds) (c ∷ s) = d == c && is_prefix ds s

-- `find` from the beginning; `none` is `npos`.
unfoldable pub find_in : Bytes → Bytes → Option ℕ
unfolding is_prefix
find_in [] [] = some 0
find_in (d ∷ ds) [] = none
find_in d (c ∷ s) =
    let next = find_in d s in
    if is_prefix d (c ∷ s) then some 0 else elim next [ none ↦ none | some k ↦ some (suc k) ]

-- `find` from a place on.
unfoldable pub find : Bytes → Bytes → ℕ → Option ℕ
unfolding find_in
find s d i = elim (find_in d (drop i s)) [ none ↦ none | some k ↦ some (i + k) ]

abbrev pub substr : Bytes → ℕ → ℕ → Bytes
substr s i n = take n (drop i s)

abbrev pub push : Bytes → Option (List Bytes) → Option (List Bytes)
push token rest = elim rest [ none ↦ none | some ts ↦ some (token ∷ ts) ]

-- The loop of `split_string` with a string; `none`: the fuel runs out.
unfoldable pub split_from : ℕ → Bytes → Bytes → ℕ → Option (List Bytes)
unfolding find
split_from zero s delim i = if ltb i (length s) then none else some []
split_from (suc f) s delim i = elim (find s delim i) [
  | none ↦ if ltb i (length s) then some (substr s i (length s - 1) ∷ []) else some []
  | some index ↦
      let rest = split_from f s delim (index + length delim) in
      if ltb i (length s) then push (substr s i (index - i)) rest else some []
]

-- Each round passes the delimiter.
unfoldable pub split_by_string : Bytes → Bytes → Option (List Bytes)
unfolding split_from
split_by_string s delim = split_from (length s) s delim 0

-- `std::getline`: what stands before the delimiter, and what behind it.
unfoldable pub get_line : ℕ → Bytes → Bytes × Bytes
get_line delim [] = ([], [])
get_line delim (c ∷ s) =
    let (token, rest) = get_line delim s in if c == delim then ([], s) else (c ∷ token, rest)

-- The loop of `split_string` with a character, which ends when `getline` gets nothing.
unfoldable pub split_lines : ℕ → ℕ → Bytes → Option (List Bytes)
unfolding get_line
split_lines f delim [] = some []
split_lines zero delim (c ∷ s) = none
split_lines (suc f) delim (c ∷ s) =
    let (token, rest) = get_line delim (c ∷ s) in push token (split_lines f delim rest)

unfoldable pub split_by_char : Bytes → ℕ → Option (List Bytes)
unfolding split_lines
split_by_char s delim = split_lines (length s) delim s

unfoldable pub str_starts_with : Bytes → Bytes → Bool
unfolding find_in
str_starts_with base sub =
    if leb (length base) (length sub)
    then (elim (find_in sub base) [ none ↦ false | some k ↦ k == 0 ])
    else false

unfoldable pub str_starts_with_match : Bytes → Bytes → ℕ
unfolding find_in
str_starts_with_match base sub =
    if leb (length base) (length sub)
    then (elim (find_in sub base) [ none ↦ 0 | some k ↦ if k == 0 then length base else 0 ])
    else 0

unfoldable pub str_contains : Bytes → Bytes → Bool
unfolding find_in
str_contains base sub = elim (find_in sub base) [ none ↦ false | some k ↦ true ]

-- `none`: `std::transform` writes through an iterator of an empty string.
unfoldable pub to_upper : Bytes → Option Bytes
to_upper [] = some []
to_upper (c ∷ s) = none
