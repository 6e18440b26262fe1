-- ===== src/Json/RoundTrip/Scan.antt =====
-- The scanner of src/brutils/json_parser.cpp over the pieces that src/brutils/json_generator.cpp
-- writes: white space, strings and words, with any text behind them.
use brutils.Base.{
  ℕ, zero, suc, ◌+◌, ◌-◌, ◌≡◌, refl, ap, Bool, true, false, ◌||◌, Bytes, length, take, drop, some,
  [], ◌∷◌, ◌++◌, ◌==◌, arith, append_assoc,
}
use brutils.Json.Generator.{gen_tab, get_white_space, gen_string}
use brutils.Json.Parser.Outcome.{ok}
use brutils.Json.Parser.Scan.{at, find_first_of, remove_whitespace, is_space}
use brutils.Json.Parser.{find_quote, parse_string}

gen_tab-remove_whitespace :
    (n : ℕ) (s : Bytes) → remove_whitespace (gen_tab n ++ s) ≡ remove_whitespace s
unfolding gen_tab remove_whitespace
gen_tab-remove_whitespace zero s = refl
gen_tab-remove_whitespace (suc n) s = gen_tab-remove_whitespace n s

pub remove_whitespace-get_white_space :
    (compact : Bool) (depth : ℕ) (s : Bytes)
    → remove_whitespace (get_white_space compact depth ++ s) ≡ remove_whitespace s
unfolding get_white_space remove_whitespace
remove_whitespace-get_white_space true depth s = refl
remove_whitespace-get_white_space false depth s = gen_tab-remove_whitespace depth s

pub remove_whitespace_idem :
    (s : Bytes) → remove_whitespace (remove_whitespace s) ≡ remove_whitespace s
unfolding remove_whitespace
remove_whitespace_idem [] = refl
remove_whitespace_idem (c ∷ s) = ground (arith, remove_whitespace_idem s)

pub remove_whitespace-cons :
    (c : ℕ) (s : Bytes) → is_space c ≡ false → remove_whitespace (c ∷ s) ≡ c ∷ s
unfolding remove_whitespace
remove_whitespace-cons c s h = rw h

-- No quote, and no backslash at the end.
abbrev pub IsPlain : Bytes → Type 0
IsPlain [] = Unit {0}
IsPlain (c ∷ []) = (c == b'"' || c == b'\\') ≡ false
IsPlain (c ∷ d ∷ s) = ((c == b'"') ≡ false) × IsPlain (d ∷ s)

find_first_of-IsPlain :
    (s rest : Bytes) → IsPlain s → find_first_of b'"' 0 (s ++ b'"' ∷ rest) ≡ some (length s)
unfolding find_first_of
find_first_of-IsPlain [] rest h = refl
find_first_of-IsPlain (c ∷ []) rest h = ground arith
find_first_of-IsPlain (c ∷ d ∷ s) rest h =
    rw (find_first_of-IsPlain (d ∷ s) rest h.1) (ground arith)

at-IsPlain :
    (c : ℕ) (s rest : Bytes)
    → IsPlain (c ∷ s)
    → (d : ℕ) × (at (c ∷ (s ++ b'"' ∷ rest)) (length s) ≡ ok d) × ((d == b'\\') ≡ false)
unfolding at
at-IsPlain c [] rest h = (c, refl, ground arith)
at-IsPlain c (d ∷ s) rest h = at-IsPlain d s rest h.1

find_quote-IsPlain :
    (f : ℕ) (s rest : Bytes)
    → IsPlain s
    → find_quote (suc f) 0 (s ++ b'"' ∷ rest) ≡ ok (some (length s))
unfolding find_quote
find_quote-IsPlain f [] rest h = refl
find_quote-IsPlain f (c ∷ s) rest h =
    let (d, here, other) = at-IsPlain c s rest h in
    let before : suc (length s) - 1 ≡ length s = omega arith in
    rw (find_first_of-IsPlain (c ∷ s) rest h, find_quote) (rw (before, here) (ground arith))

pub take-append : (s rest : Bytes) → take (length s) (s ++ rest) ≡ s
take-append [] rest = refl
take-append (c ∷ s) rest = ap (◌∷◌ c) (take-append s rest)

drop-append : (s : Bytes) (c : ℕ) (rest : Bytes) → drop (suc (length s)) (s ++ c ∷ rest) ≡ rest
drop-append [] c rest = refl
drop-append (x ∷ s) c rest = drop-append s c rest

-- A plain string is read back from between its quotes.
pub parse_string-gen_string :
    (f : ℕ) (s rest : Bytes)
    → IsPlain s
    → parse_string (suc f) (gen_string s ++ rest) ≡ ok (some s, remove_whitespace rest)
unfolding parse_string gen_string
parse_string-gen_string f s rest h =
    let next : length s + 1 ≡ suc (length s) = omega arith in
    rw (append_assoc s (b'"' ∷ []) rest, find_quote-IsPlain f s rest h)
      (rw (next, take-append s (b'"' ∷ rest), drop-append s b'"' rest))
