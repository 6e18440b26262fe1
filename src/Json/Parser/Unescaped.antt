-- ===== src/Json/Parser/Unescaped.antt =====
-- Texts with no backslash right before a quote, which are those where the search for the closing quote
-- in src/brutils/json_parser.cpp ends.
use brutils.Base.{
  ◌-◌, ℕ, zero, suc, ◌≤◌, ◌≡◌, refl, ◌&&◌, false, Bytes, length, drop, Option, none, some, [], ◌∷◌,
  ◌==◌, arith,
}
use brutils.Json.Parser.Outcome.{ok, no_fuel, Post}
use brutils.Json.Parser.Scan.{at, find_first_of, remove_whitespace}
use brutils.Json.Parser.{find_quote}

abbrev pub Unescaped : Bytes → Type 0
Unescaped [] = Unit {0}
Unescaped (x ∷ []) = Unit {0}
Unescaped (x ∷ y ∷ s) = ((x == b'\\' && y == b'"') ≡ false) × Unescaped (y ∷ s)

pub Unescaped-tail : (x : ℕ) (s : Bytes) → Unescaped (x ∷ s) → Unescaped s
Unescaped-tail x [] h = tt
Unescaped-tail x (y ∷ s) h = h.1

pub Unescaped-drop : (n : ℕ) (s : Bytes) → Unescaped s → Unescaped (drop n s)
Unescaped-drop zero s h = h
Unescaped-drop (suc n) [] h = h
Unescaped-drop (suc n) (x ∷ s) h = Unescaped-drop n s (Unescaped-tail x s h)

pub length-drop : (n : ℕ) (s : Bytes) → length (drop n s) ≡ length s - n
length-drop zero s = omega arith
length-drop (suc n) [] = omega arith
length-drop (suc n) (x ∷ s) = omega (arith, length-drop n s)

-- What is left of a text of length `n`.
abbrev pub Left : ℕ → Bytes → Type 0
Left n r = Unescaped r × (length r ≤ n)

pub Left-remove_whitespace : (s : Bytes) (n : ℕ) → Left n s → Left n (remove_whitespace s)
unfolding remove_whitespace
Left-remove_whitespace [] n h = h
Left-remove_whitespace (c ∷ s) n h =
    let rest = Left-remove_whitespace s n (Unescaped-tail c s h.0, omega arith) in
    ground (arith, rest)

pub at-Post : (s : Bytes) → Post (λ c. (t : Bytes) × (s ≡ c ∷ t)) (at s 0)
unfolding at
at-Post [] = tt
at-Post (c ∷ s) = (s, refl)

-- The byte before the first quote.
at-find_first_of :
    (s : Bytes) (i : ℕ)
    → Unescaped s
    → find_first_of b'"' 0 s ≡ some (suc i)
    → (c : ℕ) × (at s i ≡ ok c) × ((c == b'\\') ≡ false)
unfolding at find_first_of
at-find_first_of [] i h e = absurd (ground arith)
at-find_first_of (x ∷ []) i h e = absurd (ground arith)
at-find_first_of (x ∷ y ∷ s) zero h e = (x, refl, ground arith)
at-find_first_of (x ∷ y ∷ s) (suc i) h e = at-find_first_of (y ∷ s) i h.1 (ground arith)

-- Without an escaped quote the first round ends the search, at the first quote.
pub find_quote-Unescaped :
    (f : ℕ) (s : Bytes) → Unescaped s → find_quote (suc f) 0 s ≡ ok (find_first_of b'"' 0 s)
unfolding find_quote
find_quote-Unescaped f s h = go (find_first_of b'"' 0 s) refl
  where
    go :
        (o : Option ℕ)
        → find_first_of b'"' 0 s ≡ o
        → find_quote (suc f) 0 s ≡ ok (find_first_of b'"' 0 s)
    go none e = ground arith
    go (some zero) e = ground arith
    go (some (suc i)) e =
        let (c, here, other) = at-find_first_of s i h e in
        let before : suc i - 1 ≡ i = omega arith in
        rw (e, find_quote) (rw (before, here) (ground arith))

find_first_of_again :
    (c from : ℕ) (s : Bytes) (i : ℕ)
    → find_first_of c from s ≡ some i
    → find_first_of c i s ≡ some i
unfolding find_first_of
find_first_of_again c from [] i e = absurd (ground arith)
find_first_of_again c zero (x ∷ s) zero e = ground arith
find_first_of_again c zero (x ∷ s) (suc i) e =
    let rest : find_first_of c i s ≡ some i = find_first_of_again c zero s i (ground arith) in
    rw rest
find_first_of_again c (suc from) (x ∷ s) zero e = absurd (ground arith)
find_first_of_again c (suc from) (x ∷ s) (suc i) e =
    let rest : find_first_of c i s ≡ some i = find_first_of_again c from s i (ground arith) in
    rw rest

-- With a backslash right before the quote that it finds, the search never ends: no fuel is enough.
pub find_quote_escaped :
    (f from : ℕ) (s : Bytes) (i : ℕ)
    → find_first_of b'"' from s ≡ some (suc i)
    → at s i ≡ ok b'\\'
    → find_quote f from s ≡ no_fuel
unfolding find_quote
find_quote_escaped zero from s i e h = refl
find_quote_escaped (suc f) from s i e h =
    let before : suc i - 1 ≡ i = omega arith in
    rw (e, find_quote)
      (rw (before, h)
        (ground
          (arith, find_quote_escaped f (suc i) s i (find_first_of_again b'"' from s (suc i) e) h)))
