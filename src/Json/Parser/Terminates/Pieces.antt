-- ===== src/Json/Parser/Terminates/Pieces.antt =====
-- The loops and calls of src/brutils/json_parser.cpp end on every text without an escaped quote, and
-- never leave more than they were given.
use brutils.Base.{
  ℕ, zero, suc, ◌+◌, ◌≤◌, ◌<◌, ◌≡◌, refl, true, Bytes, length, equal, drop, Option, none, some, [],
  ◌∷◌, ◌==◌, arith, ap, subst,
}
use brutils.Json.Floats.{Floats}
use brutils.Json.Parser.Outcome.{ok, ◌>>=◌, Post, bind-Post, if-Post}
use brutils.Json.Parser.Scan.{at, find_first_of, remove_whitespace, alpha_run, is_alpha}
use brutils.Json.Parser.Unescaped.{
  Unescaped, Unescaped-tail, Unescaped-drop, Left, Left-remove_whitespace, at-Post,
  find_quote-Unescaped, length-drop,
}
use brutils.Json.Parser.{find_quote, cut, parse_string, parse_literal, literal}
use brutils.Json.Variant.{Variant, is_valid}

-- A value is read; a valid one takes at least a byte.
abbrev pub Read : (fl : Floats) → ℕ → Variant fl.Float fl.Double × Bytes → Type 0
Read fl n (v, r) = Left n r × (is_valid v ≡ true → length r < n)

find_first_of-lt : (c from : ℕ) (s : Bytes) (i : ℕ) → find_first_of c from s ≡ some i → i < length s
unfolding find_first_of
find_first_of-lt c from [] i e = absurd (ground arith)
find_first_of-lt c zero (x ∷ s) zero e = omega arith
find_first_of-lt c zero (x ∷ s) (suc i) e =
    let rest : i < length s = find_first_of-lt c zero s i (ground arith) in omega arith
find_first_of-lt c (suc from) (x ∷ s) zero e = omega arith
find_first_of-lt c (suc from) (x ∷ s) (suc i) e =
    let rest : i < length s = find_first_of-lt c from s i (ground arith) in omega arith

-- A string, or nothing, is read; a string takes its quote at least.
abbrev pub Shorter : ℕ → Option Bytes × Bytes → Type 0
Shorter n (none, r) = Left n r
Shorter n (some _, r) = Unescaped r × (length r < n)

cut-Shorter :
    (o : Option ℕ) (s : Bytes) (n : ℕ)
    → Unescaped s
    → find_first_of b'"' 0 s ≡ o
    → length s < n
    → Shorter n (cut o s)
unfolding cut
cut-Shorter none s n h e lt = (h, omega arith)
cut-Shorter (some size) s n h e lt =
    let (h', short) =
      Left-remove_whitespace (drop (size + 1) s) (length s)
        (Unescaped-drop (size + 1) s h, omega (arith, length-drop (size + 1) s)) in
    (h', omega arith)

abbrev pub Begins : Bytes → ℕ → Type 0
Begins s c = (t : Bytes) × (s ≡ c ∷ t)

quoted-Post :
    (f : ℕ) (t : Bytes) (n : ℕ)
    → Unescaped t
    → length t < n
    → Post (Shorter n) (find_quote (suc f) 0 t >>= λ size. ok (cut size t))
quoted-Post f t n h lt =
    rw (find_quote-Unescaped f t h) (cut-Shorter (find_first_of b'"' 0 t) t n h refl lt)

pub parse_string-Post :
    (f : ℕ) (s : Bytes) → Unescaped s → Post (Shorter (length s)) (parse_string (suc f) s)
unfolding parse_string
parse_string-Post f s h =
    let s' = remove_whitespace s in
    let (h', short) = Left-remove_whitespace s (length s) (h, omega arith) in
    bind-Post (Begins s') (Shorter (length s)) (at s' 0) _ (at-Post s') λ c e (t, b).
      let lt : length t < length s = omega (arith, ap length b) in
      let ht : Unescaped t = Unescaped-tail c t (subst Unescaped b h') in
      if-Post (Shorter (length s)) (c == b'"') _ _ (λ _. rw b (quoted-Post f t (length s) ht lt))
        (λ _. (h', short))

-- A word takes its letters.
alpha_run-Post :
    (s : Bytes)
    → Unescaped s
    → Post (λ p. Unescaped p.1 × (length p.0 + length p.1 ≤ length s)) (alpha_run s)
unfolding alpha_run
alpha_run-Post [] h = tt
alpha_run-Post (c ∷ s) h = ground (arith, alpha_run-Post s (Unescaped-tail c s h))

literal-valid : (fl : Floats) (w : Bytes) → is_valid (literal fl w) ≡ true → 0 < length w
unfolding literal is_valid equal
literal-valid fl [] v = cc
literal-valid fl (x ∷ w) v = omega arith

-- A valid literal takes its word.
pub parse_literal-Post :
    (fl : Floats) (s : Bytes) → Unescaped s → Post (Read fl (length s)) (parse_literal fl s)
unfolding parse_literal
parse_literal-Post fl s h =
    let s' = remove_whitespace s in
    let start = Left-remove_whitespace s (length s) (h, omega arith) in
    bind-Post (Begins s') (Read fl (length s)) (at s' 0) _ (at-Post s') λ c e b.
      if-Post (Read fl (length s)) (is_alpha c) _ _
        (λ _.
          bind-Post (λ p. Unescaped p.1 × (length p.0 + length p.1 ≤ length s')) _ (alpha_run s') _
            (alpha_run-Post s' start.0)
            λ p _ l.
              let rest = Left-remove_whitespace p.1 (length p.1) (l.0, omega arith) in
              ((rest.0, omega arith), λ v. omega (arith, literal-valid fl p.0 v)))
        (λ _. (start, λ v. unfold is_valid in cc))
