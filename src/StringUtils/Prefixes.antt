-- ===== src/StringUtils/Prefixes.antt =====
-- `str_startsWith` and `str_startsWithMatch` of include/brutils/string_utils.h.
use brutils.Base.{
  ◌≤◌, ◌≡◌, refl, ◌↔◌, true, Bytes, some, [], ◌∷◌, length, if◌then◌else◌, arith, Option-cases,
  subst,
}
use brutils.StringUtils.{is_prefix, find_in, str_starts_with, str_starts_with_match}

find_in-is_prefix : (sub base : Bytes) → (find_in sub base ≡ some 0) ↔ (is_prefix sub base ≡ true)
unfolding find_in is_prefix
find_in-is_prefix [] [] = ground arith
find_in-is_prefix (d ∷ ds) [] = ground arith
find_in-is_prefix [] (c ∷ s) = ground (arith, Option-cases (find_in [] s))
find_in-is_prefix (d ∷ ds) (c ∷ s) = ground (arith, Option-cases (find_in (d ∷ ds) s))

is_prefix_long :
    (sub base : Bytes) → is_prefix sub base ≡ true → length base ≤ length sub → base ≡ sub
unfolding is_prefix
is_prefix_long [] [] e l = refl
is_prefix_long [] (c ∷ s) e l = absurd (omega arith)
is_prefix_long (d ∷ ds) [] e l = absurd (ground arith)
is_prefix_long (d ∷ ds) (c ∷ s) e l = ground (arith, is_prefix_long ds s)

is_prefix_self : (s : Bytes) → is_prefix s s ≡ true
unfolding is_prefix
is_prefix_self [] = refl
is_prefix_self (c ∷ s) = ground (arith, is_prefix_self s)

-- A string starts with another, as the code has it, just when the two are equal; and the match then is
-- the whole string, and else 0.
str_starts_with_iff :
    (base sub : Bytes)
    → ((str_starts_with base sub ≡ true) ↔ (base ≡ sub))
      × (str_starts_with_match base sub ≡ (if str_starts_with base sub then length base else 0))
unfolding str_starts_with str_starts_with_match
str_starts_with_iff base sub =
    ((equal_if, holds_if), ground (arith, Option-cases (find_in sub base)))
  where
    equal_if : str_starts_with base sub ≡ true → base ≡ sub
    equal_if e = ground (
      arith,
      Option-cases (find_in sub base),
      find_in-is_prefix sub base,
      is_prefix_long sub base,
    )

    holds_if : base ≡ sub → str_starts_with base sub ≡ true
    holds_if e =
        subst (λ s. str_starts_with base s ≡ true) e
          (ground (arith, find_in-is_prefix base base, is_prefix_self base))
