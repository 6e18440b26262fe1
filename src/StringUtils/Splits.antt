-- ===== src/StringUtils/Splits.antt =====
-- The two `split_string` of include/brutils/string_utils.h against each other.
use brutils.Base.{
  ℕ, zero, suc, ◌+◌, ◌-◌, ◌≤◌, ◌<◌, ◌≡◌, refl, sym, ap, ◌∙◌, true, false, Bytes, none, some, List,
  [], ◌∷◌, length, take, drop, drop-nil, ltb, arith, Bool-cases, Option-cases, inl, inr,
}
use brutils.StringUtils.{
  is_prefix, find_in, find, push, split_from, split_by_string, get_line, split_lines, split_by_char,
  str_contains,
}

get_line-none : (d : ℕ) (s : Bytes) → find_in (d ∷ []) s ≡ none → get_line d s ≡ (s, [])
unfolding find_in is_prefix get_line
get_line-none d [] e = refl
get_line-none d (c ∷ s) e = ground (arith, get_line-none d s)

get_line-some :
    (d : ℕ) (s : Bytes) (k : ℕ)
    → find_in (d ∷ []) s ≡ some k
    → (get_line d s ≡ (take k s, drop (suc k) s)) × (k < length s)
unfolding find_in is_prefix get_line
get_line-some d [] k e = absurd (ground arith)
get_line-some d (c ∷ s) zero e = ground (arith, Option-cases (find_in (d ∷ []) s))
get_line-some d (c ∷ s) (suc k) e =
    ground (arith, Option-cases (find_in (d ∷ []) s), get_line-some d s k)

drop-drop : (i k : ℕ) (s : Bytes) → drop k (drop i s) ≡ drop (i + k) s
drop-drop zero k s = ap (λ (n : ℕ). drop n s) (omega arith)
drop-drop (suc i) k [] = drop-nil k ∙ sym (drop-nil (suc i + k))
drop-drop (suc i) k (c ∷ s) =
    let count : suc i + k ≡ suc (i + k) = omega arith in
    drop-drop i k s ∙ ap (λ (n : ℕ). drop n (c ∷ s)) (sym count)

drop-none : (i : ℕ) (s : Bytes) → ltb i (length s) ≡ false → drop i s ≡ []
drop-none zero [] e = refl
drop-none (suc i) [] e = refl
drop-none zero (c ∷ s) e = absurd (ground arith)
drop-none (suc i) (c ∷ s) e = drop-none i s (ground arith)

length-drop : (i : ℕ) (s : Bytes) → length (drop i s) ≡ length s - i
length-drop zero s = omega arith
length-drop (suc i) [] = omega arith
length-drop (suc i) (c ∷ s) = omega (arith, length-drop i s)

take-all : (n : ℕ) (s : Bytes) → length s ≤ n → take n s ≡ s
take-all zero [] l = refl
take-all zero (c ∷ s) l = absurd (omega arith)
take-all (suc n) [] l = refl
take-all (suc n) (c ∷ s) l = ap (λ r. c ∷ r) (take-all n s (omega arith))

split_lines-nil : (f d : ℕ) → split_lines f d [] ≡ some []
unfolding split_lines
split_lines-nil zero d = refl
split_lines-nil (suc f) d = refl

split_lines-none :
    (f d : ℕ) (u : Bytes)
    → find_in (d ∷ []) u ≡ none
    → 0 < length u
    → split_lines (suc f) d u ≡ some (u ∷ [])
unfolding split_lines
split_lines-none f d [] e l = absurd (omega arith)
split_lines-none f d (c ∷ s) e l =
    ap (λ p. push p.0 (split_lines f d p.1)) (get_line-none d (c ∷ s) e)
    ∙ ap (push (c ∷ s)) (split_lines-nil f d)

split_lines-some :
    (f d k : ℕ) (u : Bytes)
    → find_in (d ∷ []) u ≡ some k
    → split_lines (suc f) d u ≡ push (take k u) (split_lines f d (drop (suc k) u))
unfolding split_lines find_in
split_lines-some f d k [] e = absurd (ground arith)
split_lines-some f d k (c ∷ s) e =
    ap (λ p. push p.0 (split_lines f d p.1)) (get_line-some d (c ∷ s) k e).0

get_line-length : (d : ℕ) (s : Bytes) → length (get_line d s).1 ≤ length s - 1
unfolding get_line
get_line-length d [] = omega arith
get_line-length d (c ∷ s) = ground (arith, get_line-length d s)

-- With a round for each byte, the loop over `getline` ends.
split_lines-total :
    (f d : ℕ) (s : Bytes) → length s ≤ f → (ts : List Bytes) × (split_lines f d s ≡ some ts)
unfolding split_lines
split_lines-total f d [] l = ([], split_lines-nil f d)
split_lines-total zero d (c ∷ s) l = absurd (omega arith)
split_lines-total (suc f) d (c ∷ s) l =
    let p = get_line d (c ∷ s) in
    let (ts, e) = split_lines-total f d p.1 (omega (arith, get_line-length d (c ∷ s))) in
    (p.0 ∷ ts, ap (push p.0) e)

-- A string cut at its delimiters, of one byte.
module _ (d : ℕ) (s : Bytes) where
  split_from-over : (f i : ℕ) → ltb i (length s) ≡ false → split_from f s (d ∷ []) i ≡ some []
  unfolding split_from
  split_from-over zero i over = ground arith
  split_from-over (suc f) i over = ground (arith, Option-cases (find s (d ∷ []) i))

  split_from-none :
      (f i : ℕ)
      → ltb i (length s) ≡ true
      → find_in (d ∷ []) (drop i s) ≡ none
      → split_from (suc f) s (d ∷ []) i ≡ some (take (length s - 1) (drop i s) ∷ [])
  unfolding split_from find
  split_from-none f i inside e = rw (e, inside, split_from, find) refl

  split_from-some :
      (f i k : ℕ)
      → ltb i (length s) ≡ true
      → find_in (d ∷ []) (drop i s) ≡ some k
      → split_from (suc f) s (d ∷ []) i
        ≡ push (take k (drop i s)) (split_from f s (d ∷ []) (i + suc k))
  unfolding split_from find
  split_from-some f i k inside e =
      let token : (i + k) - i ≡ k = omega arith in
      let next : (i + k) + 1 ≡ i + suc k = omega arith in
      rw (e, inside, split_from, find)
        (ap (λ (n : ℕ). push (take n (drop i s)) (split_from f s (d ∷ []) ((i + k) + 1))) token
          ∙ ap (λ (n : ℕ). push (take k (drop i s)) (split_from f s (d ∷ []) n)) next)

  over_end : (f i : ℕ) → ltb i (length s) ≡ false → some [] ≡ split_lines f d (drop i s)
  over_end f i over = sym (split_lines-nil f d) ∙ ap (split_lines f d) (sym (drop-none i s over))

  some_left : (i : ℕ) → ltb i (length s) ≡ true → split_lines zero d (drop i s) ≡ none
  unfolding split_lines
  some_left i inside = by_rest (drop i s) (ground (arith, length-drop i s))
    where
      by_rest : (u : Bytes) → 0 < length u → split_lines zero d u ≡ none
      by_rest [] l = absurd (omega arith)
      by_rest (c ∷ u) l = refl

  -- Behind the first token the two loops go on alike.
  split_from-split_lines :
      (f i : ℕ) → 1 ≤ i → split_from f s (d ∷ []) i ≡ split_lines f d (drop i s)
  unfolding split_from split_lines
  split_from-split_lines zero i l = elim (Bool-cases (ltb i (length s))) [
    | inr over ↦ rw over (over_end zero i over)
    | inl inside ↦ rw inside (sym (some_left i inside))
  ]
  split_from-split_lines (suc f) i l = elim (Bool-cases (ltb i (length s))) [
    | inr over ↦ split_from-over (suc f) i over ∙ over_end (suc f) i over
    | inl inside ↦ elim (Option-cases (find_in (d ∷ []) (drop i s))) [
      | inl last ↦
          split_from-none f i inside last
          ∙ ap (λ t. some (t ∷ []))
              (take-all (length s - 1) (drop i s) (omega (arith, length-drop i s)))
          ∙ sym (split_lines-none f d (drop i s) last (ground (arith, length-drop i s)))
      | inr (k, cut) ↦
          split_from-some f i k inside cut
          ∙ ap (push (take k (drop i s))) (
              split_from-split_lines f (i + suc k) (omega arith)
              ∙ ap (split_lines f d) (sym (drop-drop i (suc k) s)))
          ∙ sym (split_lines-some f d k (drop i s) cut)
    ]
  ]

-- The two splits agree on a text that contains the delimiter: they give the same list, and their loops
-- end. On a text without it that is not empty they do not: by the character the whole text is the only
-- token, by the string the text without its last byte is.
pub split_by_string-split_by_char :
    (d : ℕ) (s : Bytes)
    → (str_contains s (d ∷ []) ≡ true
        → (ts : List Bytes) × (split_by_string s (d ∷ []) ≡ some ts)
          × (split_by_char s d ≡ some ts))
      × (str_contains s (d ∷ []) ≡ false
          → 0 < length s
          → (split_by_string s (d ∷ []) ≡ some (take (length s - 1) s ∷ []))
            × (split_by_char s d ≡ some (s ∷ [])))
unfolding split_by_string split_by_char str_contains
split_by_string-split_by_char d [] =
    ((λ e. absurd (ground (arith, find_in))), (λ e l. absurd (omega arith)))
split_by_string-split_by_char d (c ∷ s) =
    let whole : drop 0 (c ∷ s) ≡ c ∷ s = refl in
    elim (Option-cases (find_in (d ∷ []) (c ∷ s))) [
      | inl last ↦ (
        (λ e. absurd (ground arith)),
        (λ e l. (
          split_from-none d (c ∷ s) (length s) 0 (ground arith) last,
          split_lines-none (length s) d (c ∷ s) last l,
        )),
      )
      | inr (k, cut) ↦ (
        (λ e.
            let (ts, ends) = split_lines-total (suc (length s)) d (c ∷ s) (omega arith) in
            let next : split_from (length s) (c ∷ s) (d ∷ []) (suc k)
                ≡ split_lines (length s) d (drop k s) =
              split_from-split_lines d (c ∷ s) (length s) (suc k) (omega arith) in
            let start : 0 + suc k ≡ suc k = omega arith in
            (
              ts,
              split_from-some d (c ∷ s) (length s) 0 k (ground arith) cut
                  ∙ ap (λ (n : ℕ). push (take k (c ∷ s)) (split_from (length s) (c ∷ s) (d ∷ []) n))
                      start
                  ∙ ap (push (take k (c ∷ s))) next
                  ∙ sym (split_lines-some (length s) d k (c ∷ s) cut)
                  ∙ ends,
              ends,
            )),
        (λ e l. absurd (ground arith)),
      )
    ]
