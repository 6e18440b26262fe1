-- ===== src/Json/Parser/Terminates.antt =====
-- The calls and loops of src/brutils/json_parser.cpp end on every text without an escaped quote.
pub mod Pieces
pub mod Numbers
use brutils.Base.{
  ℕ, zero, suc, ◌+◌, ◌-◌, ◌*◌, ◌≤◌, ◌<◌, ◌≡◌, ◌≢◌, refl, ◌&&◌, ◌||◌, Bool, true, false, Bytes,
  length, drop, Option, none, some, List, [], ◌∷◌, ◌==◌, if◌then◌else◌, arith, ==_iff, ap, subst,
  ◌⊎◌, inl, inr,
}
use brutils.Json.Floats.{Floats}
use brutils.Json.Parser.Outcome.{
  Result, ok, out_of_range, no_fuel, ◌>>=◌, Post, bind-Post, if-Post, Post-mono,
}
use brutils.Json.Parser.Scan.{at, remove_whitespace, is_digit}
use brutils.Json.Parser.Unescaped.{
  Unescaped, Unescaped-tail, Unescaped-drop, Left, Left-remove_whitespace, at-Post, length-drop,
}
use brutils.Json.Parser.{
  parse_string, parse_value, parse_object, parse_members, parse_array, parse_elements, parse_with,
  parse, variant_of,
}
use brutils.Json.Variant.{
  Variant, invalid, is_valid, list, map, Items, nil, Fields, end, push_back, insert,
}
use Pieces.{Read, Shorter, Begins, parse_string-Post, parse_literal-Post}
use Numbers.{parse_number-Post}

module _ (fl : Floats) where
  open fl use {Float, Double}

  Read-mono :
      (m n : ℕ) (r : Result (Variant Float Double × Bytes))
      → m ≤ n
      → Post (Read fl m) r
      → Post (Read fl n) r
  Read-mono m n r le =
      Post-mono (Read fl m) (Read fl n) r (λ p h. ((h.0.0, omega arith), λ v. omega (arith, h.1 v)))

  Read-remove_whitespace :
      (n : ℕ) (p : Variant Float Double × Bytes)
      → Read fl n p
      → Read fl n (p.0, remove_whitespace p.1)
  Read-remove_whitespace n p h =
      let rest = Left-remove_whitespace p.1 (length p.1) (h.0.0, omega arith) in
      ((rest.0, omega arith), λ v. omega (arith, h.1 v))

  Read-variant_of :
      (n : ℕ) (p : Option Bytes × Bytes) → Shorter n p → Read fl n (variant_of fl p.0, p.1)
  unfolding is_valid
  Read-variant_of n (none, r) h = (h, λ v. cc)
  Read-variant_of n (some key, r) h = ((h.0, omega arith), λ v. omega arith)

  abbrev LeftAfter {ℓ} : {A : Type ℓ} → ℕ → A × Bytes → Type 0
  LeftAfter n p = Left n p.1

  Left-comma : (n : ℕ) (d : Bool) (r : Bytes) → Left n r → Left n (if d then drop 1 r else r)
  Left-comma n true r h = (Unescaped-drop 1 r h.0, omega (arith, length-drop 1 r))
  Left-comma n false r h = h

  key-Post {ℓ} :
      {A : Type ℓ} (P : A × Bytes → Type 0) (n : ℕ) (o : Option Bytes) (r : Bytes) (a : A)
      (g : Bytes → Result (A × Bytes))
      → Shorter n (o, r)
      → (Left n r → P (a, r))
      → ((key : Bytes) → Left (n - 1) r → Post P (g key))
      → Post P (elim o [ none ↦ ok (a, r) | some key ↦ g key ])
  key-Post P n none r a g k h h' = h k
  key-Post P n (some key) r a g k h h' = h' key (k.0, omega arith)

  mutual
    unfolding parse_value parse_object parse_members parse_array parse_elements

    value :
        (f n : ℕ) (s : Bytes)
        → Unescaped s
        → length s ≤ n
        → 3 * n + 1 ≤ f
        → Post (Read fl n) (parse_value fl f s)
    value zero n s h short le = absurd (omega arith)
    value (suc f) n s h short le =
        let s' = remove_whitespace s in
        let start = Left-remove_whitespace s n (h, short) in
        bind-Post (Begins s') (Read fl n) (at s' 0) _ (at-Post s') λ c e (t, b).
          let ht : Unescaped t = Unescaped-tail c t (subst Unescaped b start.0) in
          let lt : length t < n = omega (arith, ap length b) in
          bind-Post (Read fl n) (Read fl n) _ _
            (if-Post (Read fl n) (c == b'"') _ _
              (λ _.
                bind-Post (Shorter (length s')) (Read fl n) (parse_string (suc f) s') _
                  (parse_string-Post f s' start.0)
                  λ p _ k.
                    Read-mono (length s') n (ok (variant_of fl p.0, p.1)) start.1
                      (Read-variant_of (length s') p k))
              λ _.
                if-Post (Read fl n) (is_digit c || c == b'-') _ _
                  (λ _. Read-mono (length s') n _ start.1 (parse_number-Post fl s' start.0))
                  λ _.
                    if-Post (Read fl n) (c == b'{') _ _
                      (λ brace.
                        rw (b, (==_iff c _).0 brace)
                          (bind-Post (LeftAfter (n - 1)) (Read fl n) (parse_object fl f (b'{' ∷ t))
                            _ (object f (n - 1) t ht (omega arith) (omega arith))
                            λ p _ k. ((k.0, omega arith), λ v. omega arith)))
                      λ _.
                        if-Post (Read fl n) (c == b'[') _ _
                          (λ bracket.
                            rw (b, (==_iff c _).0 bracket)
                              (bind-Post (LeftAfter (n - 1)) (Read fl n)
                                (parse_array fl f (b'[' ∷ t)) _
                                (array f (n - 1) t ht (omega arith) (omega arith))
                                λ p _ k. ((k.0, omega arith), λ v. omega arith)))
                          λ _. Read-mono (length s') n _ start.1 (parse_literal-Post fl s' start.0))
            λ p _ k. Read-remove_whitespace n p k

    object :
        (f n : ℕ) (t : Bytes)
        → Unescaped t
        → length t ≤ n
        → 3 * n + 3 ≤ f
        → Post (LeftAfter n) (parse_object fl f (b'{' ∷ t))
    object zero n t h short le = absurd (omega arith)
    object (suc f) n t h short le =
        let s' = remove_whitespace t in
        let start = Left-remove_whitespace t n (h, short) in
        bind-Post (Begins s') (LeftAfter n) (at s' 0) _ (at-Post s') λ d e (t', b).
          if-Post (LeftAfter n) (d == b'}') _ _
            (λ _. (Unescaped-drop 1 s' start.0, omega (arith, length-drop 1 s')))
            λ _.
              if-Post (LeftAfter n) (d == b'"') _ _
                (λ _. members f n end s' start.0 start.1 (omega arith)) (λ _. start)

    members :
        (f n : ℕ) (acc : Fields Float Double) (s : Bytes)
        → Unescaped s
        → length s ≤ n
        → 3 * n + 2 ≤ f
        → Post (LeftAfter n) (parse_members fl f acc s)
    members zero n acc s h short le = absurd (omega arith)
    members (suc f) n acc s h short le =
        bind-Post (Begins s) (LeftAfter n) (at s 0) _ (at-Post s) λ c e (t, b).
          let ht : Unescaped t = Unescaped-tail c t (subst Unescaped b h) in
          let lt : length t < n = omega (arith, ap length b) in
          let next = Left-remove_whitespace t (n - 1) (ht, omega arith) in
          if-Post (LeftAfter n) (c == b'}') _ _ (λ _. rw b (next.0, omega arith))
            λ _.
              if-Post (LeftAfter n) (c == b'"') _ _
                (λ _.
                  bind-Post (Shorter (length s)) (LeftAfter n) (parse_string (suc f) s) _
                    (parse_string-Post f s h)
                    λ p _ k.
                      key-Post (LeftAfter n) (length s) p.0 p.1 end _ k (λ l. (l.0, omega arith))
                        λ key l.
                          let r = remove_whitespace p.1 in
                          let l' = Left-remove_whitespace p.1 (n - 1) (l.0, omega arith) in
                          bind-Post (Begins r) (LeftAfter n) (at r 0) _ (at-Post r) λ d _ _.
                            if-Post (LeftAfter n) (d == b':') _ _
                              (λ _.
                                let r' = remove_whitespace (drop 1 r) in
                                let l'' =
                                  Left-remove_whitespace (drop 1 r) (n - 1)
                                    (Unescaped-drop 1 r l'.0, omega (arith, length-drop 1 r)) in
                                bind-Post (Read fl (n - 1)) (LeftAfter n) (parse_value fl f r') _
                                  (value f (n - 1) r' l''.0 l''.1 (omega arith))
                                  λ q _ m.
                                    let l3 = Left-remove_whitespace q.1 (n - 1) m.0 in
                                    Post-mono (LeftAfter (n - 1)) (LeftAfter n) _
                                      (λ x y. (y.0, omega arith))
                                      (members f (n - 1) (insert key q.0 acc)
                                        (remove_whitespace q.1) l3.0 l3.1 (omega arith)))
                              (λ _. (l'.0, omega arith)))
                λ _.
                  if-Post (LeftAfter n) (c == b',') _ _
                    (λ _. rw b (
                      Post-mono (LeftAfter (n - 1)) (LeftAfter n) _ (λ p k. (k.0, omega arith))
                        (members f (n - 1) acc (remove_whitespace t) next.0 next.1 (omega arith))))
                    (λ _. (h, short))

    array :
        (f n : ℕ) (t : Bytes)
        → Unescaped t
        → length t ≤ n
        → 3 * n + 3 ≤ f
        → Post (LeftAfter n) (parse_array fl f (b'[' ∷ t))
    array zero n t h short le = absurd (omega arith)
    array (suc f) n t h short le = elements f n nil t h short (omega arith)

    elements :
        (f n : ℕ) (acc : Items Float Double) (s : Bytes)
        → Unescaped s
        → length s ≤ n
        → 3 * n + 2 ≤ f
        → Post (LeftAfter n) (parse_elements fl f acc s)
    elements zero n acc s h short le = absurd (omega arith)
    elements (suc f) n acc s h short le =
        bind-Post (Begins s) (LeftAfter n) (at s 0) _ (at-Post s) λ c e (t, b).
          if-Post (LeftAfter n) (c == b']') _ _
            (λ _.
              Left-remove_whitespace (drop 1 s) n
                (Unescaped-drop 1 s h, omega (arith, length-drop 1 s)))
            λ _.
              let s' = remove_whitespace s in
              let start = Left-remove_whitespace s n (h, short) in
              bind-Post (Read fl n) (LeftAfter n) (parse_value fl f s') _
                (value f n s' start.0 start.1 (omega arith))
                λ p _ k.
                  if-Post (LeftAfter n) (is_valid p.0) _ _
                    (λ v. bind-Post (Begins p.1) (LeftAfter n) (at p.1 0) _ (at-Post p.1) λ d _ _.
                      let r = (if d == b',' then drop 1 p.1 else p.1) in
                      let l =
                        Left-remove_whitespace r (n - 1)
                          (Left-comma (n - 1) (d == b',') p.1 (k.0.0, omega (arith, k.1 v))) in
                      Post-mono (LeftAfter (n - 1)) (LeftAfter n) _ (λ x y. (y.0, omega arith))
                        (elements f (n - 1) (push_back acc p.0) (remove_whitespace r) l.0 l.1
                          (omega (arith, k.1 v))))
                    (λ _. k.0)

  fuel_enough : (s : Bytes) → Unescaped s → Post (λ v. Unit {0}) (parse fl s)
  unfolding parse
  fuel_enough s h =
      let s' = remove_whitespace s in
      let start = Left-remove_whitespace s (length s) (h, omega arith) in
      let n = length s in
      bind-Post (Begins s') (λ v. Unit {0}) (at s' 0) _ (at-Post s')
        λ c e (t, b).
          let ht : Unescaped t = Unescaped-tail c t (subst Unescaped b start.0) in
          let lt : length t < n = omega (arith, ap length b) in
          if-Post (λ v. Unit {0}) (c == b'{') _ _
            (λ brace.
              rw (b, (==_iff c _).0 brace)
                (bind-Post (LeftAfter (n - 1)) _ (parse_object fl (3 * n + 1) (b'{' ∷ t)) _
                  (object (3 * n + 1) (n - 1) t ht (omega arith) (omega arith)) (λ p _ k. tt)))
            λ _.
              if-Post (λ v. Unit {0}) (c == b'[') _ _
                (λ bracket.
                  rw (b, (==_iff c _).0 bracket)
                    (bind-Post (LeftAfter (n - 1)) _ (parse_array fl (3 * n + 1) (b'[' ∷ t)) _
                      (array (3 * n + 1) (n - 1) t ht (omega arith) (omega arith)) (λ p _ k. tt)))
                (λ _. tt)

  -- On every text in which no quote follows a backslash, `parse` ends: with a variant, or with the
  -- exception of `at`.
  pub parse-ends :
      (s : Bytes)
      → Unescaped s
      → ((v : Variant Float Double) × (parse fl s ≡ ok v)) ⊎ (parse fl s ≡ out_of_range)
  parse-ends s h = go (parse fl s) (fuel_enough s h)
    where
      go :
          (m : Result (Variant Float Double))
          → Post (λ v. Unit {0}) m
          → ((v : Variant Float Double) × (m ≡ ok v)) ⊎ (m ≡ out_of_range)
      go (ok v) h = inl (v, refl)
      go out_of_range h = inr refl
      go no_fuel h = absurd h
