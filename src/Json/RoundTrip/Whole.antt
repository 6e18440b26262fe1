-- ===== src/Json/RoundTrip/Whole.antt =====
-- `json_parser::parse` after `json_generator::generate`.
use brutils.Base.{
  ℕ, ◌+◌, ◌*◌, ◌≡◌, refl, sym, ◌∙◌, Bool, Bytes, length, [], ◌∷◌, arith, append-nil, subst,
}
use brutils.Json.Floats.{Floats}
use brutils.Json.Generator.{gen_value, generate}
use brutils.Json.Parser.Outcome.{ok}
use brutils.Json.Parser.Scan.{at, remove_whitespace}
use brutils.Json.Parser.{parse_array, parse_object, parse_with, parse}
use brutils.Json.RoundTrip.Bounds.{need-le}
use brutils.Json.RoundTrip.Printable.{IsPrintable, need}
use brutils.Json.RoundTrip.Values.{array, object, list-bracket, map-brace}
use brutils.Json.Variant.{Variant, list, map, Items, Fields}

-- A JSON text is a list or a map.
abbrev pub IsContainer : {F D : Type 0} → Variant F D → Type 0
IsContainer (list xs) = Unit {0}
IsContainer (map fs) = Unit {0}
IsContainer _ = ⊥

module _ (fl : Floats) (c : Bool) where
  open fl use {Float, Double}

  parse_with-list :
      (f : ℕ) (xs : Items Float Double) (t : Bytes)
      → parse_array fl f (b'[' ∷ t) ≡ ok (xs, [])
      → parse_with fl f (b'[' ∷ t) ≡ ok (list xs)
  parse_with-list f xs t e = unfold parse_with at remove_whitespace in rw e refl

  parse_with-map :
      (f : ℕ) (fs : Fields Float Double) (t r : Bytes)
      → parse_object fl f (b'{' ∷ t) ≡ ok (fs, r)
      → remove_whitespace r ≡ []
      → parse_with fl f (b'{' ∷ t) ≡ ok (map fs)
  parse_with-map f fs t r e h = unfold parse_with at remove_whitespace in rw e (rw h refl)

  parse-generate_list :
      (xs : Items Float Double)
      → IsPrintable c (list xs)
      → parse fl (generate fl (list xs) c) ≡ ok (list xs)
  unfolding generate need parse remove_whitespace
  parse-generate_list xs h =
      let s = gen_value fl (list xs) c 0 in
      let f = 3 * length s + 1 in
      let (t, e) = list-bracket fl c 0 xs [] in
      let e' : s ≡ b'[' ∷ t = sym (append-nil s) ∙ e in
      let read = array fl c f xs h (omega (arith, need-le fl c (list xs) 0 h)) 0 [] in
      subst (λ u. parse_with fl f u ≡ ok (list xs)) (sym e') (parse_with-list f xs t (rw e at read))

  parse-generate_map :
      (fs : Fields Float Double)
      → IsPrintable c (map fs)
      → parse fl (generate fl (map fs) c) ≡ ok (map fs)
  unfolding generate need parse remove_whitespace IsPrintable
  parse-generate_map fs h =
      let s = gen_value fl (map fs) c 0 in
      let f = 3 * length s + 1 in
      let (t, e) = map-brace fl c 0 fs [] in
      let e' : s ≡ b'{' ∷ t = sym (append-nil s) ∙ e in
      let (r, read, same) = object fl c f fs h (omega (arith, need-le fl c (map fs) 0 h)) 0 [] in
      subst (λ u. parse_with fl f u ≡ ok (map fs)) (sym e')
        (parse_with-map f fs t r (rw e at read) same)

  -- In both layouts, a printable list or map is read back from its text as it was: neither a value nor
  -- a key changes, and the order and the nesting stay. Printable are Booleans, strings without quotes
  -- that do not end with a backslash, and lists and maps of printable values, with such strings as
  -- keys, in the order of `std::map`; the layout that is not compact admits no empty list.
  pub parse-generate :
      (v : Variant Float Double)
      → IsContainer v
      → IsPrintable c v
      → parse fl (generate fl v c) ≡ ok v
  parse-generate (list xs) k h = parse-generate_list xs h
  parse-generate (map fs) k h = parse-generate_map fs h
  parse-generate _ k h = absurd k
