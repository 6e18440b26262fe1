-- ===== src/Json/RoundTrip/Steps.antt =====
-- Single calls and rounds of src/brutils/json_parser.cpp on the text of a printable value.
use brutils.Base.{
  ℕ, suc, ◌≡◌, refl, ap, Bool, true, false, Bytes, drop, ◌∷◌, ◌++◌, ◌==◌, if◌then◌else◌,
}
use brutils.Json.Floats.{Floats}
use brutils.Json.Generator.{gen_string, gen_value}
use brutils.Json.Parser.Outcome.{ok}
use brutils.Json.Parser.Scan.{at, remove_whitespace}
use brutils.Json.Parser.{parse_value, parse_object, parse_members, parse_array, parse_elements}
use brutils.Json.RoundTrip.Printable.{IsPrintable, Stops}
use brutils.Json.RoundTrip.Scan.{IsPlain, remove_whitespace_idem, parse_string-gen_string}
use brutils.Json.Variant.{
  Variant, invalid, bool, string, list, map, Items, Fields, push_back, insert, is_valid,
}

module _ (fl : Floats) (c : Bool) where
  open fl use {Float, Double}

  -- What the value lemma says of one value, with fuel `f`.
  abbrev pub Reads : ℕ → Variant Float Double → Type 0
  Reads f v =
      (d : ℕ) (rest : Bytes)
      → Stops rest
      → parse_value fl f (gen_value fl v c d ++ rest) ≡ ok (v, remove_whitespace rest)

  pub Reads-bool : (f : ℕ) (b : Bool) → Reads (suc f) (bool b)
  unfolding parse_value gen_value
  Reads-bool f true d rest (b, t, e, h) =
      rw (e, h) (ap (λ r. ok (bool true, r)) (remove_whitespace_idem (b ∷ t)))
  Reads-bool f false d rest (b, t, e, h) =
      rw (e, h) (ap (λ r. ok (bool false, r)) (remove_whitespace_idem (b ∷ t)))

  pub Reads-string : (f : ℕ) (s : Bytes) → IsPlain s → Reads (suc f) (string s)
  unfolding parse_value gen_value
  Reads-string f s p d rest h =
      rw (parse_string-gen_string f s rest p)
        (ap (λ r. ok (string s, r)) (remove_whitespace_idem rest))

  pub reads-list :
      (f : ℕ) (xs : Items Float Double) (t : Bytes) (rest : Bytes)
      → parse_array fl f (b'[' ∷ t) ≡ ok (xs, remove_whitespace rest)
      → parse_value fl (suc f) (b'[' ∷ t) ≡ ok (list xs, remove_whitespace rest)
  reads-list f xs t rest e =
      unfold parse_value in rw e (ap (λ r. ok (list xs, r)) (remove_whitespace_idem rest))

  pub reads-map :
      (f : ℕ) (fs : Fields Float Double) (t rest r : Bytes)
      → parse_object fl f (b'{' ∷ t) ≡ ok (fs, r)
      → remove_whitespace r ≡ remove_whitespace rest
      → parse_value fl (suc f) (b'{' ∷ t) ≡ ok (map fs, remove_whitespace rest)
  reads-map f fs t rest r e e' = unfold parse_value in rw e (ap (λ r. ok (map fs, r)) e')

  -- A round of the loop of `parseArray`.
  pub elements_step :
      (f : ℕ) (acc : Items Float Double) (s s' : Bytes) (v : Variant Float Double) (r : Bytes)
      (b b' : ℕ)
      → at s 0 ≡ ok b
      → (b == b']') ≡ false
      → remove_whitespace s ≡ s'
      → parse_value fl f s' ≡ ok (v, r)
      → is_valid v ≡ true
      → at r 0 ≡ ok b'
      → parse_elements fl (suc f) acc s
        ≡ parse_elements fl f
            (push_back acc v)
            (remove_whitespace (if b' == b',' then drop 1 r else r))
  elements_step f acc s s' v r b b' e h w p i a =
      unfold parse_value in rw e (rw (h, w) (rw p (rw i (rw a refl))))

  -- A round of the loop of `parseObject` that reads a member.
  pub members_step :
      (f : ℕ) (acc : Fields Float Double) (k t t' : Bytes) (v : Variant Float Double) (r : Bytes)
      → IsPlain k
      → remove_whitespace t ≡ t'
      → parse_value fl f t' ≡ ok (v, r)
      → parse_members fl (suc f) acc (gen_string k ++ (b':' ∷ t))
        ≡ parse_members fl f (insert k v acc) (remove_whitespace r)
  members_step f acc k t t' v r p w e =
      unfold parse_value gen_string in
      rw (parse_string-gen_string f k (b':' ∷ t) p) (rw w (rw e refl))

  pub IsPrintable-is_valid : (v : Variant Float Double) → IsPrintable c v → is_valid v ≡ true
  unfolding IsPrintable is_valid
  IsPrintable-is_valid invalid h = absurd h
  IsPrintable-is_valid _ h = refl
