-- ===== src/Json/RoundTrip/Values.antt =====
-- The functions of src/brutils/json_parser.cpp on the text of a printable value, with any text behind it.
use brutils.Base.{
  ℕ, zero, suc, ◌+◌, ◌≤◌, ◌≡◌, refl, ◌∙◌, Bool, true, Bytes, [], ◌∷◌, ◌++◌, arith, append_assoc,
}
use brutils.Json.Floats.{Floats}
use brutils.Json.Generator.{get_white_space, gen_string, gen_value}
use brutils.Json.Parser.Outcome.{ok}
use brutils.Json.Parser.Scan.{at, remove_whitespace}
use brutils.Json.Parser.{parse_value, parse_object, parse_array}
use brutils.Json.RoundTrip.Printable.{
  IsPrintable, ArePrintable, HasPrintable, need, need_items, need_fields, need-pos, need_items-pos,
  at-space-Head, remove_whitespace-Head,
}
use brutils.Json.RoundTrip.Rounds.{
  elements_text-Head, members_text-skip, ReadsElements, ReadsMembers, last_element, next_element,
  last_member, next_member,
}
use brutils.Json.RoundTrip.Scan.{remove_whitespace-get_white_space, remove_whitespace_idem}
use brutils.Json.RoundTrip.Steps.{Reads, Reads-bool, Reads-string, reads-list, reads-map}
use brutils.Json.RoundTrip.Text.{elements_text, members_text, gen_value-list, gen_value-map}
use brutils.Json.Variant.{Variant, bool, string, list, map, Items, nil, cons, Fields, end, field}

module _ (fl : Floats) (c : Bool) where
  open fl use {Float, Double}

  -- `parseArray` and `parseObject` from the bracket of a printable list or map.
  abbrev pub ReadsArray : ℕ → Items Float Double → Type 0
  ReadsArray f xs =
      (d : ℕ) (rest : Bytes)
      → parse_array fl f (gen_value fl (list xs) c d ++ rest) ≡ ok (xs, remove_whitespace rest)

  array-nil : (f : ℕ) → c ≡ true → ReadsArray (suc (suc f)) nil
  unfolding parse_value gen_value
  array-nil f compact d rest = rw compact refl

  array-cons :
      (f : ℕ) (v : Variant Float Double) (xs : Items Float Double)
      → IsPrintable c v
      → ReadsElements fl c f v xs
      → ReadsArray (suc f) (cons v xs)
  array-cons f v xs p reads d rest = rw (gen_value-list fl c d v xs rest) (
      let t = elements_text fl c d v xs rest in
      let head = elements_text-Head fl c d v xs rest p in
      let (b, a, h) = at-space-Head c (d + 1) t head in
      unfold parse_value in
      reads d nil (get_white_space c (d + 1) ++ t) rest b a h
        (remove_whitespace-get_white_space c (d + 1) t ∙ remove_whitespace-Head t head))

  abbrev pub ReadsObject : ℕ → Fields Float Double → Type 0
  ReadsObject f fs =
      (d : ℕ) (rest : Bytes)
      → (r : Bytes) × (parse_object fl f (gen_value fl (map fs) c d ++ rest) ≡ ok (fs, r))
        × (remove_whitespace r ≡ remove_whitespace rest)

  object-end : (f : ℕ) → ReadsObject (suc f) end
  unfolding gen_value parse_value remove_whitespace at
  object-end f d rest = (
    rest,
    rw (append_assoc (get_white_space c d) (b'}' ∷ []) rest)
        (rw (remove_whitespace-get_white_space c d (b'}' ∷ rest)) refl),
    refl,
  )

  members_text-quote :
      (d : ℕ) (k : Bytes) (v : Variant Float Double) (fs : Fields Float Double) (rest : Bytes)
      → (t : Bytes) × (members_text fl c d k v fs rest ≡ b'"' ∷ t)
  unfolding members_text gen_string
  members_text-quote d k v end rest = (_, refl)
  members_text-quote d k v (field j w fs) rest = (_, refl)

  object-field :
      (f : ℕ) (k : Bytes) (v : Variant Float Double) (fs : Fields Float Double)
      → ReadsMembers fl c f k v fs
      → ReadsObject (suc f) (field k v fs)
  object-field f k v fs reads d rest = (
    remove_whitespace rest,
    rw (gen_value-map fl c d k v fs rest) (
        let (t, e) = members_text-quote d k v fs rest in
        unfold parse_value at in
        rw (members_text-skip fl c d k v fs rest) (rw e (rw e at (reads d end rest tt)))),
    remove_whitespace_idem rest,
  )

  pub list-bracket :
      (d : ℕ) (xs : Items Float Double) (rest : Bytes)
      → (t : Bytes) × (gen_value fl (list xs) c d ++ rest ≡ b'[' ∷ t)
  unfolding gen_value
  list-bracket d nil rest = (_, refl)
  list-bracket d (cons v xs) rest = (_, gen_value-list fl c d v xs rest)

  pub map-brace :
      (d : ℕ) (fs : Fields Float Double) (rest : Bytes)
      → (t : Bytes) × (gen_value fl (map fs) c d ++ rest ≡ b'{' ∷ t)
  unfolding gen_value
  map-brace d end rest = (_, refl)
  map-brace d (field k v fs) rest = (_, gen_value-map fl c d k v fs rest)

  value-list : (f : ℕ) (xs : Items Float Double) → ReadsArray f xs → Reads fl c (suc f) (list xs)
  value-list f xs reads d rest h =
      let (t, e) = list-bracket d xs rest in
      rw e (reads-list fl c f xs t rest (rw e at (reads d rest)))

  value-map : (f : ℕ) (fs : Fields Float Double) → ReadsObject f fs → Reads fl c (suc f) (map fs)
  value-map f fs reads d rest h =
      let (t, e) = map-brace d fs rest in
      let (r, read, same) = reads d rest in rw e (reads-map fl c f fs t rest r (rw e at read) same)

  mutual
    unfolding IsPrintable need

    value : (f : ℕ) (v : Variant Float Double) → IsPrintable c v → need v ≤ f → Reads fl c f v
    value zero v h le = absurd (omega (arith, need-pos v))
    value (suc f) (bool b) h le = Reads-bool fl c f b
    value (suc f) (string s) h le = Reads-string fl c f s h
    value (suc f) (list xs) h le = value-list f xs (array f xs h (omega arith))
    value (suc f) (map fs) h le = value-map f fs (object f fs h (omega arith))
    value (suc f) _ h le = absurd h

    pub array :
        (f : ℕ) (xs : Items Float Double)
        → IsPrintable c (list xs)
        → 1 + need_items xs ≤ f
        → ReadsArray f xs
    array zero xs h le = absurd (omega arith)
    array (suc zero) nil h le = absurd (omega arith)
    array (suc (suc f)) nil h le = array-nil f h.0
    array (suc f) (cons v xs) h le = array-cons f v xs h.1.0 (elements f v xs h.1 (omega arith))

    elements :
        (f : ℕ) (v : Variant Float Double) (xs : Items Float Double)
        → ArePrintable c (cons v xs)
        → need_items (cons v xs) ≤ f
        → ReadsElements fl c f v xs
    elements zero v xs h le = absurd (omega arith)
    elements (suc zero) v xs h le = absurd (omega (arith, need-pos v, need_items-pos xs))
    elements (suc (suc f)) v nil h le =
        last_element fl c f v h.0 (value (suc f) v h.0 (omega arith))
    elements (suc f) v (cons w xs) h le =
        next_element fl c f v w xs h.0 h.1.0 (value f v h.0 (omega (arith, need_items-pos xs)))
          (elements f w xs h.1 (omega (arith, need-pos v)))

    pub object :
        (f : ℕ) (fs : Fields Float Double)
        → HasPrintable c fs
        → 1 + need_fields fs ≤ f
        → ReadsObject f fs
    object zero fs h le = absurd (omega arith)
    object (suc f) end h le = object-end f
    object (suc f) (field k v fs) h le = object-field f k v fs (members f k v fs h (omega arith))

    members :
        (f : ℕ) (k : Bytes) (v : Variant Float Double) (fs : Fields Float Double)
        → HasPrintable c (field k v fs)
        → need_fields (field k v fs) ≤ f
        → ReadsMembers fl c f k v fs
    members zero k v fs h le = absurd (omega arith)
    members (suc zero) k v fs h le = absurd (omega arith)
    members (suc (suc f)) k v end h le =
        last_member fl c f k v h.0 h.2 (value (suc f) v h.2 (omega arith))
    members (suc (suc f)) k v (field j w fs) h le =
        next_member fl c f k j v w fs h.0 h.1 h.2 (value (suc f) v h.2 (omega arith))
          (members f j w fs h.3 (omega (arith, need-pos v)))
