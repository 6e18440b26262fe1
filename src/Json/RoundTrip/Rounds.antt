-- ===== src/Json/RoundTrip/Rounds.antt =====
-- The rounds of the loops of src/brutils/json_parser.cpp on printable elements and members.
use brutils.Base.{ℕ, suc, ◌+◌, ◌≡◌, refl, sym, ap, ◌∙◌, Bool, true, false, Bytes, ◌∷◌, ◌++◌, ◌==◌}
use brutils.Json.Floats.{Floats}
use brutils.Json.Generator.{get_white_space, gen_string, gen_value}
use brutils.Json.Parser.Outcome.{ok}
use brutils.Json.Parser.Scan.{at, remove_whitespace, is_space, is_alpha}
use brutils.Json.Parser.{parse_value, parse_members, parse_elements}
use brutils.Json.RoundTrip.Keys.{
  append_items, append_fields, append_items-push_back, Before, append_fields-insert, Before-insert,
}
use brutils.Json.RoundTrip.Printable.{
  IsPrintable, Head, Head-append, remove_whitespace-Head, at-space-Head, Stops-get_white_space,
  gen_value-Head,
}
use brutils.Json.RoundTrip.Scan.{IsPlain, remove_whitespace-get_white_space, remove_whitespace-cons}
use brutils.Json.RoundTrip.Steps.{Reads, elements_step, members_step, IsPrintable-is_valid}
use brutils.Json.RoundTrip.Text.{elements_text, members_text}
use brutils.Json.Variant.{Variant, Items, nil, cons, Fields, end, field, less, push_back, insert}

module _ (fl : Floats) (c : Bool) where
  open fl use {Float, Double}

  pub elements_text-Head :
      (d : ℕ) (v : Variant Float Double) (xs : Items Float Double) (rest : Bytes)
      → IsPrintable c v
      → Head (elements_text fl c d v xs rest)
  unfolding elements_text
  elements_text-Head d v nil rest h = Head-append _ _ (gen_value-Head fl c (d + 1) v h)
  elements_text-Head d v (cons w xs) rest h = Head-append _ _ (gen_value-Head fl c (d + 1) v h)

  -- The loop of `parseArray` from a text that begins with the first element, white space aside.
  abbrev pub ReadsElements : ℕ → Variant Float Double → Items Float Double → Type 0
  ReadsElements f v xs =
      (d : ℕ) (acc : Items Float Double) (s rest : Bytes) (b : ℕ)
      → at s 0 ≡ ok b
      → (b == b']') ≡ false
      → remove_whitespace s ≡ elements_text fl c d v xs rest
      → parse_elements fl f acc s ≡ ok (append_items acc (cons v xs), remove_whitespace rest)

  -- The loop of `parseObject` from the first key.
  abbrev pub ReadsMembers : ℕ → Bytes → Variant Float Double → Fields Float Double → Type 0
  ReadsMembers f k v fs =
      (d : ℕ) (acc : Fields Float Double) (rest : Bytes)
      → Before acc k
      → parse_members fl f acc (members_text fl c d k v fs rest)
        ≡ ok (append_fields acc (field k v fs), remove_whitespace rest)

  pub last_element :
      (f : ℕ) (v : Variant Float Double)
      → IsPrintable c v
      → Reads fl c (suc f) v
      → ReadsElements (suc (suc f)) v nil
  unfolding elements_text is_alpha remove_whitespace
  last_element f v p reads d acc s rest b a h w =
      elements_step fl c (suc f) acc s _ v (b']' ∷ rest) b b']' a h w read
        (IsPrintable-is_valid fl c v p) (unfold at in refl)
      ∙ unfold parse_value at in
        (ap (λ xs. ok (xs, remove_whitespace rest))
          (sym (append_items-nil (push_back acc v)) ∙ append_items-push_back acc v nil))
    where
      append_items-nil : (xs : Items Float Double) → append_items xs nil ≡ xs
      append_items-nil nil = refl
      append_items-nil (cons x xs) = ap (cons x) (append_items-nil xs)

      r : Bytes
      r = get_white_space c d ++ b']' ∷ rest

      read : parse_value fl (suc f) (gen_value fl v c (d + 1) ++ r) ≡ ok (v, b']' ∷ rest)
      read =
          reads (d + 1) r (Stops-get_white_space c d b']' rest refl)
          ∙ ap (λ t. ok (v, t)) (remove_whitespace-get_white_space c d (b']' ∷ rest))

  pub next_element :
      (f : ℕ) (v w : Variant Float Double) (xs : Items Float Double)
      → IsPrintable c v
      → IsPrintable c w
      → Reads fl c f v
      → ReadsElements f w xs
      → ReadsElements (suc f) v (cons w xs)
  unfolding elements_text is_alpha remove_whitespace get_white_space
  next_element f v w xs p q reads more d acc s rest b a h e =
      elements_step fl c f acc s _ v (b',' ∷ b' ' ∷ r) b b',' a h e read
        (IsPrintable-is_valid fl c v p) (unfold at in refl)
      ∙ rw skip (
          more d (push_back acc v) t rest start.0 start.1 start.2 (remove_whitespace-Head t head)
          ∙ ap (λ ys. ok (ys, remove_whitespace rest)) (append_items-push_back acc v (cons w xs)))
    where
      t : Bytes
      t = elements_text fl c d w xs rest

      r : Bytes
      r = get_white_space c (d + 1) ++ t

      head : Head t
      head = elements_text-Head d w xs rest q

      skip : remove_whitespace r ≡ t
      skip = remove_whitespace-get_white_space c (d + 1) t ∙ remove_whitespace-Head t head

      start : (b : ℕ) × (at t 0 ≡ ok b) × ((b == b']') ≡ false)
      start = at-space-Head true 0 t head

      read :
          parse_value fl f (gen_value fl v c (d + 1) ++ (b',' ∷ b' ' ∷ r)) ≡ ok (v, b',' ∷ b' ' ∷ r)
      read = reads (d + 1) (b',' ∷ b' ' ∷ r) (b',', b' ' ∷ r, refl, refl)

  pub last_member :
      (f : ℕ) (k : Bytes) (v : Variant Float Double)
      → IsPlain k
      → IsPrintable c v
      → Reads fl c (suc f) v
      → ReadsMembers (suc (suc f)) k v end
  unfolding members_text is_alpha remove_whitespace
  last_member f k v plain p reads d acc rest before =
      members_step fl c (suc f) acc k _ _ v (b'}' ∷ rest) plain (remove_whitespace-Head _ head) read
      ∙ unfold parse_value at in
        (ap (λ fs. ok (fs, remove_whitespace rest))
          (sym (append_fields-end (insert k v acc)) ∙ append_fields-insert acc k v end before))
    where
      append_fields-end : (fs : Fields Float Double) → append_fields fs end ≡ fs
      append_fields-end end = refl
      append_fields-end (field j w fs) = ap (field j w) (append_fields-end fs)

      r : Bytes
      r = get_white_space c d ++ b'}' ∷ rest

      head : Head (gen_value fl v c (d + 1) ++ r)
      head = Head-append _ r (gen_value-Head fl c (d + 1) v p)

      read : parse_value fl (suc f) (gen_value fl v c (d + 1) ++ r) ≡ ok (v, b'}' ∷ rest)
      read =
          reads (d + 1) r (Stops-get_white_space c d b'}' rest refl)
          ∙ ap (λ t. ok (v, t)) (remove_whitespace-get_white_space c d (b'}' ∷ rest))

  pub members_text-skip :
      (d : ℕ) (k : Bytes) (v : Variant Float Double) (fs : Fields Float Double) (rest : Bytes)
      → remove_whitespace (get_white_space c (d + 1) ++ members_text fl c d k v fs rest)
        ≡ members_text fl c d k v fs rest
  unfolding members_text gen_string
  members_text-skip d k v end rest =
      remove_whitespace-get_white_space c (d + 1) _
      ∙ remove_whitespace-cons b'"' _ (unfold is_space in refl)
  members_text-skip d k v (field j w fs) rest =
      remove_whitespace-get_white_space c (d + 1) _
      ∙ remove_whitespace-cons b'"' _ (unfold is_space in refl)

  pub next_member :
      (f : ℕ) (k j : Bytes) (v w : Variant Float Double) (fs : Fields Float Double)
      → IsPlain k
      → less k j ≡ true
      → IsPrintable c v
      → Reads fl c (suc f) v
      → ReadsMembers f j w fs
      → ReadsMembers (suc (suc f)) k v (field j w fs)
  unfolding members_text is_alpha remove_whitespace
  next_member f k j v w fs plain lt p reads more d acc rest before =
      members_step fl c (suc f) acc k _ _ v (b',' ∷ b' ' ∷ r) plain (remove_whitespace-Head _ head)
        read
      ∙ unfold parse_value at in
        (rw (members_text-skip d j w fs rest) (
          more d (insert k v acc) rest (Before-insert acc k v j before lt)
          ∙ ap (λ gs. ok (gs, remove_whitespace rest))
              (append_fields-insert acc k v (field j w fs) before)))
    where
      r : Bytes
      r = get_white_space c (d + 1) ++ members_text fl c d j w fs rest

      head : Head (gen_value fl v c (d + 1) ++ (b',' ∷ b' ' ∷ r))
      head = Head-append _ _ (gen_value-Head fl c (d + 1) v p)

      read :
          parse_value fl (suc f) (gen_value fl v c (d + 1) ++ (b',' ∷ b' ' ∷ r))
          ≡ ok (v, b',' ∷ b' ' ∷ r)
      read = reads (d + 1) (b',' ∷ b' ' ∷ r) (b',', b' ' ∷ r, refl, refl)
