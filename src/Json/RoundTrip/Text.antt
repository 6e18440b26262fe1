-- ===== src/Json/RoundTrip/Text.antt =====
-- The output of src/brutils/json_generator.cpp without the separator that is erased: each piece stands
-- in front of what follows it.
use brutils.Base.{
  ℕ, suc, ◌+◌, ◌-◌, ◌≡◌, refl, ap, Bool, Bytes, codes, length, ◌∷◌, ◌++◌, arith, append_assoc,
  append-nil, length-append,
}
use brutils.Json.Floats.{Floats}
use brutils.Json.Generator.{
  get_white_space, gen_string, erase_separator, gen_value, gen_items, gen_fields,
}
use brutils.Json.RoundTrip.Scan.{take-append}
use brutils.Json.Variant.{Variant, list, map, Items, nil, cons, Fields, end, field}

erase_separator-append : (b : ℕ) (s : Bytes) → erase_separator (b ∷ (s ++ codes ", ")) ≡ b ∷ s
unfolding erase_separator
erase_separator-append b s =
    let l : length (s ++ codes ", ") ≡ length s + 2 = length-append s (codes ", ") in
    let l' : suc (length s + 2) - 2 ≡ suc (length s) = omega arith in
    rw (l, l') (ground (arith, take-append s (codes ", ")))

module _ (fl : Floats) (c : Bool) (d : ℕ) where
  open fl use {Float, Double}

  abbrev space : Bytes
  space = get_white_space c (d + 1)

  abbrev text : Variant Float Double → Bytes
  text v = gen_value fl v c (d + 1)

  items_body : Variant Float Double → Items Float Double → Bytes
  items_body v nil = space ++ text v
  items_body v (cons w xs) = space ++ (text v ++ (codes ", " ++ items_body w xs))

  fields_body : Bytes → Variant Float Double → Fields Float Double → Bytes
  fields_body k v end = space ++ (gen_string k ++ (codes ": " ++ text v))
  fields_body k v (field j w fs) =
      space ++ (gen_string k ++ (codes ": " ++ (text v ++ (codes ", " ++ fields_body j w fs))))

  gen_items-cons :
      (v : Variant Float Double) (xs : Items Float Double)
      → gen_items fl (cons v xs) c d ≡ space ++ (text v ++ (codes ", " ++ gen_items fl xs c d))
  unfolding gen_value
  gen_items-cons v xs = refl

  gen_fields-field :
      (k : Bytes) (v : Variant Float Double) (fs : Fields Float Double)
      → gen_fields fl (field k v fs) c d
        ≡ space
          ++ (gen_string k ++ (codes ": " ++ (text v ++ (codes ", " ++ gen_fields fl fs c d))))
  unfolding gen_value
  gen_fields-field k v fs = refl

  gen_items-body :
      (v : Variant Float Double) (xs : Items Float Double)
      → gen_items fl (cons v xs) c d ≡ items_body v xs ++ codes ", "
  unfolding items_body
  gen_items-body v nil =
      rw (gen_items-cons v nil) (unfold gen_value in simp (append_assoc, append-nil))
  gen_items-body v (cons w xs) =
      rw (gen_items-cons v (cons w xs), gen_items-body w xs) (simp append_assoc)

  gen_fields-body :
      (k : Bytes) (v : Variant Float Double) (fs : Fields Float Double)
      → gen_fields fl (field k v fs) c d ≡ fields_body k v fs ++ codes ", "
  unfolding fields_body
  gen_fields-body k v end =
      rw (gen_fields-field k v end) (unfold gen_value in simp (append_assoc, append-nil))
  gen_fields-body k v (field j w fs) =
      rw (gen_fields-field k v (field j w fs), gen_fields-body j w fs) (simp append_assoc)

  -- From the first element to the end of the array, with `rest` behind it.
  unfoldable pub elements_text : Variant Float Double → Items Float Double → Bytes → Bytes
  elements_text v nil rest = text v ++ (get_white_space c d ++ b']' ∷ rest)
  elements_text v (cons w xs) rest = text v ++ (b',' ∷ b' ' ∷ (space ++ elements_text w xs rest))

  unfoldable pub members_text : Bytes → Variant Float Double → Fields Float Double → Bytes → Bytes
  members_text k v end rest =
      gen_string k ++ (b':' ∷ b' ' ∷ (text v ++ (get_white_space c d ++ b'}' ∷ rest)))
  members_text k v (field j w fs) rest =
      gen_string k
      ++ (b':' ∷ b' ' ∷ (text v ++ (b',' ∷ b' ' ∷ (space ++ members_text j w fs rest))))

  items_body-elements_text :
      (v : Variant Float Double) (xs : Items Float Double) (rest : Bytes)
      → items_body v xs ++ (get_white_space c d ++ b']' ∷ rest) ≡ space ++ elements_text v xs rest
  unfolding items_body elements_text
  items_body-elements_text v nil rest = simp append_assoc
  items_body-elements_text v (cons w xs) rest =
      simp append_assoc (rw (items_body-elements_text w xs rest))

  fields_body-members_text :
      (k : Bytes) (v : Variant Float Double) (fs : Fields Float Double) (rest : Bytes)
      → fields_body k v fs ++ (get_white_space c d ++ b'}' ∷ rest)
        ≡ space ++ members_text k v fs rest
  unfolding fields_body members_text
  fields_body-members_text k v end rest = simp append_assoc
  fields_body-members_text k v (field j w fs) rest =
      simp append_assoc (rw (fields_body-members_text j w fs rest))

  pub gen_value-list :
      (v : Variant Float Double) (xs : Items Float Double) (rest : Bytes)
      → gen_value fl (list (cons v xs)) c d ++ rest ≡ b'[' ∷ (space ++ elements_text v xs rest)
  gen_value-list v xs rest =
      unfold gen_value in
      rw (gen_items-body v xs) (
        rw (erase_separator-append b'[' (items_body v xs))
          (ap (◌∷◌ b'[') (simp append_assoc (items_body-elements_text v xs rest))))

  pub gen_value-map :
      (k : Bytes) (v : Variant Float Double) (fs : Fields Float Double) (rest : Bytes)
      → gen_value fl (map (field k v fs)) c d ++ rest ≡ b'{' ∷ (space ++ members_text k v fs rest)
  gen_value-map k v fs rest =
      unfold gen_value in
      rw (gen_fields-body k v fs) (
        rw (erase_separator-append b'{' (fields_body k v fs))
          (ap (◌∷◌ b'{') (simp append_assoc (fields_body-members_text k v fs rest))))
