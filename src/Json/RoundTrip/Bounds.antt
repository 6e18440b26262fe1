-- ===== src/Json/RoundTrip/Bounds.antt =====
-- The text of a value is long enough for the fuel of `parse`.
use brutils.Base.{
  ℕ, ◌+◌, ◌*◌, ◌≤◌, ap, sym, ◌∙◌, Bool, true, false, Bytes, length, [], ◌∷◌, ◌++◌, arith,
  append-nil, length-append,
}
use brutils.Json.Floats.{Floats}
use brutils.Json.Generator.{get_white_space, gen_string, gen_value}
use brutils.Json.RoundTrip.Printable.{
  IsPrintable, ArePrintable, HasPrintable, need, need_items, need_fields,
}
use brutils.Json.RoundTrip.Text.{elements_text, members_text, gen_value-list, gen_value-map}
use brutils.Json.Variant.{Variant, bool, string, list, map, Items, nil, cons, Fields, end, field}

module _ (fl : Floats) (c : Bool) where
  open fl use {Float, Double}

  need-list :
      (d : ℕ) (v : Variant Float Double) (xs : Items Float Double)
      → need_items (cons v xs) + 1 ≤ 3 * length (elements_text fl c d v xs [])
      → need (list (cons v xs)) ≤ 3 * length (gen_value fl (list (cons v xs)) c d)
  unfolding need
  need-list d v xs h =
      let t = elements_text fl c d v xs [] in
      omega (
        arith,
        ap length (
            sym (append-nil (gen_value fl (list (cons v xs)) c d)) ∙ gen_value-list fl c d v xs []),
        length-append (get_white_space c (d + 1)) t,
      )

  need-map :
      (d : ℕ) (k : Bytes) (v : Variant Float Double) (fs : Fields Float Double)
      → need_fields (field k v fs) + 1 ≤ 3 * length (members_text fl c d k v fs [])
      → need (map (field k v fs)) ≤ 3 * length (gen_value fl (map (field k v fs)) c d)
  unfolding need
  need-map d k v fs h =
      let t = members_text fl c d k v fs [] in
      omega (
        arith,
        ap length (
            sym (append-nil (gen_value fl (map (field k v fs)) c d))
            ∙ gen_value-map fl c d k v fs []),
        length-append (get_white_space c (d + 1)) t,
      )

  elements-last :
      (d : ℕ) (v : Variant Float Double)
      → need v ≤ 3 * length (gen_value fl v c (d + 1))
      → need_items (cons v nil) + 1 ≤ 3 * length (elements_text fl c d v nil [])
  unfolding need elements_text
  elements-last d v h = omega (
    arith,
    length-append (gen_value fl v c (d + 1)) (get_white_space c d ++ b']' ∷ []),
    length-append (get_white_space c d) (b']' ∷ []),
  )

  elements-next :
      (d : ℕ) (v w : Variant Float Double) (xs : Items Float Double)
      → need v ≤ 3 * length (gen_value fl v c (d + 1))
      → need_items (cons w xs) + 1 ≤ 3 * length (elements_text fl c d w xs [])
      → need_items (cons v (cons w xs)) + 1 ≤ 3 * length (elements_text fl c d v (cons w xs) [])
  unfolding need elements_text
  elements-next d v w xs h k =
      let t = elements_text fl c d w xs [] in
      omega (
        arith,
        length-append (gen_value fl v c (d + 1)) (b',' ∷ b' ' ∷ (get_white_space c (d + 1) ++ t)),
        length-append (get_white_space c (d + 1)) t,
      )

  members-last :
      (d : ℕ) (k : Bytes) (v : Variant Float Double)
      → need v ≤ 3 * length (gen_value fl v c (d + 1))
      → need_fields (field k v end) + 1 ≤ 3 * length (members_text fl c d k v end [])
  unfolding need members_text
  members-last d k v h =
      let t = gen_value fl v c (d + 1) ++ (get_white_space c d ++ b'}' ∷ []) in
      omega (
        arith,
        length-append (gen_string k) (b':' ∷ b' ' ∷ t),
        length-append (gen_value fl v c (d + 1)) (get_white_space c d ++ b'}' ∷ []),
        length-append (get_white_space c d) (b'}' ∷ []),
      )

  members-next :
      (d : ℕ) (k j : Bytes) (v w : Variant Float Double) (fs : Fields Float Double)
      → need v ≤ 3 * length (gen_value fl v c (d + 1))
      → need_fields (field j w fs) + 1 ≤ 3 * length (members_text fl c d j w fs [])
      → need_fields (field k v (field j w fs)) + 1
        ≤ 3 * length (members_text fl c d k v (field j w fs) [])
  unfolding need members_text
  members-next d k j v w fs h l =
      let t = members_text fl c d j w fs [] in
      let u = b',' ∷ b' ' ∷ (get_white_space c (d + 1) ++ t) in
      omega (
        arith,
        length-append (gen_string k) (b':' ∷ b' ' ∷ (gen_value fl v c (d + 1) ++ u)),
        length-append (gen_value fl v c (d + 1)) u,
        length-append (get_white_space c (d + 1)) t,
      )

  need-bool :
      (b : Bool) (d : ℕ)
      → need {F = Float} {D = Double} (bool b) ≤ 3 * length (gen_value fl (bool b) c d)
  unfolding need gen_value
  need-bool true d = omega arith
  need-bool false d = omega arith

  need-string :
      (s : Bytes) (d : ℕ)
      → need {F = Float} {D = Double} (string s) ≤ 3 * length (gen_value fl (string s) c d)
  unfolding need gen_value
  need-string s d = omega arith

  need-nil :
      (d : ℕ) → need {F = Float} {D = Double} (list nil) ≤ 3 * length (gen_value fl (list nil) c d)
  unfolding need gen_value
  need-nil d = omega (arith, length-append (get_white_space c d) (b']' ∷ []))

  need-end :
      (d : ℕ) → need {F = Float} {D = Double} (map end) ≤ 3 * length (gen_value fl (map end) c d)
  unfolding need gen_value
  need-end d = omega (arith, length-append (get_white_space c d) (b'}' ∷ []))

  mutual
    unfolding IsPrintable

    pub need-le :
        (v : Variant Float Double) (d : ℕ)
        → IsPrintable c v
        → need v ≤ 3 * length (gen_value fl v c d)
    need-le (bool b) d h = need-bool b d
    need-le (string s) d h = need-string s d
    need-le (list nil) d h = need-nil d
    need-le (list (cons v xs)) d h =
        need-list d v xs (elements-le xs d v h.1.1 (need-le v (d + 1) h.1.0))
    need-le (map end) d h = need-end d
    need-le (map (field k v fs)) d h =
        need-map d k v fs (members-le fs d k v h.3 (need-le v (d + 1) h.2))
    need-le _ d h = absurd h

    elements-le :
        (xs : Items Float Double) (d : ℕ) (v : Variant Float Double)
        → ArePrintable c xs
        → need v ≤ 3 * length (gen_value fl v c (d + 1))
        → need_items (cons v xs) + 1 ≤ 3 * length (elements_text fl c d v xs [])
    elements-le nil d v h l = elements-last d v l
    elements-le (cons w xs) d v h l =
        elements-next d v w xs l (elements-le xs d w h.1 (need-le w (d + 1) h.0))

    members-le :
        (fs : Fields Float Double) (d : ℕ) (k : Bytes) (v : Variant Float Double)
        → HasPrintable c fs
        → need v ≤ 3 * length (gen_value fl v c (d + 1))
        → need_fields (field k v fs) + 1 ≤ 3 * length (members_text fl c d k v fs [])
    members-le end d k v h l = members-last d k v l
    members-le (field j w fs) d k v h l =
        members-next d k j v w fs l (members-le fs d j w h.3 (need-le w (d + 1) h.2))
