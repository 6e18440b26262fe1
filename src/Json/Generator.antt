-- ===== src/Json/Generator.antt =====
-- src/brutils/json_generator.cpp.
use brutils.Base.{
  ℤ, pos, negsuc, ℕ, zero, suc, ◌+◌, ◌-◌, ◌/◌, ◌%◌, ◌≡◌, refl, ap, ◌∙◌, Bool-cases, inl, inr, arith,
  Bool, true, false, Bytes, codes, length, take, [], ◌∷◌, ◌++◌, ltb, if◌then◌else◌, not,
}
use brutils.Json.Floats.{Floats}
use brutils.Json.Variant.{
  Variant, invalid, null, bool, int, float, double, string, list, map, Items, nil, cons, Fields,
  end, field, is_valid, is_null,
}

unfoldable pub gen_tab : ℕ → Bytes
gen_tab zero = []
gen_tab (suc n) = codes "    " ++ gen_tab n

abbrev gen_line_feed : Bytes
gen_line_feed = codes "\r\n"

unfoldable pub get_white_space : Bool → ℕ → Bytes
unfolding gen_tab
get_white_space compact depth = if compact then [] else gen_line_feed ++ gen_tab depth

-- `output.erase(output.size() - 2)`, if the output is more than its bracket.
unfoldable pub erase_separator : Bytes → Bytes
erase_separator output = if ltb 1 (length output) then take (length output - 2) output else output

-- `ss << n`: the decimal digits. `n + 1` rounds are enough.
decimal : ℕ → ℕ → Bytes
decimal zero n = []
decimal (suc f) n =
    let higher = decimal f (n / 10) in
    if ltb n 10 then (b'0' + n) ∷ [] else higher ++ (b'0' + n % 10) ∷ []

unfoldable pub show_int : ℤ → Bytes
unfolding decimal
show_int (pos n) = decimal (n + 1) n
show_int (negsuc n) = b'-' ∷ decimal (n + 2) (n + 1)

decimal-ends : (f n : ℕ) → (s : Bytes) × (c : ℕ) × (decimal (suc f) n ≡ s ++ c ∷ [])
unfolding decimal
decimal-ends f n = elim (Bool-cases (ltb n 10)) [
  | inl e ↦ ([], b'0' + n, rw (decimal, e) refl)
  | inr e ↦ (decimal f (n / 10), b'0' + n % 10, rw (decimal, e) refl)
]

-- The text of a number ends with a byte, so it is not empty.
pub show_int-ends : (n : ℕ) → (s : Bytes) × (c : ℕ) × (show_int (pos n) ≡ s ++ c ∷ [])
unfolding show_int
show_int-ends n = let (s, c, e) = decimal-ends n n in (s, c, ap (λ f. decimal f n) add_one ∙ e)
  where
    add_one : n + 1 ≡ suc n
    add_one = omega arith

abbrev quote : ℕ
quote = b'"'

unfoldable pub gen_string : Bytes → Bytes
gen_string s = quote ∷ (s ++ quote ∷ [])

module _ (fl : Floats) where
  open fl use {Float, Double, show_float, show_double}

  unfoldable pub gen_number : Variant Float Double → Bytes
  unfolding show_int
  gen_number (int n) = show_int n
  gen_number (float x) = show_float x
  gen_number (double x) = show_double x
  gen_number _ = []

  bool_literal : Variant Float Double → Bytes
  bool_literal (bool true) = codes "true"
  bool_literal (bool false) = codes "false"
  bool_literal _ = []

  unfoldable pub gen_literal : Variant Float Double → Bytes
  unfolding is_valid is_null bool_literal
  gen_literal v =
      if not (is_valid v) then [] else if is_null v then codes "null" else bool_literal v

  -- `is_null` holds only of the empty variant, so `null` is none of the cases that `genValue` tests.
  unfoldable mutual
    unfolding gen_literal gen_number gen_string get_white_space erase_separator

    pub gen_value : Variant Float Double → Bool → ℕ → Bytes
    gen_value (bool b) compact depth = gen_literal (bool b)
    gen_value (int n) compact depth = gen_number (int n)
    gen_value (float x) compact depth = gen_number (float x)
    gen_value (double x) compact depth = gen_number (double x)
    gen_value (string s) compact depth = gen_string s
    gen_value (map fs) compact depth =
        erase_separator (b'{' ∷ gen_fields fs compact depth)
        ++ (get_white_space compact depth ++ b'}' ∷ [])
    gen_value (list xs) compact depth =
        erase_separator (b'[' ∷ gen_items xs compact depth)
        ++ (get_white_space compact depth ++ b']' ∷ [])
    gen_value invalid compact depth = []
    gen_value null compact depth = []

    -- The loop of `genObject`.
    pub gen_fields : Fields Float Double → Bool → ℕ → Bytes
    gen_fields end compact depth = []
    gen_fields (field k v fs) compact depth =
        get_white_space compact (depth + 1)
        ++ (gen_string k
            ++ (codes ": "
                ++ (gen_value v compact (depth + 1)
                    ++ (codes ", " ++ gen_fields fs compact depth))))

    -- The loop of `genArray`.
    pub gen_items : Items Float Double → Bool → ℕ → Bytes
    gen_items nil compact depth = []
    gen_items (cons v xs) compact depth =
        get_white_space compact (depth + 1)
        ++ (gen_value v compact (depth + 1) ++ (codes ", " ++ gen_items xs compact depth))

  unfoldable pub generate : Variant Float Double → Bool → Bytes
  generate json compact = gen_value json compact 0
