-- ===== src/Json/Access.antt =====
-- The tests and accessors of include/brutils/variant.h.
use brutils.Base.{
  ℤ, pos, ◌≡◌, refl, Bool, true, false, not, ◌&&◌, ◌||◌, Bytes, Option, none, some, [],
  if◌then◌else◌, arith,
}
use brutils.Json.Variant.{
  Variant, invalid, bool, int, float, double, string, list, map, Items, nil, Fields, end, is_valid,
  is_null,
}

module _ {F D : Type 0} where
  unfoldable pub is_bool : Variant F D → Bool
  is_bool (bool b) = true
  is_bool _ = false

  unfoldable pub is_int : Variant F D → Bool
  is_int (int n) = true
  is_int _ = false

  unfoldable pub is_float : Variant F D → Bool
  is_float (float x) = true
  is_float _ = false

  unfoldable pub is_double : Variant F D → Bool
  is_double (double x) = true
  is_double _ = false

  unfoldable pub is_string : Variant F D → Bool
  is_string (string s) = true
  is_string _ = false

  unfoldable pub is_map : Variant F D → Bool
  is_map (map fs) = true
  is_map _ = false

  unfoldable pub is_list : Variant F D → Bool
  is_list (list xs) = true
  is_list _ = false

  unfoldable pub is_value : Variant F D → Bool
  unfolding is_null is_map is_list
  is_value v = if is_null v then false else not (is_map v) && not (is_list v)

  -- `value<T>`: the value if it is of the type, and `T()` if it is of another; without a value it reads
  -- through a null pointer, which is `none`. `float()` and `double()` are given.
  unfoldable pub to_bool : Variant F D → Option Bool
  to_bool invalid = none
  to_bool (bool b) = some b
  to_bool _ = some false

  unfoldable pub to_int : Variant F D → Option ℤ
  to_int invalid = none
  to_int (int n) = some n
  to_int _ = some (pos 0)

  unfoldable pub to_float : F → Variant F D → Option F
  to_float zero_f invalid = none
  to_float zero_f (float x) = some x
  to_float zero_f _ = some zero_f

  unfoldable pub to_double : D → Variant F D → Option D
  to_double zero_d invalid = none
  to_double zero_d (double x) = some x
  to_double zero_d _ = some zero_d

  unfoldable pub to_string : Variant F D → Option Bytes
  to_string invalid = none
  to_string (string s) = some s
  to_string _ = some []

  unfoldable pub to_list : Variant F D → Option (Items F D)
  to_list invalid = none
  to_list (list xs) = some xs
  to_list _ = some nil

  unfoldable pub to_map : Variant F D → Option (Fields F D)
  to_map invalid = none
  to_map (map fs) = some fs
  to_map _ = some end

  -- A test and an accessor for the values that `make` stores: the test holds of these alone, the accessor
  -- gives them back, and of a variant with another value it gives the default.
  abbrev pub Typed : (A : Type 0) → (A → Variant F D) → Variant F D → Bool → Option A → A → Type 0
  Typed A make v test result default =
      (test ≡ true → (a : A) × (v ≡ make a) × (result ≡ some a))
      × ((a : A) → v ≡ make a → test ≡ true)
      × (test ≡ false → result ≡ (if is_valid v then some default else none))

  bool-Typed : (v : Variant F D) → Typed Bool bool v (is_bool v) (to_bool v) false
  unfolding is_bool to_bool is_valid
  bool-Typed (bool b) = ((λ e. (b, refl, refl)), (λ a e. refl), (λ e. absurd (ground arith)))
  bool-Typed invalid = ((λ e. absurd (ground arith)), (λ a e. absurd (ground arith)), λ e. refl)
  bool-Typed _ = ((λ e. absurd (ground arith)), (λ a e. absurd (ground arith)), λ e. refl)

  int-Typed : (v : Variant F D) → Typed ℤ int v (is_int v) (to_int v) (pos 0)
  unfolding is_int to_int is_valid
  int-Typed (int n) = ((λ e. (n, refl, refl)), (λ a e. refl), (λ e. absurd (ground arith)))
  int-Typed invalid = ((λ e. absurd (ground arith)), (λ a e. absurd (ground arith)), λ e. refl)
  int-Typed _ = ((λ e. absurd (ground arith)), (λ a e. absurd (ground arith)), λ e. refl)

  float-Typed :
      (zero_f : F) (v : Variant F D) → Typed F float v (is_float v) (to_float zero_f v) zero_f
  unfolding is_float to_float is_valid
  float-Typed zero_f (float x) =
      ((λ e. (x, refl, refl)), (λ a e. refl), (λ e. absurd (ground arith)))
  float-Typed zero_f invalid =
      ((λ e. absurd (ground arith)), (λ a e. absurd (ground arith)), λ e. refl)
  float-Typed zero_f _ = ((λ e. absurd (ground arith)), (λ a e. absurd (ground arith)), λ e. refl)

  double-Typed :
      (zero_d : D) (v : Variant F D) → Typed D double v (is_double v) (to_double zero_d v) zero_d
  unfolding is_double to_double is_valid
  double-Typed zero_d (double x) =
      ((λ e. (x, refl, refl)), (λ a e. refl), (λ e. absurd (ground arith)))
  double-Typed zero_d invalid =
      ((λ e. absurd (ground arith)), (λ a e. absurd (ground arith)), λ e. refl)
  double-Typed zero_d _ = ((λ e. absurd (ground arith)), (λ a e. absurd (ground arith)), λ e. refl)

  string-Typed : (v : Variant F D) → Typed Bytes string v (is_string v) (to_string v) []
  unfolding is_string to_string is_valid
  string-Typed (string s) = ((λ e. (s, refl, refl)), (λ a e. refl), (λ e. absurd (ground arith)))
  string-Typed invalid = ((λ e. absurd (ground arith)), (λ a e. absurd (ground arith)), λ e. refl)
  string-Typed _ = ((λ e. absurd (ground arith)), (λ a e. absurd (ground arith)), λ e. refl)

  list-Typed : (v : Variant F D) → Typed (Items F D) list v (is_list v) (to_list v) nil
  unfolding is_list to_list is_valid
  list-Typed (list xs) = ((λ e. (xs, refl, refl)), (λ a e. refl), (λ e. absurd (ground arith)))
  list-Typed invalid = ((λ e. absurd (ground arith)), (λ a e. absurd (ground arith)), λ e. refl)
  list-Typed _ = ((λ e. absurd (ground arith)), (λ a e. absurd (ground arith)), λ e. refl)

  map-Typed : (v : Variant F D) → Typed (Fields F D) map v (is_map v) (to_map v) end
  unfolding is_map to_map is_valid
  map-Typed (map fs) = ((λ e. (fs, refl, refl)), (λ a e. refl), (λ e. absurd (ground arith)))
  map-Typed invalid = ((λ e. absurd (ground arith)), (λ a e. absurd (ground arith)), λ e. refl)
  map-Typed _ = ((λ e. absurd (ground arith)), (λ a e. absurd (ground arith)), λ e. refl)

  -- Of every variant and for each of the seven types: the test holds just when the variant was made from a
  -- value of the type, and the accessor then gives that value; when the test fails the accessor gives the
  -- type's default, or reads through a null pointer if the variant is invalid. A variant is a value
  -- just when it is valid and neither a map nor a list, so one that was made from a null pointer is a value.
  pub access-Typed :
      (zero_f : F) (zero_d : D) (v : Variant F D)
      → Typed Bool bool v (is_bool v) (to_bool v) false
        × Typed ℤ int v (is_int v) (to_int v) (pos 0)
        × Typed F float v (is_float v) (to_float zero_f v) zero_f
        × Typed D double v (is_double v) (to_double zero_d v) zero_d
        × Typed Bytes string v (is_string v) (to_string v) []
        × Typed (Items F D) list v (is_list v) (to_list v) nil
        × Typed (Fields F D) map v (is_map v) (to_map v) end
        × (is_value v ≡ (is_valid v && not (is_map v || is_list v)))
  unfolding is_value is_null is_valid is_map is_list
  access-Typed zero_f zero_d v = (
    bool-Typed v,
    int-Typed v,
    float-Typed zero_f v,
    double-Typed zero_d v,
    string-Typed v,
    list-Typed v,
    map-Typed v,
    ground arith,
  )
