-- ===== src/Json/Variant.antt =====
-- include/brutils/variant.h: a variant is empty, or its `std::any` holds a value of one of the types
-- below. `variant_list` is a vector; `variant_map` is a `std::map`, in the order of its keys.
use brutils.Base.{ℤ, Bool, true, false, Bytes, [], ◌∷◌, ltb, ◌==◌, if◌then◌else◌}

mutual
  pub data Variant (F D : Type 0) : Type 0 where
    invalid : Variant F D
    null : Variant F D
    bool : Bool → Variant F D
    int : ℤ → Variant F D
    float : F → Variant F D
    double : D → Variant F D
    string : Bytes → Variant F D
    list : Items F D → Variant F D
    map : Fields F D → Variant F D

  pub data Items (F D : Type 0) : Type 0 where
    nil : Items F D
    cons : Variant F D → Items F D → Items F D

  pub data Fields (F D : Type 0) : Type 0 where
    end : Fields F D
    field : Bytes → Variant F D → Fields F D → Fields F D

-- `operator<` of two strings, which `std::map` keeps its keys by.
unfoldable pub less : Bytes → Bytes → Bool
less [] [] = false
less [] (y ∷ ys) = true
less (x ∷ xs) [] = false
less (x ∷ xs) (y ∷ ys) = if x == y then less xs ys else ltb x y

module _ {F D : Type 0} where
  unfoldable pub is_valid : Variant F D → Bool
  is_valid invalid = false
  is_valid _ = true

  -- `!_value.has_value()`: an `any` that holds a `nullptr_t` has a value.
  unfoldable pub is_null : Variant F D → Bool
  is_null invalid = true
  is_null _ = false

  -- `array.push_back(element)`
  unfoldable pub push_back : Items F D → Variant F D → Items F D
  push_back nil v = cons v nil
  push_back (cons x xs) v = cons x (push_back xs v)

  -- `object[key] = value`
  unfoldable pub insert : Bytes → Variant F D → Fields F D → Fields F D
  unfolding less
  insert k v end = field k v end
  insert k v (field j w fs) =
      if less k j
      then field k v (field j w fs)
      else if less j k
      then field j w (insert k v fs)
      else field j v fs

  unfoldable pub lookup : Bytes → Fields F D → Variant F D
  unfolding less
  lookup k end = invalid
  lookup k (field j w fs) = if less k j then invalid else if less j k then lookup k fs else w
