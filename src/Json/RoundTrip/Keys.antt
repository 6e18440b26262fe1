-- ===== src/Json/RoundTrip/Keys.antt =====
-- The order of the keys of a `std::map`, and maps that are filled in that order.
use brutils.Base.{◌≡◌, refl, ap, true, false, Bytes, [], ◌∷◌, arith}
use brutils.Json.Variant.{Variant, Items, nil, cons, Fields, end, field, less, insert, push_back}

pub less_asymm : (a b : Bytes) → less a b ≡ true → less b a ≡ false
unfolding less
less_asymm [] [] h = refl
less_asymm [] (y ∷ b) h = refl
less_asymm (x ∷ a) [] h = cc
less_asymm (x ∷ a) (y ∷ b) h = ground (arith, less_asymm a b)

pub less_trans : (a b c : Bytes) → less a b ≡ true → less b c ≡ true → less a c ≡ true
unfolding less
less_trans [] [] c h k = k
less_trans [] (y ∷ b) [] h k = k
less_trans [] (y ∷ b) (z ∷ c) h k = refl
less_trans (x ∷ a) [] c h k = cc
less_trans (x ∷ a) (y ∷ b) [] h k = cc
less_trans (x ∷ a) (y ∷ b) (z ∷ c) h k = ground (arith, less_trans a b c)

module _ {F D : Type 0} where
  abbrev pub append_items : Items F D → Items F D → Items F D
  append_items nil ys = ys
  append_items (cons x xs) ys = cons x (append_items xs ys)

  abbrev pub append_fields : Fields F D → Fields F D → Fields F D
  append_fields end gs = gs
  append_fields (field k v fs) gs = field k v (append_fields fs gs)

  pub append_items-push_back :
      (xs : Items F D) (v : Variant F D) (ys : Items F D)
      → append_items (push_back xs v) ys ≡ append_items xs (cons v ys)
  unfolding push_back
  append_items-push_back nil v ys = refl
  append_items-push_back (cons x xs) v ys = ap (cons x) (append_items-push_back xs v ys)

  -- All keys of the map come before `k`.
  abbrev pub Before : Fields F D → Bytes → Type 0
  Before end k = Unit {0}
  Before (field j w fs) k = (less j k ≡ true) × Before fs k

  pub Before-trans : (fs : Fields F D) (j k : Bytes) → Before fs j → less j k ≡ true → Before fs k
  Before-trans end j k h e = tt
  Before-trans (field i w fs) j k h e = (less_trans i j k h.0 e, Before-trans fs j k h.1 e)

  pub append_fields-insert :
      (fs : Fields F D) (k : Bytes) (v : Variant F D) (gs : Fields F D)
      → Before fs k
      → append_fields (insert k v fs) gs ≡ append_fields fs (field k v gs)
  unfolding insert
  append_fields-insert end k v gs h = refl
  append_fields-insert (field j w fs) k v gs h =
      rw (less_asymm j k h.0, h.0) (ap (field j w) (append_fields-insert fs k v gs h.1))

  pub Before-insert :
      (fs : Fields F D) (j : Bytes) (v : Variant F D) (k : Bytes)
      → Before fs j
      → less j k ≡ true
      → Before (insert j v fs) k
  unfolding insert
  Before-insert end j v k h e = (e, tt)
  Before-insert (field i w fs) j v k h e =
      rw (less_asymm i j h.0, h.0) (less_trans i j k h.0 e, Before-insert fs j v k h.1 e)
