-- ===== src/Json/RoundTrip/Printable.antt =====
-- The variants whose text src/brutils/json_parser.cpp can read back, and the fuel that it takes.
use brutils.Base.{
  ℕ, ◌+◌, ◌≤◌, ◌≡◌, refl, Bool, true, false, Bytes, [], ◌∷◌, ◌++◌, ◌==◌, arith, sym, append-nil,
  ◌∙◌,
}
use brutils.Json.Floats.{Floats}
use brutils.Json.Generator.{get_white_space, gen_value}
use brutils.Json.Parser.Outcome.{ok}
use brutils.Json.Parser.Scan.{at, remove_whitespace, is_space, is_alpha}
use brutils.Json.RoundTrip.Scan.{IsPlain, remove_whitespace-cons}
use brutils.Json.RoundTrip.Text.{gen_value-list, gen_value-map}
use brutils.Json.Variant.{
  Variant, invalid, null, bool, int, float, double, string, list, map, Items, nil, cons, Fields,
  end, field, less,
}

module _ {F D : Type 0} where
  -- An empty list only in the compact layout.
  abbrev AllowsEmpty : Bool → Items F D → Type 0
  AllowsEmpty compact nil = compact ≡ true
  AllowsEmpty compact (cons v xs) = Unit {0}

  -- `std::map` keeps its keys in order.
  abbrev pub Next : Bytes → Fields F D → Type 0
  Next k end = Unit {0}
  Next k (field j v fs) = less k j ≡ true

  -- Booleans, plain strings, and lists and maps of such.
  unfoldable mutual
    pub IsPrintable : Bool → Variant F D → Type 0
    IsPrintable compact (bool b) = Unit {0}
    IsPrintable compact (string s) = IsPlain s
    IsPrintable compact (list xs) = AllowsEmpty compact xs × ArePrintable compact xs
    IsPrintable compact (map fs) = HasPrintable compact fs
    IsPrintable compact invalid = ⊥
    IsPrintable compact null = ⊥
    IsPrintable compact (int n) = ⊥
    IsPrintable compact (float x) = ⊥
    IsPrintable compact (double x) = ⊥

    pub ArePrintable : Bool → Items F D → Type 0
    ArePrintable compact nil = Unit {0}
    ArePrintable compact (cons v xs) = IsPrintable compact v × ArePrintable compact xs

    pub HasPrintable : Bool → Fields F D → Type 0
    HasPrintable compact end = Unit {0}
    HasPrintable compact (field k v fs) =
        IsPlain k × Next k fs × IsPrintable compact v × HasPrintable compact fs

  -- The depth of the parser's calls and rounds, counted one after the other.
  unfoldable mutual
    pub need : Variant F D → ℕ
    need (list xs) = 2 + need_items xs
    need (map fs) = 2 + need_fields fs
    need invalid = 1
    need null = 1
    need (bool b) = 1
    need (int n) = 1
    need (float x) = 1
    need (double x) = 1
    need (string s) = 1

    pub need_items : Items F D → ℕ
    need_items nil = 1
    need_items (cons v xs) = 1 + (need v + need_items xs)

    pub need_fields : Fields F D → ℕ
    need_fields end = 1
    need_fields (field k v fs) = 2 + (need v + need_fields fs)

  pub need-pos : (v : Variant F D) → 1 ≤ need v
  unfolding need
  need-pos invalid = omega arith
  need-pos _ = omega arith

  pub need_items-pos : (xs : Items F D) → 1 ≤ need_items xs
  unfolding need
  need_items-pos nil = omega arith
  need_items-pos _ = omega arith

  pub need_fields-pos : (fs : Fields F D) → 1 ≤ need_fields fs
  unfolding need
  need_fields-pos end = omega arith
  need_fields-pos _ = omega arith

-- The text begins with a byte that is no white space and ends no list or map.
abbrev pub Head : Bytes → Type 0
Head s =
    (b : ℕ) × (t : Bytes) × (s ≡ b ∷ t)
    × (is_space b ≡ false)
    × ((b == b']') ≡ false)
    × ((b == b'}') ≡ false)

pub Head-append : (s r : Bytes) → Head s → Head (s ++ r)
Head-append s r (b, t, e, h, k, l) = (b, t ++ r, rw e, h, k, l)

pub remove_whitespace-Head : (s : Bytes) → Head s → remove_whitespace s ≡ s
remove_whitespace-Head s (b, t, e, h, k, l) = rw e (remove_whitespace-cons b t h)

-- White space and such a text: the first byte does not end the list.
pub at-space-Head :
    (c : Bool) (d : ℕ) (s : Bytes)
    → Head s
    → (b : ℕ) × (at (get_white_space c d ++ s) 0 ≡ ok b) × ((b == b']') ≡ false)
unfolding at get_white_space
at-space-Head true d s (b, t, e, h, k, l) = (b, rw e, k)
at-space-Head false d s h = (13, refl, refl)

-- The text goes on with a byte that is no letter.
abbrev pub Stops : Bytes → Type 0
Stops s = (b : ℕ) × (t : Bytes) × (s ≡ b ∷ t) × (is_alpha b ≡ false)

pub Stops-get_white_space :
    (c : Bool) (d b : ℕ) (s : Bytes) → is_alpha b ≡ false → Stops (get_white_space c d ++ b ∷ s)
unfolding get_white_space is_alpha
Stops-get_white_space true d b s h = (b, s, refl, h)
Stops-get_white_space false d b s h = (13, _, refl, refl)

module _ (fl : Floats) where
  open fl use {Float, Double}

  pub gen_value-Head :
      (c : Bool) (d : ℕ) (v : Variant Float Double) → IsPrintable c v → Head (gen_value fl v c d)
  unfolding IsPrintable is_space gen_value
  gen_value-Head c d (bool true) h = (b't', _, refl, refl, refl, refl)
  gen_value-Head c d (bool false) h = (b'f', _, refl, refl, refl, refl)
  gen_value-Head c d (string s) h = (b'"', _, refl, refl, refl, refl)
  gen_value-Head c d (list nil) h = (b'[', _, refl, refl, refl, refl)
  gen_value-Head c d (list (cons v xs)) h =
      (b'[', _, sym (append-nil _) ∙ gen_value-list fl c d v xs [], refl, refl, refl)
  gen_value-Head c d (map end) h = (b'{', _, refl, refl, refl, refl)
  gen_value-Head c d (map (field k v fs)) h =
      (b'{', _, sym (append-nil _) ∙ gen_value-map fl c d k v fs [], refl, refl, refl)
  gen_value-Head c d invalid h = absurd h
  gen_value-Head c d null h = absurd h
  gen_value-Head c d (int n) h = absurd h
  gen_value-Head c d (float x) h = absurd h
  gen_value-Head c d (double x) h = absurd h
