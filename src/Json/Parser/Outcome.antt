-- ===== src/Json/Parser/Outcome.antt =====
-- The outcomes of the functions of src/brutils/json_parser.cpp: a value, the exception
-- `std::out_of_range` of `string_view::at`, or a loop that has not ended within its fuel.
use brutils.Base.{◌≡◌, refl, Bool, true, false, if◌then◌else◌}

pub data Result {ℓ} (A : Type ℓ) : Type ℓ where
  ok : A → Result A
  out_of_range : Result A
  no_fuel : Result A

infixl 5 ◌>>=◌
abbrev pub ◌>>=◌ {ℓ κ} : {A : Type ℓ} {B : Type κ} → Result A → (A → Result B) → Result B
ok a >>= f = f a
out_of_range >>= f = out_of_range
no_fuel >>= f = no_fuel

-- The call ends: with a value of which `P` holds, or with the exception.
abbrev pub Post {ℓ} : {A : Type ℓ} → (A → Type 0) → Result A → Type 0
Post P (ok a) = P a
Post P out_of_range = Unit
Post P no_fuel = ⊥

pub bind-Post {ℓ κ} :
    {A : Type ℓ} {B : Type κ} (Q : A → Type 0) (P : B → Type 0) (m : Result A) (f : A → Result B)
    → Post Q m
    → ((a : A) → m ≡ ok a → Q a → Post P (f a))
    → Post P (m >>= f)
bind-Post Q P (ok a) f q k = k a refl q
bind-Post Q P out_of_range f q k = tt
bind-Post Q P no_fuel f q k = q

pub if-Post {ℓ} :
    {A : Type ℓ} (P : A → Type 0) (b : Bool) (x y : Result A)
    → (b ≡ true → Post P x)
    → (b ≡ false → Post P y)
    → Post P (if b then x else y)
if-Post P true x y h k = h refl
if-Post P false x y h k = k refl

pub Post-mono {ℓ} :
    {A : Type ℓ} (P Q : A → Type 0) (m : Result A) → ((a : A) → P a → Q a) → Post P m → Post Q m
Post-mono P Q (ok a) h p = h a p
Post-mono P Q out_of_range h p = tt
Post-mono P Q no_fuel h p = p
