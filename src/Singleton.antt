-- ===== src/Singleton.antt =====
-- include/brutils/singleton_crtp.h: the instance, which the first call of `getInstance` makes.
use mathlib.Core.List.{map}
use brutils.Base.{ℕ, suc, ◌≡◌, refl, ap, Option, none, some, List, [], ◌∷◌}

-- The static object, once it is there, and how many have been made.
pub record Singleton {ℓ} (A : Type ℓ) : Type ℓ where
  pub object : Option A
  pub made : ℕ

module _ {ℓ} {A : Type ℓ} where
  abbrev pub no_instance : Singleton A
  no_instance = record { object = none; made = 0 }

  -- `make` is what the constructor of the class would give at this call.
  unfoldable pub get_instance : A → Singleton A → A × Singleton A
  get_instance make s = elim s.object [
    | some a ↦ (a, s)
    | none ↦ (make, record { object = some make; made = suc s.made })
  ]

  -- Calls one after the other, and what they give.
  unfoldable pub get_instances : List A → Singleton A → List A × Singleton A
  unfolding get_instance
  get_instances [] s = ([], s)
  get_instances (make ∷ makes) s =
      let p = get_instance make s in let rest = get_instances makes p.1 in (p.0 ∷ rest.0, rest.1)

  -- Once it is there, every call gives the object, and none is made.
  get_instances-some :
      (a : A) (n : ℕ) (makes : List A)
      → get_instances makes (record { object = some a; made = n })
        ≡ (map (λ make. a) makes, record { object = some a; made = n })
  unfolding get_instances
  get_instances-some a n [] = refl
  get_instances-some a n (make ∷ makes) =
      ap (λ (p : List A × Singleton A). (a ∷ p.0, p.1)) (get_instances-some a n makes)

  -- However often it is called, one object is made, and every call gives that one.
  get_instances-no_instance :
      (make : A) (makes : List A)
      → get_instances (make ∷ makes) no_instance
        ≡ (make ∷ map (λ m. make) makes, record { object = some make; made = 1 })
  unfolding get_instances
  get_instances-no_instance make makes =
      ap (λ (p : List A × Singleton A). (make ∷ p.0, p.1)) (get_instances-some make 1 makes)
