-- ===== src/Json/Floats.antt =====
-- Floating point, which the library takes from the machine: the types `float` and `double`, and what
-- src/brutils/json_parser.cpp and src/brutils/json_generator.cpp compute with them.
use brutils.Base.{ℕ, Bool, Bytes}

pub record Floats : Type 1 where
  pub Float : Type 0
  pub Double : Type 0
  -- `float val = 0`
  pub zero : Float
  -- `val += d * pow(10, k)`
  pub add_scaled : Float → ℕ → ℕ → Float
  -- `val += d / pow(10, k)`
  pub add_decimal : Float → ℕ → ℕ → Float
  -- `number += val`
  pub add : Float → Float → Float
  -- `std::pow(10, val)`
  pub pow10 : Float → Float
  -- `number *= val` and `number /= val`
  pub mul : Float → Float → Float
  pub div : Float → Float → Float
  -- `number *= coeff`, where `coeff` is -1 if the flag is set and else 1
  pub mul_coeff : Float → Bool → Float
  -- `ss << number`
  pub show_float : Float → Bytes
  pub show_double : Double → Bytes
