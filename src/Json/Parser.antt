-- ===== src/Json/Parser.antt =====
-- src/brutils/json_parser.cpp. The view that the functions share by reference is passed on: each takes
-- the text that is left and gives back what it leaves.
pub mod Outcome
pub mod Scan
pub mod Number
pub mod Unescaped
pub mod Terminates
pub mod Integers
pub mod Escapes
use brutils.Base.{
  ℕ, zero, suc, ◌+◌, ◌-◌, ◌*◌, Bool, true, false, ◌||◌, Bytes, codes, length, equal, take, drop,
  Option, none, some, List, [], ◌∷◌, ◌==◌, if◌then◌else◌,
}
use brutils.Json.Floats.{Floats}
use brutils.Json.Variant.{
  Variant, invalid, null, bool, string, list, map, Items, nil, Fields, end, is_valid, push_back,
  insert,
}
use Outcome.{Result, ok, out_of_range, no_fuel, ◌>>=◌}
use Scan.{at, find_first_of, remove_whitespace, is_digit, is_alpha, alpha_run}
use Number.{parse_number}

-- The loop that looks for the closing quote. `none` stands for `npos`.
unfoldable pub find_quote : ℕ → ℕ → Bytes → Result (Option ℕ)
unfolding find_first_of at
find_quote zero continue_index input = no_fuel
find_quote (suc f) continue_index input = elim (find_first_of b'"' continue_index input) [
  | none ↦ ok none
  | some size ↦
      let again = find_quote f size input in
      if size == 0
      then ok (some 0)
      else at input (size - 1) >>= λ c. if c == b'\\' then again else ok (some size)
]

-- The first `size` bytes of the text are the string.
unfoldable pub cut : Option ℕ → Bytes → Option Bytes × Bytes
unfolding remove_whitespace
cut none input = (none, input)
cut (some size) input = (some (take size input), remove_whitespace (drop (size + 1) input))

-- `none` stands for the empty variant, and `some` for a variant that holds a string.
unfoldable pub parse_string : ℕ → Bytes → Result (Option Bytes × Bytes)
unfolding remove_whitespace find_quote cut at
parse_string fuel input =
    let s = remove_whitespace input in
    at s 0 >>= λ c.
    if c == b'"'
    then (do size ← find_quote fuel 0 (drop 1 s); ok (cut size (drop 1 s)))
    else ok (none, s)

module _ (fl : Floats) where
  open fl use {Float, Double}

  literal : Bytes → Variant Float Double
  literal word =
      if equal (codes "true") word
      then bool true
      else if equal (codes "false") word
      then bool false
      else if equal (codes "null") word
      then null
      else invalid

  unfoldable pub parse_literal : Bytes → Result (Variant Float Double × Bytes)
  unfolding remove_whitespace alpha_run literal equal at is_alpha
  parse_literal input =
      let s = remove_whitespace input in
      at s 0 >>= λ c.
      if is_alpha c
      then (do (word, rest) ← alpha_run s; ok (literal word, remove_whitespace rest))
      else ok (invalid, s)

  abbrev variant_of : Option Bytes → Variant Float Double
  variant_of none = invalid
  variant_of (some s) = string s

  unfoldable mutual
    unfolding parse_string parse_literal parse_number remove_whitespace at is_digit push_back insert
        is_valid

    pub parse_value : ℕ → Bytes → Result (Variant Float Double × Bytes)
    parse_value zero input = no_fuel
    parse_value (suc f) input =
        let s = remove_whitespace input in
        let object = (do (fs, r) ← parse_object f s; ok (map fs, r)) in
        let array = (do (xs, r) ← parse_array f s; ok (list xs, r)) in
        do
          c ← at s 0
          (v, r) ←
              (if c == b'"'
                then (do (o, r) ← parse_string (suc f) s; ok (variant_of o, r))
                else if is_digit c || c == b'-'
                then parse_number fl s
                else if c == b'{'
                then object
                else if c == b'['
                then array
                else parse_literal s)
          ok (v, remove_whitespace r)

    pub parse_object : ℕ → Bytes → Result (Fields Float Double × Bytes)
    parse_object zero input = no_fuel
    parse_object (suc f) input =
        let s = remove_whitespace input in
        let s' = remove_whitespace (drop 1 s) in
        let members = parse_members f end s' in
        at s 0 >>= λ c.
        if c == b'{'
        then (at s' 0 >>= λ d.
            if d == b'}' then ok (end, drop 1 s') else if d == b'"' then members else ok (end, s'))
        else ok (end, s)

    -- The loop of `parseObject`.
    pub parse_members : ℕ → Fields Float Double → Bytes → Result (Fields Float Double × Bytes)
    parse_members zero object s = no_fuel
    parse_members (suc f) object s =
        let next = parse_members f object (remove_whitespace (drop 1 s)) in
        let member = (λ (key : Bytes) (s : Bytes). at s 0 >>= λ d.
        if d == b':'
        then (do
          (v, r) ← parse_value f (remove_whitespace (drop 1 s))
          parse_members f (insert key v object) (remove_whitespace r))
        else ok (end, s)) in
        at s 0 >>= λ c.
        if c == b'}'
        then ok (object, remove_whitespace (drop 1 s))
        else if c == b'"'
        then (do
          (o, r) ← parse_string (suc f) s
          elim o [ none ↦ ok (end, r) | some key ↦ member key (remove_whitespace r) ])
        else if c == b','
        then next
        else ok (end, s)

    pub parse_array : ℕ → Bytes → Result (Items Float Double × Bytes)
    parse_array zero input = no_fuel
    parse_array (suc f) input =
        let s = remove_whitespace input in
        let elements = parse_elements f nil (drop 1 s) in
        do c ← at s 0; if c == b'[' then elements else ok (nil, s)

    -- The loop of `parseArray`.
    pub parse_elements : ℕ → Items Float Double → Bytes → Result (Items Float Double × Bytes)
    parse_elements zero array s = no_fuel
    parse_elements (suc f) array s =
        let store = (λ (v : Variant Float Double) (r : Bytes). at r 0 >>= λ d.
        parse_elements f (push_back array v)
          (remove_whitespace (if d == b',' then drop 1 r else r))) in
        at s 0 >>= λ c. if c == b']' then ok (array, remove_whitespace (drop 1 s)) else (do
          (v, r) ← parse_value f (remove_whitespace s)
          if is_valid v then store v r else ok (nil, r))

  -- `parse(std::string_view)`, with the fuel that its loops and calls may use.
  unfoldable pub parse_with : ℕ → Bytes → Result (Variant Float Double)
  parse_with fuel input =
      let s = remove_whitespace input in
      at s 0 >>= λ c.
      if c == b'{'
      then (do (fs, r) ← parse_object fuel s; ok (whole (map fs) (remove_whitespace r)))
      else if c == b'['
      then (do (xs, r) ← parse_array fuel s; ok (whole (list xs) (remove_whitespace r)))
      else ok invalid
    where
      whole : Variant Float Double → Bytes → Variant Float Double
      whole v [] = v
      whole v (c ∷ r) = invalid

  unfoldable pub parse : Bytes → Result (Variant Float Double)
  unfolding parse_with
  parse input = parse_with (3 * length input + 1) input
