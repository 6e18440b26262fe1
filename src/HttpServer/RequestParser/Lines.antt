-- ===== src/HttpServer/RequestParser/Lines.antt =====
-- Request lines of src/brutils/HttpServer/RequestParser.cpp.
use brutils.Base.{
  ◌+◌, ◌≤◌, length, drop, equal, List, ℕ, zero, suc, ◌≡◌, ◌≢◌, refl, Bytes, codes, [], ◌∷◌, ◌++◌,
  arith, ◌⊎◌, inl, inr, Option, none, some,
}
use brutils.HttpServer.RequestParser.{
  HttpMethod, get, head, post, put, patch, delete, connect, options, trace, Parsed, done, failed,
  undefined, out_of_fuel, find_byte, find_new_line, get_string, method_of, version_of, parse_method,
  parse_version, parse_path, parse_path_and_query, parse_request_line, parse_header_line,
}

abbrev pub method_name : HttpMethod → Bytes
method_name get = codes "GET"
method_name head = codes "HEAD"
method_name post = codes "POST"
method_name put = codes "PUT"
method_name patch = codes "PATCH"
method_name delete = codes "DELETE"
method_name connect = codes "CONNECT"
method_name options = codes "OPTIONS"
method_name trace = codes "TRACE"

-- Every method is read back from its name, with all that follows the space left over.
parse_method-method_name :
    (m : HttpMethod) (rest : Bytes) → parse_method (method_name m ++ b' ' ∷ rest) ≡ done (m, rest)
unfolding parse_method
parse_method-method_name get rest = refl
parse_method-method_name _ rest = refl

find_byte-first : (b : ℕ) (s : Bytes) (c : ℕ) (r : Bytes) → (find_byte b s).1 ≡ c ∷ r → c ≡ b
unfolding find_byte
find_byte-first b [] c r e = absurd (ground (arith, e))
find_byte-first b (x ∷ s) c r e = ground (arith, find_byte-first b s c r)

pub find_byte-length :
    (b : ℕ) (s : Bytes) → length (find_byte b s).0 + length (find_byte b s).1 ≡ length s
unfolding find_byte
find_byte-length b [] = refl
find_byte-length b (x ∷ s) = ground (arith, find_byte-length b s)

pub find_new_line-length :
    (s : Bytes) → length (find_new_line s).0 + length (find_new_line s).1 ≡ length s
unfolding find_new_line
find_new_line-length [] = refl
find_new_line-length (x ∷ s) = ground (arith, find_new_line-length s)

pub length-drop_le : (n : ℕ) (s : Bytes) → length (drop n s) ≤ length s
length-drop_le zero s = omega arith
length-drop_le (suc n) [] = omega arith
length-drop_le (suc n) (x ∷ s) = omega (arith, length-drop_le n s)

pub get_string-fuel : (s : Bytes) → get_string s ≢ out_of_fuel
unfolding get_string
get_string-fuel [] e = ground (arith, e)
get_string-fuel (c ∷ s) e = ground (arith, e)

pub parse_header_line-fuel : (s : Bytes) → parse_header_line s ≢ out_of_fuel
unfolding parse_header_line
parse_header_line-fuel s e = ground (arith, get_string-fuel (find_byte b':' s).0)

-- Behind a path the rest of the line begins with the space, and behind a query nothing is known.
AtSpace : Parsed (Bytes × List (Bytes × Bytes) × Bytes) → Type 0
AtSpace m =
    (m ≡ failed)
    ⊎ ((m ≡ undefined)
        ⊎ ((p : Bytes) × (q : List (Bytes × Bytes)) × (r : Bytes) × (m ≡ done (p, q, b' ' ∷ r))))

parse_path_and_query-AtSpace : (line : Bytes) → AtSpace (parse_path_and_query line)
unfolding AtSpace parse_path_and_query parse_path get_string
parse_path_and_query-AtSpace line =
    go (find_byte b' ' line).1 (find_byte b'?' (find_byte b' ' line).0).0
      (find_byte b'?' (find_byte b' ' line).0).1 refl refl refl
  where
    go :
        (rest path query : Bytes)
        → (find_byte b' ' line).1 ≡ rest
        → (find_byte b'?' (find_byte b' ' line).0).0 ≡ path
        → (find_byte b'?' (find_byte b' ' line).0).1 ≡ query
        → AtSpace (parse_path_and_query line)
    go [] path query k p q = inl (ground arith)
    go (c ∷ r) [] [] k p q = inr (inr ([], [], r, ground (arith, find_byte-first b' ' line c r k)))
    go (c ∷ r) (x ∷ path) [] k p q = inr (inl (ground arith))
    go (c ∷ r) [] (x ∷ query) k p q = inl (ground arith)
    go (c ∷ r) (y ∷ path) (x ∷ query) k p q = inr (inl (ground arith))

parse_method-cases :
    (line : Bytes)
    → (parse_method line ≡ failed) ⊎ ((p : HttpMethod × Bytes) × (parse_method line ≡ done p))
unfolding parse_method
parse_method-cases line = go (find_byte b' ' line).1 (method_of (find_byte b' ' line).0) refl refl
  where
    go :
        (rest : Bytes) (o : Option HttpMethod)
        → (find_byte b' ' line).1 ≡ rest
        → method_of (find_byte b' ' line).0 ≡ o
        → (parse_method line ≡ failed) ⊎ ((p : HttpMethod × Bytes) × (parse_method line ≡ done p))
    go [] o k h = inl (ground arith)
    go (c ∷ r) none k h = inl (ground arith)
    go (c ∷ r) (some m) k h = inr ((m, r), ground arith)

-- No request line is ever parsed: for every text `parseRequestLine` returns false or, as `getString`
-- writes behind the end of a string, does what the language leaves undefined.
pub parse_request_line-fails :
    (s : Bytes) → (parse_request_line s ≡ failed) ⊎ (parse_request_line s ≡ undefined)
unfolding parse_request_line parse_version version_of equal AtSpace
parse_request_line-fails [] = inl refl
parse_request_line-fails (c ∷ s) = elim (parse_method-cases (find_new_line (c ∷ s)).0) [
  | inl e ↦ inl (ground arith)
  | inr (m, e) ↦ elim (parse_path_and_query-AtSpace m.1) [
    | inl h ↦ inl (ground arith)
    | inr (inl h) ↦ inr (ground arith)
    | inr (inr (p, q, r, h)) ↦ inl (ground arith)
  ]
]
