-- ===== src/HttpServer/RequestParser.antt =====
-- src/brutils/HttpServer/RequestParser.cpp: the pieces of a request. A pair of iterators is the bytes
-- between them, and a function that moves the first iterator gives back what is left.
pub mod Lines
pub mod Loops
pub mod Parse
use brutils.Base.{
  ℕ, zero, suc, ◌+◌, ◌<◌, ◌≡◌, Bool, true, false, ◌||◌, Bytes, codes, length, drop, equal, Option,
  none, some, List, [], ◌∷◌, ◌==◌, ltb, if◌then◌else◌,
}

-- `UNKNOWN_METHOD` and `HttpVersion::UNKNOWN` are `none` below.
pub data HttpMethod : Type 0 where
  get head post put patch delete connect options trace : HttpMethod

pub data HttpVersion : Type 0 where
  http_10 http_11 http_20 http_30 : HttpVersion

-- `false`, or undefined behaviour of the language, from which nothing follows.
pub data Parsed {ℓ} (A : Type ℓ) : Type ℓ where
  done : A → Parsed A
  failed undefined out_of_fuel : Parsed A

infixl 10 ◌>>=◌
abbrev pub ◌>>=◌ {ℓ ℓ'} : {A : Type ℓ} {B : Type ℓ'} → Parsed A → (A → Parsed B) → Parsed B
done a >>= k = k a
failed >>= k = failed
undefined >>= k = undefined
out_of_fuel >>= k = out_of_fuel

-- `std::find`: what stands before the byte, and what begins with it.
unfoldable pub find_byte : ℕ → Bytes → Bytes × Bytes
find_byte b [] = ([], [])
find_byte b (c ∷ s) =
    let (before, rest) = find_byte b s in if c == b then ([], c ∷ s) else (c ∷ before, rest)

-- `std::find_first_of` with `_newLine`
unfoldable pub find_new_line : Bytes → Bytes × Bytes
find_new_line [] = ([], [])
find_new_line (c ∷ s) =
    let (before, rest) = find_new_line s in
    if c == 13 || c == 10 then ([], c ∷ s) else (c ∷ before, rest)

-- `getString` writes behind the end of an empty string.
unfoldable pub get_string : Bytes → Parsed Bytes
get_string [] = done []
get_string (c ∷ s) = undefined

unfoldable pub method_of : Bytes → Option HttpMethod
unfolding equal
method_of word =
    if equal word (codes "GET")
    then some get
    else if equal word (codes "HEAD")
    then some head
    else if equal word (codes "POST")
    then some post
    else if equal word (codes "PUT")
    then some put
    else if equal word (codes "PATCH")
    then some patch
    else if equal word (codes "DELETE")
    then some delete
    else if equal word (codes "CONNECT")
    then some connect
    else if equal word (codes "OPTIONS")
    then some options
    else if equal word (codes "TRACE")
    then some trace
    else none

unfoldable pub version_of : Bytes → Option HttpVersion
unfolding equal
version_of word =
    if equal word (codes "HTTP/1.0")
    then some http_10
    else if equal word (codes "HTTP/1.1")
    then some http_11
    else none

-- The line up to its end; what is left is behind the space.
unfoldable pub parse_method : Bytes → Parsed (HttpMethod × Bytes)
unfolding find_byte method_of
parse_method line =
    let (word, rest) = find_byte b' ' line in
    elim rest [
      | [] ↦ failed
      | ◌∷◌ c rest' ↦ elim (method_of word) [ none ↦ failed | some m ↦ done (m, rest') ]
    ]

unfoldable pub parse_version : Bytes → Parsed HttpVersion
unfolding version_of
parse_version line = elim (version_of line) [ none ↦ failed | some v ↦ done v ]

unfoldable pub parse_path : Bytes → Parsed Bytes
unfolding get_string
parse_path [] = failed
parse_path (c ∷ s) = get_string (c ∷ s)

-- The key and the value of a pair.
unfoldable pub parse_pair : Bytes → Parsed (Bytes × Bytes)
unfolding find_byte get_string
parse_pair pair =
    let (key, rest) = find_byte b'=' pair in
    elim rest [
      | [] ↦ get_string pair >>= λ k. done (k, [])
      | ◌∷◌ c value ↦ get_string key >>= λ k. get_string value >>= λ v. done (k, v)
    ]

-- The loop of `parseQuery`: the pairs that it puts into the map, in their order. A round takes one byte at least.
unfoldable pub parse_query : ℕ → Bytes → Parsed (List (Bytes × Bytes))
unfolding find_byte parse_pair
parse_query zero s = out_of_fuel
parse_query (suc f) [] = done []
parse_query (suc f) (c ∷ s) =
    let (pair, rest) = find_byte b'&' (c ∷ s) in
    let more = parse_query f (drop 1 rest) in parse_pair pair >>= λ p. more >>= λ ps. done (p ∷ ps)

-- The path, the query, and the rest of the line: the iterator stays at the space behind a path, and
-- behind a query it moves on, over the space too unless the query ends with `&`.
unfoldable pub parse_path_and_query : Bytes → Parsed (Bytes × List (Bytes × Bytes) × Bytes)
unfolding find_byte parse_path parse_query
parse_path_and_query line =
    let (uri, rest) = find_byte b' ' line in
    let (path, query) = find_byte b'?' uri in
    elim rest [
      | [] ↦ failed
      | ◌∷◌ c rest' ↦ elim query [
        | [] ↦ elim (parse_path path) [
          | done p ↦ done (p, [], c ∷ rest')
          | failed ↦ done ([], [], c ∷ rest')
          | undefined ↦ undefined
          | out_of_fuel ↦ out_of_fuel
        ]
        | ◌∷◌ d query' ↦ parse_path path >>= λ p. parse_query (suc (length query')) query' >>= λ q.
            done (p, q, after_query query' (c ∷ rest'))
      ]
    ]
  where
    after_query : Bytes → Bytes → Bytes
    after_query [] rest = rest
    after_query (c ∷ []) rest = if c == b'&' then rest else drop 1 rest
    after_query (c ∷ d ∷ s) rest = after_query (d ∷ s) rest

pub record RequestLine : Type 0 where
  pub method : HttpMethod
  pub path : Bytes
  pub query : List (Bytes × Bytes)
  pub version : HttpVersion

unfoldable pub parse_request_line : Bytes → Parsed (RequestLine × Bytes)
unfolding find_new_line parse_method parse_path_and_query parse_version
parse_request_line [] = failed
parse_request_line (c ∷ s) =
    let (line, rest) = find_new_line (c ∷ s) in
    parse_method line >>= λ m. parse_path_and_query m.1 >>= λ u. parse_version u.2 >>= λ v.
    done (record { method = m.0; path = u.0; query = u.1; version = v }, drop 2 rest)

-- A line with a key and a value.
unfoldable pub parse_header_line : Bytes → Parsed (Bytes × Bytes)
unfolding find_byte get_string
parse_header_line line =
    let (key, rest) = find_byte b':' line in
    elim rest [
      | [] ↦ failed
      | ◌∷◌ c value ↦ get_string key >>= λ k. get_string (skip value) >>= λ v. done (k, v)
    ]
  where
    skip : Bytes → Bytes
    skip [] = []
    skip (c ∷ s) = let rest = skip s in if c == b' ' then rest else c ∷ s

-- The loop of `parseHeader`: it ends at an empty line.
unfoldable pub parse_header : ℕ → Bytes → Parsed (List (Bytes × Bytes) × Bytes)
unfolding find_new_line parse_header_line
parse_header zero s = out_of_fuel
parse_header (suc f) [] = failed
parse_header (suc f) (c ∷ s) =
    let (line, rest) = find_new_line (c ∷ s) in
    let more = parse_header f (drop 2 rest) in
    elim line [
      | [] ↦ done ([], drop 2 rest)
      | ◌∷◌ d line' ↦ parse_header_line (d ∷ line') >>= λ p. more >>= λ m. done (p ∷ m.0, m.1)
    ]

-- All that is left is the body, if it is long enough.
unfoldable pub parse_body : ℕ → Bytes → Parsed (Bytes × Bytes)
parse_body content_size s = if ltb (length s) content_size then failed else done (s, [])
