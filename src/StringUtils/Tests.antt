-- ===== src/StringUtils/Tests.antt =====
-- Strings of include/brutils/string_utils.h.
use brutils.Base.{◌-◌, ◌<◌, ◌≡◌, true, false, Bytes, codes, some, List, [], ◌∷◌, length, take}
use brutils.StringUtils.{split_by_string, split_by_char, str_contains}
use brutils.StringUtils.Splits.{split_by_string-split_by_char}

split_by_string-split_by_char_example :
    (str_contains (codes "a,b") (b',' ∷ []) ≡ true
      → (ts : List Bytes) × (split_by_string (codes "a,b") (b',' ∷ []) ≡ some ts)
        × (split_by_char (codes "a,b") b',' ≡ some ts))
    × (str_contains (codes "a,b") (b',' ∷ []) ≡ false
        → 0 < length (codes "a,b")
        → (split_by_string (codes "a,b") (b',' ∷ [])
            ≡ some (take (length (codes "a,b") - 1) (codes "a,b") ∷ []))
          × (split_by_char (codes "a,b") b',' ≡ some (codes "a,b" ∷ [])))
split_by_string-split_by_char_example = split_by_string-split_by_char b',' (codes "a,b")
