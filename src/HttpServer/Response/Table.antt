-- ===== src/HttpServer/Response/Table.antt =====
-- The headers of src/brutils/HttpServer/HttpResponse.cpp as a finite map from keys to values.
use brutils.Base.{
  ◌≡◌, refl, Bool, true, Bytes, none, some, [], ◌∷◌, ◌||◌, if◌then◌else◌, arith, Bool-cases, inl,
  inr,
}
use brutils.HttpServer.Response.{Headers, header, set_header, find_header, remove_header}
use brutils.HttpServer.Response.Headers.{
  less_irrefl, less_equal, find_header-header, find_header-others,
}
use brutils.Json.RoundTrip.Keys.{less_trans}
use brutils.Json.Variant.{less}

-- The key comes before all keys of the table.
abbrev pub Before : Bytes → Headers → Type 0
Before k [] = Unit {0}
Before k (e ∷ es) = (less k e.0 ≡ true) × Before k es

-- The keys ascend, as in a `std::map`.
abbrev pub Ascending : Headers → Type 0
Ascending [] = Unit {0}
Ascending (e ∷ es) = Before e.0 es × Ascending es

Before-trans : (j k : Bytes) (es : Headers) → less j k ≡ true → Before k es → Before j es
Before-trans j k [] l h = tt
Before-trans j k (e ∷ es) l h = (less_trans j k e.0 l h.0, Before-trans j k es l h.1)

find_header-Before : (k : Bytes) (es : Headers) → Before k es → find_header k es ≡ none
unfolding find_header
find_header-Before k [] h = refl
find_header-Before k (e ∷ es) h = ground arith

header-Before :
    (j k v : Bytes) (es : Headers)
    → less j k ≡ true
    → Before j es
    → Before j (header k v es) × Before j (set_header k v es)
unfolding header set_header
header-Before j k v [] l h = ((l, tt), (l, tt))
header-Before j k v (e ∷ es) l h = ground (arith, header-Before j k v es l h.1)

pub header-Ascending :
    (k v : Bytes) (es : Headers)
    → Ascending es
    → Ascending (header k v es) × Ascending (set_header k v es)
unfolding header set_header
header-Ascending k v [] h = ((tt, tt), (tt, tt))
header-Ascending k v (e ∷ es) h =
    ground (arith, header-Ascending k v es h.1, header-Before e.0 k v es, Before-trans k e.0 es)

remove_header-Before : (j k : Bytes) (es : Headers) → Before j es → Before j (remove_header k es)
unfolding remove_header
remove_header-Before j k [] h = tt
remove_header-Before j k (e ∷ es) h = ground (arith, remove_header-Before j k es h.1)

pub remove_header-Ascending :
    (k : Bytes) (es : Headers) → Ascending es → Ascending (remove_header k es)
unfolding remove_header
remove_header-Ascending k [] h = tt
remove_header-Ascending k (e ∷ es) h =
    ground (arith, remove_header-Ascending k es h.1, remove_header-Before e.0 k es h.0)

abbrev pub differ : Bytes → Bytes → Bool
differ j k = less j k || less k j

remove_header-find_header :
    (j k : Bytes) (es : Headers)
    → Ascending es
    → find_header j (remove_header k es) ≡ (if differ j k then find_header j es else none)
unfolding remove_header find_header
remove_header-find_header j k [] h = ground arith
remove_header-find_header j k (e ∷ es) h = ground (
  arith,
  remove_header-find_header j k es h.1,
  less_equal j k,
  less_equal k e.0,
  find_header-Before j es,
  find_header-Before e.0 es h.0,
  (λ (l : less j e.0 ≡ true). Before-trans j e.0 es l h.0),
  less_irrefl k,
)

-- The headers, whose keys ascend, are a finite map: each of the three operations keeps the keys in
-- order, so that no key stands twice; the key that it is about then has the value that it had, or else
-- the new one, after `header`, the new one after the assignment, and none after `removeHeader`; every
-- other key has what it had.
pub header-IsTable :
    (j k v : Bytes) (es : Headers)
    → Ascending es
    → (Ascending (header k v es) × Ascending (set_header k v es) × Ascending (remove_header k es))
      × (find_header j (header k v es) ≡ (
          if differ j k
          then find_header j es
          else some (elim (find_header k es) [ none ↦ v | some w ↦ w ])))
      × (find_header j (set_header k v es) ≡ (if differ j k then find_header j es else some v))
      × (find_header j (remove_header k es) ≡ (if differ j k then find_header j es else none))
header-IsTable j k v es h =
    let kept = header-Ascending k v es h in
    elim (Bool-cases (differ j k)) [
      | inl other ↦
          let others = find_header-others j k v es other in
          (
            (kept.0, kept.1, remove_header-Ascending k es h),
            ground (arith, others.0),
            ground (arith, others.1),
            remove_header-find_header j k es h,
          )
      | inr same ↦
          let equal_keys : j ≡ k = ground (arith, less_equal j k) in
          let found = find_header-header k v es in
          (
            (kept.0, kept.1, remove_header-Ascending k es h),
            ground (arith, found.0),
            ground (arith, found.1),
            remove_header-find_header j k es h,
          )
    ]
