-- ===== src/Timers/Keeper/Book.antt =====
-- The closest record of a book of src/brutils/timers/TimeKeeper.cpp, and erasing a record.
use brutils.Base.{
  ℕ, ◌≤◌, ◌<◌, ◌≡◌, refl, false, none, some, List, [], ◌∷◌, ltb, ◌==◌, if◌then◌else◌, arith, ◌⊎◌,
  inl, inr, Bool-cases, subst,
}
use brutils.Timers.Keeper.{TimeRecord, RecordBook, find_record, erase_record, closest_of}

-- Each entry has the id of its record as its key, and a key has one entry.
abbrev pub IsKeyed : RecordBook → Type 0
IsKeyed [] = Unit {0}
IsKeyed (e ∷ es) = (e.0 ≡ e.1.id) × (find_record e.0 es ≡ none) × IsKeyed es

-- No record of the book ends before the time.
abbrev pub NoneBefore : ℕ → RecordBook → Type 0
NoneBefore date [] = Unit {0}
NoneBefore date (e ∷ es) = (date ≤ e.1.interval.end) × NoneBefore date es

abbrev pub AllAfter : ℕ → List ℕ → Type 0
AllAfter date [] = Unit {0}
AllAfter date (now ∷ times) = (date < now) × AllAfter date times

-- `r` ends before all others, and it is `best` or one of the book that ends before `best`.
unfoldable pub Found : TimeRecord → RecordBook → TimeRecord → Type 0
Found best es r =
    NoneBefore r.interval.end es
    × ((r ≡ best) ⊎ ((find_record r.id es ≡ some r) × (r.interval.end < best.interval.end)))

pub find_record_ne :
    (n m : ℕ) (es : RecordBook) (r : TimeRecord)
    → find_record n es ≡ none
    → find_record m es ≡ some r
    → (n == m) ≡ false
find_record_ne n m es r h k = ground arith

pub Found-cons :
    (best : TimeRecord) (e : ℕ × TimeRecord) (es : RecordBook) (r : TimeRecord)
    → e.0 ≡ e.1.id
    → find_record e.0 es ≡ none
    → Found (if ltb e.1.interval.end best.interval.end then e.1 else best) es r
    → Found best (e ∷ es) r
unfolding Found find_record
Found-cons best e es r key one found = elim (Bool-cases (ltb e.1.interval.end best.interval.end)) [
  | inl sooner ↦
      replaced (ground arith) (subst (λ b. Found (if b then e.1 else best) es r) sooner found)
  | inr later ↦ kept (ground arith) (subst (λ b. Found (if b then e.1 else best) es r) later found)
]
  where
    replaced : e.1.interval.end < best.interval.end → Found e.1 es r → Found best (e ∷ es) r
    replaced l (none_before, inl same) =
        ((ground arith, none_before), inr (ground arith, ground arith))
    replaced l (none_before, inr (there, less)) = (
      (ground arith, none_before),
      inr (ground (arith, find_record_ne e.0 r.id es r one there), ground arith),
    )

    kept : best.interval.end ≤ e.1.interval.end → Found best es r → Found best (e ∷ es) r
    kept l (none_before, inl same) = ((ground arith, none_before), inl same)
    kept l (none_before, inr (there, less)) = (
      (ground arith, none_before),
      inr (ground (arith, find_record_ne e.0 r.id es r one there), less),
    )

pub closest_of-Found :
    (best : TimeRecord) (es : RecordBook) → IsKeyed es → Found best es (closest_of best es)
unfolding closest_of Found
closest_of-Found best [] k = (tt, inl refl)
closest_of-Found best (e ∷ es) (key, one, keyed) =
    Found-cons best e es _ key one
      (closest_of-Found (if ltb e.1.interval.end best.interval.end then e.1 else best) es keyed)

-- With no record before it, the first stays the closest.
pub closest_of_first :
    (r : TimeRecord) (es : RecordBook) → NoneBefore r.interval.end es → closest_of r es ≡ r
unfolding closest_of
closest_of_first r [] h = refl
closest_of_first r (e ∷ es) h =
    let not_sooner : ltb e.1.interval.end r.interval.end ≡ false = ground arith in
    rw not_sooner (closest_of_first r es h.1)

pub erase_record-NoneBefore :
    (n date : ℕ) (es : RecordBook) → NoneBefore date es → NoneBefore date (erase_record n es)
unfolding erase_record
erase_record-NoneBefore n date [] h = tt
erase_record-NoneBefore n date (e ∷ es) h = elim (Bool-cases (e.0 == n)) [
  | inl same ↦ rw same h.1
  | inr other ↦ rw other (h.0, erase_record-NoneBefore n date es h.1)
]

pub find_record-erase_record :
    (n : ℕ) (es : RecordBook) → IsKeyed es → find_record n (erase_record n es) ≡ none
unfolding find_record erase_record
find_record-erase_record n [] k = refl
find_record-erase_record n (e ∷ es) k = ground (arith, find_record-erase_record n es k.2)
