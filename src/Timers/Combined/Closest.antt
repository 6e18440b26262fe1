-- ===== src/Timers/Combined/Closest.antt =====
-- Which timer of src/brutils/timers/combined_timer.cpp goes off first, and what its table holds.
use brutils.Base.{
  ℕ, ◌≤◌, ◌<◌, ◌≡◌, refl, false, none, some, List, [], ◌∷◌, ltb, ◌==◌, arith, ◌⊎◌, inl, inr,
  Bool-cases,
}
use brutils.Timers.Combined.{TimerData, find_timer, closest_of, get_closest_timer_id}

-- No entry has this id.
abbrev pub Absent : ℕ → List TimerData → Type 0
Absent n [] = Unit {0}
Absent n (d ∷ ds) = ((d.id == n) ≡ false) × Absent n ds

-- A map has one entry for a key.
abbrev pub OneEach : List TimerData → Type 0
OneEach [] = Unit {0}
OneEach (d ∷ ds) = Absent d.id ds × OneEach ds

-- No entry goes off before this time.
abbrev pub NoneBefore : ℕ → List TimerData → Type 0
NoneBefore date [] = Unit {0}
NoneBefore date (d ∷ ds) = (date ≤ d.expiration_date) × NoneBefore date ds

NoneBefore-mono : (a b : ℕ) (ds : List TimerData) → a ≤ b → NoneBefore b ds → NoneBefore a ds
NoneBefore-mono a b [] le h = tt
NoneBefore-mono a b (d ∷ ds) le h = (omega (arith, h.0), NoneBefore-mono a b ds le h.1)

pub find_timer-Absent : (n : ℕ) (ds : List TimerData) → Absent n ds → find_timer n ds ≡ none
unfolding find_timer
find_timer-Absent n [] h = refl
find_timer-Absent n (d ∷ ds) h = rw h.0 (find_timer-Absent n ds h.1)

find_timer_ne :
    (n : ℕ) (ds : List TimerData) (m : ℕ) (e : TimerData)
    → Absent n ds
    → find_timer m ds ≡ some e
    → (n == m) ≡ false
find_timer_ne n ds m e h k = ground (arith, find_timer-Absent n ds h)

-- What the loop has found: the timer that it began with, or one of the list that goes off before it.
closest_of-NoneBefore :
    (best date : ℕ) (ds : List TimerData)
    → OneEach ds
    → ((closest_of best date ds ≡ best) × NoneBefore date ds)
      ⊎ ((d : TimerData) × (find_timer (closest_of best date ds) ds ≡ some d)
          × (d.expiration_date < date)
          × NoneBefore d.expiration_date ds)
unfolding closest_of find_timer
closest_of-NoneBefore best date [] h = inl (refl, tt)
closest_of-NoneBefore best date (d ∷ ds) h = elim (Bool-cases (ltb d.expiration_date date)) [
  | inl sooner ↦ (elim (closest_of-NoneBefore d.id d.expiration_date ds h.1) [
    | inl (same, early) ↦ inr (d, ground (arith, same), ground arith, (ground arith, early))
    | inr (e, found, le, early) ↦ inr (
      e,
      ground (arith, find_timer_ne d.id ds _ e h.0 found),
      ground arith,
      (ground arith, early),
    )
  ])
  | inr later ↦ (elim (closest_of-NoneBefore best date ds h.1) [
    | inl (same, early) ↦ inl (ground arith, (ground arith, early))
    | inr (e, found, le, early) ↦
        inr (e, ground (arith, find_timer_ne d.id ds _ e h.0 found), le, (ground arith, early))
  ])
]

-- With timers in the table, the closest timer is one of them, and none goes off before it.
pub get_closest_timer_id-NoneBefore :
    (t : TimerData) (ts : List TimerData)
    → OneEach (t ∷ ts)
    → (d : TimerData) × (find_timer (get_closest_timer_id (t ∷ ts)) (t ∷ ts) ≡ some d)
      × NoneBefore d.expiration_date (t ∷ ts)
unfolding get_closest_timer_id find_timer
get_closest_timer_id-NoneBefore t ts h =
    elim (closest_of-NoneBefore t.id t.expiration_date ts h.1) [
      | inl (same, early) ↦ (t, ground (arith, same), (ground arith, early))
      | inr (d, found, le, early) ↦
          (d, ground (arith, find_timer_ne t.id ts _ d h.0 found), (ground arith, early))
    ]
