-- ===== src/Timers/Keeper.antt =====
-- src/brutils/timers/TimeKeeper.cpp: the record book, and the rounds of the keeper's thread. The mutex
-- makes one step of each call; times are numbers of nanoseconds, as the system clock of libstdc++ counts
-- them, durations are numbers of milliseconds, and an id is below 2 ^ 16.
pub mod Ids
pub mod Book
pub mod Rounds
pub mod Thread
use brutils.Base.{
  ℕ, zero, suc, ◌+◌, ◌-◌, ◌*◌, ◌/◌, ◌%◌, Bool, true, false, Option, none, some, List, [], ◌∷◌,
  length, ltb, ◌==◌, if◌then◌else◌,
}

pub record Interval : Type 0 where
  pub start : ℕ
  pub end : ℕ

pub record TimeRecord : Type 0 where
  pub id : ℕ
  pub duration : ℕ
  pub interval : Interval

-- `_recordBook` is the list of its entries, in the order that a loop meets them.
abbrev pub RecordBook : Type 0
RecordBook = List (ℕ × TimeRecord)

pub record TimeKeeper : Type 0 where
  pub last_record_id : ℕ
  pub notification : Bool
  pub record_book : RecordBook

-- What a call ends with. `deadlock`: the thread waits for a mutex that it holds. `endless`: the search
-- for an id takes more rounds than its fuel.
pub data Outcome {ℓ} (A : Type ℓ) : Type ℓ where
  ok : A → Outcome A
  invalid_argument runtime_error deadlock endless : Outcome A

abbrev pub id_count : ℕ
id_count = 65536

-- `std::numeric_limits<std::uint16_t>::max()`
abbrev pub max_id : ℕ
max_id = 65535

unfoldable pub find_record : ℕ → RecordBook → Option TimeRecord
find_record n [] = none
find_record n (e ∷ es) = if e.0 == n then some e.1 else find_record n es

unfoldable pub erase_record : ℕ → RecordBook → RecordBook
erase_record n [] = []
erase_record n (e ∷ es) = if e.0 == n then es else e ∷ erase_record n es

abbrev pub ticks_per_millisecond : ℕ
ticks_per_millisecond = 1000000

unfoldable pub place_record : ℕ → ℕ × TimeRecord → RecordBook → RecordBook
place_record zero e es = e ∷ es
place_record (suc k) e [] = e ∷ []
place_record (suc k) e (x ∷ es) = x ∷ place_record k e es

-- An insertion can bring the entries of a hash table into any order; the list says where each of them
-- goes, beginning with the first. Those for which it says nothing keep their order.
unfoldable pub rehash : List ℕ → RecordBook → RecordBook
unfolding place_record
rehash [] book = book
rehash (k ∷ ks) [] = []
rehash (k ∷ ks) (e ∷ es) = place_record k e (rehash ks es)

-- The loop that looks for an id that no record has; `none` means that the fuel ran out.
unfoldable pub free_id : ℕ → ℕ → RecordBook → Option ℕ
unfolding find_record
free_id zero n book = none
free_id (suc f) n book =
    let next = free_id f ((n + 1) % id_count) book in
    elim (find_record n book) [ none ↦ some n | some r ↦ next ]

-- `AddRecord` with a time point; `locked` says whether the calling thread holds the mutex already.
unfoldable pub add_record : Bool → ℕ → ℕ → List ℕ → TimeKeeper → Outcome (TimeRecord × TimeKeeper)
unfolding free_id rehash
add_record locked now end_tp places t =
    let book = t.record_book in
    if locked
    then deadlock
    else if ltb end_tp now
    then invalid_argument
    else if length book == max_id
    then runtime_error
    else elim (free_id (suc (length book)) t.last_record_id book) [
      | none ↦ endless
      | some n ↦
          let r : TimeRecord = record {
            id = n;
            duration = (end_tp - now) / ticks_per_millisecond;
            interval = record { start = now; end = end_tp };
          } in
          ok (
            r,
            record {
              last_record_id = (t.last_record_id + 1) % id_count;
              notification = true;
              record_book = rehash places ((n, r) ∷ book);
            },
          )
    ]

-- `AddRecord` with a duration, which locks the mutex before it calls the other.
unfoldable pub add_record_for : ℕ → ℕ → List ℕ → TimeKeeper → Outcome (TimeRecord × TimeKeeper)
unfolding add_record
add_record_for now duration places t =
    if duration == 0
    then invalid_argument
    else if length t.record_book == max_id
    then runtime_error
    else add_record true now (now + duration * ticks_per_millisecond) places t

unfoldable pub cancel_record : ℕ → TimeKeeper → Outcome TimeKeeper
unfolding find_record erase_record
cancel_record n t = elim (find_record n t.record_book) [
  | none ↦ invalid_argument
  | some r ↦ ok (record t { record_book = erase_record n t.record_book; notification = true })
]

-- The loop of `getClosestRecord`, with what `closestRecord` refers to.
unfoldable pub closest_of : TimeRecord → RecordBook → TimeRecord
closest_of closest [] = closest
closest_of closest (e ∷ es) =
    closest_of (if ltb e.1.interval.end closest.interval.end then e.1 else closest) es

-- `closestRecord` is a reference to the first record in the book, so that each assignment writes there.
unfoldable pub get_closest_record : RecordBook → Option (TimeRecord × RecordBook)
unfolding closest_of
get_closest_record [] = none
get_closest_record (e ∷ es) = let r = closest_of e.1 es in some (r, (e.0, r) ∷ es)

-- What a round of `run` does when its wait for the record `r` ends at the time `now`.
unfoldable pub wake : ℕ → TimeRecord → RecordBook → TimeKeeper → Option TimeRecord × TimeKeeper
unfolding find_record erase_record
wake now r book t =
    let t' : TimeKeeper = record t { record_book = book; notification = false } in
    if ltb r.interval.end now
    then (elim (find_record r.id book) [
      | none ↦ (none, t')
      | some x ↦ (some r, record t' { record_book = erase_record r.id book })
    ])
    else (none, t')

-- A round of `run`, and the record that it emits.
unfoldable pub run_round : ℕ → TimeKeeper → Option TimeRecord × TimeKeeper
unfolding get_closest_record wake
run_round now t = elim (get_closest_record t.record_book) [
  | none ↦ (none, record t { notification = false })
  | some p ↦ wake now p.0 p.1 t
]

unfoldable pub emitted : Option TimeRecord → List TimeRecord → List TimeRecord
emitted none more = more
emitted (some r) more = r ∷ more

-- Rounds at the given times, and all that they emit.
unfoldable pub run : List ℕ → TimeKeeper → List TimeRecord × TimeKeeper
unfolding run_round emitted
run [] t = ([], t)
run (now ∷ times) t = let p = run_round now t in let q = run times p.1 in (emitted p.0 q.0, q.1)
