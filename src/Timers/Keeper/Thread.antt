-- ===== src/Timers/Keeper/Thread.antt =====
-- The thread of src/brutils/timers/TimeKeeper.cpp next to the calls of other threads. One move is what a
-- thread does between two places at which another can come in: `run` holds the mutex from the start of a
-- round until it sleeps, and `stop` does not take the mutex.
pub mod Awake
pub mod Stopping
pub mod Rounds
pub mod Bounded
mod Tests
use brutils.Base.{
  ℕ, Bool, true, false, not, ◌||◌, Option, none, some, List, [], ◌∷◌, length, ltb, leb,
  if◌then◌else◌,
}
use brutils.Timers.Keeper.{
  TimeRecord, TimeKeeper, ok, add_record, cancel_record, get_closest_record, wake,
}

-- Where the thread is: before the test of `_running`, behind it with the mutex, before and behind a test
-- of the predicate, asleep, woken up but still without the mutex, or at its end. With a record, it waits
-- for the end of that one.
pub data Place : Type 0 where
  looping entered over : Place
  testing tested asleep woken : Option TimeRecord → Place

pub record Runner : Type 0 where
  pub keeper : TimeKeeper
  pub running : Bool
  pub place : Place

-- The constructor.
abbrev pub new_runner : Runner
new_runner = record {
  keeper = record { last_record_id = 0; notification = false; record_book = [] };
  running = true;
  place = looping;
}

-- What follows a wait for the record `r`, and what is emitted.
unfoldable pub after_wait : ℕ → TimeRecord → Runner → Runner × Option TimeRecord
unfolding wake
after_wait now r w =
    let p = wake now r w.keeper.record_book w.keeper in
    (record w { keeper = p.1; place = looping }, p.0)

-- A move of the thread at the time `now`, and what is emitted.
unfoldable pub own : ℕ → Runner → Runner × Option TimeRecord
unfolding get_closest_record after_wait
own now w = elim w.place [
  | looping ↦ (record w { place = if w.running then entered else over }, none)
  | entered ↦ elim (get_closest_record w.keeper.record_book) [
    | none ↦ (record w { place = testing none }, none)
    | some p ↦ (
      record w { keeper = record (w.keeper) { record_book = p.1 }; place = testing (some p.0) },
      none,
    )
  ]
  | testing none ↦
      if not w.running || w.keeper.notification
      then (record w { keeper = record (w.keeper) { notification = false }; place = looping }, none)
      else (record w { place = tested none }, none)
  | testing (some r) ↦
      if not w.running || w.keeper.notification || ltb r.interval.end now
      then after_wait now r w
      else (record w { place = tested (some r) }, none)
  | tested o ↦ (record w { place = asleep o }, none)
  | asleep none ↦ (w, none)
  | asleep (some r) ↦ if leb r.interval.end now then after_wait now r w else (w, none)
  | woken o ↦ (record w { place = testing o }, none)
  | over ↦ (w, none)
]

-- `notify_one`, or a wakeup for no reason: a thread that sleeps takes the mutex again when it can, and
-- tests its predicate.
unfoldable pub notify : Runner → Runner
notify w = elim w.place [ asleep o ↦ record w { place = woken o } | _ ↦ w ]

-- Whether the mutex is free.
unfoldable pub is_free : Place → Bool
is_free looping = true
is_free (asleep o) = true
is_free (woken o) = true
is_free over = true
is_free _ = false

-- A call of another thread that has the mutex; while it is held the call waits.
unfoldable pub add : ℕ → ℕ → List ℕ → Runner → Runner
unfolding is_free add_record notify
add now end_tp places w =
    if is_free w.place
    then (elim (add_record false now end_tp places w.keeper) [
      | ok p ↦ notify (record w { keeper = p.1 })
      | _ ↦ w
    ])
    else w

unfoldable pub cancel : ℕ → Runner → Runner
unfolding is_free cancel_record notify
cancel n w =
    if is_free w.place
    then (elim (cancel_record n w.keeper) [ ok t ↦ notify (record w { keeper = t }) | _ ↦ w ])
    else w

-- The two halves of `stop`.
unfoldable pub stop_running : Runner → Runner
stop_running w = record w { running = false }

unfoldable pub stop : Runner → Runner
unfolding stop_running notify
stop w = notify (stop_running w)

-- `wait` returns when the thread has ended.
unfoldable pub is_over : Place → Bool
is_over over = true
is_over _ = false

unfoldable pub size : Runner → ℕ
size w = length w.keeper.record_book

unfoldable pub empty : Runner → Bool
empty w = elim w.keeper.record_book [ [] ↦ true | ◌∷◌ e es ↦ false ]

-- The moves that can come, of the thread and of others.
pub data Move : Type 0 where
  moves : ℕ → Move
  adds : ℕ → ℕ → List ℕ → Move
  cancels : ℕ → Move
  stops_running notifies : Move

unfoldable pub move : Move → Runner → Runner
unfolding own add cancel stop_running notify
move (moves now) w = (own now w).0
move (adds now end_tp places) w = add now end_tp places w
move (cancels n) w = cancel n w
move stops_running w = stop_running w
move notifies w = notify w

unfoldable pub move_all : List Move → Runner → Runner
unfolding move
move_all [] w = w
move_all (m ∷ ms) w = move_all ms (move m w)
