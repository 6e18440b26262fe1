-- ===== src/Timers/Combined.antt =====
-- src/brutils/timers/combined_timer.cpp: the table of timers, and a round of the timer thread. The
-- threads are stopped and started again around each change of the table. An `int16_t` is a number below 2 ^ 16, so
-- -1 is 2 ^ 16 - 1; times are numbers of milliseconds.
pub mod Closest
pub mod Table
use brutils.Base.{
  ℕ, ◌+◌, ◌%◌, ◌^◌, Bool, true, false, Option, none, some, List, [], ◌∷◌, ltb, leb, ◌==◌,
  if◌then◌else◌,
}

pub record TimerData : Type 0 where
  pub periodic : Bool
  pub id : ℕ
  pub duration : ℕ
  pub expiration_date : ℕ

-- `_timeKeeperMap` is the list of its entries, in the order that a loop meets them.
pub record CombinedTimer : Type 0 where
  pub last_timer_id : ℕ
  pub time_keeper_map : List TimerData
  pub stopped : Bool

abbrev pub no_timer : ℕ
no_timer = 65535

unfoldable pub find_timer : ℕ → List TimerData → Option TimerData
find_timer n [] = none
find_timer n (d ∷ ds) = if d.id == n then some d else find_timer n ds

unfoldable pub store_timer : TimerData → List TimerData → List TimerData
store_timer t [] = t ∷ []
store_timer t (d ∷ ds) = if d.id == t.id then t ∷ ds else d ∷ store_timer t ds

unfoldable pub erase_timer : ℕ → List TimerData → List TimerData
erase_timer n [] = []
erase_timer n (d ∷ ds) = if d.id == n then ds else d ∷ erase_timer n ds

unfoldable pub add_timer : ℕ → ℕ → Bool → CombinedTimer → ℕ × CombinedTimer
unfolding store_timer
add_timer now duration_ms periodic t =
    let n = t.last_timer_id in
    let entry : TimerData = record {
      periodic = periodic;
      id = n;
      duration = duration_ms;
      expiration_date = now + duration_ms;
    } in
    (
      n,
      record {
        last_timer_id = (n + 1) % 2 ^ 16;
        time_keeper_map = store_timer entry t.time_keeper_map;
        stopped = false;
      },
    )

unfoldable pub stop_timer : ℕ → CombinedTimer → Bool × CombinedTimer
unfolding find_timer erase_timer
stop_timer n t = elim (find_timer n t.time_keeper_map) [
  | none ↦ (false, t)
  | some d ↦ (true, record t { time_keeper_map = erase_timer n t.time_keeper_map; stopped = false })
]

-- The loop of `getClosestTimerId`, with the closest timer so far.
unfoldable pub closest_of : ℕ → ℕ → List TimerData → ℕ
closest_of closest date [] = closest
closest_of closest date (d ∷ ds) =
    if ltb d.expiration_date date
    then closest_of d.id d.expiration_date ds
    else closest_of closest date ds

unfoldable pub get_closest_timer_id : List TimerData → ℕ
unfolding closest_of
get_closest_timer_id [] = no_timer
get_closest_timer_id (d ∷ ds) = closest_of d.id d.expiration_date ds

-- A round of `run` that no one asks to stop, with the time at which its wait looks at the clock and the
-- one that a periodic timer is set from. Before the deadline the wait goes on and the round does nothing
-- more; at the deadline `wait_until` returns, whatever its predicate says, and its answer is not looked at.
-- The id that the signal `timeout` carries is the first component.
unfoldable pub run_round : ℕ → ℕ → CombinedTimer → Option ℕ × CombinedTimer
unfolding get_closest_timer_id find_timer erase_timer store_timer
run_round woken now t =
    let closest = get_closest_timer_id t.time_keeper_map in
    if closest == no_timer
    then (none, record t { stopped = true })
    else elim (find_timer closest t.time_keeper_map) [
      | none ↦ (none, record t { stopped = true })
      | some d ↦
          if leb d.expiration_date woken
          then (
            some closest,
            record t {
              time_keeper_map =
                  if d.periodic
                  then store_timer (record d { expiration_date = now + d.duration })
                      t.time_keeper_map
                  else erase_timer closest t.time_keeper_map;
            },
          )
          else (none, t)
    ]
