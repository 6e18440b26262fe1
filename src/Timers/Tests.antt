-- ===== src/Timers/Tests.antt =====
-- Timers of src/brutils/timers/combined_timer.cpp and TimeKeeper.cpp at work.
use brutils.Base.{
  arith, ℕ, ◌≢◌, ◌&&◌, leb, ◌+◌, ◌*◌, ◌≤◌, ◌<◌, ◌≡◌, refl, true, false, none, some, [], ◌∷◌, ◌==◌,
  if◌then◌else◌,
}
use brutils.Timers.Combined.{
  TimerData, CombinedTimer, find_timer, get_closest_timer_id, run_round, no_timer,
}
use brutils.Timers.Combined.Closest.{OneEach, NoneBefore, get_closest_timer_id-NoneBefore}
use brutils.Timers.Combined.Table.{run_round-fires}
use brutils.Timers.Keeper.{
  TimeRecord, TimeKeeper, Outcome, id_count, ticks_per_millisecond, find_record, add_record,
  closest_of, run,
}
use brutils.Timers.Keeper.Ids.{IsBounded, add_record-IsBounded}
use brutils.Timers.Single.{
  Timer, joining, restart, to_notify, to_start, to_stop, start, stop, notify, act, act_all,
  run as run_single, run-act_all,
}
use brutils.Timers.Keeper.Rounds.{run-closest_first}

abbrev slow : TimerData
slow = record { periodic = false; id = 0; duration = 500; expiration_date = 500 }

abbrev quick : TimerData
quick = record { periodic = true; id = 1; duration = 100; expiration_date = 100 }

abbrev two_timers : CombinedTimer
two_timers = record { last_timer_id = 2; time_keeper_map = slow ∷ quick ∷ []; stopped = false }

abbrev two_timers-OneEach : OneEach two_timers.time_keeper_map
two_timers-OneEach = ((refl, tt), (tt, tt))

get_closest_timer_id-NoneBefore_example :
    (d : TimerData) × (find_timer (get_closest_timer_id (slow ∷ quick ∷ [])) (slow ∷ quick ∷ [])
      ≡ some d)
    × NoneBefore d.expiration_date (slow ∷ quick ∷ [])
get_closest_timer_id-NoneBefore_example =
    get_closest_timer_id-NoneBefore slow (quick ∷ []) two_timers-OneEach

two_timers-closest : get_closest_timer_id two_timers.time_keeper_map ≢ no_timer
unfolding get_closest_timer_id
two_timers-closest e = ground (arith, e)

run_round-fires_example :
    let (sent, t') = run_round 100 101 two_timers in
    let n = get_closest_timer_id two_timers.time_keeper_map in
    (d : TimerData) × (find_timer n two_timers.time_keeper_map ≡ some d)
    × NoneBefore d.expiration_date two_timers.time_keeper_map
    × (sent ≡ (if leb d.expiration_date 100 then some n else none))
    × OneEach t'.time_keeper_map
    × ((m : ℕ)
        → find_timer m t'.time_keeper_map ≡ (
            if leb d.expiration_date 100 && n == m
            then (if d.periodic
                then some (record d { expiration_date = 101 + d.duration })
                else none)
            else find_timer m two_timers.time_keeper_map))
run_round-fires_example = run_round-fires 100 101 two_timers two_timers-OneEach two_timers-closest

abbrev late : TimeRecord
late = record { id = 0; duration = 500; interval = record { start = 0; end = 500 } }

abbrev soon : TimeRecord
soon = record { id = 1; duration = 100; interval = record { start = 0; end = 100 } }

abbrev late_first : TimeKeeper
late_first = record {
  last_record_id = 2;
  notification = true;
  record_book = (0, late) ∷ (1, soon) ∷ [];
}

add_record-IsBounded_example :
    (r : TimeRecord) × (t' : TimeKeeper) × (add_record false 50 2500050 (1 ∷ 0 ∷ []) late_first
      ≡ Outcome.ok (r, t'))
    × (find_record r.id late_first.record_book ≡ none)
    × (r.id < id_count)
    × (r.interval ≡ record { start = 50; end = 2500050 })
    × (50 + r.duration * ticks_per_millisecond ≤ 2500050)
    × (2500050 < 50 + (r.duration + 1) * ticks_per_millisecond)
    × IsBounded t'
    × ((m : ℕ)
        → find_record m t'.record_book
          ≡ (if r.id == m then some r else find_record m late_first.record_book))
unfolding find_record
add_record-IsBounded_example =
    add_record-IsBounded 50 2500050 (1 ∷ 0 ∷ []) late_first (omega arith)
      (omega arith, omega arith, (refl, (refl, tt))) (omega arith)

run-closest_first_example : (run (101 ∷ 501 ∷ 900 ∷ []) late_first).0 ≡ soon ∷ []
unfolding closest_of find_record
run-closest_first_example =
    run-closest_first 101 (501 ∷ 900 ∷ []) late_first (0, late) ((1, soon) ∷ []) refl
      ((refl, refl, (refl, refl, tt))) (omega arith) (omega arith, (omega arith, (omega arith, tt)))

-- A periodic timer that has been started.
abbrev ticking : Timer
ticking = record {
  running = false;
  func = some 7;
  deadline = 100;
  periodic = true;
  joinable = true;
}

run-act_all_example :
    ((run_single (101 ∷ 201 ∷ []) ticking).ended ≡ false)
    × ((run_single (101 ∷ 201 ∷ []) ticking).calls ≡ [])
    × (stop (101 ∷ 201 ∷ []) ticking ≡ joining)
    × ((at millisec : ℕ) → restart (101 ∷ 201 ∷ []) at millisec ticking ≡ joining)
unfolding act_all act start stop notify
run-act_all_example =
    run-act_all (to_notify 7 ∷ to_stop [] ∷ to_start 0 100 true ∷ []) false 0 101 (201 ∷ []) ticking
      refl
