-- ===== src/Timers/Keeper/Thread/Tests.antt =====
-- The thread of src/brutils/timers/TimeKeeper.cpp at work.
use brutils.Base.{◌≡◌, ◌≢◌, true, false, none, List, [], ◌∷◌, arith, refl, some, if◌then◌else◌}
use brutils.Timers.Keeper.{
  TimeRecord, TimeKeeper, add_record, endless, closest_of, find_record, get_closest_record,
}
use brutils.Timers.Keeper.Book.{NoneBefore}
use brutils.Timers.Keeper.Thread.{
  looping, entered, tested, Runner, new_runner, stop, is_over, Move, moves, adds, cancels,
  stops_running, notifies, move_all,
}
use brutils.Timers.Keeper.Thread.Rounds.{own_run, at_place, stays_awake, own_run-due}
use brutils.Timers.Keeper.Ids.{IsBounded}
use brutils.Timers.Keeper.Thread.Bounded.{move_all-IsBounded}
use brutils.Timers.Keeper.Thread.Awake.{IsAwake, move_all-IsAwake}
use brutils.Timers.Keeper.Thread.Stopping.{own_all, stop-over, stop-lost}

-- The thread goes to sleep, a record is added, the thread sleeps until its end, and another comes.
abbrev two_records : List Move
two_records =
    moves 0
    ∷ moves 1
    ∷ moves 2
    ∷ moves 3
    ∷ adds 10 500 (0 ∷ [])
    ∷ moves 11
    ∷ moves 12
    ∷ moves 13
    ∷ moves 14
    ∷ moves 15
    ∷ moves 16
    ∷ moves 17
    ∷ adds 20 100 (1 ∷ [])
    ∷ cancels 0
    ∷ stops_running
    ∷ notifies
    ∷ []

move_all-IsAwake_example :
    let w = move_all two_records new_runner in
    IsAwake w.place w.keeper.notification w.keeper.record_book
move_all-IsAwake_example = move_all-IsAwake two_records

move_all-IsBounded_example :
    let t = (move_all two_records new_runner).keeper in
    IsBounded t × (add_record false 600 700 [] t ≢ endless)
move_all-IsBounded_example = move_all-IsBounded two_records 600 700 []

stop-over_example : is_over (own_all (1 ∷ 2 ∷ 3 ∷ 4 ∷ []) (stop new_runner)).place ≡ true
stop-over_example = stop-over new_runner 1 2 3 4 [] tt

-- The book is empty, and the thread is about to sleep.
abbrev about_to_sleep : Runner
about_to_sleep = record new_runner { place = tested none }

stop-lost_example : is_over (own_all (1 ∷ 2 ∷ 3 ∷ 4 ∷ []) (stop about_to_sleep)).place ≡ false
stop-lost_example = stop-lost about_to_sleep (1 ∷ 2 ∷ 3 ∷ 4 ∷ []) tt

abbrev one_record : TimeKeeper
one_record = record {
  last_record_id = 1;
  notification = false;
  record_book =
      (0, record { id = 0; duration = 100; interval = record { start = 0; end = 100 } }) ∷ [];
}

abbrev only_record : TimeRecord
only_record = record { id = 0; duration = 100; interval = record { start = 0; end = 100 } }

own_run-due_example :
    let (sent, w) =
      own_run
        (if stays_awake 2 one_record then 1 ∷ 2 ∷ [] else 1 ∷ 2 ∷ 3 ∷ 101 ∷ [])
        (at_place one_record entered) in
    (r : TimeRecord) × (sent ≡ r ∷ [])
    × (find_record r.id one_record.record_book ≡ some r)
    × NoneBefore r.interval.end one_record.record_book
    × (find_record r.id w.keeper.record_book ≡ none)
    × (w.keeper.notification ≡ false)
    × (w.place ≡ looping)
unfolding closest_of stays_awake get_closest_record find_record
own_run-due_example =
    own_run-due 1 2 3 101 0 one_record only_record (refl, refl, tt) refl (omega arith)
