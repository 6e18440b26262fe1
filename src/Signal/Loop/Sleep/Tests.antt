-- ===== src/Signal/Loop/Sleep/Tests.antt =====
-- The thread of a `br_threaded_object` at work.
use brutils.Base.{◌≡◌, refl, true, false, [], ◌∷◌}
use brutils.Signal.Loop.Sleep.{Sleeper, asleep, tested, own_moves, add_event, destroy, is_over}
use brutils.Signal.Loop.Sleep.Wakeups.{AllRun, add_event-AllRun, own_moves-tested}

abbrev two_events : Sleeper
two_events = record { event_list = 1 ∷ 2 ∷ []; running = true; place = asleep; ran = [] }

add_event-AllRun_example : AllRun 6 (1 ∷ 2 ∷ 3 ∷ []) [] (add_event 3 two_events)
add_event-AllRun_example = add_event-AllRun 3 two_events refl tt

abbrev about_to_sleep : Sleeper
about_to_sleep = record two_events { event_list = []; place = tested }

own_moves-tested_example :
    ((own_moves 9 (add_event 3 about_to_sleep)).ran ≡ [])
    × ((own_moves 9 (add_event 3 about_to_sleep)).event_list ≡ 3 ∷ [])
    × (is_over (own_moves 9 (destroy about_to_sleep)).place ≡ false)
own_moves-tested_example = own_moves-tested 9 3 about_to_sleep refl
