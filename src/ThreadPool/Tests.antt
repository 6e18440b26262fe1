-- ===== src/ThreadPool/Tests.antt =====
-- A pool of src/brutils/Thread/ThreadPool.cpp at work.
use brutils.Base.{List, true, false, none, some, ◌≢◌, ◌⊎◌, ◌≡◌, refl, [], ◌∷◌, length}
use brutils.ThreadPool.{
  ThreadPool, ok, member, empty_pool, Event, to_execute, timed_out, finished, run,
}
use brutils.ThreadPool.Runs.{run-empty_pool}
use brutils.ThreadPool.Worker.{
  Places, thread, new_thread, given, turns, Act, functions_of, run-new_thread, run as run_thread,
}
use brutils.Timers.Combined.{CombinedTimer}
use brutils.Signal.{Store}

abbrev no_timers : CombinedTimer
no_timers = record { last_timer_id = 0; time_keeper_map = []; stopped = true }

-- Three functions for a pool of two threads, and the end of an execution.
abbrev three_functions : List Event
three_functions =
    to_execute 101 1 ∷ to_execute 102 2 ∷ finished 40 1 ∷ to_execute 103 3 ∷ timed_out 0 ∷ []

run-empty_pool_example :
    (p : ThreadPool) × (run three_functions (empty_pool 30000 2 no_timers) ≡ ok p)
    × (p.idle_thread_map ≡ [])
    × (length p.busy_thread_map ≡ 2)
    × (p.function_buffer ≡ 103 ∷ [])
unfolding member
run-empty_pool_example = run-empty_pool three_functions 30000 2 no_timers (refl, (refl, (refl, tt)))

abbrev one_thread : Places
one_thread = record { object = 10; thread_id = 7; new_execution_received = 1; executor = 2 }

abbrev no_signals : Store
no_signals = record {
  signals = λ g. record { parent = none; direct_connections = []; queued_connections = [] };
  slots = λ s. record { has_function = false; parent = none; connected_signals = [] };
}

abbrev two_given : List Act
two_given = turns ∷ given 3 101 ∷ given 4 102 ∷ []

run-new_thread_example :
    ((run_thread two_given one_thread (thread 3 one_thread no_signals) new_thread ≡ none)
      × (functions_of two_given ≢ []))
    ⊎ (run_thread two_given one_thread (thread 3 one_thread no_signals) new_thread
        ≡ some (record { busy = true; functions = 101 ∷ 102 ∷ [] }, []))
run-new_thread_example = run-new_thread two_given 3 one_thread no_signals (refl, (refl, tt))
