-- ===== src/QueuePc/Consumers/Tests.antt =====
-- Consumers of include/brutils/queue_pc.h at work.
use brutils.Base.{ℕ, ◌≡◌, refl, none, some, List, [], ◌∷◌, arith}
use brutils.QueuePc.Consumers.{
  Hall, new_hall, Move, pushes, enters, wakes, pops, stops, notifies, run, run_alone,
}
use brutils.QueuePc.Consumers.Waiting.{IsAlone, IsLeft, stop-IsLeft, run_alone-new_hall}

-- An item and two consumers that are let in for it.
abbrev two_consumers : List (Move ℕ)
two_consumers = pushes 5 ∷ enters ∷ enters ∷ pops ∷ pops ∷ []

two_consumers-none : run two_consumers new_hall ≡ none
unfolding run
two_consumers-none = refl

abbrev two_asleep : Hall ℕ
two_asleep = record new_hall { asleep = 2 }

stop-IsLeft_example :
    (h : Hall ℕ) × (run (stops ∷ notifies ∷ wakes ∷ enters ∷ []) two_asleep ≡ some h) × IsLeft 1 h
stop-IsLeft_example = stop-IsLeft (wakes ∷ enters ∷ []) two_asleep (omega arith) (refl, (refl, tt))

run_alone-new_hall_example : (h : Hall ℕ) × (run_alone two_consumers new_hall ≡ some h) × IsAlone h
run_alone-new_hall_example = run_alone-new_hall two_consumers
