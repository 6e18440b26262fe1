-- ===== src/QueuePc/Tests.antt =====
-- Queues of include/brutils/queue_pc.h at work.
use brutils.Base.{ℕ, ◌≡◌, true, false, none, List, [], ◌∷◌, length, ◌⊎◌}
use brutils.QueuePc.{Queue, Action, pushes, waits, pops, run, covered, FirstInFirstOut, run-fifo}

abbrev one_item : Queue ℕ
one_item = record { items = 1 ∷ []; stopped = false }

abbrev day : List (Action ℕ)
day = waits ∷ pops ∷ waits ∷ pushes 2 ∷ pushes 3 ∷ waits ∷ pops ∷ []

run-fifo_example :
    ((covered (length one_item.items) day ≡ true) × FirstInFirstOut day one_item (run day one_item))
    ⊎ ((covered (length one_item.items) day ≡ false) × (run day one_item ≡ none))
run-fifo_example = run-fifo day one_item
