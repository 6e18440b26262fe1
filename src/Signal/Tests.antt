-- ===== src/Signal/Tests.antt =====
-- Objects, signals and slots of include/brutils/br_object.h at work.
use brutils.Base.{
  ℕ, ◌+◌, ◌≡◌, ◌≢◌, refl, sym, ap, ◌⊎◌, true, false, ◌&&◌, none, some, [], ◌∷◌, ◌==◌, if◌then◌else◌,
}
use brutils.Signal.{
  Store, auto, direct, queued, connect, connection_type, disconnect,
  remove_this_from_connected_signals,
}
use brutils.Signal.Emit.{invoke, done, emit, emit-connect_auto}
use brutils.Signal.Loop.{Machine, take_effect, run, Ran}
use brutils.Signal.Loop.Delivery.{emit-run}
use brutils.Signal.Links.{
  count, held, listed, Linked, connect-Linked, disconnect-Linked,
  remove_this_from_connected_signals-Linked,
}
use brutils.Signal.Object.{BrObject, child, threaded, add_event, get_root_object, get_thread_id}

-- Two objects under roots with threads 1 and 2.
abbrev window : BrObject
window = child 11 (threaded 10 1)

abbrev worker : BrObject
worker = threaded 20 2

-- Signals belong to the window. Slot 5 is the worker's, slot 9 has no function.
abbrev quiet : Store
quiet = record {
  signals = λ g. record { parent = some window; direct_connections = []; queued_connections = [] };
  slots = λ s. record {
    has_function = if s == 9 then false else true;
    parent = some (if s == 5 then worker else window);
    connected_signals = [];
  };
}

abbrev busy : Store
busy = connect 1 0 5 auto (connect 1 0 3 auto quiet)

quiet-Linked : Linked quiet
unfolding count
quiet-Linked g s = refl

busy-Linked : Linked busy
busy-Linked =
    (connect-Linked 1 0 5 auto (connect 1 0 3 auto quiet)
      (connect-Linked 1 0 3 auto quiet quiet-Linked).0).0

connect-Linked_example :
    Linked (connect 1 0 3 auto quiet)
    × ((g' s' : ℕ)
        → listed g' s' (connect 1 0 3 auto quiet)
          ≡ listed g' s' quiet + (if 0 == g' && 3 == s' then 1 else 0))
connect-Linked_example = connect-Linked 1 0 3 auto quiet quiet-Linked

disconnect-Linked_example :
    Linked (disconnect 0 busy)
    × ((s : ℕ) → held 0 s (disconnect 0 busy) ≡ 0)
    × ((g' : ℕ) → g' ≢ 0 → (disconnect 0 busy).signals g' ≡ busy.signals g')
disconnect-Linked_example = disconnect-Linked 0 busy busy-Linked

remove_this_from_connected_signals-Linked_example :
    ((g : ℕ) → listed g 5 (remove_this_from_connected_signals 5 busy) ≡ 0)
    × ((g s' : ℕ)
        → s' ≢ 5
        → (listed g s' (remove_this_from_connected_signals 5 busy) ≡ listed g s' busy)
          × (held g s' (remove_this_from_connected_signals 5 busy) ≡ listed g s' busy))
remove_this_from_connected_signals-Linked_example =
    remove_this_from_connected_signals-Linked 5 busy busy-Linked

-- The worker is at address 20.
abbrev home : ℕ → ℕ
home s = 20

abbrev mute : Store
mute = connect 1 0 4 direct (connect 1 0 9 direct (connect 1 0 3 direct quiet))

mute-on_thread : (p : BrObject) → (mute.signals 0).parent ≡ some p → get_thread_id 1 p ≡ 1
unfolding connect get_thread_id connection_type
mute-on_thread p e = ap (λ o. elim o [ none ↦ 1 | some q ↦ get_thread_id 1 q ]) (sym e)

emit-connect_auto_example : emit 1 0 (connect 2 0 5 auto quiet) ≡ done (invoke 20 5 ∷ [])
unfolding get_root_object
emit-connect_auto_example =
    emit-connect_auto 2 0 5 10 1 20 2 window worker quiet refl refl refl refl refl refl refl

-- One slot of each kind in the window, whose loop has an event for a third.
abbrev both : Store
both = connect 1 0 4 queued (connect 1 0 3 direct quiet)

abbrev one_event : Machine
one_event = record {
  event_list = λ a. if a == 10 then invoke 10 6 ∷ [] else [];
  running = λ a. true;
  calls = [];
  broken = false;
  with_parameters = false;
}

emit-run_example :
    let m' = take_effect 2 (emit 2 0 both).effects one_event in
    (m'.calls ≡ [])
    × (((false ≡ false) × Ran 10 1 (6 ∷ 3 ∷ 4 ∷ []) [] m' (run (1 + (1 + 1)) 10 1 both m'))
        ⊎ ((false ≡ true) × (run (1 + (1 + 1)) 10 1 both m' ≡ record m' { broken = true })))
unfolding connect connection_type get_root_object add_event
emit-run_example =
    emit-run 2 10 1 0 window (6 ∷ []) both one_event refl refl refl refl refl refl (refl, tt)
      (refl, tt) (refl, tt) ((window, refl, refl), tt)
