-- ===== src/Signal/Loop.antt =====
-- The event loop of `br_threaded_object` in include/brutils/br_object.h, with the queues that `emit` fills.
pub mod Turns
pub mod Delivery
pub mod Sleep
use mathlib.Core.List.{map, map-append}
use brutils.Base.{
  ℕ, zero, suc, ◌+◌, ◌≡◌, refl, sym, ap, ◌∙◌, Bool, true, false, Option, none, some, List, [], ◌∷◌,
  ◌++◌, append-nil, append_assoc, length, drop, ◌==◌, if◌then◌else◌, arith, subst,
}
use brutils.Signal.{Store, Slot, update}
use brutils.Signal.Object.{
  BrObject, threaded, add_event, get_root_object, get_thread_id, get_thread_id-get_root_object,
}
use brutils.Signal.Emit.{
  Effect, called, invoke, deliver, Run, done, throw, bad_function_call, then_run,
  call_direct_connections, call_queued_connections, emit, Ready, Housed, emit-other_thread,
  call_direct_connections-Ready, call_queued_connections-Housed,
}

-- The queues of the threaded objects by address, whether their loops still run, the calls of slots so
-- far with the threads that made them, whether the program is broken, by an exception that has ended it
-- or by something undefined, and whether the signals, which are of one type, have parameters.
pub record Machine : Type 0 where
  pub event_list : ℕ → List Effect
  pub running : ℕ → Bool
  pub calls : List (ℕ × ℕ)
  pub broken : Bool
  pub with_parameters : Bool

-- `addEvent` of `br_threaded_object`.
unfoldable pub push_event : ℕ → Effect → Machine → Machine
push_event a e m = record m { event_list = update m.event_list a (m.event_list a ++ e ∷ []) }

-- The effects of an emission on the thread `t`.
unfoldable pub take_effect : ℕ → List Effect → Machine → Machine
unfolding push_event
take_effect t [] m = m
take_effect t (called s ∷ es) m = take_effect t es (record m { calls = m.calls ++ (t, s) ∷ [] })
take_effect t (invoke a s ∷ es) m = take_effect t es (push_event a (invoke a s) m)
take_effect t (deliver a g ∷ es) m = take_effect t es (push_event a (deliver a g) m)

-- What an event without parameters does when it runs. Calls are no events, and no queue has one.
unfoldable pub run_event : Store → Effect → Run
run_event w (called s) = done []
run_event w (invoke a s) =
    if (w.slots s).has_function then done (called s ∷ []) else throw bad_function_call
run_event w (deliver a g) =
    then_run (call_direct_connections w (w.signals g).direct_connections)
      (call_queued_connections w (w.signals g).queued_connections)

-- The event at the front runs, and is taken out after it.
unfoldable pub finish_event : ℕ → ℕ → Run → Machine → Machine
unfolding take_effect
finish_event a t r m =
    let m' = take_effect t r.effects m in
    elim r.thrown [
      | none ↦ record m' { event_list = update m'.event_list a (drop 1 (m'.event_list a)) }
      | some e ↦ record m' { broken = true }
    ]

-- A round of `run` of the object at `a`, whose thread is `t`. With no event it waits. An event has
-- references to the parameters of a call that has returned: if there are any, running it is undefined.
unfoldable pub turn : ℕ → ℕ → Store → Machine → Machine
unfolding run_event finish_event
turn a t w m =
    if m.broken
    then m
    else if m.running a
    then (elim (m.event_list a) [
      | [] ↦ m
      | ◌∷◌ e es ↦
          if m.with_parameters
          then record m { broken = true }
          else finish_event a t (run_event w e) m
    ])
    else m

unfoldable pub run : ℕ → ℕ → ℕ → Store → Machine → Machine
unfolding turn
run zero a t w m = m
run (suc n) a t w m = run n a t w (turn a t w m)

-- The destructor ends the loop, and the thread has been joined after it.
unfoldable pub destroy : ℕ → Machine → Machine
destroy a m = record m { running = update m.running a false }

-- Events that wait when the object is destroyed never run.
run-destroy : (n a t : ℕ) (w : Store) (m : Machine) → run n a t w (destroy a m) ≡ destroy a m
unfolding run turn destroy
run-destroy zero a t w m = refl
run-destroy (suc n) a t w m =
    let stopped : turn a t w (destroy a m) ≡ destroy a m = ground arith in
    ap (run n a t w) stopped ∙ run-destroy n a t w m

-- The signals have no parameters, the loop of the object at `a` runs, and its queue holds the events.
abbrev pub Waiting : ℕ → List Effect → Machine → Type 0
Waiting a es m =
    ((m.broken ≡ false) × (m.with_parameters ≡ false))
    × (m.running a ≡ true)
    × (m.event_list a ≡ es)

-- It has done so, and it has made more calls, on its thread `t`, than `m` had.
abbrev pub Ran : ℕ → ℕ → List ℕ → List Effect → Machine → Machine → Type 0
Ran a t ss es m m' = Waiting a es m' × (m'.calls ≡ m.calls ++ map (λ s. (t, s)) ss)
