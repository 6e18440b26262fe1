-- ===== src/ThreadPool/Worker.antt =====
-- src/brutils/Thread/Thread.cpp: a thread that executes the functions that others give it, through a
-- signal and a slot of its own. Functions are numbers.
use brutils.Base.{
  ℕ, ◌≡◌, ◌≢◌, refl, ap, ◌∙◌, Bool, true, false, Option, none, some, List, [], ◌∷◌, ◌++◌, ◌==◌,
  if◌then◌else◌, ◌⊎◌, inl, inr, arith, append_assoc, append-nil, sym,
}
use brutils.Signal.{Store, Signal, Slot, auto, connect, connection_type, signal_connected, update}
use brutils.Signal.Emit.{
  called, deliver, Run, done, emit, call, call_direct_connections, call_queued_connections,
}
use brutils.Signal.Object.{BrObject, threaded, get_thread_id, get_root_object, add_event}

-- The addresses of a `Thread`, of its signal `_newExecutionReceived` and of its slot `_executor`, and the
-- id of its thread.
pub record Places : Type 0 where
  pub object : ℕ
  pub thread_id : ℕ
  pub new_execution_received : ℕ
  pub executor : ℕ

abbrev pub own_object : Places → Option BrObject
own_object p = some (threaded p.object p.thread_id)

-- The constructor, on the thread `current`: the signal and the slot have the thread itself as parent.
unfoldable pub thread : ℕ → Places → Store → Store
unfolding connect
thread current p w =
    let g : Signal = record {
      parent = own_object p;
      direct_connections = [];
      queued_connections = [];
    } in
    let s : Slot = record { has_function = true; parent = own_object p; connected_signals = [] } in
    connect current p.new_execution_received p.executor auto record {
      signals = update w.signals p.new_execution_received g;
      slots = update w.slots p.executor s;
    }

-- Which slot `execute` calls, or which event it leaves to the thread.
unfoldable pub execute_effects : ℕ → Places → Store → Run
unfolding emit
execute_effects current p w = emit current p.new_execution_received w

-- A new thread's signal is connected directly, whoever has made it: `execute` on the thread itself calls
-- the slot at once, and on another thread it puts one event into the thread's queue.
thread-execute :
    (maker current : ℕ) (p : Places) (w : Store)
    → execute_effects current p (thread maker p w)
      ≡ done (
          if current == p.thread_id
          then called p.executor ∷ []
          else deliver p.object p.new_execution_received ∷ [])
unfolding execute_effects thread emit connect connection_type signal_connected
    call_direct_connections call_queued_connections call get_thread_id get_root_object add_event
thread-execute maker current p w = ground arith

-- The state of a `Thread`: its flag, and the functions whose events wait in its queue.
pub record Thread : Type 0 where
  pub busy : Bool
  pub functions : List ℕ

abbrev pub new_thread : Thread
new_thread = record { busy = true; functions = [] }

-- A function that is called, with what `isBusy` says meanwhile, and `finishedExecuting`.
pub data Happening : Type 0 where
  executes : ℕ → Bool → Happening
  finished_executing : ℕ → Happening

unfoldable pub is_busy : Thread → Bool
is_busy t = t.busy

unfoldable pub executor_slot : Places → ℕ → Thread → Thread × List Happening
executor_slot p f t =
    let t' : Thread = record t { busy = true } in
    (record t' { busy = false }, executes f t'.busy ∷ finished_executing p.thread_id ∷ [])

-- `execute`, on the thread `current`.
unfoldable pub execute : ℕ → ℕ → Places → Store → Thread → Thread × List Happening
unfolding execute_effects executor_slot
execute current f p w t = elim (execute_effects current p w).effects [
  | [] ↦ (t, [])
  | ◌∷◌ e es ↦ elim e [
    | called s ↦ executor_slot p f t
    | _ ↦ (record t { functions = t.functions ++ f ∷ [] }, [])
  ]
]

-- A round of the thread's loop. An event has references to the parameters of an `emit` that has
-- returned, so that its function is read where there is none any more: `none`.
unfoldable pub turn : Thread → Option Thread
turn t = elim t.functions [ [] ↦ some t | ◌∷◌ f fs ↦ none ]

-- What comes to a thread: `execute` on a thread, and rounds of its loop.
pub data Act : Type 0 where
  given : ℕ → ℕ → Act
  turns : Act

unfoldable pub run : List Act → Places → Store → Thread → Option (Thread × List Happening)
unfolding execute turn
run [] p w t = some (t, [])
run (given current f ∷ acts) p w t =
    let s = execute current f p w t in
    elim (run acts p w s.0) [ none ↦ none | some r ↦ some (r.0, s.1 ++ r.1) ]
run (turns ∷ acts) p w t = elim (turn t) [ none ↦ none | some t' ↦ run acts p w t' ]

-- The functions that come, and whether they all come from other threads.
abbrev pub functions_of : List Act → List ℕ
functions_of [] = []
functions_of (given current f ∷ acts) = f ∷ functions_of acts
functions_of (turns ∷ acts) = functions_of acts

abbrev pub FromElsewhere : ℕ → List Act → Type 0
FromElsewhere thread_id [] = Unit {0}
FromElsewhere thread_id (given current f ∷ acts) =
    ((current == thread_id) ≡ false) × FromElsewhere thread_id acts
FromElsewhere thread_id (turns ∷ acts) = FromElsewhere thread_id acts

execute-elsewhere :
    (maker current f : ℕ) (p : Places) (w : Store) (t : Thread)
    → (current == p.thread_id) ≡ false
    → execute current f p (thread maker p w) t
      ≡ (record t { functions = t.functions ++ f ∷ [] }, [])
unfolding execute
execute-elsewhere maker current f p w t elsewhere =
    ap
      (λ r. elim r.effects [
        | [] ↦ (t, [])
        | ◌∷◌ e es ↦ elim e [
          | called s ↦ executor_slot p f t
          | _ ↦ (record t { functions = t.functions ++ f ∷ [] }, [])
        ]
      ])
      (thread-execute maker current p w)
    ∙ rw elsewhere refl

-- Nothing has been executed, and the functions wait; or something undefined has happened.
HasWaited : List ℕ → Option (Thread × List Happening) → Type 0
HasWaited fs o = (o ≡ none) ⊎ (o ≡ some (record { busy = true; functions = fs }, []))

run-HasWaited :
    (acts : List Act) (maker : ℕ) (p : Places) (w : Store) (fs : List ℕ)
    → FromElsewhere p.thread_id acts
    → HasWaited
        (fs ++ functions_of acts)
        (run acts p (thread maker p w) (record { busy = true; functions = fs }))
unfolding HasWaited run turn
run-HasWaited [] maker p w fs h =
    inr (ap (λ l. some (record { busy = true; functions = l }, [])) (sym (append-nil fs)))
run-HasWaited (given current f ∷ acts) maker p w fs (e, h) =
    let gave = execute-elsewhere maker current f p w (record { busy = true; functions = fs }) e in
    let moved : (fs ++ f ∷ []) ++ functions_of acts ≡ fs ++ f ∷ functions_of acts =
      append_assoc fs (f ∷ []) (functions_of acts) in
    elim (run-HasWaited acts maker p w (fs ++ f ∷ []) h) [
      | inl e' ↦ inl (ground (arith, gave, e'))
      | inr e' ↦ inr (ground (arith, gave, e', moved))
    ]
run-HasWaited (turns ∷ acts) maker p w [] h = run-HasWaited acts maker p w [] h
run-HasWaited (turns ∷ acts) maker p w (f ∷ fs) h = inl refl

-- A new thread, whoever has made it, whatever functions other threads give it and however many rounds
-- its loop makes in between: it calls no function. Either a round takes up a function, which is
-- undefined and for which one must have been given; or it still says that it is busy, as it has said from
-- the start, and all functions wait in their order.
pub run-new_thread :
    (acts : List Act) (maker : ℕ) (p : Places) (w : Store)
    → FromElsewhere p.thread_id acts
    → ((run acts p (thread maker p w) new_thread ≡ none) × (functions_of acts ≢ []))
      ⊎ (run acts p (thread maker p w) new_thread
          ≡ some (record { busy = true; functions = functions_of acts }, []))
unfolding run HasWaited
run-new_thread acts maker p w h = elim (run-HasWaited acts maker p w [] h) [
  | inl e ↦ inl (e, λ empty. ground (arith, e, idle acts empty))
  | inr e ↦ inr e
]
  where
    idle :
        (as' : List Act)
        → functions_of as' ≡ []
        → run as' p (thread maker p w) new_thread ≡ some (new_thread, [])
    idle [] e = refl
    idle (given current f ∷ as') e = absurd (ground (arith, e))
    idle (turns ∷ as') e = idle as' e
