-- ===== src/Signal/Loop/Turns.antt =====
-- Rounds of the event loop of include/brutils/br_object.h over events that run slots, and over deliveries.
use mathlib.Core.List.{map, map-append}
use brutils.Base.{
  ℕ, zero, suc, ◌+◌, ◌≡◌, refl, sym, ap, ◌∙◌, true, List, [], ◌∷◌, ◌++◌, append-nil, append_assoc,
  length, drop, ◌==◌, arith, subst,
}
use brutils.Signal.{Store, update}
use brutils.Signal.Emit.{
  Effect, called, invoke, deliver, done, Ready, Housed, call_direct_connections-Ready,
  call_queued_connections-Housed,
}
use brutils.Signal.Loop.{
  Machine, push_event, take_effect, run_event, finish_event, turn, run, Waiting, Ran,
}

pub run-add :
    (n k a t : ℕ) (w : Store) (m : Machine) → run (n + k) a t w m ≡ run k a t w (run n a t w m)
unfolding run
run-add zero k a t w m =
    let count : zero + k ≡ k = omega arith in ap (λ (i : ℕ). run i a t w m) count
run-add (suc n) k a t w m =
    let count : suc n + k ≡ suc (n + k) = omega arith in
    ap (λ (i : ℕ). run i a t w m) count ∙ run-add n k a t w (turn a t w m)

pub Ran-trans :
    (a t : ℕ) (ss ss' : List ℕ) (es es' : List Effect) (m m' m'' : Machine)
    → Ran a t ss es m m'
    → Ran a t ss' es' m' m''
    → Ran a t (ss ++ ss') es' m m''
Ran-trans a t ss ss' es es' m m' m'' (wait, calls) (wait', calls') = (
  wait',
  calls'
      ∙ ap (λ l. l ++ map (λ s. (t, s)) ss') calls
      ∙ append_assoc m.calls (map (λ s. (t, s)) ss) (map (λ s. (t, s)) ss')
      ∙ ap (λ l. m.calls ++ l) (sym (map-append (λ s. (t, s)) ss ss')),
)

pub turn-invoke :
    (a t s : ℕ) (es : List Effect) (w : Store) (m : Machine)
    → Waiting a (invoke a s ∷ es) m
    → (w.slots s).has_function ≡ true
    → Ran a t (s ∷ []) es m (turn a t w m)
unfolding turn run_event finish_event take_effect
turn-invoke a t s es w m (alive, runs, queue) ready = ground arith

pub run-invoke :
    (a t : ℕ) (ss : List ℕ) (es : List Effect) (w : Store) (m : Machine)
    → Waiting a (map (invoke a) ss ++ es) m
    → Ready w ss
    → Ran a t ss es m (run (length ss) a t w m)
unfolding run
run-invoke a t [] es w m wait h = (wait, sym (append-nil m.calls))
run-invoke a t (s ∷ ss) es w m wait h =
    Ran-trans a t (s ∷ []) ss (map (invoke a) ss ++ es) es m (turn a t w m)
      (run (length ss) a t w (turn a t w m))
      (turn-invoke a t s (map (invoke a) ss ++ es) w m wait h.0)
      (run-invoke a t ss es w (turn a t w m)
        (turn-invoke a t s (map (invoke a) ss ++ es) w m wait h.0).0 h.1)

-- Calls and events that a run makes on the thread `t`, with queued events for the object at `a` itself.
take_effect-called :
    (t : ℕ) (ss : List ℕ) (es : List Effect) (m : Machine)
    → take_effect t (map called ss ++ es) m
      ≡ take_effect t es (record m { calls = m.calls ++ map (λ s. (t, s)) ss })
unfolding take_effect
take_effect-called t [] es m =
    ap (λ l. take_effect t es (record m { calls = l })) (sym (append-nil m.calls))
take_effect-called t (s ∷ ss) es m =
    take_effect-called t ss es (record m { calls = m.calls ++ (t, s) ∷ [] })
    ∙ ap (λ l. take_effect t es (record m { calls = l }))
        (append_assoc m.calls ((t, s) ∷ []) (map (λ s. (t, s)) ss))

take_effect-invoke :
    (a t : ℕ) (ss : List ℕ) (es : List Effect) (m : Machine)
    → Waiting a es m
    → let m' = take_effect t (map (invoke a) ss) m in
      Waiting a (es ++ map (invoke a) ss) m' × (m'.calls ≡ m.calls)
unfolding take_effect push_event
take_effect-invoke a t [] es m (alive, runs, queue) =
    ((alive, runs, queue ∙ sym (append-nil es)), refl)
take_effect-invoke a t (s ∷ ss) es m (alive, runs, queue) =
    let same : (a == a) ≡ true = ground arith in
    let pushed : Waiting a (es ++ invoke a s ∷ []) (push_event a (invoke a s) m) =
      (alive, runs, ground arith) in
    let ((alive', runs', queue'), calls') =
      take_effect-invoke a t ss (es ++ invoke a s ∷ []) (push_event a (invoke a s) m) pushed in
    ((alive', runs', queue' ∙ append_assoc es (invoke a s ∷ []) (map (invoke a) ss)), calls')

deliver-done :
    (a g : ℕ) (w : Store)
    → Ready w (w.signals g).direct_connections
    → Housed (λ s. a) w (w.signals g).queued_connections
    → run_event w (deliver a g)
      ≡ done (
          map called (w.signals g).direct_connections
          ++ map (invoke a) (w.signals g).queued_connections)
unfolding run_event
deliver-done a g w ready housed = ground (
  arith,
  call_direct_connections-Ready w (w.signals g).direct_connections ready,
  call_queued_connections-Housed (λ s. a) w (w.signals g).queued_connections housed,
)

turn-finish_event :
    (a t : ℕ) (e : Effect) (es : List Effect) (w : Store) (m : Machine)
    → Waiting a (e ∷ es) m
    → turn a t w m ≡ finish_event a t (run_event w e) m
unfolding turn
turn-finish_event a t e es w m (alive, runs, queue) = ground arith

finish_event-done :
    (a t : ℕ) (ss qs : List ℕ) (e : Effect) (es : List Effect) (m : Machine)
    → Waiting a (e ∷ es) m
    → Ran a t ss
        (es ++ map (invoke a) qs)
        m
        (finish_event a t (done (map called ss ++ map (invoke a) qs)) m)
unfolding finish_event
finish_event-done a t ss qs e es m (alive, runs, queue) =
    let with_calls : Machine = record m { calls = m.calls ++ map (λ s. (t, s)) ss } in
    let ((alive', runs', queue'), calls') =
      take_effect-invoke a t qs (e ∷ es) with_calls (alive, runs, queue) in
    let same : (a == a) ≡ true = ground arith in
    subst
      (λ m'.
        Ran a t ss (es ++ map (invoke a) qs) m
          (record m' { event_list = update m'.event_list a (drop 1 (m'.event_list a)) }))
      (sym (take_effect-called t ss (map (invoke a) qs) m))
      ((alive', runs', rw same (ap (drop 1) queue')), calls')

pub turn-deliver :
    (a t g : ℕ) (es : List Effect) (w : Store) (m : Machine)
    → Waiting a (deliver a g ∷ es) m
    → Ready w (w.signals g).direct_connections
    → Housed (λ s. a) w (w.signals g).queued_connections
    → Ran a t
        (w.signals g).direct_connections
        (es ++ map (invoke a) (w.signals g).queued_connections)
        m
        (turn a t w m)
turn-deliver a t g es w m wait ready housed =
    let step : turn a t w m
        ≡ finish_event a t
            (done (
              map called (w.signals g).direct_connections
              ++ map (invoke a) (w.signals g).queued_connections))
            m =
      turn-finish_event a t (deliver a g) es w m wait
      ∙ ap (λ r. finish_event a t r m) (deliver-done a g w ready housed) in
    subst
      (Ran a t (w.signals g).direct_connections
        (es ++ map (invoke a) (w.signals g).queued_connections) m)
      (sym step)
      (finish_event-done a t (w.signals g).direct_connections (w.signals g).queued_connections
        (deliver a g) es m wait)
