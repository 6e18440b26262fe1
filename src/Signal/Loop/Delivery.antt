-- ===== src/Signal/Loop/Delivery.antt =====
-- From `emit` to the calls of the slots in the event loop of include/brutils/br_object.h.
use mathlib.Core.List.{map}
use brutils.Base.{
  ℕ, zero, suc, Bool-cases, ◌⊎◌, inl, inr, ◌+◌, ◌≡◌, refl, sym, ap, ◌∙◌, true, false, some, List,
  [], ◌∷◌, ◌++◌, append-nil, length, ◌==◌, arith, subst,
}
use brutils.Signal.{Store}
use brutils.Signal.Object.{
  BrObject, threaded, add_event, get_root_object, get_thread_id, get_thread_id-get_root_object,
}
use brutils.Signal.Emit.{invoke, deliver, done, emit, Ready, Housed, emit-other_thread}
use brutils.Signal.Loop.{Machine, push_event, take_effect, turn, run, Waiting, Ran}
use brutils.Signal.Loop.Turns.{run-add, Ran-trans, run-invoke, turn-deliver}

-- Behind events that run slots, a delivery and the slots that it queues: the loop runs them all.
run-deliver :
    (a t g : ℕ) (ss : List ℕ) (w : Store) (m : Machine)
    → Waiting a (map (invoke a) ss ++ deliver a g ∷ []) m
    → Ready w ss
    → Ready w (w.signals g).direct_connections
    → Ready w (w.signals g).queued_connections
    → Housed (λ s. a) w (w.signals g).queued_connections
    → Ran a t
        (ss ++ (w.signals g).direct_connections ++ (w.signals g).queued_connections)
        []
        m
        (run (length ss + (1 + length (w.signals g).queued_connections)) a t w m)
unfolding run
run-deliver a t g ss w m wait pending direct queued housed =
    let ds = (w.signals g).direct_connections in
    let qs = (w.signals g).queued_connections in
    let first = run (length ss) a t w m in
    let second = turn a t w first in
    let until_delivery = run-invoke a t ss (deliver a g ∷ []) w m wait pending in
    let delivery = turn-deliver a t g [] w first until_delivery.0 direct housed in
    let waits : Waiting a (map (invoke a) qs ++ []) second =
      (delivery.0.0, delivery.0.1, delivery.0.2 ∙ sym (append-nil (map (invoke a) qs))) in
    let rest = run-invoke a t qs [] w second waits queued in
    let counts : run (length ss + (1 + length qs)) a t w m ≡ run (length qs) a t w second =
      run-add (length ss) (1 + length qs) a t w m ∙ one_more (length qs) first in
    subst (Ran a t (ss ++ ds ++ qs) [] m) (sym counts) (
      Ran-trans a t (ss ++ ds) qs (map (invoke a) qs) [] m second (run (length qs) a t w second)
        (Ran-trans a t ss ds (deliver a g ∷ []) (map (invoke a) qs) m first second until_delivery
          delivery)
        rest)
  where
    one_more : (n : ℕ) (m' : Machine) → run (1 + n) a t w m' ≡ run n a t w (turn a t w m')
    one_more n m' = let count : 1 + n ≡ suc n = omega arith in ap (λ (i : ℕ). run i a t w m') count

emitted-deliver :
    (current a t g : ℕ) (p : BrObject) (w : Store)
    → (w.signals g).parent ≡ some p
    → get_root_object p ≡ threaded a t
    → (current == t) ≡ false
    → emit current g w ≡ done (deliver a g ∷ [])
unfolding get_thread_id add_event
emitted-deliver current a t g p w parent root elsewhere =
    let thread : get_thread_id current p ≡ t =
      sym (get_thread_id-get_root_object current p) ∙ ap (get_thread_id current) root in
    let (b, queue, emitted) =
      emit-other_thread current g w p parent (ap (λ u. current == u) thread ∙ elsewhere) in
    let address : b ≡ a = ground (arith, queue, root) in
    emitted ∙ ap (λ c. done (deliver c g ∷ [])) address

-- Nothing is said of what comes after something undefined.
run-broken :
    (n a t : ℕ) (w : Store) (m : Machine)
    → run n a t w (record m { broken = true }) ≡ record m { broken = true }
unfolding run turn
run-broken zero a t w m = refl
run-broken (suc n) a t w m = run-broken n a t w m

-- The first round with an event is undefined if the signals have parameters.
run-with_parameters :
    (n a t g : ℕ) (ss : List ℕ) (w : Store) (m : Machine)
    → m.broken ≡ false
    → m.running a ≡ true
    → m.event_list a ≡ map (invoke a) ss ++ deliver a g ∷ []
    → m.with_parameters ≡ true
    → run (suc n) a t w m ≡ record m { broken = true }
unfolding run turn
run-with_parameters n a t g [] w m alive runs queue given =
    let first : turn a t w m ≡ record m { broken = true } = ground arith in
    ap (run n a t w) first ∙ run-broken n a t w m
run-with_parameters n a t g (s ∷ ss) w m alive runs queue given =
    let first : turn a t w m ≡ record m { broken = true } = ground arith in
    ap (run n a t w) first ∙ run-broken n a t w m

-- A signal whose parent's root is a threaded object, emitted on another thread while that object's
-- loop runs and its queue holds only events that run slots: the emission itself calls no slot. What
-- the loop has done when it has made as many rounds as there were events, one more, and one for each
-- queued slot, depends on the type of the signals. If they have no parameters, the loop has called, on its own thread
-- and in this order, the slots of those events, all direct slots of the signal and all its queued
-- slots; its queue is empty and no exception was thrown. If they have parameters, the loop has called
-- no slot: its first round has read parameters that are gone, which is undefined. All slots have
-- functions, and the queued slots live under the same root.
pub emit-run :
    (current a t g : ℕ) (p : BrObject) (ss : List ℕ) (w : Store) (m : Machine)
    → (w.signals g).parent ≡ some p
    → get_root_object p ≡ threaded a t
    → (current == t) ≡ false
    → m.broken ≡ false
    → m.running a ≡ true
    → m.event_list a ≡ map (invoke a) ss
    → Ready w ss
    → Ready w (w.signals g).direct_connections
    → Ready w (w.signals g).queued_connections
    → Housed (λ s. a) w (w.signals g).queued_connections
    → let m' = take_effect current (emit current g w).effects m in
      let rounds = length ss + (1 + length (w.signals g).queued_connections) in
      (m'.calls ≡ m.calls)
      × (((m.with_parameters ≡ false)
            × Ran a t
                (ss ++ (w.signals g).direct_connections ++ (w.signals g).queued_connections)
                []
                m'
                (run rounds a t w m'))
          ⊎ ((m.with_parameters ≡ true) × (run rounds a t w m' ≡ record m' { broken = true })))
unfolding take_effect push_event
emit-run current a t g p ss w m parent root elsewhere alive runs queue pending direct queued
      housed =
    let emitted : emit current g w ≡ done (deliver a g ∷ []) =
      emitted-deliver current a t g p w parent root elsewhere in
    let same : (a == a) ≡ true = ground arith in
    let qs = (w.signals g).queued_connections in
    let after = push_event a (deliver a g) m in
    let queue' : after.event_list a ≡ map (invoke a) ss ++ deliver a g ∷ [] =
      rw same (ap (λ l. l ++ deliver a g ∷ []) queue) in
    let count : length ss + (1 + length qs) ≡ suc (length ss + length qs) = omega arith in
    subst
      (λ r.
        let m' = take_effect current r.effects m in
        (m'.calls ≡ m.calls)
        × (((m.with_parameters ≡ false)
              × Ran a t (ss ++ (w.signals g).direct_connections ++ qs) [] m'
                  (run (length ss + (1 + length qs)) a t w m'))
            ⊎ ((m.with_parameters ≡ true)
                × (run (length ss + (1 + length qs)) a t w m' ≡ record m' { broken = true }))))
      (sym emitted)
      (
        refl,
        (elim (Bool-cases m.with_parameters) [
          | inl given ↦ inr (
            given,
            ap (λ (n : ℕ). run n a t w after) count
                ∙ run-with_parameters (length ss + length qs) a t g ss w after alive runs queue'
                    given,
          )
          | inr bare ↦ inl (
            bare,
            run-deliver a t g ss w after ((alive, bare), runs, queue') pending direct queued housed,
          )
        ]),
      )
