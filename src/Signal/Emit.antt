-- ===== src/Signal/Emit.antt =====
-- `emit` of include/brutils/br_object.h: which slots run, what goes to which object's event queue,
-- and the exceptions on the way. A slot's function is the user's: that it is called is recorded.
use mathlib.Core.List.{map}
use brutils.Base.{
  ℕ, ◌≡◌, refl, true, false, Option, none, some, List, [], ◌∷◌, ◌++◌, arith, ◌==◌, if◌then◌else◌,
}
use brutils.Signal.Object.{
  BrObject, orphan, child, threaded, get_thread_id, get_root_object, add_event,
  get_thread_id-get_root_object,
}
use brutils.Signal.{Slot, Store, connection_type, connect, auto}

-- `called s`: slot `s` runs now, on the current thread. `invoke a s` and `deliver a g`: an event that
-- will run slot `s`, or all connections of signal `g`, is in the queue of the object at `a`.
pub data Effect : Type 0 where
  called : ℕ → Effect
  invoke : ℕ → ℕ → Effect
  deliver : ℕ → ℕ → Effect

pub data Exception : Type 0 where
  not_initialized no_parent bad_function_call : Exception

pub record Run : Type 0 where
  pub effects : List Effect
  pub thrown : Option Exception

abbrev pub done : List Effect → Run
done es = record { effects = es; thrown = none }

abbrev pub throw : Exception → Run
throw e = record { effects = []; thrown = some e }

-- Sequencing: an exception skips what follows.
abbrev pub then_run : Run → Run → Run
then_run r k = elim r.thrown [
  | none ↦ record { effects = r.effects ++ k.effects; thrown = k.thrown }
  | some e ↦ r
]

unfoldable pub call : ℕ → Slot → Run
call s slot = if slot.has_function then done (called s ∷ []) else throw not_initialized

post : Option ℕ → (ℕ → Effect) → Run
post none event = throw no_parent
post (some a) event = done (event a ∷ [])

unfoldable pub add_event_to_parent : ℕ → Slot → Run
unfolding post add_event get_root_object
add_event_to_parent s slot = elim slot.parent [
  | none ↦ done []
  | some p ↦ post (add_event (get_root_object p)) (λ a. invoke a s)
]

unfoldable pub call_direct_connections : Store → List ℕ → Run
unfolding call
call_direct_connections w [] = done []
call_direct_connections w (s ∷ ss) = then_run (call s (w.slots s)) (call_direct_connections w ss)

unfoldable pub call_queued_connections : Store → List ℕ → Run
unfolding add_event_to_parent
call_queued_connections w [] = done []
call_queued_connections w (s ∷ ss) =
    then_run (add_event_to_parent s (w.slots s)) (call_queued_connections w ss)

unfoldable pub emit : ℕ → ℕ → Store → Run
unfolding post
emit current g w =
    let direct_calls = call_direct_connections w (w.signals g).direct_connections in
    let queued_calls = call_queued_connections w (w.signals g).queued_connections in
    elim (w.signals g).parent [
      | none ↦ direct_calls
      | some p ↦
          if current == get_thread_id current p
          then then_run direct_calls queued_calls
          else post (add_event (get_root_object p)) (λ a. deliver a g)
    ]

-- Every slot of the list has its function.
abbrev pub Ready : Store → List ℕ → Type 0
Ready w [] = Unit {0}
Ready w (s ∷ ss) = ((w.slots s).has_function ≡ true) × Ready w ss

-- The object at the root runs a thread, and `a` is its address.
abbrev pub RunsAt : Slot → ℕ → Type 0
RunsAt slot a = (p : BrObject) × (slot.parent ≡ some p) × (add_event (get_root_object p) ≡ some a)

-- Every slot of the list lives in a threaded object; `home` says at which address.
abbrev pub Housed : (ℕ → ℕ) → Store → List ℕ → Type 0
Housed home w [] = Unit {0}
Housed home w (s ∷ ss) = RunsAt (w.slots s) (home s) × Housed home w ss

pub call_direct_connections-Ready :
    (w : Store) (ss : List ℕ) → Ready w ss → call_direct_connections w ss ≡ done (map called ss)
unfolding call_direct_connections
call_direct_connections-Ready w [] h = refl
call_direct_connections-Ready w (s ∷ ss) h =
    rw (call_direct_connections-Ready w ss h.1) (ground arith)

pub call_queued_connections-Housed :
    (home : ℕ → ℕ) (w : Store) (ss : List ℕ)
    → Housed home w ss
    → call_queued_connections w ss ≡ done (map (λ s. invoke (home s) s) ss)
unfolding call_queued_connections
call_queued_connections-Housed home w [] h = refl
call_queued_connections-Housed home w (s ∷ ss) h =
    rw (call_queued_connections-Housed home w ss h.1) (ground (arith, h.0))

-- Off the thread of the parent there is a threaded root: the queue is always there.
add_event_elsewhere :
    (current : ℕ) (p : BrObject)
    → (current == get_thread_id current p) ≡ false
    → (a : ℕ) × (add_event (get_root_object p) ≡ some a)
unfolding get_thread_id add_event get_root_object
add_event_elsewhere current (orphan a) h = absurd (ground arith)
add_event_elsewhere current (child a p) h = add_event_elsewhere current p h
add_event_elsewhere current (threaded a t) h = (a, refl)

-- On its parent's thread, a signal whose direct slots have functions and whose queued slots live in
-- threaded objects calls each direct slot once, in order, then puts one event for each queued slot
-- into the queue of the slot's own object, in order, and throws nothing.
emit-same_thread :
    (current g : ℕ) (w : Store) (p : BrObject) (home : ℕ → ℕ)
    → (w.signals g).parent ≡ some p
    → get_thread_id current p ≡ current
    → Ready w (w.signals g).direct_connections
    → Housed home w (w.signals g).queued_connections
    → emit current g w
      ≡ done (
          map called (w.signals g).direct_connections
          ++ map (λ s. invoke (home s) s) (w.signals g).queued_connections)
unfolding emit
emit-same_thread current g w p home e t ready housed = ground (
  arith,
  call_direct_connections-Ready w (w.signals g).direct_connections ready,
  call_queued_connections-Housed home w (w.signals g).queued_connections housed,
)

-- From any other thread, an emission runs no slot and throws nothing: it puts one event, which
-- delivers the signal, into the queue of the threaded object at the root of the signal's parent.
pub emit-other_thread :
    (current g : ℕ) (w : Store) (p : BrObject)
    → (w.signals g).parent ≡ some p
    → (current == get_thread_id current p) ≡ false
    → (a : ℕ) × (add_event (get_root_object p) ≡ some a)
      × (emit current g w ≡ done (deliver a g ∷ []))
unfolding emit
emit-other_thread current g w p e t =
    let (a, found) = add_event_elsewhere current p t in (a, found, ground arith)

call_direct_connections-not_initialized :
    (w : Store) (xs : List ℕ) (s : ℕ) (ys : List ℕ)
    → Ready w xs
    → (w.slots s).has_function ≡ false
    → call_direct_connections w (xs ++ s ∷ ys)
      ≡ record { effects = map called xs; thrown = some not_initialized }
unfolding call_direct_connections
call_direct_connections-not_initialized w [] s ys h e = ground arith
call_direct_connections-not_initialized w (x ∷ xs) s ys h e =
    rw (call_direct_connections-not_initialized w xs s ys h.1 e) (ground arith)

-- On its parent's thread, or without a parent, a signal with a direct slot that has no function calls
-- the direct slots before it and then throws: the direct slots behind it and all queued slots get
-- nothing.
emit-not_initialized :
    (current g : ℕ) (w : Store) (xs : List ℕ) (s : ℕ) (ys : List ℕ)
    → ((p : BrObject) → (w.signals g).parent ≡ some p → get_thread_id current p ≡ current)
    → (w.signals g).direct_connections ≡ xs ++ s ∷ ys
    → Ready w xs
    → (w.slots s).has_function ≡ false
    → emit current g w ≡ record { effects = map called xs; thrown = some not_initialized }
unfolding emit
emit-not_initialized current g w xs s ys on_thread e ready missing = go (w.signals g).parent refl
  where
    go :
        (o : Option BrObject)
        → (w.signals g).parent ≡ o
        → emit current g w ≡ record { effects = map called xs; thrown = some not_initialized }
    go none o = ground (arith, call_direct_connections-not_initialized w xs s ys ready missing)
    go (some p) o =
        ground
          (arith, call_direct_connections-not_initialized w xs s ys ready missing, on_thread p o)

-- An `Auto` connection between objects of threads `t` and `u`, with no other connection of the signal
-- and a slot that has its function, makes the slot run on its own thread: emitted on `t`, the signal
-- calls the slot at once if `u` is `t`, and else puts one event into the queue of the slot's object.
-- It does not matter on which thread the connection was made.
pub emit-connect_auto :
    (maker g s a t b u : ℕ) (p q : BrObject) (w : Store)
    → (w.signals g).parent ≡ some p
    → (w.slots s).parent ≡ some q
    → get_root_object p ≡ threaded a t
    → get_root_object q ≡ threaded b u
    → (w.slots s).has_function ≡ true
    → (w.signals g).direct_connections ≡ []
    → (w.signals g).queued_connections ≡ []
    → emit t g (connect maker g s auto w) ≡ done (if t == u then called s ∷ [] else invoke b s ∷ [])
unfolding emit connect connection_type call_direct_connections call_queued_connections
emit-connect_auto maker g s a t b u p q w ep eq rp rq f d e =
    ground (arith, get_thread_id-get_root_object t p)
