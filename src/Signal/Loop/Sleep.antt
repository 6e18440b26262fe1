-- ===== src/Signal/Loop/Sleep.antt =====
-- The thread of a `br_threaded_object` in include/brutils/br_object.h, move by move: `run` holds the mutex
-- from its test to its sleep and while an event runs; `addEvent` and the destructor do not take it. Events
-- are numbers.
pub mod Wakeups
mod Tests
use brutils.Base.{
  ℕ, zero, suc, ◌+◌, ◌*◌, ◌≤◌, ◌≡◌, ◌≢◌, refl, sym, subst, ap, ◌∙◌, Bool, true, false, List, [],
  ◌∷◌, ◌++◌, append_assoc, append-nil, length, length-append, arith, if◌then◌else◌,
}

-- Where the thread is: before the test of `_running`, with the mutex before the test of the predicate and
-- behind it, asleep, woken up but still without the mutex, or at its end.
pub data Place : Type 0 where
  looping testing tested asleep woken over : Place

pub record Sleeper : Type 0 where
  pub event_list : List ℕ
  pub running : Bool
  pub place : Place
  pub ran : List ℕ

-- The constructor.
abbrev pub new_sleeper : Sleeper
new_sleeper = record { event_list = []; running = true; place = looping; ran = [] }

-- A move of the thread.
unfoldable pub own : Sleeper → Sleeper
own w = elim w.place [
  | looping ↦ record w { place = if w.running then testing else over }
  | testing ↦ elim w.event_list [
    | ◌∷◌ e es ↦ record w { event_list = es; ran = w.ran ++ e ∷ []; place = looping }
    | [] ↦ record w { place = if w.running then tested else looping }
  ]
  | tested ↦ record w { place = asleep }
  | asleep ↦ w
  | woken ↦ record w { place = testing }
  | over ↦ w
]

unfoldable pub own_moves : ℕ → Sleeper → Sleeper
unfolding own
own_moves zero w = w
own_moves (suc n) w = own_moves n (own w)

-- `notify_one`, and `notify_all` for the one thread that there is.
unfoldable pub notify : Sleeper → Sleeper
notify w = elim w.place [ asleep ↦ record w { place = woken } | _ ↦ w ]

unfoldable pub add_event : ℕ → Sleeper → Sleeper
unfolding notify
add_event e w = notify (record w { event_list = w.event_list ++ e ∷ [] })

-- The destructor, up to the end of the thread.
unfoldable pub destroy : Sleeper → Sleeper
unfolding notify
destroy w = if w.running then notify (record w { running = false }) else w

-- The destructor's `join` returns.
unfoldable pub is_over : Place → Bool
is_over over = true
is_over _ = false
