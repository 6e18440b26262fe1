-- ===== src/Timers/Single.antt =====
-- include/brutils/timers/timer.h: a timer with its own thread. Times are numbers of milliseconds.
use brutils.Base.{
  ℕ, ◌+◌, ◌≡◌, refl, Bool, true, false, not, ◌&&◌, ◌||◌, Option, none, some, List, [], ◌∷◌, ltb,
  if◌then◌else◌, arith, Bool-cases, inl, inr, subst, ◌∙◌, ap,
}

-- `func` is the number of the function that `notify` sets; `joinable` says whether `_thread` has a thread
-- that has not been joined.
pub record Timer : Type 0 where
  pub running : Bool
  pub func : Option ℕ
  pub deadline : ℕ
  pub periodic : Bool
  pub joinable : Bool

abbrev pub new_timer : Bool → ℕ → Timer
new_timer unset date = record {
  running = false;
  func = none;
  deadline = date;
  periodic = unset;
  joinable = false;
}

-- What the thread has done: whether its loop has ended, and the functions that it has called, in order; `none`
-- is the exception of an empty function.
pub record Done : Type 0 where
  pub ended : Bool
  pub calls : List (Option ℕ)

-- The rounds of `run`, with the times at which its waits look at the clock.
unfoldable pub run : List ℕ → Timer → Done
run [] t = record { ended = false; calls = [] }
run (now ∷ times) t =
    let once : Timer = record t { running = false } in
    let waits = run times t in
    let again = run times (if t.periodic then t else once) in
    if ltb t.deadline now || not t.running
    then (if t.running
        then (if t.periodic
            then record again { calls = t.func ∷ again.calls }
            else record { ended = true; calls = t.func ∷ [] })
        else if t.periodic
        then again
        else record { ended = true; calls = [] })
    else waits

-- What a call ends with. `joining`: it still waits for the thread to end. `terminated`: a `std::thread` has
-- been assigned to that had a thread, which ends the program.
pub data Outcome : Type 0 where
  returned : Timer → Outcome
  joining terminated : Outcome

unfoldable pub start : ℕ → ℕ → Bool → Timer → Outcome
start now millisec periodic t =
    if t.joinable
    then terminated
    else returned (record t { periodic = periodic; deadline = now + millisec; joinable = true })

-- With the times at which the waits of the thread look at the clock until the call ends or is looked at.
unfoldable pub stop : List ℕ → Timer → Outcome
unfolding run
stop times t =
    let t' : Timer = record t { running = false } in
    if t.joinable
    then if (run times t').ended then returned (record t' { joinable = false }) else joining
    else returned t'

unfoldable pub restart : List ℕ → ℕ → ℕ → Timer → Outcome
unfolding start stop
restart times now millisec t = elim (stop times t) [
  | returned t' ↦ start now millisec false t'
  | joining ↦ joining
  | terminated ↦ terminated
]

unfoldable pub notify : ℕ → Timer → Outcome
notify f t = returned (record t { func = some f })

pub data Action : Type 0 where
  to_start : ℕ → ℕ → Bool → Action
  to_restart : List ℕ → ℕ → ℕ → Action
  to_stop : List ℕ → Action
  to_notify : ℕ → Action

unfoldable pub act : Action → Timer → Outcome
unfolding start stop restart notify
act (to_start now millisec periodic) t = start now millisec periodic t
act (to_restart times now millisec) t = restart times now millisec t
act (to_stop times) t = stop times t
act (to_notify f) t = notify f t

-- Calls one after the other; none comes after one that does not return.
unfoldable pub act_all : List Action → Timer → Outcome
unfolding act
act_all [] t = returned t
act_all (a ∷ as') t = elim (act a t) [
  | returned t' ↦ act_all as' t'
  | joining ↦ joining
  | terminated ↦ terminated
]

run-stopped :
    (now : ℕ) (times : List ℕ) (t : Timer)
    → t.running ≡ false
    → ((run (now ∷ times) t).ended ≡ not t.periodic) × ((run (now ∷ times) t).calls ≡ [])
unfolding run
run-stopped now [] t e = ground arith
run-stopped now (next ∷ times) t e = ground (arith, run-stopped next times t e)

-- A stopped timer is what a call that returns leaves.
Stopped : Outcome → Type 0
Stopped (returned t) = t.running ≡ false
Stopped joining = Unit {0}
Stopped terminated = Unit {0}

start-Stopped :
    (now millisec : ℕ) (periodic : Bool) (t : Timer)
    → t.running ≡ false
    → Stopped (start now millisec periodic t)
unfolding start Stopped
start-Stopped now millisec periodic t e = elim (Bool-cases t.joinable) [
  | inl j ↦ rw j tt
  | inr j ↦ rw j e
]

stop-Stopped : (times : List ℕ) (t : Timer) → Stopped (stop times t)
unfolding stop Stopped
stop-Stopped times t = either t.joinable (run times (record t { running = false })).ended
  where
    either :
        (joins ends : Bool)
        → Stopped (
            if joins
            then if ends then returned (record t { running = false; joinable = false }) else joining
            else returned (record t { running = false }))
    either true true = refl
    either true false = tt
    either false ends = refl

-- What comes after a call.
and_then : (Timer → Outcome) → Outcome → Outcome
and_then f o = elim o [ returned t ↦ f t | joining ↦ joining | terminated ↦ terminated ]

and_then-Stopped :
    (f : Timer → Outcome) (o : Outcome)
    → ((t : Timer) → t.running ≡ false → Stopped (f t))
    → Stopped o
    → Stopped (and_then f o)
unfolding and_then Stopped
and_then-Stopped f (returned t) h e = h t e
and_then-Stopped f joining h e = tt
and_then-Stopped f terminated h e = tt

act-Stopped : (a : Action) (t : Timer) → t.running ≡ false → Stopped (act a t)
unfolding act restart notify Stopped and_then
act-Stopped (to_start now millisec periodic) t e = start-Stopped now millisec periodic t e
act-Stopped (to_restart times now millisec) t e =
    and_then-Stopped (start now millisec false) (stop times t) (start-Stopped now millisec false)
      (stop-Stopped times t)
act-Stopped (to_stop times) t e = stop-Stopped times t
act-Stopped (to_notify f) t e = e

act_all-Stopped : (as' : List Action) (t : Timer) → t.running ≡ false → Stopped (act_all as' t)
unfolding act_all Stopped and_then
act_all-Stopped [] t e = e
act_all-Stopped (a ∷ as') t e =
    and_then-Stopped (act_all as') (act a t) (λ t' e'. act_all-Stopped as' t' e')
      (act-Stopped a t e)

-- The end of a call of `stop` that begins with the timer `t`.
stopped_to : Timer → Outcome
stopped_to t =
    if t.joinable && t.periodic
    then joining
    else returned (record t { running = false; joinable = false })

stop-stopped_to : (now : ℕ) (times : List ℕ) (t : Timer) → stop (now ∷ times) t ≡ stopped_to t
unfolding stop stopped_to
stop-stopped_to now times t = by_thread t.joinable refl
  where
    t' : Timer
    t' = record t { running = false }

    none_left : Timer
    none_left = record t { running = false; joinable = false }

    either :
        (b : Bool)
        → (if not b then returned none_left else joining)
          ≡ (if b then joining else returned none_left)
    either true = refl
    either false = refl

    by_thread :
        (b : Bool)
        → t.joinable ≡ b
        → (if b
            then if (run (now ∷ times) t').ended then returned none_left else joining
            else returned t')
          ≡ (if b && t.periodic then joining else returned none_left)
    by_thread true j =
        ap (λ c. if c then returned none_left else joining) (run-stopped now times t' refl).0
        ∙ either t.periodic
    by_thread false j = ap (λ c. returned (record t' { joinable = c })) j

-- A timer, after whatever calls of its functions that have all returned, and one or more rounds of its
-- thread then: no function is called, and the loop of the thread has ended, in the first round, just
-- when the timer is not periodic. If a thread of a periodic timer has not been joined, `stop` and
-- `restart` wait for it, however many rounds it makes; else both return, `stop` with no thread left and
-- `restart` with a new one, whose timer is not periodic.
pub run-act_all :
    (as' : List Action) (unset : Bool) (date now : ℕ) (times : List ℕ) (t : Timer)
    → act_all as' (new_timer unset date) ≡ returned t
    → ((run (now ∷ times) t).ended ≡ not t.periodic)
      × ((run (now ∷ times) t).calls ≡ [])
      × (stop (now ∷ times) t ≡ (
          if t.joinable && t.periodic
          then joining
          else returned (record t { running = false; joinable = false })))
      × ((at millisec : ℕ)
          → restart (now ∷ times) at millisec t ≡ (
              if t.joinable && t.periodic
              then joining
              else returned record {
                running = false;
                func = t.func;
                deadline = at + millisec;
                periodic = false;
                joinable = true;
              }))
unfolding restart start Stopped and_then stopped_to
run-act_all as' unset date now times t e =
    let stopped : t.running ≡ false =
      subst Stopped e (act_all-Stopped as' (new_timer unset date) refl) in
    let (ended, calls) = run-stopped now times t stopped in
    let stops = stop-stopped_to now times t in
    (
      ended,
      calls,
      stops,
      λ at millisec.
          ap (and_then (start at millisec false)) stops
          ∙ either at millisec (t.joinable && t.periodic),
    )
  where
    either :
        (at millisec : ℕ) (b : Bool)
        → and_then
            (start at millisec false)
            (if b then joining else returned (record t { running = false; joinable = false }))
          ≡ (if b
              then joining
              else returned record {
                running = false;
                func = t.func;
                deadline = at + millisec;
                periodic = false;
                joinable = true;
              })
    either at millisec true = refl
    either at millisec false = refl
