-- ===== src/ThreadPool.antt =====
-- src/brutils/Thread/ThreadPool.cpp: which threads are busy or idle, their timers, and the functions that
-- wait. Functions and threads are numbers; the map entries stand in the order in which they came.
pub mod Worker
pub mod Starved
pub mod Runs
mod Tests
use brutils.Base.{
  ℕ, zero, suc, ◌+◌, Bool, true, false, Option, none, some, List, [], ◌∷◌, ◌++◌, length, ltb, ◌==◌,
  if◌then◌else◌,
}
use brutils.Timers.Combined.{CombinedTimer, add_timer, stop_timer}

pub data ThreadPoolErrorCode : Type 0 where
  no_error unknown_thread_id unknown_timer_id busy_thread_resource : ThreadPoolErrorCode

-- `busy` has the flag `_busy` of each `Thread`. Of an error only the code is kept.
pub record ThreadPool : Type 0 where
  pub timeout_duration : ℕ
  pub max_thread_count : ℕ
  pub function_buffer : List ℕ
  pub thread_id_timer_id : ℕ → Option ℕ
  pub timer_id_thread_id : ℕ → Option ℕ
  pub busy_thread_map : List ℕ
  pub idle_thread_map : List ℕ
  pub busy : ℕ → Bool
  pub timer : CombinedTimer
  pub error : ThreadPoolErrorCode

-- `undefined`: a reference is used after what it refers to is gone.
pub data Outcome : Type 0 where
  ok : ThreadPool → Outcome
  undefined : Outcome

abbrev pub store {ℓ} : {A : Type ℓ} → ℕ → A → (ℕ → A) → ℕ → A
store k v t j = if k == j then v else t j

unfoldable pub member : ℕ → List ℕ → Bool
member t [] = false
member t (u ∷ ts) = if t == u then true else member t ts

unfoldable pub erase_thread : ℕ → List ℕ → List ℕ
erase_thread t [] = []
erase_thread t (u ∷ ts) = if t == u then ts else u ∷ erase_thread t ts

-- `map[t] = …`
unfoldable pub insert_thread : ℕ → List ℕ → List ℕ
unfolding member
insert_thread t ts = if member t ts then ts else ts ++ t ∷ []

abbrev pub empty_pool : ℕ → ℕ → CombinedTimer → ThreadPool
empty_pool timeout_duration max timer = record {
  timeout_duration = timeout_duration;
  max_thread_count = max;
  function_buffer = [];
  thread_id_timer_id = λ t. none;
  timer_id_thread_id = λ n. none;
  busy_thread_map = [];
  idle_thread_map = [];
  busy = λ t. true;
  timer = timer;
  error = no_error;
}

unfoldable pub start_timer_by_thread_id : ℕ → ℕ → ThreadPool → ThreadPool
unfolding add_timer
start_timer_by_thread_id now t p =
    let (n, timer) = add_timer now p.timeout_duration false p.timer in
    record p {
      timer = timer;
      timer_id_thread_id = store n (some t) p.timer_id_thread_id;
      thread_id_timer_id = store t (some n) p.thread_id_timer_id;
    }

unfoldable pub stop_timer_by_thread_id : ℕ → ThreadPool → ThreadPool
unfolding stop_timer
stop_timer_by_thread_id t p = elim (p.thread_id_timer_id t) [
  | none ↦ p
  | some n ↦ elim (p.timer_id_thread_id n) [
    | none ↦ p
    | some u ↦ record p {
      timer = (stop_timer n p.timer).1;
      thread_id_timer_id = store t none p.thread_id_timer_id;
      timer_id_thread_id = store n none p.timer_id_thread_id;
    }
  ]
]

-- `execute` of the function `f`; `t` is the id that a new thread would get, and its flag is set. An idle
-- thread is used through a reference to its entry, which has been erased.
unfoldable pub execute : ℕ → ℕ → ThreadPool → Outcome
unfolding insert_thread
execute f t p = elim p.idle_thread_map [
  | ◌∷◌ idle rest ↦ undefined
  | [] ↦
      if ltb (length p.busy_thread_map) p.max_thread_count
      then ok (record p {
        busy_thread_map = insert_thread t p.busy_thread_map;
        busy = store t true p.busy;
      })
      else ok (record p { function_buffer = p.function_buffer ++ f ∷ [] })
]

unfoldable pub timer_timeout : ℕ → ThreadPool → ThreadPool
unfolding erase_thread
timer_timeout n p = elim (p.timer_id_thread_id n) [
  | none ↦ record p { error = unknown_timer_id }
  | some t ↦ record p {
    timer_id_thread_id = store n none p.timer_id_thread_id;
    thread_id_timer_id = store t none p.thread_id_timer_id;
    idle_thread_map = erase_thread t p.idle_thread_map;
  }
]

-- A waiting function is used through a reference to the front of the queue, which has been popped.
unfoldable pub execution_finished : ℕ → ℕ → ThreadPool → Outcome
unfolding member erase_thread insert_thread start_timer_by_thread_id
execution_finished now t p =
    if member t p.busy_thread_map
    then (if p.busy t
        then ok (record p { error = busy_thread_resource })
        else elim p.function_buffer [
          | ◌∷◌ f fs ↦ undefined
          | [] ↦ ok (
              start_timer_by_thread_id now t (record p {
                idle_thread_map = insert_thread t p.idle_thread_map;
                busy_thread_map = erase_thread t p.busy_thread_map;
              }))
        ])
    else ok (record p { error = unknown_thread_id })

-- What can come to a pool: a function to execute, a timeout, or the end of an execution.
pub data Event : Type 0 where
  to_execute : ℕ → ℕ → Event
  timed_out : ℕ → Event
  finished : ℕ → ℕ → Event

unfoldable pub handle : Event → ThreadPool → Outcome
unfolding execute timer_timeout execution_finished
handle (to_execute f t) p = execute f t p
handle (timed_out n) p = ok (timer_timeout n p)
handle (finished now t) p = execution_finished now t p

unfoldable pub run : List Event → ThreadPool → Outcome
unfolding handle
run [] p = ok p
run (e ∷ es) p = elim (handle e p) [ ok p' ↦ run es p' | undefined ↦ undefined ]
