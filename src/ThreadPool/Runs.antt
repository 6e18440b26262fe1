-- ===== src/ThreadPool/Runs.antt =====
-- What becomes of the functions that are given to a pool of src/brutils/Thread/ThreadPool.cpp.
use brutils.Base.{
  ℕ, suc, ◌+◌, ◌-◌, ◌≤◌, ◌≡◌, refl, sym, ap, ◌∙◌, Bool, true, false, List, [], ◌∷◌, ◌++◌,
  append_assoc, append-nil, length, drop, drop-nil, ltb, if◌then◌else◌, arith, Bool-cases, inl, inr,
  subst,
}
use brutils.Timers.Combined.{CombinedTimer}
use brutils.ThreadPool.{
  ThreadPool, Outcome, ok, undefined, member, empty_pool, execute, timer_timeout, Event, to_execute,
  timed_out, finished, handle, run,
}
use brutils.ThreadPool.Starved.{
  Starved, Keeps, Keeps-Starved, timer_timeout-Keeps, execution_finished-Starved, member-append,
  with_thread, with_function, execute-Starved, with_thread-Starved,
}

abbrev pub functions : List Event → List ℕ
functions [] = []
functions (to_execute f t ∷ es) = f ∷ functions es
functions (timed_out n ∷ es) = functions es
functions (finished now t ∷ es) = functions es

-- The ids that new threads would get are not among `ts`, and differ.
abbrev pub NewThreads : List ℕ → List Event → Type 0
NewThreads ts [] = Unit {0}
NewThreads ts (to_execute f t ∷ es) = (member t ts ≡ false) × NewThreads (ts ++ t ∷ []) es
NewThreads ts (timed_out n ∷ es) = NewThreads ts es
NewThreads ts (finished now t ∷ es) = NewThreads ts es

abbrev pub least : ℕ → ℕ → ℕ
least a b = if ltb a b then a else b

-- What a pool with `p`'s threads and functions is after the events.
Result : List Event → ThreadPool → Outcome → Type 0
Result es p undefined = ⊥
Result es p (ok p') =
    (p'.idle_thread_map ≡ [])
    × (length p'.busy_thread_map
        ≡ least (length p.busy_thread_map + length (functions es)) p.max_thread_count)
    × (p'.function_buffer
        ≡ p.function_buffer ++ drop (p.max_thread_count - length p.busy_thread_map) (functions es))

Result-Keeps :
    (es : List Event) (p p' : ThreadPool) (o : Outcome)
    → Keeps p p'
    → Result es p' o
    → Result es p o
unfolding Result
Result-Keeps es p p' undefined keeps r = r
Result-Keeps es p p' (ok q) (max, threads, buffer) (idle, count, rest) = (
  idle,
  count
      ∙ ap (λ l. least (length l + length (functions es)) p'.max_thread_count) threads
      ∙ ap (λ (m : ℕ). least (length p.busy_thread_map + length (functions es)) m) max,
  rest
      ∙ ap (λ b. b ++ drop (p'.max_thread_count - length p'.busy_thread_map) (functions es)) buffer
      ∙ ap (λ l. p.function_buffer ++ drop (p'.max_thread_count - length l) (functions es)) threads
      ∙ ap (λ (m : ℕ). p.function_buffer ++ drop (m - length p.busy_thread_map) (functions es)) max,
)

Result-with_thread :
    (f t : ℕ) (es : List Event) (p : ThreadPool) (o : Outcome)
    → length (with_thread t p).busy_thread_map ≡ suc (length p.busy_thread_map)
    → ltb (length p.busy_thread_map) p.max_thread_count ≡ true
    → Result es (with_thread t p) o
    → Result (to_execute f t ∷ es) p o
unfolding Result
Result-with_thread f t es p undefined longer room r = r
Result-with_thread f t es p (ok q) longer room (idle, count, rest) = (
  idle,
  ground (arith, count, longer),
  rest
      ∙ sym (ap (λ (n : ℕ). p.function_buffer ++ drop n (f ∷ functions es)) (one_less room longer)),
)
  where
    one_less :
        ltb (length p.busy_thread_map) p.max_thread_count ≡ true
        → length (with_thread t p).busy_thread_map ≡ suc (length p.busy_thread_map)
        → p.max_thread_count - length p.busy_thread_map
          ≡ suc (p.max_thread_count - length (with_thread t p).busy_thread_map)
    one_less r l = ground arith

Result-with_function :
    (f t : ℕ) (es : List Event) (p : ThreadPool) (o : Outcome)
    → length p.busy_thread_map ≤ p.max_thread_count
    → ltb (length p.busy_thread_map) p.max_thread_count ≡ false
    → Result es (with_function f p) o
    → Result (to_execute f t ∷ es) p o
unfolding Result
Result-with_function f t es p undefined bound full r = r
Result-with_function f t es p (ok q) bound full (idle, count, rest) = (
  idle,
  ground (arith, count),
  rest
      ∙ ap (λ (n : ℕ). (p.function_buffer ++ f ∷ []) ++ drop n (functions es)) (none_left full)
      ∙ append_assoc p.function_buffer (f ∷ []) (functions es)
      ∙ sym (ap (λ (n : ℕ). p.function_buffer ++ drop n (f ∷ functions es)) (none_left full)),
)
  where
    none_left :
        ltb (length p.busy_thread_map) p.max_thread_count ≡ false
        → p.max_thread_count - length p.busy_thread_map ≡ 0
    none_left e = ground arith

run-Result :
    (es : List Event) (ts : List ℕ) (p : ThreadPool)
    → Starved ts p
    → NewThreads ts es
    → Result es p (run es p)
unfolding run handle Result
run-Result [] ts p (idle, set, bound, known) new = (
  idle,
  ground arith,
  (sym (append-nil p.function_buffer)
      ∙ sym (
          ap (λ l. p.function_buffer ++ l)
            (drop-nil (p.max_thread_count - length p.busy_thread_map)))),
)
run-Result (timed_out n ∷ es) ts p h new =
    let (idle, flags, keeps) = timer_timeout-Keeps n p h.0 in
    Result-Keeps es p (timer_timeout n p) (run es (timer_timeout n p)) keeps (
      run-Result es ts (timer_timeout n p)
        (Keeps-Starved ts p (timer_timeout n p) h idle flags keeps) new)
run-Result (finished now t ∷ es) ts p h new =
    let (p', e, starved, keeps) = execution_finished-Starved now t ts p h in
    subst (λ o. Result es p (elim o [ ok q ↦ run es q | undefined ↦ undefined ])) (sym e)
      (Result-Keeps es p p' (run es p') keeps (run-Result es ts p' starved new))
run-Result (to_execute f t ∷ es) ts p h new =
    let e : execute f t p ≡ (
        if ltb (length p.busy_thread_map) p.max_thread_count
        then ok (with_thread t p)
        else ok (with_function f p)) =
      execute-Starved f t p h.0 in
    let next : Bool → Outcome = λ b. if b then ok (with_thread t p) else ok (with_function f p) in
    elim (Bool-cases (ltb (length p.busy_thread_map) p.max_thread_count)) [
      | inl room ↦
          let (starved, longer) = with_thread-Starved t ts p h new.0 room in
          subst
            (λ o.
              Result (to_execute f t ∷ es) p (elim o [ ok q ↦ run es q | undefined ↦ undefined ]))
            (sym (e ∙ ap next room))
            (Result-with_thread f t es p (run es (with_thread t p)) longer room
              (run-Result es (ts ++ t ∷ []) (with_thread t p) starved new.1))
      | inr full ↦
          subst
            (λ o.
              Result (to_execute f t ∷ es) p (elim o [ ok q ↦ run es q | undefined ↦ undefined ]))
            (sym (e ∙ ap next full))
            (Result-with_function f t es p (run es (with_function f p)) h.2 full
              (run-Result es (ts ++ t ∷ []) (with_function f p) (wider h) new.1))
    ]
  where
    wider : Starved ts p → Starved (ts ++ t ∷ []) (with_function f p)
    wider (idle, set, bound, known) =
        (idle, set, bound, λ u other. known u (ground (arith, member-append u t ts)))

-- A pool that starts empty, whatever functions, timeouts and ends of executions come to it, as long as
-- the ids of new threads differ: nothing undefined happens; it has no idle thread, as many busy ones
-- as functions have come, up to the bound, and in its queue all functions beyond the bound, in the
-- order in which they came, so that none of them ever leaves it.
pub run-empty_pool :
    (es : List Event) (timeout_duration max : ℕ) (timer : CombinedTimer)
    → NewThreads [] es
    → (p : ThreadPool) × (run es (empty_pool timeout_duration max timer) ≡ ok p)
      × (p.idle_thread_map ≡ [])
      × (length p.busy_thread_map ≡ least (length (functions es)) max)
      × (p.function_buffer ≡ drop max (functions es))
unfolding Result
run-empty_pool es timeout_duration max timer new =
    by_outcome (run es start) refl (run-Result es [] start start-Starved new)
  where
    start : ThreadPool
    start = empty_pool timeout_duration max timer

    start-Starved : Starved [] (empty_pool timeout_duration max timer)
    start-Starved = (refl, (λ t. refl), omega arith, λ t new'. new')

    by_outcome :
        (o : Outcome)
        → run es (empty_pool timeout_duration max timer) ≡ o
        → Result es (empty_pool timeout_duration max timer) o
        → (p : ThreadPool) × (run es (empty_pool timeout_duration max timer) ≡ ok p)
          × (p.idle_thread_map ≡ [])
          × (length p.busy_thread_map ≡ least (length (functions es)) max)
          × (p.function_buffer ≡ drop max (functions es))
    by_outcome undefined e r = absurd r
    by_outcome (ok p) e (idle, count, rest) = (
      p,
      e,
      idle,
      ground (arith, count),
      rest ∙ ap (λ (n : ℕ). drop n (functions es)) (omega arith),
    )
