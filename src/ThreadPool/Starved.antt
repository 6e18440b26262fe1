-- ===== src/ThreadPool/Starved.antt =====
-- The steps of a pool that has no idle thread, in src/brutils/Thread/ThreadPool.cpp.
use brutils.Base.{
  ℕ, suc, ◌≤◌, ◌≡◌, refl, ap, ◌∙◌, true, false, List, [], ◌∷◌, ◌++◌, length, length-append, ltb,
  ◌==◌, if◌then◌else◌, arith, Bool-cases, inl, inr,
}
use brutils.ThreadPool.{
  ThreadPool, ok, member, erase_thread, insert_thread, execute, timer_timeout, execution_finished,
  busy_thread_resource, unknown_thread_id, store,
}

-- No thread is idle, the flags of all are set, and there are at most as many as may be.
abbrev pub Starved : List ℕ → ThreadPool → Type 0
Starved ts p =
    (p.idle_thread_map ≡ [])
    × ((t : ℕ) → p.busy t ≡ true)
    × (length p.busy_thread_map ≤ p.max_thread_count)
    × ((t : ℕ) → member t ts ≡ false → member t p.busy_thread_map ≡ false)

abbrev pub Keeps : ThreadPool → ThreadPool → Type 0
Keeps p p' =
    (p'.max_thread_count ≡ p.max_thread_count)
    × (p'.busy_thread_map ≡ p.busy_thread_map)
    × (p'.function_buffer ≡ p.function_buffer)

pub Keeps-Starved :
    (ts : List ℕ) (p p' : ThreadPool)
    → Starved ts p
    → p'.idle_thread_map ≡ []
    → p'.busy ≡ p.busy
    → Keeps p p'
    → Starved ts p'
Keeps-Starved ts p p' (idle, set, bound, known) idle' flags (max, threads, buffer) = (
  idle',
  (λ t. ap (λ b. b t) flags ∙ set t),
  omega (arith, max, ap length threads, bound),
  (λ t new. ap (member t) threads ∙ known t new),
)

pub timer_timeout-Keeps :
    (n : ℕ) (p : ThreadPool)
    → p.idle_thread_map ≡ []
    → ((timer_timeout n p).idle_thread_map ≡ [])
      × ((timer_timeout n p).busy ≡ p.busy)
      × Keeps p (timer_timeout n p)
unfolding timer_timeout erase_thread
timer_timeout-Keeps n p idle = ground arith

pub execution_finished-Starved :
    (now t : ℕ) (ts : List ℕ) (p : ThreadPool)
    → Starved ts p
    → (p' : ThreadPool) × (execution_finished now t p ≡ ok p') × Starved ts p' × Keeps p p'
unfolding execution_finished
execution_finished-Starved now t ts p (idle, set, bound, known) =
    elim (Bool-cases (member t p.busy_thread_map)) [
      | inl there ↦ (
        record p { error = busy_thread_resource },
        ground (arith, set t),
        (idle, set, bound, known),
        (refl, refl, refl),
      )
      | inr gone ↦ (
        record p { error = unknown_thread_id },
        ground arith,
        (idle, set, bound, known),
        (refl, refl, refl),
      )
    ]

pub member-append :
    (u t : ℕ) (ts : List ℕ) → member u (ts ++ t ∷ []) ≡ (if member u ts then true else u == t)
unfolding member
member-append u t [] = ground arith
member-append u t (v ∷ ts) = ground (arith, member-append u t ts)

insert_thread_new : (t : ℕ) (ts : List ℕ) → member t ts ≡ false → insert_thread t ts ≡ ts ++ t ∷ []
unfolding insert_thread
insert_thread_new t ts new = ground arith

-- The pool after a function that gets a new thread, and after one that waits.
abbrev pub with_thread : ℕ → ThreadPool → ThreadPool
with_thread t p = record p {
  busy_thread_map = insert_thread t p.busy_thread_map;
  busy = store t true p.busy;
}

abbrev pub with_function : ℕ → ThreadPool → ThreadPool
with_function f p = record p { function_buffer = p.function_buffer ++ f ∷ [] }

pub execute-Starved :
    (f t : ℕ) (p : ThreadPool)
    → p.idle_thread_map ≡ []
    → execute f t p ≡ (
        if ltb (length p.busy_thread_map) p.max_thread_count
        then ok (with_thread t p)
        else ok (with_function f p))
unfolding execute
execute-Starved f t p idle = ground arith

pub with_thread-Starved :
    (t : ℕ) (ts : List ℕ) (p : ThreadPool)
    → Starved ts p
    → member t ts ≡ false
    → ltb (length p.busy_thread_map) p.max_thread_count ≡ true
    → Starved (ts ++ t ∷ []) (with_thread t p)
      × (length (with_thread t p).busy_thread_map ≡ suc (length p.busy_thread_map))
with_thread-Starved t ts p (idle, set, bound, known) new room =
    let added : insert_thread t p.busy_thread_map ≡ p.busy_thread_map ++ t ∷ [] =
      insert_thread_new t p.busy_thread_map (known t new) in
    let longer : length (insert_thread t p.busy_thread_map) ≡ suc (length p.busy_thread_map) =
      ap length added ∙ omega (arith, length-append p.busy_thread_map (t ∷ [])) in
    (
      (
        idle,
        (λ u. ground (arith, set u)),
        ground (arith, longer),
        (λ u other.
            ap (member u) added
            ∙ ground (arith, known u, member-append u t ts, member-append u t p.busy_thread_map)),
      ),
      longer,
    )
