-- ===== src/Timers/Combined/Table.antt =====
-- What the operations of src/brutils/timers/combined_timer.cpp do to its table of timers.
use brutils.Base.{
  ℕ, ◌+◌, ◌≡◌, ◌≢◌, refl, subst, ap, ◌∙◌, ◌↔◌, Bool, true, false, ◌&&◌, Option, none, some, List,
  [], ◌∷◌, leb, ◌==◌, if◌then◌else◌, arith, ◌⊎◌, inl, inr, Bool-cases,
}
use brutils.Timers.Combined.{
  TimerData, CombinedTimer, no_timer, find_timer, store_timer, erase_timer, add_timer, stop_timer,
  get_closest_timer_id, run_round,
}
use brutils.Timers.Combined.Closest.{
  Absent, OneEach, NoneBefore, find_timer-Absent, get_closest_timer_id-NoneBefore,
}

store_timer-Absent :
    (n : ℕ) (t : TimerData) (ds : List TimerData)
    → (t.id == n) ≡ false
    → Absent n ds
    → Absent n (store_timer t ds)
unfolding store_timer
store_timer-Absent n t [] ne h = (ne, tt)
store_timer-Absent n t (d ∷ ds) ne h = elim (Bool-cases (d.id == t.id)) [
  | inl same ↦ rw same (ne, h.1)
  | inr other ↦ rw other (h.0, store_timer-Absent n t ds ne h.1)
]

store_timer-OneEach :
    (t : TimerData) (ds : List TimerData) → OneEach ds → OneEach (store_timer t ds)
unfolding store_timer
store_timer-OneEach t [] h = (tt, tt)
store_timer-OneEach t (d ∷ ds) h = elim (Bool-cases (d.id == t.id)) [
  | inl same ↦ let e : d.id ≡ t.id = ground arith in rw same (subst (λ n. Absent n ds) e h.0, h.1)
  | inr other ↦
      rw other (store_timer-Absent d.id t ds (ground arith) h.0, store_timer-OneEach t ds h.1)
]

erase_timer-Absent : (n m : ℕ) (ds : List TimerData) → Absent n ds → Absent n (erase_timer m ds)
unfolding erase_timer
erase_timer-Absent n m [] h = tt
erase_timer-Absent n m (d ∷ ds) h = elim (Bool-cases (d.id == m)) [
  | inl same ↦ rw same h.1
  | inr other ↦ rw other (h.0, erase_timer-Absent n m ds h.1)
]

erase_timer-OneEach : (m : ℕ) (ds : List TimerData) → OneEach ds → OneEach (erase_timer m ds)
unfolding erase_timer
erase_timer-OneEach m [] h = tt
erase_timer-OneEach m (d ∷ ds) h = elim (Bool-cases (d.id == m)) [
  | inl same ↦ rw same h.1
  | inr other ↦ rw other (erase_timer-Absent d.id m ds h.0, erase_timer-OneEach m ds h.1)
]

pub find_timer-store_timer :
    (t : TimerData) (ds : List TimerData) (m : ℕ)
    → find_timer m (store_timer t ds) ≡ (if t.id == m then some t else find_timer m ds)
unfolding find_timer store_timer
find_timer-store_timer t [] m = refl
find_timer-store_timer t (d ∷ ds) m = ground (arith, find_timer-store_timer t ds m)

pub find_timer-erase_timer :
    (n : ℕ) (ds : List TimerData) (m : ℕ)
    → OneEach ds
    → find_timer m (erase_timer n ds) ≡ (if n == m then none else find_timer m ds)
unfolding find_timer erase_timer
find_timer-erase_timer n [] m h = ground arith
find_timer-erase_timer n (d ∷ ds) m h =
    ground (arith, find_timer-erase_timer n ds m h.1, find_timer-Absent d.id ds h.0)

-- A new timer is in the table under the id that the caller gets, due after its duration, and the timers
-- under other ids are as they were; a key still has one entry, and the thread runs. A timer that
-- had the id before is replaced.
add_timer-find_timer :
    (now duration_ms : ℕ) (periodic : Bool) (t : CombinedTimer)
    → OneEach t.time_keeper_map
    → let (n, t') = add_timer now duration_ms periodic t in
      OneEach t'.time_keeper_map
      × (t'.stopped ≡ false)
      × ((m : ℕ)
          → find_timer m t'.time_keeper_map ≡ (
              if n == m
              then some record {
                periodic = periodic;
                id = n;
                duration = duration_ms;
                expiration_date = now + duration_ms;
              }
              else find_timer m t.time_keeper_map))
unfolding add_timer
add_timer-find_timer now duration_ms periodic t h = (
  store_timer-OneEach _ t.time_keeper_map h,
  refl,
  λ m. find_timer-store_timer _ t.time_keeper_map m,
)

-- Stopping a timer takes that timer out of the table and no other, and says whether it was there.
stop_timer-find_timer :
    (n : ℕ) (t : CombinedTimer)
    → OneEach t.time_keeper_map
    → let (found, t') = stop_timer n t in
      OneEach t'.time_keeper_map
      × (find_timer n t.time_keeper_map ≡ none ↔ found ≡ false)
      × ((m : ℕ)
          → find_timer m t'.time_keeper_map
            ≡ (if n == m then none else find_timer m t.time_keeper_map))
unfolding stop_timer
stop_timer-find_timer n t h = go (find_timer n t.time_keeper_map) refl
  where
    go :
        (o : Option TimerData)
        → find_timer n t.time_keeper_map ≡ o
        → let (found, t') = stop_timer n t in
          OneEach t'.time_keeper_map
          × (find_timer n t.time_keeper_map ≡ none ↔ found ≡ false)
          × ((m : ℕ)
              → find_timer m t'.time_keeper_map
                ≡ (if n == m then none else find_timer m t.time_keeper_map))
    go none e =
        let after : stop_timer n t ≡ (false, t) = rw (e, stop_timer) refl in
        rw after (h, ground (arith, e), λ m. ground (arith, e))
    go (some d) e =
        let t' = record t { time_keeper_map = erase_timer n t.time_keeper_map; stopped = false } in
        let after : stop_timer n t ≡ (true, t') = rw (e, stop_timer) refl in
        rw after (
          erase_timer-OneEach n t.time_keeper_map h,
          ground (arith, e),
          λ m. find_timer-erase_timer n t.time_keeper_map m h,
        )

find_timer-id : (n : ℕ) (ds : List TimerData) (d : TimerData) → find_timer n ds ≡ some d → d.id ≡ n
unfolding find_timer
find_timer-id n [] d e = absurd (ground arith)
find_timer-id n (x ∷ ds) d e = ground (arith, find_timer-id n ds d)

-- The table after the timer `d`, of the id `n`, has gone off.
fired : ℕ → ℕ → TimerData → List TimerData → List TimerData
fired now n d ds =
    if d.periodic
    then store_timer (record d { expiration_date = now + d.duration }) ds
    else erase_timer n ds

fired-OneEach :
    (now n : ℕ) (d : TimerData) (ds : List TimerData) → OneEach ds → OneEach (fired now n d ds)
unfolding fired
fired-OneEach now n d ds h = elim (Bool-cases d.periodic) [
  | inl again ↦ rw again (store_timer-OneEach _ ds h)
  | inr once ↦ rw once (erase_timer-OneEach n ds h)
]

find_timer-fired :
    (now n : ℕ) (d : TimerData) (ds : List TimerData) (m : ℕ)
    → OneEach ds
    → d.id ≡ n
    → find_timer m (fired now n d ds) ≡ (
        if n == m
        then (if d.periodic then some (record d { expiration_date = now + d.duration }) else none)
        else find_timer m ds)
unfolding fired
find_timer-fired now n d ds m h e = ground (
  arith,
  find_timer-store_timer (record d { expiration_date = now + d.duration }) ds m,
  find_timer-erase_timer n ds m h,
)

run_round-found :
    (woken now : ℕ) (t : CombinedTimer) (d : TimerData)
    → find_timer (get_closest_timer_id t.time_keeper_map) t.time_keeper_map ≡ some d
    → let n = get_closest_timer_id t.time_keeper_map in
      run_round woken now t ≡ (
        if n == no_timer
        then (none, record t { stopped = true })
        else if leb d.expiration_date woken
        then (some n, record t { time_keeper_map = fired now n d t.time_keeper_map })
        else (none, t))
unfolding run_round fired
run_round-found woken now t d e = rw e refl

closest_timer :
    (ts : List TimerData)
    → OneEach ts
    → (ts ≡ [])
      ⊎ ((d : TimerData) × (find_timer (get_closest_timer_id ts) ts ≡ some d)
          × NoneBefore d.expiration_date ts)
closest_timer [] h = inl refl
closest_timer (t ∷ ts) h = inr (get_closest_timer_id-NoneBefore t ts h)

get_closest_timer_id_nil : get_closest_timer_id [] ≡ no_timer
unfolding get_closest_timer_id
get_closest_timer_id_nil = refl

-- A round of the timer thread that no one asks to stop, when the table has one entry for each key and
-- the closest timer has another id than -1: that timer is in the table, and no other is due before it.
-- The round sends the signal, with its id, just when the wait ends at its deadline or later. Then that
-- timer is gone or, if it is periodic, due again after its duration, counted from the time that the
-- round reads next; else it is as it was. The timers under other ids are as they were, and a key still
-- has one entry.
pub run_round-fires :
    (woken now : ℕ) (t : CombinedTimer)
    → OneEach t.time_keeper_map
    → get_closest_timer_id t.time_keeper_map ≢ no_timer
    → let n = get_closest_timer_id t.time_keeper_map in
      let (sent, t') = run_round woken now t in
      (d : TimerData) × (find_timer n t.time_keeper_map ≡ some d)
      × NoneBefore d.expiration_date t.time_keeper_map
      × (sent ≡ (if leb d.expiration_date woken then some n else none))
      × OneEach t'.time_keeper_map
      × ((m : ℕ)
          → find_timer m t'.time_keeper_map ≡ (
              if leb d.expiration_date woken && n == m
              then (if d.periodic
                  then some (record d { expiration_date = now + d.duration })
                  else none)
              else find_timer m t.time_keeper_map))
run_round-fires woken now t h wanted = elim (closest_timer t.time_keeper_map h) [
  | inl empty ↦ absurd (wanted (ap get_closest_timer_id empty ∙ get_closest_timer_id_nil))
  | inr (d, found, early) ↦
      let (sent, keyed, others) = round d found (leb d.expiration_date woken) refl in
      (d, found, early, sent, keyed, others)
]
  where
    n : ℕ
    n = get_closest_timer_id t.time_keeper_map

    round :
        (d : TimerData)
        → find_timer n t.time_keeper_map ≡ some d
        → (b : Bool) → leb d.expiration_date woken ≡ b
        → let (sent, t') = run_round woken now t in
          (sent ≡ (if b then some n else none))
          × OneEach t'.time_keeper_map
          × ((m : ℕ)
              → find_timer m t'.time_keeper_map ≡ (
                  if b && n == m
                  then (if d.periodic
                      then some (record d { expiration_date = now + d.duration })
                      else none)
                  else find_timer m t.time_keeper_map))
    round d found true due =
        let other : (n == no_timer) ≡ false = ground arith in
        let ran : run_round woken now t
            ≡ (some n, record t { time_keeper_map = fired now n d t.time_keeper_map }) =
          run_round-found woken now t d found ∙ rw (other, due) refl in
        rw ran (
          refl,
          fired-OneEach now n d t.time_keeper_map h,
          λ m.
              find_timer-fired now n d t.time_keeper_map m h
                (find_timer-id n t.time_keeper_map d found),
        )
    round d found false due =
        let other : (n == no_timer) ≡ false = ground arith in
        let ran : run_round woken now t ≡ (none, t) =
          run_round-found woken now t d found ∙ rw (other, due) refl in
        rw ran (refl, h, λ m. refl)
