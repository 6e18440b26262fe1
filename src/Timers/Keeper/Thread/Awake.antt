-- ===== src/Timers/Keeper/Thread/Awake.antt =====
-- How long the thread of src/brutils/timers/TimeKeeper.cpp may sleep.
use brutils.Base.{
  ℕ, ◌≤◌, ◌≡◌, refl, Bool, true, false, none, some, List, [], ◌∷◌, ltb, arith, ◌⊎◌, inl, inr,
  Option, Bool-cases, ◌||◌, not,
}
use brutils.Timers.Keeper.{
  TimeRecord, RecordBook, TimeKeeper, Outcome, ok, closest_of, get_closest_record, add_record,
  cancel_record,
}
use brutils.Timers.Keeper.Book.{NoneBefore}
use brutils.Timers.Keeper.Thread.{
  Place, looping, entered, over, testing, tested, asleep, woken, Runner, new_runner, after_wait,
  own, notify, add, cancel, stop_running, Move, moves, adds, cancels, stops_running, notifies, move,
  move_all, is_free,
}

-- What the thread waits for agrees with the book: nothing when the book is empty, and else a time that
-- no record comes before.
abbrev pub Waits : Option TimeRecord → RecordBook → Type 0
Waits none book = book ≡ []
Waits (some r) book = NoneBefore r.interval.end book

-- At each place, what holds of the notification and the book.
abbrev pub IsAwake : Place → Bool → RecordBook → Type 0
IsAwake (testing o) notification book = (notification ≡ true) ⊎ Waits o book
IsAwake (tested o) notification book = (notification ≡ false) × Waits o book
IsAwake (woken o) notification book = (notification ≡ true) ⊎ Waits o book
IsAwake (asleep o) notification book = (notification ≡ false) × Waits o book
IsAwake _ notification book = Unit {0}

abbrev pub RunnerIsAwake : Runner → Type 0
RunnerIsAwake w = IsAwake w.place w.keeper.notification w.keeper.record_book

closest_of_least :
    (best : TimeRecord) (es : RecordBook)
    → ((closest_of best es).interval.end ≤ best.interval.end)
      × NoneBefore (closest_of best es).interval.end es
unfolding closest_of
closest_of_least best [] = (omega arith, tt)
closest_of_least best (e ∷ es) = ground (arith, closest_of_least e.1 es, closest_of_least best es)

notify-IsAwake :
    (w : Runner) → w.keeper.notification ≡ true → is_free w.place ≡ true → RunnerIsAwake (notify w)
unfolding notify is_free
notify-IsAwake w n f = ground arith

own-IsAwake :
    (now : ℕ) (place : Place) (running : Bool) (t : TimeKeeper)
    → RunnerIsAwake record { keeper = t; running = running; place = place }
    → RunnerIsAwake (own now (record { keeper = t; running = running; place = place })).0
unfolding own after_wait get_closest_record
own-IsAwake now looping true t h = tt
own-IsAwake now looping false t h = tt
own-IsAwake now entered running t h = by_book t.record_book refl
  where
    by_book :
        (book : RecordBook)
        → t.record_book ≡ book
        → RunnerIsAwake (own now (record { keeper = t; running = running; place = entered })).0
    by_book [] e = rw (e, own) (inr e)
    by_book (e' ∷ es) e =
        rw (e, own, get_closest_record) (inr (omega arith, (closest_of_least e'.1 es).1))
own-IsAwake now (testing none) running t h = elim (Bool-cases (not running || t.notification)) [
  | inl b ↦ rw (b, own) tt
  | inr b ↦ ground (arith, b)
]
own-IsAwake now (testing (some r)) running t h =
    elim (Bool-cases (not running || t.notification || ltb r.interval.end now)) [
      | inl b ↦ rw (b, own) tt
      | inr b ↦ ground (arith, b)
    ]
own-IsAwake now (tested o) running t h = h
own-IsAwake now (asleep none) running t h = h
own-IsAwake now (asleep (some r)) running t h = ground arith
own-IsAwake now (woken o) running t h = h
own-IsAwake now over running t h = tt

add_record-notifies :
    (now end_tp : ℕ) (places : List ℕ) (t : TimeKeeper) (p : TimeRecord × TimeKeeper)
    → add_record false now end_tp places t ≡ ok p
    → p.1.notification ≡ true
unfolding add_record
add_record-notifies now end_tp places t p e = ground (arith, e)

cancel_record-notifies :
    (n : ℕ) (t t' : TimeKeeper) → cancel_record n t ≡ ok t' → t'.notification ≡ true
unfolding cancel_record
cancel_record-notifies n t t' e = ground (arith, e)

add-IsAwake :
    (now end_tp : ℕ) (places : List ℕ) (w : Runner)
    → RunnerIsAwake w
    → RunnerIsAwake (add now end_tp places w)
unfolding add
add-IsAwake now end_tp places w h =
    by_call (is_free w.place) refl (add_record false now end_tp places w.keeper) refl
  where
    by_call :
        (b : Bool)
        → is_free w.place ≡ b
        → (o : Outcome (TimeRecord × TimeKeeper)) → add_record false now end_tp places w.keeper ≡ o
        → RunnerIsAwake (add now end_tp places w)
    by_call false f o e = rw (f, add) h
    by_call true f (ok p) e =
        rw (f, e, add)
          (notify-IsAwake (record w { keeper = p.1 })
            (add_record-notifies now end_tp places w.keeper p e) f)
    by_call true f _ e = rw (f, e, add) h

cancel-IsAwake : (n : ℕ) (w : Runner) → RunnerIsAwake w → RunnerIsAwake (cancel n w)
unfolding cancel
cancel-IsAwake n w h = by_call (is_free w.place) refl (cancel_record n w.keeper) refl
  where
    by_call :
        (b : Bool)
        → is_free w.place ≡ b
        → (o : Outcome TimeKeeper) → cancel_record n w.keeper ≡ o
        → RunnerIsAwake (cancel n w)
    by_call false f o e = rw (f, cancel) h
    by_call true f (ok t) e =
        rw (f, e, cancel)
          (notify-IsAwake (record w { keeper = t }) (cancel_record-notifies n w.keeper t e) f)
    by_call true f _ e = rw (f, e, cancel) h

move-IsAwake : (m : Move) (w : Runner) → RunnerIsAwake w → RunnerIsAwake (move m w)
unfolding move stop_running notify
move-IsAwake (moves now) w h = own-IsAwake now w.place w.running w.keeper h
move-IsAwake (adds now end_tp places) w h = add-IsAwake now end_tp places w h
move-IsAwake (cancels n) w h = cancel-IsAwake n w h
move-IsAwake stops_running w h = h
move-IsAwake notifies w h = ground arith

move_all-RunnerIsAwake :
    (ms : List Move) (w : Runner) → RunnerIsAwake w → RunnerIsAwake (move_all ms w)
unfolding move_all
move_all-RunnerIsAwake [] w h = h
move_all-RunnerIsAwake (m ∷ ms) w h = move_all-RunnerIsAwake ms (move m w) (move-IsAwake m w h)

-- A new keeper, and moves of its thread, records added and cancelled, calls of `stop` and wakeups, in
-- any order: whenever the thread sleeps, or has tested that it may, no notification is pending, and it
-- sleeps without a deadline only while the book is empty, and else until a time before which no record
-- of the book ends. So no addition and no cancelling is overlooked, though the thread tests and sleeps
-- in two steps.
pub move_all-IsAwake :
    (ms : List Move)
    → let w = move_all ms new_runner in IsAwake w.place w.keeper.notification w.keeper.record_book
move_all-IsAwake ms = move_all-RunnerIsAwake ms new_runner tt
