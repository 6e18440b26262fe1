-- ===== src/Timers/Keeper/Thread/Bounded.antt =====
-- The record book of src/brutils/timers/TimeKeeper.cpp whatever its thread and others do.
use brutils.Base.{
  ℕ, ◌≤◌, ◌≡◌, ◌≢◌, refl, Bool, true, false, not, ◌||◌, Option, none, some, List, [], ◌∷◌, length,
  ltb, leb, ◌==◌, if◌then◌else◌, arith, inl, inr, Bool-cases, Option-cases, subst, sym,
}
use brutils.Timers.Keeper.{
  TimeRecord, RecordBook, TimeKeeper, Outcome, ok, invalid_argument, runtime_error, endless, max_id,
  find_record, erase_record, closest_of, get_closest_record, wake, add_record, cancel_record,
}
use brutils.Timers.Keeper.Ids.{OneKey, IsBounded, add_record-IsBounded}
use brutils.Timers.Keeper.Thread.{
  Place, looping, entered, over, testing, tested, asleep, woken, Runner, new_runner, is_free,
  after_wait, own, notify, add, cancel, stop_running, Move, moves, adds, cancels, stops_running,
  notifies, move, move_all,
}

erase_record-none :
    (n m : ℕ) (book : RecordBook)
    → find_record m book ≡ none
    → find_record m (erase_record n book) ≡ none
unfolding find_record erase_record
erase_record-none n m [] h = refl
erase_record-none n m (e ∷ es) h = ground (arith, erase_record-none n m es)

length-erase_record : (n : ℕ) (book : RecordBook) → length (erase_record n book) ≤ length book
unfolding erase_record
length-erase_record n [] = omega arith
length-erase_record n (e ∷ es) = ground (arith, length-erase_record n es)

erase_record-OneKey : (n : ℕ) (book : RecordBook) → OneKey book → OneKey (erase_record n book)
unfolding erase_record
erase_record-OneKey n [] h = tt
erase_record-OneKey n (e ∷ es) h = elim (Bool-cases (e.0 == n)) [
  | inl here ↦ rw here h.1
  | inr there ↦ rw there (erase_record-none n e.0 es h.0, erase_record-OneKey n es h.1)
]

erased-IsBounded :
    (n : ℕ) (flag : Bool) (t : TimeKeeper)
    → IsBounded t
    → IsBounded (record t { record_book = erase_record n t.record_book; notification = flag })
erased-IsBounded n flag t (counter, size, one) = (
  counter,
  omega (arith, length-erase_record n t.record_book),
  erase_record-OneKey n t.record_book one,
)

wake-IsBounded :
    (now : ℕ) (r : TimeRecord) (t : TimeKeeper)
    → IsBounded t
    → IsBounded (wake now r t.record_book t).1
unfolding wake
wake-IsBounded now r t h = either (ltb r.interval.end now) (find_record r.id t.record_book)
  where
    t' : TimeKeeper
    t' = record t { notification = false }

    result : Bool → Option TimeRecord → Option TimeRecord × TimeKeeper
    result late o =
        if late
        then (elim o [
          | none ↦ (none, t')
          | some x ↦ (some r, record t' { record_book = erase_record r.id t.record_book })
        ])
        else (none, t')

    either : (late : Bool) (o : Option TimeRecord) → IsBounded (result late o).1
    either true none = h
    either true (some x) = erased-IsBounded r.id false t h
    either false o = h

-- The first record is overwritten under its own key.
overwritten-IsBounded :
    (r : TimeRecord) (t : TimeKeeper) (e : ℕ × TimeRecord) (es : RecordBook)
    → IsBounded (record t { record_book = e ∷ es })
    → IsBounded (record t { record_book = (e.0, r) ∷ es })
overwritten-IsBounded r t e es (counter, size, one) = (counter, size, one)

entered-IsBounded :
    (now : ℕ) (running : Bool) (t : TimeKeeper) (book : RecordBook)
    → IsBounded (record t { record_book = book })
    → IsBounded
        (own now record {
          keeper = record t { record_book = book };
          running = running;
          place = entered;
        }).0.keeper
unfolding own get_closest_record
entered-IsBounded now running t [] h = h
entered-IsBounded now running t (e ∷ es) h = overwritten-IsBounded (closest_of e.1 es) t e es h

own_place-IsBounded :
    (now : ℕ) (p : Place) (running : Bool) (t : TimeKeeper)
    → IsBounded t
    → IsBounded (own now record { keeper = t; running = running; place = p }).0.keeper
unfolding own after_wait
own_place-IsBounded now looping running t h = h
own_place-IsBounded now entered running t h = entered-IsBounded now running t t.record_book h
own_place-IsBounded now over running t h = h
own_place-IsBounded now (testing none) running t h =
    elim (Bool-cases (not running || t.notification)) [
      | inl goes ↦ rw goes h
      | inr stays ↦ rw stays h
    ]
own_place-IsBounded now (testing (some r)) running t h =
    elim (Bool-cases (not running || t.notification || ltb r.interval.end now)) [
      | inl goes ↦ rw goes (wake-IsBounded now r t h)
      | inr stays ↦ rw stays h
    ]
own_place-IsBounded now (tested o) running t h = h
own_place-IsBounded now (asleep none) running t h = h
own_place-IsBounded now (asleep (some r)) running t h = elim (Bool-cases (leb r.interval.end now)) [
  | inl goes ↦ rw goes (wake-IsBounded now r t h)
  | inr stays ↦ rw stays h
]
own_place-IsBounded now (woken o) running t h = h

-- What a call leaves, if it returns.
Left : Outcome (TimeRecord × TimeKeeper) → Type 0
Left o = (p : TimeRecord × TimeKeeper) → o ≡ ok p → IsBounded p.1

add_record-Left :
    (now end_tp : ℕ) (places : List ℕ) (t : TimeKeeper)
    → IsBounded t
    → Left (add_record false now end_tp places t) × (add_record false now end_tp places t ≢ endless)
unfolding Left add_record
add_record-Left now end_tp places t h = elim (Bool-cases (ltb end_tp now)) [
  | inl past ↦
      let e : add_record false now end_tp places t ≡ invalid_argument =
        rw (past, add_record) refl in
      rw e ((λ p k. absurd (ground (arith, k))), λ k. ground (arith, k))
  | inr future ↦ (elim (Bool-cases (length t.record_book == max_id)) [
    | inl full ↦
        let e : add_record false now end_tp places t ≡ runtime_error =
          rw (future, full, add_record) refl in
        rw e ((λ p k. absurd (ground (arith, k))), λ k. ground (arith, k))
    | inr room ↦
        let (r, t', e, free, small, span, below, above, bounded, kept) =
          add_record-IsBounded now end_tp places t (ground arith) h (ground (arith, h.1)) in
        rw e ((λ p k. ground (arith, k, bounded)), λ k. ground (arith, k))
  ])
]

notify-keeper : (w : Runner) → (notify w).keeper ≡ w.keeper
unfolding notify
notify-keeper w = ground arith

add-IsBounded :
    (now end_tp : ℕ) (places : List ℕ) (w : Runner)
    → IsBounded w.keeper
    → IsBounded (add now end_tp places w).keeper
unfolding add Left
add-IsBounded now end_tp places w h =
    by_call (is_free w.place) refl (add_record false now end_tp places w.keeper) refl
  where
    by_call :
        (b : Bool)
        → is_free w.place ≡ b
        → (o : Outcome (TimeRecord × TimeKeeper)) → add_record false now end_tp places w.keeper ≡ o
        → IsBounded (add now end_tp places w).keeper
    by_call false f o e = rw (f, add) h
    by_call true f (ok p) e =
        rw (f, e, add)
          (subst IsBounded (sym (notify-keeper (record w { keeper = p.1 })))
            ((add_record-Left now end_tp places w.keeper h).0 p e))
    by_call true f _ e = rw (f, e, add) h

cancel_record-IsBounded :
    (n : ℕ) (t t' : TimeKeeper) → IsBounded t → cancel_record n t ≡ ok t' → IsBounded t'
unfolding cancel_record
cancel_record-IsBounded n t t' h e = elim (Option-cases (find_record n t.record_book)) [
  | inl absent ↦ absurd (ground (arith, e))
  | inr (r, found) ↦
      let kept = record t { record_book = erase_record n t.record_book; notification = true } in
      let same : kept ≡ t' = ground (arith, e, found) in
      subst IsBounded same (erased-IsBounded n true t h)
]

cancel-IsBounded : (n : ℕ) (w : Runner) → IsBounded w.keeper → IsBounded (cancel n w).keeper
unfolding cancel
cancel-IsBounded n w h = by_call (is_free w.place) refl (cancel_record n w.keeper) refl
  where
    by_call :
        (b : Bool)
        → is_free w.place ≡ b
        → (o : Outcome TimeKeeper) → cancel_record n w.keeper ≡ o
        → IsBounded (cancel n w).keeper
    by_call false f o e = rw (f, cancel) h
    by_call true f (ok t) e =
        rw (f, e, cancel)
          (subst IsBounded (sym (notify-keeper (record w { keeper = t })))
            (cancel_record-IsBounded n w.keeper t h e))
    by_call true f _ e = rw (f, e, cancel) h

move-IsBounded : (m : Move) (w : Runner) → IsBounded w.keeper → IsBounded (move m w).keeper
unfolding move stop_running
move-IsBounded (moves now) w h = own_place-IsBounded now w.place w.running w.keeper h
move-IsBounded (adds now end_tp places) w h = add-IsBounded now end_tp places w h
move-IsBounded (cancels n) w h = cancel-IsBounded n w h
move-IsBounded stops_running w h = h
move-IsBounded notifies w h = subst IsBounded (sym (notify-keeper w)) h

from-IsBounded :
    (ms : List Move) (w : Runner) → IsBounded w.keeper → IsBounded (move_all ms w).keeper
unfolding move_all
from-IsBounded [] w h = h
from-IsBounded (m ∷ ms) w h = from-IsBounded ms (move m w) (move-IsBounded m w h)

-- A new keeper, and moves of its thread, records added and cancelled, calls of `stop` and wakeups, in
-- any order and with any order of the table after each insertion: the counter stays below 2 ^ 16, there
-- are no more than 2 ^ 16 - 1 records, and a key has one entry, also when the search for the closest
-- record has overwritten another. So the search of `AddRecord` with a time point for an id always ends.
pub move_all-IsBounded :
    (ms : List Move) (now end_tp : ℕ) (places : List ℕ)
    → let t = (move_all ms new_runner).keeper in
      IsBounded t × (add_record false now end_tp places t ≢ endless)
move_all-IsBounded ms now end_tp places =
    let h = from-IsBounded ms new_runner (omega arith, omega arith, tt) in
    (h, (add_record-Left now end_tp places _ h).1)
