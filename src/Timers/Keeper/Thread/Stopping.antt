-- ===== src/Timers/Keeper/Thread/Stopping.antt =====
-- Stopping the thread of src/brutils/timers/TimeKeeper.cpp: `stop` sets `_running` and notifies without the
-- mutex, so it can come between the thread's test and its sleep.
use brutils.Base.{
  ℕ, ◌≤◌, ◌<◌, ◌≡◌, refl, ap, ◌∙◌, true, false, Option, none, some, List, [], ◌∷◌, arith, leb,
  if◌then◌else◌,
}
use brutils.Timers.Keeper.{TimeRecord, TimeKeeper, RecordBook, closest_of, get_closest_record, wake}
use brutils.Timers.Keeper.Thread.{
  Place, looping, entered, over, testing, tested, asleep, woken, Runner, after_wait, own, notify,
  stop_running, stop, is_over,
}

-- Moves of the thread alone, at the given times.
unfoldable pub own_all : List ℕ → Runner → Runner
unfolding own
own_all [] w = w
own_all (now ∷ times) w = own_all times (own now w).0

-- Where a notification finds the thread before it has tested, or asleep, or will be made up for by the
-- deadline, which is over at the time.
abbrev pub IsHeard : ℕ → Place → Type 0
IsHeard now (tested none) = ⊥
IsHeard now (tested (some r)) = r.interval.end ≤ now
IsHeard now _ = Unit {0}

-- Where a notification comes between the test and the sleep, with no deadline before the times.
abbrev pub IsLost : List ℕ → Place → Type 0
IsLost times (tested none) = Unit {0}
IsLost [] (tested (some r)) = Unit {0}
IsLost (now ∷ times) (tested (some r)) = (now < r.interval.end) × IsLost times (tested (some r))
IsLost times _ = ⊥

own_all-over : (times : List ℕ) (w : Runner) → w.place ≡ over → (own_all times w).place ≡ over
unfolding own_all own
own_all-over [] w e = e
own_all-over (now ∷ times) w e = own_all-over times (own now w).0 (ground (arith, e))

stopped : TimeKeeper → Place → Runner
stopped t p = record { keeper = t; running = false; place = p }

-- From each place, a thread that has been stopped gets on to its end.
from_looping :
    (a : ℕ) (times : List ℕ) (t : TimeKeeper)
    → (own_all (a ∷ times) (stopped t looping)).place ≡ over
unfolding own_all own stopped
from_looping a times t = own_all-over times (stopped t over) refl

from_testing :
    (a b : ℕ) (times : List ℕ) (t : TimeKeeper) (o : Option TimeRecord)
    → (own_all (a ∷ b ∷ times) (stopped t (testing o))).place ≡ over
unfolding own_all own stopped after_wait
from_testing a b times t none = from_looping b times _
from_testing a b times t (some r) = from_looping b times _

own-entered :
    (a : ℕ) (t : TimeKeeper)
    → (t' : TimeKeeper) × (o : Option TimeRecord) × ((own a (stopped t entered)).0
        ≡ stopped t' (testing o))
unfolding own stopped get_closest_record
own-entered a t = by_book t.record_book refl
  where
    by_book :
        (book : RecordBook)
        → t.record_book ≡ book
        → (t' : TimeKeeper) × (o : Option TimeRecord) × ((own a (stopped t entered)).0
            ≡ stopped t' (testing o))
    by_book [] e = (t, none, ground (arith, e))
    by_book (e' ∷ es) e = (
      record t { record_book = (e'.0, closest_of e'.1 es) ∷ es },
      some (closest_of e'.1 es),
      rw (e, own, get_closest_record) refl,
    )

from_entered :
    (a b c : ℕ) (times : List ℕ) (t : TimeKeeper)
    → (own_all (a ∷ b ∷ c ∷ times) (stopped t entered)).place ≡ over
unfolding own_all
from_entered a b c times t =
    let (t', o, e) = own-entered a t in
    ap (λ w. (own_all (b ∷ c ∷ times) w).place) e ∙ from_testing b c times t' o

own-due :
    (b : ℕ) (t : TimeKeeper) (r : TimeRecord)
    → r.interval.end ≤ b
    → (t' : TimeKeeper) × ((own b (stopped t (asleep (some r)))).0 ≡ stopped t' looping)
unfolding own stopped after_wait
own-due b t r due =
    let is_due : leb r.interval.end b ≡ true = ground (arith, due) in
    ((wake b r t.record_book t).1, rw (own, is_due) refl)

from_tested :
    (a b c : ℕ) (times : List ℕ) (t : TimeKeeper) (r : TimeRecord)
    → r.interval.end ≤ b
    → (own_all (a ∷ b ∷ c ∷ times) (stopped t (tested (some r)))).place ≡ over
unfolding own_all own stopped
from_tested a b c times t r due =
    let (t', e) = own-due b t r due in
    ap (λ w. (own_all (c ∷ times) w).place) e ∙ from_looping c times t'

-- `stop`, where its notification is heard: four moves of the thread later, at whatever times and
-- whatever the book holds, the thread has ended, so that `wait` returns. It is not heard only when it
-- comes between the thread's test of its predicate and its sleep; and then the deadline, if there is
-- one, makes up for it when it is over at the second move.
pub stop-over :
    (w : Runner) (a b c d : ℕ) (times : List ℕ)
    → IsHeard b w.place
    → is_over (own_all (a ∷ b ∷ c ∷ d ∷ times) (stop w)).place ≡ true
unfolding stop stop_running notify stopped own own_all after_wait is_over
stop-over w a b c d times h = ap is_over (by_place w.place h)
  where
    by_place :
        (p : Place)
        → IsHeard b p
        → (own_all (a ∷ b ∷ c ∷ d ∷ times) (stop (record w { place = p }))).place ≡ over
    by_place looping k = from_looping a (b ∷ c ∷ d ∷ times) w.keeper
    by_place entered k = from_entered a b c (d ∷ times) w.keeper
    by_place over k = own_all-over (a ∷ b ∷ c ∷ d ∷ times) (stopped w.keeper over) refl
    by_place (testing o) k = from_testing a b (c ∷ d ∷ times) w.keeper o
    by_place (woken o) k = from_testing b c (d ∷ times) w.keeper o
    by_place (asleep o) k = from_testing b c (d ∷ times) w.keeper o
    by_place (tested none) k = absurd k
    by_place (tested (some r)) k = from_tested a b c (d ∷ times) w.keeper r k

-- A thread that sleeps goes on to sleep until its deadline.
from_asleep :
    (times : List ℕ) (t : TimeKeeper) (o : Option TimeRecord)
    → IsLost times (tested o)
    → is_over (own_all times (stopped t (asleep o))).place ≡ false
unfolding own_all own stopped is_over
from_asleep [] t o k = refl
from_asleep (now ∷ times) t none k = from_asleep times t none k
from_asleep (now ∷ times) t (some r) (early, k) =
    let not_due : leb r.interval.end now ≡ false = ground (arith, early) in
    ap
      (λ b.
        is_over
          (own_all times
            (if b
              then after_wait now r (stopped t (asleep (some r)))
              else (stopped t (asleep (some r)), none)).0).place)
      not_due
    ∙ from_asleep times t (some r) k

-- `stop`, where its notification comes between the thread's test of its predicate and its sleep: however
-- many moves the thread makes, if it has no deadline or for as long as its deadline is not over, it does
-- not end, so that `wait` and with it the destructor go on waiting, unless something wakes it up.
pub stop-lost :
    (w : Runner) (times : List ℕ)
    → IsLost times w.place
    → is_over (own_all times (stop w)).place ≡ false
unfolding stop stop_running notify stopped own own_all is_over
stop-lost w times h = by_place times w.place h
  where
    by_place :
        (ts : List ℕ) (p : Place)
        → IsLost ts p
        → is_over (own_all ts (stop (record w { place = p }))).place ≡ false
    by_place [] (tested o) k = refl
    by_place (now ∷ ts) (tested none) k = from_asleep ts w.keeper none tt
    by_place (now ∷ ts) (tested (some r)) (early, k) = from_asleep ts w.keeper (some r) k
    by_place ts _ k = absurd k
