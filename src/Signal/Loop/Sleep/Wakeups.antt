-- ===== src/Signal/Loop/Sleep/Wakeups.antt =====
-- Which events of include/brutils/br_object.h wake the thread up that is to run them.
use brutils.Base.{
  ℕ, zero, suc, ◌+◌, ◌*◌, ◌≤◌, ◌≡◌, refl, sym, subst, ap, ◌∙◌, Bool, true, false, List, [], ◌∷◌,
  ◌++◌, append_assoc, append-nil, length, length-append, arith,
}
use brutils.Signal.Loop.Sleep.{
  Place, looping, testing, tested, asleep, woken, over, Sleeper, own, own_moves, notify, add_event,
  destroy, is_over,
}

abbrev at_place : Place → List ℕ → List ℕ → Sleeper
at_place p es rs = record { event_list = es; running = true; place = p; ran = rs }

-- Two moves for an event.
from_looping :
    (es rs : List ℕ)
    → own_moves (2 * length es) (at_place looping es rs) ≡ at_place looping [] (rs ++ es)
unfolding own_moves own
from_looping [] rs = ap (at_place looping []) (sym (append-nil rs))
from_looping (e ∷ es) rs =
    let two : 2 * suc (length es) ≡ suc (suc (2 * length es)) = omega arith in
    ap (λ (i : ℕ). own_moves i (at_place looping (e ∷ es) rs)) two
    ∙ (from_looping es (rs ++ e ∷ []) ∙ ap (at_place looping []) (append_assoc rs (e ∷ []) es))

from_testing :
    (e : ℕ) (es rs : List ℕ)
    → own_moves (1 + 2 * length es) (at_place testing (e ∷ es) rs)
      ≡ at_place looping [] (rs ++ e ∷ es)
unfolding own_moves own
from_testing e es rs =
    let one : 1 + 2 * length es ≡ suc (2 * length es) = omega arith in
    ap (λ (i : ℕ). own_moves i (at_place testing (e ∷ es) rs)) one
    ∙ (from_looping es (rs ++ e ∷ []) ∙ ap (at_place looping []) (append_assoc rs (e ∷ []) es))

from_woken :
    (e : ℕ) (es rs : List ℕ)
    → own_moves (2 + 2 * length es) (at_place woken (e ∷ es) rs)
      ≡ at_place looping [] (rs ++ e ∷ es)
unfolding own_moves own
from_woken e es rs =
    let one : 2 + 2 * length es ≡ suc (1 + 2 * length es) = omega arith in
    ap (λ (i : ℕ). own_moves i (at_place woken (e ∷ es) rs)) one ∙ from_testing e es rs

-- All events have run, in order, after at most `n` moves.
abbrev pub AllRun : ℕ → List ℕ → List ℕ → Sleeper → Type 0
AllRun n es rs w =
    (m : ℕ) × (m ≤ n)
    × (own_moves m w ≡ record { event_list = []; running = true; place = looping; ran = rs ++ es })

by_first :
    (P : List ℕ → Type 0) (es : List ℕ) (e : ℕ)
    → ((x : ℕ) (xs : List ℕ) → length xs ≡ length es → P (x ∷ xs))
    → P (es ++ e ∷ [])
by_first P [] e k = k e [] refl
by_first P (x ∷ es) e k = k x (es ++ e ∷ []) (length-append es (e ∷ []) ∙ one)
  where
    one : length es + length (e ∷ []) ≡ length (x ∷ es)
    one = omega arith

-- Where a notification is not lost.
abbrev pub IsHeard : Place → Type 0
IsHeard tested = ⊥
IsHeard over = ⊥
IsHeard _ = Unit {0}

add_event-place :
    (p : Place) (e : ℕ) (es rs : List ℕ)
    → IsHeard p
    → AllRun (2 * suc (length es)) (es ++ e ∷ []) rs (add_event e (at_place p es rs))
unfolding add_event notify
add_event-place looping e es rs h = (
  2 * length (es ++ e ∷ []),
  omega (arith, length-append es (e ∷ [])),
  from_looping (es ++ e ∷ []) rs,
)
add_event-place testing e es rs h =
    by_first (λ l. AllRun (2 * suc (length es)) l rs (at_place testing l rs)) es e
      λ x xs n. (1 + 2 * length xs, omega (arith, n), from_testing x xs rs)
add_event-place asleep e es rs h =
    by_first (λ l. AllRun (2 * suc (length es)) l rs (at_place woken l rs)) es e
      λ x xs n. (2 + 2 * length xs, omega (arith, n), from_woken x xs rs)
add_event-place woken e es rs h =
    by_first (λ l. AllRun (2 * suc (length es)) l rs (at_place woken l rs)) es e
      λ x xs n. (2 + 2 * length xs, omega (arith, n), from_woken x xs rs)
add_event-place tested e es rs h = absurd h
add_event-place over e es rs h = absurd h

-- An event for a thread that runs, and that the notification finds asleep, woken up, or before its test
-- of the predicate, whatever events wait: two moves of the thread for each of them and for the new one
-- are enough to run them all, in the order in which they came.
pub add_event-AllRun :
    (e : ℕ) (w : Sleeper)
    → w.running ≡ true
    → IsHeard w.place
    → AllRun (2 * suc (length w.event_list)) (w.event_list ++ e ∷ []) w.ran (add_event e w)
add_event-AllRun e w r h =
    subst
      (λ b.
        AllRun (2 * suc (length w.event_list)) (w.event_list ++ e ∷ []) w.ran
          (add_event e (record w { running = b })))
      (sym r) (add_event-place w.place e w.event_list w.ran h)

sleeping : Bool → List ℕ → List ℕ → Sleeper
sleeping b es rs = record { event_list = es; running = b; place = asleep; ran = rs }

own_moves-asleep :
    (n : ℕ) (b : Bool) (es rs : List ℕ) → own_moves n (sleeping b es rs) ≡ sleeping b es rs
unfolding own_moves own sleeping
own_moves-asleep zero b es rs = refl
own_moves-asleep (suc n) b es rs = own_moves-asleep n b es rs

tested_with : Bool → List ℕ → List ℕ → Sleeper
tested_with b es rs = record { event_list = es; running = b; place = tested; ran = rs }

own_moves-add_event :
    (n e : ℕ) (b : Bool) (es rs : List ℕ)
    → ((own_moves n (add_event e (tested_with b es rs))).ran ≡ rs)
      × ((own_moves n (add_event e (tested_with b es rs))).event_list ≡ es ++ e ∷ [])
unfolding add_event notify own_moves own sleeping tested_with
own_moves-add_event zero e b es rs = (refl, refl)
own_moves-add_event (suc n) e b es rs =
    let still = own_moves-asleep n b (es ++ e ∷ []) rs in
    (ap (λ (w : Sleeper). w.ran) still, ap (λ (w : Sleeper). w.event_list) still)

own_moves-destroy :
    (n : ℕ) (b : Bool) (es rs : List ℕ)
    → is_over (own_moves n (destroy (tested_with b es rs))).place ≡ false
unfolding destroy notify own_moves own is_over sleeping tested_with
own_moves-destroy zero true es rs = refl
own_moves-destroy zero false es rs = refl
own_moves-destroy (suc n) true es rs =
    ap (λ (w : Sleeper). is_over w.place) (own_moves-asleep n false es rs)
own_moves-destroy (suc n) false es rs =
    ap (λ (w : Sleeper). is_over w.place) (own_moves-asleep n false es rs)

-- A thread that has tested its predicate and is about to sleep, of which neither `addEvent` nor the
-- destructor knows, as they do not take the mutex: however many moves the thread makes, an event that is
-- added then does not run, nor do those that wait; and a thread that is told to end then never does,
-- so that the destructor goes on waiting, unless something else wakes the thread up.
pub own_moves-tested :
    (n e : ℕ) (w : Sleeper)
    → w.place ≡ tested
    → ((own_moves n (add_event e w)).ran ≡ w.ran)
      × ((own_moves n (add_event e w)).event_list ≡ w.event_list ++ e ∷ [])
      × (is_over (own_moves n (destroy w)).place ≡ false)
unfolding tested_with
own_moves-tested n e w h =
    let added = own_moves-add_event n e w.running w.event_list w.ran in
    let told = own_moves-destroy n w.running w.event_list w.ran in
    subst
      (λ p.
        ((own_moves n (add_event e (record w { place = p }))).ran ≡ w.ran)
        × ((own_moves n (add_event e (record w { place = p }))).event_list ≡ w.event_list ++ e ∷ [])
        × (is_over (own_moves n (destroy (record w { place = p }))).place ≡ false))
      (sym h) (added.0, added.1, told)
