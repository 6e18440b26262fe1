-- ===== src/QueuePc/Consumers.antt =====
-- include/brutils/queue_pc.h with several consumers that wait. Consumers are alike, so the state says how
-- many are at each place. `push` and `waitPop` hold the mutex, `stop` and `pop` do not.
pub mod Waiting
mod Tests
use brutils.Base.{
  ℕ, zero, suc, ◌+◌, ◌-◌, ◌≤◌, ◌≡◌, refl, ap, Bool, true, false, Option, none, some, List, [], ◌∷◌,
  length, length-append, ◌⊎◌, inl, inr, arith, ◌==◌, if◌then◌else◌,
}
use brutils.QueuePc.{Queue, push, stop, wait_pop, pop}

-- `tested`: a consumer has the mutex and has found that it must wait, but does not sleep yet. `asleep` sleep,
-- `woken` have been woken and need the mutex, `admitted` have got true from `waitPop`, and `refused` false.
pub record Hall {ℓ} (A : Type ℓ) : Type ℓ where
  pub queue : Queue A
  pub tested : Bool
  pub asleep : ℕ
  pub woken : ℕ
  pub admitted : ℕ
  pub refused : ℕ

pub data Move {ℓ} (A : Type ℓ) : Type ℓ where
  pushes : A → Move A
  enters sleeps wakes pops : Move A
  stops notifies : Move A

module _ {ℓ} {A : Type ℓ} where
  abbrev pub new_hall : Hall A
  new_hall = record {
    queue = record { items = []; stopped = false };
    tested = false;
    asleep = 0;
    woken = 0;
    admitted = 0;
    refused = 0;
  }

  -- `notify_one`, or a wakeup for no reason.
  unfoldable pub notify : Hall A → Hall A
  notify h = elim h.asleep [ zero ↦ h | suc n ↦ record h { asleep = n; woken = h.woken + 1 } ]

  -- A consumer with the mutex tests the predicate of `waitPop`, and returns or is to sleep.
  unfoldable pub test : Hall A → Hall A
  unfolding wait_pop
  test h = elim (wait_pop h.queue) [
    | none ↦ record h { tested = true }
    | some ready ↦
        if ready
        then record h { admitted = h.admitted + 1 }
        else record h { refused = h.refused + 1 }
  ]

  -- A move; one that cannot be made changes nothing. `none`: `front` of an empty queue.
  unfoldable pub move : Move A → Hall A → Option (Hall A)
  unfolding push stop pop notify test
  move (pushes x) h =
      if h.tested then some h else some (notify (record h { queue = push x h.queue }))
  move enters h = if h.tested then some h else some (test h)
  move sleeps h =
      if h.tested then some (record h { tested = false; asleep = h.asleep + 1 }) else some h
  move wakes h = elim h.woken [
    | zero ↦ some h
    | suc n ↦ if h.tested then some h else some (test (record h { woken = n }))
  ]
  move pops h = elim h.admitted [
    | zero ↦ some h
    | suc n ↦ elim (pop h.queue) [
      | none ↦ none
      | some p ↦ some (record h { admitted = n; queue = p.1 })
    ]
  ]
  move stops h = some (record h { queue = stop h.queue })
  move notifies h = some (notify h)

  unfoldable pub run : List (Move A) → Hall A → Option (Hall A)
  unfolding move
  run [] h = some h
  run (m ∷ ms) h = elim (move m h) [ none ↦ none | some h' ↦ run ms h' ]

  -- The consumers that are not outside.
  abbrev pub inside : Hall A → ℕ
  inside h = h.asleep + h.woken + h.admitted + (if h.tested then 1 else 0)

  -- A single consumer, which calls `waitPop` again only when it has left.
  unfoldable pub move_alone : Move A → Hall A → Option (Hall A)
  unfolding move
  move_alone enters h = if inside h == 0 then move enters h else some h
  move_alone m h = move m h

  unfoldable pub run_alone : List (Move A) → Hall A → Option (Hall A)
  unfolding move_alone
  run_alone [] h = some h
  run_alone (m ∷ ms) h = elim (move_alone m h) [ none ↦ none | some h' ↦ run_alone ms h' ]
