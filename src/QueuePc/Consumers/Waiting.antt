-- ===== src/QueuePc/Consumers/Waiting.antt =====
-- How long the consumers of include/brutils/queue_pc.h wait.
use brutils.Base.{
  ℕ, ◌+◌, ◌-◌, ◌≤◌, ◌≡◌, refl, Bool, true, false, Option, none, some, List, [], ◌∷◌, length,
  length-append, ◌⊎◌, inl, inr, arith,
}
use brutils.QueuePc.{push, stop, wait_pop, pop}
use brutils.QueuePc.Consumers.{
  Hall, new_hall, Move, pushes, enters, sleeps, wakes, pops, stops, notifies, notify, test, move,
  run, inside, move_alone, run_alone,
}

module _ {ℓ} {A : Type ℓ} where
  -- What holds of a state, if there is one.
  abbrev Holds : (Hall A → Type 0) → Option (Hall A) → Type 0
  Holds P none = Unit
  Holds P (some h) = P h

  -- Something undefined has happened, or `P` holds in the end.
  abbrev pub Ended : (Hall A → Type 0) → Option (Hall A) → Type ℓ
  Ended P o = (o ≡ none) ⊎ ((h : Hall A) × (o ≡ some h) × P h)

  -- A list of moves all of which are of a kind.
  abbrev pub AllMoves : (Move A → Bool) → List (Move A) → Type 0
  AllMoves kind [] = Unit
  AllMoves kind (m ∷ ms) = (kind m ≡ true) × AllMoves kind ms

  run-keeps :
      (P : Hall A → Type 0) (kind : Move A → Bool)
      → ((m : Move A) (h : Hall A) → kind m ≡ true → P h → Holds P (move m h))
      → (ms : List (Move A)) (h : Hall A) → AllMoves kind ms
      → P h
      → Ended P (run ms h)
  unfolding run
  run-keeps P kind step [] h k p = inr (h, refl, p)
  run-keeps P kind step (m ∷ ms) h k p =
      go (move m h) (step m h k.0 p) (λ h'. run-keeps P kind step ms h' k.1)
    where
      go :
          (o : Option (Hall A))
          → Holds P o
          → ((h' : Hall A) → P h' → Ended P (run ms h'))
          → Ended P (elim o [ none ↦ none | some h' ↦ run ms h' ])
      go none t rest = inl refl
      go (some h') p' rest = rest h' p'

  -- No consumer sleeps, or as many are on their way to an item as there are items. A consumer that is
  -- about to sleep has found no item.
  abbrev pub IsServed : Hall A → Type 0
  IsServed h =
      (h.queue.stopped ≡ false)
      × ((h.tested ≡ false) ⊎ (length h.queue.items ≡ 0))
      × ((h.asleep ≡ 0) ⊎ (length h.queue.items ≤ h.woken + h.admitted))

  abbrev pub is_no_stop : Move A → Bool
  is_no_stop stops = false
  is_no_stop _ = true

  move-IsServed :
      (m : Move A) (h : Hall A) → is_no_stop m ≡ true → IsServed h → Holds IsServed (move m h)
  unfolding move push pop notify test wait_pop
  move-IsServed (pushes x) h k s = ground (arith, s, length-append h.queue.items (x ∷ []))
  move-IsServed enters h k s = ground (arith, s)
  move-IsServed sleeps h k s = ground (arith, s)
  move-IsServed wakes h k s = ground (arith, s)
  move-IsServed pops h k s = ground (arith, s)
  move-IsServed stops h k s = absurd (ground (arith, k))
  move-IsServed notifies h k s = ground (arith, s)

  -- A new queue, with any number of consumers, and any moves but `stop`: unless `pop` has met an empty
  -- queue, no wakeup has been lost: as long as a consumer sleeps there are at least as many consumers
  -- that have been woken or admitted as there are items, and a consumer that is about to sleep has
  -- found none.
  run-IsServed : (ms : List (Move A)) → AllMoves is_no_stop ms → Ended IsServed (run ms new_hall)
  run-IsServed ms k =
      run-keeps IsServed is_no_stop move-IsServed ms new_hall k (refl, inl refl, inl refl)

  -- The moves that wake nobody up.
  abbrev pub is_quiet : Move A → Bool
  is_quiet (pushes x) = false
  is_quiet notifies = false
  is_quiet _ = true

  -- There is a state, and `P` holds of it.
  abbrev Certain : (Hall A → Type 0) → Option (Hall A) → Type 0
  Certain P none = ⊥
  Certain P (some h) = P h

  run-Certain :
      (P : Hall A → Type 0) (kind : Move A → Bool)
      → ((m : Move A) (h : Hall A) → kind m ≡ true → P h → Certain P (move m h))
      → (ms : List (Move A)) (h : Hall A) → AllMoves kind ms
      → P h
      → (h' : Hall A) × (run ms h ≡ some h') × P h'
  unfolding run
  run-Certain P kind step [] h k p = (h, refl, p)
  run-Certain P kind step (m ∷ ms) h k p =
      go (move m h) (step m h k.0 p) (λ h'. run-Certain P kind step ms h' k.1)
    where
      go :
          (o : Option (Hall A))
          → Certain P o
          → ((h' : Hall A) → P h' → (h'' : Hall A) × (run ms h' ≡ some h'') × P h'')
          → (h' : Hall A) × ((elim o [ none ↦ none | some h'' ↦ run ms h'' ]) ≡ some h') × P h'
      go none t rest = absurd t
      go (some h') p' rest = rest h' p'

  -- The queue has been stopped, at least so many consumers sleep, and for each that has been admitted
  -- there is an item.
  abbrev pub IsLeft : ℕ → Hall A → Type 0
  IsLeft n h = (h.queue.stopped ≡ true) × (n ≤ h.asleep) × (h.admitted ≤ length h.queue.items)

  move-IsLeft :
      (n : ℕ) (m : Move A) (h : Hall A)
      → is_quiet m ≡ true
      → IsLeft n h
      → Certain (IsLeft n) (move m h)
  unfolding move pop stop test wait_pop
  move-IsLeft n (pushes x) h k s = absurd (ground (arith, k))
  move-IsLeft n enters h k s = ground (arith, s)
  move-IsLeft n sleeps h k s = ground (arith, s)
  move-IsLeft n wakes h k s = ground (arith, s)
  move-IsLeft n pops h k s = ground (arith, s)
  move-IsLeft n stops h k s = ground (arith, s)
  move-IsLeft n notifies h k s = absurd (ground (arith, k))

  -- `stop` and its notification, in a state with an item for each consumer that has been admitted, and
  -- then moves among which there is no `push` and no further wakeup: no `pop` meets an empty queue,
  -- and all consumers that slept before, but one, still sleep, though the queue has been stopped.
  pub stop-IsLeft :
      (ms : List (Move A)) (h : Hall A)
      → h.admitted ≤ length h.queue.items
      → AllMoves is_quiet ms
      → (h' : Hall A) × (run (stops ∷ notifies ∷ ms) h ≡ some h') × IsLeft (h.asleep - 1) h'
  unfolding run move notify stop
  stop-IsLeft ms h room k =
      run-Certain (IsLeft (h.asleep - 1)) is_quiet (move-IsLeft (h.asleep - 1)) ms
        (notify (record h { queue = stop h.queue })) k (ground (arith, room))

  -- One consumer at most, and an item for it when it has been admitted. Before a call of `stop` it
  -- sleeps, or is about to, only while there is no item.
  abbrev pub IsAlone : Hall A → Type 0
  IsAlone h =
      (inside h ≤ 1)
      × (h.admitted ≤ length h.queue.items)
      × ((h.queue.stopped ≡ true)
          ⊎ (((h.asleep ≡ 0) × (h.tested ≡ false)) ⊎ (length h.queue.items ≡ 0)))

  move_alone-IsAlone : (m : Move A) (h : Hall A) → IsAlone h → Certain IsAlone (move_alone m h)
  unfolding move_alone move push stop pop notify test wait_pop
  move_alone-IsAlone (pushes x) h s = ground (arith, s, length-append h.queue.items (x ∷ []))
  move_alone-IsAlone enters h s = ground (arith, s)
  move_alone-IsAlone sleeps h s = ground (arith, s)
  move_alone-IsAlone wakes h s = ground (arith, s)
  move_alone-IsAlone pops h s = ground (arith, s)
  move_alone-IsAlone stops h s = ground (arith, s)
  move_alone-IsAlone notifies h s = ground (arith, s)

  run_alone-IsAlone :
      (ms : List (Move A)) (h : Hall A)
      → IsAlone h
      → (h' : Hall A) × (run_alone ms h ≡ some h') × IsAlone h'
  unfolding run_alone
  run_alone-IsAlone [] h s = (h, refl, s)
  run_alone-IsAlone (m ∷ ms) h s =
      go (move_alone m h) (move_alone-IsAlone m h s) (λ h'. run_alone-IsAlone ms h')
    where
      go :
          (o : Option (Hall A))
          → Certain IsAlone o
          → ((h' : Hall A)
              → IsAlone h'
              → (h'' : Hall A) × (run_alone ms h' ≡ some h'') × IsAlone h'')
          → (h' : Hall A) × ((elim o [ none ↦ none | some h'' ↦ run_alone ms h'' ]) ≡ some h')
            × IsAlone h'
      go none t rest = absurd t
      go (some h') s' rest = rest h' s'

  -- A new queue with one consumer at a time, whatever is pushed and whenever it is stopped or woken:
  -- `pop` never meets an empty queue, since there is an item whenever the consumer has been admitted;
  -- and as long as the queue has not been stopped, the consumer sleeps, or is about to, only while the
  -- queue is empty.
  pub run_alone-new_hall :
      (ms : List (Move A)) → (h : Hall A) × (run_alone ms new_hall ≡ some h) × IsAlone h
  run_alone-new_hall ms =
      run_alone-IsAlone ms new_hall (omega arith, omega arith, inr (inl (refl, refl)))
