-- ===== src/Timers/Keeper/Thread/Rounds.antt =====
-- A round of the thread of src/brutils/timers/TimeKeeper.cpp, from its moves.
use brutils.Base.{
  ℕ, ◌≤◌, ◌≡◌, refl, sym, ap, ◌∙◌, Bool, true, false, ◌||◌, Option, none, some, List, [], ◌∷◌,
  arith, ltb, leb, if◌then◌else◌, if_true, if_false, Bool-cases, ◌<◌, subst, inl, inr, ◌⊎◌,
}
use brutils.Timers.Keeper.{
  TimeRecord, TimeKeeper, RecordBook, find_record, closest_of, get_closest_record, run_round,
  emitted,
}
use brutils.Timers.Keeper.Book.{IsKeyed, NoneBefore}
use brutils.Timers.Keeper.Rounds.{closest_of-NoneBefore, NoneBefore-find_record, run_round-due}
use brutils.Timers.Keeper.Thread.{Place, looping, entered, Runner, after_wait, own}

-- Moves of the thread at the given times, and all that they emit.
unfoldable pub own_run : List ℕ → Runner → List TimeRecord × Runner
unfolding own emitted
own_run [] w = ([], w)
own_run (now ∷ times) w = let p = own now w in let q = own_run times p.0 in (emitted p.1 q.0, q.1)

-- At a place, while the keeper runs.
abbrev pub at_place : TimeKeeper → Place → Runner
at_place t p = record { keeper = t; running = true; place = p }

-- Whether the thread does not sleep in the round: it has been notified, or the closest record is over.
unfoldable pub stays_awake : ℕ → TimeKeeper → Bool
unfolding get_closest_record
stays_awake now t = t.notification || (elim (get_closest_record t.record_book) [
  | none ↦ false
  | some p ↦ ltb p.0.interval.end now
])

-- There is a record, and the closest one ends by the time.
abbrev pub IsDue : ℕ → RecordBook → Type 0
IsDue now [] = ⊥
IsDue now (e ∷ es) = (closest_of e.1 es).interval.end ≤ now

-- What a round gives.
unfoldable pub round_at : ℕ → TimeKeeper → List TimeRecord × Runner
unfolding run_round emitted
round_at now t = (
  emitted (run_round now t).0 [],
  record { keeper = (run_round now t).1; running = true; place = looping },
)

-- A move and its emission, as a run of moves has them at its end.
last_move : Runner × Option TimeRecord → List TimeRecord × Runner
unfolding emitted
last_move p = (emitted p.1 [], p.0)

-- A move and its emission, before a run of moves.
more : List ℕ → Runner × Option TimeRecord → List TimeRecord × Runner
unfolding own_run emitted
more times p = let q = own_run times p.0 in (emitted p.1 q.0, q.1)

own_run-awake :
    (a b : ℕ) (t : TimeKeeper) (book : RecordBook)
    → stays_awake b (record t { record_book = book }) ≡ true
    → own_run (a ∷ b ∷ []) (at_place (record t { record_book = book }) entered)
      ≡ round_at b (record t { record_book = book })
unfolding own_run own stays_awake get_closest_record after_wait run_round emitted round_at last_move
own_run-awake a b t [] h = ap last_move (if_true t.notification _ _ (ground (arith, h)))
own_run-awake a b t (e ∷ es) h =
    ap last_move (if_true (t.notification || ltb (closest_of e.1 es).interval.end b) _ _ h)

own_run-asleep :
    (a b c d : ℕ) (t : TimeKeeper) (book : RecordBook)
    → stays_awake b (record t { record_book = book }) ≡ false
    → IsDue d book
    → own_run (a ∷ b ∷ c ∷ d ∷ []) (at_place (record t { record_book = book }) entered)
      ≡ round_at d (record t { record_book = book })
unfolding own_run own stays_awake get_closest_record after_wait run_round emitted round_at last_move
    more
own_run-asleep a b c d t [] h k = absurd k
own_run-asleep a b c d t (e ∷ es) h k =
    let r = closest_of e.1 es in
    ap (more (c ∷ d ∷ [])) (if_false (t.notification || ltb r.interval.end b) _ _ h)
    ∙ ap last_move (if_true (leb r.interval.end d) _ _ (ground (arith, k)))

-- A round of the thread, while no other thread comes in between, is a round of `run`. It is two moves
-- if the keeper has been notified or the closest record is over at the second; and else, with a record
-- in the book that is over at the fourth, four moves, with a sleep in between. It emits the same record
-- and leaves the same keeper as a round at the time of its last move, and the thread begins anew.
own_run-run_round :
    (a b c d : ℕ) (t : TimeKeeper)
    → (stays_awake b t ≡ true) ⊎ IsDue d t.record_book
    → own_run (if stays_awake b t then a ∷ b ∷ [] else a ∷ b ∷ c ∷ d ∷ []) (at_place t entered)
      ≡ round_at (if stays_awake b t then b else d) t
own_run-run_round a b c d t h = elim (Bool-cases (stays_awake b t)) [
  | inl awake ↦
      ap (λ s. own_run s (at_place t entered))
        (if_true (stays_awake b t) (a ∷ b ∷ []) (a ∷ b ∷ c ∷ d ∷ []) awake)
      ∙ own_run-awake a b t t.record_book awake
      ∙ ap (λ (now : ℕ). round_at now t) (sym (if_true (stays_awake b t) b d awake))
  | inr sleeps ↦
      ap (λ s. own_run s (at_place t entered))
        (if_false (stays_awake b t) (a ∷ b ∷ []) (a ∷ b ∷ c ∷ d ∷ []) sleeps)
      ∙ own_run-asleep a b c d t t.record_book sleeps (due h sleeps)
      ∙ ap (λ (now : ℕ). round_at now t) (sym (if_false (stays_awake b t) b d sleeps))
]
  where
    due :
        (stays_awake b t ≡ true) ⊎ IsDue d t.record_book
        → stays_awake b t ≡ false
        → IsDue d t.record_book
    due (inl awake) sleeps = absurd (ground (arith, awake, sleeps))
    due (inr k) sleeps = k

-- A round of the thread, from where it has the mutex and while no other thread comes in between, over
-- a book with each record under its own id and no id twice. It makes two moves if the keeper has been
-- notified or the closest record is over at the second, and else four, with a sleep in between. If some record of the
-- book is over at the last of them, then the round emits exactly one record, which is in the book and
-- than which no other ends before; afterwards nothing is found under its id, the notification is taken
-- back, and the thread begins anew.
pub own_run-due :
    (a b c d m : ℕ) (t : TimeKeeper) (x : TimeRecord)
    → IsKeyed t.record_book
    → find_record m t.record_book ≡ some x
    → x.interval.end < (if stays_awake b t then b else d)
    → let (sent, w) =
        own_run (if stays_awake b t then a ∷ b ∷ [] else a ∷ b ∷ c ∷ d ∷ []) (at_place t entered) in
      (r : TimeRecord) × (sent ≡ r ∷ [])
      × (find_record r.id t.record_book ≡ some r)
      × NoneBefore r.interval.end t.record_book
      × (find_record r.id w.keeper.record_book ≡ none)
      × (w.keeper.notification ≡ false)
      × (w.place ≡ looping)
unfolding round_at find_record emitted
own_run-due a b c d m t x keyed found late = by_book t.record_book refl keyed found
  where
    last : ℕ
    last = if stays_awake b t then b else d

    Sent : RecordBook → List TimeRecord × Runner → Type 0
    Sent book p =
        (r : TimeRecord) × (p.0 ≡ r ∷ [])
        × (find_record r.id book ≡ some r)
        × NoneBefore r.interval.end book
        × (find_record r.id p.1.keeper.record_book ≡ none)
        × (p.1.keeper.notification ≡ false)
        × (p.1.place ≡ looping)

    by_book :
        (book : RecordBook)
        → t.record_book ≡ book
        → IsKeyed book
        → find_record m book ≡ some x
        → Sent t.record_book (
            own_run
              (if stays_awake b t then a ∷ b ∷ [] else a ∷ b ∷ c ∷ d ∷ [])
              (at_place t entered))
    by_book [] q k f = absurd (ground arith)
    by_book (e ∷ es) q k f =
        let (there, early) = closest_of-NoneBefore e es k in
        let over : (closest_of e.1 es).interval.end < last =
          omega (arith, NoneBefore-find_record _ m (e ∷ es) x early f) in
        let due : (stays_awake b t ≡ true) ⊎ IsDue d t.record_book =
          elim (Bool-cases (stays_awake b t)) [
            | inl awake ↦ inl awake
            | inr sleeps ↦ inr (rw q (ground arith))
          ] in
        let (sent, gone, quiet) = run_round-due last t e es q k over in
        subst (Sent t.record_book) (sym (own_run-run_round a b c d t due)) (
          closest_of e.1 es,
          ap (λ o. emitted o []) sent,
          rw q there,
          rw q early,
          gone,
          quiet,
          refl,
        )
