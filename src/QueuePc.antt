-- ===== src/QueuePc.antt =====
-- include/brutils/queue_pc.h: a queue between producers and consumers, for calls of which none is
-- inside the queue together with another. A consumer's `waitPop` and `pop` are two calls.
pub mod Consumers
mod Tests
use brutils.Base.{
  ℕ, zero, suc, ◌==◌, length, length-append, Bool-cases, ◌⊎◌, inl, inr, ◌≡◌, refl, Bool, true,
  false, Option, none, some, List, [], ◌∷◌, ◌++◌, append-nil, append_assoc, arith, if◌then◌else◌,
  ap, sym, ◌∙◌,
}

pub record Queue {ℓ} (A : Type ℓ) : Type ℓ where
  pub items : List A
  pub stopped : Bool

-- The calls that come, one after the other. `waits` is a consumer in `waitPop` that tests the predicate: if
-- it goes on waiting, it tests again when it is woken.
pub data Action {ℓ} (A : Type ℓ) : Type ℓ where
  pushes : A → Action A
  waits pops stops : Action A

-- What consumers have got: the answers of `waitPop`, `none` for one that waits, and the items of `pop`.
pub record Taken {ℓ} (A : Type ℓ) : Type ℓ where
  pub answers : List (Option Bool)
  pub got : List A

module _ {ℓ} {A : Type ℓ} where
  unfoldable pub push : A → Queue A → Queue A
  push item q = record q { items = q.items ++ item ∷ [] }

  unfoldable pub stop : Queue A → Queue A
  stop q = record q { stopped = true }

  -- `none`: the caller waits.
  unfoldable pub wait_pop : Queue A → Option Bool
  wait_pop q = if q.stopped then some false else elim q.items [ [] ↦ none | ◌∷◌ x xs ↦ some true ]

  -- `none`: `front` of an empty queue is undefined.
  unfoldable pub pop : Queue A → Option (A × Queue A)
  pop q = elim q.items [ [] ↦ none | ◌∷◌ x xs ↦ some (x, record q { items = xs }) ]

  -- `none`: something undefined has happened. What comes first is at the front.
  unfoldable pub run : List (Action A) → Queue A → Option (Taken A × Queue A)
  unfolding push stop wait_pop pop
  run [] q = some (record { answers = []; got = [] }, q)
  run (pushes x ∷ acts) q = run acts (push x q)
  run (stops ∷ acts) q = run acts (stop q)
  run (waits ∷ acts) q = elim (run acts q) [
    | none ↦ none
    | some r ↦ some (record (r.0) { answers = wait_pop q ∷ r.0.answers }, r.1)
  ]
  run (pops ∷ acts) q = elim (pop q) [
    | none ↦ none
    | some p ↦ elim (run acts p.1) [
      | none ↦ none
      | some r ↦ some (record (r.0) { got = p.0 ∷ r.0.got }, r.1)
    ]
  ]

  abbrev pub pushed : List (Action A) → List A
  pushed [] = []
  pushed (pushes x ∷ acts) = x ∷ pushed acts
  pushed (_ ∷ acts) = pushed acts

  -- Whether, with `n` items at first, each `pop` comes when more items have come than have gone.
  abbrev pub covered : ℕ → List (Action A) → Bool
  covered n [] = true
  covered n (pushes x ∷ acts) = covered (suc n) acts
  covered n (waits ∷ acts) = covered n acts
  covered n (stops ∷ acts) = covered n acts
  covered zero (pops ∷ acts) = false
  covered (suc n) (pops ∷ acts) = covered n acts

  -- The answers of `waitPop`, from the number of the items and whether `stop` has been called.
  abbrev pub answered : ℕ → Bool → List (Action A) → List (Option Bool)
  answered n halted [] = []
  answered n halted (pushes x ∷ acts) = answered (suc n) halted acts
  answered n halted (stops ∷ acts) = answered n true acts
  answered n halted (waits ∷ acts) =
      (if halted then some false else if n == 0 then none else some true) ∷ answered n halted acts
  answered zero halted (pops ∷ acts) = answered zero halted acts
  answered (suc n) halted (pops ∷ acts) = answered n halted acts

  -- What `run` gives: the items in order, and the answers.
  abbrev pub FirstInFirstOut : List (Action A) → Queue A → Option (Taken A × Queue A) → Type ℓ
  FirstInFirstOut acts q o =
      (t : Taken A) × (q' : Queue A) × (o ≡ some (t, q'))
      × (t.got ++ q'.items ≡ q.items ++ pushed acts)
      × (t.answers ≡ answered (length q.items) q.stopped acts)

  run-covered :
      (acts : List (Action A)) (xs : List A) (halted : Bool)
      → let q : Queue A = record { items = xs; stopped = halted } in
        covered (length xs) acts ≡ true → FirstInFirstOut acts q (run acts q)
  unfolding run push stop wait_pop pop
  run-covered [] xs halted h = (_, _, refl, sym (append-nil xs), refl)
  run-covered (pushes x ∷ acts) xs halted h =
      let more : length (xs ++ x ∷ []) ≡ suc (length xs) =
        omega (arith, length-append xs (x ∷ [])) in
      let (t, q', e, items, answers) =
        run-covered acts (xs ++ x ∷ []) halted (ap (λ (n : ℕ). covered n acts) more ∙ h) in
      (
        t,
        q',
        e,
        items ∙ append_assoc xs (x ∷ []) (pushed acts),
        answers ∙ ap (λ (n : ℕ). answered n halted acts) more,
      )
  run-covered (stops ∷ acts) xs halted h = run-covered acts xs true h
  run-covered (waits ∷ acts) xs halted h =
      let (t, q', e, items, answers) = run-covered acts xs halted h in
      (
        record t { answers = wait_pop (record { items = xs; stopped = halted }) ∷ t.answers },
        q',
        rw e refl,
        items,
        ap (λ l. wait_pop (record { items = xs; stopped = halted }) ∷ l) answers
            ∙ ap (λ o. o ∷ answered (length xs) halted acts) (wait_pop-items xs halted),
      )
    where
      wait_pop-items :
          (ys : List A) (b : Bool)
          → wait_pop (record { items = ys; stopped = b })
            ≡ (if b then some false else if length ys == 0 then none else some true)
      wait_pop-items [] b = refl
      wait_pop-items (y ∷ ys) b = ground arith
  run-covered (pops ∷ acts) [] halted h = absurd (ground arith)
  run-covered (pops ∷ acts) (x ∷ xs) halted h =
      let (t, q', e, items, answers) = run-covered acts xs halted h in
      (record t { got = x ∷ t.got }, q', rw e refl, ap (λ ys. x ∷ ys) items, answers)

  run-uncovered :
      (acts : List (Action A)) (xs : List A) (halted : Bool)
      → covered (length xs) acts ≡ false
      → run acts (record { items = xs; stopped = halted }) ≡ none
  unfolding run push stop wait_pop pop
  run-uncovered [] xs halted h = absurd (ground arith)
  run-uncovered (pushes x ∷ acts) xs halted h =
      let more : length (xs ++ x ∷ []) ≡ suc (length xs) =
        omega (arith, length-append xs (x ∷ [])) in
      run-uncovered acts (xs ++ x ∷ []) halted (ap (λ (n : ℕ). covered n acts) more ∙ h)
  run-uncovered (stops ∷ acts) xs halted h = run-uncovered acts xs true h
  run-uncovered (waits ∷ acts) xs halted h = rw (run-uncovered acts xs halted h) refl
  run-uncovered (pops ∷ acts) [] halted h = refl
  run-uncovered (pops ∷ acts) (x ∷ xs) halted h = rw (run-uncovered acts xs halted h) refl

  -- First in, first out, for calls that do not overlap. If each `pop` comes when more items have come
  -- than have gone, then the items that consumers get, followed by those still in the queue, are the
  -- items that were in it and those that were pushed, in order; and `waitPop` answers false once `stop` has
  -- been called, true while there are items, and else waits. If some `pop` comes too early, though
  -- `waitPop` may have answered true to its caller, something undefined happens.
  pub run-fifo :
      (acts : List (Action A)) (q : Queue A)
      → ((covered (length q.items) acts ≡ true) × FirstInFirstOut acts q (run acts q))
        ⊎ ((covered (length q.items) acts ≡ false) × (run acts q ≡ none))
  run-fifo acts q = elim (Bool-cases (covered (length q.items) acts)) [
    | inl h ↦ inl (h, run-covered acts q.items q.stopped h)
    | inr h ↦ inr (h, run-uncovered acts q.items q.stopped h)
  ]
