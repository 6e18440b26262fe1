-- ===== src/Timers/Keeper/Rounds.antt =====
-- What the thread of src/brutils/timers/TimeKeeper.cpp does with a book, round after round.
use brutils.Base.{
  ℕ, ◌≤◌, ◌<◌, ◌≡◌, Bool-cases, subst, refl, true, false, Option, none, some, List, [], ◌∷◌, ltb,
  ◌==◌, arith, inl, inr, ap, sym, ◌∙◌,
}
use brutils.Timers.Keeper.{
  TimeRecord, RecordBook, TimeKeeper, find_record, erase_record, closest_of, get_closest_record,
  wake, run_round, emitted, run,
}
use brutils.Timers.Keeper.Book.{
  IsKeyed, NoneBefore, AllAfter, Found, find_record_ne, closest_of-Found, closest_of_first,
  erase_record-NoneBefore, find_record-erase_record,
}

-- The book's first entry holds a record whose id is no key, and no other record ends before it.
abbrev pub IsStuck : TimeRecord → RecordBook → Type 0
IsStuck r [] = ⊥
IsStuck r (e ∷ es) = (e.1 ≡ r) × (find_record r.id (e ∷ es) ≡ none) × NoneBefore r.interval.end es

with_book : TimeKeeper → RecordBook → TimeKeeper
with_book t book = record t { record_book = book; notification = false }

-- A round over a book with records, after the time of the closest, `r`.
run_round-cons :
    (now : ℕ) (t : TimeKeeper) (e : ℕ × TimeRecord) (es : RecordBook) (r : TimeRecord)
    → closest_of e.1 es ≡ r
    → r.interval.end < now
    → run_round now (record t { record_book = e ∷ es }) ≡ (elim (find_record r.id ((e.0, r) ∷ es)) [
      | none ↦ (none, with_book t ((e.0, r) ∷ es))
      | some x ↦ (some r, with_book t (erase_record r.id ((e.0, r) ∷ es)))
    ])
unfolding run_round get_closest_record with_book
run_round-cons now t e es r c late =
    let over : ltb r.interval.end now ≡ true = ground arith in
    ap (λ x. wake now x ((e.0, x) ∷ es) t) c ∙ rw (over, wake) refl

run-cons :
    (now : ℕ) (times : List ℕ) (t t' : TimeKeeper) (o : Option TimeRecord)
    → run_round now t ≡ (o, t')
    → (run (now ∷ times) t).0 ≡ emitted o (run times t').0
unfolding run
run-cons now times t t' o e = ap (λ p. emitted p.0 (run times p.1).0) e

run_round-IsStuck :
    (now : ℕ) (r : TimeRecord) (t : TimeKeeper) (book : RecordBook)
    → IsStuck r book
    → r.interval.end < now
    → run_round now (record t { record_book = book }) ≡ (none, with_book t book)
run_round-IsStuck now r t [] stuck late = absurd stuck
run_round-IsStuck now r t (e ∷ es) (first, lost, none_before) late =
    let closest : closest_of e.1 es ≡ r =
      ap (λ x. closest_of x es) first ∙ closest_of_first r es none_before in
    let same : (e.0, r) ∷ es ≡ e ∷ es = ap (λ x. (e.0, x) ∷ es) (sym first) in
    let absent : find_record r.id ((e.0, r) ∷ es) ≡ none = ap (find_record r.id) same ∙ lost in
    run_round-cons now t e es r closest late ∙ rw absent (ap (λ b. (none, with_book t b)) same)

-- From then on the keeper emits nothing.
run-IsStuck :
    (times : List ℕ) (r : TimeRecord) (t : TimeKeeper) (book : RecordBook)
    → IsStuck r book
    → AllAfter r.interval.end times
    → (run times (record t { record_book = book })).0 ≡ []
unfolding run with_book emitted
run-IsStuck [] r t book stuck late = refl
run-IsStuck (now ∷ times) r t book stuck late =
    run-cons now times (record t { record_book = book }) (with_book t book) none
      (run_round-IsStuck now r t book stuck late.0)
    ∙ run-IsStuck times r (record t { notification = false }) book stuck late.1

-- The first round of a book whose closest record is not the first.
run_round-closest :
    (now : ℕ) (t : TimeKeeper) (e : ℕ × TimeRecord) (es : RecordBook) (r : TimeRecord)
    → e.0 ≡ e.1.id
    → find_record e.0 es ≡ none
    → closest_of e.1 es ≡ r
    → find_record r.id es ≡ some r
    → r.interval.end < now
    → run_round now (record t { record_book = e ∷ es })
      ≡ (some r, with_book t ((e.0, r) ∷ erase_record r.id es))
unfolding find_record erase_record
run_round-closest now t e es r key one closest there late =
    let other : (e.0 == r.id) ≡ false = find_record_ne e.0 r.id es r one there in
    let erased : erase_record r.id ((e.0, r) ∷ es) ≡ (e.0, r) ∷ erase_record r.id es =
      rw other refl in
    run_round-cons now t e es r closest late
    ∙ rw (other, there) (ap (λ b. (some r, with_book t b)) erased)

erase_record-IsStuck :
    (n : ℕ) (es : RecordBook) (r : TimeRecord)
    → IsKeyed es
    → find_record n es ≡ none
    → find_record r.id es ≡ some r
    → NoneBefore r.interval.end es
    → IsStuck r ((n, r) ∷ erase_record r.id es)
unfolding find_record
erase_record-IsStuck n es r keyed one there none_before =
    let other : (n == r.id) ≡ false = find_record_ne n r.id es r one there in
    (
      refl,
      rw other (find_record-erase_record r.id es keyed),
      erase_record-NoneBefore r.id r.interval.end es none_before,
    )

lt-irrefl_end : (r r' : TimeRecord) → r ≡ r' → r.interval.end < r'.interval.end → ⊥
lt-irrefl_end r r' same sooner =
    let e : r.interval.end ≡ r'.interval.end = ap (λ (x : TimeRecord). x.interval.end) same in
    omega arith

-- The rounds of a book whose closest record is not the first.
run-closest :
    (now : ℕ) (times : List ℕ) (t : TimeKeeper) (e : ℕ × TimeRecord) (es : RecordBook)
    (r : TimeRecord)
    → IsKeyed (e ∷ es)
    → closest_of e.1 es ≡ r
    → Found e.1 es r
    → r.interval.end < e.1.interval.end
    → AllAfter r.interval.end (now ∷ times)
    → (run (now ∷ times) (record t { record_book = e ∷ es })).0 ≡ r ∷ []
unfolding Found with_book emitted
run-closest now times t e es r k closest (none_before, inl same) sooner late =
    absurd (lt-irrefl_end r e.1 same sooner)
run-closest now times t e es r (key, one, keyed) closest (none_before, inr (there, less)) sooner
      late =
    run-cons now times (record t { record_book = e ∷ es })
      (with_book t ((e.0, r) ∷ erase_record r.id es)) (some r)
      (run_round-closest now t e es r key one closest there late.0)
    ∙ ap (λ l. r ∷ l)
        (run-IsStuck times r (record t { notification = false }) ((e.0, r) ∷ erase_record r.id es)
          (erase_record-IsStuck e.0 es r keyed one there none_before) late.1)

-- A book with each record under its own id and no id twice, in which some record ends before the one
-- that a loop meets first, and rounds that all come after the end of the closest record: the first
-- round emits that record, and no later round emits anything, however many follow: the other records
-- are never emitted.
pub run-closest_first :
    (now : ℕ) (times : List ℕ) (t : TimeKeeper) (e : ℕ × TimeRecord) (es : RecordBook)
    → t.record_book ≡ e ∷ es
    → IsKeyed (e ∷ es)
    → (closest_of e.1 es).interval.end < e.1.interval.end
    → AllAfter (closest_of e.1 es).interval.end (now ∷ times)
    → (run (now ∷ times) t).0 ≡ closest_of e.1 es ∷ []
run-closest_first now times t e es q k sooner late =
    ap (λ b. (run (now ∷ times) (record t { record_book = b })).0) q
    ∙ run-closest now times t e es (closest_of e.1 es) k refl (closest_of-Found e.1 es k.2) sooner
        late

-- A book whose first record is the closest: the first round after its time emits that record and takes
-- it out of the book, and the others stay.
run_round-first :
    (now : ℕ) (t : TimeKeeper) (e : ℕ × TimeRecord) (es : RecordBook)
    → t.record_book ≡ e ∷ es
    → e.0 ≡ e.1.id
    → NoneBefore e.1.interval.end es
    → e.1.interval.end < now
    → run_round now t ≡ (some e.1, record t { record_book = es; notification = false })
unfolding with_book find_record erase_record
run_round-first now t e es q key none_before late =
    let closest : closest_of e.1 es ≡ e.1 = closest_of_first e.1 es none_before in
    let found : (e.0 == e.1.id) ≡ true = ground arith in
    let erased : erase_record e.1.id ((e.0, e.1) ∷ es) ≡ es = rw found refl in
    ap (λ b. run_round now (record t { record_book = b })) q
    ∙ run_round-cons now t e es e.1 closest late
    ∙ rw found (ap (λ b. (some e.1, with_book t b)) erased)

pub NoneBefore-find_record :
    (date m : ℕ) (es : RecordBook) (x : TimeRecord)
    → NoneBefore date es
    → find_record m es ≡ some x
    → date ≤ x.interval.end
unfolding find_record
NoneBefore-find_record date m [] x h f = absurd (ground arith)
NoneBefore-find_record date m (e ∷ es) x h f = elim (Bool-cases (e.0 == m)) [
  | inl here ↦ let same : some e.1 ≡ some x = sym (rw here refl) ∙ f in ground arith
  | inr there ↦ NoneBefore-find_record date m es x h.1 (ground arith)
]

-- The closest record of a book is in it, and no other ends before it.
pub closest_of-NoneBefore :
    (e : ℕ × TimeRecord) (es : RecordBook)
    → IsKeyed (e ∷ es)
    → let r = closest_of e.1 es in
      (find_record r.id (e ∷ es) ≡ some r) × NoneBefore r.interval.end (e ∷ es)
unfolding Found find_record
closest_of-NoneBefore e es (key, one, keyed) =
    by_found (closest_of e.1 es) (closest_of-Found e.1 es keyed)
  where
    by_found :
        (r : TimeRecord)
        → Found e.1 es r
        → (find_record r.id (e ∷ es) ≡ some r) × NoneBefore r.interval.end (e ∷ es)
    by_found r (early, inl same) =
        let own_id : e.0 ≡ r.id = ground arith in
        let own_end : r.interval.end ≤ e.1.interval.end = ground arith in
        (ground arith, (own_end, early))
    by_found r (early, inr (there, sooner)) =
        (ground (arith, find_record_ne e.0 r.id es r one there), (omega arith, early))

-- A round after the end of the closest record emits it, and afterwards nothing is found under its id.
pub run_round-due :
    (now : ℕ) (t : TimeKeeper) (e : ℕ × TimeRecord) (es : RecordBook)
    → t.record_book ≡ e ∷ es
    → IsKeyed (e ∷ es)
    → (closest_of e.1 es).interval.end < now
    → let (sent, t') = run_round now t in
      let r = closest_of e.1 es in
      (sent ≡ some r) × (find_record r.id t'.record_book ≡ none) × (t'.notification ≡ false)
unfolding Found with_book find_record
run_round-due now t e es q (key, one, keyed) late =
    by_found (closest_of e.1 es) refl late (closest_of-Found e.1 es keyed)
  where
    Due : TimeRecord → Option TimeRecord × TimeKeeper → Type 0
    Due r p =
        (p.0 ≡ some r) × (find_record r.id p.1.record_book ≡ none) × (p.1.notification ≡ false)

    by_found :
        (r : TimeRecord)
        → closest_of e.1 es ≡ r
        → r.interval.end < now
        → Found e.1 es r
        → Due r (run_round now t)
    by_found r closest late' (early, inl same) =
        let early' : NoneBefore e.1.interval.end es =
          subst (λ x. NoneBefore x.interval.end es) same early in
        let absent : find_record r.id es ≡ none =
          ap (λ x. find_record x.id es) same ∙ ap (λ (i : ℕ). find_record i es) (sym key) ∙ one in
        subst (Due r)
          (sym (
            run_round-first now t e es q key early' (subst (λ x. x.interval.end < now) same late')))
          (ap some (sym same), absent, refl)
    by_found r closest late' (early, inr (there, sooner)) =
        let other : (e.0 == r.id) ≡ false = find_record_ne e.0 r.id es r one there in
        subst (Due r)
          (sym (
            ap (λ b. run_round now (record t { record_book = b })) q
            ∙ run_round-closest now t e es r key one closest there late'))
          (refl, rw other (find_record-erase_record r.id es keyed), refl)
