-- ===== src/Timers/Keeper/Ids.antt =====
-- The ids of records in src/brutils/timers/TimeKeeper.cpp.
use brutils.Base.{
  ℕ, zero, suc, ◌+◌, ◌-◌, ◌*◌, ◌/◌, ◌%◌, ◌≤◌, ◌<◌, ◌≡◌, ◌≢◌, refl, true, false, none, some, List,
  [], ◌∷◌, length, ◌==◌, if◌then◌else◌, arith, inl, inr, Option-cases, subst, ap, sym, ◌∙◌,
}
use brutils.Timers.Keeper.{
  TimeRecord, RecordBook, TimeKeeper, ok, id_count, max_id, find_record, erase_record, place_record,
  rehash, ticks_per_millisecond, free_id, add_record,
}

-- The `f` ids from `n` on, modulo 2 ^ 16, are all in the book.
AllUsed : ℕ → ℕ → RecordBook → Type 0
AllUsed f n book = (j : ℕ) → j < f → find_record ((n + j) % id_count) book ≢ none

length-erase_record :
    (n : ℕ) (book : RecordBook)
    → find_record n book ≢ none
    → suc (length (erase_record n book)) ≡ length book
unfolding find_record erase_record
length-erase_record n [] h = absurd (h refl)
length-erase_record n (e ∷ es) h = ground (arith, length-erase_record n es)

find_record-erase_record_ne :
    (n m : ℕ) (book : RecordBook)
    → (n == m) ≡ false
    → find_record m (erase_record n book) ≡ find_record m book
unfolding find_record erase_record
find_record-erase_record_ne n m [] h = refl
find_record-erase_record_ne n m (e ∷ es) h = ground (arith, find_record-erase_record_ne n m es h)

-- Ids that are all in the book are no more than its records.
AllUsed-le :
    (f n : ℕ) (book : RecordBook) → n < id_count → f ≤ id_count → AllUsed f n book → f ≤ length book
unfolding AllUsed
AllUsed-le zero n book l m used = omega arith
AllUsed-le (suc f) n book l m used =
    let here : (n + 0) % id_count ≡ n = omega arith in
    let first : find_record n book ≢ none =
      subst (λ k. find_record k book ≢ none) here (used 0 (omega arith)) in
    let others =
      AllUsed-le f ((n + 1) % id_count) (erase_record n book) (omega arith) (omega arith) (λ j k e.
        let same : ((n + 1) % id_count + j) % id_count ≡ (n + suc j) % id_count = omega arith in
        let apart : (n == (n + suc j) % id_count) ≡ false = ground arith in
        used (suc j) (omega arith) (
          sym (find_record-erase_record_ne n ((n + suc j) % id_count) book apart)
          ∙ ap (λ i. find_record i (erase_record n book)) (sym same)
          ∙ e)) in
    omega (arith, others, length-erase_record n book first)

-- When the search gives up, it has seen only ids that are used.
free_id-AllUsed :
    (f n : ℕ) (book : RecordBook) → n < id_count → free_id f n book ≡ none → AllUsed f n book
unfolding AllUsed free_id
free_id-AllUsed zero n book l e j lt = absurd (omega arith)
free_id-AllUsed (suc f) n book l e zero lt = λ k.
    let here : (n + 0) % id_count ≡ n = omega arith in
    let free : find_record n book ≡ none = ap (λ i. find_record i book) (sym here) ∙ k in
    ground arith
free_id-AllUsed (suc f) n book l e (suc j) lt = λ k.
    let same : ((n + 1) % id_count + j) % id_count ≡ (n + suc j) % id_count = omega arith in
    elim (Option-cases (find_record n book)) [
      | inl free ↦ ground arith
      | inr (r, taken) ↦
          let later : free_id f ((n + 1) % id_count) book ≡ none = ground arith in
          free_id-AllUsed f ((n + 1) % id_count) book (omega arith) later j (omega arith)
            (ap (λ i. find_record i book) same ∙ k)
    ]

free_id-some :
    (f n m : ℕ) (book : RecordBook)
    → n < id_count
    → free_id f n book ≡ some m
    → (find_record m book ≡ none) × (m < id_count)
unfolding free_id
free_id-some zero n m book l e = absurd (ground arith)
free_id-some (suc f) n m book l e = elim (Option-cases (find_record n book)) [
  | inl free ↦ ground arith
  | inr (r, taken) ↦
      let later : free_id f ((n + 1) % id_count) book ≡ some m = ground arith in
      free_id-some f ((n + 1) % id_count) m book (omega arith) later
]

-- With room in the book, one round more than there are records is enough to find a free id.
free_id_total :
    (n : ℕ) (book : RecordBook)
    → n < id_count
    → length book ≤ max_id
    → (m : ℕ) × (free_id (suc (length book)) n book ≡ some m)
      × (find_record m book ≡ none)
      × (m < id_count)
free_id_total n book l room = elim (Option-cases (free_id (suc (length book)) n book)) [
  | inl none_left ↦
      let used = free_id-AllUsed (suc (length book)) n book l none_left in
      absurd (omega (arith, AllUsed-le (suc (length book)) n book l (omega arith) used))
  | inr (m, e) ↦
      let (free, small) = free_id-some (suc (length book)) n m book l e in (m, e, free, small)
]

find_record-place_record :
    (k : ℕ) (e : ℕ × TimeRecord) (book : RecordBook) (m : ℕ)
    → find_record e.0 book ≡ none
    → find_record m (place_record k e book) ≡ (if e.0 == m then some e.1 else find_record m book)
unfolding find_record place_record
find_record-place_record zero e book m h = refl
find_record-place_record (suc k) e [] m h = refl
find_record-place_record (suc k) e (x ∷ es) m h = ground (arith, find_record-place_record k e es m)

length-place_record :
    (k : ℕ) (e : ℕ × TimeRecord) (book : RecordBook)
    → length (place_record k e book) ≡ suc (length book)
unfolding place_record
length-place_record zero e book = refl
length-place_record (suc k) e [] = refl
length-place_record (suc k) e (x ∷ es) = ap suc (length-place_record k e es)

-- A key has one entry.
abbrev pub OneKey : RecordBook → Type 0
OneKey [] = Unit {0}
OneKey (e ∷ es) = (find_record e.0 es ≡ none) × OneKey es

place_record-OneKey :
    (k : ℕ) (e : ℕ × TimeRecord) (book : RecordBook)
    → find_record e.0 book ≡ none
    → OneKey book
    → OneKey (place_record k e book)
unfolding find_record place_record
place_record-OneKey zero e book free one = (free, one)
place_record-OneKey (suc k) e [] free one = (refl, tt)
place_record-OneKey (suc k) e (x ∷ es) free one =
    let other : (e.0 == x.0) ≡ false = ground arith in
    let free' : find_record e.0 es ≡ none = ground arith in
    (
      find_record-place_record k e es x.0 free' ∙ rw other one.0,
      place_record-OneKey k e es free' one.1,
    )

-- The order of the entries makes no difference to what a table holds.
find_record-rehash :
    (ks : List ℕ) (book : RecordBook)
    → OneKey book
    → OneKey (rehash ks book)
      × (length (rehash ks book) ≡ length book)
      × ((m : ℕ) → find_record m (rehash ks book) ≡ find_record m book)
unfolding find_record rehash
find_record-rehash [] book one = (one, refl, λ m. refl)
find_record-rehash (k ∷ ks) [] one = (tt, refl, λ m. refl)
find_record-rehash (k ∷ ks) (e ∷ es) one =
    let (one', count, found) = find_record-rehash ks es one.1 in
    let free : find_record e.0 (rehash ks es) ≡ none = found e.0 ∙ one.0 in
    (
      place_record-OneKey k e (rehash ks es) free one',
      length-place_record k e (rehash ks es) ∙ ap suc count,
      λ m.
          find_record-place_record k e (rehash ks es) m free
          ∙ ap (λ o. if e.0 == m then some e.1 else o) (found m),
    )

-- The counter is below 2 ^ 16, there are no more records than ids but one, and a key has one entry.
abbrev pub IsBounded : TimeKeeper → Type 0
IsBounded t = (t.last_record_id < id_count) × (length t.record_book ≤ max_id) × OneKey t.record_book

-- A record for a time that is not over, added without holding the mutex to a keeper within the bounds
-- that has fewer than 2 ^ 16 - 1 records: the search for an id ends, with one that no record has; the
-- new record lasts from now until that time, and its duration is the number of whole milliseconds in
-- between; it is found under its id, and what is found under the others is as it was, into whatever
-- order the table brings its entries; and the keeper is within the bounds again.
pub add_record-IsBounded :
    (now end_tp : ℕ) (places : List ℕ) (t : TimeKeeper)
    → now ≤ end_tp
    → IsBounded t
    → length t.record_book < max_id
    → (r : TimeRecord) × (t' : TimeKeeper) × (add_record false now end_tp places t ≡ ok (r, t'))
      × (find_record r.id t.record_book ≡ none)
      × (r.id < id_count)
      × (r.interval ≡ record { start = now; end = end_tp })
      × (now + r.duration * ticks_per_millisecond ≤ end_tp)
      × (end_tp < now + (r.duration + 1) * ticks_per_millisecond)
      × IsBounded t'
      × ((m : ℕ)
          → find_record m t'.record_book
            ≡ (if r.id == m then some r else find_record m t.record_book))
unfolding add_record find_record
add_record-IsBounded now end_tp places t le bounds room =
    let book = t.record_book in
    let (n, found, free, small) = free_id_total t.last_record_id book bounds.0 (omega arith) in
    let r : TimeRecord = record {
      id = n;
      duration = (end_tp - now) / ticks_per_millisecond;
      interval = record { start = now; end = end_tp };
    } in
    let (one, count, kept) = find_record-rehash places ((n, r) ∷ book) (free, bounds.2) in
    let t' : TimeKeeper = record {
      last_record_id = (t.last_record_id + 1) % id_count;
      notification = true;
      record_book = rehash places ((n, r) ∷ book);
    } in
    (
      r,
      t',
      ground arith,
      free,
      small,
      refl,
      omega arith,
      omega arith,
      (omega arith, omega (arith, count), one),
      kept,
    )
