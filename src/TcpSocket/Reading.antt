-- ===== src/TcpSocket/Reading.antt =====
-- `readFromSocket` of src/brutils/TcpSocket/TcpSocket.cpp followed by `read`, against the bytes that
-- stand in the results of `recv`.
use brutils.Base.{
  ℕ, ◌+◌, ◌≡◌, refl, ap, sym, ◌∙◌, Bytes, Bool, true, false, Option, none, some, List, [], ◌∷◌,
  ◌++◌, append-nil, append_assoc, length, length-append, ltb, ◌==◌, if◌then◌else◌, arith,
  Bool-cases, inl, inr, subst,
}
use brutils.TcpSocket.{
  TcpSocket, System, Call, Received, received, failed, Event, Step, connected, incoming_data_size,
  disconnect, fail_with, after, is_connected, emit_disconnected, emit_data_ready,
}
use brutils.TcpSocket.Transfer.{receive, read_from_socket, read}

-- The bytes up to the first result that does not fill the array.
abbrev pub content : List Received → Bytes
content [] = []
content (failed errno ∷ rs) = []
content (received bytes ∷ rs) =
    let more = bytes ++ content rs in if length bytes == incoming_data_size then more else bytes

-- Some result does not fill the array.
abbrev pub HasEnd : List Received → Type 0
HasEnd [] = ⊥
HasEnd (failed errno ∷ rs) = Unit {0}
HasEnd (received bytes ∷ rs) = ((length bytes == incoming_data_size) ≡ true) → HasEnd rs

abbrev pub is_data_ready : Event → ℕ
is_data_ready emit_data_ready = 1
is_data_ready _ = 0

-- How often `dataReady` is emitted.
abbrev pub data_ready_count : List Event → ℕ
data_ready_count [] = 0
data_ready_count (e ∷ es) = is_data_ready e + data_ready_count es

data_ready_count-append :
    (es fs : List Event) → data_ready_count (es ++ fs) ≡ data_ready_count es + data_ready_count fs
data_ready_count-append [] fs = omega arith
data_ready_count-append (e ∷ es) fs = omega (arith, data_ready_count-append es fs)

-- What the loop has done: the bytes in the buffer, their number, and no `dataReady` so far.
abbrev ReceivedAll : Bytes → ℕ → TcpSocket → Option (Step ℕ) → Type 0
ReceivedAll bytes total w none = ⊥
ReceivedAll bytes total w (some (n, w', es)) =
    (w'.data_buffer ≡ w.data_buffer ++ bytes)
    × (n ≡ total + length bytes)
    × (data_ready_count es ≡ 0)

length_zero : (bytes : Bytes) → (length bytes == 0) ≡ true → bytes ≡ []
length_zero [] e = refl
length_zero (b ∷ bs) e = absurd (ground arith)

closed-ReceivedAll :
    (os : System) (closing : Call) (same_thread : Bool) (total : ℕ) (w : TcpSocket)
    → let s = disconnect os closing same_thread w in
      ReceivedAll [] total w (some (total, s.1, s.2 ++ emit_disconnected ∷ []))
unfolding disconnect fail_with after
closed-ReceivedAll os closing same_thread total w = ground (arith, append-nil w.data_buffer)

ReceivedAll-append :
    (bytes more : Bytes) (total : ℕ) (w : TcpSocket) (r : Option (Step ℕ))
    → ReceivedAll more (total + length bytes) (record w { data_buffer = w.data_buffer ++ bytes }) r
    → ReceivedAll (bytes ++ more) total w r
ReceivedAll-append bytes more total w none h = h
ReceivedAll-append bytes more total w (some (n, w', es)) (buffer, count, quiet) = (
  buffer ∙ append_assoc w.data_buffer bytes more,
  omega (arith, count, length-append bytes more),
  quiet,
)

module _ (os : System) (closing : Call) (same_thread : Bool) where
  receive-full :
      (bytes : Bytes) (rs : List Received) (total : ℕ) (w : TcpSocket)
      → (length bytes == incoming_data_size) ≡ true
      → receive os closing same_thread (received bytes ∷ rs) total w
        ≡ receive os closing same_thread rs
            (total + length bytes)
            (record w { data_buffer = w.data_buffer ++ bytes })
  unfolding receive
  receive-full bytes rs total w full =
      let some_bytes : (length bytes == 0) ≡ false = ground arith in rw (some_bytes, full) refl

  receive-short :
      (bytes : Bytes) (rs : List Received) (total : ℕ) (w : TcpSocket)
      → (length bytes == incoming_data_size) ≡ false
      → ReceivedAll bytes total w (receive os closing same_thread (received bytes ∷ rs) total w)
  unfolding receive
  receive-short bytes rs total w short = elim (Bool-cases (length bytes == 0)) [
    | inl empty ↦ rw empty (
        subst
          (λ b. ReceivedAll b total w (
            let s = disconnect os closing same_thread w in
            some (total, s.1, s.2 ++ emit_disconnected ∷ [])))
          (sym (length_zero bytes empty)) (closed-ReceivedAll os closing same_thread total w))
    | inr some_bytes ↦ rw (some_bytes, short) (refl, refl, refl)
  ]

  receive-ReceivedAll :
      (rs : List Received) (total : ℕ) (w : TcpSocket)
      → HasEnd rs
      → ReceivedAll (content rs) total w (receive os closing same_thread rs total w)
  unfolding receive
  receive-ReceivedAll [] total w h = absurd h
  receive-ReceivedAll (failed errno ∷ rs) total w h = ground (arith, append-nil w.data_buffer)
  receive-ReceivedAll (received bytes ∷ rs) total w h =
      elim (Bool-cases (length bytes == incoming_data_size)) [
        | inl full ↦
            subst (ReceivedAll (content (received bytes ∷ rs)) total w)
              (sym (receive-full bytes rs total w full))
              (rw full (
                ReceivedAll-append bytes (content rs) total w
                  (receive os closing same_thread rs (total + length bytes)
                    (record w { data_buffer = w.data_buffer ++ bytes }))
                  (receive-ReceivedAll rs (total + length bytes)
                    (record w { data_buffer = w.data_buffer ++ bytes }) (h full))))
        | inr short ↦
            subst
              (λ b.
                ReceivedAll b total w
                  (receive os closing same_thread (received bytes ∷ rs) total w))
              (rw short refl) (receive-short bytes rs total w short)
      ]

-- 1 for a number other than 0.
abbrev pub once : ℕ → ℕ
once n = if n == 0 then 0 else 1

-- Whether `dataReady` is emitted behind the events of the loop.
data_ready_last :
    (n : ℕ) (es : List Event)
    → data_ready_count es ≡ 0
    → data_ready_count (if ltb 0 n then es ++ emit_data_ready ∷ [] else es) ≡ once n
data_ready_last n es quiet = elim (Bool-cases (n == 0)) [
  | inl zero_bytes ↦ ground arith
  | inr some_bytes ↦ ground (arith, data_ready_count-append es (emit_data_ready ∷ []))
]

-- A connected socket for which `recv` returns at last something that does not fill the array, be it a
-- shorter piece, an error or the end of the connection: `readFromSocket` returns true, `read` then gives
-- what the buffer held and behind it all bytes up to there, in order, and leaves the buffer empty;
-- `dataReady` is emitted once if there were any bytes, and else not.
pub read-read_from_socket :
    (os : System) (closing : Call) (same_thread : Bool) (rs : List Received) (w : TcpSocket)
    → w.connection_status ≡ connected
    → HasEnd rs
    → (w' : TcpSocket) × (es : List Event) × (read_from_socket os closing same_thread rs w
        ≡ some (true, w', es))
      × ((read w').0 ≡ w.data_buffer ++ content rs)
      × ((read w').1.data_buffer ≡ [])
      × (data_ready_count es ≡ once (length (content rs)))
unfolding read_from_socket read is_connected
read-read_from_socket os closing same_thread rs w status h =
    finish (receive os closing same_thread rs 0 w) refl
      (receive-ReceivedAll os closing same_thread rs 0 w h)
  where
    connected_step :
        {n : ℕ} {w' : TcpSocket} {es : List Event}
        → is_connected w.connection_status ≡ true
        → receive os closing same_thread rs 0 w ≡ some (n, w', es)
        → read_from_socket os closing same_thread rs w
          ≡ some (true, w', if ltb 0 n then es ++ emit_data_ready ∷ [] else es)
    connected_step on e = rw (on, e) refl

    count_step : {n : ℕ} → n ≡ length (content rs) → once n ≡ once (length (content rs))
    count_step e = ground arith

    finish :
        (r : Option (Step ℕ))
        → receive os closing same_thread rs 0 w ≡ r
        → ReceivedAll (content rs) 0 w r
        → (w' : TcpSocket) × (es : List Event) × (read_from_socket os closing same_thread rs w
            ≡ some (true, w', es))
          × ((read w').0 ≡ w.data_buffer ++ content rs)
          × ((read w').1.data_buffer ≡ [])
          × (data_ready_count es ≡ once (length (content rs)))
    finish none e h' = absurd h'
    finish (some (n, w', es)) e (buffer, count, quiet) = (
      w',
      (if ltb 0 n then es ++ emit_data_ready ∷ [] else es),
      connected_step (ap is_connected status) e,
      buffer,
      refl,
      data_ready_last n es quiet ∙ count_step (count ∙ omega arith),
    )
