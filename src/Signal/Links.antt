-- ===== src/Signal/Links.antt =====
-- The two ends of the connections of include/brutils/br_object.h: a signal's lists of slots and a
-- slot's list of signals.
use brutils.Base.{
  ◌&&◌, ℕ, ◌≢◌, ◌≤◌, ◌∙◌, ◌+◌, ◌-◌, ◌≡◌, refl, true, false, List, [], ◌∷◌, ◌++◌, arith, ◌==◌,
  if◌then◌else◌,
}
use brutils.Signal.{
  set_direct, set_queued, Store, ConnectionType, erase_first, find, connect, drop_direct,
  drop_queued, disconnect, disconnect_direct, disconnect_queued, disconnect_slot,
  remove_slot_connection, remove_from, remove_this_from_connected_signals, signal_disconnected,
}

unfoldable pub count : ℕ → List ℕ → ℕ
count a [] = 0
count a (x ∷ xs) = (if x == a then 1 else 0) + count a xs

-- How often signal `g` lists slot `s`.
abbrev pub listed : ℕ → ℕ → Store → ℕ
listed g s w = count s (w.signals g).direct_connections + count s (w.signals g).queued_connections

-- How often slot `s` lists signal `g`.
abbrev pub held : ℕ → ℕ → Store → ℕ
held g s w = count g (w.slots s).connected_signals

-- Each end of a connection knows the other, as often.
abbrev pub Linked : Store → Type 0
Linked w = (g s : ℕ) → held g s w ≡ listed g s w

count-concat : (a b : ℕ) (xs : List ℕ) → count a (xs ++ b ∷ []) ≡ count a xs + count a (b ∷ [])
unfolding count
count-concat a b [] = ground arith
count-concat a b (x ∷ xs) = ground (arith, count-concat a b xs)

count-erase_first :
    (a b : ℕ) (xs : List ℕ)
    → count a (erase_first b xs) ≡ (if b == a then count a xs - 1 else count a xs)
unfolding count erase_first
count-erase_first a b [] = ground arith
count-erase_first a b (x ∷ xs) = ground (arith, count-erase_first a b xs)

find-count : (a : ℕ) (xs : List ℕ) → find a xs ≡ (if count a xs == 0 then false else true)
unfolding find count
find-count a [] = refl
find-count a (x ∷ xs) = ground (arith, find-count a xs)

-- Connecting, when the two ends agree: they still agree, and that pair alone has one connection more,
-- whatever type of connection is asked for and whichever thread makes it.
pub connect-Linked :
    (current g s : ℕ) (type : ConnectionType) (w : Store)
    → Linked w
    → Linked (connect current g s type w)
      × ((g' s' : ℕ)
          → listed g' s' (connect current g s type w)
            ≡ listed g' s' w + (if g == g' && s == s' then 1 else 0))
unfolding connect count
connect-Linked current g s type w h =
    let ss = (w.signals g).direct_connections in
    let qs = (w.signals g).queued_connections in
    let gs = (w.slots s).connected_signals in
    (
      (λ g' s'. ground (
        arith,
        h g' s',
        h g s,
        count-concat s' s ss,
        count-concat s' s qs,
        count-concat g' g gs,
      )),
      λ g' s'. ground (arith, count-concat s' s ss, count-concat s' s qs),
    )

-- One round of each loop of `disconnect()`.
drop_direct_step-Linked :
    (g s : ℕ) (ss : List ℕ) (w : Store)
    → (w.signals g).direct_connections ≡ s ∷ ss
    → Linked w
    → Linked (set_direct g ss (signal_disconnected s g w))
unfolding signal_disconnected count
drop_direct_step-Linked g s ss w e h g' s' =
    ground (arith, h g' s', h g s, count-erase_first g' g (w.slots s).connected_signals)

drop_queued_step-Linked :
    (g s : ℕ) (ss : List ℕ) (w : Store)
    → (w.signals g).queued_connections ≡ s ∷ ss
    → Linked w
    → Linked (set_queued g ss (signal_disconnected s g w))
unfolding signal_disconnected count
drop_queued_step-Linked g s ss w e h g' s' =
    ground (arith, h g' s', h g s, count-erase_first g' g (w.slots s).connected_signals)

drop_direct-Linked :
    (g : ℕ) (ss : List ℕ) (w : Store)
    → (w.signals g).direct_connections ≡ ss
    → Linked w
    → Linked (drop_direct g ss w)
unfolding drop_direct
drop_direct-Linked g [] w e h = h
drop_direct-Linked g (s ∷ ss) w e h =
    drop_direct-Linked g ss (set_direct g ss (signal_disconnected s g w)) (ground arith)
      (drop_direct_step-Linked g s ss w e h)

drop_queued-Linked :
    (g : ℕ) (ss : List ℕ) (w : Store)
    → (w.signals g).queued_connections ≡ ss
    → Linked w
    → Linked (drop_queued g ss w)
unfolding drop_queued
drop_queued-Linked g [] w e h = h
drop_queued-Linked g (s ∷ ss) w e h =
    drop_queued-Linked g ss (set_queued g ss (signal_disconnected s g w)) (ground arith)
      (drop_queued_step-Linked g s ss w e h)

drop_direct-signals :
    (g : ℕ) (ss : List ℕ) (w : Store)
    → (w.signals g).direct_connections ≡ ss
    → ((drop_direct g ss w).signals g).direct_connections ≡ []
unfolding drop_direct
drop_direct-signals g [] w e = e
drop_direct-signals g (s ∷ ss) w e =
    drop_direct-signals g ss (set_direct g ss (signal_disconnected s g w)) (ground arith)

drop_queued-signals :
    (g : ℕ) (ss : List ℕ) (w : Store)
    → (w.signals g).queued_connections ≡ ss
    → (((drop_queued g ss w).signals g).queued_connections ≡ [])
      × (((drop_queued g ss w).signals g).direct_connections ≡ (w.signals g).direct_connections)
unfolding drop_queued
drop_queued-signals g [] w e = (e, refl)
drop_queued-signals g (s ∷ ss) w e =
    ground
      (arith, drop_queued-signals g ss (set_queued g ss (signal_disconnected s g w)) (ground arith))

drop-signals_ne :
    (g g' : ℕ) (ss : List ℕ) (w : Store)
    → g' ≢ g
    → ((drop_direct g ss w).signals g' ≡ w.signals g')
      × ((drop_queued g ss w).signals g' ≡ w.signals g')
unfolding drop_direct drop_queued
drop-signals_ne g g' [] w ne = (refl, refl)
drop-signals_ne g g' (s ∷ ss) w ne = ground (
  arith,
  drop-signals_ne g g' ss (set_direct g ss (signal_disconnected s g w)) ne,
  drop-signals_ne g g' ss (set_queued g ss (signal_disconnected s g w)) ne,
)

-- Destroying a signal, or `disconnect()`, when the two ends agree: they still agree, no slot holds the
-- signal any more, and every other signal keeps its lists.
pub disconnect-Linked :
    (g : ℕ) (w : Store)
    → Linked w
    → Linked (disconnect g w)
      × ((s : ℕ) → held g s (disconnect g w) ≡ 0)
      × ((g' : ℕ) → g' ≢ g → (disconnect g w).signals g' ≡ w.signals g')
unfolding disconnect count
disconnect-Linked g w h =
    let w' = drop_direct g (w.signals g).direct_connections w in
    let h' : Linked w' = drop_direct-Linked g _ w refl h in
    let h'' : Linked (disconnect g w) = drop_queued-Linked g _ w' refl h' in
    let emptied = drop_queued-signals g _ w' refl in
    let no_direct = drop_direct-signals g _ w refl in
    (
      h'',
      (λ s. ground (arith, h'' g s, emptied, no_direct)),
      λ g' ne. (drop-signals_ne g g' _ w' ne).1 ∙ (drop-signals_ne g g' _ w ne).0,
    )

disconnect_direct-Linked : (g s : ℕ) (w : Store) → Linked w → Linked (disconnect_direct g s w)
unfolding disconnect_direct signal_disconnected
disconnect_direct-Linked g s w h g' s' =
    let ss = (w.signals g).direct_connections in
    let gs = (w.slots s).connected_signals in
    ground
      (arith, h g' s', h g s, find-count s ss, count-erase_first s' s ss, count-erase_first g' g gs)

disconnect_queued-Linked : (g s : ℕ) (w : Store) → Linked w → Linked (disconnect_queued g s w)
unfolding disconnect_queued signal_disconnected
disconnect_queued-Linked g s w h g' s' =
    let ss = (w.signals g).queued_connections in
    let gs = (w.slots s).connected_signals in
    ground
      (arith, h g' s', h g s, find-count s ss, count-erase_first s' s ss, count-erase_first g' g gs)

-- `disconnect(slot)`, when the two ends agree: they still agree, and the signal lists that slot once
-- less in each of its lists that had it; other pairs are as they were.
disconnect_slot-Linked :
    (g s : ℕ) (w : Store)
    → Linked w
    → Linked (disconnect_slot g s w)
      × ((g' s' : ℕ)
          → listed g' s' (disconnect_slot g s w) ≡ (
              if g == g'
              then (if s == s'
                  then (count s' (w.signals g').direct_connections - 1)
                    + (count s' (w.signals g').queued_connections - 1)
                  else listed g' s' w)
              else listed g' s' w))
unfolding disconnect_slot
disconnect_slot-Linked g s w h = (
  disconnect_queued-Linked g s (disconnect_direct g s w) (disconnect_direct-Linked g s w h),
  λ g' s'.
      let ss = (w.signals g).direct_connections in
      let qs = (w.signals g).queued_connections in
      ground (
        arith,
        find-count s ss,
        find-count s qs,
        count-erase_first s' s ss,
        count-erase_first s' s qs,
      ),
)

listed-remove_slot_connection :
    (g s g' s' : ℕ) (w : Store)
    → listed g' s' (remove_slot_connection g s w) ≡ (
        if g == g'
        then (if s == s'
            then (count s' (w.signals g').direct_connections - 1)
              + (count s' (w.signals g').queued_connections - 1)
            else listed g' s' w)
        else listed g' s' w)
unfolding remove_slot_connection
listed-remove_slot_connection g s g' s' w =
    let ss = (w.signals g).direct_connections in
    let qs = (w.signals g).queued_connections in
    ground (
      arith,
      find-count s ss,
      find-count s qs,
      count-erase_first s' s ss,
      count-erase_first s' s qs,
    )

held-remove_slot_connection : (g s : ℕ) (w : Store) → (remove_slot_connection g s w).slots ≡ w.slots
unfolding remove_slot_connection
held-remove_slot_connection g s w = ground arith

-- The loop of the destructor forgets a slot that its list covers.
listed-remove_from :
    (s : ℕ) (gs : List ℕ) (w : Store)
    → ((g : ℕ) → listed g s w ≤ count g gs)
    → (g : ℕ) → listed g s (remove_from s gs w) ≡ 0
unfolding remove_from count
listed-remove_from s [] w h g = omega (arith, h g)
listed-remove_from s (x ∷ gs) w h g =
    listed-remove_from s gs (remove_slot_connection x s w)
      (λ g'. ground (arith, h g', listed-remove_slot_connection x s g' s w)) g

remove_from-others :
    (s : ℕ) (gs : List ℕ) (w : Store) (g s' : ℕ)
    → s' ≢ s
    → (listed g s' (remove_from s gs w) ≡ listed g s' w)
      × (held g s' (remove_from s gs w) ≡ held g s' w)
unfolding remove_from
remove_from-others s [] w g s' ne = (refl, refl)
remove_from-others s (x ∷ gs) w g s' ne = ground (
  arith,
  remove_from-others s gs (remove_slot_connection x s w) g s' ne,
  listed-remove_slot_connection x s g s' w,
  held-remove_slot_connection x s w,
)

-- Destroying a slot, when the two ends agree: no signal lists the slot any more, so none can call it,
-- and for every other slot the two ends still agree, with the same number of connections.
pub remove_this_from_connected_signals-Linked :
    (s : ℕ) (w : Store)
    → Linked w
    → ((g : ℕ) → listed g s (remove_this_from_connected_signals s w) ≡ 0)
      × ((g s' : ℕ)
          → s' ≢ s
          → (listed g s' (remove_this_from_connected_signals s w) ≡ listed g s' w)
            × (held g s' (remove_this_from_connected_signals s w) ≡ listed g s' w))
unfolding remove_this_from_connected_signals
remove_this_from_connected_signals-Linked s w h =
    let gs = (w.slots s).connected_signals in
    (
      listed-remove_from s gs w (λ g. omega (arith, h g s)),
      λ g s' ne. ground (arith, h g s', remove_from-others s gs w g s' ne),
    )
