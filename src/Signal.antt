-- ===== src/Signal.antt =====
-- include/brutils/br_object.h: objects and their threads, signals and slots, and the connections
-- between them. A pointer is an address, and the store maps addresses to signals and slots.
pub mod Object
pub mod Links
pub mod Emit
pub mod Loop
mod Tests
use brutils.Base.{
  ℕ, ◌≡◌, Bool, true, false, Option, none, some, List, [], ◌∷◌, ◌++◌, ◌==◌, if◌then◌else◌,
}
use Object.{BrObject, get_root_object, get_thread_id}

pub data ConnectionType : Type 0 where
  auto direct queued : ConnectionType

pub record Slot : Type 0 where
  pub has_function : Bool
  pub parent : Option BrObject
  pub connected_signals : List ℕ

pub record Signal : Type 0 where
  pub parent : Option BrObject
  pub direct_connections : List ℕ
  pub queued_connections : List ℕ

pub record Store : Type 0 where
  pub signals : ℕ → Signal
  pub slots : ℕ → Slot

abbrev pub update {ℓ} : {A : Type ℓ} → (ℕ → A) → ℕ → A → ℕ → A
update f p v q = if p == q then v else f q

-- `std::find` followed by `erase`: the first entry that is equal goes.
unfoldable pub erase_first : ℕ → List ℕ → List ℕ
erase_first a [] = []
erase_first a (x ∷ xs) = if x == a then xs else x ∷ erase_first a xs

unfoldable pub find : ℕ → List ℕ → Bool
find a [] = false
find a (x ∷ xs) = if x == a then true else find a xs

abbrev set_connected : ℕ → List ℕ → Store → Store
set_connected s gs w = record w {
  slots = update w.slots s (record (w.slots s) { connected_signals = gs });
}

abbrev set_direct : ℕ → List ℕ → Store → Store
set_direct g ss w = record w {
  signals = update w.signals g (record (w.signals g) { direct_connections = ss });
}

abbrev set_queued : ℕ → List ℕ → Store → Store
set_queued g ss w = record w {
  signals = update w.signals g (record (w.signals g) { queued_connections = ss });
}

unfoldable pub slot_thread_id : ℕ → Slot → ℕ
unfolding get_root_object get_thread_id
slot_thread_id current s = elim s.parent [
  | none ↦ current
  | some p ↦ get_thread_id current (get_root_object p)
]

unfoldable pub signal_connected : ℕ → ℕ → Store → Store
signal_connected s g w = set_connected s ((w.slots s).connected_signals ++ g ∷ []) w

unfoldable pub signal_disconnected : ℕ → ℕ → Store → Store
signal_disconnected s g w = set_connected s (erase_first g (w.slots s).connected_signals) w

-- The type that `connect` works out, on the thread `current`.
unfoldable pub connection_type : ℕ → Option BrObject → Slot → ConnectionType → ConnectionType
unfolding slot_thread_id
connection_type current none s type = direct
connection_type current (some p) s auto = elim s.parent [
  | none ↦ direct
  | some q ↦
      if get_thread_id current (get_root_object p) == slot_thread_id current s
      then direct
      else queued
]
connection_type current (some p) s type = elim s.parent [ none ↦ direct | some q ↦ type ]

attach : ConnectionType → ℕ → ℕ → Store → Store
attach direct g s w = set_direct g ((w.signals g).direct_connections ++ s ∷ []) w
attach _ g s w = set_queued g ((w.signals g).queued_connections ++ s ∷ []) w

unfoldable pub connect : ℕ → ℕ → ℕ → ConnectionType → Store → Store
unfolding attach signal_connected
connect current g s type w =
    let chosen = connection_type current (w.signals g).parent (w.slots s) type in
    signal_connected s g (attach chosen g s w)

-- The two loops of `disconnect()`, over what is left of each list.
unfoldable pub drop_direct : ℕ → List ℕ → Store → Store
unfolding signal_disconnected
drop_direct g [] w = w
drop_direct g (s ∷ ss) w = drop_direct g ss (set_direct g ss (signal_disconnected s g w))

unfoldable pub drop_queued : ℕ → List ℕ → Store → Store
unfolding signal_disconnected
drop_queued g [] w = w
drop_queued g (s ∷ ss) w = drop_queued g ss (set_queued g ss (signal_disconnected s g w))

unfoldable pub disconnect : ℕ → Store → Store
disconnect g w =
    let w' = drop_direct g (w.signals g).direct_connections w in
    drop_queued g (w'.signals g).queued_connections w'

-- One half of `disconnect(slot)`, for each of the two lists.
disconnect_direct : ℕ → ℕ → Store → Store
unfolding find signal_disconnected
disconnect_direct g s w =
    let ss = (w.signals g).direct_connections in
    if find s ss then set_direct g (erase_first s ss) (signal_disconnected s g w) else w

disconnect_queued : ℕ → ℕ → Store → Store
unfolding find signal_disconnected
disconnect_queued g s w =
    let ss = (w.signals g).queued_connections in
    if find s ss then set_queued g (erase_first s ss) (signal_disconnected s g w) else w

unfoldable pub disconnect_slot : ℕ → ℕ → Store → Store
unfolding disconnect_direct disconnect_queued
disconnect_slot g s w = disconnect_queued g s (disconnect_direct g s w)

unfoldable pub remove_slot_connection : ℕ → ℕ → Store → Store
unfolding find
remove_slot_connection g s w =
    let w' =
      (let ss = (w.signals g).direct_connections in
        if find s ss then set_direct g (erase_first s ss) w else w) in
    let ss = (w'.signals g).queued_connections in
    if find s ss then set_queued g (erase_first s ss) w' else w'

remove_from : ℕ → List ℕ → Store → Store
remove_from s [] w = w
remove_from s (g ∷ gs) w = remove_from s gs (remove_slot_connection g s w)

unfoldable pub remove_this_from_connected_signals : ℕ → Store → Store
unfolding remove_from remove_slot_connection
remove_this_from_connected_signals s w = remove_from s (w.slots s).connected_signals w
