-- ===== src/Signal/Object.antt =====
-- The part of include/brutils/br_object.h that follows the chain of parents: `br_object` and
-- `br_threaded_object`.
use brutils.Base.{ℕ, ◌≡◌, refl, Bool, true, Option, none, some}

-- An object without a parent, an object with one, and an object that runs its own thread. The first
-- number is the object's address; a threaded object has its thread's id too.
pub data BrObject : Type 0 where
  orphan : ℕ → BrObject
  child : ℕ → BrObject → BrObject
  threaded : ℕ → ℕ → BrObject

-- `current` is the id of the calling thread.
unfoldable pub get_thread_id : ℕ → BrObject → ℕ
get_thread_id current (orphan a) = current
get_thread_id current (child a p) = get_thread_id current p
get_thread_id current (threaded a thread) = thread

unfoldable pub get_root_object : BrObject → BrObject
get_root_object (orphan a) = orphan a
get_root_object (child a p) = get_root_object p
get_root_object (threaded a thread) = threaded a thread

-- The address of the threaded object whose queue takes the event; `none` is the exception "Object
-- has not parent".
unfoldable pub add_event : BrObject → Option ℕ
add_event (orphan a) = none
add_event (child a p) = add_event p
add_event (threaded a thread) = some a

-- `addEvent` with an error flag: the address as before, and the flag afterwards.
unfoldable pub add_event_flagged : BrObject → Bool → Option ℕ × Bool
add_event_flagged (orphan a) ec = (none, true)
add_event_flagged (child a p) ec = add_event_flagged p ec
add_event_flagged (threaded a thread) ec = (some a, true)

-- The event goes to the same queue, and the flag is set whether there is one or not.
add_event_flagged-add_event :
    (o : BrObject) (ec : Bool) → add_event_flagged o ec ≡ (add_event o, true)
unfolding add_event_flagged add_event
add_event_flagged-add_event (orphan a) ec = refl
add_event_flagged-add_event (child a p) ec = add_event_flagged-add_event p ec
add_event_flagged-add_event (threaded a thread) ec = refl

pub get_thread_id-get_root_object :
    (current : ℕ) (o : BrObject)
    → get_thread_id current (get_root_object o) ≡ get_thread_id current o
unfolding get_thread_id get_root_object
get_thread_id-get_root_object current (orphan a) = refl
get_thread_id-get_root_object current (child a p) = get_thread_id-get_root_object current p
get_thread_id-get_root_object current (threaded a thread) = refl
