-- ===== src/Preempt/Slots.antt =====
-- A2-Preemptive-Threads/thread.c: the arrays `ready_queue` and `available_threads`, and the loops
-- that walk them. A slot is a `Tid`, and `none` is the marker (Tid)-300 of an empty slot.
pub mod Fifo
use os_library.Base.{ℕ, zero, suc, Option, none, some, List, [], ◌∷◌, ◌==◌, Bool, true, false}

abbrev pub Slots : Type 0
Slots = List (Option ℕ)

-- `a[i] = a[i + 1]` for each i but the last, then `a[last] = -300`.
unfoldable pub shift_left : Slots → Slots
shift_left [] = []
shift_left (x ∷ []) = none ∷ []
shift_left (x ∷ y ∷ r) = y ∷ shift_left (y ∷ r)

-- `remove_from_available`
unfoldable pub remove_from_available : Slots → Slots
remove_from_available a = shift_left a

-- `add_to_queue_tail`: the first empty slot takes the id; a full array is left as it is.
unfoldable pub add_to_queue_tail : Slots → ℕ → Slots
add_to_queue_tail [] id = []
add_to_queue_tail (none ∷ r) id = some id ∷ r
add_to_queue_tail (some x ∷ r) id = some x ∷ add_to_queue_tail r id

-- `append_to_available`, the same loop over the other array, for a value that may be the marker.
unfoldable pub append_to_available : Slots → Option ℕ → Slots
append_to_available [] val = []
append_to_available (none ∷ r) val = val ∷ r
append_to_available (some x ∷ r) val = some x ∷ append_to_available r val

abbrev pub slot_is : Option ℕ → ℕ → Bool
slot_is none want = false
slot_is (some x) want = x == want

abbrev pub next_index : Option ℕ → Option ℕ
next_index none = none
next_index (some i) = some (suc i)

-- `find_index_in_queue`, with `none` for its -1.
unfoldable pub find_index_in_queue : Slots → ℕ → Option ℕ
find_index_in_queue [] want = none
find_index_in_queue (x ∷ r) want = elim (slot_is x want) [
  | true ↦ some zero
  | false ↦ next_index (find_index_in_queue r want)
]

-- `remove_from_queue` at an index of the array: the slots from `index` on move up by one.
unfoldable pub remove_from_queue : ℕ → Slots → Slots
remove_from_queue zero q = shift_left q
remove_from_queue (suc i) [] = []
remove_from_queue (suc i) (x ∷ r) = x ∷ remove_from_queue i r

-- `ready_queue[0]`
abbrev pub first_slot : Slots → Option ℕ
first_slot [] = none
first_slot (x ∷ r) = x
