-- ===== src/Preempt/Slots/Fifo.antt =====
-- The slot arrays as bounded FIFO queues.
use os_library.Base.{
  ℕ, zero, suc, ◌+◌, ◌≡◌, refl, ap, none, some, List, [], ◌∷◌, ◌++◌, arith, ◌==◌, true, false,
  length, replicate, Bool-cases, inl, inr,
}
pub use os_library.Base.Members.{has, without}
use os_library.Preempt.Slots.{
  Slots, shift_left, add_to_queue_tail, append_to_available, find_index_in_queue, remove_from_queue,
}

-- The queue `xs` as an array: its ids in order, then `pad` empty slots.
abbrev pub layout : List ℕ → ℕ → Slots
layout [] pad = replicate pad none
layout (x ∷ xs) pad = some x ∷ layout xs pad

pub length-layout : (xs : List ℕ) (pad : ℕ) → length (layout xs pad) ≡ length xs + pad
length-layout [] zero = omega arith
length-layout [] (suc pad) = omega (arith, length-layout [] pad)
length-layout (x ∷ xs) pad = omega (arith, length-layout xs pad)

-- Adding at the tail of a queue that is not full appends.
pub add_to_queue_tail-layout :
    (xs : List ℕ) (pad id : ℕ)
    → add_to_queue_tail (layout xs (suc pad)) id ≡ layout (xs ++ id ∷ []) pad
unfolding add_to_queue_tail
add_to_queue_tail-layout [] pad id = refl
add_to_queue_tail-layout (x ∷ xs) pad id = ap (λ r. some x ∷ r) (add_to_queue_tail-layout xs pad id)

pub append_to_available-layout :
    (xs : List ℕ) (pad id : ℕ)
    → append_to_available (layout xs (suc pad)) (some id) ≡ layout (xs ++ id ∷ []) pad
unfolding append_to_available
append_to_available-layout [] pad id = refl
append_to_available-layout (x ∷ xs) pad id =
    ap (λ r. some x ∷ r) (append_to_available-layout xs pad id)

-- A full array silently loses the id.
pub add_to_queue_tail-full :
    (xs : List ℕ) (id : ℕ) → add_to_queue_tail (layout xs 0) id ≡ layout xs 0
unfolding add_to_queue_tail
add_to_queue_tail-full [] id = refl
add_to_queue_tail-full (x ∷ xs) id = ap (λ r. some x ∷ r) (add_to_queue_tail-full xs id)

shift_left-empty : (pad : ℕ) → shift_left (replicate (suc pad) none) ≡ replicate (suc pad) none
unfolding shift_left
shift_left-empty zero = refl
shift_left-empty (suc pad) = ap (λ r. none ∷ r) (shift_left-empty pad)

-- Shifting drops the first id.
pub shift_left-layout :
    (x : ℕ) (xs : List ℕ) (pad : ℕ) → shift_left (layout (x ∷ xs) pad) ≡ layout xs (suc pad)
unfolding shift_left
shift_left-layout x [] zero = refl
shift_left-layout x [] (suc pad) = ap (λ r. none ∷ r) (shift_left-empty pad)
shift_left-layout x (y ∷ xs) pad = ap (λ r. some y ∷ r) (shift_left-layout y xs pad)

pub find-missing :
    (xs : List ℕ) (pad n : ℕ) → has xs n ≡ false → find_index_in_queue (layout xs pad) n ≡ none
unfolding find_index_in_queue
find-missing [] zero n h = refl
find-missing [] (suc pad) n h = rw (find-missing [] pad n h)
find-missing (x ∷ xs) pad n h = ground (arith, find-missing xs pad n)

-- Finding an id and removing at its index takes its first occurrence out of the queue.
pub find-remove :
    (xs : List ℕ) (pad n : ℕ)
    → has xs n ≡ true
    → (i : ℕ) × (find_index_in_queue (layout xs pad) n ≡ some i)
      × (remove_from_queue i (layout xs pad) ≡ layout (without xs n) (suc pad))
unfolding find_index_in_queue remove_from_queue
find-remove [] pad n h = absurd (ground arith)
find-remove (x ∷ xs) pad n h = elim (Bool-cases (x == n)) [
  | inl e ↦ (0, ground arith, ground (arith, shift_left-layout x xs pad))
  | inr e ↦
      let (i, found, gone) = find-remove xs pad n (ground arith) in
      (suc i, ground arith, ground (arith, ap (λ r. some x ∷ r) gone))
]
