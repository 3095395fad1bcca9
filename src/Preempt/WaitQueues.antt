-- ===== src/Preempt/WaitQueues.antt =====
-- A2-Preemptive-Threads/thread.c: the wait queues of assignment 2.
use os_library.Base.{
  ℕ, zero, suc, ◌+◌, ◌-◌, Option, none, some, Bool, true, false, not, List, [], ◌∷◌, ◌++◌, ◌==◌,
  ltb, if◌then◌else◌,
}
use os_library.Preempt.Slots.{add_to_queue_tail}
use os_library.Preempt.State.{
  WaitQueue, M, returns, spins, and_then, ◌>>=◌, ◌>>◌, pure, get, modify, assert_that,
  uninterrupted, modify_thread, wait_queue_at, put_wait_queue,
}

-- `wait_queue_create`: the address of a fresh, empty queue. `malloc369` ends the process rather
-- than return NULL, so the assertion on its result always holds.
unfoldable pub wait_queue_create : M ℕ
wait_queue_create = uninterrupted λ s. returns s.next_addr (
    put_wait_queue s.next_addr (some (record { waiting = []; size = 0 }))
      (record s { next_addr = suc s.next_addr }))

-- `put_to_sleep`: the new node goes behind the tail, or becomes the only one.
unfoldable pub put_to_sleep : ℕ → ℕ → M (Unit {0})
put_to_sleep q thread_id = uninterrupted (do
  s ← get
  modify_thread s.running_thread (λ t. record t { sleeping = true })
  w ← wait_queue_at q
  modify (
      put_wait_queue q
        (some (record { waiting = w.waiting ++ thread_id ∷ []; size = suc w.size }))))

-- The body of `wakeup` for a queue whose first node holds `awoken`.
unfoldable pub wake_first : ℕ → WaitQueue → ℕ → List ℕ → M ℕ
wake_first q w awoken rest = do
  modify_thread awoken (λ t. record t { sleeping = false; waiting_on = none })
  modify (λ s. record s { ready_queue = add_to_queue_tail s.ready_queue awoken })
  modify (put_wait_queue q (some (record { waiting = rest; size = w.size - 1 })))
  pure 1

-- `wakeup`
unfoldable pub wakeup : Option ℕ → M ℕ
wakeup none = uninterrupted (pure 0)
wakeup (some q) = uninterrupted (do
  w ← wait_queue_at q
  elim w.waiting [ [] ↦ pure 0 | awoken ∷ rest ↦ wake_first q w awoken rest ])

-- `while (wq->size > 0) count = count + wakeup(wq)`, for as many rounds as `fuel` says.
unfoldable pub wakeup_loop : ℕ → ℕ → ℕ → M ℕ
wakeup_loop zero q count s =
    and_then (wait_queue_at q s) λ w. if ltb 0 w.size then (λ t. spins t) else pure count
wakeup_loop (suc fuel) q count s = and_then (wait_queue_at q s) λ w t. elim (ltb 0 w.size) [
  | true ↦ and_then (wakeup (some q) t) (λ n. wakeup_loop fuel q (count + n))
  | false ↦ returns count t
]

-- `wakeup_all`. A round that wakes a thread takes one off the size, so the size bounds the rounds.
unfoldable pub wakeup_all : Option ℕ → M ℕ
wakeup_all none = uninterrupted (pure 0)
wakeup_all (some q) = uninterrupted (do w ← wait_queue_at q; wakeup_loop w.size q 0)

abbrev is_empty : List ℕ → Bool
is_empty [] = true
is_empty (x ∷ xs) = false

-- `wait_queue_destroy`: freeing NULL does nothing.
unfoldable pub wait_queue_destroy : Option ℕ → M (Unit {0})
wait_queue_destroy none = uninterrupted (pure tt)
wait_queue_destroy (some q) = uninterrupted (do
  w ← wait_queue_at q
  assert_that (is_empty w.waiting)
  assert_that (w.size == 0)
  modify (put_wait_queue q none))

-- `thread_wakeup`
unfoldable pub thread_wakeup : Option ℕ → Bool → M ℕ
thread_wakeup q all = uninterrupted (if all then wakeup_all q else wakeup q)

-- `wq != NULL && wq->head != NULL`
unfoldable pub has_waiters : Option ℕ → M Bool
has_waiters none = pure false
has_waiters (some q) = do w ← wait_queue_at q; pure (not (is_empty w.waiting))
