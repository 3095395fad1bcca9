-- ===== src/Preempt/Sync.antt =====
-- A2-Preemptive-Threads/thread.c: locks and condition variables.
use os_library.Base.{
  ℕ, zero, suc, Option, none, some, Bool, true, false, List, [], ◌∷◌, if◌then◌else◌, update,
}
use os_library.Base.Int.{pos, succ_ℤ, pred_ℤ}
use os_library.Preempt.Slots.{slot_is}
use os_library.Preempt.State.{
  Lock, Cv, State, M, returns, spins, fault, and_then, ◌>>=◌, ◌>>◌, pure, get, modify, assert_that,
  uninterrupted, wait_queue_at, put_wait_queue,
}
use os_library.Preempt.WaitQueues.{wait_queue_create, wait_queue_destroy, thread_wakeup}
use os_library.Preempt.Switch.{thread_sleep}

-- `*lock` and `*cv`; NULL and freed addresses fault.
unfoldable pub lock_at : ℕ → M Lock
lock_at l s = elim (s.locks l) [ none ↦ fault | some k ↦ returns k s ]

unfoldable pub cv_at : ℕ → M Cv
cv_at c s = elim (s.cvs c) [ none ↦ fault | some v ↦ returns v s ]

abbrev pub put_lock : ℕ → Option Lock → State → State
put_lock l k s = record s { locks = update s.locks l k }

abbrev pub put_cv : ℕ → Option Cv → State → State
put_cv c v s = record s { cvs = update s.cvs c v }

-- `lock_create`
unfoldable pub lock_create : M ℕ
lock_create = uninterrupted (do
  s ← get
  modify (λ s. record s { next_addr = suc s.next_addr })
  q ← wait_queue_create
  modify (put_lock s.next_addr (some (record { wq = q; held_by = none; free = true })))
  pure s.next_addr)

-- `lock_destroy`
unfoldable pub lock_destroy : ℕ → M (Unit {0})
lock_destroy l =
    uninterrupted (do
      k ← lock_at l
      assert_that k.free
      wait_queue_destroy (some k.wq)
      modify (put_lock l none))

-- The lock as its new owner leaves it.
unfoldable pub take_lock : ℕ → Lock → M (Unit {0})
take_lock l k =
    modify λ s. put_lock l (some (record k { held_by = some s.running_thread; free = false })) s

-- `while (!lock->free) thread_sleep(lock->wq)` and what follows, with a bound on the rounds.
unfoldable pub acquire_loop : ℕ → ℕ → M (Unit {0})
acquire_loop zero l s = and_then (lock_at l s) λ k. if k.free then take_lock l k else (λ t. spins t)
acquire_loop (suc fuel) l s = and_then (lock_at l s) λ k. elim k.free [
  | true ↦ take_lock l k
  | false ↦ λ t. and_then (thread_sleep (some k.wq) t) (λ _. acquire_loop fuel l)
]

-- `lock_acquire`
unfoldable pub lock_acquire : ℕ → ℕ → M (Unit {0})
lock_acquire fuel l = uninterrupted (acquire_loop fuel l)

-- `lock_release`
unfoldable pub lock_release : ℕ → M (Unit {0})
lock_release l = uninterrupted (do
  k ← lock_at l
  modify (put_lock l (some (record k { held_by = none; free = true })))
  thread_wakeup (some k.wq) false
  pure tt)

-- `cv_create`
unfoldable pub cv_create : M ℕ
cv_create = uninterrupted (do
  s ← get
  modify (λ s. record s { next_addr = suc s.next_addr })
  q ← wait_queue_create
  modify
      (put_cv s.next_addr (some (record { condition_reach = true; wq = q; num_waiting = pos 0 })))
  pure s.next_addr)

-- `cv_destroy` frees the wait queue without looking at it.
unfoldable pub cv_destroy : ℕ → M (Unit {0})
cv_destroy c =
    uninterrupted (do
      v ← cv_at c
      wait_queue_at v.wq
      modify (put_wait_queue v.wq none)
      modify (put_cv c none))

-- `cv_wait` of the lock's owner.
unfoldable pub wait_released : ℕ → ℕ → ℕ → M (Unit {0})
wait_released fuel c l = do
  lock_release l
  v ← cv_at c
  modify (put_cv c (some (record v { num_waiting = succ_ℤ v.num_waiting })))
  thread_sleep (some v.wq)
  lock_acquire fuel l

-- `cv_wait`. A caller that does not hold the lock returns at once.
unfoldable pub cv_wait : ℕ → ℕ → ℕ → M (Unit {0})
cv_wait fuel c l = do
  cv_at c
  k ← lock_at l
  s ← get
  if slot_is k.held_by s.running_thread then wait_released fuel c l else pure tt

unfoldable pub signal_first : ℕ → ℕ → Cv → List ℕ → M (Unit {0})
signal_first c l v [] = pure tt
signal_first c l v (thread_id ∷ rest) = do
  modify (put_cv c (some (record v { num_waiting = pred_ℤ v.num_waiting })))
  thread_wakeup (some v.wq) false
  k ← lock_at l
  assert_that (if slot_is k.held_by thread_id then false else true)

-- `cv_signal`
unfoldable pub cv_signal : ℕ → ℕ → M (Unit {0})
cv_signal c l =
    uninterrupted (do v ← cv_at c; lock_at l; w ← wait_queue_at v.wq; signal_first c l v w.waiting)

abbrev no_waiters : List ℕ → Bool
no_waiters [] = true
no_waiters (x ∷ xs) = false

-- `cv_broadcast`
unfoldable pub cv_broadcast : ℕ → ℕ → M (Unit {0})
cv_broadcast c l = uninterrupted (do
  v ← cv_at c
  lock_at l
  modify (put_cv c (some (record v { num_waiting = pos 0 })))
  thread_wakeup (some v.wq) true
  w ← wait_queue_at v.wq
  assert_that (no_waiters w.waiting))
