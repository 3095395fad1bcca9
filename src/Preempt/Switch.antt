-- ===== src/Preempt/Switch.antt =====
-- A2-Preemptive-Threads/thread.c: the calls that may give up the processor, and `thread_kill`.
use os_library.Base.{
  ℕ, zero, suc, Option, none, some, Bool, true, false, not, ◌==◌, ltb, if◌then◌else◌, is_some, ◌&&◌,
  ◌||◌,
}
use os_library.Base.Int.{ℤ, pos, negsuc, eq_ℤ, pred_ℤ}
use os_library.Preempt.Slots.{
  add_to_queue_tail, find_index_in_queue, remove_from_queue, first_slot, slot_is,
}
use os_library.Preempt.State.{
  thread_max_threads, Tid, thread_any, thread_invalid, thread_none, not_exited, Thread, saved,
  State, M, returns, switches, ◌>>=◌, ◌>>◌, pure, get, modify, assert_that, uninterrupted,
  interrupts_enabled, thread_at, modify_thread,
}
use os_library.Preempt.WaitQueues.{wait_queue_create, put_to_sleep, thread_wakeup, has_waiters}
use os_library.Preempt.Threads.{thread_create_zombie, thread_cleanup_zombie, thread_routine_cleanup}

-- What the error checks of `thread_yield` decide: answer at once, or take the thread at an index
-- of the ready queue.
pub data YieldTo : Type 0 where
  answer : Tid → YieldTo
  take : ℕ → ℕ → YieldTo

abbrev yield_found : ℕ → Option ℕ → YieldTo
yield_found w none = answer thread_invalid
yield_found w (some i) = take i w

abbrev yield_first : Option ℕ → YieldTo
yield_first none = answer thread_none
yield_first (some t) = take 0 t

unfoldable pub yield_target : Tid → State → YieldTo
yield_target (pos w) s =
    if s.running_thread == w
    then answer (pos s.running_thread)
    else yield_found w (find_index_in_queue s.ready_queue w)
yield_target (negsuc zero) s = yield_first (first_slot s.ready_queue)
yield_target (negsuc (suc zero)) s = answer (pos s.running_thread)
yield_target (negsuc (suc (suc k))) s = answer thread_invalid

-- The bookkeeping of `thread_yield`: the caller goes behind the ready queue unless it sleeps.
unfoldable pub requeue : ℕ → Bool → State → State
requeue me sleeping s =
    if sleeping then s else record s { ready_queue = add_to_queue_tail s.ready_queue me }

-- `getcontext`, and `setcontext` on the thread that runs now. The rest runs after the switch back.
abbrev pub switch : M (Unit {0})
switch s = switches s (λ t. returns tt t)

unfoldable pub yield_to : ℕ → ℕ → M Tid
yield_to index new = do
  modify (λ s. record s { ready_queue = remove_from_queue index s.ready_queue })
  s ← get
  me ← thread_at s.running_thread
  modify (requeue s.running_thread me.sleeping)
  modify (λ s. record s { running_thread = new })
  r ← get
  assert_that (not (interrupts_enabled r))
  modify_thread s.running_thread (λ t. record t { context = saved })
  target ← thread_at new
  assert_that (not target.sleeping)
  switch
  thread_routine_cleanup
  pure (pos new)

unfoldable pub yield_chosen : YieldTo → M Tid
yield_chosen (answer r) = pure r
yield_chosen (take index new) = yield_to index new

-- `thread_yield`
unfoldable pub thread_yield : Tid → M Tid
thread_yield want = uninterrupted λ s. yield_chosen (yield_target want s) s

-- What `interrupt_handler` of interrupt.c does when the timer fires.
unfoldable pub interrupt_handler : M Tid
interrupt_handler = do s ← get; assert_that (not (interrupts_enabled s)); thread_yield thread_any

-- `thread_sleep` on a queue, with interrupts off.
unfoldable pub sleep_on : ℕ → M Tid
sleep_on q = do s ← get; put_to_sleep q s.running_thread; thread_yield thread_any

unfoldable pub sleep_checked : ℕ → M Tid
sleep_checked q s =
    if is_some (first_slot s.ready_queue) then sleep_on q s else returns thread_none s

-- `thread_sleep`
unfoldable pub thread_sleep : Option ℕ → M Tid
thread_sleep none = uninterrupted (pure thread_invalid)
thread_sleep (some q) = uninterrupted (sleep_checked q)

-- Whether `thread_kill` goes on: the thread exists, is ready or asleep, and is not dying yet.
unfoldable pub can_kill : ℕ → State → Bool
can_kill tid s = elim (s.created_threads tid) [
  | none ↦ false
  | some t ↦
      (is_some (find_index_in_queue s.ready_queue tid) || t.sleeping)
      && not (slot_is s.zombie_tid tid)
      && not t.killed
]

unfoldable pub kill_marked : ℕ → M Tid
kill_marked tid = do
  modify_thread tid (λ t. record t { killed = true })
  t ← thread_at tid
  waited ← has_waiters t.wq
  if waited then (thread_wakeup t.wq false >> pure (pos tid)) else pure (pos tid)

-- `thread_kill`
unfoldable pub thread_kill : Tid → M Tid
thread_kill (negsuc k) = uninterrupted (pure thread_invalid)
thread_kill (pos tid) = uninterrupted λ s.
    (if (tid == s.running_thread) || not (ltb tid thread_max_threads) || not (can_kill tid s)
        then pure thread_invalid
        else kill_marked tid)
      s

-- The error checks of `thread_wait` on a thread that exists. A thread that was killed is refused
-- only if no wait queue was ever made for it.
unfoldable pub may_wait_for : Option Thread → M Bool
may_wait_for none = pure false
may_wait_for (some t) = elim t.wq [
  | none ↦ pure (not t.killed)
  | some q ↦ do busy ← has_waiters (some q); pure (not busy)
]

-- `created_threads[tid]->wq`, made on the first wait.
unfoldable pub wait_queue_of : ℕ → M ℕ
wait_queue_of tid = do
  t ← thread_at tid
  elim t.wq [
    | some q ↦ pure q
    | none ↦ do q ← wait_queue_create; modify_thread tid (λ u. record u { wq = some q }); pure q
  ]

-- The sleep of `thread_wait`, unless the thread has already exited.
unfoldable pub await_exit : ℕ → M (Unit {0})
await_exit tid = do
  t ← thread_at tid
  s ← get
  modify_thread s.running_thread (λ u. record u { sleeping = eq_ℤ t.exit not_exited })
  if eq_ℤ t.exit not_exited
      then (do
        q ← wait_queue_of tid
        modify_thread s.running_thread (λ u. record u { waiting_on = some tid })
        thread_sleep (some q)
        pure tt)
      else pure tt

-- The last part of `thread_wait`: the exit code, and the thread's resources.
unfoldable pub reap : ℕ → M ℤ
reap tid = do
  t ← thread_at tid
  assert_that (not (eq_ℤ t.exit not_exited))
  thread_create_zombie tid
  modify (λ s. record s { num_threads_created = pred_ℤ s.num_threads_created })
  thread_cleanup_zombie t.stack_freed
  s ← get
  me ← thread_at s.running_thread
  assert_that (not (is_some me.waiting_on))
  pure t.exit

-- `thread_wait`, with what goes through `exit_code` beside the result.
unfoldable pub thread_wait : Tid → M (Tid × Option ℤ)
thread_wait (negsuc k) = uninterrupted (pure (thread_invalid, none))
thread_wait (pos tid) = uninterrupted λ s.
    (if not (ltb tid thread_max_threads) || (tid == s.running_thread)
        then pure (thread_invalid, none)
        else (do
          valid ← may_wait_for (s.created_threads tid)
          if valid
              then (do await_exit tid; code ← reap tid; pure (pos tid, some code))
              else pure (thread_invalid, none)))
      s
