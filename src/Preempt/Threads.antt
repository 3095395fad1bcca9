-- ===== src/Preempt/Threads.antt =====
-- A2-Preemptive-Threads/thread.c: creating, switching, ending and waiting for threads.
use os_library.Base.{
  ℕ, zero, suc, Option, none, some, Bool, true, false, not, [], ◌∷◌, ◌==◌, ltb, if◌then◌else◌,
  update, is_some, replicate, ◌&&◌,
}
use os_library.Base.Int.{ℤ, pos, eq_ℤ, succ_ℤ, pred_ℤ}
use os_library.Preempt.Slots.{
  Slots, remove_from_available, add_to_queue_tail, append_to_available, remove_from_queue,
  first_slot,
}
use os_library.Preempt.State.{
  thread_max_threads, Tid, thread_nomore, not_exited, minus_sigkill, start, saved, Thread, State, M,
  returns, gone, exits, and_then, ◌>>=◌, ◌>>◌, pure, get, modify, fail, assert_that, uninterrupted,
  interrupts_off, interrupts_on, interrupts_enabled, thread_at, modify_thread, wait_queue_at,
  put_wait_queue, put_thread, free_stack, non_null,
}
use os_library.Preempt.WaitQueues.{wait_queue_destroy, thread_wakeup, has_waiters}

-- `thread_create_zombie`
unfoldable pub thread_create_zombie : ℕ → M (Unit {0})
thread_create_zombie thread = do
  t ← thread_at thread
  modify (λ s. record s { zombie_tid = some thread; zombie_stack_addr = t.stack_addr })

-- `cleanup_before_zombifying`: the queue that the thread waits in is emptied, and one thread that
-- waits for it is woken up.
unfoldable pub leave_awaited : Option ℕ → M (Unit {0})
leave_awaited none = pure tt
leave_awaited (some waiting_for) = do
  t ← thread_at waiting_for
  q ← non_null t.wq
  wait_queue_at q
  modify (put_wait_queue q (some (record { waiting = []; size = 0 })))

unfoldable pub cleanup_before_zombifying : ℕ → M (Unit {0})
cleanup_before_zombifying zombie = do
  t ← thread_at zombie
  leave_awaited t.waiting_on
  waited ← has_waiters t.wq
  if waited then (thread_wakeup t.wq false >> pure tt) else pure tt

-- `thread_cleanup_zombie`
unfoldable pub thread_cleanup_zombie : Bool → M (Unit {0})
thread_cleanup_zombie freed_stack = do
  modify
      (λ s. record s { available_threads = append_to_available s.available_threads s.zombie_tid })
  s ← get
  z ← non_null s.zombie_tid
  t ← thread_at z
  wait_queue_destroy t.wq
  modify_thread z (λ u. record u { wq = none })
  if freed_stack
      then pure tt
      else (free_stack t.stack_addr >> modify_thread z (λ u. record u { stack_addr = none }))
  u ← thread_at z
  assert_that (not (is_some u.stack_addr))
  modify (put_thread z none)
  modify (λ s. record s { zombie_tid = none })
  r ← get
  free_stack r.zombie_stack_addr
  modify (λ s. record s { zombie_stack_addr = none })

-- The loop of `freeup_leftover_zombies` at index `i`, with `n` rounds left.
unfoldable pub free_leftovers : ℕ → ℕ → M (Unit {0})
free_leftovers zero i s = returns tt s
free_leftovers (suc n) i s =
    let rest = λ (u : Unit {0}). free_leftovers n (suc i) in
    and_then
      ((if is_some (s.created_threads i) && not (i == s.running_thread)
          then (do thread_create_zombie i; t ← thread_at i; thread_cleanup_zombie t.stack_freed)
          else pure tt)
        s)
      rest

-- `freeup_leftover_zombies`
unfoldable pub freeup_leftover_zombies : M (Unit {0})
freeup_leftover_zombies = uninterrupted λ s.
    (if is_some (first_slot s.ready_queue) then pure tt else free_leftovers thread_max_threads 0) s

-- The last part of `thread_exit`, to the thread at the head of the ready queue.
unfoldable pub exit_to : ℤ → ℕ → M (Unit {0})
exit_to exit_code next = do
  s ← get
  modify_thread s.running_thread (λ t. record t { exit = exit_code })
  modify (λ s. record s { num_threads_created = pred_ℤ s.num_threads_created })
  thread_create_zombie s.running_thread
  modify (λ s. record s {
    running_thread = next;
    ready_queue = remove_from_queue 0 s.ready_queue;
    returning_from_exit = true;
  })
  r ← get
  assert_that (not (interrupts_enabled r))
  thread_at next
  (λ t. gone t)

-- `thread_exit` never returns.
unfoldable pub thread_exit : ℤ → M (Unit {0})
thread_exit exit_code = do
  interrupts_off
  s ← get
  cleanup_before_zombifying s.running_thread
  r ← get
  elim (first_slot r.ready_queue) [
    | none ↦ freeup_leftover_zombies >> (λ t. exits t)
    | some next ↦ exit_to exit_code next
  ]

-- The first part of `thread_routine_cleanup`: the stack of the thread that has just exited.
unfoldable pub free_zombie_stack : Option ℕ → M (Unit {0})
free_zombie_stack none = pure tt
free_zombie_stack (some z) = do
  t ← thread_at z
  free_stack t.stack_addr
  modify_thread z (λ u. record u { stack_addr = none; stack_freed = true })
  modify (λ s. record s { zombie_tid = none; zombie_stack_addr = none })

-- `thread_routine_cleanup`, run by a thread that has just been switched to.
unfoldable pub thread_routine_cleanup : M (Unit {0})
thread_routine_cleanup = do
  s ← get
  free_zombie_stack s.zombie_tid
  interrupts_off
  t ← thread_at s.running_thread
  if t.killed then thread_exit minus_sigkill else pure tt

-- `thread_stub`, over the meaning of the program's functions.
unfoldable pub thread_stub : (ℕ → ℕ → M (Unit {0})) → ℕ → ℕ → M (Unit {0})
thread_stub main fn arg = do thread_routine_cleanup; interrupts_on; main fn arg; thread_exit (pos 0)

-- `init_thread` as `thread_init` leaves it. Its `stack_addr` is never assigned, so it is whatever
-- the block held.
abbrev pub init_thread : Option ℕ → Thread
init_thread garbage = record {
  context = saved;
  stack_addr = garbage;
  killed = false;
  sleeping = false;
  wq = none;
  waiting_on = none;
  exit = not_exited;
  parent = 0;
  stack_freed = false;
}

-- i, i + 1, … for `n` slots.
abbrev pub ids_from : ℕ → ℕ → Slots
ids_from zero i = []
ids_from (suc n) i = some i ∷ ids_from n (suc i)

abbrev pub with_marker : Slots → Slots
with_marker [] = none ∷ []
with_marker (x ∷ xs) = x ∷ with_marker xs

-- `thread_init`, on globals that are zero as C leaves them. The loop that clears
-- `created_threads` stops before the last entry.
unfoldable pub thread_init : Option ℕ → State → State
thread_init garbage s = record s {
  running_thread = 0;
  available_threads = with_marker (ids_from 1023 1);
  ready_queue = replicate thread_max_threads none;
  created_threads = λ i.
      if i == 0
      then some (init_thread garbage)
      else (if ltb i 1023 then none else s.created_threads i);
  num_threads_created = succ_ℤ s.num_threads_created;
}

-- `thread_create` once a slot is known to be free. With no id left `available_threads[0]` is the
-- marker, and `created_threads[-300]` is out of range.
unfoldable pub create_as : Option ℕ → ℕ → ℕ → M Tid
create_as none fn parg = fail
create_as (some tid) fn parg = do
  modify (λ s. record s {
    num_threads_created = succ_ℤ s.num_threads_created;
    available_threads = remove_from_available s.available_threads;
    stacks = update s.stacks s.next_addr true;
    next_addr = suc s.next_addr;
    created_threads = update s.created_threads tid (
        some (record {
          context = start fn parg;
          stack_addr = some s.next_addr;
          killed = false;
          sleeping = false;
          wq = none;
          waiting_on = none;
          exit = not_exited;
          parent = s.running_thread;
          stack_freed = false;
        }));
    ready_queue = add_to_queue_tail s.ready_queue tid;
  })
  pure (pos tid)

-- `thread_create`. `malloc369` never returns NULL, so THREAD_NOMEMORY is never returned.
unfoldable pub thread_create : ℕ → ℕ → M Tid
thread_create fn parg = uninterrupted λ s.
    (if eq_ℤ s.num_threads_created (pos thread_max_threads)
        then pure thread_nomore
        else create_as (first_slot s.available_threads) fn parg)
      s
