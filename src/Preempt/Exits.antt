-- ===== src/Preempt/Exits.antt =====
-- `thread_exit` and `thread_wait`: the exit code reaches the waiter, and the id can be used again.
use os_library.Base.{
  ℕ, suc, ◌<◌, ◌≡◌, refl, sym, none, some, true, false, List, [], ◌∷◌, ◌++◌, arith, update, ◌≢◌,
}
use os_library.Base.Int.{ℤ, pos, pred_ℤ, eq_ℤ}
use os_library.Preempt.Slots.{remove_from_queue}
use os_library.Preempt.Slots.Fifo.{layout, shift_left-layout, append_to_available-layout}
use os_library.Preempt.State.{
  thread_max_threads, not_exited, Thread, State, returns, gone, uninterrupted, interrupts_off,
  interrupts_enabled, thread_at, modify_thread, free_stack,
}
use os_library.Preempt.WaitQueues.{wait_queue_destroy, has_waiters}
use os_library.Preempt.Threads.{
  thread_create_zombie, leave_awaited, cleanup_before_zombifying, thread_cleanup_zombie, exit_to,
  thread_exit, free_zombie_stack, thread_routine_cleanup,
}
use os_library.Preempt.Switch.{may_wait_for, await_exit, reap, thread_wait}

-- A thread that nobody waits for and that waits for nobody.
pub record IsPlain (t : Thread) : Type 0 where
  pub unawaited : t.wq ≡ none
  pub idle : t.waiting_on ≡ none
  pub alive : t.killed ≡ false
  pub running : t.exit ≡ not_exited

-- The state in which `thread_exit(code)` of the thread `t` leaves the processor to `x`.
abbrev pub exited : ℤ → Thread → ℕ → List ℕ → ℕ → State → State
exited code t x rest pad s = record s {
  interrupts = false;
  created_threads = update s.created_threads s.running_thread (some (record t { exit = code }));
  num_threads_created = pred_ℤ s.num_threads_created;
  zombie_tid = some s.running_thread;
  zombie_stack_addr = t.stack_addr;
  running_thread = x;
  ready_queue = layout rest (suc pad);
  returning_from_exit = true;
}

-- `thread_exit` leaves for good: the code is kept for a waiter, and the head of the ready queue
-- runs.
pub thread_exit-gone :
    (code : ℤ) (t u : Thread) (x pad : ℕ) (rest : List ℕ) (s : State)
    → s.ready_queue ≡ layout (x ∷ rest) pad
    → s.running_thread < thread_max_threads
    → s.created_threads s.running_thread ≡ some t
    → IsPlain t
    → x < thread_max_threads
    → s.created_threads x ≡ some u
    → thread_exit code s ≡ gone (exited code t x rest pad s)
unfolding thread_exit cleanup_before_zombifying leave_awaited has_waiters exit_to
    thread_create_zombie thread_at modify_thread interrupts_off interrupts_enabled remove_from_queue
thread_exit-gone code t u x pad rest s q lt c p xlt xc =
    ground (arith, shift_left-layout x rest pad)

-- The state after the next thread freed the stack `a` of the exited thread `z`, of record `t`.
abbrev pub stack_gone : ℕ → Thread → ℕ → State → State
stack_gone z t a s = record s {
  interrupts = false;
  stacks = update s.stacks a false;
  created_threads =
      update s.created_threads z (some (record t { stack_addr = none; stack_freed = true }));
  zombie_tid = none;
  zombie_stack_addr = none;
}

-- The thread that runs next frees the stack of the one that has exited, and goes on if it was
-- not killed.
pub thread_routine_cleanup_lem :
    (z a : ℕ) (t u : Thread) (s : State)
    → s.zombie_tid ≡ some z
    → z < thread_max_threads
    → s.created_threads z ≡ some t
    → t.stack_addr ≡ some a
    → s.stacks a ≡ true
    → z ≢ s.running_thread
    → s.running_thread < thread_max_threads
    → s.created_threads s.running_thread ≡ some u
    → u.killed ≡ false
    → thread_routine_cleanup s ≡ returns tt (stack_gone z t a s)
unfolding thread_routine_cleanup free_zombie_stack thread_at free_stack modify_thread interrupts_off
thread_routine_cleanup_lem z a t u s zt lt c sa live ne rlt rc alive = ground arith

-- An exited thread whose stack is gone: only its exit code is left to be read.
pub record IsZombie (t : Thread) : Type 0 where
  pub done : eq_ℤ t.exit not_exited ≡ false
  pub freed : t.stack_freed ≡ true
  pub no_stack : t.stack_addr ≡ none
  pub no_queue : t.wq ≡ none
  pub not_killed : t.killed ≡ false

-- The state after the thread `tid` was waited for by the thread of record `w`.
abbrev pub reaped : ℕ → Thread → List ℕ → ℕ → State → State
reaped tid w avail pad s = record s {
  available_threads = layout (avail ++ tid ∷ []) pad;
  created_threads =
      update (update s.created_threads s.running_thread (some (record w { sleeping = false }))) tid
        none;
  num_threads_created = pred_ℤ s.num_threads_created;
  zombie_tid = none;
  zombie_stack_addr = none;
}

-- `thread_wait` for a thread that has exited returns at once with its exit code; the record is
-- gone and the id is the last of the available ones.
pub thread_wait-exited :
    (tid pad : ℕ) (t w : Thread) (avail : List ℕ) (s : State)
    → tid < thread_max_threads
    → tid ≢ s.running_thread
    → s.created_threads tid ≡ some t
    → IsZombie t
    → s.running_thread < thread_max_threads
    → s.created_threads s.running_thread ≡ some w
    → w.waiting_on ≡ none
    → s.available_threads ≡ layout avail (suc pad)
    → thread_wait (pos tid) s ≡ returns (pos tid, some t.exit) (reaped tid w avail pad s)
unfolding thread_wait uninterrupted may_wait_for await_exit reap thread_at modify_thread
    thread_create_zombie thread_cleanup_zombie wait_queue_destroy free_stack
thread_wait-exited tid pad t w avail s lt ne c z rlt rc idle av =
    ground (arith, append_to_available-layout avail pad tid)

-- The exit code makes the round trip: a thread `r` exits with `code`, the next thread `x` takes
-- over and frees its stack, and its `thread_wait(r)` answers `r` and `code`; the id `r` can then be
-- given out again. The thread count has gone down by two for the one thread. The conditions: `code`
-- is not -300, the code of a thread that has not exited; nobody waits or has waited for `r`, which
-- was not killed, waits for nobody, and has a live stack; `x` is the head of the ready queue, is
-- another thread, was not killed and waits for nobody; and one slot of the available ids is empty.
pub thread_exit-thread_wait :
    (code : ℤ) (t u : Thread) (x a pad apad : ℕ) (rest avail : List ℕ) (s : State)
    → s.ready_queue ≡ layout (x ∷ rest) pad
    → s.available_threads ≡ layout avail (suc apad)
    → s.running_thread < thread_max_threads
    → s.created_threads s.running_thread ≡ some t
    → IsPlain t
    → t.stack_addr ≡ some a
    → s.stacks a ≡ true
    → x < thread_max_threads
    → x ≢ s.running_thread
    → s.created_threads x ≡ some u
    → u.killed ≡ false
    → u.waiting_on ≡ none
    → eq_ℤ code not_exited ≡ false
    → (s1 s2 s3 : State) × (thread_exit code s ≡ gone s1)
      × (thread_routine_cleanup s1 ≡ returns tt s2)
      × (thread_wait (pos s.running_thread) s2 ≡ returns (pos s.running_thread, some code) s3)
      × (s3.created_threads s.running_thread ≡ none)
      × (s3.available_threads ≡ layout (avail ++ s.running_thread ∷ []) apad)
      × (s3.num_threads_created ≡ pred_ℤ (pred_ℤ s.num_threads_created))
thread_exit-thread_wait code t u x a pad apad rest avail s q av lt c p sa live xlt ne xc alive idle
      ok =
    let s1 = exited code t x rest pad s in
    let t1 : Thread = record t { exit = code } in
    let s2 = stack_gone s.running_thread t1 a s1 in
    let t2 : Thread = record t1 { stack_addr = none; stack_freed = true } in
    (
      s1,
      s2,
      reaped s.running_thread u avail apad s2,
      thread_exit-gone code t u x pad rest s q lt c p xlt xc,
      thread_routine_cleanup_lem s.running_thread a t1 u s1 refl lt (ground arith) sa live
          (λ e. ne (sym e)) xlt (ground arith) alive,
      thread_wait-exited s.running_thread apad t2 u avail s2 lt (λ e. ne (sym e)) (ground arith)
          (record {
            done = ok;
            freed = refl;
            no_stack = refl;
            no_queue = p.unawaited;
            not_killed = p.alive;
          })
          xlt (ground arith) idle av,
      ground arith,
      refl,
      refl,
    )
