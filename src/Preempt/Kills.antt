-- ===== src/Preempt/Kills.antt =====
-- `thread_kill`: who can be killed, what a killed thread does next, and who is woken too early.
use os_library.Base.{ℕ, suc, ◌<◌, ◌≡◌, refl, none, some, true, false, arith, ◌≢◌, ◌⊎◌}
use os_library.Base.Int.{pos, negsuc}
use os_library.Preempt.State.{
  thread_max_threads, thread_invalid, minus_sigkill, not_exited, Thread, State, returns, fault,
  uninterrupted, interrupts_off, thread_at, modify_thread, put_thread,
}
use os_library.Preempt.WaitQueues.{has_waiters}
use os_library.Preempt.Threads.{thread_exit, thread_routine_cleanup, free_zombie_stack}
use os_library.Preempt.Switch.{can_kill, kill_marked, thread_kill, reap}

-- `thread_kill` refuses, and changes nothing, for itself, an id out of range, and a thread that
-- is missing, dying, or neither ready nor asleep.
pub thread_kill-refuses :
    (tid k : ℕ) (s : State)
    → (tid ≡ s.running_thread) ⊎ ((thread_max_threads < suc tid) ⊎ (can_kill tid s ≡ false))
    → (thread_kill (pos tid) s ≡ returns thread_invalid s)
      × (thread_kill (negsuc k) s ≡ returns thread_invalid s)
unfolding thread_kill uninterrupted can_kill
thread_kill-refuses tid k s h = (ground arith, refl)

-- Otherwise a thread that nobody waits for is marked, and nothing else changes.
pub thread_kill-marks :
    (tid : ℕ) (t : Thread) (s : State)
    → tid < thread_max_threads
    → tid ≢ s.running_thread
    → can_kill tid s ≡ true
    → s.created_threads tid ≡ some t
    → t.wq ≡ none
    → thread_kill (pos tid) s
      ≡ returns (pos tid) (put_thread tid (some (record t { killed = true })) s)
unfolding thread_kill kill_marked uninterrupted can_kill thread_at modify_thread has_waiters
thread_kill-marks tid t s lt ne ok c w = ground arith

-- A killed thread that gets the processor exits with -SIGKILL in place of going on.
pub killed-exits :
    (t : Thread) (s : State)
    → s.zombie_tid ≡ none
    → s.running_thread < thread_max_threads
    → s.created_threads s.running_thread ≡ some t
    → t.killed ≡ true
    → thread_routine_cleanup s ≡ thread_exit minus_sigkill (record s { interrupts = false })
unfolding thread_routine_cleanup free_zombie_stack thread_at interrupts_off
killed-exits t s z lt c k = ground arith

-- The end of `thread_wait` aborts if the awaited thread has not exited.
pub reap-unexited :
    (tid : ℕ) (t : Thread) (s : State)
    → tid < thread_max_threads
    → s.created_threads tid ≡ some t
    → t.exit ≡ not_exited
    → reap tid s ≡ fault
unfolding reap thread_at
reap-unexited tid t s lt c e = ground arith
