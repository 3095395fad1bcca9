-- ===== src/Preempt/Aborts.antt =====
-- `thread_kill` of an awaited thread: the waiter is woken before the thread has exited.
use os_library.Base.{ℕ, ◌<◌, ◌≡◌, sym, ◌∙◌, none, some, true, false, List, [], ◌∷◌, arith, ◌≢◌}
use os_library.Base.Int.{pos}
use os_library.Base.Switching.{resumes}
use os_library.Preempt.State.{
  put_thread, thread_max_threads, not_exited, Thread, State, returns, fault, uninterrupted,
  thread_at, modify_thread, wait_queue_at,
}
use os_library.Preempt.WaitQueues.{has_waiters}
use os_library.Preempt.Switch.{thread_wait, can_kill, kill_marked, thread_kill}
use os_library.Preempt.Wakeups.{queue_of, woken, Exists, thread_wakeup-one}
use os_library.Preempt.Waiting.{GoesOn, Hands, thread_wait-aborts}

woken-GoesOn :
    (tid q w : ℕ) (t m : Thread) (s : State)
    → w < thread_max_threads
    → w ≢ tid
    → s.created_threads w ≡ some m
    → m.killed ≡ false
    → s.zombie_tid ≡ none
    → GoesOn (record (woken q w [] 0 (put_thread tid (some t) s)) { running_thread = w })
woken-GoesOn tid q w t m s lt ne c alive z = record {
  me = record m { sleeping = false; waiting_on = none };
  in_range = lt;
  is_me = ground (arith, c);
  alive = alive;
  no_zombie = z;
}

-- A thread `w` has called `thread_wait(tid)` in `before`, where `tid` had not exited and was not
-- killed, nobody had waited for it, and another thread `x`, not asleep, was the first of the ready ones. Later,
-- in `s`, `tid` does not run, can be killed and has still not exited, `w` is the one thread in its
-- queue and was not killed, and no thread has just exited. Then `thread_kill(tid)` succeeds and wakes `w`, and if `w` runs next, its `thread_wait` aborts.
pub thread_kill-aborts_waiter :
    (tid q w x pad : ℕ) (rest : List ℕ) (u t m : Thread) (before s : State)
    → tid < thread_max_threads
    → before.running_thread ≡ w
    → w ≢ tid
    → before.created_threads tid ≡ some u
    → u.exit ≡ not_exited
    → u.wq ≡ none
    → u.killed ≡ false
    → x ≢ tid
    → Hands before x pad rest
    → tid ≢ s.running_thread
    → can_kill tid s ≡ true
    → s.created_threads tid ≡ some t
    → t.exit ≡ not_exited
    → t.wq ≡ some q
    → s.wait_queues q ≡ some (queue_of (w ∷ []) 1)
    → w < thread_max_threads
    → s.created_threads w ≡ some m
    → m.killed ≡ false
    → s.zombie_tid ≡ none
    → let s1 = woken q w [] 0 (put_thread tid (some (record t { killed = true })) s) in
      (thread_kill (pos tid) s ≡ returns (pos tid) s1)
      × (resumes (thread_wait (pos tid) before) (record s1 { running_thread = w }) ≡ fault)
unfolding thread_kill kill_marked uninterrupted can_kill thread_at modify_thread has_waiters
    wait_queue_at
thread_kill-aborts_waiter tid q w x pad rest u t m before s lt runs wt uc ue uw uk xt hands ne ok c
      e tq wq wlt wc alive z =
    let killed = record t { killed = true } in
    let marked = record (put_thread tid (some killed) s) { interrupts = false } in
    let ex : Exists marked w = (wlt, ground arith) in
    let later = record (woken q w [] 0 (put_thread tid (some killed) s)) { running_thread = w } in
    (
      ground (arith, thread_wakeup-one q (w ∷ []) marked wq (ex, tt)),
      thread_wait-aborts tid x pad rest u killed before later lt (λ y. wt (sym (y ∙ runs))) uc ue uw
          uk xt hands (woken-GoesOn tid q w killed m s wlt wt wc alive z) (ground (arith, c)) e,
    )
