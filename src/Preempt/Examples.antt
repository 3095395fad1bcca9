-- ===== src/Preempt/Examples.antt =====
-- A small state of the thread library, runs of the calls on it, and the theorems at it.
use os_library.Base.{
  ℕ, ◌≡◌, refl, none, some, true, false, List, [], ◌∷◌, arith, ◌==◌, if◌then◌else◌, ◌≢◌, ltb,
}
use os_library.Base.Int.{pos, negsuc}
use os_library.Preempt.Slots.{find_index_in_queue}
use os_library.Preempt.Slots.Fifo.{layout}
use os_library.Preempt.State.{
  thread_any, thread_self, thread_none, thread_invalid, not_exited, saved, Thread, State, returns,
  gone, fault, spins,
}
use os_library.Preempt.WaitQueues.{thread_wakeup}
use os_library.Preempt.Threads.{thread_exit, thread_create, thread_routine_cleanup}
use os_library.Preempt.Switch.{thread_yield, thread_kill, thread_wait, can_kill}
use os_library.Preempt.Sync.{lock_acquire}
use os_library.Base.Switching.{resumes, departs}
use os_library.Preempt.Wakeups.{queue_of, IsAwoken, thread_wakeup_everyone, woken}
use os_library.Preempt.Scheduling.{
  IsRunnable, switched, thread_yield-returns, thread_yield-IsRunnable,
}
use os_library.Preempt.RoundRobin.{turns, round_robin}
use os_library.Preempt.Locks.{Takes, lock_acquire-Takes, lock_acquire-blocks, lock_acquire-spins}
use os_library.Preempt.Sleeping.{asleep}
use os_library.Preempt.Resumed.{Traced}
use os_library.Preempt.Exits.{thread_exit-thread_wait}
use os_library.Preempt.Creation.{new_thread, thread_create-IsRunnable}
use os_library.Preempt.Aborts.{thread_kill-aborts_waiter}

abbrev plain : ℕ → Thread
plain i = record {
  context = saved;
  stack_addr = some i;
  killed = false;
  sleeping = false;
  wq = none;
  waiting_on = none;
  exit = not_exited;
  parent = 0;
  stack_freed = false;
}

-- Thread 5 sleeps, and thread 6 waits for it in the queue 11.
abbrev sleeper : Thread
sleeper = record (plain 5) { sleeping = true; wq = some 11 }

abbrev waiter : Thread
waiter = record (plain 6) { sleeping = true; waiting_on = some 5 }

-- Thread 0 runs, 1 and 2 are ready, 3 and 4 sleep in the queue 10 of the lock 20, which 1 holds.
abbrev demo : State
demo = record {
  running_thread = 0;
  ready_queue = layout (1 ∷ 2 ∷ []) 6;
  available_threads = layout (7 ∷ []) 3;
  created_threads = λ i.
      if ltb i 5
      then some (record (plain i) { sleeping = ltb 2 i })
      else (if i == 5 then some sleeper else (if i == 6 then some waiter else none));
  num_threads_created = pos 7;
  returning_from_exit = false;
  zombie_stack_addr = none;
  zombie_tid = none;
  interrupts = true;
  stacks = λ a. ltb a 7;
  wait_queues = λ q.
      if q == 10
      then some (queue_of (3 ∷ 4 ∷ []) 2)
      else (if q == 11 then some (queue_of (6 ∷ []) 1) else none);
  locks = λ l. if l == 20 then some (record { wq = 10; held_by = some 1; free = false }) else none;
  cvs = λ c. none;
  next_addr = 30;
}

demo-IsRunnable : IsRunnable demo (1 ∷ 2 ∷ []) 6
demo-IsRunnable = record {
  laid_out = refl;
  runs = (omega arith, refl);
  queued = ((omega arith, refl), ((omega arith, refl), tt));
  apart = refl;
  distinct = (refl, (refl, tt));
}

abbrev two_ready : List ℕ
two_ready = 1 ∷ 2 ∷ []

round_robin_example :
    (u : State) × (turns 3 demo ≡ some (1 ∷ 2 ∷ 0 ∷ [], u))
    × IsRunnable u (1 ∷ 2 ∷ []) 6
    × (u.running_thread ≡ 0)
round_robin_example =
    round_robin demo 1 6 (2 ∷ []) demo-IsRunnable
      (record { no_zombie = refl; runner = refl; others = (refl, (refl, tt)) })

thread_yield-returns_example :
    (thread_yield thread_self demo ≡ returns (pos 0) demo)
    × (thread_yield (pos 0) demo ≡ returns (pos 0) demo)
    × (two_ready ≡ [] → thread_yield thread_any demo ≡ returns thread_none demo)
    × (false ≡ false
        → 5 ≢ demo.running_thread
        → thread_yield (pos 5) demo ≡ returns thread_invalid demo)
    × (thread_yield (negsuc 9) demo ≡ returns thread_invalid demo)
thread_yield-returns_example = thread_yield-returns demo two_ready 6 5 7 demo-IsRunnable

thread_wakeup_everyone_example :
    (t : State) × (thread_wakeup (some 10) true demo ≡ returns 2 t)
    × IsAwoken 10 (3 ∷ 4 ∷ []) (1 ∷ 2 ∷ []) demo t
thread_wakeup_everyone_example =
    thread_wakeup_everyone 10 (3 ∷ 4 ∷ []) (1 ∷ 2 ∷ []) demo refl
      ((omega arith, refl), ((omega arith, refl), tt))

lock_acquire-Takes_example : Traced (Takes 20) demo (lock_acquire 3 20 demo)
lock_acquire-Takes_example = lock_acquire-Takes 3 20 demo

abbrev freed : State
freed = record demo {
  locks =
      λ l. if 20 == l then some (record { wq = 10; held_by = none; free = true }) else demo.locks l;
}

abbrev idle : State
idle = record demo { ready_queue = layout [] 8 }

lock_acquire-blocks_example :
    departs (lock_acquire 3 20 demo) ≡ some (switched 1 (2 ∷ []) 7 (asleep 10 (3 ∷ 4 ∷ []) demo))
lock_acquire-blocks_example =
    lock_acquire-blocks 2 20 1 6 (3 ∷ 4 ∷ []) (2 ∷ [])
      (record { wq = 10; held_by = some 1; free = false }) demo demo-IsRunnable refl refl refl

lock_acquire-spins_example : lock_acquire 9 20 idle ≡ spins (record idle { interrupts = false })
lock_acquire-spins_example =
    lock_acquire-spins 9 20 (record { wq = 10; held_by = some 1; free = false }) idle refl refl refl

thread_exit-thread_wait_example :
    (s1 s2 s3 : State) × (thread_exit (pos 42) demo ≡ gone s1)
    × (thread_routine_cleanup s1 ≡ returns tt s2)
    × (thread_wait (pos 0) s2 ≡ returns (pos 0, some (pos 42)) s3)
    × (s3.created_threads 0 ≡ none)
    × (s3.available_threads ≡ layout (7 ∷ 0 ∷ []) 2)
    × (s3.num_threads_created ≡ pos 5)
thread_exit-thread_wait_example =
    thread_exit-thread_wait (pos 42) (record (plain 0) { sleeping = false })
      (record (plain 1) { sleeping = false }) 1 0 6 2 (2 ∷ []) (7 ∷ []) demo refl refl (omega arith)
      refl (record { unawaited = refl; idle = refl; alive = refl; running = refl }) refl refl
      (omega arith) (ground arith) refl refl refl refl

abbrev roomy : State
roomy = record demo { ready_queue = layout (1 ∷ 2 ∷ []) 1022 }

-- Thread 6 is about to wait for 5, which sleeps.
abbrev before_wait : State
before_wait = record demo {
  running_thread = 6;
  created_threads = λ i.
      if i == 6
      then some (plain 6)
      else (if i == 5 then some (record (plain 5) { sleeping = true }) else demo.created_threads i);
}

thread_kill-aborts_waiter_example :
    let s1 = woken 11 6 [] 0 (record demo {
      created_threads =
          λ i. if 5 == i then some (record sleeper { killed = true }) else demo.created_threads i;
    }) in
    (thread_kill (pos 5) demo ≡ returns (pos 5) s1)
    × (resumes (thread_wait (pos 5) before_wait) (record s1 { running_thread = 6 }) ≡ fault)
thread_kill-aborts_waiter_example =
    thread_kill-aborts_waiter 5 11 6 1 6 (2 ∷ []) (record (plain 5) { sleeping = true }) sleeper
      waiter before_wait demo (omega arith) refl (ground arith) refl refl refl refl (ground arith)
      (record {
        me = plain 6;
        next = record (plain 1) { sleeping = false };
        ready = refl;
        in_range = omega arith;
        is_me = refl;
        next_in_range = omega arith;
        other = ground arith;
        is_next = refl;
        awake = refl;
      })
      (ground arith) (unfold can_kill find_index_in_queue in refl) refl refl refl refl (omega arith)
      refl refl refl

thread_yield-IsRunnable_example :
    (t : State) × (departs (thread_yield (pos 2) demo) ≡ some t)
    × (t.running_thread ≡ 2)
    × IsRunnable t (1 ∷ 0 ∷ []) 6
thread_yield-IsRunnable_example = thread_yield-IsRunnable demo 2 6 two_ready demo-IsRunnable refl

thread_create-IsRunnable_example :
    (t : State) × (thread_create 8 9 demo ≡ returns (pos 7) t)
    × IsRunnable t (1 ∷ 2 ∷ 7 ∷ []) 5
    × (t.available_threads ≡ layout [] 4)
    × (t.created_threads 7 ≡ some (new_thread 8 9 30 0))
thread_create-IsRunnable_example =
    thread_create-IsRunnable 8 9 7 3 5 [] two_ready demo demo-IsRunnable refl refl (omega arith)
      refl (ground arith)
