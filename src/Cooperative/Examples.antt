-- ===== src/Cooperative/Examples.antt =====
-- A1-Cooperative-Threads/thread.c: the theorems at three threads.
use os_library.Base.{ℕ, ◌+◌, ◌≡◌, refl, none, some, true, false, [], ◌∷◌, arith, ltb, if◌then◌else◌}
use os_library.Base.Int.{pos}
use os_library.Base.Switching.{returns, fault}
use os_library.Preempt.Slots.Fifo.{layout}
use os_library.Preempt.State.{thread_any}
use os_library.Cooperative.State.{Thread, saved, State}
use os_library.Cooperative.Threads.{thread_exit, thread_kill, thread_yield, thread_create}
use os_library.Cooperative.Scheduling.{IsRunnable}
use os_library.Cooperative.Yields.{play, Represents, play-Represents}
use os_library.Cooperative.Ends.{thread_exit-Ends, thread_kill-Strands}
use os_library.Cooperative.Creation.{Creates, thread_create-Creates}

abbrev thread_with : ℕ → Thread
thread_with stack = record { context = saved; stack_addr = some stack; killed = false }

-- Thread 0 runs, 1 and 2 are ready.
abbrev three_threads : State
three_threads = record {
  running_thread = 0;
  ready_queue = layout (1 ∷ 2 ∷ []) 1022;
  available_threads = layout (3 ∷ 4 ∷ []) 1022;
  created_threads = λ i. if ltb i 3 then some (thread_with (100 + i)) else none;
  num_threads_created = pos 3;
  zombie_stack_addr = none;
  returning_from_exit = false;
  zombie_tid = none;
  stacks = λ p. true;
}

three_threads-IsRunnable : IsRunnable three_threads (1 ∷ 2 ∷ []) 1022
three_threads-IsRunnable = record {
  laid_out = refl;
  runs = (omega arith, refl);
  queued = ((omega arith, refl), ((omega arith, refl), tt));
  apart = refl;
  distinct = (refl, (refl, tt));
  no_stack = refl;
  no_exit = refl;
}

play-Represents_example :
    Represents (play (thread_any ∷ pos 2 ∷ pos 7 ∷ []) three_threads) (2, 0 ∷ 1 ∷ []) 1022
play-Represents_example =
    play-Represents (thread_any ∷ pos 2 ∷ pos 7 ∷ []) three_threads (1 ∷ 2 ∷ []) 1022
      three_threads-IsRunnable

thread_exit-Ends_example : thread_exit three_threads ≡ fault
thread_exit-Ends_example = thread_exit-Ends three_threads (1 ∷ 2 ∷ []) 1022 three_threads-IsRunnable

thread_kill-Strands_example :
    (t : State) × (thread_kill (pos 2) three_threads ≡ returns (pos 2) t)
    × (thread_yield (pos 2) t ≡ fault)
thread_kill-Strands_example =
    thread_kill-Strands 1 1022 three_threads (1 ∷ 2 ∷ []) three_threads-IsRunnable refl

thread_create-Creates_example :
    Creates
      (some 200)
      3
      8
      9
      (4 ∷ [])
      1022
      (1 ∷ 2 ∷ [])
      1021
      three_threads
      (thread_create (some 200) 8 9 three_threads)
thread_create-Creates_example =
    thread_create-Creates (some 200) 3 8 9 1022 1021 (4 ∷ []) (1 ∷ 2 ∷ []) three_threads
      three_threads-IsRunnable refl refl (omega arith) refl
