-- ===== src/Preempt/State.antt =====
-- A2-Preemptive-Threads: the global state of thread.c, and what a call can do.
use os_library.Base.{ℕ, Option, none, some, Bool, true, false, List, ltb, if◌then◌else◌, update}
use os_library.Base.Int.{ℤ, negsuc}
pub use os_library.Base.Switching.{
  Switching, returns, switches, gone, exits, fault, spins, and_then, ◌>>=◌, ◌>>◌, pure, get, modify,
  fail, assert_that, departs,
}
use os_library.Preempt.Slots.{Slots}

abbrev pub thread_max_threads : ℕ
thread_max_threads = 1024

abbrev pub Tid : Type 0
Tid = ℤ

-- The error and control codes of thread.h, and the marker (Tid)-300.
abbrev pub thread_any : Tid
thread_any = negsuc 0

abbrev pub thread_self : Tid
thread_self = negsuc 1

abbrev pub thread_invalid : Tid
thread_invalid = negsuc 2

abbrev pub thread_none : Tid
thread_none = negsuc 3

abbrev pub thread_nomore : Tid
thread_nomore = negsuc 4

abbrev pub not_exited : ℤ
not_exited = negsuc 299

-- -SIGKILL
abbrev pub minus_sigkill : ℤ
minus_sigkill = negsuc 8

-- What `setcontext` on a saved context does: start `thread_stub` with a function and an argument,
-- or go on after the `getcontext` of `thread_yield`.
pub data Context : Type 0 where
  start : ℕ → ℕ → Context
  saved : Context

-- `struct thread`. Pointers are addresses, with `none` for NULL; `waiting_on` and the like have
-- `none` for (Tid)-300. The field `Tid` is always the index in `created_threads`, and not kept.
pub record Thread : Type 0 where
  pub context : Context
  pub stack_addr : Option ℕ
  pub killed : Bool
  pub sleeping : Bool
  pub wq : Option ℕ
  pub waiting_on : Option ℕ
  pub exit : ℤ
  pub parent : ℕ
  pub stack_freed : Bool

-- `struct wait_queue`: the chain of `struct waiting_thread` from `head` to `tail`, and the count.
pub record WaitQueue : Type 0 where
  pub waiting : List ℕ
  pub size : ℕ

pub record Lock : Type 0 where
  pub wq : ℕ
  pub held_by : Option ℕ
  pub free : Bool

pub record Cv : Type 0 where
  pub condition_reach : Bool
  pub wq : ℕ
  pub num_waiting : ℤ

-- The globals of thread.c, whether the timer signal is unblocked, and the live blocks of the heap.
pub record State : Type 0 where
  pub running_thread : ℕ
  pub ready_queue : Slots
  pub available_threads : Slots
  pub created_threads : ℕ → Option Thread
  pub num_threads_created : ℤ
  pub returning_from_exit : Bool
  pub zombie_stack_addr : Option ℕ
  pub zombie_tid : Option ℕ
  pub interrupts : Bool
  pub stacks : ℕ → Bool
  pub wait_queues : ℕ → Option WaitQueue
  pub locks : ℕ → Option Lock
  pub cvs : ℕ → Option Cv
  pub next_addr : ℕ

abbrev pub Outcome : Type 0 → Type 0
Outcome = Switching State

abbrev pub M : Type 0 → Type 0
M A = State → Outcome A

-- `sigprocmask` on the timer signal: the new setting, and the old one as the result.
unfoldable pub interrupts_set : Bool → M Bool
interrupts_set enable s = returns s.interrupts (record s { interrupts = enable })

unfoldable pub interrupts_off : M Bool
unfolding interrupts_set
interrupts_off = interrupts_set false

unfoldable pub interrupts_on : M Bool
unfolding interrupts_set
interrupts_on = interrupts_set true

unfoldable pub interrupts_enabled : State → Bool
interrupts_enabled s = s.interrupts

-- The common shape of thread.c: interrupts off for the body, then as they were. The source calls `interrupts_set` by
-- hand before each of its returns.
unfoldable pub uninterrupted : {A : Type 0} → M A → M A
unfolding interrupts_off interrupts_set
uninterrupted body = do e ← interrupts_off; a ← body; interrupts_set e; pure a

-- `*created_threads[i]`
unfoldable pub thread_at : ℕ → M Thread
thread_at i s =
    if ltb i thread_max_threads
    then (elim (s.created_threads i) [ none ↦ fault | some t ↦ returns t s ])
    else fault

abbrev pub put_thread : ℕ → Option Thread → State → State
put_thread i t s = record s { created_threads = update s.created_threads i t }

-- `*created_threads[i] = f(*created_threads[i])`
unfoldable pub modify_thread : ℕ → (Thread → Thread) → M (Unit {0})
modify_thread i f = do t ← thread_at i; modify (put_thread i (some (f t)))

-- `*q` for a `struct wait_queue`
unfoldable pub wait_queue_at : ℕ → M WaitQueue
wait_queue_at q s = elim (s.wait_queues q) [ none ↦ fault | some w ↦ returns w s ]

abbrev pub put_wait_queue : ℕ → Option WaitQueue → State → State
put_wait_queue q w s = record s { wait_queues = update s.wait_queues q w }

-- A pointer that is followed.
abbrev pub non_null : Option ℕ → M ℕ
non_null none = fail
non_null (some p) = pure p

-- `free369` of a stack: nothing for NULL, a fault for a block that is not live.
unfoldable pub free_stack : Option ℕ → M (Unit {0})
free_stack none s = returns tt s
free_stack (some p) s =
    if s.stacks p then returns tt (record s { stacks = update s.stacks p false }) else fault
