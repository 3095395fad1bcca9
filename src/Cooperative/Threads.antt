-- ===== src/Cooperative/Threads.antt =====
-- A1-Cooperative-Threads/thread.c: creating, yielding, ending and killing threads.
use os_library.Base.{
  ℕ, zero, suc, Option, none, some, true, false, ◌==◌, ◌&&◌, ltb, if◌then◌else◌, is_some, update,
  replicate, [], ◌∷◌,
}
use os_library.Base.Int.{pos, negsuc, eq_ℤ, succ_ℤ, pred_ℤ}
use os_library.Preempt.Slots.{
  Slots, remove_from_available, add_to_queue_tail, append_to_available, find_index_in_queue,
  first_slot, slot_is,
}
use os_library.Preempt.State.{Tid, thread_invalid, thread_none, thread_nomore}
use os_library.Cooperative.State.{
  thread_nomemory, start, saved, State, M, returns, switches, gone, exits, ◌>>=◌, ◌>>◌, pure, get,
  modify, fail, thread_at, modify_thread, free_stack, remove_at, find_tail_of_queue,
}

-- i, i + 1, … for `n` slots, then the marker.
abbrev pub ids_from : ℕ → ℕ → Slots
ids_from zero i = none ∷ []
ids_from (suc n) i = some i ∷ ids_from n (suc i)

-- `thread_init`. The stack of the first thread is never assigned, so it is whatever the block held; the loop that clears
-- `created_threads` stops before the last entry.
unfoldable pub thread_init : Option ℕ → State → State
thread_init garbage s = record s {
  running_thread = 0;
  ready_queue = replicate 1024 none;
  available_threads = ids_from 1023 1;
  created_threads = λ i.
      if i == 0
      then some (record { context = saved; stack_addr = garbage; killed = false })
      else (if ltb i 1023 then none else s.created_threads i);
  num_threads_created = succ_ℤ s.num_threads_created;
}

-- `thread_id`
unfoldable pub thread_id : State → Tid
thread_id s = pos s.running_thread

-- `thread_create` from the choice of an id on. With no id left `available_threads[0]` is the marker, and
-- `created_threads[-300]` is out of range.
unfoldable pub create_as : Option ℕ → Option ℕ → ℕ → ℕ → M Tid
create_as none stack fn parg = fail
create_as (some tid) stack fn parg = do
  modify (λ s. record s { available_threads = remove_from_available s.available_threads })
  elim stack [
    | none ↦ pure thread_nomemory
    | some lower_limit ↦ do
      modify (λ s. record s {
        stacks = update s.stacks lower_limit true;
        created_threads = update s.created_threads tid (
            some
              (record { context = start fn parg; stack_addr = some lower_limit; killed = false }));
        ready_queue = add_to_queue_tail s.ready_queue tid;
      })
      pure (pos tid)
  ]

-- `thread_create`, with what `malloc` answers for the stack. The block for the struct is taken not to be NULL.
unfoldable pub thread_create : Option ℕ → ℕ → ℕ → M Tid
thread_create stack fn parg s =
    (if eq_ℤ s.num_threads_created (pos 1024)
        then pure thread_nomore
        else (modify (λ t. record t { num_threads_created = succ_ℤ t.num_threads_created })
            >> create_as (first_slot s.available_threads) stack fn parg))
      s

-- The part of `thread_exit` with other threads in the ready queue.
unfoldable pub exit_to_tail : M (Unit {0})
exit_to_tail = do
  s ← get
  t ← thread_at s.running_thread
  modify (λ u. record u {
    zombie_tid = some u.running_thread;
    available_threads = append_to_available u.available_threads (some u.running_thread);
    num_threads_created = pred_ℤ u.num_threads_created;
    zombie_stack_addr = t.stack_addr;
    created_threads = update u.created_threads u.running_thread none;
    ready_queue = (find_tail_of_queue u.ready_queue).1;
  })
  elim (find_tail_of_queue s.ready_queue).0 [
    | none ↦ fail
    | some next ↦ do
      u ← get
      remove_at (find_index_in_queue u.ready_queue next)
      modify (λ v. record v { running_thread = next; returning_from_exit = true })
      thread_at next
      (λ v. gone v)
  ]

-- `thread_exit`, which never returns.
unfoldable pub thread_exit : M (Unit {0})
thread_exit s = (if is_some (first_slot s.ready_queue) then exit_to_tail else (λ t. exits t)) s

-- `thread_stub`, over the meaning of the program's functions.
unfoldable pub thread_stub : (ℕ → ℕ → M (Unit {0})) → ℕ → ℕ → M (Unit {0})
thread_stub main fn arg = do main fn arg; thread_exit

-- The processor goes from `old` to the thread at an index of the ready queue, which is found as `created_threads[new]`.
unfoldable pub hand_over : Option ℕ → ℕ → M (Unit {0})
hand_over index new = do
  thread_at new
  s ← get
  modify (λ t. record t { running_thread = new })
  remove_at index
  modify (λ t. record t { ready_queue = add_to_queue_tail t.ready_queue s.running_thread })

unfoldable pub free_zombie : M (Unit {0})
free_zombie = do
  s ← get
  free_stack s.zombie_stack_addr
  modify (λ t. record t { zombie_stack_addr = none })

unfoldable pub exit_if_killed : M (Unit {0})
exit_if_killed = do
  s ← get
  t ← thread_at s.running_thread
  if t.killed then thread_exit else pure tt

-- `setcontext` on `created_threads[new]`; the caller goes on when it runs again.
abbrev pub switch : M (Unit {0})
switch s = switches s (λ t. returns tt t)

-- What follows `getcontext` in `thread_yield(THREAD_ANY)`, both before the switch and when the caller runs again: after
-- an exit the ready queue is turned once more. The answer is the thread to switch to, or `none` for THREAD_NONE.
unfoldable pub after_any : ℕ → M (Option ℕ)
after_any new = do
  free_zombie
  s ← get
  next ←
      (if s.returning_from_exit
        then (elim (first_slot s.ready_queue) [
          | none ↦ pure none
          | some other ↦ do
            hand_over (some 0) other
            modify (λ t. record t { returning_from_exit = false })
            pure (some other)
        ])
        else pure (some new))
  elim next [ none ↦ pure none | some chosen ↦ do exit_if_killed; pure (some chosen) ]

-- What follows `getcontext` in `thread_yield` of an id, where `none` is for THREAD_INVALID.
unfoldable pub after_want : ℕ → M (Option ℕ)
after_want want = do
  free_zombie
  s ← get
  if s.returning_from_exit && slot_is s.zombie_tid want
      then (do modify (λ t. record t { zombie_tid = none }); pure none)
      else (do exit_if_killed; pure (some want))

-- `getcontext`, what follows it, `setcontext` on the thread chosen, and when the caller runs again what follows
-- `getcontext` once more; `refused` is the answer where that returns early.
unfoldable pub switch_over : ℕ → Tid → (ℕ → M (Option ℕ)) → ℕ → M Tid
switch_over old refused after new = do
  modify_thread old (λ t. record t { context = saved })
  chosen ← after new
  elim chosen [
    | none ↦ pure refused
    | some target ↦ do
      thread_at target
      switch
      again ← after target
      elim again [ none ↦ pure refused | some answer ↦ pure (pos answer) ]
  ]

unfoldable pub yield_any : M Tid
yield_any s =
    (elim (first_slot s.ready_queue) as (λ _. M Tid) [
      | none ↦ pure thread_none
      | some new ↦ do hand_over (some 0) new; switch_over s.running_thread thread_none after_any new
    ])
      s

unfoldable pub yield_want : ℕ → M Tid
yield_want want s =
    (if s.running_thread == want
        then pure (thread_id s)
        else (elim (find_index_in_queue s.ready_queue want) [
          | none ↦ pure thread_invalid
          | some index ↦ do
            hand_over (some index) want
            switch_over s.running_thread thread_invalid after_want want
        ]))
      s

-- `thread_yield`
unfoldable pub thread_yield : Tid → M Tid
thread_yield (pos want) s = yield_want want s
thread_yield (negsuc zero) s = yield_any s
thread_yield (negsuc (suc zero)) s = returns (pos s.running_thread) s
thread_yield (negsuc (suc (suc k))) s = returns thread_invalid s

-- `thread_kill`, which does not check that the id is in range.
unfoldable pub thread_kill : Tid → M Tid
thread_kill (negsuc k) s = returns thread_invalid s
thread_kill (pos zero) s = returns thread_invalid s
thread_kill (pos (suc k)) s =
    (if ltb (suc k) 1024
        then (elim (s.created_threads (suc k)) [
          | none ↦ pure thread_invalid
          | some t ↦
              if suc k == s.running_thread
              then pure thread_invalid
              else (do modify_thread (suc k) (λ u. record u { killed = true }); pure (pos (suc k)))
        ])
        else fail)
      s
