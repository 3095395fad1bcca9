-- ===== src/Preempt/Resumed.antt =====
-- What a call leaves alone from the time when its caller last got the processor: the locks.
use os_library.Base.{
  ℕ, ◌≡◌, refl, ◌∙◌, Option, none, some, Bool, true, false, not, Option-cases, Bool-cases, inl, inr,
  ltb, if◌then◌else◌, is_some,
}
use os_library.Base.Int.{ℤ, pred_ℤ}
use os_library.Preempt.Slots.{first_slot, remove_from_queue}
use os_library.Preempt.State.{
  thread_max_threads, Tid, Thread, State, M, Outcome, returns, switches, gone, exits, fault, spins,
  and_then, assert_that, uninterrupted, interrupts_off, interrupts_enabled, interrupts_set, saved,
  thread_any, thread_none, minus_sigkill, pure, ◌>>◌, thread_at, modify_thread, wait_queue_at,
  free_stack,
}
use os_library.Preempt.WaitQueues.{put_to_sleep}
use os_library.Preempt.Threads.{
  thread_create_zombie, cleanup_before_zombifying, freeup_leftover_zombies, exit_to, thread_exit,
  free_zombie_stack, thread_routine_cleanup,
}
use os_library.Preempt.Switch.{
  YieldTo, requeue, yield_target, answer, take, yield_to, yield_chosen, thread_yield, sleep_on,
  sleep_checked, thread_sleep,
}

-- Wherever the call returns, `P` holds of the state in which its caller last got the processor, of the result, and of the
-- state of the return. That first state is `c` as long as the call has not given up the processor.
abbrev pub Traced : {A : Type 0} → (State → A → State → Type 0) → State → Outcome A → Type 0
Traced P c (returns a s) = P c a s
Traced P c (switches s k) = (t : State) → Traced P t (k t)
Traced P c (gone s) = Unit {0}
Traced P c (exits s) = Unit {0}
Traced P c fault = Unit {0}
Traced P c (spins s) = Unit {0}

pub Traced-and_then :
    {A B : Type 0} (P : State → A → State → Type 0) (Q : State → B → State → Type 0) (c : State)
    (o : Outcome A) (f : A → M B)
    → Traced P c o
    → ((d : State) (a : A) (s : State) → P d a s → Traced Q d (f a s))
    → Traced Q c (and_then o f)
Traced-and_then P Q c (returns a s) f h k = k c a s h
Traced-and_then P Q c (switches s r) f h k = λ t. Traced-and_then P Q t (r t) f (h t) k
Traced-and_then P Q c (gone s) f h k = tt
Traced-and_then P Q c (exits s) f h k = tt
Traced-and_then P Q c fault f h k = tt
Traced-and_then P Q c (spins s) f h k = tt

Traced-any : {A : Type 0} (c : State) (o : Outcome A) → Traced (λ _ _ _. Unit {0}) c o
Traced-any c (returns a s) = tt
Traced-any c (switches s r) = λ t. Traced-any t (r t)
Traced-any c (gone s) = tt
Traced-any c (exits s) = tt
Traced-any c fault = tt
Traced-any c (spins s) = tt

abbrev pub SameLocks : {A : Type 0} → State → A → State → Type 0
SameLocks c a t = t.locks ≡ c.locks

-- The call changes no lock while its caller has the processor.
abbrev pub KeepsLocks : {A : Type 0} → M A → Type 0
KeepsLocks m = (c s : State) → s.locks ≡ c.locks → Traced SameLocks c (m s)

-- The same of a call that never returns, whatever was done before it.
abbrev NeverReturns : {A : Type 0} → M A → Type 0
NeverReturns m = (c s : State) → Traced SameLocks c (m s)

keeps_then :
    {A B : Type 0} (c : State) (o : Outcome A) (f : A → M B)
    → Traced SameLocks c o
    → ((d : State) (a : A) (t : State) → t.locks ≡ d.locks → Traced SameLocks d (f a t))
    → Traced SameLocks c (and_then o f)
keeps_then c o f h k = Traced-and_then SameLocks SameLocks c o f h k

never_then :
    {A B : Type 0} (c : State) (o : Outcome A) (f : A → M B)
    → ((a : A) → NeverReturns (f a))
    → Traced SameLocks c (and_then o f)
never_then c o f k =
    Traced-and_then (λ _ _ _. Unit {0}) SameLocks c o f (Traced-any c o) (λ d a t g. k a d t)

assert_keeps : (b : Bool) → KeepsLocks (assert_that b)
assert_keeps true c s e = e
assert_keeps false c s e = tt

uninterrupted_keeps : {A : Type 0} (body : M A) → KeepsLocks body → KeepsLocks (uninterrupted body)
unfolding uninterrupted
uninterrupted_keeps body h c s e =
    keeps_then c (body (record s { interrupts = false })) _
      (h c (record s { interrupts = false }) e) (λ d a t g. g)

thread_at_keeps : (i : ℕ) → KeepsLocks (thread_at i)
unfolding thread_at
thread_at_keeps i c s e = elim (Bool-cases (ltb i thread_max_threads)) [
  | inl h ↦ elim (Option-cases (s.created_threads i)) [
    | inl z ↦ rw (h, z) tt
    | inr (t, z) ↦ rw (h, z) e
  ]
  | inr h ↦ rw (h) tt
]

non_null_keeps :
    {A : Type 0} (o : Option A)
    → KeepsLocks (λ s. elim o as (λ _. Outcome A) [ none ↦ fault | some w ↦ returns w s ])
non_null_keeps none c s e = tt
non_null_keeps (some w) c s e = e

wait_queue_at_keeps : (q : ℕ) → KeepsLocks (wait_queue_at q)
unfolding wait_queue_at
wait_queue_at_keeps q c s e = non_null_keeps (s.wait_queues q) c s e

modify_thread_keeps : (i : ℕ) (f : Thread → Thread) → KeepsLocks (modify_thread i f)
unfolding modify_thread
modify_thread_keeps i f c s e =
    keeps_then c (thread_at i s) _ (thread_at_keeps i c s e) (λ d t u g. g)

free_stack_keeps : (p : Option ℕ) → KeepsLocks (free_stack p)
unfolding free_stack
free_stack_keeps none c s e = e
free_stack_keeps (some p) c s e = elim (Bool-cases (s.stacks p)) [
  | inl h ↦ rw (h) e
  | inr h ↦ rw (h) tt
]

exit_to_never : (code : ℤ) (next : ℕ) → NeverReturns (exit_to code next)
unfolding exit_to
exit_to_never code next c s =
    never_then c (modify_thread s.running_thread (λ t. record t { exit = code }) s) _ (λ _ c r.
      let counted = record r { num_threads_created = pred_ℤ r.num_threads_created } in
      never_then c (thread_create_zombie s.running_thread counted) _ (λ _ c r.
        let gone_on = record r {
          running_thread = next;
          ready_queue = remove_from_queue 0 r.ready_queue;
          returning_from_exit = true;
        } in
        never_then c (assert_that (not (interrupts_enabled gone_on)) gone_on) _
          (λ _ c r. never_then c (thread_at next r) _ (λ _ _ _. tt))))

exit_next_never :
    (code : ℤ) (next : Option ℕ)
    → NeverReturns (elim next as (λ _. M (Unit {0})) [
      | none ↦ freeup_leftover_zombies >> (λ t. exits t)
      | some n ↦ exit_to code n
    ])
exit_next_never code none c s = never_then c (freeup_leftover_zombies s) _ (λ _ _ _. tt)
exit_next_never code (some n) c s = exit_to_never code n c s

thread_exit_never : (code : ℤ) → NeverReturns (thread_exit code)
unfolding thread_exit interrupts_off interrupts_set
thread_exit_never code c s =
    never_then c (cleanup_before_zombifying s.running_thread (record s { interrupts = false })) _
      (λ _ d r. exit_next_never code (first_slot r.ready_queue) d r)

free_zombie_stack_keeps : (z : Option ℕ) → KeepsLocks (free_zombie_stack z)
unfolding free_zombie_stack
free_zombie_stack_keeps none c s e = e
free_zombie_stack_keeps (some z) c s e =
    keeps_then c (thread_at z s) _ (thread_at_keeps z c s e) (λ c t s e.
      keeps_then c (free_stack t.stack_addr s) _ (free_stack_keeps t.stack_addr c s e) (λ c _ s e.
        let freed : Thread → Thread = λ u. record u { stack_addr = none; stack_freed = true } in
        keeps_then c (modify_thread z freed s) _ (modify_thread_keeps z freed c s e)
          (λ c _ s e. e)))

go_on_keeps : (b : Bool) → KeepsLocks (if b then thread_exit minus_sigkill else pure tt)
go_on_keeps true c s e = thread_exit_never minus_sigkill c s
go_on_keeps false c s e = e

thread_routine_cleanup_keeps : KeepsLocks thread_routine_cleanup
unfolding thread_routine_cleanup interrupts_off interrupts_set
thread_routine_cleanup_keeps c s e =
    keeps_then c (free_zombie_stack s.zombie_tid s) _ (free_zombie_stack_keeps s.zombie_tid c s e)
      (λ c _ r e.
        let off = record r { interrupts = false } in
        keeps_then c (thread_at s.running_thread off) _ (thread_at_keeps s.running_thread c off e)
          (λ c t r e. go_on_keeps t.killed c r e))

requeue_keeps : (me : ℕ) (sleeping : Bool) (s : State) → (requeue me sleeping s).locks ≡ s.locks
unfolding requeue
requeue_keeps me true s = refl
requeue_keeps me false s = refl

yield_to_keeps : (index new : ℕ) → KeepsLocks (yield_to index new)
unfolding yield_to
yield_to_keeps index new c s e =
    let me = s.running_thread in
    let taken = record s { ready_queue = remove_from_queue index s.ready_queue } in
    keeps_then c (thread_at me taken) _ (thread_at_keeps me c taken e) (λ c t r e.
      let moved = record (requeue me t.sleeping r) { running_thread = new } in
      let ok = not (interrupts_enabled moved) in
      let saves : Thread → Thread = λ u. record u { context = saved } in
      keeps_then c (assert_that ok moved) _
        (assert_keeps ok c moved (requeue_keeps me t.sleeping r ∙ e))
        (λ c _ r e.
          keeps_then c (modify_thread me saves r) _ (modify_thread_keeps me saves c r e) (λ c _ r e.
            keeps_then c (thread_at new r) _ (thread_at_keeps new c r e) (λ c target r e.
              keeps_then c (assert_that (not target.sleeping) r) _
                (assert_keeps (not target.sleeping) c r e)
                (λ c _ r e u.
                  keeps_then u (thread_routine_cleanup u) _ (thread_routine_cleanup_keeps u u refl)
                    (λ c _ r e. e))))))

yield_chosen_keeps : (y : YieldTo) → KeepsLocks (yield_chosen y)
unfolding yield_chosen
yield_chosen_keeps (answer r) c s e = e
yield_chosen_keeps (take index new) c s e = yield_to_keeps index new c s e

thread_yield_keeps : (want : Tid) → KeepsLocks (thread_yield want)
unfolding thread_yield
thread_yield_keeps want =
    uninterrupted_keeps _ (λ c s e. yield_chosen_keeps (yield_target want s) c s e)

put_to_sleep_keeps : (q i : ℕ) → KeepsLocks (put_to_sleep q i)
unfolding put_to_sleep
put_to_sleep_keeps q i = uninterrupted_keeps _ (λ c s e.
    let dozes : Thread → Thread = λ t. record t { sleeping = true } in
    keeps_then c (modify_thread s.running_thread dozes s) _
      (modify_thread_keeps s.running_thread dozes c s e)
      (λ c _ r e. keeps_then c (wait_queue_at q r) _ (wait_queue_at_keeps q c r e) (λ c w r e. e)))

sleep_on_keeps : (q : ℕ) → KeepsLocks (sleep_on q)
unfolding sleep_on
sleep_on_keeps q c s e =
    keeps_then c (put_to_sleep q s.running_thread s) _ (put_to_sleep_keeps q s.running_thread c s e)
      (λ c _ r e. thread_yield_keeps thread_any c r e)

sleep_if_keeps :
    (q : ℕ) (b : Bool) → KeepsLocks (λ s. if b then sleep_on q s else returns thread_none s)
sleep_if_keeps q true c s e = sleep_on_keeps q c s e
sleep_if_keeps q false c s e = e

-- `thread_sleep` changes no lock between the time when its caller last got the processor and its return.
pub thread_sleep-KeepsLocks : (q : Option ℕ) → KeepsLocks (thread_sleep q)
unfolding thread_sleep sleep_checked
thread_sleep-KeepsLocks none = uninterrupted_keeps _ (λ c s e. e)
thread_sleep-KeepsLocks (some q) =
    uninterrupted_keeps _ (λ c s e. sleep_if_keeps q (is_some (first_slot s.ready_queue)) c s e)
