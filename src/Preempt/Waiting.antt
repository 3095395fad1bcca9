-- ===== src/Preempt/Waiting.antt =====
-- `thread_wait`: how a thread that waits falls asleep, and what it does when it goes on.
use os_library.Base.{
  ℕ, suc, Bool, length, is_some, ◌<◌, ◌≡◌, refl, sym, subst, ap, ◌∙◌, Option, none, some, true,
  false, List, [], ◌∷◌, arith, ◌≢◌, update,
}
use os_library.Base.Int.{ℤ, pos}
use os_library.Base.Switching.{resumes}
use os_library.Preempt.Slots.{remove_from_queue, first_slot}
use os_library.Preempt.Slots.Fifo.{layout, shift_left-layout}
use os_library.Preempt.State.{
  Tid, thread_max_threads, thread_any, thread_none, not_exited, saved, Thread, State, Outcome, M,
  returns, switches, fault, and_then, uninterrupted, interrupts_off, interrupts_enabled, thread_at,
  modify_thread,
}
use os_library.Preempt.WaitQueues.{put_to_sleep, wait_queue_create}
use os_library.Preempt.Threads.{thread_routine_cleanup, free_zombie_stack}
use os_library.Preempt.Switch.{
  YieldTo, take, thread_yield, yield_target, yield_chosen, yield_to, requeue, sleep_on,
  sleep_checked, thread_sleep, may_wait_for, wait_queue_of, await_exit, reap, thread_wait,
}
use os_library.Preempt.Wakeups.{queue_of}
use os_library.Preempt.Sleeping.{asleep, put_to_sleep_lem}
use os_library.Preempt.Kills.{reap-unexited}

-- The running thread goes on in `t` after a switch: it is alive, and nothing is left of an exited thread.
pub record GoesOn (t : State) : Type 0 where
  pub me : Thread
  pub in_range : t.running_thread < thread_max_threads
  pub is_me : t.created_threads t.running_thread ≡ some me
  pub alive : me.killed ≡ false
  pub no_zombie : t.zombie_tid ≡ none

yield_to-resumes :
    (x pad : ℕ) (rest : List ℕ) (m u : Thread) (s t : State)
    → s.interrupts ≡ false
    → s.ready_queue ≡ layout (x ∷ rest) pad
    → s.running_thread < thread_max_threads
    → s.created_threads s.running_thread ≡ some m
    → m.sleeping ≡ true
    → x < thread_max_threads
    → x ≢ s.running_thread
    → s.created_threads x ≡ some u
    → u.sleeping ≡ false
    → GoesOn t
    → yield_to 0 x s
      ≡ switches
          (record s {
            running_thread = x;
            ready_queue = layout rest (suc pad);
            created_threads =
                update s.created_threads s.running_thread (some (record m { context = saved }));
          })
          (λ t. and_then (thread_routine_cleanup t) (λ _. returns (pos x)))
unfolding yield_to thread_at modify_thread requeue interrupts_enabled remove_from_queue
yield_to-resumes x pad rest m u s t off q lt c sl xlt ne xc awake h =
    ground (arith, shift_left-layout x rest pad)

cleanup_clean :
    (t : State) → GoesOn t → thread_routine_cleanup t ≡ returns tt (record t { interrupts = false })
unfolding thread_routine_cleanup free_zombie_stack thread_at interrupts_off
cleanup_clean t h = ground (arith, h.in_range, h.is_me, h.alive, h.no_zombie)

-- The call gives up the processor, and when its caller goes on in `t` it returns `a`, with only the interrupts changed.
record Sleeps {A : Type 0} (o : Outcome A) (t : State) (a : A) (b : Bool) : Type 0 where
  leaves : State
  rest : State → Outcome A
  is_switch : o ≡ switches leaves rest
  back : rest t ≡ returns a (record t { interrupts = b })

then-Sleeps :
    {A B : Type 0} (o : Outcome A) (f : A → M B) (t : State) (a : A) (a' : B) (b b' : Bool)
    → Sleeps o t a b
    → f a (record t { interrupts = b }) ≡ returns a' (record t { interrupts = b' })
    → Sleeps (and_then o f) t a' b'
then-Sleeps o f t a a' b b' h e = record {
  leaves = h.leaves;
  rest = λ u. and_then (h.rest u) f;
  is_switch = ap (λ p. and_then p f) h.is_switch;
  back = ap (λ p. and_then p f) h.back ∙ e;
}

-- The running thread, of record `me`, with another thread `x` at the head of the ready queue.
pub record Hands (s : State) (x pad : ℕ) (rest : List ℕ) : Type 0 where
  pub me : Thread
  pub next : Thread
  pub ready : s.ready_queue ≡ layout (x ∷ rest) pad
  pub in_range : s.running_thread < thread_max_threads
  pub is_me : s.created_threads s.running_thread ≡ some me
  pub next_in_range : x < thread_max_threads
  pub other : x ≢ s.running_thread
  pub is_next : s.created_threads x ≡ some next
  pub awake : next.sleeping ≡ false

yield-Sleeps :
    (x pad : ℕ) (rest : List ℕ) (s t : State) (h : Hands s x pad rest)
    → h.me.sleeping ≡ true
    → GoesOn t
    → Sleeps (thread_yield thread_any s) t (pos x) s.interrupts
unfolding thread_yield uninterrupted yield_target yield_chosen
yield-Sleeps x pad rest s t h sl g =
    let off = record s { interrupts = false } in
    let run =
      yield_to-resumes x pad rest h.me h.next off t refl h.ready h.in_range h.is_me sl
        h.next_in_range h.other h.is_next h.awake g in
    let chosen : yield_chosen (yield_target thread_any off) off ≡ yield_to 0 x off =
      ap
        (λ q.
          yield_chosen
            (elim (first_slot q) [ none ↦ YieldTo.answer thread_none | some n ↦ take 0 n ]) off)
        h.ready in
    then-Sleeps (yield_chosen (yield_target thread_any off) off) _ t (pos x) (pos x) false
      s.interrupts
      (record {
        leaves = _;
        rest = _;
        is_switch = chosen ∙ run;
        back = ap (λ p. and_then p (λ _. returns (pos x))) (cleanup_clean t g);
      })
      refl

sleep-Sleeps :
    (q x pad : ℕ) (ws rest : List ℕ) (s t : State)
    → Hands s x pad rest
    → s.wait_queues q ≡ some (queue_of ws (length ws))
    → GoesOn t
    → Sleeps (thread_sleep (some q) s) t (pos x) s.interrupts
unfolding thread_sleep uninterrupted sleep_checked sleep_on
sleep-Sleeps q x pad ws rest s t h w g =
    let off = record s { interrupts = false } in
    let ready : is_some (first_slot s.ready_queue) ≡ true = ground (arith, h.ready) in
    let put : put_to_sleep q s.running_thread off ≡ returns tt (asleep q ws off) =
      put_to_sleep_lem q ws off w (ground (arith, h.in_range, h.is_me)) in
    let dozing : Hands (asleep q ws off) x pad rest = record {
      me = record h.me { sleeping = true };
      next = h.next;
      ready = h.ready;
      in_range = h.in_range;
      is_me = ground (arith, h.is_me);
      next_in_range = h.next_in_range;
      other = h.other;
      is_next = ground (arith, h.is_next, h.other);
      awake = h.awake;
    } in
    let inner : Sleeps (sleep_checked q off) t (pos x) false =
      simp (ready, put) (yield-Sleeps x pad rest (asleep q ws off) t dozing refl g) in
    then-Sleeps (sleep_checked q off) _ t (pos x) (pos x) false s.interrupts inner refl

-- The state in which the running thread, of record `me`, falls asleep in a fresh queue of the thread `tid`, of record `u`.
abbrev waiting : ℕ → Thread → Thread → State → State
waiting tid me u s = record s {
  next_addr = suc s.next_addr;
  wait_queues = update s.wait_queues s.next_addr (some (queue_of [] 0));
  created_threads =
      update
        (update (update s.created_threads s.running_thread (some (record me { sleeping = true })))
          tid (some (record u { wq = some s.next_addr })))
        s.running_thread (some (record me { sleeping = true; waiting_on = some tid }));
}

await_exit-waiting :
    (tid : ℕ) (me u : Thread) (s : State)
    → tid < thread_max_threads
    → tid ≢ s.running_thread
    → s.created_threads tid ≡ some u
    → u.exit ≡ not_exited
    → u.wq ≡ none
    → s.running_thread < thread_max_threads
    → s.created_threads s.running_thread ≡ some me
    → await_exit tid s
      ≡ and_then (thread_sleep (some s.next_addr) (waiting tid me u s)) (λ _. returns tt)
unfolding await_exit wait_queue_of wait_queue_create uninterrupted thread_at modify_thread
await_exit-waiting tid me u s lt ne c e w rlt rc = ground arith

waiting-Sleeps :
    (tid x pad : ℕ) (rest : List ℕ) (u : Thread) (s t : State)
    → tid < thread_max_threads
    → tid ≢ s.running_thread
    → s.created_threads tid ≡ some u
    → u.exit ≡ not_exited
    → u.wq ≡ none
    → x ≢ tid
    → Hands s x pad rest
    → GoesOn t
    → Sleeps (await_exit tid s) t tt s.interrupts
waiting-Sleeps tid x pad rest u s t lt ne c e w other h g =
    let asks = waiting tid h.me u s in
    let hands : Hands asks x pad rest = record {
      me = record h.me { sleeping = true; waiting_on = some tid };
      next = h.next;
      ready = h.ready;
      in_range = h.in_range;
      is_me = ground arith;
      next_in_range = h.next_in_range;
      other = h.other;
      is_next = ground (arith, h.is_next, h.other);
      awake = h.awake;
    } in
    let queue : asks.wait_queues s.next_addr ≡ some (queue_of [] 0) = ground arith in
    subst (λ o. Sleeps o t tt s.interrupts)
      (sym (await_exit-waiting tid h.me u s lt ne c e w h.in_range h.is_me))
      (then-Sleeps (thread_sleep (some s.next_addr) asks) (λ _. returns tt) t (pos x) tt
        s.interrupts s.interrupts (sleep-Sleeps s.next_addr x pad [] rest asks t hands queue g)
        refl)

abbrev wait_body : ℕ → State → Outcome (Tid × Option ℤ)
wait_body tid s =
    and_then (await_exit tid s)
      (λ _ r. and_then (reap tid r) (λ code. returns (pos tid, some code)))

thread_wait-waiting :
    (tid : ℕ) (u : Thread) (s : State)
    → tid < thread_max_threads
    → tid ≢ s.running_thread
    → s.created_threads tid ≡ some u
    → u.wq ≡ none
    → u.killed ≡ false
    → thread_wait (pos tid) s
      ≡ and_then
          (wait_body tid (record s { interrupts = false }))
          (λ a r. returns a (record r { interrupts = s.interrupts }))
unfolding thread_wait uninterrupted may_wait_for
thread_wait-waiting tid u s lt ne c w k = ground arith

-- The thread that waits for `tid` aborts when it goes on while `tid` has not exited.
pub thread_wait-aborts :
    (tid x pad : ℕ) (rest : List ℕ) (u v : Thread) (s t : State)
    → tid < thread_max_threads
    → tid ≢ s.running_thread
    → s.created_threads tid ≡ some u
    → u.exit ≡ not_exited
    → u.wq ≡ none
    → u.killed ≡ false
    → x ≢ tid
    → Hands s x pad rest
    → GoesOn t
    → t.created_threads tid ≡ some v
    → v.exit ≡ not_exited
    → resumes (thread_wait (pos tid) s) t ≡ fault
thread_wait-aborts tid x pad rest u v s t lt ne c e w k other h g tc te =
    let off = record s { interrupts = false } in
    let hands : Hands off x pad rest = record {
      me = h.me;
      next = h.next;
      ready = h.ready;
      in_range = h.in_range;
      is_me = h.is_me;
      next_in_range = h.next_in_range;
      other = h.other;
      is_next = h.is_next;
      awake = h.awake;
    } in
    let sleeps = waiting-Sleeps tid x pad rest u off t lt ne c e w other hands g in
    let answers : ℤ → M (Tid × Option ℤ) = λ code. returns (pos tid, some code) in
    let restores : Tid × Option ℤ → M (Tid × Option ℤ) =
      λ a r. returns a (record r { interrupts = s.interrupts }) in
    let ends : Outcome (Unit {0}) → Outcome (Tid × Option ℤ) =
      λ o. and_then (and_then o (λ _ r. and_then (reap tid r) answers)) restores in
    ap (λ o. resumes o t) (thread_wait-waiting tid u s lt ne c w k)
    ∙ ap (λ o. resumes (ends o) t) sleeps.is_switch
    ∙ ap ends sleeps.back
    ∙ ap (λ o. and_then (and_then o answers) restores)
        (reap-unexited tid v (record t { interrupts = false }) lt tc te)
