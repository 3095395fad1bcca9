-- ===== src/Preempt/Scheduling.antt =====
-- `thread_yield` moves the processor on: who runs next, and that no thread is lost.
use os_library.Base.{
  ℕ, zero, suc, ◌<◌, ◌≡◌, refl, Option, none, some, Bool, true, false, not, List, [], ◌∷◌, ◌++◌,
  arith, update, ◌≢◌, All,
}
use os_library.Base.Int.{pos, negsuc}
use os_library.Preempt.Slots.{remove_from_queue, first_slot}
use os_library.Preempt.Slots.Fifo.{
  layout, has, without, add_to_queue_tail-layout, shift_left-layout, find-remove, find-missing,
}
use os_library.Base.Members.{
  Distinct, has-snoc, Distinct-snoc, All-snoc, has-without, without-absent, Distinct-without,
  All-without, All-has,
}
use os_library.Preempt.State.{
  thread_max_threads, Tid, thread_any, thread_self, thread_none, thread_invalid, Thread, saved,
  State, M, Outcome, Switching, returns, switches, uninterrupted, interrupts_enabled, thread_at,
  modify_thread, and_then,
}
use os_library.Preempt.Switch.{take, thread_yield, yield_target, yield_chosen, yield_to, requeue}
use os_library.Base.Switching.{departs}

-- A thread that may be switched to.
abbrev pub can_run : Option Thread → Bool
can_run none = false
can_run (some t) = not t.sleeping

abbrev pub CanRun : State → ℕ → Type 0
CanRun s t = (t < thread_max_threads) × (can_run (s.created_threads t) ≡ true)

-- The state between two calls: the ready queue holds `ready` and `pad` empty slots, and all its
-- threads, and the running one, exist and are not asleep.
pub record IsRunnable (s : State) (ready : List ℕ) (pad : ℕ) : Type 0 where
  pub laid_out : s.ready_queue ≡ layout ready pad
  pub runs : CanRun s s.running_thread
  pub queued : All (CanRun s) ready
  pub apart : has ready s.running_thread ≡ false
  pub distinct : Distinct ready

abbrev pub saved? : Option Thread → Option Thread
saved? none = none
saved? (some t) = some (record t { context = saved })

-- The processor has gone from the running thread to `new`, the ready queue is now `ready`.
abbrev pub switched : ℕ → List ℕ → ℕ → State → State
switched new ready pad s = record s {
  interrupts = false;
  running_thread = new;
  ready_queue = layout ready pad;
  created_threads =
      update s.created_threads s.running_thread (saved? (s.created_threads s.running_thread));
}

pub first_slot-empty : (pad : ℕ) → first_slot (layout [] pad) ≡ none
first_slot-empty zero = refl
first_slot-empty (suc pad) = refl

-- The switch, once `index` is known to be that of `new`, with `rest` the other ready threads.
yield_to-departs :
    (index new pad : ℕ) (rest : List ℕ) (s : State)
    → s.interrupts ≡ false
    → remove_from_queue index s.ready_queue ≡ layout rest (suc pad)
    → CanRun s s.running_thread
    → CanRun s new
    → departs (yield_to index new s) ≡ some (switched new (rest ++ s.running_thread ∷ []) pad s)
unfolding yield_to thread_at modify_thread requeue interrupts_enabled
yield_to-departs index new pad rest s off gone run new_ok =
    ground (arith, add_to_queue_tail-layout rest pad s.running_thread)

pub departs-and_then :
    {A B : Type 0} (o : Outcome A) (f : A → M B) (t : State)
    → departs o ≡ some t
    → departs (and_then o f) ≡ some t
departs-and_then (returns a s) f t e = cc
departs-and_then (switches s k) f t e = e
departs-and_then (Switching.gone s) f t e = e
departs-and_then (Switching.exits s) f t e = cc
departs-and_then Switching.fault f t e = cc
departs-and_then (Switching.spins s) f t e = cc

-- A call whose checks chose a thread departs as `yield_to` does.
pub yield-departs :
    (want : Tid) (s t : State) (index new : ℕ)
    → yield_target want (record s { interrupts = false }) ≡ take index new
    → departs (yield_to index new (record s { interrupts = false })) ≡ some t
    → departs (thread_yield want s) ≡ some t
unfolding thread_yield uninterrupted yield_chosen
yield-departs want s t index new e d =
    departs-and_then
      (yield_chosen (yield_target want (record s { interrupts = false }))
        (record s { interrupts = false }))
      _ t (rw e d)

-- `thread_yield(THREAD_ANY)` runs the head of the ready queue and puts the caller at its end.
pub thread_yield-any :
    (s : State) (x pad : ℕ) (rest : List ℕ)
    → IsRunnable s (x ∷ rest) pad
    → departs (thread_yield thread_any s) ≡ some (switched x (rest ++ s.running_thread ∷ []) pad s)
unfolding yield_target remove_from_queue
thread_yield-any s x pad rest v = yield-departs thread_any s _ 0 x (ground (arith, v.laid_out)) (
    yield_to-departs 0 x pad rest (record s { interrupts = false }) refl
      (rw v.laid_out (shift_left-layout x rest pad)) v.runs v.queued.0)

-- `thread_yield` to a thread in the ready queue runs that thread; the others keep their order.
pub thread_yield-ready :
    (s : State) (n pad : ℕ) (ready : List ℕ)
    → IsRunnable s ready pad
    → has ready n ≡ true
    → departs (thread_yield (pos n) s)
      ≡ some (switched n (without ready n ++ s.running_thread ∷ []) pad s)
unfolding yield_target
thread_yield-ready s n pad ready v h =
    let (i, found, gone) = find-remove ready pad n h in
    yield-departs (pos n) s _ i n (ground (arith, v.laid_out, v.apart)) (
      yield_to-departs i n pad (without ready n) (record s { interrupts = false }) refl
        (rw v.laid_out gone) v.runs (All-has (CanRun s) ready n v.queued h))

-- Every other call of `thread_yield` returns at once and changes nothing: to itself, with no
-- other thread ready, to an id that is not ready, and with a negative id that is no code.
pub thread_yield-returns :
    (s : State) (ready : List ℕ) (pad n k : ℕ)
    → IsRunnable s ready pad
    → (thread_yield thread_self s ≡ returns (pos s.running_thread) s)
      × (thread_yield (pos s.running_thread) s ≡ returns (pos s.running_thread) s)
      × (ready ≡ [] → thread_yield thread_any s ≡ returns thread_none s)
      × (has ready n ≡ false
          → n ≢ s.running_thread
          → thread_yield (pos n) s ≡ returns thread_invalid s)
      × (thread_yield (negsuc (suc (suc k))) s ≡ returns thread_invalid s)
unfolding thread_yield uninterrupted yield_target yield_chosen
thread_yield-returns s ready pad n k v = (
  refl,
  ground arith,
  λ e. ground (arith, v.laid_out, first_slot-empty pad),
  λ h d. ground (arith, v.laid_out, find-missing ready pad n h),
  refl,
)

can_run-saved : (t : Option Thread) → can_run (saved? t) ≡ can_run t
can_run-saved none = refl
can_run-saved (some t) = refl

CanRun-switched :
    (s : State) (new pad t : ℕ) (q : List ℕ) → CanRun s t → CanRun (switched new q pad s) t
CanRun-switched s new pad t q h = ground (arith, can_run-saved (s.created_threads s.running_thread))

All-switched :
    (s : State) (new pad : ℕ) (q ts : List ℕ)
    → All (CanRun s) ts
    → All (CanRun (switched new q pad s)) ts
All-switched s new pad q [] h = tt
All-switched s new pad q (t ∷ ts) h =
    (CanRun-switched s new pad t q h.0, All-switched s new pad q ts h.1)

-- A switch to a ready thread keeps the state runnable: no thread is lost or runs twice.
pub switched-IsRunnable :
    (s : State) (ready : List ℕ) (n pad : ℕ)
    → IsRunnable s ready pad
    → has ready n ≡ true
    → IsRunnable
        (switched n (without ready n ++ s.running_thread ∷ []) pad s)
        (without ready n ++ s.running_thread ∷ [])
        pad
switched-IsRunnable s ready n pad v h =
    let others = without ready n in
    let q = others ++ s.running_thread ∷ [] in
    let out : has others s.running_thread ≡ false = has-without ready n s.running_thread v.apart in
    record {
      laid_out = refl;
      runs = CanRun-switched s n pad n q (All-has (CanRun s) ready n v.queued h);
      queued = All-switched s n pad q q (
          All-snoc (CanRun s) others s.running_thread (All-without (CanRun s) ready n v.queued)
            v.runs);
      apart = ground (
        arith,
        has-snoc others s.running_thread n,
        without-absent ready n v.distinct,
        v.apart,
        h,
      );
      distinct = Distinct-snoc others s.running_thread (Distinct-without ready n v.distinct) out;
    }

-- A `thread_yield` to a ready thread leaves a runnable state: that thread runs, the caller stands
-- behind the other ready threads, and no thread is lost or stands twice.
pub thread_yield-IsRunnable :
    (s : State) (n pad : ℕ) (ready : List ℕ)
    → IsRunnable s ready pad
    → has ready n ≡ true
    → (t : State) × (departs (thread_yield (pos n) s) ≡ some t)
      × (t.running_thread ≡ n)
      × IsRunnable t (without ready n ++ s.running_thread ∷ []) pad
thread_yield-IsRunnable s n pad ready v h = (
  switched n (without ready n ++ s.running_thread ∷ []) pad s,
  thread_yield-ready s n pad ready v h,
  refl,
  switched-IsRunnable s ready n pad v h,
)
