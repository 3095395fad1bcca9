-- ===== src/Preempt/Sleeping.antt =====
-- `thread_sleep`: the caller leaves the ready threads for the end of a wait queue.
use os_library.Base.{
  ℕ, suc, ◌<◌, ◌≡◌, refl, Option, none, some, true, false, List, [], ◌∷◌, ◌++◌, arith, length,
  update, ◌≢◌, is_some,
}
use os_library.Preempt.Slots.{remove_from_queue, first_slot}
use os_library.Preempt.Slots.Fifo.{layout, shift_left-layout}
use os_library.Preempt.State.{
  thread_max_threads, thread_any, thread_none, thread_invalid, Thread, State, returns,
  uninterrupted, interrupts_enabled, thread_at, modify_thread, wait_queue_at,
}
use os_library.Preempt.WaitQueues.{put_to_sleep}
use os_library.Preempt.Switch.{
  thread_yield, yield_target, yield_to, requeue, sleep_on, sleep_checked, thread_sleep,
}
use os_library.Base.Switching.{departs}
use os_library.Preempt.Wakeups.{queue_of}
use os_library.Preempt.Scheduling.{IsRunnable, CanRun, switched, yield-departs, departs-and_then}

abbrev pub dozing? : Option Thread → Option Thread
dozing? none = none
dozing? (some t) = some (record t { sleeping = true })

-- The caller's record is marked, and the caller stands at the end of `q`, which held `ws`.
abbrev pub asleep : ℕ → List ℕ → State → State
asleep q ws s = record s {
  created_threads =
      update s.created_threads s.running_thread (dozing? (s.created_threads s.running_thread));
  wait_queues =
      update s.wait_queues q (some (queue_of (ws ++ s.running_thread ∷ []) (suc (length ws))));
}

pub put_to_sleep_lem :
    (q : ℕ) (ws : List ℕ) (s : State)
    → s.wait_queues q ≡ some (queue_of ws (length ws))
    → (s.running_thread < thread_max_threads)
      × (is_some (s.created_threads s.running_thread) ≡ true)
    → put_to_sleep q s.running_thread s ≡ returns tt (asleep q ws s)
unfolding put_to_sleep uninterrupted modify_thread thread_at wait_queue_at
put_to_sleep_lem q ws s e h = ground arith

-- The switch of a caller that has just been marked as asleep: it is not queued again.
yield_to-asleep :
    (q new pad : ℕ) (ws rest : List ℕ) (s : State)
    → s.interrupts ≡ false
    → remove_from_queue 0 s.ready_queue ≡ layout rest (suc pad)
    → CanRun s s.running_thread
    → CanRun s new
    → new ≢ s.running_thread
    → departs (yield_to 0 new (asleep q ws s)) ≡ some (switched new rest (suc pad) (asleep q ws s))
unfolding yield_to thread_at modify_thread requeue interrupts_enabled
yield_to-asleep q new pad ws rest s off gone run new_ok ne = ground arith

-- `thread_sleep` with `x ∷ rest` ready: `x` runs, the caller stands at the end of the wait queue,
-- is marked as asleep and in no ready slot, and all else is as before.
pub thread_sleep-departs :
    (q x pad : ℕ) (ws rest : List ℕ) (s : State)
    → IsRunnable s (x ∷ rest) pad
    → s.wait_queues q ≡ some (queue_of ws (length ws))
    → departs (thread_sleep (some q) s) ≡ some (switched x rest (suc pad) (asleep q ws s))
unfolding thread_sleep uninterrupted
thread_sleep-departs q x pad ws rest s v e =
    departs-and_then (sleep_checked q off) _ _
      (unfold sleep_checked in ground (arith, v.laid_out, inner))
  where
    off : State
    off = record s { interrupts = false }

    ne : x ≢ s.running_thread
    ne = ground (arith, v.apart)

    yields :
        departs (thread_yield thread_any (asleep q ws off))
        ≡ some (switched x rest (suc pad) (asleep q ws s))
    yields =
        yield-departs thread_any (asleep q ws off) _ 0 x
          (unfold yield_target in ground (arith, v.laid_out))
          (yield_to-asleep q x pad ws rest off refl
            (unfold remove_from_queue in rw v.laid_out (shift_left-layout x rest pad)) v.runs
            v.queued.0 ne)

    inner : departs (sleep_on q off) ≡ some (switched x rest (suc pad) (asleep q ws s))
    inner = unfold sleep_on in rw (put_to_sleep_lem q ws off e (ground (arith, v.runs))) yields

-- With no queue or no other ready thread the call is refused and changes nothing.
pub thread_sleep-returns :
    (q : ℕ) (s : State)
    → (thread_sleep none s ≡ returns thread_invalid s)
      × (first_slot s.ready_queue ≡ none → thread_sleep (some q) s ≡ returns thread_none s)
unfolding thread_sleep sleep_checked uninterrupted
thread_sleep-returns q s = (refl, λ h. ground arith)
