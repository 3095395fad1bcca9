-- ===== src/Preempt/Locks.antt =====
-- Locks: ownership, blocking, and handing over.
use os_library.Base.{
  ℕ, zero, suc, ◌≡◌, refl, sym, ap, update, ◌∙◌, none, some, true, false, List, ◌∷◌, arith, length,
  Option-cases, Bool-cases, inl, inr,
}
use os_library.Preempt.State.{Lock, State, returns, spins, fault, uninterrupted, and_then}
use os_library.Preempt.Slots.{first_slot}
use os_library.Preempt.Switch.{thread_sleep}
use os_library.Preempt.Sync.{lock_at, put_lock, take_lock, acquire_loop, lock_acquire}
use os_library.Base.Switching.{departs}
use os_library.Preempt.Resumed.{Traced, Traced-and_then, SameLocks, thread_sleep-KeepsLocks}
use os_library.Preempt.Scheduling.{IsRunnable, switched, departs-and_then}
use os_library.Preempt.Sleeping.{asleep, thread_sleep-departs, thread_sleep-returns}
use os_library.Preempt.Wakeups.{queue_of}

-- The lock was free in `c`, and has gone from there to the thread that runs in `t`; no other lock has changed.
abbrev pub Takes : ℕ → State → Unit {0} → State → Type 0
Takes l c a t =
    (k : Lock) × (c.locks l ≡ some k)
    × (k.free ≡ true)
    × (t.locks
        ≡ update c.locks l (some (record k { held_by = some t.running_thread; free = false })))

take_lock-Takes :
    (l : ℕ) (k : Lock) (c s : State)
    → s.locks ≡ c.locks
    → s.locks l ≡ some k
    → k.free ≡ true
    → Traced (Takes l) c (take_lock l k s)
unfolding take_lock
take_lock-Takes l k c s same e f =
    let taken = some (record k { held_by = some s.running_thread; free = false }) in
    (k, ap (λ g. g l) (sym same) ∙ e, f, ap (λ g. update g l taken) same)

-- What a round of the loop does with a freed, a free and a taken lock.
acquire_loop-none : (fuel l : ℕ) (s : State) → s.locks l ≡ none → acquire_loop fuel l s ≡ fault
unfolding acquire_loop lock_at
acquire_loop-none zero l s e = ground arith
acquire_loop-none (suc fuel) l s e = ground arith

lock_at-some : (l : ℕ) (k : Lock) (s : State) → s.locks l ≡ some k → lock_at l s ≡ returns k s
unfolding lock_at
lock_at-some l k s e = ground arith

acquire_loop-free :
    (fuel l : ℕ) (k : Lock) (s : State)
    → s.locks l ≡ some k
    → k.free ≡ true
    → acquire_loop fuel l s ≡ take_lock l k s
unfolding acquire_loop
acquire_loop-free zero l k s e f = ground (arith, lock_at-some l k s e)
acquire_loop-free (suc fuel) l k s e f = simp (lock_at-some l k s e, f)

acquire_loop-out :
    (l : ℕ) (k : Lock) (s : State)
    → s.locks l ≡ some k
    → k.free ≡ false
    → acquire_loop 0 l s ≡ spins s
unfolding acquire_loop lock_at
acquire_loop-out l k s e f = ground arith

acquire_loop-busy :
    (fuel l : ℕ) (k : Lock) (s : State)
    → s.locks l ≡ some k
    → k.free ≡ false
    → acquire_loop (suc fuel) l s ≡ and_then (thread_sleep (some k.wq) s) (λ _. acquire_loop fuel l)
unfolding acquire_loop
acquire_loop-busy fuel l k s e f = rw (lock_at-some l k s e, f)

acquire_cases :
    (fuel l : ℕ) (c s : State)
    → s.locks ≡ c.locks
    → ((k : Lock)
        → s.locks l ≡ some k
        → k.free ≡ false
        → Traced (Takes l) c (acquire_loop fuel l s))
    → Traced (Takes l) c (acquire_loop fuel l s)
acquire_cases fuel l c s same busy = elim (Option-cases (s.locks l)) [
  | inl e ↦ rw (acquire_loop-none fuel l s e) tt
  | inr (k, e) ↦ elim (Bool-cases k.free) [
    | inl f ↦ rw (acquire_loop-free fuel l k s e f) (take_lock-Takes l k c s same e f)
    | inr f ↦ busy k e f
  ]
]

acquire_loop-Takes :
    (fuel l : ℕ) (c s : State) → s.locks ≡ c.locks → Traced (Takes l) c (acquire_loop fuel l s)
acquire_loop-Takes zero l c s same =
    acquire_cases zero l c s same λ k e f. rw (acquire_loop-out l k s e f) tt
acquire_loop-Takes (suc fuel) l c s same = acquire_cases (suc fuel) l c s same λ k e f.
    rw (acquire_loop-busy fuel l k s e f) (
      Traced-and_then SameLocks (Takes l) c (thread_sleep (some k.wq) s) _
        (thread_sleep-KeepsLocks (some k.wq) c s same)
        (λ d _ t kept. acquire_loop-Takes fuel l d t kept))

-- Whenever `lock_acquire` returns, however often its caller slept and whatever the other threads
-- did meanwhile, the lock was free when the caller last got the processor, and has gone from there
-- to the thread that runs, with its wait queue as it was and no other lock changed since.
pub lock_acquire-Takes : (fuel l : ℕ) (s : State) → Traced (Takes l) s (lock_acquire fuel l s)
unfolding lock_acquire uninterrupted
lock_acquire-Takes fuel l s =
    let off = record s { interrupts = false } in
    Traced-and_then (Takes l) (Takes l) s (acquire_loop fuel l off) _
      (acquire_loop-Takes fuel l s off refl) (λ d _ t h. h)

-- A free lock is taken at once, by the caller, and nothing else changes.
pub lock_acquire-free :
    (fuel l : ℕ) (k : Lock) (s : State)
    → s.locks l ≡ some k
    → k.free ≡ true
    → lock_acquire fuel l s
      ≡ returns tt
          (put_lock l (some (record k { held_by = some s.running_thread; free = false })) s)
unfolding lock_acquire uninterrupted take_lock
lock_acquire-free fuel l k s e f =
    rw (acquire_loop-free fuel l k (record s { interrupts = false }) e f)

-- A caller of `lock_acquire` that finds the lock taken, in a runnable state with `x ∷ rest` ready and
-- the threads `ws` in the lock's wait queue, leaves the processor to `x` before it can return: it is then
-- marked as asleep at the end of that queue, is not in the ready queue, and the lock keeps its owner.
pub lock_acquire-blocks :
    (fuel l x pad : ℕ) (ws rest : List ℕ) (k : Lock) (s : State)
    → IsRunnable s (x ∷ rest) pad
    → s.locks l ≡ some k
    → k.free ≡ false
    → s.wait_queues k.wq ≡ some (queue_of ws (length ws))
    → departs (lock_acquire (suc fuel) l s) ≡ some (switched x rest (suc pad) (asleep k.wq ws s))
unfolding lock_acquire uninterrupted
lock_acquire-blocks fuel l x pad ws rest k s v e f w =
    let off : State = record s { interrupts = false } in
    departs-and_then (acquire_loop (suc fuel) l off) _ _ (
      rw (acquire_loop-busy fuel l k off e f) (
        departs-and_then (thread_sleep (some k.wq) off) _ _ (
          thread_sleep-departs k.wq x pad ws rest off
            (record {
              laid_out = v.laid_out;
              runs = v.runs;
              queued = v.queued;
              apart = v.apart;
              distinct = v.distinct;
            })
            w)))

-- With no other thread ready, waiting for a taken lock never ends, whatever the rounds allowed.
pub lock_acquire-spins :
    (fuel l : ℕ) (k : Lock) (s : State)
    → first_slot s.ready_queue ≡ none
    → s.locks l ≡ some k
    → k.free ≡ false
    → lock_acquire fuel l s ≡ spins (record s { interrupts = false })
unfolding lock_acquire uninterrupted
lock_acquire-spins fuel l k s idle e f = rw (stuck fuel)
  where
    off : State
    off = record s { interrupts = false }

    stuck : (n : ℕ) → acquire_loop n l off ≡ spins off
    stuck zero = acquire_loop-out l k off e f
    stuck (suc n) =
        acquire_loop-busy n l k off e f ∙ rw ((thread_sleep-returns k.wq off).1 idle) (stuck n)
