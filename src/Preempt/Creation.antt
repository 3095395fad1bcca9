-- ===== src/Preempt/Creation.antt =====
-- `thread_init` and `thread_create`.
use os_library.Base.{
  ℕ, zero, suc, ◌<◌, ◌≡◌, refl, ap, Option, none, some, true, false, List, [], ◌∷◌, ◌++◌, arith,
  update, ◌≢◌, All, length,
}
use os_library.Base.Int.{pos, succ_ℤ, eq_ℤ}
use os_library.Preempt.Slots.{remove_from_available}
use os_library.Preempt.Slots.Fifo.{
  layout, length-layout, has, shift_left-layout, add_to_queue_tail-layout,
}
use os_library.Base.Members.{Below, has-snoc, Distinct-snoc, All-snoc, length-lt}
use os_library.Preempt.State.{
  thread_max_threads, thread_nomore, not_exited, start, Thread, State, returns, uninterrupted,
}
use os_library.Preempt.Threads.{thread_init, thread_create, create_as, ids_from, with_marker}
use os_library.Preempt.Scheduling.{IsRunnable, CanRun}

-- The record of a thread created by `parent` with the stack at `a`.
abbrev pub new_thread : ℕ → ℕ → ℕ → ℕ → Thread
new_thread fn parg a parent = record {
  context = start fn parg;
  stack_addr = some a;
  killed = false;
  sleeping = false;
  wq = none;
  waiting_on = none;
  exit = not_exited;
  parent = parent;
  stack_freed = false;
}

-- The state after `tid` was created, with `avail` still available and `ready` ready.
abbrev pub created : ℕ → ℕ → ℕ → List ℕ → ℕ → List ℕ → ℕ → State → State
created fn parg tid avail apad ready pad s = record s {
  num_threads_created = succ_ℤ s.num_threads_created;
  available_threads = layout avail (suc apad);
  stacks = update s.stacks s.next_addr true;
  next_addr = suc s.next_addr;
  created_threads =
      update s.created_threads tid (some (new_thread fn parg s.next_addr s.running_thread));
  ready_queue = layout (ready ++ tid ∷ []) pad;
}

-- `thread_create` below the limit takes the first available id, and puts the new thread, with a
-- fresh stack, at the end of the ready queue.
pub thread_create_lem :
    (fn parg tid apad pad : ℕ) (avail ready : List ℕ) (s : State)
    → eq_ℤ s.num_threads_created (pos thread_max_threads) ≡ false
    → s.available_threads ≡ layout (tid ∷ avail) apad
    → s.ready_queue ≡ layout ready (suc pad)
    → thread_create fn parg s ≡ returns (pos tid) (created fn parg tid avail apad ready pad s)
unfolding thread_create create_as uninterrupted remove_from_available
thread_create_lem fn parg tid apad pad avail ready s room av rq =
    ground (arith, shift_left-layout tid avail apad, add_to_queue_tail-layout ready pad tid)

-- At the limit it answers THREAD_NOMORE and changes nothing.
pub thread_create-nomore :
    (fn parg : ℕ) (s : State)
    → eq_ℤ s.num_threads_created (pos thread_max_threads) ≡ true
    → thread_create fn parg s ≡ returns thread_nomore s
unfolding thread_create uninterrupted
thread_create-nomore fn parg s full = ground arith

Below-of_queued : (s : State) (ts : List ℕ) → All (CanRun s) ts → Below thread_max_threads ts
Below-of_queued s [] h = tt
Below-of_queued s (t ∷ ts) h = (h.0.0, Below-of_queued s ts h.1)

-- The ready queue always has an empty slot: the running thread is not in it.
pub ready_has_room :
    (s : State) (ready : List ℕ) (pad : ℕ)
    → IsRunnable s ready pad
    → length s.ready_queue ≡ thread_max_threads
    → 0 < pad
ready_has_room s ready pad v n =
    let short =
      length-lt thread_max_threads s.running_thread ready (Below-of_queued s ready v.queued)
        v.distinct v.runs.0 v.apart in
    omega (arith, ap length v.laid_out, length-layout ready pad)

CanRun-created :
    (fn parg tid apad pad t : ℕ) (avail ready : List ℕ) (s : State)
    → CanRun s t
    → CanRun (created fn parg tid avail apad ready pad s) t
CanRun-created fn parg tid apad pad t avail ready s h = ground arith

All-created :
    (fn parg tid apad pad : ℕ) (avail ready ts : List ℕ) (s : State)
    → All (CanRun s) ts
    → All (CanRun (created fn parg tid avail apad ready pad s)) ts
All-created fn parg tid apad pad avail ready [] s h = tt
All-created fn parg tid apad pad avail ready (t ∷ ts) s h = (
  CanRun-created fn parg tid apad pad t avail ready s h.0,
  All-created fn parg tid apad pad avail ready ts s h.1,
)

-- A thread with a fresh id leaves the state runnable.
pub created-IsRunnable :
    (fn parg tid apad pad : ℕ) (avail ready : List ℕ) (s : State)
    → IsRunnable s ready (suc pad)
    → tid < thread_max_threads
    → has ready tid ≡ false
    → tid ≢ s.running_thread
    → IsRunnable (created fn parg tid avail apad ready pad s) (ready ++ tid ∷ []) pad
created-IsRunnable fn parg tid apad pad avail ready s v lt new ne =
    let t = created fn parg tid avail apad ready pad s in
    record {
      laid_out = refl;
      runs = CanRun-created fn parg tid apad pad s.running_thread avail ready s v.runs;
      queued =
          All-snoc (CanRun t) ready tid
            (All-created fn parg tid apad pad avail ready ready s v.queued) (lt, ground arith);
      apart = ground (arith, has-snoc ready tid s.running_thread, v.apart);
      distinct = Distinct-snoc ready tid v.distinct new;
    }

-- The free slots come to 1023 ids and the marker.
abbrev ids : ℕ → ℕ → List ℕ
ids zero i = []
ids (suc n) i = i ∷ ids n (suc i)

with_marker-layout : (n i : ℕ) → with_marker (ids_from n i) ≡ layout (ids n i) 1
with_marker-layout zero i = refl
with_marker-layout (suc n) i = ap (λ r. some i ∷ r) (with_marker-layout n (suc i))

-- `thread_init` leaves one running thread, no ready one, and the ids 1 to 1023 available.
pub thread_init-IsRunnable :
    (garbage : Option ℕ) (s : State)
    → IsRunnable (thread_init garbage s) [] thread_max_threads
      × ((thread_init garbage s).available_threads ≡ layout (ids 1023 1) 1)
      × (length (thread_init garbage s).ready_queue ≡ thread_max_threads)
unfolding thread_init
thread_init-IsRunnable garbage s = (
  record { laid_out = refl; runs = (omega arith, refl); queued = tt; apart = refl; distinct = tt },
  with_marker-layout 1023 1,
  refl,
)

-- In a runnable state below the limit, with `tid` the first available id, unused and in range,
-- `thread_create` answers `tid` and leaves a runnable state with the new thread at the end of
-- the ready queue and `tid` no longer available.
pub thread_create-IsRunnable :
    (fn parg tid apad pad : ℕ) (avail ready : List ℕ) (s : State)
    → IsRunnable s ready (suc pad)
    → eq_ℤ s.num_threads_created (pos thread_max_threads) ≡ false
    → s.available_threads ≡ layout (tid ∷ avail) apad
    → tid < thread_max_threads
    → has ready tid ≡ false
    → tid ≢ s.running_thread
    → (t : State) × (thread_create fn parg s ≡ returns (pos tid) t)
      × IsRunnable t (ready ++ tid ∷ []) pad
      × (t.available_threads ≡ layout avail (suc apad))
      × (t.created_threads tid ≡ some (new_thread fn parg s.next_addr s.running_thread))
thread_create-IsRunnable fn parg tid apad pad avail ready s v room av lt new ne = (
  created fn parg tid avail apad ready pad s,
  thread_create_lem fn parg tid apad pad avail ready s room av v.laid_out,
  created-IsRunnable fn parg tid apad pad avail ready s v lt new ne,
  refl,
  ground arith,
)
