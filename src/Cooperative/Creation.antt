-- ===== src/Cooperative/Creation.antt =====
-- A1-Cooperative-Threads/thread.c: `thread_create`, with and without memory for the stack.
use os_library.Base.{
  ℕ, suc, ◌<◌, ◌≡◌, refl, ap, ◌∙◌, Option, none, some, true, false, List, [], ◌∷◌, ◌++◌, arith, All,
  Bool-cases, inl, inr, ◌==◌, update,
}
use os_library.Base.Int.{pos, eq_ℤ, succ_ℤ}
use os_library.Base.Switching.{Switching, returns}
use os_library.Preempt.Slots.{first_slot, remove_from_available, add_to_queue_tail}
use os_library.Preempt.Slots.Fifo.{layout, has, shift_left-layout, add_to_queue_tail-layout}
use os_library.Base.Members.{has-snoc, Distinct-snoc, All-snoc}
use os_library.Preempt.State.{Tid}
use os_library.Cooperative.State.{thread_nomemory, start, State}
use os_library.Cooperative.Threads.{create_as, thread_create}
use os_library.Cooperative.Scheduling.{IsRunnable, CanRun, is_alive}

-- One more thread is counted, and its id is no longer available.
abbrev counted : List ℕ → ℕ → State → State
counted free gaps s = record s {
  num_threads_created = succ_ℤ s.num_threads_created;
  available_threads = layout free (suc gaps);
}

abbrev created : ℕ → ℕ → ℕ → ℕ → List ℕ → ℕ → State → State
created tid lower_limit fn parg ready pad s = record s {
  stacks = update s.stacks lower_limit true;
  created_threads =
      update s.created_threads tid
        (some (record { context = start fn parg; stack_addr = some lower_limit; killed = false }));
  ready_queue = layout (ready ++ tid ∷ []) pad;
}

abbrev pub Creates :
    Option ℕ → ℕ → ℕ → ℕ → List ℕ → ℕ → List ℕ → ℕ → State → Switching State Tid → Type 0
Creates none tid fn parg free gaps ready pad s o = o ≡ returns thread_nomemory (counted free gaps s)
Creates (some lower_limit) tid fn parg free gaps ready pad s o =
    (o ≡ returns (pos tid) (created tid lower_limit fn parg ready pad (counted free gaps s)))
    × IsRunnable (created tid lower_limit fn parg ready pad (counted free gaps s))
        (ready ++ tid ∷ []) pad

remove_from_available-layout :
    (tid gaps : ℕ) (free : List ℕ)
    → remove_from_available (layout (tid ∷ free) gaps) ≡ layout free (suc gaps)
unfolding remove_from_available
remove_from_available-layout tid gaps free = shift_left-layout tid free gaps

thread_create_eq :
    (stack : Option ℕ) (fn parg tid gaps : ℕ) (free : List ℕ) (s : State)
    → eq_ℤ s.num_threads_created (pos 1024) ≡ false
    → s.available_threads ≡ layout (tid ∷ free) gaps
    → thread_create stack fn parg s
      ≡ create_as
          (some tid)
          stack
          fn
          parg
          (record s { num_threads_created = succ_ℤ s.num_threads_created })
unfolding thread_create
thread_create_eq stack fn parg tid gaps free s c a =
    let first : first_slot s.available_threads ≡ some tid = ap first_slot a in simp (c, first) refl

unused_other :
    (t : ℕ) (tid : ℕ) (s : State) → CanRun s t → s.created_threads tid ≡ none → (t == tid) ≡ false
unused_other t tid s h e = elim (Bool-cases (t == tid)) [
  | inl same ↦
      let here : t ≡ tid = ground (arith, same) in
      absurd (cc (h.1, ap is_alive e, ap (λ i. is_alive (s.created_threads i)) here))
  | inr other ↦ other
]

unused_has :
    (ts : List ℕ) (tid : ℕ) (s : State)
    → All (CanRun s) ts
    → s.created_threads tid ≡ none
    → has ts tid ≡ false
unused_has [] tid s h e = refl
unused_has (t ∷ ts) tid s h e =
    ground (arith, unused_other t tid s h.0 e, unused_has ts tid s h.1 e)

CanRun-created :
    (tid l fn parg pad t : ℕ) (ready : List ℕ) (s : State)
    → CanRun s t
    → CanRun (created tid l fn parg ready pad s) t
CanRun-created tid l fn parg pad t ready s h = ground arith

All-created :
    (tid l fn parg pad : ℕ) (ready ts : List ℕ) (s : State)
    → All (CanRun s) ts
    → All (CanRun (created tid l fn parg ready pad s)) ts
All-created tid l fn parg pad ready [] s h = tt
All-created tid l fn parg pad ready (t ∷ ts) s h =
    (CanRun-created tid l fn parg pad t ready s h.0, All-created tid l fn parg pad ready ts s h.1)

counted-IsRunnable :
    (s : State) (free : List ℕ) (gaps : ℕ) (ready : List ℕ) (pad : ℕ)
    → IsRunnable s ready pad
    → IsRunnable (counted free gaps s) ready pad
counted-IsRunnable s free gaps ready pad v = record {
  laid_out = v.laid_out;
  runs = v.runs;
  queued = still ready v.queued;
  apart = v.apart;
  distinct = v.distinct;
  no_stack = v.no_stack;
  no_exit = v.no_exit;
}
  where
    still : (ts : List ℕ) → All (CanRun s) ts → All (CanRun (counted free gaps s)) ts
    still [] h = tt
    still (t ∷ ts) h = (h.0, still ts h.1)

created-IsRunnable :
    (tid l fn parg pad : ℕ) (ready : List ℕ) (s : State)
    → IsRunnable s ready (suc pad)
    → tid < 1024
    → s.created_threads tid ≡ none
    → IsRunnable (created tid l fn parg ready pad s) (ready ++ tid ∷ []) pad
created-IsRunnable tid l fn parg pad ready s v low e =
    let absent = unused_has ready tid s v.queued e in
    let self : CanRun (created tid l fn parg ready pad s) tid = (low, ground arith) in
    record {
      laid_out = refl;
      runs = CanRun-created tid l fn parg pad s.running_thread ready s v.runs;
      queued =
          All-snoc (CanRun (created tid l fn parg ready pad s)) ready tid
            (All-created tid l fn parg pad ready ready s v.queued) self;
      apart = ground (
        arith,
        has-snoc ready tid s.running_thread,
        v.apart,
        unused_other s.running_thread tid s v.runs e,
      );
      distinct = Distinct-snoc ready tid v.distinct absent;
      no_stack = v.no_stack;
      no_exit = v.no_exit;
    }

-- In a runnable state below the limit, with `tid` the first available id, unused and in range: when `malloc` gives a stack,
-- `thread_create` answers `tid` and leaves a runnable state with the new thread at the end of the ready queue. When there is
-- no memory it answers THREAD_NOMEMORY, but counts a thread and takes `tid` from the available ids, though no thread has it.
pub thread_create-Creates :
    (stack : Option ℕ) (tid fn parg gaps pad : ℕ) (free ready : List ℕ) (s : State)
    → IsRunnable s ready (suc pad)
    → eq_ℤ s.num_threads_created (pos 1024) ≡ false
    → s.available_threads ≡ layout (tid ∷ free) gaps
    → tid < 1024
    → s.created_threads tid ≡ none
    → Creates stack tid fn parg free gaps ready pad s (thread_create stack fn parg s)
unfolding create_as
thread_create-Creates none tid fn parg gaps pad free ready s v c a low e =
    thread_create_eq none fn parg tid gaps free s c a
    ∙ ap
        (λ f.
          returns thread_nomemory (record s {
            num_threads_created = succ_ℤ s.num_threads_created;
            available_threads = f;
          }))
        (ap remove_from_available a ∙ remove_from_available-layout tid gaps free)
thread_create-Creates (some l) tid fn parg gaps pad free ready s v c a low e =
    let left : remove_from_available s.available_threads ≡ layout free (suc gaps) =
      ap remove_from_available a ∙ remove_from_available-layout tid gaps free in
    let queued : add_to_queue_tail s.ready_queue tid ≡ layout (ready ++ tid ∷ []) pad =
      ap (λ q. add_to_queue_tail q tid) v.laid_out ∙ add_to_queue_tail-layout ready pad tid in
    (
      thread_create_eq (some l) fn parg tid gaps free s c a ∙ simp (left, queued) refl,
      created-IsRunnable tid l fn parg pad ready (counted free gaps s)
          (counted-IsRunnable s free gaps ready (suc pad) v) low e,
    )
