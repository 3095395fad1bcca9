-- ===== src/Cooperative/Scheduling.antt =====
-- A1-Cooperative-Threads/thread.c: `thread_yield` moves the processor on as a queue says.
use os_library.Base.{
  ℕ, suc, ◌<◌, ◌≡◌, refl, ap, Option, none, some, Bool, true, false, not, List, [], ◌∷◌, ◌++◌,
  arith, update, All, Option-cases, inl, inr, ltb,
}
use os_library.Base.Int.{pos}
use os_library.Base.Switching.{Switching, returns, departs, resumes}
use os_library.Preempt.Slots.{remove_from_queue}
use os_library.Preempt.Slots.Fifo.{layout, has, add_to_queue_tail-layout}
use os_library.Base.Members.{Distinct}
use os_library.Preempt.State.{Tid}
use os_library.Cooperative.State.{
  saved, Thread, State, M, thread_at, modify_thread, free_stack, remove_at,
}
use os_library.Cooperative.Threads.{
  hand_over, free_zombie, exit_if_killed, after_any, after_want, switch_over,
}

-- A thread that exists and was not killed.
abbrev pub is_alive : Option Thread → Bool
is_alive none = false
is_alive (some t) = not t.killed

abbrev pub CanRun : State → ℕ → Type 0
CanRun s t = (t < 1024) × (is_alive (s.created_threads t) ≡ true)

-- The state between two calls: the ready queue holds `ready` and `pad` empty slots, its threads and the running one are
-- alive, none stands twice, and no thread has just exited.
pub record IsRunnable (s : State) (ready : List ℕ) (pad : ℕ) : Type 0 where
  pub laid_out : s.ready_queue ≡ layout ready pad
  pub runs : CanRun s s.running_thread
  pub queued : All (CanRun s) ready
  pub apart : has ready s.running_thread ≡ false
  pub distinct : Distinct ready
  pub no_stack : s.zombie_stack_addr ≡ none
  pub no_exit : s.returning_from_exit ≡ false

abbrev pub saved? : Option Thread → Option Thread
saved? none = none
saved? (some t) = some (record t { context = saved })

-- The processor has gone from the running thread to `new`, the ready queue is now `ready`.
abbrev pub switched : ℕ → List ℕ → ℕ → State → State
switched new ready pad s = record s {
  running_thread = new;
  ready_queue = layout ready pad;
  created_threads =
      update s.created_threads s.running_thread (saved? (s.created_threads s.running_thread));
  zombie_stack_addr = none;
}

saved?-is_alive : (t : Option Thread) → is_alive (saved? t) ≡ is_alive t
saved?-is_alive none = refl
saved?-is_alive (some t) = refl

pub hand_over-layout :
    (index new pad : ℕ) (rest : List ℕ) (s : State)
    → remove_from_queue index s.ready_queue ≡ layout rest (suc pad)
    → CanRun s new
    → hand_over (some index) new s
      ≡ returns tt (record s {
        running_thread = new;
        ready_queue = layout (rest ++ s.running_thread ∷ []) pad;
      })
unfolding hand_over thread_at remove_at
hand_over-layout index new pad rest s e h =
    ground (arith, add_to_queue_tail-layout rest pad s.running_thread)

pub after_want-alive :
    (want : ℕ) (u : State)
    → CanRun u u.running_thread
    → u.zombie_stack_addr ≡ none
    → u.returning_from_exit ≡ false
    → after_want want u ≡ returns (some want) (record u { zombie_stack_addr = none })
unfolding after_want free_zombie free_stack exit_if_killed thread_at
after_want-alive want u h z e = ground (arith, z, e)

pub after_any-alive :
    (want : ℕ) (u : State)
    → CanRun u u.running_thread
    → u.zombie_stack_addr ≡ none
    → u.returning_from_exit ≡ false
    → after_any want u ≡ returns (some want) (record u { zombie_stack_addr = none })
unfolding after_any free_zombie free_stack exit_if_killed thread_at
after_any-alive want u h z e = ground (arith, z, e)

-- The call gives the processor to `new`, in the state `t`, and answers `new` when its caller runs again in a runnable state.
abbrev pub HandsOver : ℕ → State → Switching State Tid → Type 0
HandsOver new t o =
    (departs o ≡ some t)
    × ((u : State) (ready : List ℕ) (pad : ℕ)
        → IsRunnable u ready pad
        → resumes o u ≡ returns (pos new) (record u { zombie_stack_addr = none }))

-- What is common to the two calls that follow `getcontext`.
abbrev GoesOn : ℕ → M (Option ℕ) → Type 0
GoesOn new after =
    (u : State)
    → CanRun u u.running_thread
    → u.zombie_stack_addr ≡ none
    → u.returning_from_exit ≡ false
    → after u ≡ returns (some new) (record u { zombie_stack_addr = none })

pub CanRun-switched :
    (s : State) (new pad t : ℕ) (q : List ℕ) → CanRun s t → CanRun (switched new q pad s) t
CanRun-switched s new pad t q h =
    ground (arith, saved?-is_alive (s.created_threads s.running_thread))

abbrev pub mark_saved : Thread → Thread
mark_saved t = record t { context = saved }

-- After `getcontext` in the struct of `old`.
abbrev pub kept : ℕ → State → State
kept old s = record s {
  created_threads = update s.created_threads old (saved? (s.created_threads old));
}

pub modify_thread-saved :
    (old : ℕ) (s : State) → CanRun s old → modify_thread old mark_saved s ≡ returns tt (kept old s)
unfolding modify_thread thread_at
modify_thread-saved old s h = ground arith

CanRun-kept : (old t : ℕ) (s : State) → CanRun s t → CanRun (kept old s) t
CanRun-kept old t s h = ground (arith, saved?-is_alive (s.created_threads old))

thread_at-alive : (i : ℕ) (s : State) → CanRun s i → (t : Thread) × (thread_at i s ≡ returns t s)
unfolding thread_at
thread_at-alive i s h = elim (Option-cases (s.created_threads i)) [
  | inl e ↦ absurd (cc (h.1, ap is_alive e))
  | inr (t, e) ↦ (t, let low : ltb i 1024 ≡ true = ground (arith, h.0) in simp (low, e) refl)
]

pub switch_over-HandsOver :
    (old new : ℕ) (refused : Tid) (after : ℕ → M (Option ℕ)) (s : State)
    → ((want : ℕ) → GoesOn want (after want))
    → CanRun s old
    → CanRun s s.running_thread
    → CanRun s new
    → s.zombie_stack_addr ≡ none
    → s.returning_from_exit ≡ false
    → HandsOver new
        (record (kept old s) { zombie_stack_addr = none })
        (switch_over old refused after new s)
unfolding switch_over
switch_over-HandsOver old new refused after s on o r n z e =
    let first = on new (kept old s) (CanRun-kept old s.running_thread s r) z e in
    let target =
      thread_at-alive new (record (kept old s) { zombie_stack_addr = none })
        (CanRun-kept old new s n) in
    (
      simp (modify_thread-saved old s o, first, target.1) refl,
      λ u ready pad v.
          simp (modify_thread-saved old s o, first, target.1, on new u v.runs v.no_stack v.no_exit)
            refl,
    )
