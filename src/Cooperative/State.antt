-- ===== src/Cooperative/State.antt =====
-- A1-Cooperative-Threads/thread.c: the globals, and the loops over its arrays that are not those of Preempt.Slots.
use os_library.Base.{ℕ, Option, none, some, Bool, false, [], ◌∷◌, ltb, if◌then◌else◌, update}
use os_library.Base.Int.{ℤ, negsuc}
pub use os_library.Base.Switching.{
  Switching, returns, switches, gone, exits, fault, spins, and_then, ◌>>=◌, ◌>>◌, pure, get, modify,
  fail,
}
use os_library.Preempt.Slots.{Slots, remove_from_queue}

-- THREAD_NOMEMORY
abbrev pub thread_nomemory : ℤ
thread_nomemory = negsuc 5

-- What `setcontext` on a saved context does: start `thread_stub` with a function and an argument, or go on after the
-- `getcontext` of `thread_yield`.
pub data Context : Type 0 where
  start : ℕ → ℕ → Context
  saved : Context

-- `struct thread`. The field `Tid` is always the index in `created_threads`, and not kept.
pub record Thread : Type 0 where
  pub context : Context
  pub stack_addr : Option ℕ
  pub killed : Bool

-- The globals, and which stacks are live blocks of the heap. (Tid)-300 and NULL are `none`.
pub record State : Type 0 where
  pub running_thread : ℕ
  pub ready_queue : Slots
  pub available_threads : Slots
  pub created_threads : ℕ → Option Thread
  pub num_threads_created : ℤ
  pub zombie_stack_addr : Option ℕ
  pub returning_from_exit : Bool
  pub zombie_tid : Option ℕ
  pub stacks : ℕ → Bool

abbrev pub M : Type 0 → Type 0
M A = State → Switching State A

-- `*created_threads[i]`
unfoldable pub thread_at : ℕ → M Thread
thread_at i s =
    if ltb i 1024
    then (elim (s.created_threads i) [ none ↦ fault | some t ↦ returns t s ])
    else fault

unfoldable pub modify_thread : ℕ → (Thread → Thread) → M (Unit {0})
modify_thread i f = do
  t ← thread_at i
  modify (λ s. record s { created_threads = update s.created_threads i (some (f t)) })

-- `free` of a stack: a fault for a block that is not live.
unfoldable pub free_stack : Option ℕ → M (Unit {0})
free_stack none s = returns tt s
free_stack (some p) s =
    if s.stacks p then returns tt (record s { stacks = update s.stacks p false }) else fault

-- `remove_from_queue`: the index -1, for an id that was not found, writes before the array.
unfoldable pub remove_at : Option ℕ → M (Unit {0})
remove_at none = fail
remove_at (some i) = modify (λ s. record s { ready_queue = remove_from_queue i s.ready_queue })

-- `find_tail_of_queue`: the id before the first empty slot but the first, whose slot becomes empty, and `none` where
-- there is no id.
unfoldable pub find_tail_of_queue : Slots → Option ℕ × Slots
find_tail_of_queue [] = (none, [])
find_tail_of_queue (x ∷ []) = (none, x ∷ [])
find_tail_of_queue (x ∷ none ∷ r) = (x, none ∷ none ∷ r)
find_tail_of_queue (x ∷ some y ∷ r) =
    let rest = find_tail_of_queue (some y ∷ r) in (rest.0, x ∷ rest.1)
