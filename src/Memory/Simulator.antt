-- ===== src/Memory/Simulator.antt =====
-- sim.c: the replay of a trace of memory accesses.
use os_library.Base.{
  ℕ, suc, ◌+◌, ◌%◌, ◌*◌, Bool, true, false, List, [], ◌∷◌, ◌==◌, ltb, not, ◌||◌, if◌then◌else◌,
  update,
}
use os_library.Memory.State.{simpagesize, Memory, assert_that, M, ◌>>=◌, ◌>>◌, pure, get, modify}
use os_library.Memory.Swap.{SwapFile}
use os_library.Memory.Policies.{Policy}
use os_library.Memory.PageTable.{Fresh, is_store, find_physpage}

-- PAGE_SIZE
abbrev pub page_size : ℕ
page_size = 4096

-- A line of the trace as `sscanf` reads it: one that starts with '=', one that it cannot read, or a reference.
pub data Line : Type 0 where
  comment : Line
  unreadable : Line
  reference : ℕ → ℕ → ℕ → Line

-- type == 'L' || type == 'I'
abbrev pub is_load : ℕ → Bool
is_load type = (type == 76) || (type == 73)

-- The checks of a reference; the second lets an offset of SIMPAGESIZE pass.
abbrev pub is_accepted : ℕ → ℕ → Bool
is_accepted type vaddr =
    if is_store type || is_load type then not (ltb simpagesize (vaddr % page_size)) else false

-- physmem is an array of memsize * SIMPAGESIZE bytes.
abbrev pub is_in_physmem : {P F : Type 0} → ℕ → Memory P F → Bool
is_in_physmem a s = ltb a (s.memsize * simpagesize)

module _ {P F : Type 0} (file : SwapFile F) (policy : Policy P F) (fresh : Fresh) where
  -- `access_mem`, and whether it prints an error. An access past the end of physmem faults.
  unfoldable pub access_mem : ℕ → ℕ → ℕ → M P F Bool
  access_mem type vaddr val = do
    pgptr ← find_physpage file policy fresh vaddr type
    s ← get
    if is_store type
        then (do
          assert_that (is_in_physmem (pgptr + vaddr % page_size) s)
          modify (λ t. record t { physmem = update t.physmem (pgptr + vaddr % page_size) val })
          pure false)
        else if is_load type
        then (do
          assert_that (is_in_physmem (pgptr + vaddr % page_size) s)
          pure (not (s.physmem (pgptr + vaddr % page_size) == val)))
        else pure false

  -- `replay_trace` from a line number on: whether it came to the end of the trace, and the lines that it printed an
  -- error for. A line that is refused ends the program.
  unfoldable pub replay_trace : ℕ → List Line → M P F (Bool × List ℕ)
  replay_trace linenum [] = pure (true, [])
  replay_trace linenum (comment ∷ lines) = replay_trace (suc linenum) lines
  replay_trace linenum (unreadable ∷ lines) = pure (false, [])
  replay_trace linenum (reference type vaddr val ∷ lines) =
      let rest = replay_trace (suc linenum) lines in
      if is_accepted type vaddr
      then (do
        bad ← access_mem type vaddr val
        answer ← rest
        pure (answer.0, if bad then linenum ∷ answer.1 else answer.1))
      else pure (false, [])
