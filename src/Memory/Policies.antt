-- ===== src/Memory/Policies.antt =====
-- rr.c, rand.c, clock.c: the policies, each a pair of functions over the memory.
use os_library.Base.{ℕ, zero, suc, ◌+◌, ◌-◌, ◌%◌, Option, none, some, true, false}
use os_library.Memory.State.{
  M, ◌>>=◌, ◌>>◌, pure, get, modify, frame_at, get_referenced, set_referenced,
}

-- What the simulator calls of a policy: `evict_func` and `ref_func`.
pub record Policy (P F : Type 0) : Type 0 where
  pub evict_func : M P F ℕ
  pub ref_func : ℕ → ℕ → M P F (Unit {0})

-- `rr_evict`, whose static `i` is the policy's state.
unfoldable pub rr_evict : {F : Type 0} → M ℕ F ℕ
rr_evict s = (do modify (λ t. record t { policy = (s.policy + 1) % s.memsize }); pure s.policy) s

-- `rr_ref`
unfoldable pub rr_ref : {F : Type 0} → ℕ → ℕ → M ℕ F (Unit {0})
rr_ref frame vaddr = pure tt

-- `random` of the C library, from the state of the generator to a number and the next state.
abbrev pub Random : Type 0 → Type 0
Random G = G → ℕ × G

-- `rand_evict`
unfoldable pub rand_evict : {G F : Type 0} → Random G → M G F ℕ
rand_evict random s =
    (do
      modify (λ t. record t { policy = (random s.policy).1 })
      pure ((random s.policy).0 % s.memsize))
      s

-- `rand_ref`
unfoldable pub rand_ref : {G F : Type 0} → ℕ → ℕ → M G F (Unit {0})
rand_ref frame vaddr = pure tt

-- `clock_handle` is the state of the clock policy.
unfoldable pub advance_clock_handle : {F : Type 0} → M ℕ F (Unit {0})
advance_clock_handle = modify (λ s. record s { policy = suc s.policy })

-- `clock_init`
unfoldable pub clock_init : {F : Type 0} → M ℕ F (Unit {0})
clock_init = modify (λ s. record s { policy = 0 })

-- The loop of `clock_evict` and of `find_first_evict` from `i` on, with `rounds` frames left: the frame it stops at.
unfoldable pub clock_scan : {F : Type 0} → ℕ → ℕ → M ℕ F (Option ℕ)
clock_scan zero i = pure none
clock_scan (suc rounds) i = do
  s ← get
  f ← frame_at s.policy
  referenced ← get_referenced f.pte
  elim referenced [
    | true ↦ do set_referenced f.pte false; advance_clock_handle; clock_scan rounds (suc i)
    | false ↦ do advance_clock_handle; pure (some i)
  ]

abbrev pub or_zero : Option ℕ → ℕ
or_zero none = 0
or_zero (some i) = i

-- `find_first_evict`
unfoldable pub find_first_evict : {F : Type 0} → M ℕ F ℕ
find_first_evict = do
  s ← get
  found ← clock_scan (s.memsize - 1 - s.policy) s.policy
  pure (or_zero found)

-- What `clock_evict` does after its loop, with what the loop found.
unfoldable pub clock_last : {F : Type 0} → Option ℕ → M ℕ F ℕ
clock_last (some i) = do s ← get; victim ← frame_at s.policy; pure i
clock_last none = do
  s ← get
  victim ← frame_at s.policy
  referenced ← get_referenced victim.pte
  elim referenced [
    | true ↦ do set_referenced victim.pte false; clock_init; find_first_evict
    | false ↦ do t ← get; clock_init; pure t.policy
  ]

-- `clock_evict`
unfoldable pub clock_evict : {F : Type 0} → M ℕ F ℕ
clock_evict = do s ← get; found ← clock_scan (s.memsize - 1 - s.policy) s.policy; clock_last found

-- `clock_ref`
unfoldable pub clock_ref : {F : Type 0} → ℕ → ℕ → M ℕ F (Unit {0})
clock_ref frame vaddr = do f ← frame_at frame; set_referenced f.pte true

abbrev pub rr : {F : Type 0} → Policy ℕ F
rr = record { evict_func = rr_evict; ref_func = rr_ref }

abbrev pub rand : {G F : Type 0} → Random G → Policy G F
rand random = record { evict_func = rand_evict random; ref_func = rand_ref }

abbrev pub clock : {F : Type 0} → Policy ℕ F
clock = record { evict_func = clock_evict; ref_func = clock_ref }
