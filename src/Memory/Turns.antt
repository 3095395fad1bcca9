-- ===== src/Memory/Turns.antt =====
-- What every policy promises the code that evicts, and the policies that keep it.
use os_library.Base.{
  ℕ, zero, suc, ◌+◌, ◌%◌, ◌<◌, ◌≡◌, refl, sym, ap, subst, ◌∙◌, Option, none, some, arith,
}
use native.Mathlib.Nat.{mod-lt, mod-eq_of_lt, mod-add-mod}
use os_library.Memory.State.{Memory, and_then}
use os_library.Memory.Policies.{Policy, Random, rr_evict, rand_evict, clock_evict, rr, rand, clock}
use os_library.Memory.Cleared.{Cleared, Cleared-refl, AllUsed}
use os_library.Memory.ClockEvict.{Evicts, clock_evict-Evicts}

module _ {P F : Type 0} where
  -- A frame of the memory is chosen, and the policy's own invariant holds again.
  abbrev pub Chooses : (Memory P F → Type 0) → Memory P F → Option (ℕ × Memory P F) → Type 0
  Chooses Inv s none = ⊥
  Chooses Inv s (some (v, t)) = Cleared s t × (v < s.memsize) × Inv t

-- A policy, with the invariant of its state: on a memory whose frames are all in use it always finds a victim.
abbrev pub AlwaysChooses : {P F : Type 0} → Policy P F → (Memory P F → Type 0) → Type 0
AlwaysChooses {P} {F} policy Inv =
    (s : Memory P F) → AllUsed s → 0 < s.memsize → Inv s → Chooses Inv s (policy.evict_func s)

abbrev pub InRange : {F : Type 0} → Memory ℕ F → Type 0
InRange s = s.policy < s.memsize

abbrev pub AnyState : {P F : Type 0} → Memory P F → Type 0
AnyState s = Unit

module _ {F : Type 0} where
  rr_evict_eq :
      (s : Memory ℕ F)
      → rr_evict s ≡ some (s.policy, record s { policy = (s.policy + 1) % s.memsize })
  unfolding rr_evict
  rr_evict_eq s = refl

  rr-AlwaysChooses : AlwaysChooses {P = ℕ} {F = F} rr InRange
  rr-AlwaysChooses s used l h =
      subst (Chooses InRange s) (sym (rr_evict_eq s))
        (Cleared-refl s ((s.policy + 1) % s.memsize), h, mod-lt (s.policy + 1) l)

  clock-AlwaysChooses : AlwaysChooses {P = ℕ} {F = F} clock InRange
  clock-AlwaysChooses s used l h = chosen (clock_evict s) (clock_evict-Evicts s used h)
    where
      chosen : (r : Option (ℕ × Memory ℕ F)) → Evicts s r → Chooses InRange s r
      chosen none e = e
      chosen (some (v, t)) e = (e.0, e.1, e.2)

  -- Runs `rr_evict` until it has chosen `n + 1` victims, and gives the last one.
  abbrev pub nth_victim : ℕ → Memory ℕ F → Option (ℕ × Memory ℕ F)
  nth_victim zero s = rr_evict s
  nth_victim (suc n) s = and_then (rr_evict s) (λ _. nth_victim n)

  -- Round robin goes through the frames in turn: with `i` in range, the victim after `n` others is frame `(i + n)`
  -- modulo the number of frames, and only `i` changes.
  pub rr_evict-turns :
      (n : ℕ) (s : Memory ℕ F)
      → 0 < s.memsize
      → s.policy < s.memsize
      → nth_victim n s
        ≡ some ((s.policy + n) % s.memsize, record s { policy = (s.policy + n + 1) % s.memsize })
  rr_evict-turns zero s l h =
      let here : s.policy ≡ (s.policy + 0) % s.memsize =
        sym (mod-eq_of_lt h) ∙ ap (λ k. k % s.memsize) (omega arith) in
      let next : (s.policy + 1) % s.memsize ≡ (s.policy + 0 + 1) % s.memsize =
        ap (λ k. k % s.memsize) (omega arith) in
      rr_evict_eq s
      ∙ ap (λ v. some (v, record s { policy = (s.policy + 1) % s.memsize })) here
      ∙ ap (λ k. some ((s.policy + 0) % s.memsize, record s { policy = k })) next
  rr_evict-turns (suc n) s l h =
      let i = (s.policy + 1) % s.memsize in
      let v : (i + n) % s.memsize ≡ (s.policy + suc n) % s.memsize =
        mod-add-mod (s.policy + 1) s.memsize n ∙ ap (λ k. k % s.memsize) (omega arith) in
      let turn : (i + n + 1) % s.memsize ≡ (s.policy + suc n + 1) % s.memsize =
        ap (λ k. k % s.memsize) (omega arith)
        ∙ mod-add-mod (s.policy + 1) s.memsize (n + 1)
        ∙ ap (λ k. k % s.memsize) (omega arith) in
      ap (λ r. and_then r (λ _. nth_victim n)) (rr_evict_eq s)
      ∙ rr_evict-turns n (record s { policy = i }) l (mod-lt (s.policy + 1) l)
      ∙ ap (λ k. some (k, record s { policy = (i + n + 1) % s.memsize })) v
      ∙ ap (λ k. some ((s.policy + suc n) % s.memsize, record s { policy = k })) turn

  rand_evict_eq :
      {G : Type 0} (random : Random G) (s : Memory G F)
      → rand_evict random s
        ≡ some ((random s.policy).0 % s.memsize, record s { policy = (random s.policy).1 })
  unfolding rand_evict
  rand_evict_eq random s = refl

  rand-AlwaysChooses :
      {G : Type 0} (random : Random G) → AlwaysChooses {P = G} {F = F} (rand random) AnyState
  rand-AlwaysChooses random s used l h =
      subst (Chooses AnyState s) (sym (rand_evict_eq random s))
        (Cleared-refl s (random s.policy).1, mod-lt (random s.policy).0 l, tt)

  -- Round robin, random and clock, whatever generator the random one uses: on a memory with at least one frame whose
  -- frames are all in use, each finds a victim, which is a frame of the memory, and changes nothing but its own state
  -- and referenced bits, which it only clears. The index of round robin and the hand of clock stay in range.
  pub policies-AlwaysChooses :
      {G : Type 0} (random : Random G)
      → AlwaysChooses {P = ℕ} {F = F} rr InRange
        × AlwaysChooses {P = ℕ} {F = F} clock InRange
        × AlwaysChooses {P = G} {F = F} (rand random) AnyState
  policies-AlwaysChooses random = (rr-AlwaysChooses, clock-AlwaysChooses, rand-AlwaysChooses random)
