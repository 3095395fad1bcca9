-- ===== src/Memory/ClockEvict.antt =====
-- clock.c: what `clock_evict` chooses.
use os_library.Base.{
  ℕ, suc, ◌-◌, ◌≤◌, ◌<◌, ◌≡◌, refl, sym, subst, Option, none, some, arith, ◌==◌, ltb, ◌≢◌, inl, inr,
  Bool-cases,
}
use os_library.Memory.State.{Memory}
use os_library.Memory.Policies.{clock_last, clock_evict, find_first_evict, clock_scan}
use os_library.Memory.Cleared.{
  Cleared, Cleared-refl, Cleared-trans, Cleared-memsize, AllUsed, Unreferenced, Cleared-AllUsed,
  Cleared-Unreferenced, clear_at, Cleared-clear_at, clear_at-Unreferenced, Holds-referenced,
}
use os_library.Memory.Clock.{
  ScanPost, clock_scan-ScanPost, FirstPost, find_first_evict-FirstPost, clock_evict_eq,
  clock_last-some, clock_last-none,
}

module _ {F : Type 0} where
  -- What a call of `clock_evict` promises: a frame of the memory, none left out that was not referenced.
  abbrev pub Evicts : Memory ℕ F → Option (ℕ × Memory ℕ F) → Type 0
  Evicts s none = ⊥
  Evicts s (some (v, t)) =
      Cleared s t
      × (v < s.memsize)
      × (t.policy < t.memsize)
      × Unreferenced t v
      × ((j : ℕ) → s.policy ≤ j → j < s.memsize → Unreferenced s j → (s.policy ≤ v) × (v ≤ j))

  -- The sweep found every frame from the hand on referenced, the last one too.
  evict_again :
      (s t t1 : Memory ℕ F) (r : Option (ℕ × Memory ℕ F))
      → Cleared s t1
      → (suc t.policy ≡ s.memsize)
      → Unreferenced t1 t.policy
      → ((j : ℕ) → s.policy ≤ j → j < s.memsize → ¬ Unreferenced s j)
      → FirstPost t1 r
      → Evicts s r
  evict_again s t t1 none h e u n c = c
  evict_again s t t1 (some (v, w)) h e u n c =
      let size = Cleared-memsize s t1 h in
      let choice : Unreferenced w v = elim (Bool-cases (ltb 1 t1.memsize)) [
        | inl z ↦ c.4 (ground arith)
        | inr z ↦
            let one : t1.memsize ≡ 1 = ground arith in
            let first : t.policy ≡ 0 = omega arith in c.3 (subst (Unreferenced t1) first u) one
      ] in
      (
        Cleared-trans s t1 w h c.0,
        omega (arith, c.1, size),
        c.2,
        choice,
        λ j l k q. absurd (n j l k q),
      )

  evict_of_scan :
      (s : Memory ℕ F) (r : Option (Option ℕ × Memory ℕ F))
      → AllUsed s
      → s.policy < s.memsize
      → ScanPost s s.policy r
      → Evicts s (elim r [ none ↦ none | some (found, t) ↦ clock_last found t ])
  evict_of_scan s none used l c = c
  evict_of_scan s (some (some v, t)) used l c =
      let size = Cleared-memsize s t c.0 in
      let u = Cleared-AllUsed s t c.0 used t.policy (omega (arith, c.1, c.3)) in
      subst (Evicts s) (sym (clock_last-some v u.0 t u.2)) (
        c.0,
        omega (arith, c.3),
        omega (arith, c.1, c.3),
        c.4,
        λ j m k q. (
          c.2,
          elim (Bool-cases (ltb j v)) [
            | inl z ↦ absurd (c.5 j m (ground arith) q)
            | inr z ↦ ground arith
          ],
        ),
      )
  evict_of_scan s (some (none, t)) used l c =
      let size = Cleared-memsize s t c.0 in
      let u = Cleared-AllUsed s t c.0 used t.policy (omega (arith, c.1)) in
      let t1 = record (clear_at t u.0 u.1) { policy = 0 } in
      let step : Cleared s t1 = Cleared-trans s t t1 c.0 (
        Cleared-trans t (clear_at t u.0 u.1) t1 (Cleared-clear_at t u.0 u.1 u.3)
          (Cleared-refl (clear_at t u.0 u.1) 0)) in
      subst (Evicts s) (sym (clock_last-none u.0 u.1 t u.2 u.3))
        (elim (Bool-cases (u.1.referenced_bit == 1)) [
          | inl z ↦ rw (z) (
              evict_again s t t1 (find_first_evict t1) step c.1
                (clear_at-Unreferenced t t.policy u.0 u.1 u.2)
                (λ j m k q. elim (Bool-cases (j == t.policy)) [
                  | inl y ↦
                      let same : j ≡ t.policy = ground arith in
                      Holds-referenced t t.policy u.0 u.1 u.2 u.3 (ground arith)
                        (subst (Unreferenced t) same (Cleared-Unreferenced s t j c.0 q))
                  | inr y ↦ c.3 j m (ground (arith, c.1)) q
                ])
                (find_first_evict-FirstPost t1 (Cleared-AllUsed s t1 step used) refl
                  (omega (arith, size))))
          | inr z ↦
              let unset : u.1.referenced_bit ≢ 1 = ground arith in
              rw (z) (
                Cleared-trans s t (record t { policy = 0 }) c.0 (Cleared-refl t 0),
                omega (arith, c.1),
                omega (arith, size),
                (u.0, u.1, u.2, u.3, unset),
                λ j m k q. (
                  omega (arith, c.1),
                  elim (Bool-cases (ltb j t.policy)) [
                    | inl y ↦ absurd (c.3 j m (ground (arith, c.1)) q)
                    | inr y ↦ ground arith
                  ],
                ),
              )
        ])

  -- When every frame is in use and the hand points at one, `clock_evict` succeeds: it returns a frame of the memory
  -- whose page is unreferenced when it returns, it leaves the hand on a frame, and it changes nothing but the hand and
  -- referenced bits, which it only clears. It does not pass over a frame that was unreferenced: when a frame from the
  -- hand on was, the choice is not before the hand and not after that frame.
  pub clock_evict-Evicts :
      (s : Memory ℕ F) → AllUsed s → s.policy < s.memsize → Evicts s (clock_evict s)
  clock_evict-Evicts s used l =
      let r = clock_scan (s.memsize - 1 - s.policy) s.policy s in
      subst (Evicts s) (sym (clock_evict_eq s r refl)) (
        evict_of_scan s r used l
          (clock_scan-ScanPost (s.memsize - 1 - s.policy) s.policy s used refl (omega arith)))
