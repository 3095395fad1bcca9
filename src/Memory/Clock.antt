-- ===== src/Memory/Clock.antt =====
-- clock.c: `clock_evict` finds a frame whatever the referenced bits are.
use os_library.Base.{
  ℕ, zero, suc, ◌+◌, ◌-◌, ◌≤◌, ◌<◌, ◌≡◌, refl, sym, ap, subst, ◌∙◌, Option, none, some, arith, ◌==◌,
  if◌then◌else◌, ◌≢◌, inl, inr, Bool-cases,
}
use os_library.Memory.State.{Pte, Memory, get_referenced, set_referenced}
use os_library.Memory.Policies.{
  advance_clock_handle, clock_init, clock_scan, or_zero, find_first_evict, clock_last, clock_evict,
}
use os_library.Memory.Cleared.{
  Cleared, Cleared-refl, Cleared-trans, Cleared-memsize, Holds, AllUsed, Unreferenced,
  Cleared-AllUsed, Cleared-Unreferenced, clear_at, Cleared-clear_at, clear_at-Unreferenced,
  Holds-referenced,
}

module _ {F : Type 0} where
  -- What the loop leaves when it starts at frame `i`.
  abbrev pub ScanPost : Memory ℕ F → ℕ → Option (Option ℕ × Memory ℕ F) → Type 0
  ScanPost s i none = ⊥
  ScanPost s i (some (none, t)) =
      Cleared s t
      × (suc t.policy ≡ s.memsize)
      × ((j : ℕ) → i ≤ j → suc j < s.memsize → Unreferenced t j)
      × ((j : ℕ) → i ≤ j → suc j < s.memsize → ¬ Unreferenced s j)
  ScanPost s i (some (some v, t)) =
      Cleared s t
      × (t.policy ≡ suc v)
      × (i ≤ v)
      × (suc v < s.memsize)
      × Unreferenced t v
      × ((j : ℕ) → i ≤ j → j < v → ¬ Unreferenced s j)

  -- One round of the loop over a frame that is in use.
  clock_scan-suc :
      (rounds i p : ℕ) (e : Pte) (s : Memory ℕ F)
      → Holds s s.policy p
      → s.ptes p ≡ some e
      → clock_scan (suc rounds) i s ≡ (
          if e.referenced_bit == 1
          then clock_scan rounds (suc i) (record (clear_at s p e) { policy = suc s.policy })
          else some (some i, record s { policy = suc s.policy }))
  unfolding clock_scan get_referenced set_referenced advance_clock_handle
  clock_scan-suc rounds i p e s h g = elim (Bool-cases (e.referenced_bit == 1)) [
    | inl z ↦ simp (h, g, z) refl
    | inr z ↦ simp (h, g, z) refl
  ]

  clock_scan-zero : (i : ℕ) (s : Memory ℕ F) → clock_scan zero i s ≡ some (none, s)
  unfolding clock_scan
  clock_scan-zero i s = refl

  -- What the rest of the loop leaves, seen from the round before.
  ScanPost-down :
      (s t : Memory ℕ F) (i : ℕ) (r : Option (Option ℕ × Memory ℕ F))
      → Cleared s t
      → Unreferenced t i
      → ¬ Unreferenced s i
      → ScanPost t (suc i) r
      → ScanPost s i r
  ScanPost-down s t i none h u n c = c
  ScanPost-down s t i (some (none, w)) h u n c = (
    Cleared-trans s t w h c.0,
    c.1 ∙ Cleared-memsize s t h,
    λ j l k. elim (Bool-cases (i == j)) [
      | inl z ↦
          let same : i ≡ j = ground arith in
          subst (Unreferenced w) same (Cleared-Unreferenced t w i c.0 u)
      | inr z ↦ c.2 j (ground arith) (omega (arith, Cleared-memsize s t h))
    ],
    λ j l k. elim (Bool-cases (i == j)) [
      | inl z ↦ let same : i ≡ j = ground arith in subst (λ m. ¬ Unreferenced s m) same n
      | inr z ↦ λ q.
          c.3 j (ground arith) (omega (arith, Cleared-memsize s t h))
            (Cleared-Unreferenced s t j h q)
    ],
  )
  ScanPost-down s t i (some (some v, w)) h u n c = (
    Cleared-trans s t w h c.0,
    c.1,
    omega (arith, c.2),
    omega (arith, c.3, Cleared-memsize s t h),
    c.4,
    λ j l k. elim (Bool-cases (i == j)) [
      | inl z ↦ let same : i ≡ j = ground arith in subst (λ m. ¬ Unreferenced s m) same n
      | inr z ↦ λ q. c.5 j (ground arith) k (Cleared-Unreferenced s t j h q)
    ],
  )

  pub clock_scan-ScanPost :
      (rounds i : ℕ) (s : Memory ℕ F)
      → AllUsed s
      → s.policy ≡ i
      → suc (i + rounds) ≡ s.memsize
      → ScanPost s i (clock_scan rounds i s)
  clock_scan-ScanPost zero i s used at last = subst (ScanPost s i) (sym (clock_scan-zero i s)) (
    Cleared-refl s s.policy,
    omega arith,
    λ j l k. absurd (omega arith),
    λ j l k. absurd (omega arith),
  )
  clock_scan-ScanPost (suc rounds) i s used at last =
      let u = used s.policy (omega arith) in
      let t = record (clear_at s u.0 u.1) { policy = suc s.policy } in
      let step : Cleared s t =
        Cleared-trans s (clear_at s u.0 u.1) t (Cleared-clear_at s u.0 u.1 u.3)
          (Cleared-refl (clear_at s u.0 u.1) (suc s.policy)) in
      subst (ScanPost s i) (sym (clock_scan-suc rounds i u.0 u.1 s u.2 u.3))
        (elim (Bool-cases (u.1.referenced_bit == 1)) [
          | inl z ↦ rw (z) (
              ScanPost-down s t i (clock_scan rounds (suc i) t) step
                (subst (Unreferenced t) at (clear_at-Unreferenced s s.policy u.0 u.1 u.2))
                (subst (λ m. ¬ Unreferenced s m) at
                  (Holds-referenced s s.policy u.0 u.1 u.2 u.3 (ground arith)))
                (clock_scan-ScanPost rounds (suc i) t (Cleared-AllUsed s t step used) (ap suc at)
                  (omega arith)))
          | inr z ↦
              let unset : u.1.referenced_bit ≢ 1 = ground arith in
              rw (z) (
                Cleared-refl s (suc s.policy),
                ap suc at,
                omega arith,
                omega arith,
                subst (Unreferenced (record s { policy = suc s.policy })) at
                    (u.0, u.1, u.2, u.3, unset),
                λ j l k. absurd (omega arith),
              )
        ])

  -- What `find_first_evict` leaves when it starts at frame 0.
  abbrev pub FirstPost : Memory ℕ F → Option (ℕ × Memory ℕ F) → Type 0
  FirstPost s none = ⊥
  FirstPost s (some (v, t)) =
      Cleared s t
      × (v < s.memsize)
      × (t.policy < t.memsize)
      × (Unreferenced s 0 → s.memsize ≡ 1 → Unreferenced t v)
      × (1 < s.memsize → Unreferenced t v)

  find_first_evict_eq :
      (s : Memory ℕ F) (r : Option (Option ℕ × Memory ℕ F))
      → clock_scan (s.memsize - 1 - s.policy) s.policy s ≡ r
      → find_first_evict s ≡ (elim r [ none ↦ none | some (found, t) ↦ some (or_zero found, t) ])
  unfolding find_first_evict
  find_first_evict_eq s none h = simp (h) refl
  find_first_evict_eq s (some (found, t)) h = simp (h) refl

  first_of_scan :
      (s : Memory ℕ F) (r : Option (Option ℕ × Memory ℕ F))
      → s.policy ≡ 0
      → 0 < s.memsize
      → ScanPost s 0 r
      → FirstPost s (elim r [ none ↦ none | some (found, t) ↦ some (or_zero found, t) ])
  first_of_scan s none h l c = c
  first_of_scan s (some (none, t)) h l c = (
    c.0,
    l,
    omega (arith, c.1, Cleared-memsize s t c.0),
    λ u _. Cleared-Unreferenced s t 0 c.0 u,
    λ k. c.2 0 (omega arith) k,
  )
  first_of_scan s (some (some v, t)) h l c = (
    c.0,
    omega (arith, c.3),
    omega (arith, c.1, c.3, Cleared-memsize s t c.0),
    λ _ _. c.4,
    λ _. c.4,
  )

  pub find_first_evict-FirstPost :
      (s : Memory ℕ F) → AllUsed s → s.policy ≡ 0 → 0 < s.memsize → FirstPost s (find_first_evict s)
  find_first_evict-FirstPost s used h l =
      let start : ScanPost s s.policy (clock_scan (s.memsize - 1 - s.policy) s.policy s) =
        clock_scan-ScanPost (s.memsize - 1 - s.policy) s.policy s used refl (omega arith) in
      let r = clock_scan (s.memsize - 1 - s.policy) s.policy s in
      subst (FirstPost s) (sym (find_first_evict_eq s r refl))
        (first_of_scan s r h l (subst (λ i. ScanPost s i r) h start))

  pub clock_evict_eq :
      (s : Memory ℕ F) (r : Option (Option ℕ × Memory ℕ F))
      → clock_scan (s.memsize - 1 - s.policy) s.policy s ≡ r
      → clock_evict s ≡ (elim r [ none ↦ none | some (found, t) ↦ clock_last found t ])
  unfolding clock_evict
  clock_evict_eq s none h = simp (h) refl
  clock_evict_eq s (some (found, t)) h = simp (h) refl

  pub clock_last-some :
      (v p : ℕ) (t : Memory ℕ F) → Holds t t.policy p → clock_last (some v) t ≡ some (v, t)
  unfolding clock_last
  clock_last-some v p t h = simp (h) refl

  pub clock_last-none :
      (p : ℕ) (e : Pte) (t : Memory ℕ F)
      → Holds t t.policy p
      → t.ptes p ≡ some e
      → clock_last none t ≡ (
          if e.referenced_bit == 1
          then find_first_evict (record (clear_at t p e) { policy = 0 })
          else some (t.policy, record t { policy = 0 }))
  unfolding clock_last get_referenced set_referenced clock_init
  clock_last-none p e t h g = elim (Bool-cases (e.referenced_bit == 1)) [
    | inl z ↦ simp (h, g, z) refl
    | inr z ↦ simp (h, g, z) refl
  ]
