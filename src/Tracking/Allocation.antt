-- ===== src/Tracking/Allocation.antt =====
-- malloc369.c: what `malloc369` does on every branch.
use os_library.Base.{
  ℕ, ◌+◌, ◌%◌, ◌^◌, ◌≤◌, ◌<◌, ◌≡◌, refl, sym, subst, ◌∙◌, ◌⊎◌, inl, inr, Option, none, some, Bool,
  true, false, not, ◌∷◌, arith, ltb, leb, if◌then◌else◌, Bool-cases,
}
use os_library.Tracking.Allocator.{
  PtrMap, Libc, Tracker, is_negative, count_malloc, put_ptr, track, malloc369,
}
use os_library.Tracking.Accounts.{PtrMapLaws, Blocks, size_at, IsDead, Tracks}

module _ {H A : Type 0} (ptrmap : PtrMap H) (laws : PtrMapLaws ptrmap) (libc : Libc A) where
  -- The tracker after the pointer `p` of the C library, whose heap is then `a`.
  abbrev pub allocated : ℕ → ℕ → A → Tracker H A → Tracker H A
  allocated size p a s =
      let put = ptrmap.kh_put p s.malloc_map in
      record s {
        num_mallocs = s.num_mallocs + 1;
        bytes_malloced = s.bytes_malloced + size;
        heap = a;
        malloc_map = ptrmap.set_kh_value put.0 size put.2;
      }

  abbrev pub can_put : ℕ → Tracker H A → Bool
  can_put p s = not (is_negative (ptrmap.kh_put p s.malloc_map).1)

  pub malloc369_eq :
      (size p : ℕ) (a : A) (s : Tracker H A)
      → size < 2 ^ 31
      → s.bytes_malloced + size ≤ 2 ^ 31
      → libc.malloc size s.heap ≡ (some p, a)
      → malloc369 ptrmap libc size s ≡ (
          if ltb (s.num_mallocs + 1) (2 ^ 63)
          then (if can_put p s then some (some p, allocated size p a s) else none)
          else none)
  unfolding malloc369 track count_malloc put_ptr
  malloc369_eq size p a s h g e =
      let small : leb (2 ^ 31) size ≡ false = ground arith in
      let fits : ltb (2 ^ 31) ((s.bytes_malloced + size) % 2 ^ 64) ≡ false = ground arith in
      let long : ltb (s.bytes_malloced + size) (2 ^ 63) ≡ true = ground arith in
      elim (Bool-cases (ltb (s.num_mallocs + 1) (2 ^ 63))) [
        | inl o ↦ elim (Bool-cases (is_negative (ptrmap.kh_put p s.malloc_map).1)) [
          | inl n ↦ simp (small, fits, e, long, o, n) refl
          | inr n ↦ simp (small, fits, e, long, o, n) refl
        ]
        | inr o ↦ simp (small, fits, e, long, o) refl
      ]

  allocated-Tracks :
      (size p : ℕ) (a : A) (s : Tracker H A) (live : Blocks)
      → Tracks laws.find s live
      → 0 < size
      → size < 2 ^ 31
      → s.bytes_malloced + size ≤ 2 ^ 31
      → can_put p s ≡ true
      → size_at live p ≡ none
      → Tracks laws.find (allocated size p a s) ((p, size) ∷ live)
  allocated-Tracks size p a s live w z h g c fresh =
      let find' = λ (q : ℕ). laws.find-put s.malloc_map p size q (ground arith) in
      record {
        held = λ q n e. ground (arith, find' q, w.held q n);
        sized = λ q n e. ground (arith, w.sized q n);
        dead = λ q e.
            let kept : laws.find (allocated size p a s).malloc_map q ≡ laws.find s.malloc_map q =
              ground (arith, find' q) in
            subst IsDead (sym kept) (w.dead q (ground arith));
        apart = (fresh, w.apart);
        calls = ground (arith, w.calls);
        bytes = ground (arith, w.bytes);
        bounded = g;
      }

  pub Tracks-heap :
      (a : A) (s : Tracker H A) (live : Blocks)
      → Tracks laws.find s live
      → Tracks laws.find (record s { heap = a }) live
  Tracks-heap a s live w = record {
    held = w.held;
    sized = w.sized;
    dead = w.dead;
    apart = w.apart;
    calls = w.calls;
    bytes = w.bytes;
    bounded = w.bounded;
  }

  -- A request is refused for its size, the C library has no memory, or the block is handed out.
  abbrev pub Refuses : ℕ → Tracker H A → Blocks → Type 0
  Refuses size s live =
      ((2 ^ 31 ≤ size) ⊎ (2 ^ 31 < s.bytes_malloced + size))
      × (malloc369 ptrmap libc size s ≡ some (none, s))

  abbrev pub Starves : ℕ → Tracker H A → Blocks → Type 0
  Starves size s live =
      (a : A) × (libc.malloc size s.heap ≡ (none, a))
      × (malloc369 ptrmap libc size s ≡ some (none, record s { heap = a }))

  abbrev pub Allocates : ℕ → Tracker H A → Blocks → Type 0
  Allocates size s live =
      (p : ℕ) × (a : A) × (t : Tracker H A) × (libc.malloc size s.heap ≡ (some p, a))
      × (malloc369 ptrmap libc size s ≡ some (some p, t))
      × (t.heap ≡ a)
      × (t.memory ≡ s.memory)
      × (t.num_mallocs ≡ s.num_mallocs + 1)
      × Tracks laws.find t ((p, size) ∷ live)

  too_large : (size : ℕ) (s : Tracker H A) (live : Blocks) → 2 ^ 31 ≤ size → Refuses size s live
  unfolding malloc369
  too_large size s live h =
      let big : leb (2 ^ 31) size ≡ true = ground arith in (inl h, simp (big) refl)

  too_many :
      (size : ℕ) (s : Tracker H A) (live : Blocks)
      → size < 2 ^ 31
      → s.bytes_malloced ≤ 2 ^ 31
      → 2 ^ 31 < s.bytes_malloced + size
      → Refuses size s live
  unfolding malloc369
  too_many size s live h b f =
      let small : leb (2 ^ 31) size ≡ false = ground arith in
      let full : ltb (2 ^ 31) ((s.bytes_malloced + size) % 2 ^ 64) ≡ true = ground arith in
      (inr f, simp (small, full) refl)

  fitting :
      (size : ℕ) (s : Tracker H A) (live : Blocks) (r : Option ℕ × A)
      → Tracks laws.find s live
      → 0 < size
      → size < 2 ^ 31
      → s.bytes_malloced + size ≤ 2 ^ 31
      → s.num_mallocs + 1 < 2 ^ 63
      → ((p : ℕ) (a : A)
          → libc.malloc size s.heap ≡ (some p, a)
          → (size_at live p ≡ none) × (can_put p s ≡ true))
      → libc.malloc size s.heap ≡ r
      → Starves size s live ⊎ Allocates size s live
  unfolding malloc369 track
  fitting size s live (none, a) w z h g c ok e =
      let small : leb (2 ^ 31) size ≡ false = ground arith in
      let fits : ltb (2 ^ 31) ((s.bytes_malloced + size) % 2 ^ 64) ≡ false = ground arith in
      inl (a, e, simp (small, fits, e) refl)
  fitting size s live (some p, a) w z h g c ok e =
      let long : ltb (s.num_mallocs + 1) (2 ^ 63) ≡ true = ground arith in
      let fresh = ok p a e in
      inr (
        p,
        a,
        allocated size p a s,
        e,
        malloc369_eq size p a s h g e ∙ simp (long, fresh.1) refl,
        refl,
        refl,
        refl,
        allocated-Tracks size p a s live w z h g fresh.1 fresh.0,
      )

  -- Where the tracker describes the live blocks, a request for at least one byte returns, if the C library's block is at no
  -- live address, the map takes it, and the count of calls fits a `long`. Either the request is refused, for 2^31 bytes or
  -- more or for more than 2^31 bytes in all since the start, and nothing changes; or the C library has no memory, the answer
  -- is NULL and only its heap changes; or its block is the answer, memory is as it was, one more call is counted, and the
  -- tracker describes the live blocks with the new one.
  pub malloc369-Allocates :
      (size : ℕ) (s : Tracker H A) (live : Blocks)
      → Tracks laws.find s live
      → 0 < size
      → s.num_mallocs + 1 < 2 ^ 63
      → ((p : ℕ) (a : A)
          → libc.malloc size s.heap ≡ (some p, a)
          → (size_at live p ≡ none) × (can_put p s ≡ true))
      → Refuses size s live ⊎ (Starves size s live ⊎ Allocates size s live)
  malloc369-Allocates size s live w z c ok = elim (Bool-cases (ltb size (2 ^ 31))) [
    | inl h ↦ elim (Bool-cases (leb (s.bytes_malloced + size) (2 ^ 31))) [
      | inl g ↦ inr (
          fitting size s live (libc.malloc size s.heap) w z (ground arith) (ground arith) c ok refl)
      | inr g ↦ inl (too_many size s live (ground arith) w.bounded (ground arith))
    ]
    | inr h ↦ inl (too_large size s live (ground arith))
  ]
