-- ===== src/Tracking/Release.antt =====
-- malloc369.c: what `free369` does with live blocks and with other pointers.
use Prim.Native.Nat.{bit_and, bit_or}
use os_library.Base.{
  ℕ, suc, ◌+◌, ◌-◌, ◌^◌, ◌≤◌, ◌<◌, ◌≡◌, refl, sym, subst, ◌∙◌, ◌⊎◌, inl, inr, Option, none, some,
  true, false, arith, ◌==◌, ==-eq-false, ltb, leb, Bool-cases,
}
use os_library.Base.Bytes.{fill_bytes, fill_bytes-inside, fill_bytes-above, fill_bytes-outside}
use os_library.Tracking.Allocator.{freed, PtrMap, Libc, Tracker, c_free, release, free369}
use os_library.Tracking.Accounts.{
  PtrMapLaws, Blocks, size_at, without, size_at-without, Apart-without, total-without,
  length-without, IsDead, Tracks, not_freed, marked_freed,
}

module _ {H A : Type 0} (ptrmap : PtrMap H) (laws : PtrMapLaws ptrmap) (libc : Libc A) where
  -- The tracker after the release of `n` bytes at `p`, when the heap of the C library is then `a`.
  abbrev released : ℕ → ℕ → A → Tracker H A → Tracker H A
  released p n a s = record s {
    num_frees = suc s.num_frees;
    bytes_freed = s.bytes_freed + n;
    memory = fill_bytes n 238 p s.memory;
    heap = a;
    malloc_map = ptrmap.set_kh_value (ptrmap.kh_get p s.malloc_map) (bit_or n freed) s.malloc_map;
  }

  release_eq :
      (p k n : ℕ) (a : A) (s : Tracker H A)
      → 0 < n
      → n < 2 ^ 31
      → s.num_frees < s.num_mallocs
      → s.bytes_freed + n ≤ s.bytes_malloced
      → libc.free (some p) s.heap ≡ some a
      → release ptrmap libc p k n s
        ≡ some (
          tt,
          record s {
            num_frees = suc s.num_frees;
            bytes_freed = s.bytes_freed + n;
            memory = fill_bytes n 238 p s.memory;
            heap = a;
            malloc_map = ptrmap.set_kh_value k (bit_or n freed) s.malloc_map;
          },
        )
  unfolding release
  release_eq p k n a s z h c b e =
      let nonzero : (n == 0) ≡ false = ground arith in
      let long : ltb n (2 ^ 63 - 1) ≡ true = ground arith in
      let calls : ltb s.num_frees s.num_mallocs ≡ true = ground arith in
      let bytes : leb (s.bytes_freed + n) s.bytes_malloced ≡ true = ground arith in
      simp (nonzero, long, calls, bytes, e) refl

  free369_eq :
      (p n : ℕ) (s : Tracker H A)
      → laws.find s.malloc_map p ≡ some n
      → n < 2 ^ 31
      → free369 ptrmap libc (some p) s ≡ release ptrmap libc p (ptrmap.kh_get p s.malloc_map) n s
  unfolding free369
  free369_eq p n s f h =
      let got = laws.get-found s.malloc_map p n f in
      let unmarked : (bit_and n freed == 0) ≡ true = ground (arith, not_freed n h) in
      simp (got.0, got.1, unmarked) refl

  released-Tracks :
      (p n : ℕ) (a : A) (s : Tracker H A) (live : Blocks)
      → Tracks laws.find s live
      → size_at live p ≡ some n
      → Tracks laws.find (released p n a s) (without p live)
  released-Tracks p n a s live w h =
      let find' = λ (q : ℕ). laws.find-set s.malloc_map p (bit_or n freed) n q (w.held p n h) in
      let left = λ (q : ℕ). size_at-without live p q w.apart in
      record {
        held = λ q m e. ground (arith, find' q, left q, w.held q m);
        sized = λ q m e. ground (arith, left q, w.sized q m);
        dead = λ q e. elim (Bool-cases (p == q)) [
          | inl same ↦
              let now : laws.find (released p n a s).malloc_map q ≡ some (bit_or n freed) =
                ground (arith, find' q) in
              subst IsDead (sym now) (marked_freed n)
          | inr other ↦
              let now : laws.find (released p n a s).malloc_map q ≡ laws.find s.malloc_map q =
                ground (arith, find' q) in
              subst IsDead (sym now) (w.dead q (ground (arith, left q)))
        ];
        apart = Apart-without live p w.apart;
        calls = omega (arith, w.calls, length-without live p n h);
        bytes = omega (arith, w.bytes, total-without live p n h);
        bounded = w.bounded;
      }

  -- A pointer that is NULL or of no live block goes to `free` of the C library, and nothing is counted.
  pub free369-dead :
      (p : ℕ) (s : Tracker H A) (live : Blocks)
      → Tracks laws.find s live
      → size_at live p ≡ none
      → free369 ptrmap libc (some p) s ≡ c_free ptrmap libc (some p) s
  unfolding free369
  free369-dead p s live w h = marked (laws.find s.malloc_map p) refl (w.dead p h)
    where
      marked :
          (o : Option ℕ)
          → laws.find s.malloc_map p ≡ o
          → IsDead o
          → free369 ptrmap libc (some p) s ≡ c_free ptrmap libc (some p) s
      marked none e d = let missing = laws.get-missing s.malloc_map p e in simp (missing) refl
      marked (some m) e d =
          let got = laws.get-found s.malloc_map p m e in
          let twice : (bit_and m freed == 0) ≡ false = ==-eq-false d in
          simp (got.0, got.1, twice) refl

  abbrev pub Frees : ℕ → ℕ → Tracker H A → Blocks → Tracker H A → Type 0
  Frees p n s live t =
      Tracks laws.find t (without p live)
      × (t.num_mallocs ≡ s.num_mallocs)
      × ((j : ℕ) → p ≤ j → j < p + n → t.memory j ≡ 238)
      × ((j : ℕ) → (j < p) ⊎ (p + n ≤ j) → t.memory j ≡ s.memory j)
      × (free369 ptrmap libc (some p) t ≡ c_free ptrmap libc (some p) t)

  -- Where the tracker describes the live blocks, `free369` of one that the C library can free returns: the tracker then
  -- describes the others, every byte of the block is 0xee and no other byte of memory has changed, and the same pointer
  -- freed again goes straight to `free` of the C library, with nothing counted.
  pub free369-Frees :
      (p n : ℕ) (a : A) (s : Tracker H A) (live : Blocks)
      → Tracks laws.find s live
      → size_at live p ≡ some n
      → libc.free (some p) s.heap ≡ some a
      → (t : Tracker H A) × (free369 ptrmap libc (some p) s ≡ some (tt, t))
        × (t.heap ≡ a)
        × Frees p n s live t
  free369-Frees p n a s live w h e =
      let fit = w.sized p n h in
      let now = released-Tracks p n a s live w h in
      (
        released p n a s,
        free369_eq p n s (w.held p n h) fit.1
            ∙ release_eq p (ptrmap.kh_get p s.malloc_map) n a s fit.0 fit.1
                (omega (arith, w.calls, length-without live p n h))
                (omega (arith, w.bytes, total-without live p n h)) e,
        refl,
        (
          now,
          refl,
          λ j l g. fill_bytes-inside n 238 p j s.memory l g,
          λ j l. elim l [
            | inl b ↦ fill_bytes-above n 238 p j s.memory b
            | inr b ↦ fill_bytes-outside n 238 p j s.memory b
          ],
          free369-dead p (released p n a s) (without p live) now
              (size_at-without live p p w.apart ∙ ground arith),
        ),
      )
