-- ===== src/Tracking/Misses.antt =====
-- malloc369.c: what goes wrong with blocks of no bytes, and with the limit on the bytes that were ever allocated.
use os_library.Base.{ℕ, ◌+◌, ◌^◌, ◌≤◌, ◌<◌, ◌≡◌, refl, ◌∙◌, none, some, true, arith, ltb}
use os_library.Tracking.Allocator.{PtrMap, Libc, Tracker, malloc369, release, free369}
use os_library.Tracking.Accounts.{PtrMapLaws}
use os_library.Tracking.Allocation.{can_put, allocated, malloc369_eq}

module _ {H A : Type 0} (ptrmap : PtrMap H) (laws : PtrMapLaws ptrmap) (libc : Libc A) where
  free_empty_aborts :
      (p : ℕ) (s : Tracker H A)
      → laws.find s.malloc_map p ≡ some 0
      → free369 ptrmap libc (some p) s ≡ none
  unfolding free369 release
  free_empty_aborts p s e = let got = laws.get-found s.malloc_map p 0 e in simp (got.0, got.1) refl

  -- A block of no bytes that the C library hands out is recorded, and `free369` of it fails an assertion, when the limits on
  -- bytes and calls leave room and the map takes the pointer.
  pub malloc369-empty_aborts :
      (p : ℕ) (a : A) (s : Tracker H A)
      → s.bytes_malloced ≤ 2 ^ 31
      → s.num_mallocs + 1 < 2 ^ 63
      → libc.malloc 0 s.heap ≡ (some p, a)
      → can_put ptrmap laws libc p s ≡ true
      → (t : Tracker H A) × (malloc369 ptrmap libc 0 s ≡ some (some p, t))
        × (free369 ptrmap libc (some p) t ≡ none)
  malloc369-empty_aborts p a s b c e put =
      let long : ltb (s.num_mallocs + 1) (2 ^ 63) ≡ true = ground arith in
      (
        allocated ptrmap laws libc 0 p a s,
        malloc369_eq ptrmap laws libc 0 p a s (omega arith) (omega arith) e ∙ simp (long, put) refl,
        free_empty_aborts p (allocated ptrmap laws libc 0 p a s)
            (laws.find-put s.malloc_map p 0 p (ground arith) ∙ ground arith),
      )
