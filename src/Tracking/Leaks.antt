-- ===== src/Tracking/Leaks.antt =====
-- malloc369.c: the counts that are asked for, and the test for leaks, after any calls of a client.
use os_library.Base.{
  ℕ, zero, suc, ◌+◌, ◌-◌, ◌^◌, ◌<◌, ◌≡◌, refl, sym, ap, subst, ◌∙◌, ◌⊎◌, inl, inr, ◌≢◌, Option,
  none, some, Bool, true, false, not, ◌&&◌, List, [], ◌∷◌, arith, ◌==◌, ltb, leb, length,
  Bool-cases, Option-cases,
}
use os_library.Base.Int.{pos}
use os_library.Base.Faulting.{Faulting, ◌>>=◌, ◌>>◌, pure}
use os_library.Tracking.Allocator.{
  PtrMap, Libc, Tracker, is_negative, malloc369, free369, init_csc369_malloc,
  get_current_bytes_malloced, get_current_num_mallocs, is_leak_free,
}
use os_library.Tracking.Accounts.{
  PtrMapLaws, Blocks, total, size_at, without, size_at-without, IsDead, Tracks,
}
use os_library.Tracking.Allocation.{malloc369-Allocates, Tracks-heap}
use os_library.Tracking.Release.{free369-Frees}

-- What the C library documents of its heap: a block that it hands out is owned until it is freed, and NULL may be freed.
pub record LibcLaws {A : Type 0} (libc : Libc A) : Type 0 where
  pub owned : A → ℕ → Bool
  pub malloc-fresh : (n p : ℕ) (a b : A) → libc.malloc n a ≡ (some p, b) → owned a p ≡ false
  pub malloc-owned : (n p : ℕ) (a b : A) → libc.malloc n a ≡ (some p, b) → owned b p ≡ true
  pub malloc-keeps :
      (n : ℕ) (o : Option ℕ) (a b : A) (q : ℕ)
      → libc.malloc n a ≡ (o, b)
      → owned a q ≡ true
      → owned b q ≡ true
  pub free-owned :
      (p : ℕ) (a : A)
      → owned a p ≡ true
      → (b : A) × (libc.free (some p) a ≡ some b)
        × ((q : ℕ) → p ≢ q → owned a q ≡ true → owned b q ≡ true)
  pub free-null : (a : A) → libc.free none a ≡ some a

-- A client that keeps the blocks it was handed, the newest first: it asks for a block, or frees the block in one place,
-- and NULL where there is none.
pub data Call : Type 0 where
  alloc : ℕ → Call
  free_nth : ℕ → Call

abbrev pub handed : Option ℕ → ℕ → Blocks → Blocks
handed none size live = live
handed (some p) size live = (p, size) ∷ live

abbrev pub nth_ptr : ℕ → Blocks → Option ℕ
nth_ptr k [] = none
nth_ptr zero ((p, n) ∷ live) = some p
nth_ptr (suc k) ((p, n) ∷ live) = nth_ptr k live

abbrev pub dropped : Option ℕ → Blocks → Blocks
dropped none live = live
dropped (some p) live = without p live

-- Blocks of no bytes are not asked for.
abbrev pub IsSized : List Call → Type 0
IsSized [] = Unit
IsSized (alloc n ∷ calls) = (0 < n) × IsSized calls
IsSized (free_nth k ∷ calls) = IsSized calls

module _ {H A : Type 0} (ptrmap : PtrMap H) (libc : Libc A) where
  unfoldable pub call : Call → Blocks → Faulting (Tracker H A) Blocks
  call (alloc n) live = do o ← malloc369 ptrmap libc n; pure (handed o n live)
  call (free_nth k) live = do
    free369 ptrmap libc (nth_ptr k live)
    pure (dropped (nth_ptr k live) live)

  unfoldable pub run : List Call → Blocks → Faulting (Tracker H A) Blocks
  run [] live = pure live
  run (c ∷ calls) live = do now ← call c live; run calls now

  unfoldable pub session : List Call → Faulting (Tracker H A) Blocks
  session calls = do init_csc369_malloc ptrmap libc; run calls []

module _ {H A : Type 0} (ptrmap : PtrMap H) (laws : PtrMapLaws ptrmap) (libc : Libc A)
    (heap : LibcLaws libc) where
  -- Room for `n` more calls, in a tracker that describes the live blocks, which are all owned.
  record Holds (s : Tracker H A) (live : Blocks) (n : ℕ) : Type 0 where
    tracked : Tracks laws.find s live
    owns : (p m : ℕ) → size_at live p ≡ some m → heap.owned s.heap p ≡ true
    room : s.num_mallocs + n < 2 ^ 63

  abbrev Steps : Option (Blocks × Tracker H A) → ℕ → Type 0
  Steps r n = (live : Blocks) × (t : Tracker H A) × (r ≡ some (live, t)) × Holds t live n

  roomier : (s : Tracker H A) (live : Blocks) (n : ℕ) → Holds s live (suc n) → Holds s live n
  roomier s live n w = record { tracked = w.tracked; owns = w.owns; room = omega (arith, w.room) }

  nth_ptr-size_at :
      (k p : ℕ) (live : Blocks) → nth_ptr k live ≡ some p → (n : ℕ) × (size_at live p ≡ some n)
  nth_ptr-size_at k p [] e = absurd (cc)
  nth_ptr-size_at zero p ((q, n) ∷ live) e = (n, ground (arith, e))
  nth_ptr-size_at (suc k) p ((q, n) ∷ live) e =
      let later = nth_ptr-size_at k p live e in
      elim (Bool-cases (q == p)) [
        | inl same ↦ (n, ground (arith, same))
        | inr other ↦ (later.0, ground (arith, other, later.1))
      ]

  call_alloc :
      (size : ℕ) (s : Tracker H A) (live : Blocks) (n : ℕ)
      → ((p : ℕ) (h : H) → is_negative (ptrmap.kh_put p h).1 ≡ false)
      → 0 < size
      → Holds s live (suc n)
      → Steps (call ptrmap libc (alloc size) live s) n
  unfolding call
  call_alloc size s live n puts z w =
      let ok : (p : ℕ) (a : A)
          → libc.malloc size s.heap ≡ (some p, a)
          → (size_at live p ≡ none) × (not (is_negative (ptrmap.kh_put p s.malloc_map).1) ≡ true) =
        λ p a e. (unowned p a e (Option-cases (size_at live p)), ap not (puts p s.malloc_map)) in
      elim (malloc369-Allocates ptrmap laws libc size s live w.tracked z (omega (arith, w.room))
        ok) [
          | inl r ↦ (live, s, simp (r.1) refl, roomier s live n w)
          | inr (inl (a, e, r)) ↦ (
            live,
            record s { heap = a },
            simp (r) refl,
            record {
              tracked = Tracks-heap ptrmap laws libc a s live w.tracked;
              owns = λ p m g. heap.malloc-keeps size none s.heap a p e (w.owns p m g);
              room = omega (arith, w.room);
            },
          )
          | inr (inr (p, a, t, e, r, same, _, more, now)) ↦ (
            (p, size) ∷ live,
            t,
            simp (r) refl,
            record {
              tracked = now;
              owns = λ q m g. ap (λ b. heap.owned b q) same ∙ still p q m a e g;
              room = omega (arith, w.room, more);
            },
          )
        ]
    where
      unowned :
          (p : ℕ) (a : A)
          → libc.malloc size s.heap ≡ (some p, a)
          → (size_at live p ≡ none) ⊎ ((m : ℕ) × (size_at live p ≡ some m))
          → size_at live p ≡ none
      unowned p a e (inl g) = g
      unowned p a e (inr (m, g)) = absurd (cc (heap.malloc-fresh size p s.heap a e, w.owns p m g))

      still :
          (p q m : ℕ) (a : A)
          → libc.malloc size s.heap ≡ (some p, a)
          → size_at ((p, size) ∷ live) q ≡ some m
          → heap.owned a q ≡ true
      still p q m a e g = elim (Bool-cases (p == q)) [
        | inl same ↦ ap (heap.owned a) (ground (arith, same)) ∙ heap.malloc-owned size p s.heap a e
        | inr other ↦
            heap.malloc-keeps size (some p) s.heap a q e (w.owns q m (ground (arith, other, g)))
      ]

  call_free :
      (k : ℕ) (s : Tracker H A) (live : Blocks) (n : ℕ)
      → Holds s live (suc n)
      → Steps (call ptrmap libc (free_nth k) live s) n
  unfolding call free369
  call_free k s live n w = freed_at (nth_ptr k live) refl
    where
      freed_at :
          (o : Option ℕ)
          → nth_ptr k live ≡ o
          → (now : Blocks) × (t : Tracker H A) × ((free369 ptrmap libc o >> pure (dropped o live)) s
              ≡ some (now, t))
            × Holds t now n
      freed_at none e = (live, s, simp (heap.free-null s.heap) refl, roomier s live n w)
      freed_at (some p) e =
          let block = nth_ptr-size_at k p live e in
          let heap' = heap.free-owned p s.heap (w.owns p block.0 block.1) in
          let r =
            free369-Frees ptrmap laws libc p block.0 heap'.0 s live w.tracked block.1 heap'.1 in
          let kept_apart : (q m : ℕ) → size_at (without p live) q ≡ some m → p ≢ q =
            λ q m g d. absurd (ground (arith, size_at-without live p q w.tracked.apart, g, d)) in
          let kept_size : (q m : ℕ)
              → size_at (without p live) q ≡ some m
              → size_at live q ≡ some m =
            λ q m g. ground (arith, size_at-without live p q w.tracked.apart, g) in
          (
            without p live,
            r.0,
            simp (r.1) refl,
            record {
              tracked = r.3.0;
              owns = λ q m g.
                  ap (λ b. heap.owned b q) r.2
                  ∙ heap'.2 q (kept_apart q m g) (w.owns q m (kept_size q m g));
              room = omega (arith, w.room, r.3.1);
            },
          )

  get_current_bytes_malloced_lem :
      (s : Tracker H A) (live : Blocks)
      → Tracks laws.find s live
      → get_current_bytes_malloced ptrmap libc s ≡ some (total live, s)
  unfolding get_current_bytes_malloced
  get_current_bytes_malloced_lem s live w =
      let some_bytes : leb s.bytes_freed s.bytes_malloced ≡ true = ground (arith, w.bytes) in
      let left : s.bytes_malloced - s.bytes_freed ≡ total live = omega (arith, w.bytes) in
      simp (some_bytes, left) refl

  get_current_num_mallocs_lem :
      (s : Tracker H A) (live : Blocks)
      → Tracks laws.find s live
      → get_current_num_mallocs ptrmap libc s ≡ some (length live, s)
  unfolding get_current_num_mallocs
  get_current_num_mallocs_lem s live w =
      let some_calls : leb s.num_frees s.num_mallocs ≡ true = ground (arith, w.calls) in
      let left : s.num_mallocs - s.num_frees ≡ length live = omega (arith, w.calls) in
      simp (some_calls, left) refl

  is_leak_free-Tracks :
      (mallocs bytes : ℕ) (s : Tracker H A) (live : Blocks)
      → Tracks laws.find s live
      → is_leak_free ptrmap libc (pos mallocs) (pos bytes) s
        ≡ some (leb (total live) bytes && leb (length live) mallocs, s)
  unfolding is_leak_free
  is_leak_free-Tracks mallocs bytes s live w =
      let at_bytes = get_current_bytes_malloced_lem s live w in
      let at_calls = get_current_num_mallocs_lem s live w in
      elim (Bool-cases (ltb bytes (total live))) [
        | inl h ↦
            let above : leb (total live) bytes ≡ false = ground arith in
            simp (at_bytes, h, above) refl
        | inr h ↦ elim (Bool-cases (ltb mallocs (length live))) [
          | inl g ↦
              let within : leb (total live) bytes ≡ true = ground (arith, h) in
              let above : leb (length live) mallocs ≡ false = ground (arith, g) in
              simp (at_bytes, at_calls, h, g, within, above) refl
          | inr g ↦
              let within : leb (total live) bytes ≡ true = ground (arith, h) in
              let few : leb (length live) mallocs ≡ true = ground (arith, g) in
              simp (at_bytes, at_calls, h, g, within, few) refl
        ]
      ]

  run-Holds :
      (calls : List Call) (s : Tracker H A) (live : Blocks)
      → ((p : ℕ) (h : H) → is_negative (ptrmap.kh_put p h).1 ≡ false)
      → IsSized calls
      → Holds s live (length calls)
      → Steps (run ptrmap libc calls live s) 0
  unfolding run
  run-Holds [] s live puts sized w = (live, s, refl, w)
  run-Holds (alloc n ∷ calls) s live puts sized w =
      let first = call_alloc n s live (length calls) puts sized.0 w in
      let rest = run-Holds calls first.1 first.0 puts sized.1 first.3 in
      (rest.0, rest.1, simp (first.2, rest.2) refl, rest.3)
  run-Holds (free_nth k ∷ calls) s live puts sized w =
      let first = call_free k s live (length calls) w in
      let rest = run-Holds calls first.1 first.0 puts sized first.3 in
      (rest.0, rest.1, simp (first.2, rest.2) refl, rest.3)

  initial : Tracker H A → Tracker H A
  initial s = record s {
    malloc_map = ptrmap.kh_init;
    num_mallocs = 0;
    bytes_malloced = 0;
    num_frees = 0;
    bytes_freed = 0;
  }

  initial-Holds : (n : ℕ) (s : Tracker H A) → n < 2 ^ 63 → Holds (initial s) [] n
  unfolding initial
  initial-Holds n s h = record {
    tracked = record {
      held = λ p m e. absurd (cc);
      sized = λ p m e. absurd (cc);
      dead = λ p e. subst IsDead (sym (laws.find-init p)) tt;
      apart = tt;
      calls = refl;
      bytes = refl;
      bounded = omega arith;
    };
    owns = λ p m e. absurd (cc);
    room = omega arith;
  }

  -- Any sequence of fewer than 2^63 calls, each for a block of at least one byte or the release of one of the live blocks or
  -- of NULL, runs to its end from `init_csc369_malloc` when the map takes every pointer and the C library keeps its word:
  -- then the numbers of current calls and of current bytes are the number and the total size of the blocks that are live,
  -- and the test for leaks holds exactly when neither is above its tolerance.
  pub session-Counts :
      (calls : List Call) (s : Tracker H A)
      → ((p : ℕ) (h : H) → is_negative (ptrmap.kh_put p h).1 ≡ false)
      → IsSized calls
      → length calls < 2 ^ 63
      → (live : Blocks) × (t : Tracker H A) × (session ptrmap libc calls s ≡ some (live, t))
        × (get_current_num_mallocs ptrmap libc t ≡ some (length live, t))
        × (get_current_bytes_malloced ptrmap libc t ≡ some (total live, t))
        × ((mallocs bytes : ℕ)
            → is_leak_free ptrmap libc (pos mallocs) (pos bytes) t
              ≡ some (leb (total live) bytes && leb (length live) mallocs, t))
  unfolding session init_csc369_malloc initial
  session-Counts calls s puts sized few =
      let r = run-Holds calls (initial s) [] puts sized (initial-Holds (length calls) s few) in
      (
        r.0,
        r.1,
        simp (r.2) refl,
        get_current_num_mallocs_lem r.1 r.0 r.3.tracked,
        get_current_bytes_malloced_lem r.1 r.0 r.3.tracked,
        λ mallocs bytes. is_leak_free-Tracks mallocs bytes r.1 r.0 r.3.tracked,
      )
