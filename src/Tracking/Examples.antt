-- ===== src/Tracking/Examples.antt =====
-- malloc369.c: runs with a map as a function and a heap that hands out addresses in turn.
use os_library.Base.{
  ℕ, suc, ◌+◌, ◌-◌, ◌≡◌, refl, sym, ap, subst, ◌≢◌, ◌⊎◌, Option, none, some, Bool, true, false,
  ◌&&◌, List, [], ◌∷◌, arith, ◌==◌, ltb, leb, if◌then◌else◌, is_some, update, length,
}
use os_library.Base.Int.{pos}
use os_library.Tracking.Allocator.{
  PtrMap, Libc, Tracker, malloc369, free369, get_current_bytes_malloced, get_current_num_mallocs,
  is_leak_free, track, count_malloc, put_ptr, release, init_csc369_malloc,
}
use os_library.Tracking.Accounts.{PtrMapLaws, Blocks, total, size_at, IsDead, Tracks}
use os_library.Tracking.Allocation.{malloc369-Allocates, Refuses, Starves, Allocates}
use os_library.Tracking.Release.{free369-Frees, Frees}
use os_library.Tracking.Leaks.{LibcLaws, Call, alloc, free_nth, run, call, session, session-Counts}
use os_library.Tracking.Misses.{malloc369-empty_aborts}

abbrev Mapping : Type 0
Mapping = ℕ → Option ℕ

abbrev iterator : Option ℕ → ℕ → ℕ
iterator none p = 0
iterator (some v) p = suc p

abbrev value : Option ℕ → ℕ
value none = 0
value (some v) = v

-- An iterator is one more than the key.
abbrev function_map : PtrMap Mapping
function_map = record {
  kh_init = λ _. none;
  kh_put = λ p h. (suc p, pos (if is_some (h p) then 0 else 1), h);
  kh_get = λ p h. iterator (h p) p;
  kh_end = λ h. 0;
  kh_value = λ h k. value (h (k - 1));
  set_kh_value = λ k v h. update h (k - 1) (some v);
}

function_map_missing : (h : Mapping) (p : ℕ) → h p ≡ none → (iterator (h p) p == 0) ≡ true
function_map_missing h p e = ground (arith, e)

function_map_found :
    (h : Mapping) (p v : ℕ)
    → h p ≡ some v
    → ((iterator (h p) p == 0) ≡ false) × (value (h (iterator (h p) p - 1)) ≡ v)
function_map_found h p v e =
    let here : iterator (h p) p ≡ suc p = ap (λ o. iterator o p) e in
    let back : suc p - 1 ≡ p = omega arith in
    let key : (suc p == 0) ≡ false = ground arith in simp (here, back, e, key) (refl, refl)

function_map_set :
    (h : Mapping) (p v w q : ℕ)
    → h p ≡ some w
    → update h (iterator (h p) p - 1) (some v) q ≡ (if p == q then some v else h q)
function_map_set h p v w q e =
    let here : iterator (h p) p ≡ suc p = ap (λ o. iterator o p) e in
    let back : suc p - 1 ≡ p = omega arith in simp (here, back) refl

function_map_put :
    (h : Mapping) (p v q : ℕ) → update h (suc p - 1) (some v) q ≡ (if p == q then some v else h q)
function_map_put h p v q = let back : suc p - 1 ≡ p = omega arith in simp (back) refl

abbrev function_map_laws : PtrMapLaws function_map
function_map_laws = record {
  find = λ h. h;
  find-init = λ p. refl;
  get-missing = function_map_missing;
  get-found = function_map_found;
  find-put = λ h p v q n. function_map_put h p v q;
  find-set = function_map_set;
}

-- The next address, and which addresses below it are in use.
abbrev Heap : Type 0
Heap = ℕ × (ℕ → Bool)

abbrev owned : Heap → ℕ → Bool
owned a p = ltb p a.0 && a.1 p

abbrev bump_heap : Libc Heap
bump_heap = record {
  malloc = λ n a. (some a.0, (a.0 + suc n, update a.1 a.0 true));
  free = λ o a. elim o [
    | none ↦ some a
    | some p ↦ if owned a p then some (a.0, update a.1 p false) else none
  ];
}

bump_fresh : (n p : ℕ) (a b : Heap) → bump_heap.malloc n a ≡ (some p, b) → owned a p ≡ false
bump_fresh n p a b e = let here : a.0 ≡ p = ap (λ r. value r.0) e in ground (arith, here)

bump_owned : (n p : ℕ) (a b : Heap) → bump_heap.malloc n a ≡ (some p, b) → owned b p ≡ true
bump_owned n p a b e =
    let here : a.0 ≡ p = ap (λ r. value r.0) e in
    subst (λ c. owned c p ≡ true) (ap (λ r. r.1) e) (ground (arith, here))

bump_keeps :
    (n : ℕ) (o : Option ℕ) (a b : Heap) (q : ℕ)
    → bump_heap.malloc n a ≡ (o, b)
    → owned a q ≡ true
    → owned b q ≡ true
bump_keeps n o a b q e h = subst (λ c. owned c q ≡ true) (ap (λ r. r.1) e) (ground (arith, h))

bump_frees :
    (p : ℕ) (a : Heap)
    → owned a p ≡ true
    → (b : Heap) × (bump_heap.free (some p) a ≡ some b)
      × ((q : ℕ) → p ≢ q → owned a q ≡ true → owned b q ≡ true)
bump_frees p a h = ((a.0, update a.1 p false), simp (h) refl, λ q d g. ground (arith, d, g))

abbrev bump_heap_laws : LibcLaws bump_heap
bump_heap_laws = record {
  owned = owned;
  malloc-fresh = bump_fresh;
  malloc-owned = bump_owned;
  malloc-keeps = bump_keeps;
  free-owned = bump_frees;
  free-null = λ a. refl;
}

abbrev unused : Tracker Mapping Heap
unused = record {
  num_mallocs = 0;
  num_frees = 0;
  bytes_malloced = 0;
  bytes_freed = 0;
  malloc_map = λ _. none;
  heap = (4096, λ _. false);
  memory = λ _. 7;
}

-- The tracker after a request for 3 bytes.
abbrev one_block : Tracker Mapping Heap
one_block = record unused {
  num_mallocs = 1;
  bytes_malloced = 3;
  malloc_map = update (λ _. none) 4096 (some 3);
  heap = (4100, update (λ _. false) 4096 true);
}

abbrev block : Blocks
block = (4096, 3) ∷ []

unused-Tracks : Tracks (λ h. h) unused []
unused-Tracks = record {
  held = λ p n e. absurd (cc);
  sized = λ p n e. absurd (cc);
  dead = λ p e. tt;
  apart = tt;
  calls = refl;
  bytes = refl;
  bounded = omega arith;
}

one_block-IsDead : (p : ℕ) → size_at block p ≡ none → IsDead (one_block.malloc_map p)
one_block-IsDead p e =
    let away : one_block.malloc_map p ≡ none = ground (arith, e) in subst IsDead (sym away) tt

one_block-Tracks : Tracks (λ h. h) one_block block
one_block-Tracks = record {
  held = λ p n e. ground (arith, e);
  sized = λ p n e. ground (arith, e);
  dead = one_block-IsDead;
  apart = (refl, tt);
  calls = omega arith;
  bytes = omega arith;
  bounded = omega arith;
}

malloc369-Allocates_example :
    Refuses function_map function_map_laws bump_heap 5 one_block block
    ⊎ (Starves function_map function_map_laws bump_heap 5 one_block block
        ⊎ Allocates function_map function_map_laws bump_heap 5 one_block block)
malloc369-Allocates_example =
    malloc369-Allocates function_map function_map_laws bump_heap 5 one_block block one_block-Tracks
      (omega arith) (omega arith)
      (λ p a e. (let here : 4100 ≡ p = ap (λ r. value r.0) e in ground (arith, here), refl))

free369-Frees_example :
    (t : Tracker Mapping Heap) × (free369 function_map bump_heap (some 4096) one_block
      ≡ some (tt, t))
    × (t.heap ≡ (4100, update one_block.heap.1 4096 false))
    × Frees function_map function_map_laws bump_heap 4096 3 one_block block t
free369-Frees_example =
    free369-Frees function_map function_map_laws bump_heap 4096 3
      (4100, update one_block.heap.1 4096 false) one_block block one_block-Tracks refl refl

malloc369-empty_aborts_example :
    (t : Tracker Mapping Heap) × (malloc369 function_map bump_heap 0 one_block
      ≡ some (some 4100, t))
    × (free369 function_map bump_heap (some 4100) t ≡ none)
malloc369-empty_aborts_example =
    malloc369-empty_aborts function_map function_map_laws bump_heap 4100
      (4101, update one_block.heap.1 4100 true) one_block (omega arith) (omega arith) refl refl

abbrev calls : List Call
calls = alloc 3 ∷ alloc 5 ∷ free_nth 1 ∷ alloc 4 ∷ free_nth 9 ∷ []

session-Counts_example :
    (live : Blocks) × (t : Tracker Mapping Heap) × (session function_map bump_heap calls unused
      ≡ some (live, t))
    × (get_current_num_mallocs function_map bump_heap t ≡ some (length live, t))
    × (get_current_bytes_malloced function_map bump_heap t ≡ some (total live, t))
    × ((mallocs bytes : ℕ)
        → is_leak_free function_map bump_heap (pos mallocs) (pos bytes) t
          ≡ some (leb (total live) bytes && leb (length live) mallocs, t))
session-Counts_example =
    session-Counts function_map function_map_laws bump_heap bump_heap_laws calls unused
      (λ p h. refl) (omega arith, (omega arith, (omega arith, tt))) (omega arith)

abbrev blocks_of : Option (Blocks × Tracker Mapping Heap) → Blocks
blocks_of none = []
blocks_of (some (live, t)) = live

-- Two blocks remain, of 4 and of 5 bytes.
session_runs : blocks_of (session function_map bump_heap calls unused) ≡ (4106, 4) ∷ (4100, 5) ∷ []
unfolding session run call malloc369 track count_malloc put_ptr free369 release init_csc369_malloc
session_runs = refl
