-- ===== src/Tracking/Allocator.antt =====
-- malloc369.c: `malloc` and `free` with counts of calls and bytes, and a map of the blocks that were handed out.
use Prim.Native.Nat.{bit_and, bit_or}
use os_library.Base.{
  ℕ, suc, ◌+◌, ◌-◌, ◌%◌, ◌^◌, Option, none, some, Bool, true, false, not, ◌==◌, ltb, leb,
  if◌then◌else◌,
}
use os_library.Base.Int.{ℤ, pos, negsuc}
use os_library.Base.Bytes.{fill_bytes}
use os_library.Base.Faulting.{
  Faulting, and_then, ◌>>=◌, ◌>>◌, pure, get, modify, assert_that, from_option,
}

-- MALLOC369_MAX
abbrev pub malloc369_max : ℕ
malloc369_max = 2 ^ 31

-- FREED
abbrev pub freed : ℕ
freed = 2 ^ 63

-- The operations of khash on a map from addresses to sizes: `kh_put` answers an iterator, the number that it stores in
-- `ret`, and the map after it.
pub record PtrMap (H : Type 0) : Type 0 where
  pub kh_init : H
  pub kh_put : ℕ → H → ℕ × ℤ × H
  pub kh_get : ℕ → H → ℕ
  pub kh_end : H → ℕ
  pub kh_value : H → ℕ → ℕ
  pub set_kh_value : ℕ → ℕ → H → H

-- `malloc` and `free` of the C library on a heap `A`: NULL is `none`, and `free` may abort.
pub record Libc (A : Type 0) : Type 0 where
  pub malloc : ℕ → A → Option ℕ × A
  pub free : Option ℕ → A → Option A

-- The globals, the heap of the C library, and the bytes of memory.
pub record Tracker (H A : Type 0) : Type 0 where
  pub num_mallocs : ℕ
  pub num_frees : ℕ
  pub bytes_malloced : ℕ
  pub bytes_freed : ℕ
  pub malloc_map : H
  pub heap : A
  pub memory : ℕ → ℕ

-- The sum of two numbers as a `long`, whose overflow is a fault.
abbrev pub add_long : ℕ → ℕ → Option ℕ
add_long x n = if ltb (x + n) (2 ^ 63) then some (x + n) else none

abbrev pub is_negative : ℤ → Bool
is_negative (pos n) = false
is_negative (negsuc n) = true

-- Whether a count is above a tolerance.
abbrev pub is_above : ℕ → ℤ → Bool
is_above n (pos tolerance) = ltb tolerance n
is_above n (negsuc k) = true

module _ {H A : Type 0} (ptrmap : PtrMap H) (libc : Libc A) where
  -- `malloc` and `free` of the C library
  abbrev pub c_malloc : ℕ → Faulting (Tracker H A) (Option ℕ)
  c_malloc size s = let r = libc.malloc size s.heap in some (r.0, record s { heap = r.1 })

  abbrev pub c_free : Option ℕ → Faulting (Tracker H A) (Unit {0})
  c_free ptr s =
      and_then (from_option (libc.free ptr s.heap) s) (λ a t. some (tt, record t { heap = a }))

  unfoldable pub count_malloc : ℕ → Faulting (Tracker H A) (Unit {0})
  count_malloc size = do
    s ← get
    mallocs ← from_option (add_long s.num_mallocs 1)
    bytes ← from_option (add_long s.bytes_malloced size)
    modify (λ t. record t { num_mallocs = mallocs; bytes_malloced = bytes })

  -- The pointer is recorded for `free369`.
  unfoldable pub put_ptr : ℕ → ℕ → Faulting (Tracker H A) (Unit {0})
  put_ptr m size s =
      let put = ptrmap.kh_put m s.malloc_map in
      (do
        assert_that (not (is_negative put.1))
        modify (λ t. record t { malloc_map = ptrmap.set_kh_value put.0 size put.2 }))
        s

  unfoldable pub track : ℕ → Option ℕ → Faulting (Tracker H A) (Option ℕ)
  track size none = pure none
  track size (some m) = do count_malloc size; put_ptr m size; pure (some m)

  -- `malloc369`
  unfoldable pub malloc369 : ℕ → Faulting (Tracker H A) (Option ℕ)
  malloc369 size s =
      (if leb malloc369_max size
          then pure none
          else if ltb malloc369_max ((s.bytes_malloced + size) % 2 ^ 64)
          then pure none
          else (do m ← c_malloc size; track size m))
        s

  -- The end of `free369`, for a block that is in the map and was not freed yet.
  unfoldable pub release : ℕ → ℕ → ℕ → Faulting (Tracker H A) (Unit {0})
  release ptr k size = do
    s ← get
    assert_that (not (size == 0))
    assert_that (ltb size (2 ^ 63 - 1))
    assert_that (ltb s.num_frees s.num_mallocs)
    assert_that (leb (s.bytes_freed + size) s.bytes_malloced)
    modify (λ t. record t {
      num_frees = suc t.num_frees;
      bytes_freed = t.bytes_freed + size;
      memory = fill_bytes size 238 ptr t.memory;
    })
    c_free (some ptr)
    modify (λ t. record t { malloc_map = ptrmap.set_kh_value k (bit_or size freed) t.malloc_map })

  -- `free369`
  unfoldable pub free369 : Option ℕ → Faulting (Tracker H A) (Unit {0})
  free369 none s = c_free none s
  free369 (some ptr) s =
      let k = ptrmap.kh_get ptr s.malloc_map in
      let size = ptrmap.kh_value s.malloc_map k in
      (if k == ptrmap.kh_end s.malloc_map
          then c_free (some ptr)
          else if not (bit_and size freed == 0)
          then c_free (some ptr)
          else release ptr k size)
        s

  -- `init_csc369_malloc`, but for the flag that says whether warnings are printed.
  unfoldable pub init_csc369_malloc : Faulting (Tracker H A) (Unit {0})
  init_csc369_malloc = modify (λ s. record s {
    malloc_map = ptrmap.kh_init;
    num_mallocs = 0;
    bytes_malloced = 0;
    num_frees = 0;
    bytes_freed = 0;
  })

  -- `get_current_bytes_malloced`
  unfoldable pub get_current_bytes_malloced : Faulting (Tracker H A) ℕ
  get_current_bytes_malloced = do
    s ← get
    assert_that (leb s.bytes_freed s.bytes_malloced)
    pure (s.bytes_malloced - s.bytes_freed)

  -- `get_current_num_mallocs`
  unfoldable pub get_current_num_mallocs : Faulting (Tracker H A) ℕ
  get_current_num_mallocs = do
    s ← get
    assert_that (leb s.num_frees s.num_mallocs)
    pure (s.num_mallocs - s.num_frees)

  -- `get_num_mallocs`
  unfoldable get_num_mallocs : Faulting (Tracker H A) ℕ
  get_num_mallocs s = some (s.num_mallocs, s)

  -- `get_bytes_malloced`
  unfoldable get_bytes_malloced : Faulting (Tracker H A) ℕ
  get_bytes_malloced s = some (s.bytes_malloced, s)

  -- `is_leak_free`
  unfoldable pub is_leak_free : ℤ → ℤ → Faulting (Tracker H A) Bool
  is_leak_free num_mallocs_tol num_bytes_tol = do
    bytes ← get_current_bytes_malloced
    if is_above bytes num_bytes_tol
        then pure false
        else (do mallocs ← get_current_num_mallocs; pure (not (is_above mallocs num_mallocs_tol)))
