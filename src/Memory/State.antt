-- ===== src/Memory/State.antt =====
-- sim.h, coremap.h, pagetable.h: the data of the simulated memory, and the accessors of page table entries.
use os_library.Base.{
  ℕ, Option, none, some, Bool, false, List, ◌==◌, if◌then◌else◌, get_elem?, set, update,
}
use os_library.Base.Int.{ℤ}
pub use os_library.Base.Faulting.{
  Faulting, and_then, ◌>>=◌, ◌>>◌, pure, get, modify, fault, assert_that, from_option,
}

abbrev pub simpagesize : ℕ
simpagesize = 16

-- `struct pt_entry_s`
pub record Pte : Type 0 where
  pub valid_bit : ℕ
  pub referenced_bit : ℕ
  pub dirty_bit : ℕ
  pub swap_on : ℕ
  pub frame_number : ℤ
  pub swap_offset : ℤ

-- `struct frame`. A page table entry is known by its address; the list entry belongs to a policy that keeps lists.
pub record Frame : Type 0 where
  pub in_use : Bool
  pub pte : Option ℕ

-- `struct bitmap` of swap.c
pub record SwapMap : Type 0 where
  pub nbits : ℕ
  pub words : List ℕ

-- The globals: `P` is the state of the policy in use, `F` that of the swap file. The page table has three levels of
-- arrays, `none` where the pointer is NULL; entries are found by their address in `ptes`. `physmem` has `memsize *
-- SIMPAGESIZE` bytes; an access by address outside of them faults.
pub record Memory (P F : Type 0) : Type 0 where
  pub memsize : ℕ
  pub coremap : List Frame
  pub ptes : ℕ → Option Pte
  pub next_pte : ℕ
  pub top_level_arr : ℕ → Option (ℕ → Option (ℕ → Option ℕ))
  pub physmem : ℕ → ℕ
  pub swapmap : SwapMap
  pub swapfile : F
  pub hit_count : ℕ
  pub miss_count : ℕ
  pub ref_count : ℕ
  pub evict_clean_count : ℕ
  pub evict_dirty_count : ℕ
  pub policy : P

-- A call on the memory.
abbrev pub M : Type 0 → Type 0 → Type 0 → Type 0
M P F A = Faulting (Memory P F) A

-- coremap[frame]
abbrev pub frame_at : {P F : Type 0} → ℕ → M P F Frame
frame_at i s = from_option (get_elem? s.coremap i) s

abbrev pub put_frame : {P F : Type 0} → ℕ → Frame → M P F (Unit {0})
put_frame i f = modify (λ s. record s { coremap = set s.coremap i f })

-- What a pointer to a page table entry points at.
abbrev pub pte_at : {P F : Type 0} → Option ℕ → M P F Pte
pte_at none s = none
pte_at (some p) s = from_option (s.ptes p) s

abbrev pub modify_pte : {P F : Type 0} → Option ℕ → (Pte → Pte) → M P F (Unit {0})
modify_pte none f s = none
modify_pte (some p) f s =
    and_then (from_option (s.ptes p) s)
      (λ e. modify (λ t. record t { ptes = update t.ptes p (some (f e)) }))

-- `is_valid`
unfoldable pub is_valid : {P F : Type 0} → Option ℕ → M P F Bool
is_valid none = pure false
is_valid (some p) = do e ← pte_at (some p); pure (e.valid_bit == 1)

-- `is_dirty`
unfoldable pub is_dirty : {P F : Type 0} → Option ℕ → M P F Bool
is_dirty none = pure false
is_dirty (some p) = do e ← pte_at (some p); pure (e.dirty_bit == 1)

-- `get_referenced`
unfoldable pub get_referenced : {P F : Type 0} → Option ℕ → M P F Bool
get_referenced p = do e ← pte_at p; pure (e.referenced_bit == 1)

-- `set_referenced`
unfoldable pub set_referenced : {P F : Type 0} → Option ℕ → Bool → M P F (Unit {0})
set_referenced p val = modify_pte p (λ e. record e { referenced_bit = if val then 1 else 0 })
