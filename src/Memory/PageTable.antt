-- ===== src/Memory/PageTable.antt =====
-- pagetable.c and coremap.c: finding the frame of a virtual address.
use os_library.Base.{
  ℕ, zero, suc, ◌*◌, ◌/◌, ◌%◌, ◌^◌, Option, none, some, Bool, true, List, [], ◌∷◌, ◌==◌,
  if◌then◌else◌, not, ◌||◌, update,
}
use os_library.Base.Int.{ℤ, pos, negsuc, eq_ℤ, to_signed, to_unsigned}
use os_library.Memory.State.{
  simpagesize, Pte, Frame, M, ◌>>=◌, ◌>>◌, pure, get, modify, fault, assert_that, frame_at,
  put_frame, pte_at, modify_pte,
}
use os_library.Memory.Swap.{SwapFile, invalid_swap, swap_pagein, swap_pageout}
use os_library.Memory.Policies.{Policy}

-- What fresh memory of `malloc369` holds where the page table uses it.
pub record Fresh : Type 0 where
  pub second_level : ℕ → Option (ℕ → Option ℕ)
  pub third_level : ℕ → Option ℕ
  pub frame_number : ℤ

-- The value that marks an entry with no place in the swap file.
abbrev pub no_offset : ℤ
no_offset = negsuc 299

-- The conversion of an `off_t` to `int`.
abbrev pub to_int : ℤ → ℤ
to_int z = to_signed 32 (to_unsigned 32 z)

-- `init_pagetable`
unfoldable pub init_pagetable : {P F : Type 0} → M P F (Unit {0})
init_pagetable = modify (λ s. record s { top_level_arr = λ _. none })

-- The first frame from `i` on that is not in use.
unfoldable pub free_frame : ℕ → List Frame → Option ℕ
free_frame i [] = none
free_frame i (f ∷ frames) =
    let rest = free_frame (suc i) frames in if f.in_use then rest else some i

-- `n` zero bytes from an address on.
abbrev pub clear_bytes : ℕ → ℕ → (ℕ → ℕ) → ℕ → ℕ
clear_bytes zero a mem = mem
clear_bytes (suc n) a mem = clear_bytes n (suc a) (λ j. if a == j then 0 else mem j)

-- `init_frame`
unfoldable pub init_frame : {P F : Type 0} → ℕ → M P F (Unit {0})
init_frame frame =
    modify (λ s. record s { physmem = clear_bytes simpagesize (frame * simpagesize) s.physmem })

-- type == 'S' || type == 'M'
abbrev pub is_store : ℕ → Bool
is_store type = (type == 83) || (type == 77)

abbrev pub vpn_of : ℕ → ℕ
vpn_of vaddr = vaddr / 2 ^ 12 % 2 ^ 36

abbrev pub vpn1_of : ℕ → ℕ
vpn1_of vaddr = vpn_of vaddr / 2 ^ 24 % 2 ^ 12

abbrev pub vpn2_of : ℕ → ℕ
vpn2_of vaddr = vpn_of vaddr / 2 ^ 12 % 2 ^ 12

abbrev pub vpn3_of : ℕ → ℕ
vpn3_of vaddr = vpn_of vaddr % 2 ^ 12

module _ {P F : Type 0} (file : SwapFile F) where
  -- The three ends of `handle_evict`.
  unfoldable pub evict_dirty : ℕ → Pte → M P F (Unit {0})
  evict_dirty p e = do
    modify_pte (some p) (λ t. record t { dirty_bit = 0 })
    modify (λ s. record s { evict_dirty_count = suc s.evict_dirty_count })
    if eq_ℤ e.swap_offset no_offset
        then (do
          offset ← swap_pageout file (to_unsigned 32 e.frame_number) invalid_swap
          modify_pte (some p) (λ t. record t { swap_offset = to_int offset }))
        else (do written ← swap_pageout file (to_unsigned 32 e.frame_number) e.swap_offset; pure tt)

  -- `handle_evict`
  unfoldable pub handle_evict : ℕ → M P F (Unit {0})
  handle_evict p = do
    e ← pte_at (some p)
    modify_pte (some p) (λ t. record t { valid_bit = 0; swap_on = 1; frame_number = negsuc 0 })
    if e.dirty_bit == 0
        then modify (λ s. record s { evict_clean_count = suc s.evict_clean_count })
        else evict_dirty p e

  module _ (policy : Policy P F) where
    unfoldable pub evict_frame : M P F ℕ
    evict_frame = do
      frame ← policy.evict_func
      f ← frame_at frame
      elim f.pte [ none ↦ fault | some victim ↦ (do handle_evict victim; pure frame) ]

    unfoldable pub choose_frame : Option ℕ → M P F ℕ
    choose_frame (some frame) = pure frame
    choose_frame none = evict_frame

    -- `allocate_frame`
    unfoldable pub allocate_frame : ℕ → M P F ℕ
    allocate_frame p = do
      s ← get
      frame ← choose_frame (free_frame 0 s.coremap)
      put_frame frame (record { in_use = true; pte = some p })
      pure frame

    module _ (fresh : Fresh) where
      -- The new entry of the first reference to a page.
      abbrev pub new_pte : Pte
      new_pte = record {
        valid_bit = 1;
        referenced_bit = 0;
        dirty_bit = 1;
        swap_on = 0;
        frame_number = fresh.frame_number;
        swap_offset = no_offset;
      }

      -- A new entry and its frame.
      unfoldable pub first_reference : M P F (ℕ × ℕ)
      first_reference = do
        modify (λ s. record s { miss_count = suc s.miss_count })
        s ← get
        modify (λ t. record t {
          ptes = update t.ptes s.next_pte (some new_pte);
          next_pte = suc s.next_pte;
        })
        frame ← allocate_frame s.next_pte
        init_frame frame
        modify_pte (some s.next_pte) (λ e. record e { frame_number = pos frame })
        pure (s.next_pte, frame)

      abbrev pub put_entry :
          ℕ → ℕ → ℕ → ℕ → (ℕ → Option (ℕ → Option ℕ)) → (ℕ → Option ℕ) → M P F (Unit {0})
      put_entry v1 v2 v3 p second third = modify λ s. record s {
        top_level_arr =
            update s.top_level_arr v1 (some (update second v2 (some (update third v3 (some p)))));
      }

      -- The page is in memory, or on swap.
      unfoldable pub known_page : ℕ → ℕ → M P F ℤ
      known_page p type = do
        e ← pte_at (some p)
        if e.valid_bit == 1
            then (do
              assert_that (e.swap_on == 0)
              assert_that (not (eq_ℤ e.frame_number (negsuc 0)))
              modify (λ s. record s { hit_count = suc s.hit_count })
              modify_pte (some p) (λ t. record t {
                dirty_bit = if is_store type then 1 else t.dirty_bit;
                valid_bit = 1;
              })
              pure e.frame_number)
            else (do
              assert_that (e.valid_bit == 0)
              assert_that (e.swap_on == 1)
              modify (λ s. record s { miss_count = suc s.miss_count })
              frame ← allocate_frame p
              now ← pte_at (some p)
              read ← swap_pagein file frame now.swap_offset
              modify_pte (some p) (λ t. record t { valid_bit = 1; swap_on = 0 })
              clean ← pte_at (some p)
              assert_that (clean.dirty_bit == 0)
              modify_pte (some p) (λ t. record t {
                dirty_bit = if is_store type then 1 else t.dirty_bit;
                frame_number = pos frame;
              })
              pure (pos frame))

      abbrev pub new_page : ℕ → (ℕ → Option (ℕ → Option ℕ)) → (ℕ → Option ℕ) → M P F ℤ
      new_page vaddr second third = do
        r ← first_reference
        put_entry (vpn1_of vaddr) (vpn2_of vaddr) (vpn3_of vaddr) r.0 second third
        pure (pos r.1)

      unfoldable pub third_step : ℕ → ℕ → (ℕ → Option (ℕ → Option ℕ)) → (ℕ → Option ℕ) → M P F ℤ
      third_step vaddr type second third = elim (third (vpn3_of vaddr)) [
        | none ↦ new_page vaddr second third
        | some p ↦ known_page p type
      ]

      unfoldable pub second_step : ℕ → ℕ → (ℕ → Option (ℕ → Option ℕ)) → M P F ℤ
      second_step vaddr type second = elim (second (vpn2_of vaddr)) [
        | none ↦ new_page vaddr second fresh.third_level
        | some third ↦ third_step vaddr type second third
      ]

      -- `find_frame_number`
      unfoldable pub find_frame_number : ℕ → ℕ → M P F ℤ
      find_frame_number vaddr type = do
        modify (λ s. record s { ref_count = suc s.ref_count })
        s ← get
        elim (s.top_level_arr (vpn1_of vaddr)) [
          | none ↦ new_page vaddr fresh.second_level fresh.third_level
          | some second ↦ second_step vaddr type second
        ]

      -- `find_physpage`: the address of the page in the simulated memory.
      unfoldable pub find_physpage : ℕ → ℕ → M P F ℕ
      find_physpage vaddr type = do
        frame ← find_frame_number vaddr type
        elim frame [
          | negsuc k ↦ fault
          | pos f ↦ (do policy.ref_func f vaddr; pure (f * simpagesize))
        ]
