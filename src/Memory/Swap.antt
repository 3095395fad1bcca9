-- ===== src/Memory/Swap.antt =====
-- swap.c: pages of the swap file, and their allocation by the bitmap.
use os_library.Base.{ℕ, ◌+◌, ◌-◌, ◌*◌, ◌/◌, ◌%◌, ◌^◌, some, List, if◌then◌else◌, not}
use os_library.Base.Int.{ℤ, pos, negsuc, eq_ℤ, to_signed}
use os_library.Base.Bytes.{bytes_from, store_bytes}
use os_library.Bitmap.{AllocResult, allocated, full, alloc_loop}
use os_library.Memory.State.{
  simpagesize, SwapMap, M, ◌>>=◌, ◌>>◌, pure, get, modify, fault, assert_that,
}

-- The system calls on the swap file, with the file's state.
pub record SwapFile (F : Type 0) : Type 0 where
  pub lseek : ℤ → F → ℤ × F
  -- The count that `read` answers, and the bytes that it stores.
  pub read : ℕ → F → (ℤ × List ℕ) × F
  pub write : List ℕ → F → ℤ × F
  pub minus_errno : F → ℤ

-- (off_t)-1
abbrev pub invalid_swap : ℤ
invalid_swap = negsuc 0

-- `nwords_for_nbits`, on `size_t`.
unfoldable pub nwords_for_nbits : ℕ → ℕ
nwords_for_nbits nbits = (nbits + 64 + 2 ^ 64 - 1) % 2 ^ 64 / 64

-- `bitmap_alloc` of swap.c, whose loops are those of the file system's.
unfoldable pub swap_bitmap_alloc : SwapMap → AllocResult
swap_bitmap_alloc b = alloc_loop (nwords_for_nbits b.nbits) b.nbits 0 b.words

-- frame * SIMPAGESIZE, for an unsigned `frame`.
abbrev pub frame_ptr : ℕ → ℕ
frame_ptr frame = frame * simpagesize % 2 ^ 32

module _ {P F : Type 0} (file : SwapFile F) where
  abbrev pub seek_to : ℤ → M P F ℤ
  seek_to offset s =
      some
        ((file.lseek offset s.swapfile).0, record s { swapfile = (file.lseek offset s.swapfile).1 })

  abbrev pub read_page : ℕ → M P F ℤ
  read_page a s =
      let r = file.read simpagesize s.swapfile in
      some (r.0.0, record s { swapfile = r.1; physmem = store_bytes r.0.1 a s.physmem })

  abbrev pub write_page : ℕ → M P F ℤ
  write_page a s =
      let r = file.write (bytes_from simpagesize a s.physmem) s.swapfile in
      some (r.0, record s { swapfile = r.1 })

  -- `swap_pagein` after the seek.
  unfoldable pub pagein_read : ℕ → M P F ℤ
  pagein_read frame = do
    bytes_read ← read_page (frame_ptr frame)
    if eq_ℤ bytes_read (pos simpagesize) then pure (pos 0) else pure bytes_read

  -- `swap_pagein`
  unfoldable pub swap_pagein : ℕ → ℤ → M P F ℤ
  swap_pagein frame offset = do
    assert_that (not (eq_ℤ offset invalid_swap))
    position ← seek_to offset
    if eq_ℤ position offset then pagein_read frame else (do
      assert_that (eq_ℤ position (negsuc 0))
      s ← get
      pure (file.minus_errno s.swapfile))

  -- `swap_pageout` when it has a place in the file.
  unfoldable pub pageout_at : ℕ → ℤ → M P F ℤ
  pageout_at frame offset = do
    assert_that (not (eq_ℤ offset invalid_swap))
    position ← seek_to offset
    if eq_ℤ position offset
        then (do
          bytes_written ← write_page (frame_ptr frame)
          if eq_ℤ bytes_written (pos simpagesize) then pure offset else pure invalid_swap)
        else (do assert_that (eq_ℤ position (negsuc 0)); pure invalid_swap)

  -- `swap_pageout` when the page has no place yet, with what the bitmap gives.
  unfoldable pub pageout_new : ℕ → AllocResult → M P F ℤ
  pageout_new frame full = pure invalid_swap
  pageout_new frame AllocResult.fault = fault
  pageout_new frame (allocated idx words') = do
    modify (λ s. record s { swapmap = record { nbits = s.swapmap.nbits; words = words' } })
    pageout_at frame (to_signed 64 (idx * simpagesize))

  -- `swap_pageout`
  unfoldable pub swap_pageout : ℕ → ℤ → M P F ℤ
  swap_pageout frame offset = do
    s ← get
    if eq_ℤ offset invalid_swap
        then pageout_new frame (swap_bitmap_alloc s.swapmap)
        else pageout_at frame offset
