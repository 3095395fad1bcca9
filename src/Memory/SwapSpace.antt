-- ===== src/Memory/SwapSpace.antt =====
-- swap.c: `swap_pageout` finds a place in the swap file that is not taken.
use os_library.Base.{
  ℕ, ◌-◌, ◌*◌, ◌%◌, ◌^◌, ◌≤◌, ◌<◌, ◌≡◌, refl, sym, ap, subst, ◌∙◌, Option, none, some, Bool, true,
  false, List, arith, ◌==◌, ltb, if◌then◌else◌, ◌⊎◌, inl, inr, Bool-cases,
}
use os_library.Base.Int.{ℤ, pos, negsuc, eq_ℤ, to_signed}
use os_library.Bitmap.{AllocResult, allocated, full}
use os_library.Bitmap.Form.{bit, IsBitmap}
use os_library.Bitmap.Alloc.{Allocates, alloc_loop-Allocates, words_needed}
use os_library.Base.Bytes.{bytes_from}
use os_library.Memory.State.{Memory, SwapMap, simpagesize}
use os_library.Memory.Swap.{
  SwapFile, invalid_swap, nwords_for_nbits, swap_bitmap_alloc, frame_ptr, pageout_at, pageout_new,
  swap_pageout,
}

-- `lseek` goes where it is told or answers -1.
abbrev pub Seeks : {F : Type 0} → SwapFile F → Type 0
Seeks {F} file = (o : ℤ) (f : F) → ((file.lseek o f).0 ≡ o) ⊎ ((file.lseek o f).0 ≡ negsuc 0)

swap_bitmap_alloc-Allocates :
    (b : SwapMap) → IsBitmap b.words b.nbits → Allocates b.words b.nbits (swap_bitmap_alloc b)
unfolding swap_bitmap_alloc nwords_for_nbits
swap_bitmap_alloc-Allocates b ok =
    let rounded = words_needed b.nbits ok.small in
    alloc_loop-Allocates (nwords_for_nbits b.nbits) 0 b.words b.nbits ok (omega (arith, ok.small))
      (λ j l. absurd (omega arith))

to_signed-small : (n : ℕ) → n < 2 ^ 63 → to_signed 64 n ≡ pos n
to_signed-small n h =
    let low : n % 2 ^ 64 ≡ n = omega arith in
    ap (λ m. if ltb m (2 ^ 63) then pos m else negsuc (2 ^ 64 - 1 - m)) low ∙ ground arith

differ : false ≡ true → ⊥
differ h = ground arith

pub eq_ℤ-eq : (a b : ℤ) → eq_ℤ a b ≡ true → a ≡ b
eq_ℤ-eq (pos a) (pos b) h = ap pos (ground arith)
eq_ℤ-eq (negsuc a) (negsuc b) h = ap negsuc (ground arith)
eq_ℤ-eq (pos a) (negsuc b) h = absurd (ground arith)
eq_ℤ-eq (negsuc a) (pos b) h = absurd (ground arith)

pub eq_ℤ_refl : (a : ℤ) → eq_ℤ a a ≡ true
eq_ℤ_refl (pos a) = ground arith
eq_ℤ_refl (negsuc a) = ground arith

module _ {P F : Type 0} (file : SwapFile F) where
  -- Nothing but the swap file and its bitmap has changed.
  abbrev pub OnlySwap : Memory P F → Memory P F → Type 0
  OnlySwap s t = t ≡ record s { swapfile = t.swapfile; swapmap = t.swapmap }

  -- `lseek` goes to the offset, and `write` then takes the whole page of the frame.
  abbrev pub writes_page : ℕ → ℤ → Memory P F → Bool
  writes_page frame offset s =
      let sought = file.lseek offset s.swapfile in
      if eq_ℤ sought.0 offset
      then eq_ℤ (file.write (bytes_from simpagesize (frame_ptr frame) s.physmem) sought.1).0
          (pos simpagesize)
      else false

  -- What writing a page at a place in the file leaves.
  abbrev pub PageoutAt : ℕ → Memory P F → ℤ → Option (ℤ × Memory P F) → Type 0
  PageoutAt frame s offset none = ⊥
  PageoutAt frame s offset (some (r, t)) =
      (t ≡ record s { swapfile = t.swapfile })
      × (r ≡ (if writes_page frame offset s then offset else invalid_swap))

  pageout_at-PageoutAt :
      (frame : ℕ) (offset : ℤ) (s : Memory P F)
      → Seeks file
      → eq_ℤ offset invalid_swap ≡ false
      → PageoutAt frame s offset (pageout_at file frame offset s)
  unfolding pageout_at
  pageout_at-PageoutAt frame offset s seeks h =
      elim (Bool-cases (eq_ℤ (file.lseek offset s.swapfile).0 offset)) [
        | inl z ↦
            elim (Bool-cases (
              eq_ℤ
                (file.write (bytes_from simpagesize (frame_ptr frame) s.physmem)
                  (file.lseek offset s.swapfile).1).0
                (pos simpagesize))) [
                  | inl y ↦ rw (h, z, y) (refl, simp (z, y) refl)
                  | inr y ↦ rw (h, z, y) (refl, simp (z, y) refl)
                ]
        | inr z ↦ elim (seeks offset s.swapfile) [
          | inl e ↦ absurd (differ (sym z ∙ ap (λ o. eq_ℤ o offset) e ∙ eq_ℤ_refl offset))
          | inr e ↦
              let failed : eq_ℤ (file.lseek offset s.swapfile).0 (negsuc 0) ≡ true =
                ap (λ o. eq_ℤ o (negsuc 0)) e in
              rw (h, z, failed) (refl, simp (z) refl)
        ]
      ]

  -- The page got place `idx`, which was free and is taken now; other places are as before.
  pub record Placed (frame : ℕ) (s t : Memory P F) (r : ℤ) : Type 0 where
    pub idx : ℕ
    pub in_range : idx < s.swapmap.nbits
    pub was_free : bit s.swapmap.words idx ≡ 0
    pub taken : (j : ℕ) → bit t.swapmap.words j ≡ (if idx == j then 1 else bit s.swapmap.words j)
    pub nbits_same : t.swapmap.nbits ≡ s.swapmap.nbits
    pub well_formed : IsBitmap t.swapmap.words t.swapmap.nbits
    pub answer : r ≡ (
        if writes_page frame (pos (idx * simpagesize)) s
        then pos (idx * simpagesize)
        else invalid_swap)

  -- What `swap_pageout` promises for a page that has no place in the file.
  abbrev pub Places : ℕ → Memory P F → Option (ℤ × Memory P F) → Type 0
  Places frame s none = ⊥
  Places frame s (some (r, t)) =
      OnlySwap s t
      × (((t ≡ s)
            × (r ≡ invalid_swap)
            × ((j : ℕ) → j < s.swapmap.nbits → bit s.swapmap.words j ≡ 1))
          ⊎ Placed frame s t r)

  placed_at :
      (frame : ℕ) (s : Memory P F) (idx : ℕ) (words' : List ℕ) (r : Option (ℤ × Memory P F))
      → Allocates s.swapmap.words s.swapmap.nbits (allocated idx words')
      → PageoutAt frame
          (record s { swapmap = record { nbits = s.swapmap.nbits; words = words' } })
          (pos (idx * simpagesize))
          r
      → Places frame s r
  placed_at frame s idx words' none a h = h
  placed_at frame s idx words' (some (r, t)) a h =
      let map_now : t.swapmap ≡ record { nbits = s.swapmap.nbits; words = words' } =
        ap (λ m. m.swapmap) h.0 in
      (
        h.0 ∙ ap {A = SwapMap} (λ m. record s { swapfile = t.swapfile; swapmap = m }) (sym map_now),
        inr (record {
          idx = idx;
          in_range = a.0;
          was_free = a.1;
          taken = λ j. ap (λ m. bit m.words j) map_now ∙ a.3 j;
          nbits_same = ap (λ m. m.nbits) map_now;
          well_formed = subst (λ m. IsBitmap m.words m.nbits) (sym map_now) a.4;
          answer = h.1;
        }),
      )

  pageout_new-Places :
      (frame : ℕ) (s : Memory P F) (r : AllocResult)
      → Seeks file
      → s.swapmap.nbits ≤ 2 ^ 31
      → Allocates s.swapmap.words s.swapmap.nbits r
      → Places frame s (pageout_new file frame r s)
  unfolding pageout_new
  pageout_new-Places frame s full seeks small a = (refl, inl (refl, refl, a))
  pageout_new-Places frame s AllocResult.fault seeks small a = absurd a
  pageout_new-Places frame s (allocated idx words') seeks small a =
      let t = record s { swapmap = record { nbits = s.swapmap.nbits; words = words' } } in
      let offset : to_signed 64 (idx * simpagesize) ≡ pos (idx * simpagesize) =
        to_signed-small (idx * simpagesize) (omega (arith, a.0)) in
      placed_at frame s idx words' (pageout_at file frame (to_signed 64 (idx * simpagesize)) t) a (
        subst
          (λ o. PageoutAt frame t o (pageout_at file frame (to_signed 64 (idx * simpagesize)) t))
          offset
          (pageout_at-PageoutAt frame (to_signed 64 (idx * simpagesize)) t seeks
            (ap (λ o. eq_ℤ o invalid_swap) offset)))

  -- For a page with no place in the swap file, `swap_pageout` succeeds when the bitmap is well-formed and `lseek` goes
  -- where it is told or answers -1. Either every place is taken, the answer is INVALID_SWAP and nothing changes, or the
  -- page gets a place that was free: only that place becomes taken, only the file and its bitmap change, and the answer
  -- is the place's offset when `lseek` went there and `write` then took the whole page of the frame, and INVALID_SWAP
  -- otherwise.
  pub swap_pageout-Places :
      (frame : ℕ) (s : Memory P F)
      → Seeks file
      → IsBitmap s.swapmap.words s.swapmap.nbits
      → Places frame s (swap_pageout file frame invalid_swap s)
  unfolding swap_pageout
  swap_pageout-Places frame s seeks ok =
      pageout_new-Places frame s (swap_bitmap_alloc s.swapmap) seeks ok.small
        (swap_bitmap_alloc-Allocates s.swapmap ok)
