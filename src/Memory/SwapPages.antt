-- ===== src/Memory/SwapPages.antt =====
-- swap.c: a page that went out to the swap file comes back as it was.
use os_library.Base.{
  ℕ, ◌≡◌, refl, sym, ap, subst, ◌∙◌, Option, none, some, true, List, arith, ◌⊎◌, inl, inr,
  Bool-cases, length,
}
use os_library.Base.Int.{ℤ, pos, negsuc, eq_ℤ}
use os_library.Bitmap.{AllocResult, allocated, full}
use os_library.Base.Bytes.{bytes_from, store_bytes, bytes_from-store_bytes, length-bytes_from}
use os_library.Memory.State.{Memory, simpagesize}
use os_library.Memory.Swap.{
  SwapFile, invalid_swap, swap_bitmap_alloc, frame_ptr, pageout_at, pageout_new, swap_pageout,
  pagein_read, swap_pagein,
}
use os_library.Memory.SwapSpace.{eq_ℤ-eq, eq_ℤ_refl}

-- When all bytes of a page were written at a place, a read at that place gives them back.
abbrev pub ReadsBack : {F : Type 0} → SwapFile F → Type 0
ReadsBack {F} file =
    (o : ℕ) (f : F) (bytes : List ℕ)
    → length bytes ≡ simpagesize
    → (file.lseek (pos o) f).0 ≡ pos o
    → (file.write bytes (file.lseek (pos o) f).1).0 ≡ pos simpagesize
    → ((file.lseek (pos o) (file.write bytes (file.lseek (pos o) f).1).1).0 ≡ pos o)
      × ((file.read simpagesize
            (file.lseek (pos o) (file.write bytes (file.lseek (pos o) f).1).1).1).0
          ≡ (pos simpagesize, bytes))

stored_page :
    (bytes stored : List ℕ) (a : ℕ) (mem : ℕ → ℕ)
    → length bytes ≡ simpagesize
    → stored ≡ bytes
    → bytes_from simpagesize a (store_bytes stored a mem) ≡ bytes
stored_page bytes stored a mem h e =
    ap (λ n. bytes_from n a (store_bytes stored a mem)) (sym h)
    ∙ ap (λ (xs : List ℕ). bytes_from (length bytes) a (store_bytes xs a mem)) e
    ∙ bytes_from-store_bytes bytes a mem

module _ {P F : Type 0} (file : SwapFile F) where
  -- The bytes of a frame.
  abbrev pub page : ℕ → Memory P F → List ℕ
  page frame s = bytes_from simpagesize (frame_ptr frame) s.physmem

  -- The page in `frame` was written whole at the place `r`.
  pub record Written (s : Memory P F) (frame : ℕ) (r : ℤ) (t : Memory P F) : Type 0 where
    pub found : (file.lseek r s.swapfile).0 ≡ r
    pub whole : (file.write (page frame s) (file.lseek r s.swapfile).1).0 ≡ pos simpagesize
    pub file_now : t.swapfile ≡ (file.write (page frame s) (file.lseek r s.swapfile).1).1

  abbrev WrittenPost : Memory P F → ℕ → Option (ℤ × Memory P F) → Type 0
  WrittenPost s frame none = Unit
  WrittenPost s frame (some (r, t)) = (r ≡ invalid_swap) ⊎ Written s frame r t

  pageout_at-WrittenPost :
      (frame : ℕ) (offset : ℤ) (s : Memory P F)
      → WrittenPost s frame (pageout_at file frame offset s)
  unfolding pageout_at
  pageout_at-WrittenPost frame offset s = elim (Bool-cases (eq_ℤ offset invalid_swap)) [
    | inl h ↦ rw (h) tt
    | inr h ↦ elim (Bool-cases (eq_ℤ (file.lseek offset s.swapfile).0 offset)) [
      | inl z ↦
          elim (Bool-cases (
            eq_ℤ (file.write (page frame s) (file.lseek offset s.swapfile).1).0
              (pos simpagesize))) [
                | inl y ↦
                    rw (h, z, y)
                      (inr (record {
                        found = eq_ℤ-eq (file.lseek offset s.swapfile).0 offset z;
                        whole =
                            eq_ℤ-eq (file.write (page frame s) (file.lseek offset s.swapfile).1).0
                              (pos simpagesize) y;
                        file_now = refl;
                      }))
                | inr y ↦ rw (h, z, y) (inl refl)
              ]
      | inr z ↦ elim (Bool-cases (eq_ℤ (file.lseek offset s.swapfile).0 (negsuc 0))) [
        | inl y ↦ rw (h, z, y) (inl refl)
        | inr y ↦ rw (h, z, y) tt
      ]
    ]
  ]

  written_before :
      (s t : Memory P F) (frame : ℕ) (r : Option (ℤ × Memory P F))
      → t.swapfile ≡ s.swapfile
      → t.physmem ≡ s.physmem
      → WrittenPost t frame r
      → WrittenPost s frame r
  written_before s t frame none e g h = h
  written_before s t frame (some (r, u)) e g (inl h) = inl h
  written_before s t frame (some (r, u)) e g (inr h) =
      let same : page frame t ≡ page frame s = ap (bytes_from simpagesize (frame_ptr frame)) g in
      inr (record {
        found = ap (λ f. (file.lseek r f).0) (sym e) ∙ h.found;
        whole =
            ap {A = F} (λ f. (file.write (page frame s) (file.lseek r f).1).0) (sym e)
            ∙ ap {A = List ℕ} (λ p. (file.write p (file.lseek r t.swapfile).1).0) (sym same)
            ∙ h.whole;
        file_now =
            h.file_now
            ∙ ap {A = List ℕ} (λ p. (file.write p (file.lseek r t.swapfile).1).1) same
            ∙ ap {A = F} (λ f. (file.write (page frame s) (file.lseek r f).1).1) e;
      })

  pageout_new-WrittenPost :
      (frame : ℕ) (a : AllocResult) (s : Memory P F)
      → WrittenPost s frame (pageout_new file frame a s)
  unfolding pageout_new
  pageout_new-WrittenPost frame full s = inl refl
  pageout_new-WrittenPost frame AllocResult.fault s = tt
  pageout_new-WrittenPost frame (allocated idx words') s =
      let t = record s { swapmap = record { nbits = s.swapmap.nbits; words = words' } } in
      written_before s t frame (pageout_new file frame (allocated idx words') s) refl refl
        (pageout_at-WrittenPost frame _ t)

  swap_pageout-WrittenPost :
      (frame : ℕ) (offset : ℤ) (s : Memory P F)
      → WrittenPost s frame (swap_pageout file frame offset s)
  unfolding swap_pageout
  swap_pageout-WrittenPost frame offset s = elim (Bool-cases (eq_ℤ offset invalid_swap)) [
    | inl h ↦ rw (h) (pageout_new-WrittenPost frame (swap_bitmap_alloc s.swapmap) s)
    | inr h ↦ rw (h) (pageout_at-WrittenPost frame offset s)
  ]

  -- What reading a page into a frame promises.
  abbrev pub Restored : List ℕ → ℕ → Memory P F → Option (ℤ × Memory P F) → Type 0
  Restored bytes frame t none = ⊥
  Restored bytes frame t (some (code, u)) =
      (code ≡ pos 0)
      × (page frame u ≡ bytes)
      × (u ≡ record t { swapfile = u.swapfile; physmem = u.physmem })

  pagein_read-Restored :
      (frame : ℕ) (bytes : List ℕ) (t : Memory P F)
      → length bytes ≡ simpagesize
      → (file.read simpagesize t.swapfile).0 ≡ (pos simpagesize, bytes)
      → Restored bytes frame t (pagein_read file frame t)
  unfolding pagein_read
  pagein_read-Restored frame bytes t h e =
      let all_read : eq_ℤ (file.read simpagesize t.swapfile).0.0 (pos simpagesize) ≡ true =
        ap (λ r. eq_ℤ r.0 (pos simpagesize)) e in
      rw (all_read) (
        refl,
        stored_page bytes (file.read simpagesize t.swapfile).0.1 (frame_ptr frame) t.physmem h
            (ap (λ r. r.1) e),
        refl,
      )

  swap_pagein_eq :
      (frame o : ℕ) (t : Memory P F)
      → (file.lseek (pos o) t.swapfile).0 ≡ pos o
      → swap_pagein file frame (pos o) t
        ≡ pagein_read file frame (record t { swapfile = (file.lseek (pos o) t.swapfile).1 })
  unfolding swap_pagein
  swap_pagein_eq frame o t h =
      let found : eq_ℤ (file.lseek (pos o) t.swapfile).0 (pos o) ≡ true =
        ap (λ p. eq_ℤ p (pos o)) h ∙ eq_ℤ_refl (pos o) in
      simp (found) refl

  Restored-from :
      (bytes : List ℕ) (frame : ℕ) (f : F) (t : Memory P F) (r : Option (ℤ × Memory P F))
      → Restored bytes frame (record t { swapfile = f }) r
      → Restored bytes frame t r
  Restored-from bytes frame f t none h = h
  Restored-from bytes frame f t (some (code, u)) h = (h.0, h.1, h.2)

  pagein-Written :
      (s t : Memory P F) (frame frame' o : ℕ)
      → ReadsBack file
      → Written s frame (pos o) t
      → Restored (page frame s) frame' t (swap_pagein file frame' (pos o) t)
  pagein-Written s t frame frame' o works w =
      let back =
        works o s.swapfile (page frame s)
          (length-bytes_from simpagesize (frame_ptr frame) s.physmem) w.found w.whole in
      let seek : (file.lseek (pos o) t.swapfile).0 ≡ pos o =
        ap {A = F} (λ f. (file.lseek (pos o) f).0) w.file_now ∙ back.0 in
      let got : (file.read simpagesize (file.lseek (pos o) t.swapfile).1).0
          ≡ (pos simpagesize, page frame s) =
        ap {A = F} (λ f. (file.read simpagesize (file.lseek (pos o) f).1).0) w.file_now ∙ back.1 in
      let after = record t { swapfile = (file.lseek (pos o) t.swapfile).1 } in
      subst (Restored (page frame s) frame' t) (sym (swap_pagein_eq frame' o t seek)) (
        Restored-from (page frame s) frame' (file.lseek (pos o) t.swapfile).1 t
          (pagein_read file frame' after)
          (pagein_read-Restored frame' (page frame s) after
            (length-bytes_from simpagesize (frame_ptr frame) s.physmem) got))

  -- When `swap_pageout` of a frame answers with an offset, `swap_pagein` from that offset into any frame succeeds, and
  -- that frame then holds the bytes that went out; nothing changes but the memory's bytes and the file. The swap file
  -- is assumed to give back at a place the page that was last written there.
  pub swap_pageout-swap_pagein :
      (frame frame' o : ℕ) (offset : ℤ) (s t : Memory P F)
      → ReadsBack file
      → swap_pageout file frame offset s ≡ some (pos o, t)
      → Restored (page frame s) frame' t (swap_pagein file frame' (pos o) t)
  swap_pageout-swap_pagein frame frame' o offset s t works run =
      elim (subst (WrittenPost s frame) run (swap_pageout-WrittenPost frame offset s)) [
        | inl e ↦ absurd (not_invalid e)
        | inr w ↦ pagein-Written s t frame frame' o works w
      ]
    where
      not_invalid : pos o ≡ invalid_swap → ⊥
      not_invalid e = ground arith
