-- ===== src/Memory/FirstReference.antt =====
-- pagetable.c: the first reference to a page while a frame is free, and the next one.
use os_library.Base.{
  ℕ, suc, ◌*◌, ◌≡◌, refl, sym, ap, ◌∙◌, Option, none, some, true, ==_refl, if◌then◌else◌, update,
  set,
}
use os_library.Base.Int.{ℤ, pos}
use os_library.Memory.State.{Memory, M, Pte, simpagesize, ◌>>=◌, pure}
use os_library.Memory.Swap.{SwapFile}
use os_library.Memory.Policies.{Policy}
use os_library.Memory.PageTable.{
  vpn1_of, vpn2_of, vpn3_of, Fresh, find_frame_number, second_step, third_step, new_page,
  first_reference, new_pte, free_frame, known_page, clear_bytes, allocate_frame, choose_frame,
  init_frame,
}
use os_library.Memory.Translation.{
  Resident, find_frame_number-hit, find_frame_number-some, second_step-some,
}

-- Two addresses with the same three indices.
abbrev pub SamePage : ℕ → ℕ → Type 0
SamePage v w = (vpn1_of v ≡ vpn1_of w) × (vpn2_of v ≡ vpn2_of w) × (vpn3_of v ≡ vpn3_of w)

-- An address that leads to no entry: a table or the entry is missing.
pub data Unmapped {P F : Type 0} : Memory P F → ℕ → Type 0 where
  no_second :
      {s : Memory P F} {vaddr : ℕ} → s.top_level_arr (vpn1_of vaddr) ≡ none → Unmapped s vaddr
  no_third :
      {s : Memory P F} {vaddr : ℕ} {second : ℕ → Option (ℕ → Option ℕ)}
      → s.top_level_arr (vpn1_of vaddr) ≡ some second
      → second (vpn2_of vaddr) ≡ none
      → Unmapped s vaddr
  no_entry :
      {s : Memory P F} {vaddr : ℕ} {second : ℕ → Option (ℕ → Option ℕ)} {third : ℕ → Option ℕ}
      → s.top_level_arr (vpn1_of vaddr) ≡ some second
      → second (vpn2_of vaddr) ≡ some third
      → third (vpn3_of vaddr) ≡ none
      → Unmapped s vaddr

update_self : {A : Type 0} (f : ℕ → A) (k : ℕ) (v : A) → update f k v k ≡ v
update_self f k v = ap (λ b. if b then v else f k) (==_refl k)

module _ {P F : Type 0} (file : SwapFile F) (policy : Policy P F) (fresh : Fresh) where
  abbrev framed_pte : ℕ → Pte
  framed_pte f = record (new_pte file policy fresh) { frame_number = pos f }

  -- The memory after the new entry has got frame `f`.
  abbrev filled : ℕ → Memory P F → Memory P F
  filled f s = record s {
    miss_count = suc s.miss_count;
    ptes =
        update (update s.ptes s.next_pte (some (new_pte file policy fresh))) s.next_pte
          (some (framed_pte f));
    next_pte = suc s.next_pte;
    coremap = set s.coremap f (record { in_use = true; pte = some s.next_pte });
    physmem = clear_bytes simpagesize (f * simpagesize) s.physmem;
  }

  first_reference-free :
      (s : Memory P F) (f : ℕ)
      → free_frame 0 s.coremap ≡ some f
      → first_reference file policy fresh s ≡ some ((s.next_pte, f), filled f s)
  unfolding first_reference allocate_frame choose_frame init_frame
  first_reference-free s f h = simp (h, ==_refl s.next_pte) refl

  -- The memory after the entry is in the page table.
  abbrev mapped : ℕ → ℕ → (ℕ → Option (ℕ → Option ℕ)) → (ℕ → Option ℕ) → Memory P F → Memory P F
  mapped vaddr f second third s = record (filled f s) {
    top_level_arr = update s.top_level_arr (vpn1_of vaddr) (
        some
          (update second (vpn2_of vaddr) (some (update third (vpn3_of vaddr) (some s.next_pte)))));
  }

  new_page-free :
      (s : Memory P F) (vaddr f : ℕ) (second : ℕ → Option (ℕ → Option ℕ)) (third : ℕ → Option ℕ)
      → free_frame 0 s.coremap ≡ some f
      → new_page file policy fresh vaddr second third s
        ≡ some (pos f, mapped vaddr f second third s)
  new_page-free s vaddr f second third h = simp (first_reference-free s f h) refl

  mapped-Resident :
      (s : Memory P F) (v w f : ℕ) (second : ℕ → Option (ℕ → Option ℕ)) (third : ℕ → Option ℕ)
      → SamePage v w
      → Resident (mapped v f second third s) w s.next_pte f (framed_pte f)
  mapped-Resident s v w f second third e = record {
    second = update second (vpn2_of v) (some (update third (vpn3_of v) (some s.next_pte)));
    third = update third (vpn3_of v) (some s.next_pte);
    first_level =
        ap (mapped v f second third s).top_level_arr (sym e.0)
        ∙ update_self s.top_level_arr (vpn1_of v) _;
    second_level =
        ap (update second (vpn2_of v) (some (update third (vpn3_of v) (some s.next_pte)))) (sym e.1)
        ∙ update_self second (vpn2_of v) _;
    third_level =
        ap (update third (vpn3_of v) (some s.next_pte)) (sym e.2) ∙ update_self third (vpn3_of v) _;
    stored =
        update_self (update s.ptes s.next_pte (some (new_pte file policy fresh))) s.next_pte
          (some (framed_pte f));
    valid = refl;
    not_on_swap = refl;
    in_frame = refl;
  }

  -- What a first reference leaves: the next reference to the page finds the same frame.
  record Mapped (s : Memory P F) (v f : ℕ) (t : Memory P F) : Type 0 where
    resident : (w : ℕ) → SamePage v w → Resident t w s.next_pte f (framed_pte f)
    misses : t.miss_count ≡ suc s.miss_count
    hits : t.hit_count ≡ s.hit_count
    zeroed : t.physmem ≡ clear_bytes simpagesize (f * simpagesize) s.physmem

  first_find :
      (s : Memory P F) (v f type : ℕ)
      → Unmapped s v
      → free_frame 0 s.coremap ≡ some f
      → (t : Memory P F) × (find_frame_number file policy fresh v type s ≡ some (pos f, t))
        × Mapped s v f t
  unfolding find_frame_number second_step third_step
  first_find s v f type (no_second e) h =
      let r = record s { ref_count = suc s.ref_count } in
      let t = mapped v f fresh.second_level fresh.third_level r in
      (
        t,
        simp (e) (new_page-free r v f fresh.second_level fresh.third_level h),
        record {
          resident = λ w p. mapped-Resident r v w f fresh.second_level fresh.third_level p;
          misses = refl;
          hits = refl;
          zeroed = refl;
        },
      )
  first_find s v f type (no_third {second} e g) h =
      let r = record s { ref_count = suc s.ref_count } in
      let t = mapped v f second fresh.third_level r in
      (
        t,
        find_frame_number-some file policy fresh s v type second e
            ∙ ap
                (λ (o : Option (ℕ → Option ℕ)).
                  (elim o as (λ _. M P F ℤ) [
                    | none ↦ new_page file policy fresh v second fresh.third_level
                    | some q ↦ third_step file policy fresh v type second q
                  ])
                    r)
                g
            ∙ new_page-free r v f second fresh.third_level h,
        record {
          resident = λ w p. mapped-Resident r v w f second fresh.third_level p;
          misses = refl;
          hits = refl;
          zeroed = refl;
        },
      )
  first_find s v f type (no_entry {second} {third} e g k) h =
      let r = record s { ref_count = suc s.ref_count } in
      let t = mapped v f second third r in
      (
        t,
        find_frame_number-some file policy fresh s v type second e
            ∙ second_step-some file policy fresh r v type second third g
            ∙ ap
                (λ (o : Option ℕ).
                  (elim o as (λ _. M P F ℤ) [
                    | none ↦ new_page file policy fresh v second third
                    | some q ↦ known_page file policy fresh q type
                  ])
                    r)
                k
            ∙ new_page-free r v f second third h,
        record {
          resident = λ w p. mapped-Resident r v w f second third p;
          misses = refl;
          hits = refl;
          zeroed = refl;
        },
      )

  -- Two accesses, one after the other, with both answers.
  abbrev pub access_twice : ℕ → ℕ → ℕ → ℕ → M P F (ℤ × ℤ)
  access_twice v type w type' = do
    a ← find_frame_number file policy fresh v type
    b ← find_frame_number file policy fresh w type'
    pure (a, b)

  -- Both accesses went to the cleared frame `f`; the first was a miss and the second a hit.
  abbrev pub MissThenHit : Memory P F → ℕ → Option ((ℤ × ℤ) × Memory P F) → Type 0
  MissThenHit s f none = ⊥
  MissThenHit s f (some ((a, b), t)) =
      (a ≡ pos f)
      × (b ≡ pos f)
      × (t.miss_count ≡ suc s.miss_count)
      × (t.hit_count ≡ suc s.hit_count)
      × (t.physmem ≡ clear_bytes simpagesize (f * simpagesize) s.physmem)

  -- A first reference to a page while a frame is free: whatever table or entry is missing, `find_frame_number` takes the
  -- first free frame and clears it, and the next access, to any address of the page, finds the same frame. The first
  -- counts as a miss, the second as a hit.
  pub find_frame_number-MissThenHit :
      (s : Memory P F) (v w f type type' : ℕ)
      → Unmapped s v
      → SamePage v w
      → free_frame 0 s.coremap ≡ some f
      → MissThenHit s f (access_twice v type w type' s)
  find_frame_number-MissThenHit s v w f type type' u p h =
      let first = first_find s v f type u h in
      let t = first.0 in
      let next =
        find_frame_number-hit file policy fresh t w s.next_pte f type' (framed_pte f)
          (first.2.resident w p) in
      simp (first.1, next) (refl, refl, first.2.misses, ap suc first.2.hits, first.2.zeroed)
