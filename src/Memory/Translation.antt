-- ===== src/Memory/Translation.antt =====
-- pagetable.c: the three indices of an address, and the frame of a page that is referenced twice.
use os_library.Base.{
  ℕ, suc, ◌+◌, ◌*◌, ◌/◌, ◌%◌, ◌^◌, ◌<◌, ◌≡◌, refl, ap, ◌∙◌, ◌↔◌, Option, none, some, arith, true,
  false, ◌==◌, if◌then◌else◌, update,
}
use os_library.Base.Int.{ℤ, pos, negsuc, eq_ℤ}
use os_library.Memory.State.{Memory, M, Pte}
use os_library.Memory.Swap.{SwapFile}
use os_library.Memory.Policies.{Policy}
use os_library.Memory.PageTable.{
  vpn_of, vpn1_of, vpn2_of, vpn3_of, Fresh, is_store, known_page, new_page, find_frame_number,
  second_step, third_step,
}

digits_of : (v : ℕ) → vpn_of v ≡ vpn1_of v * 2 ^ 24 + vpn2_of v * 2 ^ 12 + vpn3_of v
digits_of v = omega arith

-- Two addresses of 48 bits go through the same entries on all three levels of the page table exactly when they lie in
-- the same page of 4096 bytes.
pub vpns_iff_page :
    (v w : ℕ)
    → v < 2 ^ 48
    → w < 2 ^ 48
    → ((vpn1_of v ≡ vpn1_of w) × (vpn2_of v ≡ vpn2_of w) × (vpn3_of v ≡ vpn3_of w))
      ↔ (v / 4096 ≡ w / 4096)
vpns_iff_page v w h g = (
  λ e. omega (arith, digits_of v, digits_of w, e.0, e.1, e.2),
  λ e.
      let same : vpn_of v ≡ vpn_of w = omega arith in
      (
        ap (λ n. n / 2 ^ 24 % 2 ^ 12) same,
        ap (λ n. n / 2 ^ 12 % 2 ^ 12) same,
        ap (λ n. n % 2 ^ 12) same,
      ),
)

-- A memory in which an address leads through the three levels of the page table to an entry, and on to its frame.
pub record Resident {P F : Type 0} (s : Memory P F) (vaddr p f : ℕ) (e : Pte) : Type 0 where
  pub second : ℕ → Option (ℕ → Option ℕ)
  pub third : ℕ → Option ℕ
  pub first_level : s.top_level_arr (vpn1_of vaddr) ≡ some second
  pub second_level : second (vpn2_of vaddr) ≡ some third
  pub third_level : third (vpn3_of vaddr) ≡ some p
  pub stored : s.ptes p ≡ some e
  pub valid : e.valid_bit ≡ 1
  pub not_on_swap : e.swap_on ≡ 0
  pub in_frame : e.frame_number ≡ pos f

module _ {P F : Type 0} (file : SwapFile F) (policy : Policy P F) (fresh : Fresh) where
  -- What a hit leaves: two counters, and the entry marked dirty by a store.
  abbrev pub after_hit : ℕ → ℕ → Pte → Memory P F → Memory P F
  after_hit type p e s = record s {
    ref_count = suc s.ref_count;
    hit_count = suc s.hit_count;
    ptes =
        update s.ptes p
          (some (record e { dirty_bit = if is_store type then 1 else e.dirty_bit; valid_bit = 1 }));
  }

  known_page-hit :
      (s : Memory P F) (p f type : ℕ) (e : Pte)
      → s.ptes p ≡ some e
      → e.valid_bit ≡ 1
      → e.swap_on ≡ 0
      → e.frame_number ≡ pos f
      → known_page file policy fresh p type s
        ≡ some (
          e.frame_number,
          record s {
            hit_count = suc s.hit_count;
            ptes = update s.ptes p (
                some (record e {
                  dirty_bit = if is_store type then 1 else e.dirty_bit;
                  valid_bit = 1;
                }));
          },
        )
  unfolding known_page
  known_page-hit s p f type e h v o n =
      let valid : (e.valid_bit == 1) ≡ true = ground arith in
      let loaded : (e.swap_on == 0) ≡ true = ground arith in
      let framed : eq_ℤ e.frame_number (negsuc 0) ≡ false = ap (λ z. eq_ℤ z (negsuc 0)) n in
      simp (h, valid, loaded, framed) refl

  pub third_step-some :
      (s : Memory P F) (vaddr p type : ℕ) (second : ℕ → Option (ℕ → Option ℕ))
      (third : ℕ → Option ℕ)
      → third (vpn3_of vaddr) ≡ some p
      → third_step file policy fresh vaddr type second third s
        ≡ known_page file policy fresh p type s
  unfolding third_step
  third_step-some s vaddr p type second third h =
      ap
        (λ (o : Option ℕ).
          (elim o as (λ _. M P F ℤ) [
            | none ↦ new_page file policy fresh vaddr second third
            | some q ↦ known_page file policy fresh q type
          ])
            s)
        h

  pub second_step-some :
      (s : Memory P F) (vaddr type : ℕ) (second : ℕ → Option (ℕ → Option ℕ)) (third : ℕ → Option ℕ)
      → second (vpn2_of vaddr) ≡ some third
      → second_step file policy fresh vaddr type second s
        ≡ third_step file policy fresh vaddr type second third s
  unfolding second_step
  second_step-some s vaddr type second third h =
      ap
        (λ (o : Option (ℕ → Option ℕ)).
          (elim o as (λ _. M P F ℤ) [
            | none ↦ new_page file policy fresh vaddr second fresh.third_level
            | some q ↦ third_step file policy fresh vaddr type second q
          ])
            s)
        h

  pub find_frame_number-some :
      (s : Memory P F) (vaddr type : ℕ) (second : ℕ → Option (ℕ → Option ℕ))
      → s.top_level_arr (vpn1_of vaddr) ≡ some second
      → find_frame_number file policy fresh vaddr type s
        ≡ second_step file policy fresh vaddr type second (record s { ref_count = suc s.ref_count })
  unfolding find_frame_number
  find_frame_number-some s vaddr type second h = simp (h) refl

  pub find_frame_number-hit :
      (s : Memory P F) (vaddr p f type : ℕ) (e : Pte)
      → Resident s vaddr p f e
      → find_frame_number file policy fresh vaddr type s ≡ some (pos f, after_hit type p e s)
  find_frame_number-hit s vaddr p f type e r =
      let t = record s { ref_count = suc s.ref_count } in
      find_frame_number-some s vaddr type r.second r.first_level
      ∙ second_step-some t vaddr type r.second r.third r.second_level
      ∙ third_step-some t vaddr p type r.second r.third r.third_level
      ∙ known_page-hit t p f type e r.stored r.valid r.not_on_swap r.in_frame
      ∙ ap (λ z. some (z, after_hit type p e s)) r.in_frame
