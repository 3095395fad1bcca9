-- ===== src/Memory/ListExamples.antt =====
-- The theorems on circular lists and on simplified 2Q at small lists.
use os_library.Base.{
  ℕ, zero, suc, ◌≡◌, refl, sym, ap, ◌∙◌, get_elem?, Option, none, some, true, [], ◌∷◌, arith, ◌==◌,
  if◌then◌else◌,
}
use os_library.Base.Int.{pos}
use os_library.Memory.State.{Pte, Frame, Memory}
use os_library.Memory.Lists.{Links}
use os_library.Memory.Rings.{Ring}
use os_library.Memory.TwoQueues.{S2q}
use os_library.Base.Members.{has}
use os_library.Memory.Queues.{Queues}
use os_library.Memory.Managed.{HoldsPage, Managed}
use os_library.Memory.References.{Refers, s2q_ref-Refers}
use os_library.Memory.Victims.{victim}
use os_library.Memory.Eviction.{Evicts, s2q_evict-Evicts}

-- Entry 2 in the list with head 0, and entries 3 and 4 in the one with head 1.
abbrev next_entry : ℕ → Option ℕ
next_entry e =
    if e == 0
    then some 2
    else if e == 2
    then some 0
    else if e == 1
    then some 3
    else if e == 3
    then some 4
    else if e == 4
    then some 1
    else none

abbrev prev_entry : ℕ → Option ℕ
prev_entry e =
    if e == 0
    then some 2
    else if e == 2
    then some 0
    else if e == 1
    then some 4
    else if e == 3
    then some 1
    else if e == 4
    then some 3
    else none

abbrev two_lists : Links
two_lists = record { next = next_entry; prev = prev_entry }

two_lists-am : Ring two_lists 0 (2 ∷ [])
two_lists-am = record {
  nexts = (refl, refl);
  prevs = (refl, refl);
  apart = ((omega arith, tt), (tt, tt));
}

two_lists-a1 : Ring two_lists 1 (3 ∷ 4 ∷ [])
two_lists-a1 = record {
  nexts = (refl, (refl, refl));
  prevs = (refl, (refl, refl));
  apart = ((omega arith, (omega arith, tt)), ((omega arith, tt), (tt, tt)));
}

abbrev full_queues : S2q
full_queues = record { threshold = 1; links = two_lists; am_size = pos 1; a1_size = pos 2 }

full_queues-Queues : Queues full_queues (0 ∷ []) (1 ∷ 2 ∷ [])
full_queues-Queues = record {
  am_ring = two_lists-am;
  a1_ring = two_lists-a1;
  separate = λ g p. ground (arith, p);
  idle = λ g p r. ground (arith, p, r);
  am_counted = refl;
  a1_counted = refl;
}

abbrev used_frame : ℕ → Frame
used_frame p = record { in_use = true; pte = some p }

-- The page of frame 0 is referenced.
abbrev entry : ℕ → Pte
entry p = record {
  valid_bit = 1;
  referenced_bit = if p == 0 then 1 else 0;
  dirty_bit = 0;
  swap_on = 0;
  frame_number = pos p;
  swap_offset = pos 0;
}

abbrev four_pages : Memory S2q (Unit {0})
four_pages = record {
  memsize = 4;
  coremap = used_frame 0 ∷ used_frame 1 ∷ used_frame 2 ∷ used_frame 3 ∷ [];
  ptes = λ p. some (entry p);
  next_pte = 4;
  top_level_arr = λ _. none;
  physmem = λ a. a;
  swapmap = record { nbits = 64; words = 0 ∷ [] };
  swapfile = tt;
  hit_count = 0;
  miss_count = 3;
  ref_count = 3;
  evict_clean_count = 0;
  evict_dirty_count = 0;
  policy = full_queues;
}

abbrev pte_of : Option Frame → Option ℕ
pte_of none = none
pte_of (some frame) = frame.pte

frames : (f : ℕ) (frame : Frame) → get_elem? four_pages.coremap f ≡ some frame → frame.pte ≡ some f
frames zero frame e = sym (ap pte_of e)
frames (suc zero) frame e = sym (ap pte_of e)
frames (suc (suc zero)) frame e = sym (ap pte_of e)
frames (suc (suc (suc zero))) frame e = sym (ap pte_of e)
frames (suc (suc (suc (suc f)))) frame e = absurd (cc)

four_pages-Managed : Managed four_pages (0 ∷ []) (1 ∷ 2 ∷ [])
four_pages-Managed = record {
  queues = full_queues-Queues;
  hot = held_hot;
  cold = held_cold;
  own_page = λ f g p a b. some_same f g (sym (frames f a.0 a.1) ∙ a.2 ∙ sym b.2 ∙ frames g b.0 b.1);
}
  where
    some_same : (f g : ℕ) → Option.some f ≡ some g → f ≡ g
    some_same f g e = ground (arith, e)

    held_hot : (f : ℕ) → has (0 ∷ []) f ≡ true → HoldsPage four_pages f 1
    held_hot zero h = (used_frame 0, 0, entry 0, refl, refl, refl, refl, refl)
    held_hot (suc f) h = absurd (ground (arith, h))

    held_cold : (f : ℕ) → has (1 ∷ 2 ∷ []) f ≡ true → HoldsPage four_pages f 0
    held_cold zero h = absurd (ground (arith, h))
    held_cold (suc zero) h = (used_frame 1, 1, entry 1, refl, refl, refl, refl, refl)
    held_cold (suc (suc zero)) h = (used_frame 2, 2, entry 2, refl, refl, refl, refl, refl)
    held_cold (suc (suc (suc f))) h = absurd (ground (arith, h))

-- The page of frame 3 comes to the tail of A1.
s2q_ref-Refers_example : Refers four_pages 3 9 (0 ∷ [], 1 ∷ 2 ∷ 3 ∷ [])
s2q_ref-Refers_example =
    s2q_ref-Refers four_pages 3 9 (0 ∷ []) (1 ∷ 2 ∷ []) four_pages-Managed
      (λ h g. (used_frame 3, 3, entry 3, refl, refl, refl, refl, refl))

s2q_evict-Evicts_example :
    (f : ℕ) × (victim 1 (0 ∷ []) (1 ∷ 2 ∷ []) ≡ some f) × Evicts four_pages f (0 ∷ []) (1 ∷ 2 ∷ [])
s2q_evict-Evicts_example =
    s2q_evict-Evicts four_pages (0 ∷ []) (1 ∷ 2 ∷ []) four_pages-Managed (omega arith)
