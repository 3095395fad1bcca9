-- ===== src/Memory/Examples.antt =====
-- The theorems on the simulated memory at a memory of three frames and a swap file kept in memory.
use os_library.Base.{
  ◌⊎◌, ◌<◌, true, none, List, [], ◌∷◌, ℕ, zero, suc, ◌+◌, ◌^◌, ◌≡◌, refl, sym, ap, subst, ◌∙◌, ◌↔◌,
  ◌/◌, Option, some, false, arith, ◌==◌, if◌then◌else◌, inl, inr, length, get_or,
}
use os_library.Base.Int.{ℤ, pos, negsuc}
use os_library.Bitmap.Form.{IsBitmap}
use os_library.Bitmap.Init.{bitmap_init-IsEmpty}
use os_library.Bitmap.{bitmap_init, div_round_up, mark_from, alloc_loop, find_clear, take_bit}
use os_library.Base.Bytes.{bytes_from, store_bytes, bytes_from-store_bytes}
use os_library.Memory.State.{Memory, Pte, Frame, simpagesize}
use os_library.Memory.Swap.{
  SwapFile, invalid_swap, swap_pageout, swap_pagein, pageout_new, pageout_at, swap_bitmap_alloc,
  nwords_for_nbits,
}
use os_library.Memory.SwapSpace.{Seeks, Places, swap_pageout-Places}
use os_library.Memory.SwapPages.{ReadsBack, Restored, page, swap_pageout-swap_pagein}
use os_library.Memory.Policies.{rr, rr_ref, clock, rand, clock_evict, Random}
use os_library.Memory.Cleared.{AllUsed}
use os_library.Memory.ClockEvict.{Evicts, clock_evict-Evicts}
use os_library.Memory.Replay.{
  Ignores, LoadsBack, Overruns, replay_trace-LoadsBack, replay_trace-Overruns,
}
use os_library.Memory.Simulator.{reference, is_accepted, replay_trace}
use os_library.Memory.Translation.{Resident, vpns_iff_page}
use os_library.Memory.PageTable.{vpn1_of, vpn2_of, vpn3_of, Fresh, free_frame}
use os_library.Memory.FirstReference.{
  no_second, MissThenHit, access_twice, find_frame_number-MissThenHit,
}
use os_library.Memory.Turns.{AlwaysChooses, InRange, AnyState, policies-AlwaysChooses}

record Store : Type 0 where
  position : ℕ
  contents : ℕ → ℕ

abbrev seek_store : ℤ → Store → ℤ × Store
seek_store (pos o) f = (pos o, record { position = o; contents = f.contents })
seek_store (negsuc k) f = (negsuc 0, f)

abbrev store_file : SwapFile Store
store_file = record {
  lseek = seek_store;
  read = λ n f. ((pos n, bytes_from n f.position f.contents), f);
  write = λ bytes f. (
    pos (length bytes),
    record { position = f.position; contents = store_bytes bytes f.position f.contents },
  );
  minus_errno = λ _. negsuc 4;
}

store_file-Seeks : Seeks store_file
store_file-Seeks (pos o) f = inl refl
store_file-Seeks (negsuc k) f = inr refl

store_file-ReadsBack : ReadsBack store_file
store_file-ReadsBack o f bytes h _ _ = (
  refl,
  ap (λ xs. (pos simpagesize, xs))
      (ap (λ n. bytes_from n o (store_bytes bytes o f.contents)) (sym h)
        ∙ bytes_from-store_bytes bytes o f.contents),
)

abbrev free_words : List ℕ
free_words = 0 ∷ []

free_words-fits : (k : ℕ) → get_or free_words k 0 < 2 ^ 64
free_words-fits zero = omega arith
free_words-fits (suc k) = omega arith

abbrev made_words : List ℕ
made_words = 18446744073709551600 ∷ []

made_words_made : bitmap_init free_words 4 ≡ made_words
unfolding bitmap_init div_round_up mark_from
made_words_made = refl

made_words-IsBitmap : IsBitmap made_words 4
made_words-IsBitmap =
    subst (λ ws. IsBitmap ws 4) made_words_made
      (bitmap_init-IsEmpty free_words 4 (omega arith) (omega arith) free_words-fits).well_formed

abbrev entry : ℕ → ℕ → Pte
entry frame referenced = record {
  valid_bit = 1;
  referenced_bit = referenced;
  dirty_bit = 1;
  swap_on = 0;
  frame_number = pos frame;
  swap_offset = negsuc 299;
}

abbrev entries : ℕ → Option Pte
entries p =
    if p == 0
    then some (entry 0 1)
    else if p == 1
    then some (entry 1 0)
    else if p == 2
    then some (entry 2 1)
    else none

abbrev used_frame : ℕ → Frame
used_frame p = record { in_use = true; pte = some p }

-- Three frames in use, the pages of frames 0 and 2 referenced; byte `a` of memory is `a`.
abbrev memory : Memory ℕ Store
memory = record {
  memsize = 3;
  coremap = used_frame 0 ∷ used_frame 1 ∷ used_frame 2 ∷ [];
  ptes = entries;
  next_pte = 3;
  top_level_arr = λ _. none;
  physmem = λ a. a;
  swapmap = record { nbits = 4; words = made_words };
  swapfile = record { position = 0; contents = λ _. 0 };
  hit_count = 0;
  miss_count = 3;
  ref_count = 3;
  evict_clean_count = 0;
  evict_dirty_count = 0;
  policy = 0;
}

memory-AllUsed : AllUsed memory
memory-AllUsed zero l = (0, entry 0 1, refl, refl)
memory-AllUsed (suc zero) l = (1, entry 1 0, refl, refl)
memory-AllUsed (suc (suc zero)) l = (2, entry 2 1, refl, refl)
memory-AllUsed (suc (suc (suc i))) l = absurd (omega arith)

clock_evict-Evicts_example : Evicts memory (clock_evict memory)
clock_evict-Evicts_example = clock_evict-Evicts memory memory-AllUsed (omega arith)

abbrev counter : Random ℕ
counter g = (g + 7, g + 1)

policies-AlwaysChooses_example :
    AlwaysChooses {P = ℕ} {F = Store} rr InRange
    × AlwaysChooses {P = ℕ} {F = Store} clock InRange
    × AlwaysChooses {P = ℕ} {F = Store} (rand counter) AnyState
policies-AlwaysChooses_example = policies-AlwaysChooses counter

swap_pageout-Places_example :
    Places store_file 2 memory (swap_pageout store_file 2 invalid_swap memory)
swap_pageout-Places_example =
    swap_pageout-Places store_file 2 memory store_file-Seeks made_words-IsBitmap

abbrev paged_out : Memory ℕ Store
paged_out = record memory {
  swapmap = record { nbits = 4; words = 18446744073709551601 ∷ [] };
  swapfile = record { position = 0; contents = store_bytes (page store_file 2 memory) 0 (λ _. 0) };
}

pageout_run : swap_pageout store_file 2 invalid_swap memory ≡ some (pos 0, paged_out)
unfolding swap_pageout pageout_new pageout_at swap_bitmap_alloc nwords_for_nbits alloc_loop
    find_clear take_bit
pageout_run = refl

swap_pageout-swap_pagein_example :
    Restored store_file
      (page store_file 2 memory)
      1
      paged_out
      (swap_pagein store_file 1 (pos 0) paged_out)
swap_pageout-swap_pagein_example =
    swap_pageout-swap_pagein store_file 2 1 0 invalid_swap memory paged_out store_file-ReadsBack
      pageout_run

vpns_iff_page_example :
    ((vpn1_of 20480 ≡ vpn1_of 20500)
      × (vpn2_of 20480 ≡ vpn2_of 20500)
      × (vpn3_of 20480 ≡ vpn3_of 20500))
    ↔ (20480 / 4096 ≡ 20500 / 4096)
vpns_iff_page_example = vpns_iff_page 20480 20500 (omega arith) (omega arith)

abbrev spare_memory : Memory ℕ Store
spare_memory = record memory {
  memsize = 2;
  coremap = used_frame 0 ∷ record { in_use = false; pte = none } ∷ [];
}

abbrev zeroed_tables : Fresh
zeroed_tables = record { second_level = λ _. none; third_level = λ _. none; frame_number = pos 0 }

spare_found : free_frame 0 spare_memory.coremap ≡ some 1
unfolding free_frame
spare_found = refl

find_frame_number-MissThenHit_example :
    MissThenHit store_file clock zeroed_tables spare_memory 1
      (access_twice store_file clock zeroed_tables 20480 76 20500 83 spare_memory)
find_frame_number-MissThenHit_example =
    find_frame_number-MissThenHit store_file clock zeroed_tables spare_memory 20480 20500 1 76 83
      (no_second refl) (refl, refl, refl) spare_found

abbrev resident_entry : Pte
resident_entry = record {
  valid_bit = 1;
  referenced_bit = 0;
  dirty_bit = 0;
  swap_on = 0;
  frame_number = pos 1;
  swap_offset = pos 0;
}

-- Every address leads to entry 1, whose page is in frame 1.
abbrev one_page : Memory ℕ Store
one_page = record memory {
  ptes = λ _. some resident_entry;
  top_level_arr = λ _. some (λ _. some (λ _. some 1));
}

one_page-Resident : (v : ℕ) → Resident one_page v 1 1 resident_entry
one_page-Resident v = record {
  second = λ _. some (λ _. some 1);
  third = λ _. some 1;
  first_level = refl;
  second_level = refl;
  third_level = refl;
  stored = refl;
  valid = refl;
  not_on_swap = refl;
  in_frame = refl;
}

rr-Ignores : Ignores {P = ℕ} {F = Store} rr
unfolding rr_ref
rr-Ignores frame vaddr s = refl

replay_trace-LoadsBack_example : LoadsBack store_file rr zeroed_tables one_page 20485 7
replay_trace-LoadsBack_example =
    replay_trace-LoadsBack store_file rr zeroed_tables one_page 20485 1 1 7 resident_entry
      rr-Ignores (one_page-Resident 20485) (omega arith) (omega arith)

replay_trace-Overruns_example :
    (is_accepted 83 20496 ≡ true)
    × (((2 < 3) × Overruns store_file rr zeroed_tables one_page 20496 1 7)
        ⊎ ((◌≡◌ {A = ℕ} 2 3)
            × (replay_trace store_file rr zeroed_tables 1 (reference 83 20496 7 ∷ []) one_page
                ≡ none)))
replay_trace-Overruns_example =
    replay_trace-Overruns store_file rr zeroed_tables one_page 20496 1 1 7 resident_entry rr-Ignores
      (one_page-Resident 20496) (omega arith) refl
