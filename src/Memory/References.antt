-- ===== src/Memory/References.antt =====
-- s2q.c: `s2q_ref` moves a frame between the two sequences as the 2Q policy says.
use os_library.Base.{
  ℕ, suc, ◌≡◌, refl, subst, ◌∙◌, none, some, true, false, List, [], ◌∷◌, ◌++◌, length, arith, ◌==◌,
  if◌then◌else◌, Bool-cases, inl, inr, get_elem?,
}
use os_library.Base.Int.{pos}
use os_library.Base.Members.{has, without, has-snoc}
use os_library.Memory.State.{Pte, Frame, Memory, ◌>>◌, get_referenced, set_referenced}
use os_library.Memory.Lists.{list_entry_is_linked}
use os_library.Memory.TwoQueues.{
  S2q, a1_head, framelist_entry, evict_from_am, evict_from_a1, place_head_am, place_tail_a1,
  s2q_ref,
}
use os_library.Memory.Queues.{has-without_ring}
use os_library.Memory.QueueMoves.{delete_am, delete_a1, push_am, append_a1, linked_in, shrinks}
use os_library.Memory.Managed.{
  PageOf, HoldsPage, Managed, marked, HoldsPage-marked, HoldsPage-self, evict_from_am_run,
  evict_from_a1_run, place_head_am_run, place_tail_a1_run,
}

-- Where a frame goes when its page is accessed.
abbrev pub after_ref : ℕ → List ℕ × List ℕ → List ℕ × List ℕ
after_ref f (am, a1) =
    if has am f
    then (f ∷ without am f, a1)
    else if has a1 f
    then (f ∷ am, without a1 f)
    else (am, a1 ++ f ∷ [])

module _ {F : Type 0} where
  ref_hot_run :
      (s t u : Memory S2q F) (f v p : ℕ) (frame : Frame) (e : Pte)
      → get_elem? s.coremap f ≡ some frame
      → frame.pte ≡ some p
      → s.ptes p ≡ some e
      → e.referenced_bit ≡ 1
      → evict_from_am f s ≡ some (tt, t)
      → place_head_am f t ≡ some (tt, u)
      → s2q_ref f v s ≡ some (tt, u)
  unfolding s2q_ref get_referenced list_entry_is_linked
  ref_hot_run s t u f v p frame e found entry here bit out put =
      let set : (e.referenced_bit == 1) ≡ true = ground (arith, bit) in
      let rest : (evict_from_am f >> place_head_am f) s ≡ some (tt, u) = simp (out, put) refl in
      simp (found, entry, here, set) rest

  ref_cold_run :
      (s t u : Memory S2q F) (f v p n : ℕ) (frame : Frame) (e : Pte)
      → get_elem? s.coremap f ≡ some frame
      → frame.pte ≡ some p
      → s.ptes p ≡ some e
      → e.referenced_bit ≡ 0
      → s.policy.links.next (framelist_entry f) ≡ some n
      → evict_from_a1 f s ≡ some (tt, t)
      → place_head_am f t ≡ some (tt, u)
      → u.ptes p ≡ some e
      → s2q_ref f v s ≡ some (tt, marked p e 1 u)
  unfolding s2q_ref get_referenced set_referenced list_entry_is_linked
  ref_cold_run s t u f v p n frame e found entry here bit linked out put there =
      let set : (e.referenced_bit == 1) ≡ false = ground (arith, bit) in
      let rest : (evict_from_a1 f >> (place_head_am f >> set_referenced (some p) true)) s
          ≡ some (tt, marked p e 1 u) =
        simp (out, put, there) refl in
      simp (found, entry, here, set, linked) rest

  ref_new_run :
      (s t : Memory S2q F) (f v p : ℕ) (frame : Frame) (e : Pte)
      → get_elem? s.coremap f ≡ some frame
      → frame.pte ≡ some p
      → s.ptes p ≡ some e
      → e.referenced_bit ≡ 0
      → s.policy.links.next (framelist_entry f) ≡ none
      → place_tail_a1 f s ≡ some (tt, t)
      → s2q_ref f v s ≡ some (tt, t)
  unfolding s2q_ref get_referenced list_entry_is_linked
  ref_new_run s t f v p frame e found entry here bit linked put =
      let set : (e.referenced_bit == 1) ≡ false = ground (arith, bit) in
      simp (found, entry, here, set, linked) put

  abbrev pub Refers : Memory S2q F → ℕ → ℕ → List ℕ × List ℕ → Type 0
  Refers s f v (am, a1) =
      (t : Memory S2q F) × (s2q_ref f v s ≡ some (tt, t))
      × (t.coremap ≡ s.coremap)
      × Managed t am a1

  ref_hot :
      (s : Memory S2q F) (f v : ℕ) (am a1 : List ℕ)
      → Managed s am a1
      → has am f ≡ true
      → Refers s f v (f ∷ without am f, a1)
  ref_hot s f v am a1 w h =
      let (frame, p, e, found, used, entry, here, bit) = w.hot f h in
      let left = has-without_ring am f f w.queues.am_ring.apart.1 in
      let (l, del, out, now) = delete_am s.policy am a1 f w.queues h in
      let q = record s.policy { links = l; am_size = pos (length (without am f)) } in
      let (k, put, linked, then') =
        push_am q (without am f) a1 f now (left ∙ ground arith) (w.queues.separate f h) in
      let t = record s { policy = q } in
      let u = record s {
        policy = record q { links = k; am_size = pos (suc (length (without am f))) };
      } in
      (
        u,
        ref_hot_run s t u f v p frame e found entry here bit
            (evict_from_am_run s f (length (without am f)) l del out
              (shrinks s.policy.am_size am f w.queues.am_counted h))
            (place_head_am_run t f (length (without am f)) _ k put linked refl),
        refl,
        record {
          queues = then';
          hot = λ g m. elim (Bool-cases (f == g)) [
            | inl same ↦ subst (λ i. HoldsPage s i 1) (ground (arith, same)) (w.hot f h)
            | inr other ↦
                w.hot g (ground (arith, m, other, has-without_ring am f g w.queues.am_ring.apart.1))
          ];
          cold = w.cold;
          own_page = w.own_page;
        },
      )

  ref_cold :
      (s : Memory S2q F) (f v : ℕ) (am a1 : List ℕ)
      → Managed s am a1
      → has am f ≡ false
      → has a1 f ≡ true
      → Refers s f v (f ∷ am, without a1 f)
  ref_cold s f v am a1 w h g1 =
      let (frame, p, e, found, used, entry, here, bit) = w.cold f g1 in
      let left = λ (g : ℕ). has-without_ring a1 f g w.queues.a1_ring.apart.1 in
      let (l, del, out, now) = delete_a1 s.policy am a1 f w.queues g1 in
      let q = record s.policy { links = l; a1_size = pos (length (without a1 f)) } in
      let (k, put, linked, then') = push_am q am (without a1 f) f now h (left f ∙ ground arith) in
      let t = record s { policy = q } in
      let u = record s { policy = record q { links = k; am_size = pos (suc (length am)) } } in
      let there = linked_in s.policy.links a1_head a1_head f a1 w.queues.a1_ring.nexts g1 in
      let page : PageOf s f p = (frame, found, entry) in
      (
        marked p e 1 u,
        ref_cold_run s t u f v p there.0 frame e found entry here bit there.1
            (evict_from_a1_run s f (length (without a1 f)) l del out
              (shrinks s.policy.a1_size a1 f w.queues.a1_counted g1))
            (place_head_am_run t f (length am) _ k put linked w.queues.am_counted) here,
        refl,
        record {
          queues = then';
          hot = λ g m. elim (Bool-cases (f == g)) [
            | inl same ↦
                subst (λ i. HoldsPage (marked p e 1 u) i 1) (ground (arith, same))
                  (HoldsPage-self u f p 1 frame e found used entry)
            | inr other ↦
                HoldsPage-marked u f g p 1 1 e w.own_page page
                  (λ d. absurd (ground (arith, other, d))) (w.hot g (ground (arith, m, other)))
          ];
          cold = λ g m.
              HoldsPage-marked u f g p 1 0 e w.own_page page
                (λ d. absurd (ground (arith, left g, m, d))) (w.cold g (ground (arith, left g, m)));
          own_page = w.own_page;
        },
      )

  ref_new :
      (s : Memory S2q F) (f v : ℕ) (am a1 : List ℕ)
      → Managed s am a1
      → has am f ≡ false
      → has a1 f ≡ false
      → HoldsPage s f 0
      → Refers s f v (am, a1 ++ f ∷ [])
  ref_new s f v am a1 w h g1 (frame, p, e, found, used, entry, here, bit) =
      let (k, put, linked, then') = append_a1 s.policy am a1 f w.queues h g1 in
      let u = record s {
        policy = record s.policy { links = k; a1_size = pos (suc (length a1)) };
      } in
      (
        u,
        ref_new_run s u f v p frame e found entry here bit (w.queues.idle f h g1)
            (place_tail_a1_run s f (length a1) _ k put linked w.queues.a1_counted),
        refl,
        record {
          queues = then';
          hot = w.hot;
          cold = λ g m. elim (Bool-cases (f == g)) [
            | inl same ↦
                subst (λ i. HoldsPage s i 0) (ground (arith, same))
                  (frame, p, e, found, used, entry, here, bit)
            | inr other ↦ w.cold g (ground (arith, m, other, has-snoc a1 f g))
          ];
          own_page = w.own_page;
        },
      )

  -- Where the lists of 2Q stand for two sequences of frames, an access to a page in a frame, which in no sequence has its
  -- referenced bit clear, succeeds: a frame of Am moves to the head of Am; a frame of A1 moves to the head of Am, and its page
  -- is referenced from then on; any other frame goes to the tail of A1. The other frames keep their order, and the lists
  -- stand for the sequences after it.
  pub s2q_ref-Refers :
      (s : Memory S2q F) (f v : ℕ) (am a1 : List ℕ)
      → Managed s am a1
      → (has am f ≡ false → has a1 f ≡ false → HoldsPage s f 0)
      → Refers s f v (after_ref f (am, a1))
  s2q_ref-Refers s f v am a1 w new = elim (Bool-cases (has am f)) [
    | inl h ↦ simp (h) (ref_hot s f v am a1 w h)
    | inr h ↦ elim (Bool-cases (has a1 f)) [
      | inl g ↦ simp (h, g) (ref_cold s f v am a1 w h g)
      | inr g ↦ simp (h, g) (ref_new s f v am a1 w h g (new h g))
    ]
  ]
