-- ===== src/Memory/Eviction.antt =====
-- s2q.c: `s2q_evict` takes the first frame of A1 or the last of Am.
use os_library.Base.{
  ℕ, ◌<◌, ◌+◌, ◌≡◌, refl, sym, ap, subst, ◌∙◌, some, true, false, List, length, arith, ltb, ltb→lt,
  ltb-false→le, if◌then◌else◌, Bool-cases, inl, inr, get_elem?,
}
use os_library.Base.Int.{pos}
use os_library.Base.Members.{without}
use os_library.Memory.State.{Pte, Frame, Memory}
use os_library.Memory.Rings.{Nexts-first, Prevs-last}
use os_library.Memory.TwoQueues.{
  S2q, am_head, a1_head, framelist_entry, evict_head_a1, evict_tail_am, s2q_evict, size_above,
}
use os_library.Memory.Queues.{entries, Queues, has-without_ring}
use os_library.Memory.QueueMoves.{delete_am, delete_a1, linked_in, shrinks, other_way}
use os_library.Memory.Managed.{PageOf, HoldsPage, Managed, marked, HoldsPage-marked, HoldsPage-self}
use os_library.Memory.Victims.{
  first?, last?, victim, first?-first_or, last?-last_or, has-last?, has-first?, without_none,
  positive_of, some_first, some_last, evict_head_a1_run, evict_tail_am_run, s2q_evict_run,
}

module _ {F : Type 0} where
  -- What an eviction of `f` leaves.
  abbrev pub Evicts : Memory S2q F → ℕ → List ℕ → List ℕ → Type 0
  Evicts s f am a1 =
      (t : Memory S2q F) × (s2q_evict s ≡ some (f, t))
      × (t.coremap ≡ s.coremap)
      × HoldsPage t f 0
      × Managed t (without am f) (without a1 f)

  -- The frames that are left hold the pages they held.
  frames_left :
      (s : Memory S2q F) (pol : S2q) (f p : ℕ) (frame : Frame) (e : Pte) (am a1 : List ℕ)
      → Managed s am a1
      → get_elem? s.coremap f ≡ some frame
      → frame.pte ≡ some p
      → Queues pol (without am f) (without a1 f)
      → Managed (marked p e 0 (record s { policy = pol })) (without am f) (without a1 f)
  frames_left s pol f p frame e am a1 w found entry q =
      let page : PageOf s f p = (frame, found, entry) in
      let t = record s { policy = pol } in
      let left_am = λ (g : ℕ). has-without_ring am f g w.queues.am_ring.apart.1 in
      let left_a1 = λ (g : ℕ). has-without_ring a1 f g w.queues.a1_ring.apart.1 in
      record {
        queues = q;
        hot = λ g m.
            HoldsPage-marked t f g p 0 1 e w.own_page page
              (λ d. absurd (ground (arith, left_am g, m, d)))
              (w.hot g (ground (arith, left_am g, m)));
        cold = λ g m.
            HoldsPage-marked t f g p 0 0 e w.own_page page
              (λ d. absurd (ground (arith, left_a1 g, m, d)))
              (w.cold g (ground (arith, left_a1 g, m)));
        own_page = w.own_page;
      }

  evict_first :
      (s : Memory S2q F) (f : ℕ) (am a1 : List ℕ)
      → Managed s am a1
      → ltb s.policy.threshold (length a1) ≡ true
      → first? a1 ≡ some f
      → Evicts s f am a1
  evict_first s f am a1 w above e =
      let h = has-first? f a1 e in
      let apart = other_way am a1 w.queues.separate f h in
      let (frame, p, entry', found, used, entry, here, bit) = w.cold f h in
      let (l, del, out, now) = delete_a1 s.policy am a1 f w.queues h in
      let t = record s {
        policy = record s.policy { links = l; a1_size = pos (length (without a1 f)) };
      } in
      let head : s.policy.links.next a1_head ≡ some (framelist_entry f) =
        Nexts-first s.policy.links.next a1_head a1_head (entries a1) w.queues.a1_ring.nexts
        ∙ ap some (first?-first_or a1_head f a1 e) in
      let many : size_above s.policy.a1_size s.policy.threshold ≡ true =
        ap (λ z. size_above z s.policy.threshold) w.queues.a1_counted ∙ above in
      let run =
        evict_head_a1_run s f (length (without a1 f)) frame l
          (positive_of s.policy.a1_size a1 f w.queues.a1_counted h) head found used del out
          (shrinks s.policy.a1_size a1 f w.queues.a1_counted h) in
      let chosen : (if size_above s.policy.a1_size s.policy.threshold
              then evict_head_a1
              else evict_tail_am)
            s
          ≡ some (f, t) =
        simp (many) run in
      (
        marked p entry' 0 t,
        s2q_evict_run s t f p frame entry' chosen found entry here,
        refl,
        HoldsPage-self t f p 0 frame entry' found used entry,
        frames_left s t.policy f p frame entry' am a1 w found entry
            (subst (λ fs. Queues t.policy fs (without a1 f)) (sym (without_none am f apart)) now),
      )

  evict_last :
      (s : Memory S2q F) (f : ℕ) (am a1 : List ℕ)
      → Managed s am a1
      → ltb s.policy.threshold (length a1) ≡ false
      → last? am ≡ some f
      → Evicts s f am a1
  evict_last s f am a1 w above e =
      let h = has-last? f am e in
      let apart = w.queues.separate f h in
      let (frame, p, entry', found, used, entry, here, bit) = w.hot f h in
      let (l, del, out, now) = delete_am s.policy am a1 f w.queues h in
      let t = record s {
        policy = record s.policy { links = l; am_size = pos (length (without am f)) };
      } in
      let tail : s.policy.links.prev am_head ≡ some (framelist_entry f) =
        Prevs-last s.policy.links.prev am_head am_head (entries am) w.queues.am_ring.prevs
        ∙ ap some (last?-last_or am_head f am e) in
      let there = linked_in s.policy.links am_head am_head f am w.queues.am_ring.nexts h in
      let few : size_above s.policy.a1_size s.policy.threshold ≡ false =
        ap (λ z. size_above z s.policy.threshold) w.queues.a1_counted ∙ above in
      let run =
        evict_tail_am_run s f (length (without am f)) there.0 p frame entry' l
          (positive_of s.policy.am_size am f w.queues.am_counted h) tail there.1 found used entry
          here bit del out (shrinks s.policy.am_size am f w.queues.am_counted h) in
      let chosen : (if size_above s.policy.a1_size s.policy.threshold
              then evict_head_a1
              else evict_tail_am)
            s
          ≡ some (f, t) =
        simp (few) run in
      (
        marked p entry' 0 t,
        s2q_evict_run s t f p frame entry' chosen found entry here,
        refl,
        HoldsPage-self t f p 0 frame entry' found used entry,
        frames_left s t.policy f p frame entry' am a1 w found entry
            (subst (λ fs. Queues t.policy (without am f) fs) (sym (without_none a1 f apart)) now),
      )

  -- Where the lists of 2Q stand for two sequences of frames, with more frames in all than the threshold, `s2q_evict` succeeds
  -- with the first frame of A1 when A1 is longer than the threshold, and with the last frame of Am otherwise. That frame is
  -- then in neither sequence and its page is not referenced; the others keep their order, and the lists stand for what is
  -- left.
  pub s2q_evict-Evicts :
      (s : Memory S2q F) (am a1 : List ℕ)
      → Managed s am a1
      → s.policy.threshold < length am + length a1
      → (f : ℕ) × (victim s.policy.threshold am a1 ≡ some f) × Evicts s f am a1
  s2q_evict-Evicts s am a1 w many = elim (Bool-cases (ltb s.policy.threshold (length a1))) [
    | inl above ↦
        let f = some_first a1 (omega (arith, ltb→lt s.policy.threshold (length a1) above)) in
        (f.0, simp (above) f.1, evict_first s f.0 am a1 w above f.1)
    | inr above ↦
        let f =
          some_last am (omega (arith, ltb-false→le s.policy.threshold (length a1) above, many)) in
        (f.0, simp (above) f.1, evict_last s f.0 am a1 w above f.1)
  ]
