-- ===== src/Memory/Managed.antt =====
-- s2q.c: when the policy's lists stand for two sequences of frames, and the calls that move one frame.
use os_library.Base.{
  ℕ, suc, ◌≡◌, refl, sym, ap, ◌∙◌, ◌≢◌, none, some, true, List, ==-eq-false, ==_refl, if◌then◌else◌,
  get_elem?, update,
}
use os_library.Base.Int.{pos, pred_ℤ}
use os_library.Base.Members.{has}
use os_library.Memory.State.{Pte, Frame, Memory}
use os_library.Memory.Lists.{Links, list_del, list_add_head, list_add_tail, list_entry_is_linked}
use os_library.Memory.TwoQueues.{
  S2q, am_head, a1_head, framelist_entry, evict_from_am, evict_from_a1, place_head_am,
  place_tail_a1,
}
use os_library.Memory.Queues.{Queues}

module _ {F : Type 0} where
  abbrev pub PageOf : Memory S2q F → ℕ → ℕ → Type 0
  PageOf s f p = (frame : Frame) × (get_elem? s.coremap f ≡ some frame) × (frame.pte ≡ some p)

  -- The frame is in use, and the referenced bit of its page is `b`.
  abbrev pub HoldsPage : Memory S2q F → ℕ → ℕ → Type 0
  HoldsPage s f b =
      (frame : Frame) × (p : ℕ) × (e : Pte) × (get_elem? s.coremap f ≡ some frame)
      × (frame.in_use ≡ true)
      × (frame.pte ≡ some p)
      × (s.ptes p ≡ some e)
      × (e.referenced_bit ≡ b)

  -- The policy stands for two sequences of frames: the pages in Am are referenced and those in A1 are not, and no two
  -- frames hold one page.
  pub record Managed (s : Memory S2q F) (am a1 : List ℕ) : Type 0 where
    pub queues : Queues s.policy am a1
    pub hot : (f : ℕ) → has am f ≡ true → HoldsPage s f 1
    pub cold : (f : ℕ) → has a1 f ≡ true → HoldsPage s f 0
    pub own_page : (f g p : ℕ) → PageOf s f p → PageOf s g p → f ≡ g

  -- The memory after the page at `p` has its referenced bit set or cleared.
  abbrev pub marked : ℕ → Pte → ℕ → Memory S2q F → Memory S2q F
  marked p e b s = record s { ptes = update s.ptes p (some (record e { referenced_bit = b })) }

  pub HoldsPage-marked :
      (s : Memory S2q F) (f g p b c : ℕ) (e : Pte)
      → ((f g p : ℕ) → PageOf s f p → PageOf s g p → f ≡ g)
      → PageOf s f p
      → g ≢ f
      → HoldsPage s g c
      → HoldsPage (marked p e b s) g c
  HoldsPage-marked s f g p b c e own page ne (frame, p', e', found, used, entry, here, bit) =
      let other : p ≢ p' = λ q. ne (own g f p (frame, found, entry ∙ ap some (sym q)) page) in
      (
        frame,
        p',
        e',
        found,
        used,
        entry,
        ap (λ t. if t then some (record e { referenced_bit = b }) else s.ptes p')
              (==-eq-false other)
            ∙ here,
        bit,
      )

  pub HoldsPage-self :
      (s : Memory S2q F) (f p b : ℕ) (frame : Frame) (e : Pte)
      → get_elem? s.coremap f ≡ some frame
      → frame.in_use ≡ true
      → frame.pte ≡ some p
      → HoldsPage (marked p e b s) f b
  HoldsPage-self s f p b frame e found used entry = (
    frame,
    p,
    record e { referenced_bit = b },
    found,
    used,
    entry,
    ap (λ t. if t then some (record e { referenced_bit = b }) else s.ptes p) (==_refl p),
    refl,
  )

  pub evict_from_am_run :
      (s : Memory S2q F) (f m : ℕ) (l : Links)
      → list_del (framelist_entry f) s.policy.links ≡ some (tt, l)
      → l.next (framelist_entry f) ≡ none
      → pred_ℤ s.policy.am_size ≡ pos m
      → evict_from_am f s
        ≡ some (tt, record s { policy = record s.policy { links = l; am_size = pos m } })
  unfolding evict_from_am list_entry_is_linked
  evict_from_am_run s f m l del out size = simp (del, out, size) refl

  pub evict_from_a1_run :
      (s : Memory S2q F) (f m : ℕ) (l : Links)
      → list_del (framelist_entry f) s.policy.links ≡ some (tt, l)
      → l.next (framelist_entry f) ≡ none
      → pred_ℤ s.policy.a1_size ≡ pos m
      → evict_from_a1 f s
        ≡ some (tt, record s { policy = record s.policy { links = l; a1_size = pos m } })
  unfolding evict_from_a1 list_entry_is_linked
  evict_from_a1_run s f m l del out size = simp (del, out, size) refl

  pub place_head_am_run :
      (s : Memory S2q F) (f m n : ℕ) (l : Links)
      → list_add_head am_head (framelist_entry f) s.policy.links ≡ some (tt, l)
      → l.next (framelist_entry f) ≡ some n
      → s.policy.am_size ≡ pos m
      → place_head_am f s
        ≡ some (tt, record s { policy = record s.policy { links = l; am_size = pos (suc m) } })
  unfolding place_head_am list_entry_is_linked
  place_head_am_run s f m n l add linked size = simp (add, linked, size) refl

  pub place_tail_a1_run :
      (s : Memory S2q F) (f m n : ℕ) (l : Links)
      → list_add_tail a1_head (framelist_entry f) s.policy.links ≡ some (tt, l)
      → l.next (framelist_entry f) ≡ some n
      → s.policy.a1_size ≡ pos m
      → place_tail_a1 f s
        ≡ some (tt, record s { policy = record s.policy { links = l; a1_size = pos (suc m) } })
  unfolding place_tail_a1 list_entry_is_linked
  place_tail_a1_run s f m n l add linked size = simp (add, linked, size) refl
