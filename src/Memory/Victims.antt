-- ===== src/Memory/Victims.antt =====
-- s2q.c: the frame that `s2q_evict` gives up, and the calls that find it in the lists.
use os_library.Base.{
  ℕ, ◌<◌, ◌≡◌, refl, ap, ◌∙◌, Option, none, some, true, false, List, [], ◌∷◌, length, arith, ◌==◌,
  ltb, if◌then◌else◌, get_elem?,
}
use os_library.Base.Int.{ℤ, pos, pred_ℤ}
use os_library.Base.Members.{has, without}
use os_library.Memory.State.{Pte, Frame, Memory, get_referenced, set_referenced}
use os_library.Memory.Lists.{Links, list_entry_is_linked, list_del}
use os_library.Memory.Rings.{first_or, last_or}
use os_library.Memory.TwoQueues.{
  S2q, am_head, a1_head, framelist_entry, evict_head_a1, evict_tail_am, s2q_evict, size_above,
  size_positive,
}
use os_library.Memory.Queues.{entries}
use os_library.Memory.Managed.{marked}

abbrev pub first? : List ℕ → Option ℕ
first? [] = none
first? (f ∷ fs) = some f

abbrev pub last? : List ℕ → Option ℕ
last? [] = none
last? (f ∷ []) = some f
last? (f ∷ g ∷ fs) = last? (g ∷ fs)

-- The frame that 2Q gives up.
abbrev pub victim : ℕ → List ℕ → List ℕ → Option ℕ
victim threshold am a1 = if ltb threshold (length a1) then first? a1 else last? am

pub first?-first_or :
    (head f : ℕ) (fs : List ℕ) → first? fs ≡ some f → first_or (entries fs) head ≡ framelist_entry f
first?-first_or head f [] e = absurd (cc)
first?-first_or head f (g ∷ fs) e = ground (arith, e)

pub last?-last_or :
    (head f : ℕ) (fs : List ℕ) → last? fs ≡ some f → last_or head (entries fs) ≡ framelist_entry f
last?-last_or head f [] e = absurd (cc)
last?-last_or head f (g ∷ []) e = ground (arith, e)
last?-last_or head f (g ∷ h ∷ fs) e = last?-last_or (framelist_entry g) f (h ∷ fs) e

pub has-last? : (f : ℕ) (fs : List ℕ) → last? fs ≡ some f → has fs f ≡ true
has-last? f [] e = absurd (cc)
has-last? f (g ∷ []) e = ground (arith, e)
has-last? f (g ∷ h ∷ fs) e = ground (arith, has-last? f (h ∷ fs) e)

pub has-first? : (f : ℕ) (fs : List ℕ) → first? fs ≡ some f → has fs f ≡ true
has-first? f [] e = absurd (cc)
has-first? f (g ∷ fs) e = ground (arith, e)

pub without_none : (fs : List ℕ) (f : ℕ) → has fs f ≡ false → without fs f ≡ fs
without_none [] f h = refl
without_none (g ∷ fs) f h = ground (arith, ap (λ r. g ∷ r) (without_none fs f (ground (arith, h))))

pub positive_of :
    (z : ℤ) (fs : List ℕ) (f : ℕ) → z ≡ pos (length fs) → has fs f ≡ true → size_positive z ≡ true
positive_of z [] f e h = absurd (ground arith)
positive_of z (g ∷ fs) f e h = ap size_positive e ∙ ground arith

pub some_first : (fs : List ℕ) → 0 < length fs → (f : ℕ) × (first? fs ≡ some f)
some_first [] h = absurd (omega arith)
some_first (f ∷ fs) h = (f, refl)

pub some_last : (fs : List ℕ) → 0 < length fs → (f : ℕ) × (last? fs ≡ some f)
some_last [] h = absurd (omega arith)
some_last (f ∷ []) h = (f, refl)
some_last (f ∷ g ∷ fs) h = some_last (g ∷ fs) (omega arith)

module _ {F : Type 0} where
  pub evict_head_a1_run :
      (s : Memory S2q F) (f m : ℕ) (frame : Frame) (l : Links)
      → size_positive s.policy.a1_size ≡ true
      → s.policy.links.next a1_head ≡ some (framelist_entry f)
      → get_elem? s.coremap f ≡ some frame
      → frame.in_use ≡ true
      → list_del (framelist_entry f) s.policy.links ≡ some (tt, l)
      → l.next (framelist_entry f) ≡ none
      → pred_ℤ s.policy.a1_size ≡ pos m
      → evict_head_a1 s
        ≡ some (f, record s { policy = record s.policy { links = l; a1_size = pos m } })
  unfolding evict_head_a1 list_entry_is_linked
  evict_head_a1_run s f m frame l positive first found used del out size =
      simp (positive, first, found, used, del, out, size) refl

  pub evict_tail_am_run :
      (s : Memory S2q F) (f m n p : ℕ) (frame : Frame) (e : Pte) (l : Links)
      → size_positive s.policy.am_size ≡ true
      → s.policy.links.prev am_head ≡ some (framelist_entry f)
      → s.policy.links.next (framelist_entry f) ≡ some n
      → get_elem? s.coremap f ≡ some frame
      → frame.in_use ≡ true
      → frame.pte ≡ some p
      → s.ptes p ≡ some e
      → e.referenced_bit ≡ 1
      → list_del (framelist_entry f) s.policy.links ≡ some (tt, l)
      → l.next (framelist_entry f) ≡ none
      → pred_ℤ s.policy.am_size ≡ pos m
      → evict_tail_am s
        ≡ some (f, record s { policy = record s.policy { links = l; am_size = pos m } })
  unfolding evict_tail_am list_entry_is_linked get_referenced
  evict_tail_am_run s f m n p frame e l positive last linked found used entry here bit del out
        size =
      let set : (e.referenced_bit == 1) ≡ true = ground (arith, bit) in
      simp (positive, last, linked, found, used, entry, here, set, del, out, size) refl

  pub s2q_evict_run :
      (s t : Memory S2q F) (f p : ℕ) (frame : Frame) (e : Pte)
      → (if size_above s.policy.a1_size s.policy.threshold then evict_head_a1 else evict_tail_am) s
        ≡ some (f, t)
      → get_elem? t.coremap f ≡ some frame
      → frame.pte ≡ some p
      → t.ptes p ≡ some e
      → s2q_evict s ≡ some (f, marked p e 0 t)
  unfolding s2q_evict set_referenced
  s2q_evict_run s t f p frame e evict found entry here = simp (evict, found, entry, here) refl
