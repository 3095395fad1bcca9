-- ===== src/Memory/QueueMoves.antt =====
-- s2q.c: a frame is taken out of Am or A1, or put into them, on the level of the lists.
use os_library.Base.{
  ℕ, suc, ◌≡◌, refl, sym, ap, ◌∙◌, ◌≢◌, none, some, true, false, List, [], ◌∷◌, ◌++◌, length, arith,
  ◌==◌, Bool-cases, inl, inr, length-append,
}
use os_library.Base.Int.{ℤ, pos, pred_ℤ}
use os_library.Base.Members.{has, without, has-snoc, has-without, length-without}
use os_library.Memory.Lists.{Links, list_del, list_add_head, list_add_tail}
use os_library.Memory.Rings.{Nexts, Nexts-first, first_or}
use os_library.Memory.TwoQueues.{S2q, am_head, a1_head, framelist_entry}
use os_library.Memory.Queues.{
  entries, Queues, delete_entry, add_entry, kept_elsewhere, still_idle, has-without_ring,
}

pub other_way :
    (fs gs : List ℕ)
    → ((g : ℕ) → has fs g ≡ true → has gs g ≡ false)
    → (g : ℕ) → has gs g ≡ true
    → has fs g ≡ false
other_way fs gs h g p = elim (Bool-cases (has fs g)) [ inl e ↦ absurd (cc (h g e, p)) | inr e ↦ e ]

differs : (fs : List ℕ) (f g : ℕ) → has fs f ≡ false → has fs g ≡ true → g ≢ f
differs fs f g h p e = absurd (cc (h, p, ap (has fs) e))

-- What is left of a list when a frame is taken out of it, seen from the other.
left_apart :
    (mine others : List ℕ) (f : ℕ)
    → ((g : ℕ) → has mine g ≡ true → has others g ≡ false)
    → has mine f ≡ true
    → (g : ℕ) → has others g ≡ true
    → (has (without mine f) g ≡ false) × (g ≢ f)
left_apart mine others f sep h g p =
    (has-without mine f g (other_way mine others sep g p), differs others f g (sep f h) p)

pub delete_am :
    (q : S2q) (am a1 : List ℕ) (f : ℕ)
    → Queues q am a1
    → has am f ≡ true
    → (l : Links) × (list_del (framelist_entry f) q.links ≡ some (tt, l))
      × (l.next (framelist_entry f) ≡ none)
      × Queues (record q { links = l; am_size = pos (length (without am f)) }) (without am f) a1
delete_am q am a1 f w h =
    let (l, returns, out, ring, same) = delete_entry q.links am_head f am w.am_ring h in
    let left = λ (g : ℕ). has-without_ring am f g w.am_ring.apart.1 in
    (
      l,
      returns,
      out,
      record {
        am_ring = ring;
        a1_ring =
            kept_elsewhere q.links l am_head a1_head f (without am f) a1 (omega arith) (omega arith)
              (omega arith) (left_apart am a1 f w.separate h) same w.a1_ring;
        separate = λ g p. w.separate g (ground (arith, left g, p));
        idle = λ g p r. elim (Bool-cases (f == g)) [
          | inl e ↦
              let here : f ≡ g = ground (arith, e) in
              ap (λ k. l.next (framelist_entry k)) (sym here) ∙ out
          | inr e ↦
              still_idle q.links l am_head f g (without am f) (omega arith) p
                (λ d. absurd (ground (arith, e, d))) same
              ∙ w.idle g (ground (arith, left g, p, e)) r
        ];
        am_counted = refl;
        a1_counted = w.a1_counted;
      },
    )

pub delete_a1 :
    (q : S2q) (am a1 : List ℕ) (f : ℕ)
    → Queues q am a1
    → has a1 f ≡ true
    → (l : Links) × (list_del (framelist_entry f) q.links ≡ some (tt, l))
      × (l.next (framelist_entry f) ≡ none)
      × Queues (record q { links = l; a1_size = pos (length (without a1 f)) }) am (without a1 f)
delete_a1 q am a1 f w h =
    let (l, returns, out, ring, same) = delete_entry q.links a1_head f a1 w.a1_ring h in
    let left = λ (g : ℕ). has-without_ring a1 f g w.a1_ring.apart.1 in
    (
      l,
      returns,
      out,
      record {
        am_ring =
            kept_elsewhere q.links l a1_head am_head f (without a1 f) am (omega arith) (omega arith)
              (omega arith) (left_apart a1 am f (other_way am a1 w.separate) h) same w.am_ring;
        a1_ring = ring;
        separate = λ g p. has-without a1 f g (w.separate g p);
        idle = λ g p r. elim (Bool-cases (f == g)) [
          | inl e ↦
              let here : f ≡ g = ground (arith, e) in
              ap (λ k. l.next (framelist_entry k)) (sym here) ∙ out
          | inr e ↦
              still_idle q.links l a1_head f g (without a1 f) (omega arith) r
                (λ d. absurd (ground (arith, e, d))) same
              ∙ w.idle g p (ground (arith, left g, r, e))
        ];
        am_counted = w.am_counted;
        a1_counted = refl;
      },
    )

-- A list that a frame of neither is put into, seen from the other.
new_apart :
    (mine others : List ℕ) (f : ℕ)
    → ((g : ℕ) → has mine g ≡ true → has others g ≡ false)
    → has others f ≡ false
    → (g : ℕ) → has others g ≡ true
    → (has mine g ≡ false) × (g ≢ f)
new_apart mine others f sep h g p = (other_way mine others sep g p, differs others f g h p)

pub push_am :
    (q : S2q) (am a1 : List ℕ) (f : ℕ)
    → Queues q am a1
    → has am f ≡ false
    → has a1 f ≡ false
    → (l : Links) × (list_add_head am_head (framelist_entry f) q.links ≡ some (tt, l))
      × (l.next (framelist_entry f) ≡ some (first_or (entries am) am_head))
      × Queues (record q { links = l; am_size = pos (suc (length am)) }) (f ∷ am) a1
push_am q am a1 f w h g1 =
    let (l, returns, linked, ring, same) =
      (add_entry q.links am_head f am w.am_ring (omega arith) h).0 in
    (
      l,
      returns,
      linked,
      record {
        am_ring = ring;
        a1_ring =
            kept_elsewhere q.links l am_head a1_head f am a1 (omega arith) (omega arith)
              (omega arith) (new_apart am a1 f w.separate g1) same w.a1_ring;
        separate = λ g p. elim (Bool-cases (f == g)) [
          | inl e ↦ let here : f ≡ g = ground (arith, e) in ap (has a1) (sym here) ∙ g1
          | inr e ↦ w.separate g (ground (arith, e, p))
        ];
        idle = λ g p r.
            still_idle q.links l am_head f g am (omega arith) (ground (arith, p))
              (λ d. absurd (ground (arith, p, d))) same
            ∙ w.idle g (ground (arith, p)) r;
        am_counted = refl;
        a1_counted = w.a1_counted;
      },
    )

pub append_a1 :
    (q : S2q) (am a1 : List ℕ) (f : ℕ)
    → Queues q am a1
    → has am f ≡ false
    → has a1 f ≡ false
    → (l : Links) × (list_add_tail a1_head (framelist_entry f) q.links ≡ some (tt, l))
      × (l.next (framelist_entry f) ≡ some a1_head)
      × Queues (record q { links = l; a1_size = pos (suc (length a1)) }) am (a1 ++ f ∷ [])
append_a1 q am a1 f w h g1 =
    let (l, returns, linked, ring, same) =
      (add_entry q.links a1_head f a1 w.a1_ring (omega arith) g1).1 in
    let more = λ (g : ℕ). has-snoc a1 f g in
    (
      l,
      returns,
      linked,
      record {
        am_ring =
            kept_elsewhere q.links l a1_head am_head f a1 am (omega arith) (omega arith)
              (omega arith) (new_apart a1 am f (other_way am a1 w.separate) h) same w.am_ring;
        a1_ring = ring;
        separate = λ g p. more g ∙ ground (arith, w.separate g p, h, p);
        idle = λ g p r.
            still_idle q.links l a1_head f g a1 (omega arith) (ground (arith, more g, r))
              (λ d. absurd (ground (arith, more g, r, d))) same
            ∙ w.idle g p (ground (arith, more g, r));
        am_counted = w.am_counted;
        a1_counted = ap pos (omega (arith, length-append a1 (f ∷ [])));
      },
    )

-- A frame of a list is linked, and the list is one shorter without it.
pub linked_in :
    (s : Links) (a b f : ℕ) (fs : List ℕ)
    → Nexts s.next a (entries fs) b
    → has fs f ≡ true
    → (n : ℕ) × (s.next (framelist_entry f) ≡ some n)
linked_in s a b f [] n h = absurd (ground arith)
linked_in s a b f (g ∷ fs) n h = elim (Bool-cases (g == f)) [
  | inl e ↦
      let here : framelist_entry f ≡ framelist_entry g = ground (arith, e) in
      (_, ap s.next here ∙ Nexts-first s.next (framelist_entry g) b (entries fs) n.1)
  | inr e ↦ linked_in s (framelist_entry g) b f fs n.1 (ground (arith, h, e))
]

pub shrinks :
    (z : ℤ) (fs : List ℕ) (f : ℕ)
    → z ≡ pos (length fs)
    → has fs f ≡ true
    → pred_ℤ z ≡ pos (length (without fs f))
shrinks z fs f e h = ap pred_ℤ (e ∙ ap pos (sym (length-without fs f h)))
