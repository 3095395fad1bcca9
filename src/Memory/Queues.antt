-- ===== src/Memory/Queues.antt =====
-- s2q.c: the lists Am and A1 as two sequences of frames, and what taking a frame out and putting one in does to them.
use os_library.Base.{
  ℕ, ◌<◌, ◌≡◌, refl, sym, ap, subst, ◌∙◌, ◌≢◌, Option, none, some, true, false, List, [], ◌∷◌, ◌++◌,
  All, length, arith, ◌==◌, if◌then◌else◌, Bool-cases, inl, inr,
}
use os_library.Base.Int.{pos}
use os_library.Base.Members.{has, without}
use os_library.Memory.Lists.{Links, list_del, list_add_head, list_add_tail}
use os_library.Memory.Rings.{
  Nexts, Prevs, Avoids, Distinct, Ring, SameElsewhere, Nexts-first, first_or,
}
use os_library.Memory.Deletion.{list_del-Deleted}
use os_library.Memory.Insertion.{list_adds-Inserted}
use os_library.Memory.TwoQueues.{S2q, am_head, a1_head, framelist_entry}

abbrev pub entries : List ℕ → List ℕ
entries [] = []
entries (f ∷ fs) = framelist_entry f ∷ entries fs

-- The lists Am and A1 stand for two sequences with no common frame, their sizes are the lengths of these, and the list
-- entries of the other frames are not linked.
pub record Queues (q : S2q) (am a1 : List ℕ) : Type 0 where
  pub am_ring : Ring q.links am_head (entries am)
  pub a1_ring : Ring q.links a1_head (entries a1)
  pub separate : (g : ℕ) → has am g ≡ true → has a1 g ≡ false
  pub idle : (g : ℕ) → has am g ≡ false → has a1 g ≡ false → q.links.next (framelist_entry g) ≡ none
  pub am_counted : q.am_size ≡ pos (length am)
  pub a1_counted : q.a1_size ≡ pos (length a1)

Nexts-same :
    (f g : ℕ → Option ℕ) (a b : ℕ) (xs : List ℕ)
    → All (λ e. g e ≡ f e) (a ∷ xs)
    → Nexts f a xs b
    → Nexts g a xs b
Nexts-same f g a b [] h n = h.0 ∙ n
Nexts-same f g a b (x ∷ xs) h n = (h.0 ∙ n.0, Nexts-same f g x b xs h.1 n.1)

Prevs-same :
    (f g : ℕ → Option ℕ) (a b : ℕ) (xs : List ℕ)
    → g b ≡ f b
    → All (λ e. g e ≡ f e) xs
    → Prevs f a xs b
    → Prevs g a xs b
Prevs-same f g a b [] e h n = e ∙ n
Prevs-same f g a b (x ∷ xs) e h n = (h.0 ∙ n.0, Prevs-same f g x b xs e h.1 n.1)

same_next :
    (s t : Links) (ys xs : List ℕ)
    → SameElsewhere s t ys
    → All (λ e. Avoids e ys) xs
    → All (λ e. t.next e ≡ s.next e) xs
same_next s t ys [] same h = tt
same_next s t ys (x ∷ xs) same h = ((same x h.0).0, same_next s t ys xs same h.1)

same_prev :
    (s t : Links) (ys xs : List ℕ)
    → SameElsewhere s t ys
    → All (λ e. Avoids e ys) xs
    → All (λ e. t.prev e ≡ s.prev e) xs
same_prev s t ys [] same h = tt
same_prev s t ys (x ∷ xs) same h = ((same x h.0).1, same_prev s t ys xs same h.1)

-- A list none of whose entries was changed.
Ring-SameElsewhere :
    (s t : Links) (head : ℕ) (xs ys : List ℕ)
    → Ring s head xs
    → SameElsewhere s t ys
    → All (λ e. Avoids e ys) (head ∷ xs)
    → Ring t head xs
Ring-SameElsewhere s t head xs ys r same h = record {
  nexts = Nexts-same s.next t.next head head xs (same_next s t ys (head ∷ xs) same h) r.nexts;
  prevs =
      Prevs-same s.prev t.prev head head xs (same head h.0).1 (same_prev s t ys xs same h.1)
        r.prevs;
  apart = r.apart;
}

absent-Avoids : (g : ℕ) (fs : List ℕ) → has fs g ≡ false → Avoids (framelist_entry g) (entries fs)
absent-Avoids g [] h = tt
absent-Avoids g (f ∷ fs) h =
    (λ e. absurd (ground (arith, h, e)), absent-Avoids g fs (ground (arith, h)))

Avoids-absent : (g : ℕ) (fs : List ℕ) → Avoids (framelist_entry g) (entries fs) → has fs g ≡ false
Avoids-absent g [] h = refl
Avoids-absent g (f ∷ fs) h = ground (arith, h.0, Avoids-absent g fs h.1)

head-Avoids : (head : ℕ) (fs : List ℕ) → head < 2 → Avoids head (entries fs)
head-Avoids head [] h = tt
head-Avoids head (f ∷ fs) h = (omega arith, head-Avoids head fs h)

All-entries :
    (fs ys : List ℕ)
    → ((g : ℕ) → has fs g ≡ true → Avoids (framelist_entry g) ys)
    → All (λ e. Avoids e ys) (entries fs)
All-entries [] ys h = tt
All-entries (f ∷ fs) ys h = (h f (ground arith), All-entries fs ys (λ g p. h g (ground (arith, p))))

entries-append : (xs ys : List ℕ) → entries (xs ++ ys) ≡ entries xs ++ entries ys
entries-append [] ys = refl
entries-append (x ∷ xs) ys = ap (λ r. framelist_entry x ∷ r) (entries-append xs ys)

split_at :
    (fs : List ℕ) (f : ℕ)
    → has fs f ≡ true
    → (xs : List ℕ) × (ys : List ℕ) × (fs ≡ xs ++ f ∷ ys) × (without fs f ≡ xs ++ ys)
split_at [] f h = absurd (ground arith)
split_at (g ∷ fs) f h = elim (Bool-cases (g == f)) [
  | inl e ↦ ([], fs, ground (arith, e), ground (arith, e))
  | inr e ↦
      let rest = split_at fs f (ground (arith, h, e)) in
      (g ∷ rest.0, rest.1, ap (λ r. g ∷ r) rest.2, ground (arith, e, ap (λ r. g ∷ r) rest.3))
]

-- A frame of a list is taken out.
pub delete_entry :
    (s : Links) (head f : ℕ) (fs : List ℕ)
    → Ring s head (entries fs)
    → has fs f ≡ true
    → (l : Links) × (list_del (framelist_entry f) s ≡ some (tt, l))
      × (l.next (framelist_entry f) ≡ none)
      × Ring l head (entries (without fs f))
      × SameElsewhere s l (framelist_entry f ∷ head ∷ entries (without fs f))
delete_entry s head f fs r h =
    let (xs, ys, whole, left) = split_at fs f h in
    let all : entries fs ≡ entries xs ++ framelist_entry f ∷ entries ys =
      ap entries whole ∙ entries-append xs (f ∷ ys) in
    let rest : entries xs ++ entries ys ≡ entries (without fs f) =
      sym (ap entries left ∙ entries-append xs ys) in
    let d =
      list_del-Deleted s head (framelist_entry f) (entries xs) (entries ys)
        (subst (Ring s head) all r) in
    (
      d.after,
      d.returns,
      d.unlinked.0,
      subst (Ring d.after head) rest d.ring,
      subst (λ es. SameElsewhere s d.after (framelist_entry f ∷ head ∷ es)) rest d.elsewhere,
    )

-- A frame of neither list is put in, before the others or after them.
pub add_entry :
    (s : Links) (head f : ℕ) (fs : List ℕ)
    → Ring s head (entries fs)
    → head < 2
    → has fs f ≡ false
    → ((l : Links) × (list_add_head head (framelist_entry f) s ≡ some (tt, l))
        × (l.next (framelist_entry f) ≡ some (first_or (entries fs) head))
        × Ring l head (entries (f ∷ fs))
        × SameElsewhere s l (framelist_entry f ∷ head ∷ entries fs))
      × ((l : Links) × (list_add_tail head (framelist_entry f) s ≡ some (tt, l))
          × (l.next (framelist_entry f) ≡ some head)
          × Ring l head (entries (fs ++ f ∷ []))
          × SameElsewhere s l (framelist_entry f ∷ head ∷ entries fs))
add_entry s head f fs r low h =
    let i =
      list_adds-Inserted s head (framelist_entry f) (entries fs) r
        (omega arith, absent-Avoids f fs h) in
    let after = i.1.after in
    (
      (
        i.0.after,
        i.0.returns,
        Nexts-first i.0.after.next (framelist_entry f) head (entries fs) i.0.ring.nexts.1,
        i.0.ring,
        i.0.elsewhere,
      ),
      (
        after,
        i.1.returns,
        last_next after.next head (framelist_entry f) head (entries fs) i.1.ring.nexts,
        subst (Ring after head) (sym (entries-append fs (f ∷ []))) i.1.ring,
        i.1.elsewhere,
      ),
    )
  where
    last_next :
        (next : ℕ → Option ℕ) (a x b : ℕ) (xs : List ℕ)
        → Nexts next a (xs ++ x ∷ []) b
        → next x ≡ some b
    last_next next a x b [] n = n.1
    last_next next a x b (y ∷ xs) n = last_next next y x b xs n.1

-- The other list, none of whose frames is `f` or in `mine`.
pub kept_elsewhere :
    (s l : Links) (head head' f : ℕ) (mine others : List ℕ)
    → head < 2
    → head' < 2
    → head' ≢ head
    → ((g : ℕ) → has others g ≡ true → (has mine g ≡ false) × (g ≢ f))
    → SameElsewhere s l (framelist_entry f ∷ head ∷ entries mine)
    → Ring s head' (entries others)
    → Ring l head' (entries others)
kept_elsewhere s l head head' f mine others low low' ne apart same r =
    Ring-SameElsewhere s l head' (entries others) (framelist_entry f ∷ head ∷ entries mine) r same (
      (omega arith, (ne, head-Avoids head' mine low')),
      All-entries others (framelist_entry f ∷ head ∷ entries mine) (λ g p. (
        (λ e. (apart g p).1 (omega (arith, e))),
        (omega arith, absent-Avoids g mine (apart g p).0),
      )),
    )

-- A frame of neither list other than `f`.
pub still_idle :
    (s l : Links) (head f g : ℕ) (mine : List ℕ)
    → head < 2
    → has mine g ≡ false
    → g ≢ f
    → SameElsewhere s l (framelist_entry f ∷ head ∷ entries mine)
    → l.next (framelist_entry g) ≡ s.next (framelist_entry g)
still_idle s l head f g mine low h ne same =
    (same (framelist_entry g)
      ((λ e. ne (omega (arith, e))), (omega arith, absent-Avoids g mine h))).0

-- In a ring no frame stands twice.
pub has-without_ring :
    (fs : List ℕ) (f g : ℕ)
    → Distinct (entries fs)
    → has (without fs f) g ≡ (if f == g then false else has fs g)
has-without_ring [] f g d = ground arith
has-without_ring (x ∷ fs) f g d =
    ground (arith, has-without_ring fs f g d.1, Avoids-absent x fs d.0)
