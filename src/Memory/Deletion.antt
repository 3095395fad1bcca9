-- ===== src/Memory/Deletion.antt =====
-- list.h: what a deletion does to the sequence that a circular list stands for.
use os_library.Base.{
  ℕ, ◌≡◌, refl, ◌∙◌, ◌≢◌, Option, none, some, List, [], ◌∷◌, ◌++◌, All, update, ◌==◌, false,
  ==-eq-false,
}
use os_library.Memory.Lists.{Links, list_entry_init, list_del}
use os_library.Memory.Rings.{
  Nexts, Prevs, Avoids, Distinct, Ring, SameElsewhere, first_or, last_or, set_self, set_ne, ne_sym,
  Nexts-first, Prevs-last, Nexts-set, Nexts-start, Prevs-set, Prevs-start, first_ne, last_ne,
  Avoids-append,
}

Nexts-split :
    (f : ℕ → Option ℕ) (a b x : ℕ) (xs ys : List ℕ)
    → Nexts f a (xs ++ x ∷ ys) b
    → Nexts f a xs x × Nexts f x ys b
Nexts-split f a b x [] ys h = (h.0, h.1)
Nexts-split f a b x (y ∷ xs) ys h =
    let rest = Nexts-split f y b x xs ys h.1 in ((h.0, rest.0), rest.1)

Prevs-split :
    (f : ℕ → Option ℕ) (a b x : ℕ) (xs ys : List ℕ)
    → Prevs f a (xs ++ x ∷ ys) b
    → Prevs f a xs x × Prevs f x ys b
Prevs-split f a b x [] ys h = (h.0, h.1)
Prevs-split f a b x (y ∷ xs) ys h =
    let rest = Prevs-split f y b x xs ys h.1 in ((h.0, rest.0), rest.1)

-- The entry between two chains is passed by.
Nexts-without :
    (f : ℕ → Option ℕ) (a b x : ℕ) (xs ys : List ℕ)
    → Distinct (a ∷ xs)
    → last_or a xs ≢ x
    → Avoids (last_or a xs) ys
    → Nexts f a xs x
    → Nexts f x ys b
    → Nexts (update f (last_or a xs) (some (first_or ys b))) a (xs ++ ys) b
Nexts-without f a b x [] ys d ne av n m =
    Nexts-start (update f a (some (first_or ys b))) x a b ys
      (Nexts-set f x b a (some (first_or ys b)) ys ne av m) (set_self f a (some (first_or ys b)))
Nexts-without f a b x (y ∷ xs) ys d ne av n m = (
  set_ne f (last_or y xs) a (some (first_or ys b)) (last_ne a y xs d.0) ∙ n.0,
  Nexts-without f y b x xs ys d.1 ne av n.1 m,
)

Prevs-without :
    (f : ℕ → Option ℕ) (a b x : ℕ) (xs ys : List ℕ)
    → Distinct ys
    → Avoids b ys
    → Avoids (first_or ys b) xs
    → Prevs f a xs x
    → Prevs f x ys b
    → Prevs (update f (first_or ys b) (some (last_or a xs))) a (xs ++ ys) b
Prevs-without f a b x [] ys d h av n m = Prevs-start f x a b ys d h m
Prevs-without f a b x (y ∷ xs) ys d h av n m = (
  set_ne f (first_or ys b) y (some (last_or y xs)) av.0 ∙ n.0,
  Prevs-without f y b x xs ys d h av.1 n.1 m,
)

Avoids-split :
    (e x : ℕ) (xs ys : List ℕ)
    → Avoids e (xs ++ x ∷ ys)
    → Avoids e xs × (e ≢ x) × Avoids e ys × Avoids e (xs ++ ys)
Avoids-split e x [] ys h = (tt, h.0, h.1, h.1)
Avoids-split e x (y ∷ xs) ys h =
    let rest = Avoids-split e x xs ys h.1 in ((h.0, rest.0), rest.1, rest.2, (h.0, rest.3))

Avoids-both : (e : ℕ) (xs ys : List ℕ) → Avoids e (xs ++ ys) → Avoids e xs × Avoids e ys
Avoids-both e [] ys h = (tt, h)
Avoids-both e (x ∷ xs) ys h = let rest = Avoids-both e xs ys h.1 in ((h.0, rest.0), rest.1)

-- What distinct entries around `x` say of the parts.
record Parts (x : ℕ) (xs ys : List ℕ) : Type 0 where
  left : Distinct xs
  right : Distinct ys
  not_left : Avoids x xs
  not_right : Avoids x ys
  disjoint : All (λ y. Avoids y ys) xs
  together : Distinct (xs ++ ys)

split_apart : (x : ℕ) (xs ys : List ℕ) → Distinct (xs ++ x ∷ ys) → Parts x xs ys
split_apart x [] ys d = record {
  left = tt;
  right = d.1;
  not_left = tt;
  not_right = d.0;
  disjoint = tt;
  together = d.1;
}
split_apart x (y ∷ xs) ys d =
    let rest = split_apart x xs ys d.1 in
    let av = Avoids-split y x xs ys d.0 in
    record {
      left = (av.0, rest.left);
      right = rest.right;
      not_left = (ne_sym y x av.1, rest.not_left);
      not_right = rest.not_right;
      disjoint = (av.2, rest.disjoint);
      together = (av.3, rest.together);
    }

last_or-Avoids :
    (a : ℕ) (xs ys : List ℕ) → All (λ y. Avoids y ys) (a ∷ xs) → Avoids (last_or a xs) ys
last_or-Avoids a [] ys h = h.0
last_or-Avoids a (x ∷ xs) ys h = last_or-Avoids x xs ys h.1

first_or-Avoids :
    (b : ℕ) (xs ys : List ℕ) → Avoids b xs → All (λ y. Avoids y ys) xs → Avoids (first_or ys b) xs
first_or-Avoids b xs [] h d = h
first_or-Avoids b [] (y ∷ ys) h d = tt
first_or-Avoids b (x ∷ xs) (y ∷ ys) h d = (ne_sym x y d.0.0, first_or-Avoids b xs (y ∷ ys) h.1 d.1)

-- What a deletion leaves: the entry unlinked, and the list without it; no other entry has changed.
pub record Deleted (s : Links) (head x : ℕ) (xs ys : List ℕ) (r : Option (Unit {0} × Links))
    : Type 0 where
  pub after : Links
  pub returns : r ≡ some (tt, after)
  pub ring : Ring after head (xs ++ ys)
  pub unlinked : (after.next x ≡ none) × (after.prev x ≡ none)
  pub elsewhere : SameElsewhere s after (x ∷ head ∷ xs ++ ys)

-- The links after `x` was taken out between two entries.
abbrev without : Links → ℕ → ℕ → ℕ → Links
without s x before after = record {
  next = update (update s.next before (some after)) x none;
  prev = update (update s.prev after (some before)) x none;
}

list_del_run :
    (s : Links) (x before after : ℕ)
    → s.next x ≡ some after
    → s.prev x ≡ some before
    → after ≢ x
    → list_del x s ≡ some (tt, without s x before after)
unfolding list_del list_entry_init
list_del_run s x before after n p ne =
    let other : (after == x) ≡ false = ==-eq-false ne in simp (n, p, other) refl

-- `list_del` of an entry of a circular list returns: the list stands for the sequence without the entry, which is
-- unlinked, and no other entry has changed.
pub list_del-Deleted :
    (s : Links) (head x : ℕ) (xs ys : List ℕ)
    → Ring s head (xs ++ x ∷ ys)
    → Deleted s head x xs ys (list_del x s)
list_del-Deleted s head x xs ys r =
    let parts = split_apart x (head ∷ xs) ys r.apart in
    let n = first_or ys head in
    let p = last_or head xs in
    let forth = Nexts-split s.next head head x xs ys r.nexts in
    let back = Prevs-split s.prev head head x xs ys r.prevs in
    let not_after : n ≢ x = first_ne x head ys (parts.not_left.0, parts.not_right) in
    let not_before : p ≢ x = last_ne x head xs parts.not_left in
    let out = Avoids-append x xs ys parts.not_left.1 parts.not_right in
    record {
      after = without s x p n;
      returns =
          list_del_run s x p n (Nexts-first s.next x head ys forth.1)
            (Prevs-last s.prev head x xs back.0) not_after;
      ring = record {
        nexts =
            Nexts-set (update s.next p (some n)) head head x none (xs ++ ys) parts.not_left.0 out (
              Nexts-without s.next head head x xs ys parts.left not_before
                (last_or-Avoids head xs ys parts.disjoint) forth.0 forth.1);
        prevs =
            Prevs-set (update s.prev n (some p)) head head x none (xs ++ ys) parts.not_left.0 out (
              Prevs-without s.prev head head x xs ys parts.right parts.disjoint.0
                (first_or-Avoids head xs ys parts.left.0 parts.disjoint.1) back.0 back.1);
        apart = parts.together;
      };
      unlinked =
          (set_self (update s.next p (some n)) x none, set_self (update s.prev n (some p)) x none);
      elsewhere = λ e h.
          let out = Avoids-both e (head ∷ xs) ys h.1 in
          let n_ne = first_ne e head ys (h.1.0, out.1) in
          let p_ne = last_ne e head xs out.0 in
          (
            set_ne (update s.next p (some n)) x e none (ne_sym e x h.0)
                ∙ set_ne s.next p e (some n) p_ne,
            set_ne (update s.prev n (some p)) x e none (ne_sym e x h.0)
                ∙ set_ne s.prev n e (some p) n_ne,
          );
    }
