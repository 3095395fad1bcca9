-- ===== src/Memory/Insertion.antt =====
-- list.h: what insertions do to the sequence that a circular list stands for.
use os_library.Base.{
  ℕ, ◌≡◌, refl, subst, ◌∙◌, ◌≢◌, Option, some, List, [], ◌∷◌, ◌++◌, update, ◌==◌, ==-eq-false,
  Bool-cases, inl, inr, arith, false,
}
use os_library.Memory.Lists.{Links, list_insert, list_add_head, list_add_tail}
use os_library.Memory.Rings.{
  Prevs, Avoids, Distinct, Ring, SameElsewhere, first_or, last_or, set_self, set_ne, ne_sym,
  Nexts-first, Prevs-last, Nexts-set, Nexts-start, Nexts-end, Prevs-set, Prevs-start, Prevs-end,
  first_ne, last_ne, Nexts-append, Prevs-append, Avoids-append,
}

-- What an insertion leaves: the list stands for the new sequence, and no other entry has changed.
pub record Inserted (s : Links) (head x : ℕ) (xs xs' : List ℕ) (r : Option (Unit {0} × Links))
    : Type 0 where
  pub after : Links
  pub returns : r ≡ some (tt, after)
  pub ring : Ring after head xs'
  pub elsewhere : SameElsewhere s after (x ∷ head ∷ xs)

inserted : Links → ℕ → ℕ → ℕ → Links
inserted s entry before after = record {
  next = update (update s.next entry (some after)) before (some entry);
  prev = update (update s.prev after (some entry)) entry (some before);
}

list_insert_run :
    (s : Links) (entry before after : ℕ)
    → list_insert entry before after s ≡ some (tt, inserted s entry before after)
unfolding list_insert inserted
list_insert_run s entry before after = refl

list_add_head-Inserted :
    (s : Links) (head x : ℕ) (xs : List ℕ)
    → Ring s head xs
    → Avoids x (head ∷ xs)
    → Inserted s head x xs (x ∷ xs) (list_add_head head x s)
unfolding list_add_head inserted
list_add_head-Inserted s head x xs r new =
    let n = first_or xs head in
    let f = update s.next x (some n) in
    let g = update s.prev n (some x) in
    let back = ne_sym x head new.0 in
    record {
      after = inserted s x head n;
      returns = simp (Nexts-first s.next head head xs r.nexts) (list_insert_run s x head n);
      ring = record {
        nexts = (
          set_self f head (some x),
          Nexts-set f x head head (some x) xs back r.apart.0 (
              Nexts-start f head x head xs
                (Nexts-set s.next head head x (some n) xs new.0 new.1 r.nexts)
                (set_self s.next x (some n))),
        );
        prevs = (
          set_self g x (some head),
          Prevs-set g x head x (some head) xs new.0 new.1
              (Prevs-start s.prev head x head xs r.apart.1 r.apart.0 r.prevs),
        );
        apart = ((back, r.apart.0), (new.1, r.apart.1));
      };
      elsewhere = λ e h. (
        set_ne f head e (some x) (ne_sym e head h.1.0)
            ∙ set_ne s.next x e (some n) (ne_sym e x h.0),
        set_ne g x e (some head) (ne_sym e x h.0)
            ∙ set_ne s.prev n e (some x) (first_ne e head xs h.1),
      );
    }

update_comm_at :
    (f : ℕ → Option ℕ) (k l j : ℕ) (v w : Option ℕ)
    → k ≢ l
    → update (update f k v) l w j ≡ update (update f l w) k v j
update_comm_at f k l j v w h = elim (Bool-cases (l == j)) [
  | inl e ↦
      let other : (k == j) ≡ false = ==-eq-false (λ p. h (ground (arith, p, e))) in
      simp (e, other) refl
  | inr e ↦ simp (e) refl
]

update_comm :
    (f : ℕ → Option ℕ) (k l : ℕ) (v w : Option ℕ)
    → k ≢ l
    → update (update f k v) l w ≡ update (update f l w) k v
update_comm f k l v w h = λ i j. update_comm_at f k l j v w h i

Distinct-append : (x : ℕ) (xs : List ℕ) → Distinct xs → Avoids x xs → Distinct (xs ++ x ∷ [])
Distinct-append x [] d h = (tt, tt)
Distinct-append x (y ∷ xs) d h =
    (Avoids-append y xs (x ∷ []) d.0 (ne_sym x y h.0, tt), Distinct-append x xs d.1 h.1)

list_add_tail-Inserted :
    (s : Links) (head x : ℕ) (xs : List ℕ)
    → Ring s head xs
    → Avoids x (head ∷ xs)
    → Inserted s head x xs (xs ++ x ∷ []) (list_add_tail head x s)
unfolding list_add_tail inserted
list_add_tail-Inserted s head x xs r new =
    let l = last_or head xs in
    let f = update s.next x (some head) in
    let g = update s.prev x (some l) in
    let back = ne_sym x head new.0 in
    let last_x = last_ne x head xs new in
    record {
      after = inserted s x l head;
      returns = simp (Prevs-last s.prev head head xs r.prevs) (list_insert_run s x l head);
      ring = record {
        nexts =
            Nexts-append (update f l (some x)) head head x xs []
              (Nexts-end f head head x xs r.apart
                (Nexts-set s.next head head x (some head) xs new.0 new.1 r.nexts))
              (set_ne f l x (some x) last_x ∙ set_self s.next x (some head));
        prevs =
            subst (λ p. Prevs p head (xs ++ x ∷ []) head)
              (update_comm s.prev x head (some l) (some x) new.0)
              (Prevs-append (update g head (some x)) head head x xs []
                (Prevs-set g head x head (some x) xs back r.apart.0 (
                  Prevs-end g head head x xs
                    (Prevs-set s.prev head head x (some l) xs new.0 new.1 r.prevs)
                    (set_self s.prev x (some l))))
                (set_self g head (some x)));
        apart = (
          Avoids-append head xs (x ∷ []) r.apart.0 (back, tt),
          Distinct-append x xs r.apart.1 new.1,
        );
      };
      elsewhere = λ e h. (
        set_ne f l e (some x) (last_ne e head xs h.1)
            ∙ set_ne s.next x e (some head) (ne_sym e x h.0),
        set_ne (update s.prev head (some x)) x e (some l) (ne_sym e x h.0)
            ∙ set_ne s.prev head e (some x) (ne_sym e head h.1.0),
      );
    }

-- `list_add_head` and `list_add_tail` of an entry that is not in a circular list return: the list stands for the
-- sequence with the entry before all others, or after them, and no other entry has changed.
pub list_adds-Inserted :
    (s : Links) (head x : ℕ) (xs : List ℕ)
    → Ring s head xs
    → Avoids x (head ∷ xs)
    → Inserted s head x xs (x ∷ xs) (list_add_head head x s)
      × Inserted s head x xs (xs ++ x ∷ []) (list_add_tail head x s)
list_adds-Inserted s head x xs r new =
    (list_add_head-Inserted s head x xs r new, list_add_tail-Inserted s head x xs r new)
