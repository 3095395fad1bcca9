-- ===== src/Memory/Rings.antt =====
-- list.h: what the operations do to the sequence that a circular list stands for.
use os_library.Base.{
  ℕ, ◌≡◌, sym, ap, ◌∙◌, ◌≢◌, Option, some, List, [], ◌∷◌, ◌++◌, All, update, if◌then◌else◌, ==_refl,
  ==-eq-false,
}
use os_library.Memory.Lists.{Links}

-- From `a` the `next` pointers lead through `xs` to `b`.
abbrev pub Nexts : (ℕ → Option ℕ) → ℕ → List ℕ → ℕ → Type 0
Nexts next a [] b = next a ≡ some b
Nexts next a (x ∷ xs) b = (next a ≡ some x) × Nexts next x xs b

-- From `b` the `prev` pointers lead back through `xs` to `a`.
abbrev pub Prevs : (ℕ → Option ℕ) → ℕ → List ℕ → ℕ → Type 0
Prevs prev a [] b = prev b ≡ some a
Prevs prev a (x ∷ xs) b = (prev x ≡ some a) × Prevs prev x xs b

abbrev pub Avoids : ℕ → List ℕ → Type 0
Avoids x = All (λ y. x ≢ y)

abbrev pub Distinct : List ℕ → Type 0
Distinct [] = Unit
Distinct (x ∷ xs) = Avoids x xs × Distinct xs

-- The list with this head stands for the sequence `xs`.
pub record Ring (s : Links) (head : ℕ) (xs : List ℕ) : Type 0 where
  pub nexts : Nexts s.next head xs head
  pub prevs : Prevs s.prev head xs head
  pub apart : Distinct (head ∷ xs)

-- The links of the other entries are as they were.
abbrev pub SameElsewhere : Links → Links → List ℕ → Type 0
SameElsewhere s t xs = (e : ℕ) → Avoids e xs → (t.next e ≡ s.next e) × (t.prev e ≡ s.prev e)

abbrev pub first_or : List ℕ → ℕ → ℕ
first_or [] b = b
first_or (x ∷ xs) b = x

abbrev pub last_or : ℕ → List ℕ → ℕ
last_or a [] = a
last_or a (x ∷ xs) = last_or x xs

pub set_self : (f : ℕ → Option ℕ) (k : ℕ) (v : Option ℕ) → update f k v k ≡ v
set_self f k v = ap (λ q. if q then v else f k) (==_refl k)

pub set_ne : (f : ℕ → Option ℕ) (k j : ℕ) (v : Option ℕ) → k ≢ j → update f k v j ≡ f j
set_ne f k j v h = ap (λ q. if q then v else f j) (==-eq-false h)

pub Nexts-first :
    (f : ℕ → Option ℕ) (a b : ℕ) (xs : List ℕ) → Nexts f a xs b → f a ≡ some (first_or xs b)
Nexts-first f a b [] h = h
Nexts-first f a b (x ∷ xs) h = h.0

pub Prevs-last :
    (f : ℕ → Option ℕ) (a b : ℕ) (xs : List ℕ) → Prevs f a xs b → f b ≡ some (last_or a xs)
Prevs-last f a b [] h = h
Prevs-last f a b (x ∷ xs) h = Prevs-last f x b xs h.1

-- The start of a chain is moved, and an entry outside it may change.
pub Nexts-set :
    (f : ℕ → Option ℕ) (a b k : ℕ) (v : Option ℕ) (xs : List ℕ)
    → k ≢ a
    → Avoids k xs
    → Nexts f a xs b
    → Nexts (update f k v) a xs b
Nexts-set f a b k v [] ne h n = set_ne f k a v ne ∙ n
Nexts-set f a b k v (x ∷ xs) ne h n = (set_ne f k a v ne ∙ n.0, Nexts-set f x b k v xs h.0 h.1 n.1)

pub Nexts-start :
    (f : ℕ → Option ℕ) (a c b : ℕ) (xs : List ℕ)
    → Nexts f a xs b
    → f c ≡ some (first_or xs b)
    → Nexts f c xs b
Nexts-start f a c b [] n h = h
Nexts-start f a c b (x ∷ xs) n h = (h, n.1)

pub last_ne : (e a : ℕ) (xs : List ℕ) → Avoids e (a ∷ xs) → last_or a xs ≢ e
last_ne e a [] h = λ p. h.0 (sym p)
last_ne e a (x ∷ xs) h = last_ne e x xs h.1

pub first_ne : (e b : ℕ) (xs : List ℕ) → Avoids e (b ∷ xs) → first_or xs b ≢ e
first_ne e b [] h = λ p. h.0 (sym p)
first_ne e b (x ∷ xs) h = λ p. h.1.0 (sym p)

-- The end of a chain is moved.
pub Nexts-end :
    (f : ℕ → Option ℕ) (a b c : ℕ) (xs : List ℕ)
    → Distinct (a ∷ xs)
    → Nexts f a xs b
    → Nexts (update f (last_or a xs) (some c)) a xs c
Nexts-end f a b c [] d n = set_self f a (some c)
Nexts-end f a b c (x ∷ xs) d n =
    (set_ne f (last_or x xs) a (some c) (last_ne a x xs d.0) ∙ n.0, Nexts-end f x b c xs d.1 n.1)

pub Prevs-set :
    (f : ℕ → Option ℕ) (a b k : ℕ) (v : Option ℕ) (xs : List ℕ)
    → k ≢ b
    → Avoids k xs
    → Prevs f a xs b
    → Prevs (update f k v) a xs b
Prevs-set f a b k v [] ne h n = set_ne f k b v ne ∙ n
Prevs-set f a b k v (x ∷ xs) ne h n = (set_ne f k x v h.0 ∙ n.0, Prevs-set f x b k v xs ne h.1 n.1)

pub Prevs-start :
    (f : ℕ → Option ℕ) (a c b : ℕ) (xs : List ℕ)
    → Distinct xs
    → Avoids b xs
    → Prevs f a xs b
    → Prevs (update f (first_or xs b) (some c)) c xs b
Prevs-start f a c b [] d h n = set_self f b (some c)
Prevs-start f a c b (x ∷ xs) d h n =
    (set_self f x (some c), Prevs-set f x b x (some c) xs (λ e. h.0 (sym e)) d.0 n.1)

pub Prevs-end :
    (f : ℕ → Option ℕ) (a b c : ℕ) (xs : List ℕ)
    → Prevs f a xs b
    → f c ≡ some (last_or a xs)
    → Prevs f a xs c
Prevs-end f a b c [] n h = h
Prevs-end f a b c (x ∷ xs) n h = (n.0, Prevs-end f x b c xs n.1 h)

pub Nexts-append :
    (f : ℕ → Option ℕ) (a b x : ℕ) (xs ys : List ℕ)
    → Nexts f a xs x
    → Nexts f x ys b
    → Nexts f a (xs ++ x ∷ ys) b
Nexts-append f a b x [] ys n m = (n, m)
Nexts-append f a b x (y ∷ xs) ys n m = (n.0, Nexts-append f y b x xs ys n.1 m)

pub Prevs-append :
    (f : ℕ → Option ℕ) (a b x : ℕ) (xs ys : List ℕ)
    → Prevs f a xs x
    → Prevs f x ys b
    → Prevs f a (xs ++ x ∷ ys) b
Prevs-append f a b x [] ys n m = (n, m)
Prevs-append f a b x (y ∷ xs) ys n m = (n.0, Prevs-append f y b x xs ys n.1 m)

pub ne_sym : (a b : ℕ) → a ≢ b → b ≢ a
ne_sym a b h e = h (sym e)

pub Avoids-append : (e : ℕ) (xs ys : List ℕ) → Avoids e xs → Avoids e ys → Avoids e (xs ++ ys)
Avoids-append e [] ys h g = g
Avoids-append e (x ∷ xs) ys h g = (h.0, Avoids-append e xs ys h.1 g)
