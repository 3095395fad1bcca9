-- ===== src/Bitmap/Count.antt =====
-- The number of clear bits, and how one bit changes it.
use os_library.Base.{
  ℕ, zero, suc, ◌+◌, ◌-◌, ◌≤◌, ◌<◌, ◌≡◌, refl, ap, ◌∙◌, List, arith, ◌==◌, ltb, if◌then◌else◌, inl,
  inr, Bool-cases,
}
use os_library.Bitmap.Form.{bit}

-- How many of the first `n` bits are clear.
abbrev pub count_clear : ℕ → List ℕ → ℕ
count_clear zero words = 0
count_clear (suc n) words = count_clear n words + (1 - bit words n)

pub count_clear-le : (n : ℕ) (words : List ℕ) → count_clear n words ≤ n
count_clear-le zero words = omega arith
count_clear-le (suc n) words = omega (arith, count_clear-le n words)

count_clear-same :
    (n i b : ℕ) (words words' : List ℕ)
    → n ≤ i
    → ((j : ℕ) → bit words' j ≡ (if i == j then b else bit words j))
    → count_clear n words' ≡ count_clear n words
count_clear-same zero i b words words' h e = refl
count_clear-same (suc n) i b words words' h e =
    ground (arith, count_clear-same n i b words words' (omega arith) e, e n)

-- A clear bit is set.
pub count_clear-set :
    (n i : ℕ) (words words' : List ℕ)
    → i < n
    → bit words i ≡ 0
    → ((j : ℕ) → bit words' j ≡ (if i == j then 1 else bit words j))
    → count_clear n words ≡ suc (count_clear n words')
count_clear-set zero i words words' h z e = absurd (omega arith)
count_clear-set (suc n) i words words' h z e = elim (Bool-cases (i == n)) [
  | inl t ↦
      let same : i ≡ n = ground arith in
      let now : bit words' n ≡ 1 = e n ∙ rw (t) refl in
      omega (arith, count_clear-same n i 1 words words' (omega arith) e, now, ap (bit words) same)
  | inr t ↦
      let kept : bit words' n ≡ bit words n = e n ∙ rw (t) refl in
      omega (arith, count_clear-set n i words words' (ground arith) z e, kept)
]

-- A set bit is cleared.
pub count_clear-clear :
    (n i : ℕ) (words words' : List ℕ)
    → i < n
    → bit words i ≡ 1
    → ((j : ℕ) → bit words' j ≡ (if i == j then 0 else bit words j))
    → count_clear n words' ≡ suc (count_clear n words)
count_clear-clear zero i words words' h z e = absurd (omega arith)
count_clear-clear (suc n) i words words' h z e = elim (Bool-cases (i == n)) [
  | inl t ↦
      let same : i ≡ n = ground arith in
      let now : bit words' n ≡ 0 = e n ∙ rw (t) refl in
      omega (arith, count_clear-same n i 0 words words' (omega arith) e, now, ap (bit words) same)
  | inr t ↦
      let kept : bit words' n ≡ bit words n = e n ∙ rw (t) refl in
      omega (arith, count_clear-clear n i words words' (ground arith) z e, kept)
]

-- The first `m` bits are set and the others clear.
pub count_clear-prefix :
    (n m : ℕ) (words : List ℕ)
    → ((j : ℕ) → j < n → bit words j ≡ (if ltb j m then 1 else 0))
    → count_clear n words ≡ n - m
count_clear-prefix zero m words h = omega arith
count_clear-prefix (suc n) m words h =
    ground (arith, h n (omega arith), count_clear-prefix n m words (λ j l. h j (omega arith)))

pub count_clear-full :
    (n : ℕ) (words : List ℕ) → ((j : ℕ) → j < n → bit words j ≡ 1) → count_clear n words ≡ 0
count_clear-full zero words h = refl
count_clear-full (suc n) words h =
    omega (arith, h n (omega arith), count_clear-full n words (λ j l. h j (omega arith)))
