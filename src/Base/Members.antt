-- ===== src/Base/Members.antt =====
-- Lists of numbers: membership, removal, and lists in which no number stands twice.
use Prim.Native.Nat.{ℕ, zero, suc, ◌≤◌, ◌<◌}
use mathlib.Core.Path.{◌≡◌, refl}
use mathlib.Core.Logic.{inl, inr}
use mathlib.Core.Bool.{Bool, true, false}
use mathlib.Core.List.{List, [], ◌∷◌, ◌++◌}
use native.Mathlib.Omega.{arith}
use os_library.Base.Tests.{◌==◌, Bool-cases}
use os_library.Base.Arrays.{length, All}

abbrev pub has : List ℕ → ℕ → Bool
has [] n = false
has (x ∷ xs) n = elim (x == n) [ true ↦ true | false ↦ has xs n ]

-- The list without the first occurrence of `n`.
abbrev pub without : List ℕ → ℕ → List ℕ
without [] n = []
without (x ∷ xs) n = elim (x == n) [ true ↦ xs | false ↦ x ∷ without xs n ]

abbrev pub Distinct : List ℕ → Type 0
Distinct [] = Unit {0}
Distinct (x ∷ xs) = (has xs x ≡ false) × Distinct xs

abbrev pub Below : ℕ → List ℕ → Type 0
Below n = All (λ x. x < n)

pub has-snoc :
    (xs : List ℕ) (x n : ℕ)
    → has (xs ++ x ∷ []) n ≡ (elim (has xs n) [ true ↦ true | false ↦ x == n ])
has-snoc [] x n = ground arith
has-snoc (y ∷ xs) x n = ground (arith, has-snoc xs x n)

pub Distinct-snoc : (xs : List ℕ) (x : ℕ) → Distinct xs → has xs x ≡ false → Distinct (xs ++ x ∷ [])
Distinct-snoc [] x d h = (refl, tt)
Distinct-snoc (y ∷ xs) x d h =
    (ground (arith, has-snoc xs x y), Distinct-snoc xs x d.1 (ground arith))

pub All-snoc {κ} : (P : ℕ → Type κ) (xs : List ℕ) (x : ℕ) → All P xs → P x → All P (xs ++ x ∷ [])
All-snoc P [] x h p = (p, tt)
All-snoc P (y ∷ xs) x h p = (h.0, All-snoc P xs x h.1 p)

pub has-without : (xs : List ℕ) (n m : ℕ) → has xs m ≡ false → has (without xs n) m ≡ false
has-without [] n m h = refl
has-without (x ∷ xs) n m h = ground (arith, has-without xs n m)

pub without-absent : (xs : List ℕ) (n : ℕ) → Distinct xs → has (without xs n) n ≡ false
without-absent [] n d = refl
without-absent (x ∷ xs) n d = ground (arith, without-absent xs n d.1)

pub Distinct-without : (xs : List ℕ) (n : ℕ) → Distinct xs → Distinct (without xs n)
Distinct-without [] n d = tt
Distinct-without (x ∷ xs) n d = ground (arith, Distinct-without xs n d.1, has-without xs n x d.0)

pub All-without {κ} : (P : ℕ → Type κ) (xs : List ℕ) (n : ℕ) → All P xs → All P (without xs n)
All-without P [] n h = tt
All-without P (x ∷ xs) n h = elim (Bool-cases (x == n)) [
  | inl e ↦ rw (e, without) h.1
  | inr e ↦ rw (e, without) (h.0, All-without P xs n h.1)
]

pub All-has : (P : ℕ → Type 0) (xs : List ℕ) (n : ℕ) → All P xs → has xs n ≡ true → P n
All-has P [] n h e = absurd (ground arith)
All-has P (x ∷ xs) n h e = elim (Bool-cases (x == n)) [
  | inl same ↦ let q : x ≡ n = ground arith in rw (← q) h.0
  | inr other ↦ All-has P xs n h.1 (ground arith)
]

pub length-without :
    (xs : List ℕ) (n : ℕ) → has xs n ≡ true → suc (length (without xs n)) ≡ length xs
length-without [] n h = absurd (ground arith)
length-without (x ∷ xs) n h = ground (arith, length-without xs n)

Below-without_max : (n : ℕ) (xs : List ℕ) → Below (suc n) xs → has xs n ≡ false → Below n xs
Below-without_max n [] b h = tt
Below-without_max n (x ∷ xs) b h = (ground arith, Below-without_max n xs b.1 (ground arith))

-- The pigeonhole principle: distinct ids below `n` are at most `n`.
pub length-le : (n : ℕ) (xs : List ℕ) → Below n xs → Distinct xs → length xs ≤ n
length-le zero [] b d = omega arith
length-le zero (x ∷ xs) b d = absurd (omega arith)
length-le (suc n) xs b d = elim (Bool-cases (has xs n)) [
  | inl e ↦ omega (
    arith,
    length-without xs n e,
    length-le n (without xs n)
        (Below-without_max n (without xs n) (All-without _ xs n b) (without-absent xs n d))
        (Distinct-without xs n d),
  )
  | inr e ↦ omega (arith, length-le n xs (Below-without_max n xs b e) d)
]

-- So a queue that leaves one id out has room for it.
pub length-lt :
    (n x : ℕ) (xs : List ℕ) → Below n xs → Distinct xs → x < n → has xs x ≡ false → length xs < n
length-lt n x xs b d lt h = omega (arith, length-le n (x ∷ xs) (lt, b) (h, d))
