-- ===== src/Bitmap/Bits.antt =====
-- One bit of a word: what `&`, `|` and `~` with a one-bit mask read and write.
use Prim.Native.Nat.{bit_and, bit_or, bit_and-bitwise}
use native.Mathlib.Nat.{pow-suc, one-le-pow}
use os_library.Base.{
  ℕ, zero, suc, ◌+◌, ◌-◌, ◌*◌, ◌/◌, ◌%◌, ◌^◌, ◌≤◌, ◌<◌, ◌≡◌, refl, ap, ◌∙◌, arith, ◌==◌,
  if◌then◌else◌,
}
use os_library.Bitmap.Digits.{bit_or-digit, bit_and-digit}

-- Bit `j` of `w`, 0 or 1.
abbrev pub testbit : ℕ → ℕ → ℕ
testbit w zero = w % 2
testbit w (suc j) = testbit (w / 2) j

pub testbit-le_one : (w j : ℕ) → testbit w j ≤ 1
testbit-le_one w zero = omega arith
testbit-le_one w (suc j) = testbit-le_one (w / 2) j

pub testbit-zero : (j : ℕ) → testbit 0 j ≡ 0
testbit-zero zero = refl
testbit-zero (suc j) = testbit-zero j

bit_and-zero : (k w : ℕ) → w ≤ k → bit_and w 0 ≡ 0
bit_and-zero k zero h = refl
bit_and-zero zero (suc w) h = absurd (omega arith)
bit_and-zero (suc k) (suc w) h =
    omega (arith, bit_and-digit (suc w) 0, bit_and-zero k (suc w / 2) (omega arith))

bit_or-zero : (k w : ℕ) → w ≤ k → bit_or w 0 ≡ w
bit_or-zero k zero h = refl
bit_or-zero zero (suc w) h = absurd (omega arith)
bit_or-zero (suc k) (suc w) h =
    omega (arith, bit_or-digit (suc w) 0, bit_or-zero k (suc w / 2) (omega arith))

-- `w & (1 << k)` is zero exactly when bit `k` is clear.
pub bit_and-mask : (k w : ℕ) → bit_and w (2 ^ k) ≡ testbit w k * 2 ^ k
bit_and-mask zero w = omega (arith, bit_and-digit w 1, bit_and-zero (w / 2) (w / 2) (omega arith))
bit_and-mask (suc k) w =
    grind (arith, bit_and-digit w (2 ^ suc k), pow-suc 2 k, bit_and-mask k (w / 2))

zero-bit_and : (b : ℕ) → bit_and 0 b ≡ 0
zero-bit_and b = bit_and-bitwise 0 b

pow_suc : (k : ℕ) → 2 ^ suc k ≡ 2 * 2 ^ k
pow_suc k = omega (arith, pow-suc 2 k)

bit_or-half : (w k : ℕ) → bit_or w (2 ^ suc k) / 2 ≡ bit_or (w / 2) (2 ^ k)
bit_or-half w k =
    let half : 2 ^ suc k / 2 ≡ 2 ^ k = omega (arith, pow_suc k) in
    omega (arith, bit_or-digit w (2 ^ suc k), ap (bit_or (w / 2)) half)

bit_or-low : (w k : ℕ) → bit_or w (2 ^ suc k) % 2 ≡ w % 2
bit_or-low w k = omega (arith, bit_or-digit w (2 ^ suc k), pow_suc k)

bit_or-half_one : (w : ℕ) → bit_or w 1 / 2 ≡ w / 2
bit_or-half_one w = omega (arith, bit_or-digit w 1, bit_or-zero (w / 2) (w / 2) (omega arith))

bit_and-half : (a b : ℕ) → bit_and a b / 2 ≡ bit_and (a / 2) (b / 2)
bit_and-half a b = omega (arith, bit_and-digit a b)

-- `w | (1 << k)` sets bit `k` and keeps the others.
pub testbit-set : (k w j : ℕ) → testbit (bit_or w (2 ^ k)) j ≡ (if k == j then 1 else testbit w j)
testbit-set zero w zero = omega (arith, bit_or-digit w 1, bit_or-zero (w / 2) (w / 2) (omega arith))
testbit-set zero w (suc j) = ap (λ t. testbit t j) (bit_or-half_one w) ∙ ground arith
testbit-set (suc k) w zero = bit_or-low w k ∙ ground arith
testbit-set (suc k) w (suc j) =
    ap (λ t. testbit t j) (bit_or-half w k) ∙ testbit-set k (w / 2) j ∙ ground arith

pub bit_or-lt : (n k w : ℕ) → k < n → w < 2 ^ n → bit_or w (2 ^ k) < 2 ^ n
bit_or-lt zero k w h g = absurd (omega arith)
bit_or-lt (suc n) zero w h g =
    omega (arith, bit_or-digit w 1, bit_or-zero (w / 2) (w / 2) (omega arith), pow_suc n)
bit_or-lt (suc n) (suc k) w h g =
    let lower = bit_or-lt n k (w / 2) (omega arith) (omega (arith, pow_suc n)) in
    omega (arith, bit_or-half w k, pow_suc n)

-- The mask `~(1 << k)` of an `n`-bit word.
abbrev pub all_but : ℕ → ℕ → ℕ
all_but n k = 2 ^ n - 1 - 2 ^ k

bit_and-ones : (n w : ℕ) → w < 2 ^ n → bit_and w (2 ^ n - 1) ≡ w
bit_and-ones zero w h = omega (arith, bit_and-zero w w (omega arith))
bit_and-ones (suc n) w h =
    let half : (2 ^ suc n - 1) / 2 ≡ 2 ^ n - 1 = omega (arith, pow_suc n) in
    omega (
      arith,
      bit_and-digit w (2 ^ suc n - 1),
      ap (bit_and (w / 2)) half,
      bit_and-ones n (w / 2) (omega (arith, pow_suc n)),
      pow_suc n,
      one-le-pow n 2,
    )

pow-le : (n k : ℕ) → k < n → 2 ^ k + 1 ≤ 2 ^ n
pow-le zero k h = absurd (omega arith)
pow-le (suc n) zero h = omega (arith, pow_suc n, one-le-pow n 2)
pow-le (suc n) (suc k) h = omega (arith, pow_suc n, pow_suc k, pow-le n k (omega arith))

-- `w & ~(1 << k)` clears bit `k` and keeps the others.
pub testbit-clear :
    (n k w j : ℕ)
    → k < n
    → w < 2 ^ n
    → testbit (bit_and w (all_but n k)) j ≡ (if k == j then 0 else testbit w j)
testbit-clear zero k w j h g = absurd (omega arith)
testbit-clear (suc n) zero w zero h g =
    omega (arith, bit_and-digit w (all_but (suc n) 0), pow_suc n, one-le-pow n 2)
testbit-clear (suc n) zero w (suc j) h g =
    let half : all_but (suc n) 0 / 2 ≡ 2 ^ n - 1 = omega (arith, pow_suc n, one-le-pow n 2) in
    ap (λ t. testbit t j)
      (bit_and-half w (all_but (suc n) 0)
        ∙ ap (bit_and (w / 2)) half
        ∙ bit_and-ones n (w / 2) (omega (arith, pow_suc n)))
    ∙ ground arith
testbit-clear (suc n) (suc k) w zero h g =
    let low : bit_and w (all_but (suc n) (suc k)) % 2 ≡ w % 2 = omega (
      arith,
      bit_and-digit w (all_but (suc n) (suc k)),
      pow_suc n,
      pow_suc k,
      pow-le n k (omega arith),
    ) in
    low ∙ ground arith
testbit-clear (suc n) (suc k) w (suc j) h g =
    let half : all_but (suc n) (suc k) / 2 ≡ all_but n k =
      omega (arith, pow_suc n, pow_suc k, pow-le n k (omega arith)) in
    ap (λ t. testbit t j) (bit_and-half w (all_but (suc n) (suc k)) ∙ ap (bit_and (w / 2)) half)
    ∙ testbit-clear n k (w / 2) j (omega arith) (omega (arith, pow_suc n))
    ∙ ground arith

pub bit_and-le : (k a b : ℕ) → a ≤ k → bit_and a b ≤ a
bit_and-le k zero b h = omega (arith, bit_and-digit 0 b, zero-bit_and b)
bit_and-le zero (suc a) b h = absurd (omega arith)
bit_and-le (suc k) (suc a) b h =
    omega (arith, bit_and-digit (suc a) b, bit_and-le k (suc a / 2) (b / 2) (omega arith))

-- A word with no clear bit is all ones.
pub all_ones : (n w : ℕ) → w < 2 ^ n → ((j : ℕ) → j < n → testbit w j ≡ 1) → w ≡ 2 ^ n - 1
all_ones zero w h g = omega arith
all_ones (suc n) w h g = omega (
  arith,
  g 0 (omega arith),
  all_ones n (w / 2) (omega (arith, pow_suc n)) (λ j l. g (suc j) (omega arith)),
  pow_suc n,
  one-le-pow n 2,
)

pub testbit-all_ones : (n j : ℕ) → j < n → testbit (2 ^ n - 1) j ≡ 1
testbit-all_ones zero j h = absurd (omega arith)
testbit-all_ones (suc n) zero h = omega (arith, pow_suc n, one-le-pow n 2)
testbit-all_ones (suc n) (suc j) h =
    let half : (2 ^ suc n - 1) / 2 ≡ 2 ^ n - 1 = omega (arith, pow_suc n) in
    ap (λ t. testbit t j) half ∙ testbit-all_ones n j (omega arith)
