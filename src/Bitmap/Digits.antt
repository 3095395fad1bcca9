-- ===== src/Bitmap/Digits.antt =====
-- The native bit operations, one binary digit at a time.
use Prim.Native.Nat.{min, max, digits, bit_and, bit_or, bit_and-bitwise, bit_or-bitwise}
use os_library.Base.{ℕ, zero, suc, ◌+◌, ◌*◌, ◌/◌, ◌%◌, ◌≤◌, ◌≡◌, refl, ap, arith}

-- Any two fuels that reach `a` give the same digits.
fuel_irrelevant :
    (unit : ℕ → ℕ) (op : ℕ → ℕ → ℕ) (k m a b : ℕ)
    → a ≤ k
    → a ≤ m
    → digits unit op m a b ≡ digits unit op k a b
fuel_irrelevant unit op zero zero zero b h g = refl
fuel_irrelevant unit op zero (suc m) zero b h g = refl
fuel_irrelevant unit op (suc k) zero zero b h g = refl
fuel_irrelevant unit op (suc k) (suc m) zero b h g = refl
fuel_irrelevant unit op zero m (suc a) b h g = absurd (omega arith)
fuel_irrelevant unit op (suc k) zero (suc a) b h g = absurd (omega arith)
fuel_irrelevant unit op (suc k) (suc m) (suc a) b h g =
    let half = fuel_irrelevant unit op k m (suc a / 2) (b / 2) (omega arith) (omega arith) in
    ap (λ (t : ℕ). t * 2 + op (suc a % 2) (b % 2)) half

pub bit_or-digit : (a b : ℕ) → bit_or a b ≡ bit_or (a / 2) (b / 2) * 2 + max (a % 2) (b % 2)
bit_or-digit zero b = omega (arith, bit_or-bitwise 0 b, bit_or-bitwise 0 (b / 2))
bit_or-digit (suc a) b = omega (
  arith,
  bit_or-bitwise (suc a) b,
  bit_or-bitwise (suc a / 2) (b / 2),
  fuel_irrelevant (λ t. t) max (suc a / 2) a (suc a / 2) (b / 2) (omega arith) (omega arith),
)

pub bit_and-digit : (a b : ℕ) → bit_and a b ≡ bit_and (a / 2) (b / 2) * 2 + min (a % 2) (b % 2)
bit_and-digit zero b = omega (arith, bit_and-bitwise 0 b, bit_and-bitwise 0 (b / 2))
bit_and-digit (suc a) b = omega (
  arith,
  bit_and-bitwise (suc a) b,
  bit_and-bitwise (suc a / 2) (b / 2),
  fuel_irrelevant (λ _. 0) min (suc a / 2) a (suc a / 2) (b / 2) (omega arith) (omega arith),
)
