-- ===== src/Tracking/Accounts.antt =====
-- malloc369.c: what the counts and the map say of the blocks that are live.
use Prim.Native.Nat.{bit_and, bit_or}
use native.Mathlib.Nat.{pow-suc}
use os_library.Base.{
  ℕ, zero, suc, ◌+◌, ◌/◌, ◌^◌, ◌≤◌, ◌<◌, ◌≡◌, ◌≢◌, Option, none, some, true, false, List, [], ◌∷◌,
  arith, ◌==◌, if◌then◌else◌, length,
}
use os_library.Bitmap.Bits.{testbit, testbit-set, bit_and-mask}
use os_library.Tracking.Allocator.{freed, PtrMap, Tracker, is_negative}

-- What khash.h documents of a map: `find` is the map that it stands for.
pub record PtrMapLaws {H : Type 0} (m : PtrMap H) : Type 0 where
  pub find : H → ℕ → Option ℕ
  pub find-init : (p : ℕ) → find m.kh_init p ≡ none
  pub get-missing : (h : H) (p : ℕ) → find h p ≡ none → (m.kh_get p h == m.kh_end h) ≡ true
  pub get-found :
      (h : H) (p v : ℕ)
      → find h p ≡ some v
      → ((m.kh_get p h == m.kh_end h) ≡ false) × (m.kh_value h (m.kh_get p h) ≡ v)
  pub find-put :
      (h : H) (p v q : ℕ)
      → is_negative (m.kh_put p h).1 ≡ false
      → find (m.set_kh_value (m.kh_put p h).0 v (m.kh_put p h).2) q
        ≡ (if p == q then some v else find h q)
  pub find-set :
      (h : H) (p v w q : ℕ)
      → find h p ≡ some w
      → find (m.set_kh_value (m.kh_get p h) v h) q ≡ (if p == q then some v else find h q)

-- The address and the size of each live block.
abbrev pub Blocks : Type 0
Blocks = List (ℕ × ℕ)

abbrev pub total : Blocks → ℕ
total [] = 0
total ((p, n) ∷ live) = n + total live

abbrev pub size_at : Blocks → ℕ → Option ℕ
size_at [] q = none
size_at ((p, n) ∷ live) q = if p == q then some n else size_at live q

abbrev pub without : ℕ → Blocks → Blocks
without q [] = []
without q ((p, n) ∷ live) = let rest = without q live in if p == q then live else (p, n) ∷ rest

abbrev pub Apart : Blocks → Type 0
Apart [] = Unit
Apart ((p, n) ∷ live) = (size_at live p ≡ none) × Apart live

pub size_at-without :
    (live : Blocks) (p q : ℕ)
    → Apart live
    → size_at (without p live) q ≡ (if p == q then none else size_at live q)
size_at-without [] p q h = ground arith
size_at-without ((r, n) ∷ live) p q h = ground (arith, size_at-without live p q h.1, h.0)

pub Apart-without : (live : Blocks) (p : ℕ) → Apart live → Apart (without p live)
Apart-without [] p h = tt
Apart-without ((r, n) ∷ live) p h =
    ground (arith, size_at-without live p r h.1, Apart-without live p h.1, h.0)

pub total-without :
    (live : Blocks) (p n : ℕ) → size_at live p ≡ some n → total live ≡ n + total (without p live)
total-without [] p n h = absurd (cc)
total-without ((r, m) ∷ live) p n h = ground (arith, total-without live p n)

pub length-without :
    (live : Blocks) (p n : ℕ)
    → size_at live p ≡ some n
    → length live ≡ suc (length (without p live))
length-without [] p n h = absurd (cc)
length-without ((r, m) ∷ live) p n h = ground (arith, length-without live p n)

-- An entry of the map that is no live block: none, or one that is marked as freed.
abbrev pub IsDead : Option ℕ → Type 0
IsDead none = Unit
IsDead (some n) = bit_and n freed ≢ 0

-- The tracker describes the live blocks; `find` is its map.
pub record Tracks {H A : Type 0} (find : H → ℕ → Option ℕ) (s : Tracker H A) (live : Blocks)
    : Type 0 where
  pub held : (p n : ℕ) → size_at live p ≡ some n → find s.malloc_map p ≡ some n
  pub sized : (p n : ℕ) → size_at live p ≡ some n → (0 < n) × (n < 2 ^ 31)
  pub dead : (p : ℕ) → size_at live p ≡ none → IsDead (find s.malloc_map p)
  pub apart : Apart live
  pub calls : s.num_mallocs ≡ s.num_frees + length live
  pub bytes : s.bytes_malloced ≡ s.bytes_freed + total live
  pub bounded : s.bytes_malloced ≤ 2 ^ 31

testbit_small : (k w : ℕ) → w < 2 ^ k → testbit w k ≡ 0
testbit_small zero w h = omega arith
testbit_small (suc k) w h = testbit_small k (w / 2) (omega (arith, pow-suc 2 k))

pub not_freed : (n : ℕ) → n < 2 ^ 31 → bit_and n freed ≡ 0
not_freed n h = omega (arith, bit_and-mask 63 n, testbit_small 63 n (omega arith))

pub marked_freed : (n : ℕ) → bit_and (bit_or n freed) freed ≢ 0
marked_freed n e =
    let one : testbit (bit_or n freed) 63 ≡ 1 = testbit-set 63 n 63 in
    omega (arith, bit_and-mask 63 (bit_or n freed), one, e)
