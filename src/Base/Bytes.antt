-- ===== src/Base/Bytes.antt =====
-- Memory as a map from addresses to bytes, and the little-endian words in it.
use Prim.Native.Nat.{ℕ, zero, suc, ◌+◌, ◌*◌, ◌/◌, ◌%◌, ◌^◌, ◌<◌, ◌≤◌}
use mathlib.Core.Bool.{Bool, true, false}
use mathlib.Core.Path.{◌≡◌, refl, ap, ◌∙◌}
use mathlib.Core.Logic.{inl, inr}
use mathlib.Core.List.{List, [], ◌∷◌, ◌++◌}
use native.Mathlib.Omega.{arith}
use os_library.Base.Tests.{◌==◌, if◌then◌else◌, Bool-cases}
use os_library.Base.Arrays.{length}

-- `n` bytes of memory from an address on.
abbrev pub bytes_from : ℕ → ℕ → (ℕ → ℕ) → List ℕ
bytes_from zero a mem = []
bytes_from (suc n) a mem = mem a ∷ bytes_from n (suc a) mem

abbrev pub store_bytes : List ℕ → ℕ → (ℕ → ℕ) → ℕ → ℕ
store_bytes [] a mem = mem
store_bytes (b ∷ bytes) a mem = store_bytes bytes (suc a) (λ j. if a == j then b else mem j)

-- `memset` of `n` bytes.
abbrev pub fill_bytes : ℕ → ℕ → ℕ → (ℕ → ℕ) → ℕ → ℕ
fill_bytes zero v a mem = mem
fill_bytes (suc n) v a mem = fill_bytes n v (suc a) (λ j. if a == j then v else mem j)

-- A `uint32_t` at an address, the low byte first.
abbrev pub read_u32 : (ℕ → ℕ) → ℕ → ℕ
read_u32 mem a = mem a + 2 ^ 8 * mem (a + 1) + 2 ^ 16 * mem (a + 2) + 2 ^ 24 * mem (a + 3)

abbrev pub u32_bytes : ℕ → List ℕ
u32_bytes v = v % 2 ^ 8 ∷ v / 2 ^ 8 % 2 ^ 8 ∷ v / 2 ^ 16 % 2 ^ 8 ∷ v / 2 ^ 24 % 2 ^ 8 ∷ []

abbrev pub write_u32 : ℕ → ℕ → (ℕ → ℕ) → ℕ → ℕ
write_u32 a v = store_bytes (u32_bytes v) a

-- `strcmp` with a string of the given characters, for equality.
abbrev pub strcmp_eq : List ℕ → ℕ → (ℕ → ℕ) → Bool
strcmp_eq [] a mem = mem a == 0
strcmp_eq (c ∷ cs) a mem = if mem a == c then strcmp_eq cs (suc a) mem else false

-- `strcpy` of a string of the given characters.
abbrev pub strcpy : List ℕ → ℕ → (ℕ → ℕ) → ℕ → ℕ
strcpy cs = store_bytes (cs ++ 0 ∷ [])

-- The string at an address, of at most `n` characters.
abbrev pub string_at : ℕ → ℕ → (ℕ → ℕ) → List ℕ
string_at zero a mem = []
string_at (suc n) a mem = if mem a == 0 then [] else mem a ∷ string_at n (suc a) mem

pub store_bytes-below :
    (bytes : List ℕ) (a j : ℕ) (mem : ℕ → ℕ) → j < a → store_bytes bytes a mem j ≡ mem j
store_bytes-below [] a j mem h = refl
store_bytes-below (b ∷ bytes) a j mem h =
    store_bytes-below bytes (suc a) j (λ i. if a == i then b else mem i) (omega arith)
    ∙ ground arith

pub bytes_from-store_bytes :
    (bytes : List ℕ) (a : ℕ) (mem : ℕ → ℕ)
    → bytes_from (length bytes) a (store_bytes bytes a mem) ≡ bytes
bytes_from-store_bytes [] a mem = refl
bytes_from-store_bytes (b ∷ bytes) a mem =
    let after = λ (i : ℕ). if a == i then b else mem i in
    ap (λ x. x ∷ bytes_from (length bytes) (suc a) (store_bytes bytes (suc a) after))
      (store_bytes-below bytes (suc a) a after (omega arith) ∙ ground arith)
    ∙ ap (λ xs. b ∷ xs) (bytes_from-store_bytes bytes (suc a) after)

pub length-bytes_from : (n a : ℕ) (mem : ℕ → ℕ) → length (bytes_from n a mem) ≡ n
length-bytes_from zero a mem = refl
length-bytes_from (suc n) a mem = ap suc (length-bytes_from n (suc a) mem)

pub store_bytes-above :
    (bytes : List ℕ) (a j : ℕ) (mem : ℕ → ℕ)
    → a + length bytes ≤ j
    → store_bytes bytes a mem j ≡ mem j
store_bytes-above [] a j mem h = refl
store_bytes-above (b ∷ bytes) a j mem h =
    store_bytes-above bytes (suc a) j (λ i. if a == i then b else mem i) (omega arith)
    ∙ ground arith

pub strcmp_eq-strcpy : (cs : List ℕ) (a : ℕ) (mem : ℕ → ℕ) → strcmp_eq cs a (strcpy cs a mem) ≡ true
strcmp_eq-strcpy [] a mem = ground arith
strcmp_eq-strcpy (c ∷ cs) a mem =
    let after = λ (i : ℕ). if a == i then c else mem i in
    let first : strcpy cs (suc a) after a ≡ c =
      store_bytes-below (cs ++ 0 ∷ []) (suc a) a after (omega arith) ∙ ground arith in
    simp (first) (ground (arith, strcmp_eq-strcpy cs (suc a) after))

-- Two memories that agree on a string and the byte after it.
pub strcmp_eq_agree :
    (cs : List ℕ) (a : ℕ) (mem mem' : ℕ → ℕ)
    → ((j : ℕ) → a ≤ j → j ≤ a + length cs → mem' j ≡ mem j)
    → strcmp_eq cs a mem' ≡ strcmp_eq cs a mem
strcmp_eq_agree [] a mem mem' h = ap (λ x. x == 0) (h a (omega arith) (omega arith))
strcmp_eq_agree (c ∷ cs) a mem mem' h =
    ap (λ x. if x == c then strcmp_eq cs (suc a) mem' else false) (h a (omega arith) (omega arith))
    ∙ ap (λ r. if mem a == c then r else false)
        (strcmp_eq_agree cs (suc a) mem mem' (λ j l g. h j (omega arith) (omega arith)))

pub read_u32-write_u32 : (a v : ℕ) (mem : ℕ → ℕ) → v < 2 ^ 32 → read_u32 (write_u32 a v mem) a ≡ v
read_u32-write_u32 a v mem h =
    let w = write_u32 a v mem in
    let b0 : w a ≡ v % 2 ^ 8 = ground arith in
    let b1 : w (a + 1) ≡ v / 2 ^ 8 % 2 ^ 8 = ground arith in
    let b2 : w (a + 2) ≡ v / 2 ^ 16 % 2 ^ 8 = ground arith in
    let b3 : w (a + 3) ≡ v / 2 ^ 24 % 2 ^ 8 = ground arith in omega (arith, b0, b1, b2, b3)

pub read_u32_agree :
    (a : ℕ) (mem mem' : ℕ → ℕ)
    → ((j : ℕ) → a ≤ j → j < a + 4 → mem' j ≡ mem j)
    → read_u32 mem' a ≡ read_u32 mem a
read_u32_agree a mem mem' h =
    let b0 = h a (omega arith) (omega arith) in
    let b1 = h (a + 1) (omega arith) (omega arith) in
    let b2 = h (a + 2) (omega arith) (omega arith) in
    let b3 = h (a + 3) (omega arith) (omega arith) in omega (arith, b0, b1, b2, b3)

pub fill_bytes-above : (n v a j : ℕ) (mem : ℕ → ℕ) → j < a → fill_bytes n v a mem j ≡ mem j
fill_bytes-above zero v a j mem h = refl
fill_bytes-above (suc n) v a j mem h =
    fill_bytes-above n v (suc a) j (λ k. if a == k then v else mem k) (omega arith) ∙ ground arith

pub fill_bytes-inside : (n v a j : ℕ) (mem : ℕ → ℕ) → a ≤ j → j < a + n → fill_bytes n v a mem j ≡ v
fill_bytes-inside zero v a j mem h g = absurd (omega arith)
fill_bytes-inside (suc n) v a j mem h g = elim (Bool-cases (a == j)) [
  | inl e ↦
      fill_bytes-above n v (suc a) j (λ k. if a == k then v else mem k) (ground arith)
      ∙ ap (λ q. if q then v else mem j) e
  | inr e ↦
      fill_bytes-inside n v (suc a) j (λ k. if a == k then v else mem k) (ground arith)
        (omega arith)
]

pub fill_bytes-outside : (n v a j : ℕ) (mem : ℕ → ℕ) → a + n ≤ j → fill_bytes n v a mem j ≡ mem j
fill_bytes-outside zero v a j mem h = refl
fill_bytes-outside (suc n) v a j mem h =
    fill_bytes-outside n v (suc a) j (λ k. if a == k then v else mem k) (omega arith) ∙ ground arith
