-- ===== src/Bitmap/Alloc.antt =====
-- `bitmap_alloc` finds the first clear bit, sets it, and changes nothing else.
use Prim.Native.Nat.{bit_and, bit_or}
use native.Mathlib.Nat.{one-le-pow}
use os_library.Base.{
  ℕ, zero, suc, ◌+◌, ◌-◌, ◌*◌, ◌/◌, ◌^◌, ◌≤◌, ◌<◌, ◌≡◌, refl, sym, ap, subst, ◌∙◌, Option, none,
  some, List, arith, ◌==◌, ltb, if◌then◌else◌, ◌≢◌, get_or, set, length, get_elem?-eq-get_or, inl,
  inr, Bool-cases,
}
use os_library.Bitmap.Bits.{
  testbit, testbit-le_one, bit_and-mask, testbit-set, bit_or-lt, all_ones, testbit-all_ones,
}
use os_library.Bitmap.Form.{bit, IsBitmap, bit_of, one_bit_written, set-IsBitmap}
use os_library.Bitmap.{
  bits_per_word, word_all_bits, div_round_up, mask_of, AllocResult, allocated, full, find_clear,
  take_bit, alloc_loop, bitmap_alloc,
}

pub words_needed : (nbits : ℕ) → nbits ≤ 2 ^ 31 → div_round_up nbits 64 ≡ (nbits + 63) / 64
unfolding div_round_up
words_needed nbits h = omega arith

pub mask_test : (w o : ℕ) → (bit_and w (mask_of o) == 0) ≡ (testbit w o == 0)
mask_test w o = mask_cases (testbit w o) refl
  where
    mask_cases : (b : ℕ) → testbit w o ≡ b → (bit_and w (mask_of o) == 0) ≡ (testbit w o == 0)
    mask_cases zero e = ground (arith, bit_and-mask o w)
    mask_cases (suc b) e =
        let one : testbit w o ≡ 1 = omega (arith, testbit-le_one w o) in
        ground (arith, bit_and-mask o w, one-le-pow o 2)

-- The first clear bit from `offset` on.
abbrev FirstClear : ℕ → ℕ → Option ℕ → Type 0
FirstClear w offset none = (j : ℕ) → offset ≤ j → j < 64 → testbit w j ≡ 1
FirstClear w offset (some o) =
    (offset ≤ o) × (o < 64) × (testbit w o ≡ 0) × ((j : ℕ) → offset ≤ j → j < o → testbit w j ≡ 1)

FirstClear-down :
    (w offset : ℕ) (r : Option ℕ)
    → testbit w offset ≡ 1
    → FirstClear w (suc offset) r
    → FirstClear w offset r
FirstClear-down w offset none e h = λ j l g. grind (arith, h j)
FirstClear-down w offset (some o) e h = (omega arith, h.1, h.2, λ j l g. grind (arith, h.3 j))

find_clear-FirstClear :
    (rounds offset w : ℕ) → rounds + offset ≡ 64 → FirstClear w offset (find_clear rounds offset w)
unfolding find_clear
find_clear-FirstClear zero offset w e = λ j l g. absurd (omega arith)
find_clear-FirstClear (suc rounds) offset w e = elim (Bool-cases (testbit w offset == 0)) [
  | inl z ↦
      rw (mask_test w offset, z)
        (omega arith, omega arith, ground arith, λ j l g. absurd (omega arith))
  | inr z ↦
      rw (mask_test w offset, z)
        (FirstClear-down w offset (find_clear rounds (suc offset) w)
          (let nz : testbit w offset ≢ 0 = ground arith in omega (arith, testbit-le_one w offset))
          (find_clear-FirstClear rounds (suc offset) w (omega arith)))
]

-- What a call of `bitmap_alloc` promises.
abbrev pub Allocates : List ℕ → ℕ → AllocResult → Type 0
Allocates words nbits full = (j : ℕ) → j < nbits → bit words j ≡ 1
Allocates words nbits AllocResult.fault = ⊥
Allocates words nbits (allocated i words') =
    (i < nbits)
    × (bit words i ≡ 0)
    × ((j : ℕ) → j < i → bit words j ≡ 1)
    × ((j : ℕ) → bit words' j ≡ (if i == j then 1 else bit words j))
    × IsBitmap words' nbits

bit-set_one :
    (words : List ℕ) (idx o j : ℕ)
    → idx < length words
    → o < 64
    → bit (set words idx (bit_or (get_or words idx 0) (mask_of o))) j
      ≡ (if idx * 64 + o == j then 1 else bit words j)
bit-set_one words idx o j h g =
    one_bit_written words idx o 1 (bit_or (get_or words idx 0) (mask_of o)) h g
      (testbit-set o (get_or words idx 0)) j

-- The words before `idx` have no clear bit.
abbrev FullBelow : List ℕ → ℕ → Type 0
FullBelow words n = (j : ℕ) → j < n → bit words j ≡ 1

FullBelow-up :
    (words : List ℕ) (idx o : ℕ)
    → o ≤ 64
    → FullBelow words (64 * idx)
    → ((j : ℕ) → 0 ≤ j → j < o → testbit (get_or words idx 0) j ≡ 1)
    → FullBelow words (64 * idx + o)
FullBelow-up words idx o h below here j l = elim (Bool-cases (ltb j (64 * idx))) [
  | inl e ↦ below j (ground arith)
  | inr e ↦
      let split : idx * 64 + (j - 64 * idx) ≡ j = ground arith in
      let inside : j - 64 * idx < o = ground arith in
      ap (bit words) (sym split)
      ∙ bit_of words idx (j - 64 * idx) (omega arith)
      ∙ here (j - 64 * idx) (omega arith) inside
]

take_bit-Allocates :
    (words : List ℕ) (nbits idx : ℕ) (r : Option ℕ)
    → IsBitmap words nbits
    → idx < div_round_up nbits 64
    → idx < length words
    → FullBelow words (64 * idx)
    → get_or words idx 0 ≢ word_all_bits
    → FirstClear (get_or words idx 0) 0 r
    → Allocates words nbits (take_bit nbits idx (get_or words idx 0) words r)
unfolding take_bit
take_bit-Allocates words nbits idx none ok h g below some_clear first =
    absurd
      (some_clear (all_ones 64 (get_or words idx 0) (ok.fits idx) (λ j l. first j (omega arith) l)))
take_bit-Allocates words nbits idx (some o) ok h g below some_clear first =
    let i = idx * 64 + o in
    let clear : bit words i ≡ 0 = bit_of words idx o first.1 ∙ first.2 in
    elim (Bool-cases (ltb i nbits)) [
      | inl e ↦ rw (e) (
        ground arith,
        clear,
        λ j l. FullBelow-up words idx o (omega (arith, first.1)) below first.3 j (omega arith),
        λ j. bit-set_one words idx o j g first.1,
        set-IsBitmap words nbits idx (bit_or (get_or words idx 0) (mask_of o)) ok g
            (bit_or-lt 64 o (get_or words idx 0) first.1 (ok.fits idx))
            (λ j l u. bit-set_one words idx o j g first.1 ∙ ground (arith, ok.padded j l u)),
      )
      | inr e ↦ absurd (ground (arith, ok.padded i (ground arith) (omega (arith, first.1)), clear))
    ]

word_covered :
    (words : List ℕ) (nbits idx : ℕ)
    → IsBitmap words nbits
    → idx < div_round_up nbits 64
    → idx < length words
word_covered words nbits idx ok h = omega (arith, ok.covers, words_needed nbits ok.small)

-- One round of the outer loop, for a word the bitmap has.
alloc_loop-suc :
    (rounds nbits idx : ℕ) (words : List ℕ)
    → idx < length words
    → alloc_loop (suc rounds) nbits idx words ≡ (
        if get_or words idx 0 == word_all_bits
        then alloc_loop rounds nbits (suc idx) words
        else take_bit nbits idx
            (get_or words idx 0)
            words
            (find_clear bits_per_word 0 (get_or words idx 0)))
unfolding alloc_loop
alloc_loop-suc rounds nbits idx words h = ground (arith, get_elem?-eq-get_or words idx 0 h)

alloc_loop-zero : (nbits idx : ℕ) (words : List ℕ) → alloc_loop zero nbits idx words ≡ full
unfolding alloc_loop
alloc_loop-zero nbits idx words = refl

pub alloc_loop-Allocates :
    (rounds idx : ℕ) (words : List ℕ) (nbits : ℕ)
    → IsBitmap words nbits
    → idx + rounds ≡ div_round_up nbits 64
    → FullBelow words (64 * idx)
    → Allocates words nbits (alloc_loop rounds nbits idx words)
alloc_loop-Allocates zero idx words nbits ok e below =
    subst (Allocates words nbits) (sym (alloc_loop-zero nbits idx words))
      (λ j l. below j (omega (arith, words_needed nbits ok.small)))
alloc_loop-Allocates (suc rounds) idx words nbits ok e below =
    let here : idx < div_round_up nbits 64 = omega arith in
    let covered = word_covered words nbits idx ok here in
    let w = get_or words idx 0 in
    subst (Allocates words nbits) (sym (alloc_loop-suc rounds nbits idx words covered))
      (elim (Bool-cases (w == word_all_bits)) [
        | inl z ↦
            let same : w ≡ word_all_bits = ground arith in
            rw (z) (
              alloc_loop-Allocates rounds (suc idx) words nbits ok (omega arith) (λ j l.
                FullBelow-up words idx 64 (omega arith) below
                  (λ k _ u. ap (λ v. testbit v k) same ∙ testbit-all_ones 64 k u) j (omega arith)))
        | inr z ↦ rw (z) (
            take_bit-Allocates words nbits idx (find_clear bits_per_word 0 w) ok here covered below
              (ground arith) (find_clear-FirstClear 64 0 w (omega arith)))
      ])

-- `bitmap_alloc` on a well-formed bitmap finds the lowest clear bit below `nbits`, sets it, changes no other bit and
-- keeps the bitmap well-formed; when every bit below `nbits` is set it reports that the bitmap is full. No assertion of
-- it fails, and it reads no word outside the bitmap.
pub bitmap_alloc-Allocates :
    (words : List ℕ) (nbits : ℕ)
    → IsBitmap words nbits
    → Allocates words nbits (bitmap_alloc words nbits)
unfolding bitmap_alloc
bitmap_alloc-Allocates words nbits ok =
    alloc_loop-Allocates (div_round_up nbits 64) 0 words nbits ok (omega arith)
      (λ j l. absurd (omega arith))

-- Where a bit is clear, an index is handed out.
pub Allocates-allocated :
    (words : List ℕ) (nbits : ℕ) (r : AllocResult)
    → Allocates words nbits r
    → (((j : ℕ) → j < nbits → bit words j ≡ 1) → ⊥)
    → (i : ℕ) × (words' : List ℕ) × (r ≡ allocated i words')
      × Allocates words nbits (allocated i words')
Allocates-allocated words nbits full a h = absurd (h a)
Allocates-allocated words nbits AllocResult.fault a h = absurd a
Allocates-allocated words nbits (allocated i words') a h = (i, words', refl, a)
