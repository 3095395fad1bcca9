-- ===== src/Bitmap/Free.antt =====
-- `bitmap_free` clears one bit.
use Prim.Native.Nat.{bit_and, bit_or}
use os_library.Base.{
  ℕ, ◌+◌, ◌*◌, ◌/◌, ◌%◌, ◌≤◌, ◌<◌, ◌≡◌, refl, sym, ap, subst, ◌∙◌, List, arith, ◌==◌, ltb,
  if◌then◌else◌, get_elem?, get_or, set, length, get_elem?-eq-get_or, ◌⊎◌, inl, inr, Option-cases,
  Bool-cases,
}
use os_library.Bitmap.Bits.{testbit-le_one, testbit-set, testbit-clear, bit_or-lt, bit_and-le}
use os_library.Bitmap.Form.{bit, IsBitmap, one_bit_written, set-IsBitmap}
use os_library.Bitmap.Alloc.{mask_test, Allocates, bitmap_alloc-Allocates}
use os_library.Bitmap.{
  mask_of, flip_mask, Result, done, allocated, bitmap_alloc, put_word, bitmap_free,
}

-- The bitmap in which bit `i` is `b` and the others are as before.
abbrev pub IsUpdated : List ℕ → ℕ → ℕ → ℕ → List ℕ → Type 0
IsUpdated words nbits i b words' =
    ((j : ℕ) → bit words' j ≡ (if i == j then b else bit words j)) × IsBitmap words' nbits

pub word_of :
    (words : List ℕ) (nbits i : ℕ) → IsBitmap words nbits → i < nbits → i / 64 < length words
word_of words nbits i ok h = omega (arith, ok.covers)

pub clear-IsUpdated :
    (words : List ℕ) (nbits i : ℕ)
    → IsBitmap words nbits
    → i < nbits
    → IsUpdated words nbits i 0
        (set words (i / 64) (bit_and (get_or words (i / 64) 0) (flip_mask (i % 64))))
clear-IsUpdated words nbits i ok h =
    let w = get_or words (i / 64) 0 in
    let covered = word_of words nbits i ok h in
    let low : i % 64 < 64 = omega arith in
    let place : i / 64 * 64 + i % 64 ≡ i = omega arith in
    let bits : (j : ℕ)
        → bit (set words (i / 64) (bit_and w (flip_mask (i % 64)))) j
          ≡ (if i == j then 0 else bit words j) =
      λ j.
        one_bit_written words (i / 64) (i % 64) 0 (bit_and w (flip_mask (i % 64))) covered low
          (λ k. testbit-clear 64 (i % 64) w k low (ok.fits (i / 64))) j
        ∙ ap (λ k. if k == j then 0 else bit words j) place in
    (
      bits,
      set-IsBitmap words nbits (i / 64) (bit_and w (flip_mask (i % 64))) ok covered
          (omega (arith, bit_and-le w w (flip_mask (i % 64)), ok.fits (i / 64)))
          (λ j l u. bits j ∙ ground (arith, ok.padded j l u)),
    )

pub mark-IsUpdated :
    (words : List ℕ) (nbits i : ℕ)
    → IsBitmap words nbits
    → i < nbits
    → IsUpdated words nbits i 1
        (set words (i / 64) (bit_or (get_or words (i / 64) 0) (mask_of (i % 64))))
mark-IsUpdated words nbits i ok h =
    let w = get_or words (i / 64) 0 in
    let covered = word_of words nbits i ok h in
    let low : i % 64 < 64 = omega arith in
    let place : i / 64 * 64 + i % 64 ≡ i = omega arith in
    let bits : (j : ℕ)
        → bit (set words (i / 64) (bit_or w (mask_of (i % 64)))) j
          ≡ (if i == j then 1 else bit words j) =
      λ j.
        one_bit_written words (i / 64) (i % 64) 1 (bit_or w (mask_of (i % 64))) covered low
          (testbit-set (i % 64) w) j
        ∙ ap (λ k. if k == j then 1 else bit words j) place in
    (
      bits,
      set-IsBitmap words nbits (i / 64) (bit_or w (mask_of (i % 64))) ok covered
          (bit_or-lt 64 (i % 64) w low (ok.fits (i / 64)))
          (λ j l u. bits j ∙ ground (arith, ok.padded j l u)),
    )

-- What a call of `bitmap_free` promises.
abbrev pub Frees : List ℕ → ℕ → ℕ → Result → Type 0
Frees words nbits index (done words') =
    (index < nbits) × (bit words index ≡ 1) × IsUpdated words nbits index 0 words'
Frees words nbits index Result.fault = (nbits ≤ index) ⊎ (bit words index ≡ 0)

bitmap_free_eq :
    (words : List ℕ) (nbits index : ℕ)
    → IsBitmap words nbits
    → index < nbits
    → bitmap_free words nbits index ≡ (
        if bit words index == 0
        then Result.fault
        else put_word words
            (index / 64)
            (bit_and (get_or words (index / 64) 0) (flip_mask (index % 64))))
unfolding bitmap_free
bitmap_free_eq words nbits index ok h = ground (
  arith,
  get_elem?-eq-get_or words (index / 64) 0 (word_of words nbits index ok h),
  mask_test (get_or words (index / 64) 0) (index % 64),
)

bitmap_free-outside :
    (words : List ℕ) (nbits index : ℕ)
    → nbits ≤ index
    → bitmap_free words nbits index ≡ Result.fault
unfolding bitmap_free
bitmap_free-outside words nbits index h = elim (Option-cases (get_elem? words (index / 64))) [
  | inl e ↦ ground (arith, e)
  | inr (w, e) ↦ ground (arith, e)
]

-- `bitmap_free` on a well-formed bitmap clears the bit it is given, changes no other bit and keeps the bitmap
-- well-formed; it fails an assertion exactly when the index is out of range or the bit is already clear.
pub bitmap_free-Frees :
    (words : List ℕ) (nbits index : ℕ)
    → IsBitmap words nbits
    → Frees words nbits index (bitmap_free words nbits index)
bitmap_free-Frees words nbits index ok = elim (Bool-cases (ltb index nbits)) [
  | inr e ↦
      let outside : nbits ≤ index = ground arith in
      subst (Frees words nbits index) (sym (bitmap_free-outside words nbits index outside))
        (inl outside)
  | inl e ↦
      let inside : index < nbits = ground arith in
      subst (Frees words nbits index) (sym (bitmap_free_eq words nbits index ok inside))
        (elim (Bool-cases (bit words index == 0)) [
          | inl z ↦ rw (z) (inr (ground arith))
          | inr z ↦
              let taken : bit words index ≡ 1 =
                ground (arith, testbit-le_one (get_or words (index / 64) 0) (index % 64)) in
              rw (z) (inside, taken, clear-IsUpdated words nbits index ok inside)
        ])
]

-- The bitmaps a call of `bitmap_free` can leave, when it succeeds.
abbrev pub Restores : List ℕ → Result → Type 0
Restores words (done words'') = (j : ℕ) → bit words'' j ≡ bit words j
Restores words Result.fault = ⊥

freed_again :
    (words words' : List ℕ) (nbits i : ℕ) (r : Result)
    → i < nbits
    → bit words i ≡ 0
    → ((j : ℕ) → bit words' j ≡ (if i == j then 1 else bit words j))
    → Frees words' nbits i r
    → Restores words r
freed_again words words' nbits i Result.fault h z e f = elim f [
  | inl l ↦ absurd (omega arith)
  | inr c ↦ absurd (ground (arith, e i))
]
freed_again words words' nbits i (done words'') h z e f = λ j. elim (Bool-cases (i == j)) [
  | inl t ↦ let same : i ≡ j = ground arith in f.2.0 j ∙ rw (t) (sym z ∙ ap (bit words) same)
  | inr t ↦ f.2.0 j ∙ rw (t) (e j ∙ rw (t) refl)
]

-- When `bitmap_alloc` takes an index from a well-formed bitmap, `bitmap_free` of that index succeeds and gives back the
-- bits from before the allocation.
pub bitmap_alloc-bitmap_free :
    (words : List ℕ) (nbits i : ℕ) (words' : List ℕ)
    → IsBitmap words nbits
    → bitmap_alloc words nbits ≡ allocated i words'
    → Restores words (bitmap_free words' nbits i)
bitmap_alloc-bitmap_free words nbits i words' ok run =
    let a = subst (Allocates words nbits) run (bitmap_alloc-Allocates words nbits ok) in
    freed_again words words' nbits i (bitmap_free words' nbits i) a.0 a.1 a.3
      (bitmap_free-Frees words' nbits i a.4)

-- A bit that is set is freed without a fault.
pub Frees-done :
    (words : List ℕ) (nbits index : ℕ) (r : Result)
    → index < nbits
    → bit words index ≡ 1
    → Frees words nbits index r
    → (words' : List ℕ) × (r ≡ done words') × Frees words nbits index (done words')
Frees-done words nbits index (done words') h g f = (words', refl, f)
Frees-done words nbits index Result.fault h g (inl l) = absurd (omega arith)
Frees-done words nbits index Result.fault h g (inr e) = absurd (omega arith)
