-- ===== src/Bitmap/Marks.antt =====
-- `bitmap_set` and `bitmap_isset` change or read one bit.
use Prim.Native.Nat.{bit_and, bit_or}
use os_library.Base.{
  ℕ, ◌/◌, ◌%◌, ◌≤◌, ◌<◌, ◌≡◌, refl, sym, ap, subst, ◌∙◌, none, some, Bool, true, false, List, arith,
  ◌==◌, ltb, if◌then◌else◌, get_elem?, get_or, get_elem?-eq-get_or, inl, inr, Option-cases,
  Bool-cases,
}
use os_library.Bitmap.Form.{bit, IsBitmap}
use os_library.Bitmap.Alloc.{mask_test}
use os_library.Bitmap.{mask_of, flip_mask, Result, done, put_word, bitmap_set, bitmap_isset}
use os_library.Bitmap.Free.{IsUpdated, word_of, clear-IsUpdated, mark-IsUpdated}

-- What a call of `bitmap_set` promises.
abbrev pub Sets : List ℕ → ℕ → ℕ → Bool → Result → Type 0
Sets words nbits index val (done words') =
    (index < nbits) × IsUpdated words nbits index (if val then 1 else 0) words'
Sets words nbits index val Result.fault = nbits ≤ index

bitmap_set_eq :
    (words : List ℕ) (nbits index : ℕ) (val : Bool)
    → IsBitmap words nbits
    → index < nbits
    → bitmap_set words nbits index val
      ≡ put_word words (index / 64) (
          if val
          then bit_or (get_or words (index / 64) 0) (mask_of (index % 64))
          else bit_and (get_or words (index / 64) 0) (flip_mask (index % 64)))
unfolding bitmap_set
bitmap_set_eq words nbits index val ok h =
    ground (arith, get_elem?-eq-get_or words (index / 64) 0 (word_of words nbits index ok h))

bitmap_set-outside :
    (words : List ℕ) (nbits index : ℕ) (val : Bool)
    → nbits ≤ index
    → bitmap_set words nbits index val ≡ Result.fault
unfolding bitmap_set
bitmap_set-outside words nbits index val h = elim (Option-cases (get_elem? words (index / 64))) [
  | inl e ↦ ground (arith, e)
  | inr (w, e) ↦ ground (arith, e)
]

set-IsUpdated :
    (words : List ℕ) (nbits index : ℕ) (val : Bool)
    → IsBitmap words nbits
    → index < nbits
    → Sets words nbits index val (
        put_word words (index / 64) (
          if val
          then bit_or (get_or words (index / 64) 0) (mask_of (index % 64))
          else bit_and (get_or words (index / 64) 0) (flip_mask (index % 64))))
set-IsUpdated words nbits index true ok h = (h, mark-IsUpdated words nbits index ok h)
set-IsUpdated words nbits index false ok h = (h, clear-IsUpdated words nbits index ok h)

bitmap_isset_eq :
    (words : List ℕ) (nbits index : ℕ)
    → IsBitmap words nbits
    → index < nbits
    → bitmap_isset words nbits index ≡ some (ltb 0 (bit words index))
unfolding bitmap_isset
bitmap_isset_eq words nbits index ok h = ground (
  arith,
  get_elem?-eq-get_or words (index / 64) 0 (word_of words nbits index ok h),
  mask_test (get_or words (index / 64) 0) (index % 64),
)

bitmap_isset-outside :
    (words : List ℕ) (nbits index : ℕ) → nbits ≤ index → bitmap_isset words nbits index ≡ none
unfolding bitmap_isset
bitmap_isset-outside words nbits index h = elim (Option-cases (get_elem? words (index / 64))) [
  | inl e ↦ ground (arith, e)
  | inr (w, e) ↦ ground (arith, e)
]

pub bitmap_set-Sets :
    (words : List ℕ) (nbits index : ℕ) (val : Bool)
    → IsBitmap words nbits
    → Sets words nbits index val (bitmap_set words nbits index val)
bitmap_set-Sets words nbits index val ok = elim (Bool-cases (ltb index nbits)) [
  | inr e ↦
      let outside : nbits ≤ index = ground arith in
      subst (Sets words nbits index val) (sym (bitmap_set-outside words nbits index val outside))
        outside
  | inl e ↦
      let inside : index < nbits = ground arith in
      subst (Sets words nbits index val) (sym (bitmap_set_eq words nbits index val ok inside))
        (set-IsUpdated words nbits index val ok inside)
]

-- After `bitmap_set` with `val` at index `i` of a well-formed bitmap, `bitmap_isset` at `i` is `val`, and at every other
-- index, in range or not, it is what it was before. The bitmap stays well-formed.
pub bitmap_set-bitmap_isset :
    (words : List ℕ) (nbits i j : ℕ) (val : Bool) (words' : List ℕ)
    → IsBitmap words nbits
    → bitmap_set words nbits i val ≡ done words'
    → (bitmap_isset words' nbits j ≡ (if i == j then some val else bitmap_isset words nbits j))
      × IsBitmap words' nbits
bitmap_set-bitmap_isset words nbits i j val words' ok run =
    let after = subst (Sets words nbits i val) run (bitmap_set-Sets words nbits i val ok) in
    (
      elim (Bool-cases (ltb j nbits)) [
        | inr e ↦
            let outside : nbits ≤ j = ground arith in
            let apart : (i == j) ≡ false = ground (arith, after.0) in
            bitmap_isset-outside words' nbits j outside
            ∙ sym (bitmap_isset-outside words nbits j outside)
            ∙ ap (λ b. if b then some val else bitmap_isset words nbits j) (sym apart)
        | inl e ↦
            let inside : j < nbits = ground arith in
            bitmap_isset_eq words' nbits j after.1.1 inside ∙ elim (Bool-cases (i == j)) [
              | inl z ↦ rw (z) (ap some (ap (ltb 0) (after.1.0 j) ∙ rw (z) (isset_value val)))
              | inr z ↦ rw (z) (
                  ap some (ap (ltb 0) (after.1.0 j ∙ rw (z) refl))
                  ∙ sym (bitmap_isset_eq words nbits j ok inside))
            ]
      ],
      after.1.1,
    )
  where
    isset_value : (b : Bool) → ltb 0 (if b then 1 else 0) ≡ b
    isset_value true = refl
    isset_value false = refl
