-- ===== src/Bitmap.antt =====
-- A4-File-System/bitmap.c: bitmaps of 64-bit words, a word at a time.
mod Digits
pub mod Bits
pub mod Form
pub mod Alloc
pub mod Free
pub mod Marks
pub mod Init
pub mod Count
pub mod Examples
use Prim.Native.Nat.{bit_and, bit_or}
use os_library.Base.{
  ℕ, zero, suc, ◌+◌, ◌-◌, ◌*◌, ◌/◌, ◌%◌, ◌^◌, Option, none, some, Bool, true, false, List, [], ◌∷◌,
  ◌==◌, ltb, if◌then◌else◌, get_elem?, get_or, set, replicate, not,
}

abbrev pub bits_per_word : ℕ
bits_per_word = 64

-- (size_t)-1
abbrev pub word_all_bits : ℕ
word_all_bits = 2 ^ 64 - 1

-- `div_round_up` of util.h, on `uint32_t`.
unfoldable pub div_round_up : ℕ → ℕ → ℕ
div_round_up x y = (x + y + 2 ^ 32 - 1) % 2 ^ 32 / y

-- (size_t)1 << offset, for an offset below 64.
abbrev pub mask_of : ℕ → ℕ
mask_of offset = 2 ^ offset

-- ~mask
abbrev pub flip_mask : ℕ → ℕ
flip_mask offset = 2 ^ 64 - 1 - 2 ^ offset

-- What a call does to the words: `fault` is a failed assertion or a word out of range.
pub data Result : Type 0 where
  done : List ℕ → Result
  fault : Result

pub data AllocResult : Type 0 where
  allocated : ℕ → List ℕ → AllocResult
  full : AllocResult
  fault : AllocResult

-- The inner loop of `bitmap_alloc`: the first clear bit of `w` from `offset` on, `rounds` bits left.
unfoldable pub find_clear : ℕ → ℕ → ℕ → Option ℕ
find_clear zero offset w = none
find_clear (suc rounds) offset w =
    let rest = find_clear rounds (suc offset) w in
    if bit_and w (mask_of offset) == 0 then some offset else rest

-- What the outer loop does with a clear bit, and with none in a word that is not all ones.
unfoldable pub take_bit : ℕ → ℕ → ℕ → List ℕ → Option ℕ → AllocResult
take_bit nbits idx w words none = AllocResult.fault
take_bit nbits idx w words (some offset) =
    let index = idx * bits_per_word + offset in
    if ltb index nbits
    then allocated index (set words idx (bit_or w (mask_of offset)))
    else AllocResult.fault

-- The outer loop of `bitmap_alloc` from word `idx` on, with `rounds` words left.
unfoldable pub alloc_loop : ℕ → ℕ → ℕ → List ℕ → AllocResult
alloc_loop zero nbits idx words = full
alloc_loop (suc rounds) nbits idx words =
    let rest = alloc_loop rounds nbits (suc idx) words in
    elim (get_elem? words idx) [
      | none ↦ AllocResult.fault
      | some w ↦
          if w == word_all_bits
          then rest
          else take_bit nbits idx w words (find_clear bits_per_word 0 w)
    ]

-- `bitmap_alloc`
unfoldable pub bitmap_alloc : List ℕ → ℕ → AllocResult
bitmap_alloc words nbits = alloc_loop (div_round_up nbits bits_per_word) nbits 0 words

abbrev pub put_word : List ℕ → ℕ → ℕ → Result
put_word words idx w = done (set words idx w)

-- `bitmap_free`
unfoldable pub bitmap_free : List ℕ → ℕ → ℕ → Result
bitmap_free words nbits index =
    let idx = index / bits_per_word in
    let offset = index % bits_per_word in
    elim (get_elem? words idx) [
      | none ↦ Result.fault
      | some w ↦
          if ltb index nbits
          then (if bit_and w (mask_of offset) == 0
              then Result.fault
              else put_word words idx (bit_and w (flip_mask offset)))
          else Result.fault
    ]

-- `bitmap_set`
unfoldable pub bitmap_set : List ℕ → ℕ → ℕ → Bool → Result
bitmap_set words nbits index val =
    let idx = index / bits_per_word in
    let offset = index % bits_per_word in
    elim (get_elem? words idx) [
      | none ↦ Result.fault
      | some w ↦
          if ltb index nbits
          then put_word words idx
              (if val then bit_or w (mask_of offset) else bit_and w (flip_mask offset))
          else Result.fault
    ]

-- `bitmap_isset`, with `none` for a failed assertion or a word out of range.
unfoldable pub bitmap_isset : List ℕ → ℕ → ℕ → Option Bool
bitmap_isset words nbits index = elim (get_elem? words (index / bits_per_word)) [
  | none ↦ none
  | some w ↦
      if ltb index nbits then some (ltb 0 (bit_and w (mask_of (index % bits_per_word)))) else none
]

-- The loop of `bitmap_init` that marks the bits of `w` from `j` on, with `rounds` left.
unfoldable pub mark_from : ℕ → ℕ → ℕ → ℕ
mark_from zero j w = w
mark_from (suc rounds) j w = mark_from rounds (suc j) (bit_or w (mask_of j))

abbrev clear_words : ℕ → List ℕ → List ℕ
clear_words zero words = words
clear_words (suc n) [] = []
clear_words (suc n) (w ∷ words) = 0 ∷ clear_words n words

-- The end of `bitmap_init`: the bits of word `idx` from `overbits` on are marked as taken.
abbrev mark_leftover : List ℕ → ℕ → ℕ → List ℕ
mark_leftover words idx overbits =
    set words idx (mark_from (bits_per_word - overbits) overbits (get_or words idx 0))

-- `bitmap_init`, for words that cover `nbits`.
unfoldable pub bitmap_init : List ℕ → ℕ → List ℕ
bitmap_init words nbits =
    let nwords = div_round_up nbits bits_per_word in
    let cleared = clear_words nwords words in
    let idx = nwords - 1 in
    if ltb (nbits / bits_per_word) nwords
    then mark_leftover cleared idx (nbits - idx * bits_per_word)
    else cleared
