-- ===== src/Bitmap/Examples.antt =====
-- The theorems on bitmaps at a bitmap of 70 bits, with 58 bits past its end.
use os_library.Base.{ℕ, zero, suc, ◌^◌, ◌<◌, ◌≡◌, refl, subst, true, List, [], ◌∷◌, arith, get_or}
use os_library.Bitmap.Form.{IsBitmap}
use os_library.Bitmap.Alloc.{Allocates, bitmap_alloc-Allocates}
use os_library.Bitmap.Free.{Frees, bitmap_free-Frees, bitmap_alloc-bitmap_free, Restores}
use os_library.Bitmap.Marks.{bitmap_set-bitmap_isset}
use os_library.Bitmap.Init.{bitmap_init-IsEmpty}
use os_library.Bitmap.{
  allocated, done, bitmap_alloc, bitmap_free, bitmap_set, bitmap_init, div_round_up, mark_from,
  alloc_loop, find_clear, take_bit,
}

-- What the disk holds before the bitmap is made.
abbrev old_words : List ℕ
old_words = 5 ∷ 7 ∷ []

abbrev fresh_words : List ℕ
fresh_words = 0 ∷ 18446744073709551552 ∷ []

abbrev used_words : List ℕ
used_words = 11 ∷ 18446744073709551552 ∷ []

abbrev taken_words : List ℕ
taken_words = 15 ∷ 18446744073709551552 ∷ []

old_words-fits : (k : ℕ) → get_or old_words k 0 < 2 ^ 64
old_words-fits zero = omega arith
old_words-fits (suc zero) = omega arith
old_words-fits (suc (suc k)) = omega arith

fresh_words-made : bitmap_init old_words 70 ≡ fresh_words
unfolding bitmap_init div_round_up mark_from
fresh_words-made = refl

fresh_words-IsBitmap : IsBitmap fresh_words 70
fresh_words-IsBitmap =
    subst (λ ws. IsBitmap ws 70) fresh_words-made
      (bitmap_init-IsEmpty old_words 70 (omega arith) (omega arith) old_words-fits).well_formed

abbrev one_word : List ℕ
one_word = 1 ∷ 18446744073709551552 ∷ []

abbrev two_word : List ℕ
two_word = 3 ∷ 18446744073709551552 ∷ []

first_set : bitmap_set fresh_words 70 0 true ≡ done one_word
unfolding bitmap_set
first_set = refl

second_set : bitmap_set one_word 70 1 true ≡ done two_word
unfolding bitmap_set
second_set = refl

third_set : bitmap_set two_word 70 3 true ≡ done used_words
unfolding bitmap_set
third_set = refl

one_word-IsBitmap : IsBitmap one_word 70
one_word-IsBitmap =
    (bitmap_set-bitmap_isset fresh_words 70 0 0 true one_word fresh_words-IsBitmap first_set).1

two_word-IsBitmap : IsBitmap two_word 70
two_word-IsBitmap =
    (bitmap_set-bitmap_isset one_word 70 1 0 true two_word one_word-IsBitmap second_set).1

used_words-IsBitmap : IsBitmap used_words 70
used_words-IsBitmap =
    (bitmap_set-bitmap_isset two_word 70 3 0 true used_words two_word-IsBitmap third_set).1

third_taken : bitmap_alloc used_words 70 ≡ allocated 2 taken_words
unfolding bitmap_alloc alloc_loop find_clear take_bit div_round_up
third_taken = refl

bitmap_alloc-Allocates_example : Allocates used_words 70 (bitmap_alloc used_words 70)
bitmap_alloc-Allocates_example = bitmap_alloc-Allocates used_words 70 used_words-IsBitmap

bitmap_free-Frees_example : Frees used_words 70 3 (bitmap_free used_words 70 3)
bitmap_free-Frees_example = bitmap_free-Frees used_words 70 3 used_words-IsBitmap

bitmap_alloc-bitmap_free_example : Restores used_words (bitmap_free taken_words 70 2)
bitmap_alloc-bitmap_free_example =
    bitmap_alloc-bitmap_free used_words 70 2 taken_words used_words-IsBitmap third_taken
