-- ===== src/Bitmap/Init.antt =====
-- `bitmap_init` gives an empty bitmap.
use Prim.Native.Nat.{bit_or}
use os_library.Base.{
  ℕ, zero, suc, ◌+◌, ◌-◌, ◌*◌, ◌/◌, ◌%◌, ◌^◌, ◌≤◌, ◌<◌, ◌≡◌, refl, sym, ap, subst, ◌∙◌, true, false,
  List, [], ◌∷◌, arith, ◌==◌, ltb, if◌then◌else◌, ◌≢◌, get_or, set, length, length-set,
  get_or-set_self, get_or-set_ne, inl, inr, Bool-cases,
}
use os_library.Bitmap.Bits.{testbit, testbit-set, testbit-zero, bit_or-lt}
use os_library.Bitmap.Form.{bit, IsBitmap, bit-set}
use os_library.Bitmap.Alloc.{words_needed}
use os_library.Bitmap.{div_round_up, mask_of, mark_from, clear_words, mark_leftover, bitmap_init}

-- Bits `j` to `j + rounds - 1` are set, the others are kept.
testbit-mark_from :
    (rounds j w k : ℕ)
    → testbit (mark_from rounds j w) k
      ≡ (if ltb k j then testbit w k else if ltb k (j + rounds) then 1 else testbit w k)
unfolding mark_from
testbit-mark_from zero j w k = ground arith
testbit-mark_from (suc rounds) j w k =
    testbit-mark_from rounds (suc j) (bit_or w (mask_of j)) k ∙ ground (arith, testbit-set j w k)

mark_from-lt : (rounds j w : ℕ) → j + rounds ≤ 64 → w < 2 ^ 64 → mark_from rounds j w < 2 ^ 64
unfolding mark_from
mark_from-lt zero j w h g = g
mark_from-lt (suc rounds) j w h g =
    mark_from-lt rounds (suc j) (bit_or w (mask_of j)) (omega arith)
      (bit_or-lt 64 j w (omega arith) g)

get_or-clear_words :
    (n i : ℕ) (words : List ℕ)
    → get_or (clear_words n words) i 0 ≡ (if ltb i n then 0 else get_or words i 0)
get_or-clear_words zero i words = ground arith
get_or-clear_words (suc n) i [] = ground arith
get_or-clear_words (suc n) zero (w ∷ words) = ground arith
get_or-clear_words (suc n) (suc i) (w ∷ words) = get_or-clear_words n i words ∙ ground arith

length-clear_words : (n : ℕ) (words : List ℕ) → length (clear_words n words) ≡ length words
length-clear_words zero words = refl
length-clear_words (suc n) [] = refl
length-clear_words (suc n) (w ∷ words) = ap suc (length-clear_words n words)

bit-clear_words : (n j : ℕ) (words : List ℕ) → j < 64 * n → bit (clear_words n words) j ≡ 0
bit-clear_words n j words h =
    let inside : ltb (j / 64) n ≡ true = ground arith in
    ap (λ w. testbit w (j % 64)) (get_or-clear_words n (j / 64) words ∙ rw (inside) refl)
    ∙ testbit-zero (j % 64)

clear_words-fits :
    (n i : ℕ) (words : List ℕ)
    → ((k : ℕ) → get_or words k 0 < 2 ^ 64)
    → get_or (clear_words n words) i 0 < 2 ^ 64
clear_words-fits n i words h = ground (arith, get_or-clear_words n i words, h i)

-- The bits of the last word from `overbits` on are marked, and no other.
bit-mark_leftover :
    (words : List ℕ) (n overbits j : ℕ)
    → n < length words
    → overbits ≤ 64
    → j < 64 * suc n
    → bit (mark_leftover (clear_words (suc n) words) n overbits) j
      ≡ (if ltb j (64 * n + overbits) then 0 else 1)
bit-mark_leftover words n overbits j h g l =
    let cleared = clear_words (suc n) words in
    let covered : n < length cleared = omega (arith, length-clear_words (suc n) words) in
    let marked = mark_from (64 - overbits) overbits (get_or cleared n 0) in
    let last : get_or cleared n 0 ≡ 0 = ground (arith, get_or-clear_words (suc n) n words) in
    bit-set cleared n marked j covered
    ∙ ground (
      arith,
      bit-clear_words (suc n) j words l,
      testbit-mark_from (64 - overbits) overbits (get_or cleared n 0) (j % 64),
      ap (λ w. testbit w (j % 64)) last,
      testbit-zero (j % 64),
    )

-- `bitmap_init` when the last word is used in part, and when every word is used whole.
init_part :
    (words : List ℕ) (nbits n : ℕ)
    → div_round_up nbits 64 ≡ suc n
    → nbits / 64 < suc n
    → bitmap_init words nbits ≡ mark_leftover (clear_words (suc n) words) n (nbits - n * 64)
unfolding bitmap_init
init_part words nbits n e h =
    let some_left : ltb (nbits / 64) (suc n) ≡ true = ground arith in
    let last : suc n - 1 ≡ n = omega arith in simp (e, some_left, last) refl

init_whole :
    (words : List ℕ) (nbits n : ℕ)
    → div_round_up nbits 64 ≡ n
    → n ≤ nbits / 64
    → bitmap_init words nbits ≡ clear_words n words
unfolding bitmap_init
init_whole words nbits n e h =
    let none_left : ltb (nbits / 64) n ≡ false = ground arith in simp (e, none_left) refl

-- The empty bitmaps of `nbits` bits.
pub record IsEmpty (words : List ℕ) (nbits : ℕ) : Type 0 where
  pub well_formed : IsBitmap words nbits
  pub clear : (j : ℕ) → j < nbits → bit words j ≡ 0

part-IsEmpty :
    (words : List ℕ) (nbits n : ℕ)
    → nbits ≤ 2 ^ 31
    → nbits ≤ 64 * length words
    → ((k : ℕ) → get_or words k 0 < 2 ^ 64)
    → div_round_up nbits 64 ≡ suc n
    → nbits / 64 < suc n
    → IsEmpty (mark_leftover (clear_words (suc n) words) n (nbits - n * 64)) nbits
part-IsEmpty words nbits n small covers fits e h =
    let rounded = words_needed nbits small in
    let cleared = clear_words (suc n) words in
    let over = nbits - n * 64 in
    let place : 64 * n + over ≡ nbits = omega arith in
    let covered : n < length words = omega arith in
    let w = mark_from (64 - over) over (get_or cleared n 0) in
    record {
      well_formed = record {
        small = small;
        covers = omega (arith, length-set cleared n w, length-clear_words (suc n) words);
        fits = λ k. elim (Bool-cases (k == n)) [
          | inl z ↦
              let same : k ≡ n = ground arith in
              let written =
                get_or-set_self cleared n w 0 (omega (arith, length-clear_words (suc n) words)) in
              omega (
                arith,
                written,
                ap (λ t. get_or (set cleared n w) t 0) same,
                mark_from-lt (64 - over) over (get_or cleared n 0) (omega arith)
                    (clear_words-fits (suc n) n words fits),
              )
          | inr z ↦
              let apart : n ≢ k = ground arith in
              omega
                (arith, get_or-set_ne cleared n k w 0 apart, clear_words-fits (suc n) k words fits)
        ];
        padded = λ j l u.
            bit-mark_leftover words n over j covered (omega arith) (omega arith) ∙ ground arith;
      };
      clear = λ j l.
          bit-mark_leftover words n over j covered (omega arith) (omega arith) ∙ ground arith;
    }

whole-IsEmpty :
    (words : List ℕ) (nbits n : ℕ)
    → nbits ≤ 2 ^ 31
    → nbits ≤ 64 * length words
    → ((k : ℕ) → get_or words k 0 < 2 ^ 64)
    → div_round_up nbits 64 ≡ n
    → n ≤ nbits / 64
    → IsEmpty (clear_words n words) nbits
whole-IsEmpty words nbits n small covers fits e h =
    let rounded = words_needed nbits small in
    record {
      well_formed = record {
        small = small;
        covers = omega (arith, length-clear_words n words);
        fits = λ k. clear_words-fits n k words fits;
        padded = λ j l u. absurd (omega arith);
      };
      clear = λ j l. bit-clear_words n j words (omega arith);
    }

-- `bitmap_init` on words that cover `nbits`, at most 2 ^ 31, whatever they hold, gives a well-formed bitmap in which
-- every bit below `nbits` is clear.
pub bitmap_init-IsEmpty :
    (words : List ℕ) (nbits : ℕ)
    → nbits ≤ 2 ^ 31
    → nbits ≤ 64 * length words
    → ((k : ℕ) → get_or words k 0 < 2 ^ 64)
    → IsEmpty (bitmap_init words nbits) nbits
bitmap_init-IsEmpty words nbits small covers fits =
    let rounded = words_needed nbits small in
    let n = div_round_up nbits 64 in
    elim (Bool-cases (ltb (nbits / 64) n)) [
      | inl e ↦
          let some_left : nbits / 64 < n = ground arith in
          let count : n ≡ suc (n - 1) = omega arith in
          subst (λ ws. IsEmpty ws nbits) (sym (init_part words nbits (n - 1) count (omega arith)))
            (part-IsEmpty words nbits (n - 1) small covers fits count (omega arith))
      | inr e ↦
          let none_left : n ≤ nbits / 64 = ground arith in
          subst (λ ws. IsEmpty ws nbits) (sym (init_whole words nbits n refl none_left))
            (whole-IsEmpty words nbits n small covers fits refl none_left)
    ]
