-- ===== src/Bitmap/Form.antt =====
-- The well-formed bitmaps, and what writing one word of a bitmap does to its bits.
use os_library.Base.{
  ℕ, ◌+◌, ◌*◌, ◌/◌, ◌%◌, ◌^◌, ◌≤◌, ◌<◌, ◌≡◌, sym, ap, ◌∙◌, false, List, arith, ◌==◌, if◌then◌else◌,
  ◌≢◌, get_or, set, length, get_or-set_self, length-set, get_or-set_ne, inl, inr, Bool-cases,
}
use os_library.Bitmap.Bits.{testbit}
use os_library.Bitmap.{div_round_up}

-- Bit `i` of the bitmap.
abbrev pub bit : List ℕ → ℕ → ℕ
bit words i = testbit (get_or words (i / 64) 0) (i % 64)

-- A bitmap of `nbits` bits: the words cover it, fit 64 bits, and are marked past the end.
pub record IsBitmap (words : List ℕ) (nbits : ℕ) : Type 0 where
  pub small : nbits ≤ 2 ^ 31
  pub covers : nbits ≤ 64 * length words
  pub fits : (i : ℕ) → get_or words i 0 < 2 ^ 64
  pub padded : (i : ℕ) → nbits ≤ i → i < 64 * div_round_up nbits 64 → bit words i ≡ 1

pub bit-set :
    (words : List ℕ) (idx v j : ℕ)
    → idx < length words
    → bit (set words idx v) j ≡ (if idx == j / 64 then testbit v (j % 64) else bit words j)
bit-set words idx v j h = elim (Bool-cases (idx == j / 64)) [
  | inl e ↦
      let same : idx ≡ j / 64 = ground arith in
      rw (e) (
        ap (λ k. testbit (get_or (set words idx v) k 0) (j % 64)) (sym same)
        ∙ ap (λ w. testbit w (j % 64)) (get_or-set_self words idx v 0 h))
  | inr e ↦
      let apart : idx ≢ j / 64 = ground arith in
      rw (e) (ap (λ w. testbit w (j % 64)) (get_or-set_ne words idx (j / 64) v 0 apart))
]

-- A word that fits may be written if it keeps the padding.
pub set-IsBitmap :
    (words : List ℕ) (nbits idx v : ℕ)
    → IsBitmap words nbits
    → idx < length words
    → v < 2 ^ 64
    → ((j : ℕ) → nbits ≤ j → j < 64 * div_round_up nbits 64 → bit (set words idx v) j ≡ 1)
    → IsBitmap (set words idx v) nbits
set-IsBitmap words nbits idx v ok h g p = record {
  small = ok.small;
  covers = omega (arith, ok.covers, length-set words idx v);
  fits = λ k. elim (Bool-cases (k == idx)) [
    | inl e ↦
        let same : k ≡ idx = ground arith in
        omega (arith, get_or-set_self words idx v 0 h, ap (λ t. get_or (set words idx v) t 0) same)
    | inr e ↦
        let apart : idx ≢ k = ground arith in
        omega (arith, get_or-set_ne words idx k v 0 apart, ok.fits k)
  ];
  padded = p;
}

-- Bit `o` of word `idx`, by its place in the bitmap.
pub bit_of :
    (words : List ℕ) (idx o : ℕ)
    → o < 64
    → bit words (idx * 64 + o) ≡ testbit (get_or words idx 0) o
bit_of words idx o h =
    let high : (idx * 64 + o) / 64 ≡ idx = omega arith in
    let low : (idx * 64 + o) % 64 ≡ o = omega arith in
    ap (λ k. testbit (get_or words k 0) ((idx * 64 + o) % 64)) high
    ∙ ap (testbit (get_or words idx 0)) low

-- Writing a word that differs from the old one in bit `o` alone changes bit `idx * 64 + o` alone.
pub one_bit_written :
    (words : List ℕ) (idx o b w : ℕ)
    → idx < length words
    → o < 64
    → ((j : ℕ) → testbit w j ≡ (if o == j then b else testbit (get_or words idx 0) j))
    → (j : ℕ) → bit (set words idx w) j ≡ (if idx * 64 + o == j then b else bit words j)
one_bit_written words idx o b w h g e j = elim (Bool-cases (idx == j / 64)) [
  | inl z ↦
      let same : idx ≡ j / 64 = ground arith in
      let at : (o == j % 64) ≡ (idx * 64 + o == j) = ground arith in
      bit-set words idx w j h
      ∙ ap (λ t. if t then testbit w (j % 64) else bit words j) z
      ∙ e (j % 64)
      ∙ ap (λ t. if t then b else testbit (get_or words idx 0) (j % 64)) at
      ∙ ap (λ k. if idx * 64 + o == j then b else testbit (get_or words k 0) (j % 64)) same
  | inr z ↦
      let apart : (idx * 64 + o == j) ≡ false = ground arith in
      bit-set words idx w j h
      ∙ ap (λ t. if t then testbit w (j % 64) else bit words j) z
      ∙ ap (λ t. if t then b else bit words j) (sym apart)
]
