-- ===== src/Fs/Dentries.antt =====
-- vsfs.c: a directory entry that was just written is the one that a lookup finds.
use os_library.Base.{
  ℕ, zero, suc, ◌+◌, ◌^◌, ◌≤◌, ◌<◌, ◌≡◌, sym, ap, subst, ◌∙◌, none, some, true, false, List, [],
  ◌∷◌, ◌++◌, arith, ◌==◌, if◌then◌else◌, inl, inr, Bool-cases, length,
}
use os_library.Base.Int.{pos}
use os_library.Base.Bytes.{
  read_u32, write_u32, strcmp_eq, store_bytes-below, strcmp_eq-strcpy, strcmp_eq_agree,
  read_u32-write_u32, read_u32_agree,
}
use os_library.Fs.Lookup.{ino_at, name_at, traverse_from, traverse_block}
use os_library.Fs.Create.{write_dentry, free_dentry}

-- An entry is written at `j`: its name and its number are there, and the entries before it are as they were.
dentry-name :
    (j ino : ℕ) (name : List ℕ) (de : ℕ → ℕ)
    → strcmp_eq name (name_at j) (write_dentry j ino name de) ≡ true
dentry-name j ino name de = strcmp_eq-strcpy name (name_at j) (write_u32 (ino_at j) ino de)

dentry-ino :
    (j ino : ℕ) (name : List ℕ) (de : ℕ → ℕ)
    → ino < 2 ^ 32
    → read_u32 (write_dentry j ino name de) (ino_at j) ≡ ino
dentry-ino j ino name de h =
    let mem = write_u32 (ino_at j) ino de in
    read_u32_agree (ino_at j) mem (write_dentry j ino name de)
      (λ k l g. store_bytes-below (name ++ 0 ∷ []) (name_at j) k mem (omega arith))
    ∙ read_u32-write_u32 (ino_at j) ino de h

dentry-before :
    (j ino k : ℕ) (name : List ℕ) (de : ℕ → ℕ) → k < ino_at j → write_dentry j ino name de k ≡ de k
dentry-before j ino k name de h =
    store_bytes-below (name ++ 0 ∷ []) (name_at j) k (write_u32 (ino_at j) ino de) (omega arith)
    ∙ ground arith

traverse_from-write_dentry :
    (rounds i j ino : ℕ) (name : List ℕ) (de : ℕ → ℕ)
    → length name < 252
    → ino < 2 ^ 32
    → i ≤ j
    → j < i + rounds
    → traverse_from rounds i name de ≡ none
    → traverse_from rounds i name (write_dentry j ino name de) ≡ some ino
unfolding traverse_from
traverse_from-write_dentry zero i j ino name de short small l g h = absurd (omega arith)
traverse_from-write_dentry (suc rounds) i j ino name de short small l g h =
    let after = write_dentry j ino name de in
    elim (Bool-cases (i == j)) [
      | inl e ↦
          let same : i ≡ j = ground arith in
          subst
            (λ k.
              if◌then◌else◌ (strcmp_eq name (name_at k) after) (some (read_u32 after (ino_at k)))
                (traverse_from rounds (suc i) name after)
              ≡ some ino)
            (sym same) (simp (dentry-name j ino name de) (ap some (dentry-ino j ino name de small)))
      | inr e ↦ elim (Bool-cases (strcmp_eq name (name_at i) de)) [
        | inl d ↦ absurd (ground (arith, d, h))
        | inr d ↦
            let less : i < j = ground arith in
            let miss : strcmp_eq name (name_at i) after ≡ false =
              strcmp_eq_agree name (name_at i) de after
                (λ k p q. dentry-before j ino k name de (omega arith))
              ∙ d in
            let rest : traverse_from rounds (suc i) name de ≡ none = ground (arith, d, h) in
            simp (miss) (
              traverse_from-write_dentry rounds (suc i) j ino name de short small (ground arith)
                (omega arith) rest)
      ]
    ]

free_dentry-lt :
    (rounds i j : ℕ) (de : ℕ → ℕ) → free_dentry rounds i de ≡ some j → (i ≤ j) × (j < i + rounds)
unfolding free_dentry
free_dentry-lt zero i j de h = absurd (ground (arith, h))
free_dentry-lt (suc rounds) i j de h = elim (Bool-cases (de (name_at i) == 0)) [
  | inl e ↦ let same : i ≡ j = ground (arith, e, h) in (omega arith, omega arith)
  | inr e ↦
      let rest : free_dentry rounds (suc i) de ≡ some j = ground (arith, e, h) in
      let found = free_dentry-lt rounds (suc i) j de rest in
      (omega (arith, found), omega (arith, found))
]

-- The block of entries after a name was entered in it finds the name.
pub traverse_block-write_dentry :
    (name : List ℕ) (c j ino : ℕ) (de : ℕ → ℕ)
    → length name < 252
    → ino < 2 ^ 31
    → traverse_from 16 0 name de ≡ none
    → free_dentry 16 0 de ≡ some j
    → traverse_block (write_dentry j ino name de) (c ∷ name) ≡ pos ino
unfolding traverse_block
traverse_block-write_dentry name c j ino de short small missing h =
    let found =
      traverse_from-write_dentry 16 0 j ino name de short (omega arith) (omega arith)
        (omega (arith, free_dentry-lt 16 0 j de h)) missing in
    simp (found) (ground arith)
