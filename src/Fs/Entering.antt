-- ===== src/Fs/Entering.antt =====
-- vsfs.c: entering a name in the first block of a directory that has room.
use os_library.Base.{
  ℕ, zero, suc, ◌^◌, ◌<◌, ◌≡◌, refl, ap, ◌∙◌, ◌≢◌, Option, none, some, Bool, true, false, List, [],
  ◌∷◌, arith, if◌then◌else◌, inl, inr, update, is_some, Option-cases, All, length, ==_refl,
}
use os_library.Base.Int.{ℤ, pos, negsuc}
use os_library.Fs.State.{Fs, modify_block}
use os_library.Fs.Lookup.{traverse_from, traverse_block, lookup_in}
use os_library.Fs.Agree.{update_ne}
use os_library.Fs.Create.{write_dentry, free_dentry, find_new_dentry, enter_in}
use os_library.Fs.Dentries.{traverse_block-write_dentry}

-- Some block of a list has an unused entry.
abbrev pub has_room : List ℕ → (ℕ → ℕ → ℕ) → Bool
has_room [] blocks = false
has_room (b ∷ bs) blocks =
    if is_some (free_dentry 16 0 (blocks b)) then true else has_room bs blocks

-- No block of a list has an entry of the name.
abbrev pub Lacks : List ℕ → (ℕ → ℕ → ℕ) → List ℕ → Type 0
Lacks name blocks = All (λ b. traverse_from 16 0 name (blocks b) ≡ none)

-- A name was entered in block `b`, and is found in every image that holds the blocks as they are then.
pub record Entered (bs name : List ℕ) (c ino : ℕ) (s : Fs) : Type 0 where
  pub block : ℕ
  pub bytes : ℕ → ℕ
  pub had_room : is_some (free_dentry 16 0 (s.blocks block)) ≡ true
  pub enters :
      enter_in bs (c ∷ name) ino s ≡ some (true, record s { blocks = update s.blocks block bytes })
  pub finds :
      (t : Fs) → t.blocks ≡ update s.blocks block bytes → lookup_in bs (c ∷ name) t ≡ some (pos ino)

enter_in-room :
    (b : ℕ) (bs name : List ℕ) (c j ino : ℕ) (s : Fs)
    → free_dentry 16 0 (s.blocks b) ≡ some j
    → enter_in (b ∷ bs) (c ∷ name) ino s
      ≡ some (true, record s { blocks = update s.blocks b (write_dentry j ino name (s.blocks b)) })
unfolding enter_in find_new_dentry modify_block
enter_in-room b bs name c j ino s h =
    ap
      (λ (o : Option (ℕ → ℕ)). elim o as (λ _. Option (Bool × Fs)) [
        | none ↦ enter_in bs (c ∷ name) ino s
        | some de ↦ some (true, record s { blocks = update s.blocks b de })
      ])
      (ap
        (λ (o : Option ℕ). elim o as (λ _. Option (ℕ → ℕ)) [
          | none ↦ none
          | some i ↦ some (write_dentry i ino name (s.blocks b))
        ])
        h)

enter_in-next :
    (b : ℕ) (bs name : List ℕ) (c ino : ℕ) (s : Fs)
    → free_dentry 16 0 (s.blocks b) ≡ none
    → enter_in (b ∷ bs) (c ∷ name) ino s ≡ enter_in bs (c ∷ name) ino s
unfolding enter_in find_new_dentry modify_block
enter_in-next b bs name c ino s h =
    ap
      (λ (o : Option (ℕ → ℕ)). elim o as (λ _. Option (Bool × Fs)) [
        | none ↦ enter_in bs (c ∷ name) ino s
        | some de ↦ some (true, record s { blocks = update s.blocks b de })
      ])
      (ap
        (λ (o : Option ℕ). elim o as (λ _. Option (ℕ → ℕ)) [
          | none ↦ none
          | some i ↦ some (write_dentry i ino name (s.blocks b))
        ])
        h)

lookup_step : ℤ → Option ℤ → Option ℤ
lookup_step (pos n) rest = some (pos n)
lookup_step (negsuc zero) rest = rest
lookup_step (negsuc (suc k)) rest = some (negsuc (suc k))

lookup_in-cons :
    (b : ℕ) (bs path : List ℕ) (t : Fs) (z : ℤ)
    → traverse_block (t.blocks b) path ≡ z
    → lookup_in (b ∷ bs) path t ≡ lookup_step z (lookup_in bs path t)
unfolding lookup_in lookup_step
lookup_in-cons b bs path t z h =
    ap
      (λ w. elim w as (λ _. Option ℤ) [
        | pos n ↦ some (pos n)
        | negsuc zero ↦ lookup_in bs path t
        | negsuc (suc k) ↦ some (negsuc (suc k))
      ])
      h
    ∙ ground arith

-- A block without the name is passed over.
traverse_block-Lacks :
    (name : List ℕ) (c : ℕ) (de : ℕ → ℕ)
    → traverse_from 16 0 name de ≡ none
    → traverse_block de (c ∷ name) ≡ negsuc 0
unfolding traverse_block
traverse_block-Lacks name c de h = simp (h) refl

enter_here :
    (b : ℕ) (bs name : List ℕ) (c j ino : ℕ) (s : Fs)
    → length name < 252
    → ino < 2 ^ 31
    → traverse_from 16 0 name (s.blocks b) ≡ none
    → free_dentry 16 0 (s.blocks b) ≡ some j
    → Entered (b ∷ bs) name c ino s
unfolding lookup_step
enter_here b bs name c j ino s short small missing h =
    let de = write_dentry j ino name (s.blocks b) in
    record {
      block = b;
      bytes = de;
      had_room = ground (arith, h);
      enters = enter_in-room b bs name c j ino s h;
      finds = λ t e.
          let here : t.blocks b ≡ de =
            ap (λ (f : ℕ → ℕ → ℕ). f b) e ∙ ap (λ q. if q then de else s.blocks b) (==_refl b) in
          lookup_in-cons b bs (c ∷ name) t (pos ino) (
            ap (λ m. traverse_block m (c ∷ name)) here
            ∙ traverse_block-write_dentry name c j ino (s.blocks b) short small missing h);
    }

pub enter_in-Entered :
    (bs name : List ℕ) (c ino : ℕ) (s : Fs)
    → length name < 252
    → ino < 2 ^ 31
    → Lacks name s.blocks bs
    → has_room bs s.blocks ≡ true
    → Entered bs name c ino s
unfolding lookup_step
enter_in-Entered [] name c ino s short small lacks room = absurd (ground (arith, room))
enter_in-Entered (b ∷ bs) name c ino s short small lacks room =
    elim (Option-cases (free_dentry 16 0 (s.blocks b))) [
      | inl e ↦
          let rest =
            enter_in-Entered bs name c ino s short small lacks.1 (ground (arith, e, room)) in
          let other : rest.block ≢ b = λ same.
            ground
              (arith, rest.had_room, ap (λ k. is_some (free_dentry 16 0 (s.blocks k))) same, e) in
          record {
            block = rest.block;
            bytes = rest.bytes;
            had_room = rest.had_room;
            enters = enter_in-next b bs name c ino s e ∙ rest.enters;
            finds = λ t g.
                let here : t.blocks b ≡ s.blocks b =
                  ap (λ (f : ℕ → ℕ → ℕ). f b) g
                  ∙ update_ne s.blocks rest.block b rest.bytes other in
                lookup_in-cons b bs (c ∷ name) t (negsuc 0) (
                  ap (λ m. traverse_block m (c ∷ name)) here
                  ∙ traverse_block-Lacks name c (s.blocks b) lacks.0)
                ∙ rest.finds t g;
          }
      | inr (j, e) ↦ enter_here b bs name c j ino s short small lacks.0 e
    ]
