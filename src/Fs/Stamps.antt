-- ===== src/Fs/Stamps.antt =====
-- The readings of the clock, when they succeed.
use os_library.Base.{
  List, [], ◌∷◌, All, ◌∙◌, ◌==◌, Bool-cases, ℕ, suc, ◌≡◌, refl, ap, some, true, inl, inr,
  Option-cases, is_some, update, arith,
}
use os_library.Fs.Lookup.{direct_blocks, indirect_blocks, path_lookup}
use os_library.Fs.Agree.{path_lookup-SameRoot}
use os_library.Base.Int.{pos}
use os_library.Fs.Truncate.{inode_of}
use os_library.Fs.State.{Timespec, Inode, Fs, Clock, stamp, modify_inode}

-- A clock that can always be read.
abbrev pub Works : Clock → Type 0
Works clock = (n : ℕ) → is_some (clock n) ≡ true

-- The image after an inode was stamped.
abbrev pub stamped : ℕ → Timespec → Fs → Fs
stamped ino t s = record s {
  itable = update s.itable ino (record (s.itable ino) { i_mtime = t });
  calls = suc s.calls;
}

pub stamp_run :
    (clock : Clock) (ino : ℕ) (s : Fs)
    → Works clock
    → (t : Timespec) × (stamp clock ino s ≡ some (true, stamped ino t s))
unfolding stamp modify_inode
stamp_run clock ino s works = elim (Option-cases (clock s.calls)) [
  | inl e ↦ absurd (ground (arith, works s.calls, ap is_some e))
  | inr (t, e) ↦ (t, simp (e) refl)
]

-- Stamping an inode changes no other field of any inode.
pub stamped_field :
    {A : Type 0} (field : Inode → A) (ino : ℕ) (time : Timespec) (s : Fs) (j : ℕ)
    → ((n : Inode) → field (record n { i_mtime = time }) ≡ field n)
    → field ((stamped ino time s).itable j) ≡ field (s.itable j)
stamped_field field ino time s j h = elim (Bool-cases (ino == j)) [
  | inl e ↦ simp (e) (h (s.itable ino) ∙ ap (λ k. field (s.itable k)) (ground (arith, e)))
  | inr e ↦ simp (e) refl
]

blocks_kept : (f : ℕ → ℕ → ℕ) (bs : List ℕ) → All (λ b. f b ≡ f b) bs
blocks_kept f [] = tt
blocks_kept f (b ∷ bs) = (refl, blocks_kept f bs)

-- Stamping an inode changes no lookup.
pub path_lookup-stamped :
    (path : List ℕ) (ino : ℕ) (time : Timespec) (s : Fs)
    → path_lookup path (stamped ino time s) ≡ path_lookup path s
path_lookup-stamped path ino time s = path_lookup-SameRoot s (stamped ino time s) path record {
  same_direct = stamped_field direct_blocks ino time s 0 (λ n. refl);
  same_indirect = stamped_field (λ n. indirect_blocks n s) ino time s 0 (λ n. refl);
  direct_kept = blocks_kept s.blocks (direct_blocks (s.itable 0));
  indirect_kept = blocks_kept s.blocks (indirect_blocks (s.itable 0) s);
}

pub inode_of_eq :
    (path : List ℕ) (ino : ℕ) (s : Fs)
    → path_lookup path s ≡ (pos 0, some ino)
    → inode_of path s ≡ some (ino, s)
unfolding inode_of
inode_of_eq path ino s h = simp (h) refl
