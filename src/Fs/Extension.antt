-- ===== src/Fs/Extension.antt =====
-- vsfs.c: truncation to a larger size within the direct blocks.
use os_library.Base.{ℕ, ◌-◌, ◌≡◌, refl, some, true, List, update}
use os_library.Base.Int.{pos}
use os_library.Fs.State.{Fs, Clock, stamp}
use os_library.Fs.Lookup.{path_lookup}
use os_library.Fs.Stamps.{inode_of_eq}
use os_library.Fs.Truncate.{truncate_checked, vsfs_truncate, blocks_for}
use os_library.Fs.Growth.{Grown}

-- The image with a new size in an inode.
abbrev pub sized : ℕ → ℕ → Fs → Fs
sized ino size s = record s {
  itable = update s.itable ino (record (s.itable ino) { i_size = size });
}

pub vsfs_truncate_eq :
    (clock : Clock) (path : List ℕ) (ino size : ℕ) (s t : Fs)
    → path_lookup path s ≡ (pos 0, some ino)
    → stamp clock ino s ≡ some (true, t)
    → vsfs_truncate clock path size s
      ≡ truncate_checked path ino size
          (blocks_for size)
          (t.itable ino).i_blocks
          t.sb.sb_free_blocks
          t
unfolding vsfs_truncate
vsfs_truncate_eq clock path ino size s t h g = simp (inode_of_eq path ino s h, g) refl

-- The call of `vsfs_truncate` succeeds, sets the size, and gives the file the blocks that it lacks.
pub record Extends (clock : Clock) (path : List ℕ) (ino size : ℕ) (s : Fs) : Type 0 where
  pub after : Fs
  pub truncates : vsfs_truncate clock path size s ≡ some (pos 0, after)
  pub size_set : (after.itable ino).i_size ≡ size
  pub blocks_set : (after.itable ino).i_blocks ≡ blocks_for size
  pub grown : Grown ino (blocks_for size - (s.itable ino).i_blocks) (s.itable ino).i_blocks s after
