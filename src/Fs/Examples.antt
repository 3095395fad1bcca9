-- ===== src/Fs/Examples.antt =====
-- The theorems on the file system at small images.
use os_library.Base.{
  zero, suc, ◌^◌, get_or, zero, suc, none, ℕ, ◌*◌, ◌<◌, ◌≤◌, ◌⊎◌, length, ◌≡◌, refl, some, List, [],
  ◌∷◌, arith, ◌==◌, if◌then◌else◌, replicate, inl,
}
use os_library.Base.Int.{pos}
use os_library.Base.Moves.{Moves}
use os_library.Bitmap.{div_round_up}
use os_library.Fs.State.{Inode, Fs, Clock, direct_at}
use os_library.Fs.Lookup.{path_lookup, lookup_in, traverse_block, traverse_from}
use os_library.Fs.Create.{write_dentry, clear_entries, vsfs_create}
use os_library.Fs.Unlink.{vsfs_unlink, vsfs_utimens, release_table}
use os_library.Fs.Reclaim.{assigned, take, Reclaims, release_table-Reclaims}
use os_library.Fs.Truncate.{vsfs_truncate}
use os_library.Fs.Access.{block_of, vsfs_read, vsfs_write}
use os_library.Fs.Format.{root_entries, data_begins, made_superblock, mkfs}
use os_library.Fs.Counts.Files.{CountsRight, operations-CountsRight}
use os_library.Fs.Formatted.{Formats, mkfs-Formats}
use os_library.Bitmap.Form.{IsBitmap}
use os_library.Fs.Create.{free_dentry}
use os_library.Fs.Unlink.{named_dentry}
use os_library.Fs.Truncate.{blocks_for}
use os_library.Fs.Creation.{Creatable, Created, vsfs_create-Created}
use os_library.Fs.Misses.{LosesIndirect, vsfs_truncate-LosesIndirect}
use os_library.Fs.RootLoss.{GivesBackRoot, vsfs_unlink-root}
use os_library.Fs.RoundTrip.{InPlace, ReadsBack, vsfs_write-vsfs_read}

-- A clock that counts seconds.
abbrev ticking : Clock
ticking n = some (record { tv_sec = pos n; tv_nsec = 0 })

abbrev blank_inode : Inode
blank_inode = record {
  i_mode = 0;
  i_nlink = 0;
  i_blocks = 0;
  i_size = 0;
  i_mtime = record { tv_sec = pos 0; tv_nsec = 0 };
  i_direct = replicate 5 0;
  i_indirect = 0;
}

abbrev blank : Fs
blank = record {
  sb = made_superblock 0 0 0;
  ibmap = [];
  dbmap = [];
  itable = λ _. blank_inode;
  blocks = λ _ _. 0;
  calls = 0;
}

-- "/a"
abbrev path_a : List ℕ
path_a = 47 ∷ 97 ∷ []

-- A root directory in block 4, and the file "a" of 100 bytes in block 5.
abbrev two_inodes : ℕ → Inode
two_inodes ino =
    if ino == 0
    then record blank_inode {
      i_blocks = 1;
      i_size = 4096;
      i_nlink = 2;
      i_direct = 4 ∷ 0 ∷ 0 ∷ 0 ∷ 0 ∷ [];
    }
    else record blank_inode {
      i_blocks = 1;
      i_size = 100;
      i_nlink = 1;
      i_direct = 5 ∷ 0 ∷ 0 ∷ 0 ∷ 0 ∷ [];
    }

abbrev one_file : Fs
one_file = record {
  sb = record (made_superblock (64 * 4096) 64 64) { sb_free_inodes = 62; sb_free_blocks = 58 };
  ibmap = 3 ∷ [];
  dbmap = 63 ∷ [];
  itable = two_inodes;
  blocks = λ b. if b == 4 then write_dentry 2 1 (97 ∷ []) (root_entries (λ _. 0)) else λ _. 0;
  calls = 0;
}

one_file-found : path_lookup path_a one_file ≡ (pos 0, some 1)
unfolding path_lookup lookup_in traverse_block traverse_from clear_entries
one_file-found = refl

one_file-block : block_of 1 0 one_file ≡ some (5, one_file)
unfolding block_of direct_at
one_file-block = refl

one_file-InPlace : InPlace one_file path_a 3 10 1 5
one_file-InPlace = record {
  found = one_file-found;
  some_bytes = omega arith;
  in_file = omega arith;
  file_small = omega arith;
  in_block = omega arith;
  the_block = one_file-block;
  not_table = omega arith;
  outside = record { not_direct = (omega arith, tt); not_table = inl refl; not_indirect = tt };
}

vsfs_write-vsfs_read_example : ReadsBack ticking path_a (7 ∷ 8 ∷ 9 ∷ []) 10 5 one_file
vsfs_write-vsfs_read_example =
    vsfs_write-vsfs_read ticking path_a (7 ∷ 8 ∷ 9 ∷ []) 10 1 5 one_file (λ n. refl)
      one_file-InPlace

room_for_data : data_begins 64 < 64
unfolding div_round_up
room_for_data = omega arith

mkfs-Formats_example : Formats (64 * 4096) 64 64 (mkfs ticking (64 * 4096) 64 blank)
mkfs-Formats_example =
    mkfs-Formats ticking (64 * 4096) 64 blank (λ n. refl) (omega arith) (omega arith) (omega arith)
      (omega arith) room_for_data (omega arith)

operations-CountsRight_example :
    Moves CountsRight (vsfs_create ticking path_a 33188) CountsRight
    × Moves CountsRight (vsfs_unlink ticking path_a) CountsRight
    × Moves CountsRight (vsfs_truncate ticking path_a 30000) CountsRight
    × Moves CountsRight (vsfs_write ticking path_a (7 ∷ 8 ∷ 9 ∷ []) 10) CountsRight
    × Moves CountsRight (vsfs_read ticking path_a 30000 10) CountsRight
    × Moves CountsRight
        (vsfs_utimens ticking path_a (record { tv_sec = pos 5; tv_nsec = 0 }))
        CountsRight
operations-CountsRight_example =
    operations-CountsRight ticking (λ n. refl) path_a (7 ∷ 8 ∷ 9 ∷ []) 33188 30000 10
      (record { tv_sec = pos 5; tv_nsec = 0 })

word_fits : (w i : ℕ) → w < 2 ^ 64 → get_or (w ∷ []) i 0 < 2 ^ 64
word_fits w zero h = h
word_fits w (suc i) h = omega arith

one_word-IsBitmap : (w : ℕ) → w < 2 ^ 64 → IsBitmap (w ∷ []) 64
unfolding div_round_up
one_word-IsBitmap w h = record {
  small = omega arith;
  covers = omega arith;
  fits = λ i. word_fits w i h;
  padded = λ i g l. absurd (omega arith);
}

one_file-Creatable : Creatable one_file (98 ∷ []) 2
unfolding free_dentry traverse_from clear_entries
one_file-Creatable = record {
  is_bitmap = one_word-IsBitmap 3 (omega arith);
  root_taken = refl;
  is_inode = omega arith;
  is_free = refl;
  room = refl;
  lacks = (refl, tt);
  short = omega arith;
}

vsfs_create-Created_example : Created ticking (47 ∷ 98 ∷ []) 33188 one_file
vsfs_create-Created_example =
    vsfs_create-Created ticking 98 [] 33188 2 one_file (λ n. refl) refl one_file-Creatable

-- The file "a" with five blocks, and no table of blocks.
abbrev five_blocks : Fs
five_blocks = record one_file {
  dbmap = 1023 ∷ [];
  itable = λ ino. if ino == 0 then two_inodes 0 else record blank_inode {
    i_blocks = 5;
    i_size = 20000;
    i_nlink = 1;
    i_direct = 5 ∷ 6 ∷ 7 ∷ 8 ∷ 9 ∷ [];
  };
}

five_blocks-found : path_lookup path_a five_blocks ≡ (pos 0, some 1)
unfolding path_lookup lookup_in traverse_block traverse_from clear_entries
five_blocks-found = refl

five_needed : blocks_for 20000 ≡ 5
unfolding div_round_up
five_needed = refl

vsfs_truncate-LosesIndirect_example : LosesIndirect ticking path_a 1 20000 five_blocks
vsfs_truncate-LosesIndirect_example =
    vsfs_truncate-LosesIndirect ticking path_a 1 20000 five_blocks (λ n. refl) five_blocks-found
      (one_word-IsBitmap 1023 (omega arith)) refl five_needed (omega arith) refl

no_entry : named_dentry 16 0 (98 ∷ []) (one_file.blocks 4) ≡ none
unfolding named_dentry clear_entries
no_entry = refl

vsfs_unlink-root_example : GivesBackRoot ticking (47 ∷ 98 ∷ []) one_file
vsfs_unlink-root_example =
    vsfs_unlink-root ticking (47 ∷ 98 ∷ []) one_file (λ n. refl) (no_entry, tt) (omega arith) refl
      (one_word-IsBitmap 63 (omega arith)) ((omega arith, refl), tt) (refl, tt)
      (one_word-IsBitmap 3 (omega arith)) (omega arith) refl

-- Block 9 holds a table whose entries 1 and 2 name the blocks 7 and 8.
abbrev with_table : Fs
with_table = record five_blocks {
  dbmap = 1023 ∷ [];
  blocks = λ b a. if b == 9 then (if a == 4 then 7 else if a == 8 then 8 else 0) else 0;
}

release_table-Reclaims_example :
    ((2 ≤ length (assigned 4 0 (with_table.blocks 9)))
      × Reclaims with_table
          (take 2 (assigned 4 0 (with_table.blocks 9)))
          (release_table 4 2 0 9 with_table))
    ⊎ ((length (assigned 4 0 (with_table.blocks 9)) < 2)
        × (release_table 4 2 0 9 with_table ≡ none))
release_table-Reclaims_example =
    release_table-Reclaims 4 2 0 9 with_table (one_word-IsBitmap 1023 (omega arith))
      ((omega arith, refl), ((omega arith, refl), tt)) (refl, (refl, tt))
