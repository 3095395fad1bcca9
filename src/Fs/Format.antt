-- ===== src/Fs/Format.antt =====
-- mkfs.c and fs_ctx.c: formatting an image, and what makes it mountable.
use os_library.Base.{
  ℕ, zero, suc, ◌+◌, ◌-◌, ◌/◌, ◌%◌, ◌^◌, none, some, Bool, true, false, List, [], ◌∷◌, ◌==◌, ltb,
  leb, if◌then◌else◌, ◌||◌, replicate,
}
use os_library.Bitmap.{Result, done, word_all_bits, div_round_up, bitmap_init, bitmap_set}
use os_library.Fs.State.{
  vsfs_block_size, vsfs_magic, vsfs_imap_blknum, vsfs_dmap_blknum, vsfs_itbl_blknum, vsfs_ino_max,
  vsfs_blk_max, Superblock, Inode, Fs, FsM, ◌>>=◌, ◌>>◌, pure, modify, modify_inode, modify_block,
  put_direct, Clock, stamp,
}
use os_library.Fs.Create.{write_dentry, clear_entries}

-- The check of `fs_ctx_init`, and of `vsfs_is_present` of mkfs.c.
abbrev pub vsfs_is_present : Fs → Bool
vsfs_is_present s = s.sb.sb_magic == vsfs_magic

-- VSFS_BLOCK_SIZE / sizeof(vsfs_inode)
abbrev pub inodes_per_block : ℕ
inodes_per_block = 64

abbrev pub vsfs_blk_min : ℕ
vsfs_blk_min = 5

-- memset(ibmap, 0xff, VSFS_BLOCK_SIZE): a block of 512 words.
abbrev pub full_words : List ℕ
full_words = replicate 512 word_all_bits

abbrev set_answer : Result → (List ℕ → Fs → Fs) → FsM (Unit {0})
set_answer (done words) put s = some (tt, put words s)
set_answer Result.fault put s = none

-- bitmap_set(dbmap, nblks, b, true) and bitmap_set(ibmap, n_inodes, i, true)
unfoldable pub mark_block : ℕ → ℕ → FsM (Unit {0})
mark_block nblks b s =
    set_answer (bitmap_set s.dbmap nblks b true) (λ words t. record t { dbmap = words }) s

unfoldable pub mark_inode : ℕ → ℕ → FsM (Unit {0})
mark_inode n i s =
    set_answer (bitmap_set s.ibmap n i true) (λ words t. record t { ibmap = words }) s

-- The blocks from `b` on are marked, `rounds` of them.
unfoldable pub mark_blocks : ℕ → ℕ → ℕ → FsM (Unit {0})
mark_blocks zero nblks b = pure tt
mark_blocks (suc rounds) nblks b = do mark_block nblks b; mark_blocks rounds nblks (suc b)

-- The first block after the inode table.
abbrev pub data_begins : ℕ → ℕ
data_begins n_inodes = vsfs_itbl_blknum + div_round_up n_inodes inodes_per_block

-- S_IFDIR | 0777
abbrev pub root_mode : ℕ
root_mode = 16895

abbrev root_inode : Inode → Inode
root_inode n = record n { i_size = vsfs_block_size; i_mode = root_mode; i_blocks = 1; i_nlink = 2 }

-- The entries "." and "..", and the others unused.
abbrev pub root_entries : (ℕ → ℕ) → ℕ → ℕ
root_entries de =
    clear_entries 14 2 (write_dentry 1 0 (46 ∷ 46 ∷ []) (write_dentry 0 0 (46 ∷ []) de))

abbrev pub made_superblock : ℕ → ℕ → ℕ → Superblock
made_superblock size nblks n_inodes = record {
  sb_magic = vsfs_magic;
  sb_size = size;
  sb_num_inodes = n_inodes;
  sb_free_inodes = (n_inodes + 2 ^ 32 - 1) % 2 ^ 32;
  sb_num_blocks = nblks;
  sb_free_blocks = (nblks + 2 ^ 32 - data_begins n_inodes - 1) % 2 ^ 32;
  sb_data_region = data_begins n_inodes;
}

-- `mkfs` up to the root directory's inode: the two bitmaps.
unfoldable pub make_bitmaps : ℕ → ℕ → FsM (Unit {0})
make_bitmaps nblks n_inodes = do
  modify (λ s. record s { ibmap = bitmap_init full_words n_inodes })
  modify (λ s. record s { dbmap = bitmap_init full_words nblks })
  mark_block nblks 0
  mark_block nblks vsfs_imap_blknum
  mark_block nblks vsfs_dmap_blknum
  mark_blocks (div_round_up n_inodes inodes_per_block) nblks vsfs_itbl_blknum
  mark_inode n_inodes 0

-- `mkfs` from the root directory's block on.
unfoldable pub make_root : ℕ → ℕ → ℕ → FsM (Unit {0})
make_root size nblks n_inodes = do
  mark_block nblks (data_begins n_inodes)
  put_direct 0 0 (data_begins n_inodes)
  modify_inode 0 root_inode
  modify_block (data_begins n_inodes) root_entries
  modify (λ s. record s { sb = made_superblock size nblks n_inodes })

-- `mkfs` with its two checks passed.
unfoldable pub format : Clock → ℕ → ℕ → ℕ → FsM Bool
format clock size nblks n_inodes = do
  make_bitmaps nblks n_inodes
  stamped ← stamp clock 0
  if stamped then (make_root size nblks n_inodes >> pure true) else pure false

-- `mkfs` of an image of `size` bytes.
unfoldable pub mkfs : Clock → ℕ → ℕ → FsM Bool
mkfs clock size n_inodes =
    let nblks = size / vsfs_block_size % 2 ^ 32 in
    if leb vsfs_ino_max n_inodes
    then pure false
    else if ltb vsfs_blk_max nblks || ltb nblks vsfs_blk_min
    then pure false
    else format clock size nblks n_inodes
