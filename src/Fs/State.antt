-- ===== src/Fs/State.antt =====
-- vsfs.h and fs_ctx.h: the parts of a disk image, and what the operations share.
use os_library.Base.{
  ℕ, suc, ◌+◌, ◌-◌, ◌%◌, ◌^◌, Option, none, some, Bool, true, false, List, ltb, get_elem?, set,
  length, update,
}
use os_library.Base.Int.{ℤ, negsuc}
use os_library.Bitmap.{Result, done, AllocResult, allocated, full, bitmap_alloc, bitmap_free}
pub use os_library.Base.Faulting.{
  Faulting, and_then, ◌>>=◌, ◌>>◌, pure, get, modify, fault, assert_that, from_option,
}

abbrev pub vsfs_block_size : ℕ
vsfs_block_size = 4096

abbrev pub vsfs_num_direct : ℕ
vsfs_num_direct = 5

abbrev pub vsfs_magic : ℕ
vsfs_magic = 14250349802343852452

abbrev pub vsfs_imap_blknum : ℕ
vsfs_imap_blknum = 1

abbrev pub vsfs_dmap_blknum : ℕ
vsfs_dmap_blknum = 2

abbrev pub vsfs_itbl_blknum : ℕ
vsfs_itbl_blknum = 3

abbrev pub vsfs_ino_max : ℕ
vsfs_ino_max = 32768

abbrev pub vsfs_blk_max : ℕ
vsfs_blk_max = 32768

abbrev pub vsfs_name_max : ℕ
vsfs_name_max = 252

abbrev pub vsfs_path_max : ℕ
vsfs_path_max = 256

-- `sizeof(vsfs_dentry)`
abbrev pub dentry_size : ℕ
dentry_size = 256

-- VSFS_BLOCK_SIZE / sizeof(vsfs_dentry)
abbrev pub dentries_per_block : ℕ
dentries_per_block = 16

-- `vsfs_superblock`
pub record Superblock : Type 0 where
  pub sb_magic : ℕ
  pub sb_size : ℕ
  pub sb_num_inodes : ℕ
  pub sb_free_inodes : ℕ
  pub sb_num_blocks : ℕ
  pub sb_free_blocks : ℕ
  pub sb_data_region : ℕ

-- `struct timespec`
pub record Timespec : Type 0 where
  pub tv_sec : ℤ
  pub tv_nsec : ℕ

-- `vsfs_inode`
pub record Inode : Type 0 where
  pub i_mode : ℕ
  pub i_nlink : ℕ
  pub i_blocks : ℕ
  pub i_size : ℕ
  pub i_mtime : Timespec
  pub i_direct : List ℕ
  pub i_indirect : ℕ

-- The mapped image: superblock, the words of the two bitmaps, the inode table, and the bytes of the data blocks. `calls`
-- counts the readings of the clock.
pub record Fs : Type 0 where
  pub sb : Superblock
  pub ibmap : List ℕ
  pub dbmap : List ℕ
  pub itable : ℕ → Inode
  pub blocks : ℕ → ℕ → ℕ
  pub calls : ℕ

abbrev pub FsM : Type 0 → Type 0
FsM A = Faulting Fs A

-- `clock_gettime`: what each reading answers, `none` when it fails.
abbrev pub Clock : Type 0
Clock = ℕ → Option Timespec

-- -ENOENT, -ENOMEM, -EFBIG, -ENOSPC, -ENAMETOOLONG and -ENOSYS
abbrev pub minus_enoent : ℤ
minus_enoent = negsuc 1

abbrev pub minus_enomem : ℤ
minus_enomem = negsuc 11

abbrev pub minus_efbig : ℤ
minus_efbig = negsuc 26

abbrev pub minus_enospc : ℤ
minus_enospc = negsuc 27

abbrev pub minus_enametoolong : ℤ
minus_enametoolong = negsuc 35

abbrev pub minus_enosys : ℤ
minus_enosys = negsuc 37

abbrev pub minus_one : ℤ
minus_one = negsuc 0

-- `++x` and `--x` on `uint32_t`
abbrev pub inc_u32 : ℕ → ℕ
inc_u32 x = (x + 1) % 2 ^ 32

abbrev pub dec_u32 : ℕ → ℕ
dec_u32 x = (x + 2 ^ 32 - 1) % 2 ^ 32

abbrev pub put_inode : ℕ → Inode → Fs → Fs
put_inode ino node s = record s { itable = update s.itable ino node }

unfoldable pub modify_inode : ℕ → (Inode → Inode) → FsM (Unit {0})
modify_inode ino f = modify (λ s. put_inode ino (f (s.itable ino)) s)

unfoldable pub modify_block : ℕ → ((ℕ → ℕ) → ℕ → ℕ) → FsM (Unit {0})
modify_block b f = modify (λ s. record s { blocks = update s.blocks b (f (s.blocks b)) })

unfoldable pub modify_sb : (Superblock → Superblock) → FsM (Unit {0})
modify_sb f = modify (λ s. record s { sb = f s.sb })

-- sb_free_blocks-- and sb_free_blocks++
unfoldable pub take_free_block : FsM (Unit {0})
take_free_block = modify_sb (λ b. record b { sb_free_blocks = dec_u32 b.sb_free_blocks })

unfoldable pub give_free_block : FsM (Unit {0})
give_free_block = modify_sb (λ b. record b { sb_free_blocks = inc_u32 b.sb_free_blocks })

-- i_direct[i] and its assignment; the source stays below VSFS_NUM_DIRECT.
unfoldable pub direct_at : ℕ → ℕ → FsM ℕ
direct_at ino i s = from_option (get_elem? (s.itable ino).i_direct i) s

unfoldable pub put_direct : ℕ → ℕ → ℕ → FsM (Unit {0})
put_direct ino i b s =
    and_then (assert_that (ltb i (length (s.itable ino).i_direct)) s)
      (λ _. modify_inode ino (λ n. record n { i_direct = set n.i_direct i b }))

-- `bitmap_alloc` on the data bitmap. The callers read the index it stores whatever it answers: on a full bitmap that is a
-- variable without a value, which is a fault here.
abbrev pub alloc_answer : AllocResult → (List ℕ → Fs → Fs) → FsM ℕ
alloc_answer (allocated i words) put s = some (i, put words s)
alloc_answer full put s = none
alloc_answer AllocResult.fault put s = none

unfoldable pub alloc_block : FsM ℕ
alloc_block s =
    alloc_answer (bitmap_alloc s.dbmap s.sb.sb_num_blocks) (λ words t. record t { dbmap = words }) s

unfoldable pub alloc_inode : FsM ℕ
alloc_inode s =
    alloc_answer (bitmap_alloc s.ibmap s.sb.sb_num_inodes) (λ words t. record t { ibmap = words }) s

abbrev pub bitmap_answer : Result → (List ℕ → Fs → Fs) → FsM (Unit {0})
bitmap_answer (done words) put s = some (tt, put words s)
bitmap_answer Result.fault put s = none

unfoldable pub free_block : ℕ → FsM (Unit {0})
free_block b s =
    bitmap_answer (bitmap_free s.dbmap s.sb.sb_num_blocks b) (λ words t. record t { dbmap = words })
      s

unfoldable pub free_inode : ℕ → FsM (Unit {0})
free_inode i s =
    bitmap_answer (bitmap_free s.ibmap s.sb.sb_num_inodes i) (λ words t. record t { ibmap = words })
      s

-- A reading of the clock.
abbrev pub read_clock : Clock → FsM (Option Timespec)
read_clock clock s = some (clock s.calls, record s { calls = suc s.calls })

abbrev pub set_mtime : ℕ → Option Timespec → FsM Bool
set_mtime ino none = pure false
set_mtime ino (some t) = do modify_inode ino (λ n. record n { i_mtime = t }); pure true

-- clock_gettime(CLOCK_REALTIME, &itable[ino].i_mtime), and whether it succeeded.
unfoldable pub stamp : Clock → ℕ → FsM Bool
stamp clock ino = do t ← read_clock clock; set_mtime ino t
