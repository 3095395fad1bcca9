-- ===== src/Fs/Truncate.antt =====
-- vsfs.c: changing the size of a file.
use os_library.Base.{ℕ, zero, suc, ◌-◌, ◌*◌, ◌%◌, ◌^◌, Bool, List, ltb, leb, if◌then◌else◌, not}
use os_library.Base.Int.{ℤ, pos}
use os_library.Base.Bytes.{read_u32, write_u32, fill_bytes}
use os_library.Bitmap.{div_round_up}
use os_library.Fs.State.{
  vsfs_block_size, vsfs_num_direct, FsM, ◌>>=◌, ◌>>◌, pure, get, from_option, assert_that,
  minus_one, minus_efbig, minus_enospc, inc_u32, dec_u32, modify_inode, modify_block,
  take_free_block, give_free_block, direct_at, put_direct, alloc_block, free_block, Clock, stamp,
}
use os_library.Fs.Lookup.{path_lookup}

-- The inode that a call of `path_lookup` leaves in a variable; no answer is a variable that was never set.
unfoldable pub inode_of : List ℕ → FsM ℕ
inode_of path s = from_option (path_lookup path s).1 s

-- The loop of `truncate_up_indir` from entry `i` of the table on.
unfoldable pub grow_table : ℕ → ℕ → ℕ → FsM (Unit {0})
grow_table zero i ino = pure tt
grow_table (suc rounds) i ino = do
  blk ← alloc_block
  assert_that (ltb i 1024)
  s ← get
  modify_block (s.itable ino).i_indirect (write_u32 (4 * i) blk)
  modify_inode ino (λ n. record n { i_blocks = inc_u32 n.i_blocks })
  take_free_block
  modify_block blk (fill_bytes vsfs_block_size 0 0)
  grow_table rounds (suc i) ino

unfoldable pub make_indirect : ℕ → FsM (Unit {0})
make_indirect ino = do
  blk ← alloc_block
  modify_inode ino (λ n. record n { i_indirect = blk })
  take_free_block

-- `truncate_up_indir`
unfoldable pub truncate_up_indir : List ℕ → ℕ → Bool → FsM (Unit {0})
truncate_up_indir path alloc from_dir = do
  ino ← inode_of path
  if from_dir then make_indirect ino else pure tt
  s ← get
  grow_table alloc ((s.itable ino).i_blocks - vsfs_num_direct) ino

-- The loop of `truncate_up_dir` from block `i` on.
unfoldable pub grow_direct : ℕ → ℕ → ℕ → FsM (Unit {0})
grow_direct zero i ino = pure tt
grow_direct (suc rounds) i ino = do
  blk ← alloc_block
  put_direct ino i blk
  modify_inode ino (λ n. record n { i_blocks = inc_u32 n.i_blocks })
  take_free_block
  modify_block blk (fill_bytes vsfs_block_size 0 0)
  grow_direct rounds (suc i) ino

-- `truncate_up_dir`
unfoldable pub truncate_up_dir : List ℕ → ℕ → FsM (Unit {0})
truncate_up_dir path alloc = do
  ino ← inode_of path
  s ← get
  grow_direct alloc (s.itable ino).i_blocks ino

-- div_round_up(size, VSFS_BLOCK_SIZE), whose parameters are 32 bits wide.
abbrev pub blocks_for : ℕ → ℕ
blocks_for size = div_round_up (size % 2 ^ 32) vsfs_block_size

-- A block leaves the file: what both loops do after they have found its number.
unfoldable pub drop_block : ℕ → ℕ → FsM (Unit {0})
drop_block ino b = do
  free_block b
  modify_inode ino (λ n. record n { i_blocks = dec_u32 n.i_blocks })
  give_free_block

-- The loop of `truncate_down_dir`: the blocks before `i` are given back, the last one first, `rounds` of them.
unfoldable pub shrink_direct : ℕ → ℕ → ℕ → FsM (Unit {0})
shrink_direct zero i ino = pure tt
shrink_direct (suc rounds) i ino = do
  b ← direct_at ino (i - 1)
  drop_block ino b
  shrink_direct rounds (i - 1) ino

-- `truncate_down_dir`
unfoldable pub truncate_down_dir : List ℕ → ℕ → FsM (Unit {0})
truncate_down_dir path size = do
  ino ← inode_of path
  s ← get
  shrink_direct ((s.itable ino).i_blocks - blocks_for size) (s.itable ino).i_blocks ino

-- The loop of `truncate_down_indir`.
unfoldable pub shrink_table : ℕ → ℕ → ℕ → FsM (Unit {0})
shrink_table zero i ino = pure tt
shrink_table (suc rounds) i ino = do
  s ← get
  assert_that (ltb (i - 1 - vsfs_num_direct) 1024)
  drop_block ino (read_u32 (s.blocks (s.itable ino).i_indirect) (4 * (i - 1 - vsfs_num_direct)))
  shrink_table rounds (i - 1) ino

-- The number of blocks that `truncate_down_indir` keeps.
abbrev pub kept_blocks : ℕ → ℕ
kept_blocks size =
    if ltb (blocks_for size) vsfs_num_direct then vsfs_num_direct else blocks_for size

-- `truncate_down_indir`. Its last test never holds, since what it tests was raised to VSFS_NUM_DIRECT.
unfoldable pub truncate_down_indir : List ℕ → ℕ → FsM (Unit {0})
truncate_down_indir path size = do
  ino ← inode_of path
  s ← get
  shrink_table ((s.itable ino).i_blocks - kept_blocks size) (s.itable ino).i_blocks ino
  if leb (kept_blocks size) vsfs_num_direct
      then (do t ← get; free_block (t.itable ino).i_indirect; give_free_block)
      else pure tt
  if ltb (kept_blocks size) vsfs_num_direct then truncate_down_dir path size else pure tt

-- `minimum`
abbrev pub minimum : ℕ → ℕ → ℕ
minimum x y = if ltb y x then y else x

abbrev pub set_size : ℕ → ℕ → FsM ℤ
set_size ino size = do modify_inode ino (λ n. record n { i_size = size }); pure (pos 0)

-- `vsfs_truncate` to more blocks.
unfoldable pub truncate_up : List ℕ → ℕ → ℕ → ℕ → ℕ → FsM ℤ
truncate_up path ino size wanted curr = do
  if leb curr vsfs_num_direct
      then truncate_up_dir path (minimum (vsfs_num_direct - curr) (wanted - curr))
      else pure tt
  s ← get
  if ltb (s.itable ino).i_blocks wanted
      then truncate_up_indir path (wanted - (s.itable ino).i_blocks) (leb curr vsfs_num_direct)
      else pure tt
  set_size ino size

-- `vsfs_truncate` to as many blocks or fewer.
unfoldable pub truncate_down : List ℕ → ℕ → ℕ → ℕ → ℕ → FsM ℤ
truncate_down path ino size wanted curr = do
  if ltb wanted vsfs_num_direct
      then (do
        if ltb vsfs_num_direct curr then truncate_down_indir path size else pure tt
        truncate_down_dir path size)
      else truncate_down_indir path size
  set_size ino size

-- What `vsfs_truncate` does after its checks. Its test `sb_free_blocks < wanted - curr` is on `int`s, and no disk has 2^31
-- blocks.
unfoldable pub truncate_checked : List ℕ → ℕ → ℕ → ℕ → ℕ → ℕ → FsM ℤ
truncate_checked path ino size wanted curr free =
    if ltb 1029 wanted
    then pure minus_efbig
    else if ltb free (wanted - curr)
    then pure minus_enospc
    else if ltb curr wanted
    then truncate_up path ino size wanted curr
    else truncate_down path ino size wanted curr

-- `vsfs_truncate`
unfoldable pub vsfs_truncate : Clock → List ℕ → ℕ → FsM ℤ
vsfs_truncate clock path size = do
  ino ← inode_of path
  stamped ← stamp clock ino
  s ← get
  if not stamped
      then pure minus_one
      else truncate_checked path ino size (blocks_for size) (s.itable ino).i_blocks
          s.sb.sb_free_blocks
