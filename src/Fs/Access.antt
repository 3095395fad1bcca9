-- ===== src/Fs/Access.antt =====
-- vsfs.c: reading and writing a file.
use os_library.Base.{ℕ, ◌+◌, ◌-◌, ◌*◌, ◌/◌, ◌%◌, List, [], ◌==◌, ltb, leb, if◌then◌else◌, length}
use os_library.Base.Int.{ℤ, pos}
use os_library.Base.Bytes.{read_u32, bytes_from, store_bytes}
use os_library.Fs.State.{
  vsfs_block_size, vsfs_num_direct, FsM, ◌>>=◌, ◌>>◌, pure, get, assert_that, minus_one,
  minus_efbig, modify_inode, modify_block, direct_at, Clock, stamp,
}
use os_library.Fs.Truncate.{inode_of, vsfs_truncate}

-- The block of a file that holds an offset.
unfoldable pub block_of : ℕ → ℕ → FsM ℕ
block_of ino index s =
    (if ltb index vsfs_num_direct then direct_at ino index else (do
      assert_that (ltb (index - vsfs_num_direct) 1024)
      pure (read_u32 (s.blocks (s.itable ino).i_indirect) (4 * (index - vsfs_num_direct)))))
      s

-- The bytes that a read gets: as many as are left of the file.
abbrev pub read_size : ℕ → ℕ → ℕ → ℕ
read_size size offset filesize = if ltb filesize (offset + size) then filesize - offset else size

unfoldable pub read_at : Clock → ℕ → ℕ → ℕ → FsM (ℤ × List ℕ)
read_at clock ino size offset = do
  blk ← block_of ino (offset / vsfs_block_size)
  assert_that (leb (offset % vsfs_block_size + size) vsfs_block_size)
  s ← get
  stamped ← stamp clock 0
  pure (
    if stamped then pos size else minus_one,
    bytes_from size (offset % vsfs_block_size) (s.blocks blk),
  )

-- `vsfs_read`: what it answers, and the bytes that it copies. Like the source it takes the range to lie in one block,
-- which its caller sees to; a range that does not is a fault.
unfoldable pub vsfs_read : Clock → List ℕ → ℕ → ℕ → FsM (ℤ × List ℕ)
vsfs_read clock path size offset = do
  ino ← inode_of path
  s ← get
  if ltb (s.itable ino).i_size offset
      then pure (pos 0, [])
      else read_at clock ino (read_size size offset (s.itable ino).i_size) offset

-- The end of `vsfs_write`: the bytes are copied into their block.
unfoldable pub write_at : Clock → ℕ → List ℕ → ℕ → FsM ℤ
write_at clock ino buf offset = do
  blk ← block_of ino (offset / vsfs_block_size)
  assert_that (leb (offset % vsfs_block_size + length buf) vsfs_block_size)
  modify_block blk (store_bytes buf (offset % vsfs_block_size))
  stamped ← stamp clock ino
  pure (if stamped then pos (length buf) else minus_one)

-- The file is extended first, and the answer of that call is dropped.
unfoldable pub extend_to : Clock → List ℕ → ℕ → ℕ → FsM (Unit {0})
extend_to clock path ino end = do
  s ← get
  if ltb (s.itable ino).i_size end then (vsfs_truncate clock path end >> pure tt) else pure tt

-- `vsfs_write` of the bytes `buf`
unfoldable pub vsfs_write : Clock → List ℕ → List ℕ → ℕ → FsM ℤ
vsfs_write clock path buf offset = do
  ino ← inode_of path
  if ltb (1029 * vsfs_block_size) (offset + length buf) then pure minus_efbig else (do
    extend_to clock path ino (offset + length buf)
    s ← get
    if offset == (s.itable ino).i_size
        then modify_inode ino (λ n. record n { i_size = n.i_size + length buf })
        else pure tt
    write_at clock ino buf offset)
