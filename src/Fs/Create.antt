-- ===== src/Fs/Create.antt =====
-- vsfs.c: creating a file.
use os_library.Base.{
  ℕ, zero, suc, ◌+◌, ◌-◌, ◌*◌, ◌/◌, ◌%◌, ◌^◌, Option, none, some, Bool, true, false, List, [], ◌∷◌,
  ◌==◌, ltb, if◌then◌else◌, not,
}
use os_library.Base.Int.{ℤ, pos}
use os_library.Base.Bytes.{write_u32, strcpy, store_bytes}
use os_library.Fs.State.{
  vsfs_block_size, vsfs_num_direct, vsfs_ino_max, dentries_per_block, Inode, FsM, ◌>>=◌, ◌>>◌, pure,
  assert_that, minus_one, inc_u32, dec_u32, modify_inode, modify_block, modify_sb, take_free_block,
  put_direct, alloc_block, alloc_inode, Clock, stamp,
}
use os_library.Fs.Lookup.{name_of, ino_at, name_at, direct_blocks, indirect_blocks}

-- An entry of a directory block as it is written.
abbrev pub write_dentry : ℕ → ℕ → List ℕ → (ℕ → ℕ) → ℕ → ℕ
write_dentry i ino name de = strcpy name (name_at i) (write_u32 (ino_at i) ino de)

-- The first entry from `i` on that has no name.
unfoldable pub free_dentry : ℕ → ℕ → (ℕ → ℕ) → Option ℕ
free_dentry zero i de = none
free_dentry (suc rounds) i de =
    let rest = free_dentry rounds (suc i) de in if de (name_at i) == 0 then some i else rest

-- `find_new_dentry`: the block with the new entry, if there was room.
unfoldable pub find_new_dentry : List ℕ → ℕ → (ℕ → ℕ) → Option (ℕ → ℕ)
find_new_dentry path ino de = elim (free_dentry dentries_per_block 0 de) [
  | none ↦ none
  | some i ↦ some (write_dentry i ino (name_of path) de)
]

-- The loops of `set_dir_entry` over blocks of entries: whether one of them had room.
unfoldable pub enter_in : List ℕ → List ℕ → ℕ → FsM Bool
enter_in [] path ino s = some (false, s)
enter_in (b ∷ bs) path ino s =
    let rest = enter_in bs path ino s in
    elim (find_new_dentry path ino (s.blocks b)) [
      | none ↦ rest
      | some de ↦ (do modify_block b (λ _. de); pure true) s
    ]

-- The first use of the indirect block.
unfoldable pub start_indirect : FsM (Unit {0})
start_indirect = do
  blk ← alloc_block
  modify_inode 0 (λ n. record n { i_indirect = blk })
  take_free_block

unfoldable pub enter_indirect : List ℕ → ℕ → FsM ℕ
enter_indirect path ino s =
    let root = s.itable 0 in
    if root.i_blocks == vsfs_num_direct
    then (start_indirect >> pure 2) s
    else (do found ← enter_in (indirect_blocks root s) path ino; pure (if found then 0 else 2)) s

-- `set_dir_entry`: 0, or which kind of table is to be made.
unfoldable pub set_dir_entry : ℕ → List ℕ → FsM ℕ
set_dir_entry ino path s =
    let root = s.itable 0 in
    (do
      found ← enter_in (direct_blocks root) path ino
      if found
          then pure 0
          else (if ltb root.i_blocks vsfs_num_direct then pure 1 else enter_indirect path ino))
      s

-- The entries from `i` on are marked as unused.
unfoldable pub clear_entries : ℕ → ℕ → (ℕ → ℕ) → ℕ → ℕ
clear_entries zero i de = de
clear_entries (suc rounds) i de =
    clear_entries rounds (suc i)
      (store_bytes (0 ∷ []) (name_at i) (write_u32 (ino_at i) vsfs_ino_max de))

-- Where the root directory records its new block; an index past the indirect block's 1024 entries is a fault.
unfoldable pub record_block : ℕ → ℕ → FsM (Unit {0})
record_block blk table s =
    let root = s.itable 0 in
    (if table == 1 then put_direct 0 root.i_blocks blk else (do
      assert_that (ltb root.i_blocks 1029)
      modify_block root.i_indirect (write_u32 (4 * (root.i_blocks - vsfs_num_direct)) blk)))
      s

-- `create_new_dentry_table`
unfoldable pub create_new_dentry_table : ℕ → List ℕ → ℕ → FsM (Unit {0})
create_new_dentry_table ino path table = do
  blk ← alloc_block
  record_block blk table
  modify_inode 0 (λ n. record n {
    i_blocks = inc_u32 n.i_blocks;
    i_size = (n.i_size + vsfs_block_size) % 2 ^ 64;
  })
  take_free_block
  modify_block blk (λ de. clear_entries 15 1 (write_dentry 0 ino (name_of path) de))

abbrev pub new_inode : ℕ → Inode → Inode
new_inode mode n = record n { i_nlink = 1; i_blocks = 0; i_mode = mode; i_size = 0 }

-- `create_one_empty`
unfoldable pub create_one_empty : Clock → List ℕ → ℕ → FsM (Unit {0})
create_one_empty clock path mode = do
  ino ← alloc_inode
  set_dentry ← set_dir_entry ino path
  if set_dentry == 0 then pure tt else create_new_dentry_table ino path set_dentry
  stamped ← stamp clock ino
  if not stamped then pure tt else (do
    modify_inode ino (new_inode mode)
    modify_sb (λ b. record b { sb_free_inodes = dec_u32 b.sb_free_inodes }))

-- S_ISREG(mode)
abbrev pub is_regular : ℕ → Bool
is_regular mode = mode / 4096 % 16 == 8

-- `vsfs_create`
unfoldable pub vsfs_create : Clock → List ℕ → ℕ → FsM ℤ
vsfs_create clock path mode = do
  assert_that (is_regular mode)
  stamped ← stamp clock 0
  if not stamped then pure minus_one else (create_one_empty clock path mode >> pure (pos 0))
