-- ===== src/Fs/Unlink.antt =====
-- vsfs.c: removing a file, and setting its modification time.
use os_library.Base.{ℕ, zero, suc, ◌*◌, Option, none, some, List, [], ◌∷◌, ◌==◌, ltb, if◌then◌else◌}
use os_library.Base.Int.{ℤ, pos, negsuc, to_signed}
use os_library.Base.Bytes.{read_u32, write_u32, strcmp_eq, store_bytes}
use os_library.Fs.State.{
  vsfs_ino_max, dentries_per_block, Timespec, Inode, FsM, ◌>>=◌, ◌>>◌, pure, fault, minus_one,
  inc_u32, dec_u32, modify_inode, modify_block, modify_sb, give_free_block, direct_at, put_direct,
  free_block, free_inode, Clock, stamp,
}
use os_library.Fs.Lookup.{
  name_of, ino_at, name_at, direct_blocks, indirect_blocks, num_indirects, path_lookup,
}

-- The first entry from `i` on with the name.
unfoldable pub named_dentry : ℕ → ℕ → List ℕ → (ℕ → ℕ) → Option ℕ
named_dentry zero i name de = none
named_dentry (suc rounds) i name de =
    let rest = named_dentry rounds (suc i) name de in
    if strcmp_eq name (name_at i) de then some i else rest

-- An entry is marked as unused.
abbrev pub clear_dentry : ℕ → (ℕ → ℕ) → ℕ → ℕ
clear_dentry j de = store_bytes (0 ∷ []) (name_at j) (write_u32 (ino_at j) vsfs_ino_max de)

-- The loops of `unlink_block` over blocks of entries: the inode number of the entry that was cleared.
unfoldable pub remove_in : List ℕ → List ℕ → FsM (Option ℕ)
remove_in [] path s = some (none, s)
remove_in (b ∷ bs) path s =
    let rest = remove_in bs path s in
    elim (named_dentry dentries_per_block 0 (name_of path) (s.blocks b)) [
      | none ↦ rest
      | some j ↦
          (do modify_block b (clear_dentry j); pure (some (read_u32 (s.blocks b) (ino_at j)))) s
    ]

abbrev removed_answer : Option ℕ → ℤ
removed_answer none = minus_one
removed_answer (some ino) = to_signed 32 ino

abbrev pub remove_indirect : Option ℕ → List ℕ → Inode → FsM ℤ
remove_indirect (some ino) path root s = some (to_signed 32 ino, s)
remove_indirect none path root s =
    if num_indirects root == 0
    then some (pos 0, s)
    else (do found ← remove_in (indirect_blocks root s) path; pure (removed_answer found)) s

-- `unlink_block`. It answers 0, the root's number, when a directory without indirect blocks has no such name.
unfoldable pub unlink_block : List ℕ → FsM ℤ
unlink_block path s =
    let root = s.itable 0 in
    (do found ← remove_in (direct_blocks root) path; remove_indirect found path root) s

-- The loop over the direct blocks of a file, from block `i` on.
unfoldable pub release_direct : ℕ → ℕ → ℕ → FsM (Unit {0})
release_direct zero i ino = pure tt
release_direct (suc rounds) i ino = do
  b ← direct_at ino i
  free_block b
  put_direct ino i 0
  give_free_block
  release_direct rounds (suc i) ino

-- The loop over the table of indirect blocks, which passes over unassigned entries. `left` entries of the table are
-- left and `count` blocks; a loop that leaves the table is a fault.
unfoldable pub release_table : ℕ → ℕ → ℕ → ℕ → FsM (Unit {0})
release_table left zero i table s = some (tt, s)
release_table zero (suc count) i table s = none
release_table (suc left) (suc count) i table s =
    let b = read_u32 (s.blocks table) (4 * i) in
    let skip = release_table left (suc count) (suc i) table s in
    if b == 0
    then skip
    else (do
      free_block b
      modify_block table (write_u32 (4 * i) 0)
      give_free_block
      release_table left count (suc i) table)
        s

-- The blocks of a file are given back.
unfoldable pub release_indirect : Inode → FsM (Unit {0})
release_indirect node = if num_indirects node == 0 then pure tt else (do
  release_table 1024 (num_indirects node) 0 node.i_indirect
  free_block node.i_indirect
  give_free_block)

unfoldable pub release_inode : Clock → ℕ → FsM ℤ
release_inode clock ino s =
    let node = s.itable ino in
    (do
      release_direct (if ltb 5 node.i_blocks then 5 else node.i_blocks) 0 ino
      release_indirect node
      free_inode ino
      modify_sb (λ b. record b { sb_free_inodes = inc_u32 b.sb_free_inodes })
      modify_inode ino (λ n. record n { i_nlink = dec_u32 n.i_nlink })
      stamped ← stamp clock 0
      pure (if stamped then pos 0 else minus_one))
      s

-- `vsfs_unlink`
unfoldable pub vsfs_unlink : Clock → List ℕ → FsM ℤ
vsfs_unlink clock path = do
  found ← unlink_block path
  elim found [
    | pos ino ↦ release_inode clock ino
    | negsuc zero ↦ pure minus_one
    | negsuc (suc k) ↦ fault
  ]

-- UTIME_NOW and UTIME_OMIT
abbrev pub utime_now : ℕ
utime_now = 1073741823

abbrev pub utime_omit : ℕ
utime_omit = 1073741822

abbrev pub utimens_at : Clock → Timespec → ℤ × Option ℕ → FsM ℤ
utimens_at clock time (r, none) = fault
utimens_at clock time (r, some ino) =
    if time.tv_nsec == utime_now
    then (do stamped ← stamp clock ino; if stamped then pure (pos 0) else fault)
    else (do modify_inode ino (λ n. record n { i_mtime = time }); pure (pos 0))

-- `vsfs_utimens`, with the second of its two times.
unfoldable pub vsfs_utimens : Clock → List ℕ → Timespec → FsM ℤ
vsfs_utimens clock path time s =
    if time.tv_nsec == utime_omit
    then some (pos 0, s)
    else utimens_at clock time (path_lookup path s) s
