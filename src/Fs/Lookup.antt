-- ===== src/Fs/Lookup.antt =====
-- vsfs.c: finding a path, and the calls that only read the image.
use os_library.Base.{
  ℕ, zero, suc, ◌+◌, ◌-◌, ◌*◌, ◌%◌, ◌^◌, Option, none, some, Bool, true, false, not, List, [], ◌∷◌,
  ◌==◌, ltb, leb, if◌then◌else◌, length,
}
use os_library.Base.Int.{ℤ, pos, negsuc, eq_ℤ, to_signed, to_unsigned}
use os_library.Base.Bytes.{read_u32, strcmp_eq, string_at}
use os_library.Fs.State.{
  vsfs_block_size, vsfs_name_max, vsfs_path_max, dentry_size, dentries_per_block, Timespec, Inode,
  Fs, FsM, minus_enoent, minus_enametoolong, minus_enosys, minus_enomem, vsfs_ino_max, minus_one,
}

-- path + 1
abbrev pub name_of : List ℕ → List ℕ
name_of [] = []
name_of (c ∷ cs) = cs

-- The addresses of an entry's inode number and of its name.
abbrev pub ino_at : ℕ → ℕ
ino_at i = dentry_size * i

abbrev pub name_at : ℕ → ℕ
name_at i = dentry_size * i + 4

-- The loop of `traverse_block` from entry `i` on, with `rounds` entries left.
unfoldable pub traverse_from : ℕ → ℕ → List ℕ → (ℕ → ℕ) → Option ℕ
traverse_from zero i name de = none
traverse_from (suc rounds) i name de =
    let rest = traverse_from rounds (suc i) name de in
    if strcmp_eq name (name_at i) de then some (read_u32 de (ino_at i)) else rest

abbrev traverse_answer : Option ℕ → ℤ
traverse_answer none = minus_one
traverse_answer (some ino) = to_signed 32 ino

-- `traverse_block`
unfoldable pub traverse_block : (ℕ → ℕ) → List ℕ → ℤ
traverse_block de path = traverse_answer (traverse_from dentries_per_block 0 (name_of path) de)

-- The direct blocks in use, in order.
abbrev pub first_blocks : ℕ → List ℕ → List ℕ
first_blocks zero bs = []
first_blocks (suc n) [] = []
first_blocks (suc n) (b ∷ bs) = b ∷ first_blocks n bs

abbrev pub direct_blocks : Inode → List ℕ
direct_blocks node = first_blocks (if leb node.i_blocks 5 then node.i_blocks else 5) node.i_direct

-- The first `n` entries of a table of block numbers, from entry `i` on.
abbrev pub table_from : ℕ → ℕ → (ℕ → ℕ) → List ℕ
table_from zero i table = []
table_from (suc n) i table = read_u32 table (4 * i) ∷ table_from n (suc i) table

-- i_blocks - 5 as an `int`, and 0 where the loops over it do nothing.
abbrev pub count_of : ℤ → ℕ
count_of (pos n) = n
count_of (negsuc n) = 0

abbrev pub num_indirects : Inode → ℕ
num_indirects node = count_of (to_signed 32 (node.i_blocks + 2 ^ 32 - 5))

abbrev pub indirect_blocks : Inode → Fs → List ℕ
indirect_blocks node s = table_from (num_indirects node) 0 (s.blocks node.i_indirect)

-- The loops of `path_lookup` over blocks of entries.
unfoldable pub lookup_in : List ℕ → List ℕ → Fs → Option ℤ
lookup_in [] path s = none
lookup_in (b ∷ bs) path s =
    let rest = lookup_in bs path s in
    elim (traverse_block (s.blocks b) path) [
      | pos n ↦ some (pos n)
      | negsuc zero ↦ rest
      | negsuc (suc k) ↦ some (negsuc (suc k))
    ]

-- The number that goes into `*ino`, of a path found in the root directory.
abbrev pub found_ino : Option ℤ → ℤ × Option ℕ
found_ino none = (minus_one, none)
found_ino (some z) = (pos 0, some (to_unsigned 32 z))

abbrev pub or_else : Option ℤ → Option ℤ → Option ℤ
or_else none o = o
or_else (some z) o = some z

-- `path_lookup`: what it returns, and what it stores in `*ino` if it does.
unfoldable pub path_lookup : List ℕ → Fs → ℤ × Option ℕ
path_lookup [] s = (minus_enosys, none)
path_lookup (c ∷ []) s = if c == 47 then (pos 0, some 0) else (minus_enosys, none)
path_lookup (c ∷ d ∷ cs) s =
    let root = s.itable 0 in
    let path = c ∷ d ∷ cs in
    if c == 47
    then found_ino (
        or_else (lookup_in (direct_blocks root) path s) (lookup_in (indirect_blocks root s) path s))
    else (minus_enosys, none)

-- `struct statvfs`
pub record Statvfs : Type 0 where
  pub f_bsize : ℕ
  pub f_frsize : ℕ
  pub f_blocks : ℕ
  pub f_bfree : ℕ
  pub f_bavail : ℕ
  pub f_files : ℕ
  pub f_ffree : ℕ
  pub f_favail : ℕ
  pub f_namemax : ℕ

-- `vsfs_statfs`
unfoldable pub vsfs_statfs : Fs → Statvfs
vsfs_statfs s = record {
  f_bsize = vsfs_block_size;
  f_frsize = vsfs_block_size;
  f_blocks = s.sb.sb_num_blocks;
  f_bfree = s.sb.sb_free_blocks;
  f_bavail = s.sb.sb_free_blocks;
  f_files = s.sb.sb_num_inodes;
  f_ffree = s.sb.sb_free_inodes;
  f_favail = s.sb.sb_free_inodes;
  f_namemax = vsfs_name_max;
}

-- `struct stat`
pub record Stat : Type 0 where
  pub st_ino : ℕ
  pub st_mode : ℕ
  pub st_nlink : ℕ
  pub st_size : ℕ
  pub st_blocks : ℕ
  pub st_mtim : Timespec

abbrev stat_of : ℕ → Inode → Stat
stat_of ino node = record {
  st_ino = ino;
  st_mode = node.i_mode;
  st_nlink = node.i_nlink;
  st_size = node.i_size;
  st_blocks = (node.i_blocks * 8 + (if ltb 5 node.i_blocks then 8 else 0)) % 2 ^ 32;
  st_mtim = node.i_mtime;
}

-- What `vsfs_getattr` does with the answer of `path_lookup`. Only -1 is an error to it: on -ENOSYS it goes on with a
-- variable that was never set.
abbrev getattr_at : ℤ × Option ℕ → FsM (ℤ × Option Stat)
getattr_at (negsuc zero, o) s = some ((minus_enoent, none), s)
getattr_at (r, none) s = none
getattr_at (r, some ino) s = some ((pos 0, some (stat_of ino (s.itable ino))), s)

-- `vsfs_getattr`
unfoldable pub vsfs_getattr : List ℕ → FsM (ℤ × Option Stat)
vsfs_getattr path s =
    if leb vsfs_path_max (length path)
    then some ((minus_enametoolong, none), s)
    else getattr_at (path_lookup path s) s

-- `filler`, the callback of `vsfs_readdir`: from the buffer and a name to its answer and the buffer after it.
abbrev pub Filler : Type 0 → Type 0
Filler B = B → List ℕ → ℤ × B

-- The loop over the entries of a block. The Boolean of the answer says whether every `filler` call answered 0; `none` is
-- a failed assertion, which every used entry of a direct block makes: `own` says whether it holds.
unfoldable pub fill_entries :
    {B : Type 0} → Filler B → Bool → ℕ → ℕ → (ℕ → ℕ) → B → Option (Bool × B)
fill_entries filler own zero j table buf = some (true, buf)
fill_entries filler own (suc rounds) j table buf =
    let skip = fill_entries filler own rounds (suc j) table buf in
    if read_u32 table (ino_at j) == vsfs_ino_max
    then skip
    else if not own
    then none
    else (let answer = filler buf (string_at vsfs_name_max (name_at j) table) in
        let next = fill_entries filler own rounds (suc j) table answer.1 in
        if eq_ℤ answer.0 (pos 0) then next else some (false, answer.1))

-- The loops over blocks of entries.
unfoldable pub fill_blocks : {B : Type 0} → Filler B → Bool → List ℕ → Fs → B → Option (Bool × B)
fill_blocks filler own [] s buf = some (true, buf)
fill_blocks filler own (b ∷ bs) s buf =
    elim (fill_entries filler own dentries_per_block 0 (s.blocks b) buf) [
      | none ↦ none
      | some (true, buf') ↦ fill_blocks filler own bs s buf'
      | some (false, buf') ↦ some (false, buf')
    ]

abbrev readdir_answer : {B : Type 0} → Option (Bool × B) → Option (ℤ × B)
readdir_answer none = none
readdir_answer (some (true, buf)) = some (pos 0, buf)
readdir_answer (some (false, buf)) = some (minus_enomem, buf)

-- The first entry of the root directory is for the root.
abbrev own_entry : List ℕ → Fs → Bool
own_entry [] s = true
own_entry (b ∷ bs) s = read_u32 (s.blocks b) (ino_at 0) == 0

abbrev fill_both : {B : Type 0} → Filler B → Option (Bool × B) → List ℕ → Fs → Option (Bool × B)
fill_both filler none bs s = none
fill_both filler (some (true, buf)) bs s = fill_blocks filler true bs s buf
fill_both filler (some (false, buf)) bs s = some (false, buf)

-- `vsfs_readdir`: what it answers and the buffer after it.
unfoldable pub vsfs_readdir : {B : Type 0} → Filler B → B → Fs → Option (ℤ × B)
vsfs_readdir filler buf s =
    let root = s.itable 0 in
    let direct = direct_blocks root in
    readdir_answer (
      fill_both filler (fill_blocks filler (own_entry direct s) direct s buf)
        (indirect_blocks root s) s)
