-- ===== src/Fs/Creation.antt =====
-- vsfs.c: what creating a file does.
use os_library.Base.{
  ℕ, ◌^◌, ◌<◌, ◌≡◌, refl, ap, ◌∙◌, ◌≢◌, some, true, List, ◌∷◌, arith, ◌==◌, if◌then◌else◌, update,
  length, ==_refl,
}
use os_library.Base.Int.{pos}
use os_library.Bitmap.{allocated, bitmap_alloc}
use os_library.Bitmap.Form.{bit, IsBitmap}
use os_library.Bitmap.Alloc.{bitmap_alloc-Allocates, Allocates-allocated}
use os_library.Fs.State.{Fs, Clock, alloc_inode, modify_inode, modify_sb, dec_u32, stamp}
use os_library.Fs.Lookup.{direct_blocks, lookup_in, path_lookup}
use os_library.Fs.Create.{
  set_dir_entry, enter_in, new_inode, create_one_empty, is_regular, vsfs_create,
}
use os_library.Fs.Stamps.{Works, stamped, stamp_run}
use os_library.Fs.Agree.{update_ne}
use os_library.Fs.Entering.{has_room, Lacks, enter_in-Entered}

-- An image in which a file of the name can be created: the root's inode is taken and another is not, and among the
-- direct blocks of the root directory one has room and none has the name.
pub record Creatable (s : Fs) (name : List ℕ) (free : ℕ) : Type 0 where
  pub is_bitmap : IsBitmap s.ibmap s.sb.sb_num_inodes
  pub root_taken : bit s.ibmap 0 ≡ 1
  pub is_inode : free < s.sb.sb_num_inodes
  pub is_free : bit s.ibmap free ≡ 0
  pub room : has_room (direct_blocks (s.itable 0)) s.blocks ≡ true
  pub lacks : Lacks name s.blocks (direct_blocks (s.itable 0))
  pub short : length name < 252

-- What a call of `vsfs_create` did.
pub record Created (clock : Clock) (path : List ℕ) (mode : ℕ) (s : Fs) : Type 0 where
  pub ino : ℕ
  pub after : Fs
  pub creates : vsfs_create clock path mode s ≡ some (pos 0, after)
  pub was_free : bit s.ibmap ino ≡ 0
  pub taken : (j : ℕ) → bit after.ibmap j ≡ (if ino == j then 1 else bit s.ibmap j)
  pub found : path_lookup path after ≡ (pos 0, some ino)
  pub mode_set : (after.itable ino).i_mode ≡ mode
  pub one_link : (after.itable ino).i_nlink ≡ 1
  pub no_blocks : (after.itable ino).i_blocks ≡ 0
  pub is_empty : (after.itable ino).i_size ≡ 0
  pub others : (j : ℕ) → ino ≢ j → 0 ≢ j → after.itable j ≡ s.itable j
  pub counted : after.sb ≡ record s.sb { sb_free_inodes = dec_u32 s.sb.sb_free_inodes }

set_dir_entry_eq :
    (ino : ℕ) (path : List ℕ) (s t : Fs)
    → enter_in (direct_blocks (s.itable 0)) path ino s ≡ some (true, t)
    → set_dir_entry ino path s ≡ some (0, t)
unfolding set_dir_entry
set_dir_entry_eq ino path s t h = simp (h) refl

path_lookup-direct :
    (c ino : ℕ) (cs : List ℕ) (t : Fs)
    → lookup_in (direct_blocks (t.itable 0)) (47 ∷ c ∷ cs) t ≡ some (pos ino)
    → ino < 2 ^ 32
    → path_lookup (47 ∷ c ∷ cs) t ≡ (pos 0, some ino)
unfolding path_lookup
path_lookup-direct c ino cs t h small = simp (h) (ap (λ i. (pos 0, some i)) (omega arith))

-- The image after a new inode was set up and counted.
abbrev set_up : ℕ → ℕ → Fs → Fs
set_up ino mode s = record s {
  itable = update s.itable ino (new_inode mode (s.itable ino));
  sb = record s.sb { sb_free_inodes = dec_u32 s.sb.sb_free_inodes };
}

create_one_empty_eq :
    (clock : Clock) (path : List ℕ) (mode ino : ℕ) (s t u v : Fs)
    → alloc_inode s ≡ some (ino, t)
    → set_dir_entry ino path t ≡ some (0, u)
    → stamp clock ino u ≡ some (true, v)
    → create_one_empty clock path mode s ≡ some (tt, set_up ino mode v)
unfolding create_one_empty modify_inode modify_sb
create_one_empty_eq clock path mode ino s t u v h g k = simp (h, g, k) refl

vsfs_create_eq :
    (clock : Clock) (path : List ℕ) (mode : ℕ) (s t u : Fs)
    → is_regular mode ≡ true
    → stamp clock 0 s ≡ some (true, t)
    → create_one_empty clock path mode t ≡ some (tt, u)
    → vsfs_create clock path mode s ≡ some (pos 0, u)
unfolding vsfs_create
vsfs_create_eq clock path mode s t u h g k = simp (h, g, k) refl

alloc_inode_eq :
    (s : Fs) (ino : ℕ) (words : List ℕ)
    → bitmap_alloc s.ibmap s.sb.sb_num_inodes ≡ allocated ino words
    → alloc_inode s ≡ some (ino, record s { ibmap = words })
unfolding alloc_inode
alloc_inode_eq s ino words h = simp (h) refl

-- Creating a file of a name that is in none of the direct blocks of the root directory, one of which has room, returns 0
-- when an inode is free and the clock can be read. It takes a free inode and makes it an empty file of the given mode
-- with one link, counts it, marks it in the bitmap and no other, and changes no other inode but the root's; a lookup of
-- the path finds it then.
pub vsfs_create-Created :
    (clock : Clock) (c : ℕ) (cs : List ℕ) (mode free : ℕ) (s : Fs)
    → Works clock
    → is_regular mode ≡ true
    → Creatable s (c ∷ cs) free
    → Created clock (47 ∷ c ∷ cs) mode s
vsfs_create-Created clock c cs mode free s works regular h =
    let path = 47 ∷ c ∷ cs in
    let n =
      Allocates-allocated s.ibmap s.sb.sb_num_inodes (bitmap_alloc s.ibmap s.sb.sb_num_inodes)
        (bitmap_alloc-Allocates s.ibmap s.sb.sb_num_inodes h.is_bitmap)
        (λ every. omega (arith, every free h.is_inode, h.is_free)) in
    let ino = n.0 in
    let fresh = n.3 in
    let small : ino < 2 ^ 31 = omega (arith, fresh.0, h.is_bitmap.small) in
    let root : ino ≢ 0 = λ e. omega (arith, fresh.1, h.root_taken, ap (bit s.ibmap) e) in
    let time = stamp_run clock 0 s works in
    let s0 = stamped 0 time.0 s in
    let s1 = record s0 { ibmap = n.1 } in
    let entered =
      enter_in-Entered (direct_blocks (s1.itable 0)) (c ∷ cs) 47 ino s1 h.short small h.lacks
        h.room in
    let s2 = record s1 { blocks = update s1.blocks entered.block entered.bytes } in
    let time2 = stamp_run clock ino s2 works in
    let s3 = stamped ino time2.0 s2 in
    let s5 = set_up ino mode s3 in
    let node : s5.itable ino ≡ new_inode mode (s3.itable ino) =
      ap (λ q. if q then new_inode mode (s3.itable ino) else s3.itable ino) (==_refl ino) in
    let same_root : s5.itable 0 ≡ s1.itable 0 =
      update_ne s3.itable ino 0 (new_inode mode (s3.itable ino)) root
      ∙ update_ne s2.itable ino 0 (record (s2.itable ino) { i_mtime = time2.0 }) root in
    record {
      ino = ino;
      after = s5;
      creates = vsfs_create_eq clock path mode s s0 s5 regular time.1 (
          create_one_empty_eq clock path mode ino s0 s1 s2 s3 (alloc_inode_eq s0 ino n.1 n.2)
            (set_dir_entry_eq ino path s1 s2 entered.enters) time2.1);
      was_free = fresh.1;
      taken = fresh.3;
      found =
          path_lookup-direct c ino cs s5
            (ap (λ m. lookup_in (direct_blocks m) path s5) same_root ∙ entered.finds s5 refl)
            (omega arith);
      mode_set = ap (λ m. m.i_mode) node;
      one_link = ap (λ m. m.i_nlink) node;
      no_blocks = ap (λ m. m.i_blocks) node;
      is_empty = ap (λ m. m.i_size) node;
      others = λ j l g.
          update_ne s3.itable ino j (new_inode mode (s3.itable ino)) l
          ∙ update_ne s2.itable ino j (record (s2.itable ino) { i_mtime = time2.0 }) l
          ∙ update_ne s.itable 0 j (record (s.itable 0) { i_mtime = time.0 }) g;
      counted = refl;
    }
