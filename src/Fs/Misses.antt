-- ===== src/Fs/Misses.antt =====
-- vsfs.c: what truncation to the current five blocks does, and unlinking a name that is not there.
use os_library.Base.{ℕ, ◌<◌, ◌≡◌, refl, ap, ◌∙◌, some, false, List, arith, ◌==◌, ltb, if◌then◌else◌}
use os_library.Base.Int.{pos}
use os_library.Bitmap.{done, bitmap_free}
use os_library.Bitmap.Form.{bit, IsBitmap}
use os_library.Bitmap.Free.{bitmap_free-Frees, Frees-done}
use os_library.Fs.State.{Fs, Clock, free_block, modify_sb, give_free_block, modify_inode, inc_u32}
use os_library.Fs.Lookup.{path_lookup}
use os_library.Fs.Agree.{update_self}
use os_library.Fs.Stamps.{
  Works, stamped, stamp_run, stamped_field, path_lookup-stamped, inode_of_eq,
}
use os_library.Fs.Truncate.{
  shrink_table, kept_blocks, truncate_down_indir, truncate_down, truncate_checked, vsfs_truncate,
  blocks_for,
}
use os_library.Fs.Extension.{sized, vsfs_truncate_eq}

pub free_block_eq :
    (b : ℕ) (words : List ℕ) (s : Fs)
    → bitmap_free s.dbmap s.sb.sb_num_blocks b ≡ done words
    → free_block b s ≡ some (tt, record s { dbmap = words })
unfolding free_block
free_block_eq b words s h = simp (h) refl

-- The image after a block was given back and counted.
abbrev given_back : List ℕ → Fs → Fs
given_back words s = record s {
  dbmap = words;
  sb = record s.sb { sb_free_blocks = inc_u32 s.sb.sb_free_blocks };
}

truncate_down_indir-five :
    (path : List ℕ) (ino size : ℕ) (words : List ℕ) (s : Fs)
    → path_lookup path s ≡ (pos 0, some ino)
    → (s.itable ino).i_blocks ≡ 5
    → blocks_for size ≡ 5
    → bitmap_free s.dbmap s.sb.sb_num_blocks (s.itable ino).i_indirect ≡ done words
    → truncate_down_indir path size s ≡ some (tt, given_back words s)
unfolding truncate_down_indir shrink_table give_free_block modify_sb
truncate_down_indir-five path ino size words s found five same h =
    let kept : kept_blocks size ≡ 5 = ground (arith, same) in
    simp
      (inode_of_eq path ino s found, kept, five, free_block_eq (s.itable ino).i_indirect words s h)
      refl

truncate_checked-five :
    (path : List ℕ) (ino size free : ℕ) (s t : Fs)
    → truncate_down_indir path size s ≡ some (tt, t)
    → truncate_checked path ino size 5 5 free s ≡ some (pos 0, sized ino size t)
unfolding truncate_checked truncate_down modify_inode
truncate_checked-five path ino size free s t h =
    let space : ltb free 0 ≡ false = ground arith in simp (space, h) refl

-- What such a call leaves.
pub record LosesIndirect (clock : Clock) (path : List ℕ) (ino size : ℕ) (s : Fs) : Type 0 where
  pub after : Fs
  pub truncates : vsfs_truncate clock path size s ≡ some (pos 0, after)
  pub freed :
      (j : ℕ) → bit after.dbmap j ≡ (if (s.itable ino).i_indirect == j then 0 else bit s.dbmap j)
  pub counted : after.sb.sb_free_blocks ≡ inc_u32 s.sb.sb_free_blocks
  pub same_blocks : (after.itable ino).i_blocks ≡ 5
  pub same_pointer : (after.itable ino).i_indirect ≡ (s.itable ino).i_indirect

-- Truncation of a file of five blocks, which has no table of blocks, to a size that needs five blocks returns 0 when the
-- clock can be read, and frees whatever block its i_indirect names, if that is taken: the superblock's where it was never
-- assigned. The free count goes up by one and the file keeps its five blocks.
pub vsfs_truncate-LosesIndirect :
    (clock : Clock) (path : List ℕ) (ino size : ℕ) (s : Fs)
    → Works clock
    → path_lookup path s ≡ (pos 0, some ino)
    → IsBitmap s.dbmap s.sb.sb_num_blocks
    → (s.itable ino).i_blocks ≡ 5
    → blocks_for size ≡ 5
    → (s.itable ino).i_indirect < s.sb.sb_num_blocks
    → bit s.dbmap (s.itable ino).i_indirect ≡ 1
    → LosesIndirect clock path ino size s
vsfs_truncate-LosesIndirect clock path ino size s works found maps five same inside taken =
    let time = stamp_run clock ino s works in
    let s1 = stamped ino time.0 s in
    let count : (s1.itable ino).i_blocks ≡ 5 =
      stamped_field (λ n. n.i_blocks) ino time.0 s ino (λ n. refl) ∙ five in
    let pointer : (s1.itable ino).i_indirect ≡ (s.itable ino).i_indirect =
      stamped_field (λ n. n.i_indirect) ino time.0 s ino (λ n. refl) in
    let free =
      Frees-done s.dbmap s.sb.sb_num_blocks (s.itable ino).i_indirect
        (bitmap_free s.dbmap s.sb.sb_num_blocks (s.itable ino).i_indirect) inside taken
        (bitmap_free-Frees s.dbmap s.sb.sb_num_blocks (s.itable ino).i_indirect maps) in
    let down =
      truncate_down_indir-five path ino size free.0 s1
        (path_lookup-stamped path ino time.0 s ∙ found) count same
        (ap (bitmap_free s.dbmap s.sb.sb_num_blocks) pointer ∙ free.1) in
    let s2 = given_back free.0 s1 in
    let node = update_self s2.itable ino (record (s2.itable ino) { i_size = size }) in
    record {
      after = sized ino size s2;
      truncates =
          vsfs_truncate_eq clock path ino size s s1 found time.1
          ∙ ap
              (λ w.
                truncate_checked path ino size w (s1.itable ino).i_blocks s1.sb.sb_free_blocks s1)
              same
          ∙ ap (λ c. truncate_checked path ino size 5 c s1.sb.sb_free_blocks s1) count
          ∙ truncate_checked-five path ino size s1.sb.sb_free_blocks s1 s2 down;
      freed = free.2.2.0;
      counted = refl;
      same_blocks = ap (λ n. n.i_blocks) node ∙ count;
      same_pointer = ap (λ n. n.i_indirect) node ∙ pointer;
    }
