-- ===== src/Fs/Formatted.antt =====
-- mkfs.c: what formatting leaves.
use os_library.Base.{
  ℕ, zero, suc, ◌+◌, ◌-◌, ◌*◌, ◌/◌, ◌%◌, ◌^◌, ◌≤◌, ◌<◌, ◌≡◌, refl, sym, subst, ◌∙◌, Option, none,
  some, Bool, true, false, List, [], ◌∷◌, arith, ltb, leb, if◌then◌else◌, get_or, replicate, length,
  length-replicate, set,
}
use os_library.Bitmap.{Result, done, word_all_bits, div_round_up, bitmap_init, bitmap_set}
use os_library.Bitmap.Form.{bit, IsBitmap}
use os_library.Bitmap.Init.{bitmap_init-IsEmpty}
use os_library.Bitmap.Marks.{Sets, bitmap_set-Sets}
use os_library.Bitmap.Count.{count_clear-prefix}
use os_library.Fs.State.{Fs, Clock, and_then, pure, modify_inode, modify_block, put_direct}
use os_library.Fs.Format.{
  full_words, mark_block, mark_inode, mark_blocks, data_begins, inodes_per_block, made_superblock,
  make_bitmaps, make_root, format, mkfs, root_mode, vsfs_is_present,
}
use os_library.Fs.Counts.{settled, Counted}
use os_library.Fs.Counts.Files.{CountsRight}
use os_library.Fs.Stamps.{Works, stamped, stamp_run}

-- The first `m` bits of a bitmap are set, and the others clear.
pub record IsPrefix (words : List ℕ) (num m : ℕ) : Type 0 where
  pub is_bitmap : IsBitmap words num
  pub bits : (j : ℕ) → j < num → bit words j ≡ (if ltb j m then 1 else 0)

get_or-replicate : (n i v : ℕ) → get_or (replicate n v) i 0 ≤ v
get_or-replicate zero i v = omega arith
get_or-replicate (suc n) zero v = omega arith
get_or-replicate (suc n) (suc i) v = get_or-replicate n i v

init-IsPrefix : (num : ℕ) → num ≤ 32768 → IsPrefix (bitmap_init full_words num) num 0
init-IsPrefix num h =
    let covers : num ≤ 64 * length full_words = omega (arith, length-replicate 512 word_all_bits) in
    let empty =
      bitmap_init-IsEmpty full_words num (omega arith) covers
        (λ k. omega (arith, get_or-replicate 512 k word_all_bits)) in
    record { is_bitmap = empty.well_formed; bits = λ j l. empty.clear j l ∙ ground arith }

next_of_Sets :
    (words : List ℕ) (num m : ℕ) (r : Result)
    → IsPrefix words num m
    → m < num
    → Sets words num m true r
    → (words' : List ℕ) × (r ≡ done words') × IsPrefix words' num (suc m)
next_of_Sets words num m Result.fault p h s = absurd (omega arith)
next_of_Sets words num m (done words') p h s =
    (words', refl, record { is_bitmap = s.1.1; bits = λ j l. s.1.0 j ∙ ground (arith, p.bits j l) })

set_next :
    (words : List ℕ) (num m : ℕ)
    → IsPrefix words num m
    → m < num
    → (words' : List ℕ) × (bitmap_set words num m true ≡ done words') × IsPrefix words' num (suc m)
set_next words num m p h =
    next_of_Sets words num m (bitmap_set words num m true) p h
      (bitmap_set-Sets words num m true p.is_bitmap)

mark_block_eq :
    (s : Fs) (nblks b : ℕ) (words' : List ℕ)
    → bitmap_set s.dbmap nblks b true ≡ done words'
    → mark_block nblks b s ≡ some (tt, record s { dbmap = words' })
unfolding mark_block
mark_block_eq s nblks b words' h = simp (h) refl

mark_inode_eq :
    (s : Fs) (n i : ℕ) (words' : List ℕ)
    → bitmap_set s.ibmap n i true ≡ done words'
    → mark_inode n i s ≡ some (tt, record s { ibmap = words' })
unfolding mark_inode
mark_inode_eq s n i words' h = simp (h) refl

mark_blocks_run :
    (rounds nblks b : ℕ) (s : Fs)
    → IsPrefix s.dbmap nblks b
    → b + rounds ≤ nblks
    → (words' : List ℕ) × (mark_blocks rounds nblks b s ≡ some (tt, record s { dbmap = words' }))
      × IsPrefix words' nblks (b + rounds)
unfolding mark_blocks
mark_blocks_run zero nblks b s p h = (s.dbmap, refl, subst (IsPrefix s.dbmap nblks) (omega arith) p)
mark_blocks_run (suc rounds) nblks b s p h =
    let first = set_next s.dbmap nblks b p (omega arith) in
    let rest =
      mark_blocks_run rounds nblks (suc b) (record s { dbmap = first.0 }) first.2 (omega arith) in
    (
      rest.0,
      simp (mark_block_eq s nblks b first.0 first.1) rest.1,
      subst (IsPrefix rest.0 nblks) (omega arith) rest.2,
    )

make_bitmaps_run :
    (nblks n : ℕ) (s : Fs)
    → 0 < n
    → n < 32768
    → nblks ≤ 32768
    → data_begins n ≤ nblks
    → (wi wd : List ℕ) × (make_bitmaps nblks n s ≡ some (tt, record s { ibmap = wi; dbmap = wd }))
      × IsPrefix wi n 1
      × IsPrefix wd nblks (data_begins n)
unfolding make_bitmaps
make_bitmaps_run nblks n s h g l room =
    let k = div_round_up n inodes_per_block in
    let i0 = init-IsPrefix n (omega arith) in
    let d0 = init-IsPrefix nblks l in
    let d1 = set_next (bitmap_init full_words nblks) nblks 0 d0 (omega arith) in
    let d2 = set_next d1.0 nblks 1 d1.2 (omega arith) in
    let d3 = set_next d2.0 nblks 2 d2.2 (omega arith) in
    let made = record s {
      ibmap = bitmap_init full_words n;
      dbmap = bitmap_init full_words nblks;
    } in
    let d = mark_blocks_run k nblks 3 (record made { dbmap = d3.0 }) d3.2 room in
    let i1 = set_next (bitmap_init full_words n) n 0 i0 h in
    (
      i1.0,
      d.0,
      simp
          (
            mark_block_eq made nblks 0 d1.0 d1.1,
            mark_block_eq (record made { dbmap = d1.0 }) nblks 1 d2.0 d2.1,
            mark_block_eq (record made { dbmap = d2.0 }) nblks 2 d3.0 d3.1,
            d.1,
            mark_inode_eq (record made { dbmap = d.0 }) n 0 i1.0 i1.1,
          )
          refl,
      i1.2,
      d.2,
    )

-- The root directory's inode and block, and what the superblock says.
pub record HasRoot (s : Fs) (size nblks n : ℕ) : Type 0 where
  pub made : s.sb ≡ made_superblock size nblks n
  pub root_blocks : (s.itable 0).i_blocks ≡ 1
  pub root_links : (s.itable 0).i_nlink ≡ 2
  pub root_is_dir : (s.itable 0).i_mode ≡ root_mode
  pub root_first : get_or (s.itable 0).i_direct 0 0 ≡ data_begins n

-- What `mkfs` promises: the image is formatted, and the blocks before the data region, the root's block and the root's
-- inode are the ones taken.
abbrev pub Formats : ℕ → ℕ → ℕ → Option (Bool × Fs) → Type 0
Formats size nblks n none = ⊥
Formats size nblks n (some (false, t)) = ⊥
Formats size nblks n (some (true, t)) =
    CountsRight t
    × HasRoot t size nblks n
    × (t.sb.sb_free_blocks + data_begins n + 1 ≡ nblks)
    × ((j : ℕ) → j < nblks → bit t.dbmap j ≡ (if ltb j (suc (data_begins n)) then 1 else 0))
    × ((j : ℕ) → j < n → bit t.ibmap j ≡ (if ltb j 1 then 1 else 0))
    × (vsfs_is_present t ≡ true)

get_or-set_head : (bs : List ℕ) (v : ℕ) → 0 < length bs → get_or (set bs 0 v) 0 0 ≡ v
get_or-set_head [] v h = absurd (omega arith)
get_or-set_head (b ∷ bs) v h = refl

prefix-Counted :
    (words : List ℕ) (num m free : ℕ)
    → IsPrefix words num m
    → free ≡ num - m
    → Counted settled num free words
prefix-Counted words num m free p e = record {
  is_bitmap = p.is_bitmap;
  is_due = e ∙ sym (count_clear-prefix num m words p.bits);
}

make_root-Formats :
    (size nblks n : ℕ) (s : Fs)
    → IsPrefix s.ibmap n 1
    → IsPrefix s.dbmap nblks (data_begins n)
    → 0 < n
    → n < 32768
    → nblks ≤ 32768
    → data_begins n < nblks
    → 0 < length (s.itable 0).i_direct
    → Formats size nblks n (and_then (make_root size nblks n s) (λ _. pure true))
unfolding make_root put_direct modify_inode modify_block
make_root-Formats size nblks n s pi pd h g l room direct =
    let last = set_next s.dbmap nblks (data_begins n) pd room in
    let fits : ltb 0 (length (s.itable 0).i_direct) ≡ true = ground arith in
    simp (mark_block_eq s nblks (data_begins n) last.0 last.1, fits)
      (
        record {
          inodes_counted = prefix-Counted s.ibmap n 1 _ pi (omega arith);
          blocks_counted = prefix-Counted last.0 nblks (suc (data_begins n)) _ last.2 (omega arith);
        },
        record {
          made = refl;
          root_blocks = refl;
          root_links = refl;
          root_is_dir = refl;
          root_first = get_or-set_head (s.itable 0).i_direct (data_begins n) direct;
        },
        omega arith,
        last.2.bits,
        pi.bits,
        refl,
      )

format-Formats :
    (clock : Clock) (size nblks n : ℕ) (s : Fs)
    → Works clock
    → 0 < n
    → n < 32768
    → nblks ≤ 32768
    → data_begins n < nblks
    → 0 < length (s.itable 0).i_direct
    → Formats size nblks n (format clock size nblks n s)
unfolding format
format-Formats clock size nblks n s works h g l room direct =
    let maps = make_bitmaps_run nblks n s h g l (omega arith) in
    let t = record s { ibmap = maps.0; dbmap = maps.1 } in
    let time = stamp_run clock 0 t works in
    let u = stamped 0 time.0 t in
    simp (maps.2, time.1) (make_root-Formats size nblks n u maps.3 maps.4 h g l room direct)

-- `mkfs` with at least one inode and fewer than 32768, on an image of 5 to 32768 blocks that has room for the inode
-- table and one more, with direct pointers in its root inode, succeeds when the clock can be read, whatever else the
-- image held. The superblock is then the one for this size, its free counts are the numbers of clear bits in the two
-- bitmaps, the blocks before the data region and the first of the data region are the ones taken in one bitmap, the
-- inode 0 the one in the other, and the root directory has one block, the first of the data region.
pub mkfs-Formats :
    (clock : Clock) (size n : ℕ) (s : Fs)
    → Works clock
    → 0 < n
    → n < 32768
    → 5 ≤ size / 4096
    → size / 4096 ≤ 32768
    → data_begins n < size / 4096
    → 0 < length (s.itable 0).i_direct
    → Formats size (size / 4096) n (mkfs clock size n s)
unfolding mkfs
mkfs-Formats clock size n s works h g few l room direct =
    let narrow : size / 4096 % 2 ^ 32 ≡ size / 4096 = omega arith in
    let inodes : leb 32768 n ≡ false = ground arith in
    let many : ltb 32768 (size / 4096) ≡ false = ground arith in
    let little : ltb (size / 4096) 5 ≡ false = ground arith in
    simp (narrow, inodes, many, little)
      (format-Formats clock size (size / 4096) n s works h g l room direct)
