-- ===== src/Fs/RoundTrip.antt =====
-- vsfs.c: bytes that are written to a file and read back.
use os_library.Base.{
  ℕ, ◌+◌, ◌-◌, ◌*◌, ◌/◌, ◌%◌, ◌≤◌, ◌<◌, ◌≡◌, refl, sym, ap, subst, ◌∙◌, ◌≢◌, Option, none, some,
  true, false, List, arith, ◌==◌, ltb, leb, if◌then◌else◌, inl, inr, Bool-cases, ==_refl, update,
  length, get_elem?,
}
use os_library.Base.Int.{pos}
use os_library.Base.Bytes.{read_u32, bytes_from, store_bytes, bytes_from-store_bytes}
use os_library.Fs.State.{Timespec, Fs, modify_block, direct_at, Clock, from_option}
use os_library.Fs.Lookup.{path_lookup}
use os_library.Fs.Access.{block_of, read_at, vsfs_read, write_at, extend_to, vsfs_write}
use os_library.Fs.Stamps.{Works, stamped, stamp_run, stamped_field, inode_of_eq}
use os_library.Fs.Agree.{Outside, SameRoot-Outside, path_lookup-SameRoot, update_ne}

-- A path leads to an inode, and `size` bytes at an offset are in one block of its file, which is no block of the root
-- directory nor the file's table of blocks.
pub record InPlace (s : Fs) (path : List ℕ) (size offset ino b : ℕ) : Type 0 where
  pub found : path_lookup path s ≡ (pos 0, some ino)
  pub some_bytes : 0 < size
  pub in_file : offset + size ≤ (s.itable ino).i_size
  pub file_small : (s.itable ino).i_size ≤ 1029 * 4096
  pub in_block : offset % 4096 + size ≤ 4096
  pub the_block : block_of ino (offset / 4096) s ≡ some (b, s)
  pub not_table : b ≢ (s.itable ino).i_indirect
  pub outside : Outside s b

-- What a write leaves: the bytes in block `b`, the inode stamped, and nothing else changed.
abbrev pub written : List ℕ → ℕ → ℕ → Fs → Fs
written buf at b s = record s { blocks = update s.blocks b (store_bytes buf at (s.blocks b)) }

write_at_run :
    (clock : Clock) (ino b : ℕ) (buf : List ℕ) (offset : ℕ) (s : Fs)
    → Works clock
    → block_of ino (offset / 4096) s ≡ some (b, s)
    → offset % 4096 + length buf ≤ 4096
    → (t : Fs) × (write_at clock ino buf offset s ≡ some (pos (length buf), t))
      × ((time : Timespec) × (t ≡ stamped ino time (written buf (offset % 4096) b s)))
unfolding write_at modify_block
write_at_run clock ino b buf offset s works h fits =
    let w = written buf (offset % 4096) b s in
    let time = stamp_run clock ino w works in
    let ok : leb (offset % 4096 + length buf) 4096 ≡ true = ground arith in
    (stamped ino time.0 w, simp (h, ok, time.1) refl, (time.0, refl))

vsfs_write_run :
    (clock : Clock) (path buf : List ℕ) (offset ino b : ℕ) (s : Fs)
    → Works clock
    → InPlace s path (length buf) offset ino b
    → (t : Fs) × (vsfs_write clock path buf offset s ≡ some (pos (length buf), t))
      × ((time : Timespec) × (t ≡ stamped ino time (written buf (offset % 4096) b s)))
unfolding vsfs_write extend_to
vsfs_write_run clock path buf offset ino b s works h =
    let run = write_at_run clock ino b buf offset s works h.the_block h.in_block in
    let small : ltb 4214784 (offset + length buf) ≡ false =
      ground (arith, h.in_file, h.file_small) in
    let held : ltb (s.itable ino).i_size (offset + length buf) ≡ false =
      ground (arith, h.in_file) in
    let before_end : (offset == (s.itable ino).i_size) ≡ false =
      ground (arith, h.in_file, h.some_bytes) in
    (run.0, simp (inode_of_eq path ino s h.found, small, held, before_end) run.1, run.2)

-- The number of a block, from the direct pointers and the table of blocks.
block_number : ℕ → List ℕ → (ℕ → ℕ) → Option ℕ
block_number index direct table =
    if ltb index 5
    then get_elem? direct index
    else if ltb (index - 5) 1024
    then some (read_u32 table (4 * (index - 5)))
    else none

block_of_eq :
    (ino index : ℕ) (s : Fs)
    → block_of ino index s
      ≡ from_option
          (block_number index (s.itable ino).i_direct (s.blocks (s.itable ino).i_indirect))
          s
unfolding block_of direct_at block_number
block_of_eq ino index s = elim (Bool-cases (ltb index 5)) [
  | inl e ↦ simp (e) refl
  | inr e ↦ elim (Bool-cases (ltb (index - 5) 1024)) [
    | inl d ↦ simp (e, d) refl
    | inr d ↦ simp (e, d) refl
  ]
]

answer_of : (o : Option ℕ) (b : ℕ) (s : Fs) → from_option o s ≡ some (b, s) → o ≡ some b
answer_of none b s h = absurd (ground (arith, h))
answer_of (some c) b s h = ap (λ r. elim r as (λ _. Option ℕ) [ none ↦ none | some p ↦ some p.0 ]) h

block_of-written :
    (ino index b at : ℕ) (buf : List ℕ) (time : Timespec) (s : Fs)
    → block_of ino index s ≡ some (b, s)
    → b ≢ (s.itable ino).i_indirect
    → block_of ino index (stamped ino time (written buf at b s))
      ≡ some (b, stamped ino time (written buf at b s))
block_of-written ino index b at buf time s h ne =
    let t = stamped ino time (written buf at b s) in
    let node = s.itable ino in
    let same : t.blocks (t.itable ino).i_indirect ≡ s.blocks node.i_indirect =
      ap t.blocks (stamped_field (λ n. n.i_indirect) ino time s ino (λ n. refl))
      ∙ update_ne s.blocks b node.i_indirect (store_bytes buf at (s.blocks b)) ne in
    let number : block_number index (t.itable ino).i_direct (t.blocks (t.itable ino).i_indirect)
        ≡ some b =
      ap (λ d. block_number index d (t.blocks (t.itable ino).i_indirect))
        (stamped_field (λ n. n.i_direct) ino time s ino (λ n. refl))
      ∙ ap (block_number index node.i_direct) same
      ∙ answer_of (block_number index node.i_direct (s.blocks node.i_indirect)) b s
          (sym (block_of_eq ino index s) ∙ h) in
    block_of_eq ino index t ∙ ap (λ o. from_option o t) number

read_at_run :
    (clock : Clock) (ino b size offset : ℕ) (s : Fs)
    → Works clock
    → block_of ino (offset / 4096) s ≡ some (b, s)
    → offset % 4096 + size ≤ 4096
    → (u : Fs) × (read_at clock ino size offset s
        ≡ some ((pos size, bytes_from size (offset % 4096) (s.blocks b)), u))
unfolding read_at
read_at_run clock ino b size offset s works h fits =
    let time = stamp_run clock 0 s works in
    let ok : leb (offset % 4096 + size) 4096 ≡ true = ground arith in
    (stamped 0 time.0 s, simp (h, ok, time.1) refl)

vsfs_read_run :
    (clock : Clock) (path : List ℕ) (size offset ino b : ℕ) (s : Fs)
    → Works clock
    → path_lookup path s ≡ (pos 0, some ino)
    → offset + size ≤ (s.itable ino).i_size
    → block_of ino (offset / 4096) s ≡ some (b, s)
    → offset % 4096 + size ≤ 4096
    → (u : Fs) × (vsfs_read clock path size offset s
        ≡ some ((pos size, bytes_from size (offset % 4096) (s.blocks b)), u))
unfolding vsfs_read
vsfs_read_run clock path size offset ino b s works found held h fits =
    let run = read_at_run clock ino b size offset s works h fits in
    let inside : ltb (s.itable ino).i_size offset ≡ false = ground arith in
    let whole : ltb (s.itable ino).i_size (offset + size) ≡ false = ground arith in
    (run.0, simp (inode_of_eq path ino s found, inside, whole) run.1)

-- What a write and the read after it do: the write answers the number of bytes, changes only the block `b` and the
-- inode's time, and the read answers as many and the same bytes.
pub record ReadsBack (clock : Clock) (path buf : List ℕ) (offset b : ℕ) (s : Fs) : Type 0 where
  pub after : Fs
  pub writes : vsfs_write clock path buf offset s ≡ some (pos (length buf), after)
  pub others : (c : ℕ) → b ≢ c → after.blocks c ≡ s.blocks c
  pub counts : after.sb ≡ s.sb
  pub inode_map : after.ibmap ≡ s.ibmap
  pub block_map : after.dbmap ≡ s.dbmap
  pub later : Fs
  pub reads : vsfs_read clock path (length buf) offset after ≡ some ((pos (length buf), buf), later)

-- A write of at least one byte inside a file, in one block of it that is not a block of the root directory nor the
-- file's table of blocks, and a read of the same range after it both return, when the clock can be read: both answer the
-- number of bytes, and the read gets the bytes that were written. The write leaves the other blocks, the superblock and
-- the two bitmaps as they were.
pub vsfs_write-vsfs_read :
    (clock : Clock) (path buf : List ℕ) (offset ino b : ℕ) (s : Fs)
    → Works clock
    → InPlace s path (length buf) offset ino b
    → ReadsBack clock path buf offset b s
vsfs_write-vsfs_read clock path buf offset ino b s works h =
    let at = offset % 4096 in
    let run = vsfs_write_run clock path buf offset ino b s works h in
    let time = run.2.0 in
    let t = stamped ino time (written buf at b s) in
    let mem = store_bytes buf at (s.blocks b) in
    let root =
      SameRoot-Outside s t b mem h.outside refl
        (stamped_field (λ n. n.i_blocks) ino time s 0 (λ n. refl))
        (stamped_field (λ n. n.i_direct) ino time s 0 (λ n. refl))
        (stamped_field (λ n. n.i_indirect) ino time s 0 (λ n. refl)) in
    let found : path_lookup path t ≡ (pos 0, some ino) =
      path_lookup-SameRoot s t path root ∙ h.found in
    let size : (t.itable ino).i_size ≡ (s.itable ino).i_size =
      stamped_field (λ n. n.i_size) ino time s ino (λ n. refl) in
    let back =
      vsfs_read_run clock path (length buf) offset ino b t works found
        (omega (arith, size, h.in_file))
        (block_of-written ino (offset / 4096) b at buf time s h.the_block h.not_table) h.in_block in
    let block : t.blocks b ≡ mem = ap (λ c. if c then mem else s.blocks b) (==_refl b) in
    record {
      after = t;
      writes =
          subst (λ (u : Fs). vsfs_write clock path buf offset s ≡ some (pos (length buf), u))
            run.2.1 run.1;
      others = λ c ne. update_ne s.blocks b c mem ne;
      counts = refl;
      inode_map = refl;
      block_map = refl;
      later = back.0;
      reads =
          back.1
          ∙ ap (λ bytes. some ((pos (length buf), bytes), back.0))
              (ap (bytes_from (length buf) at) block ∙ bytes_from-store_bytes buf at (s.blocks b));
    }
