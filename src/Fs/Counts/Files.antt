-- ===== src/Fs/Counts/Files.antt =====
-- The counts through whole operations.
use os_library.Base.{
  ℕ, zero, suc, ◌≡◌, Option, none, some, Bool, true, List, is_some, ◌==◌, ltb, ◌-◌, arith,
}
use os_library.Base.Int.{ℤ, pos, negsuc}
use os_library.Base.Moves.{
  Leaves-if, Moves, Moves-bind, Moves-seq, Moves-if, Moves-pure, Moves-get, Moves-assert,
}
use os_library.Fs.State.{
  Timespec, Fs, FsM, Clock, ◌>>=◌, pure, fault, minus_one, minus_efbig, minus_enospc, put_inode,
  modify_inode, stamp, set_mtime,
}
use os_library.Fs.Stamps.{Works}
use os_library.Fs.Lookup.{path_lookup}
use os_library.Fs.Create.{create_one_empty, vsfs_create}
use os_library.Fs.Unlink.{release_inode, vsfs_unlink, utimens_at, utime_omit, vsfs_utimens}
use os_library.Fs.Truncate.{truncate_checked, vsfs_truncate}
use os_library.Fs.Access.{block_of, read_at, vsfs_read, write_at, extend_to, vsfs_write}
use os_library.Fs.Counts.{
  Due, settled, Owes, alloc_inode-Owes, free_inode-Owes, take_inode-Owes, give_inode-Owes,
  modify_inode-Owes, modify_block-Owes, direct_at-Owes, stamp-Owes,
}
use os_library.Fs.Counts.Blocks.{
  inode_of-Owes, truncate_up-Owes, truncate_down-Owes, release_direct-Owes, release_indirect-Owes,
}
use os_library.Fs.Counts.Entries.{
  set_dir_entry-Owes, create_new_dentry_table-Owes, unlink_block-Owes,
}

module _ (clock : Clock) (works : Works clock) where
  stamped-Owes :
      {i b : Due} {B : Type 0} {Q : Fs → Type 0} (ino : ℕ) (o : Option Timespec) (f : Bool → FsM B)
      → is_some o ≡ true
      → Moves (Owes i b) (f true) Q
      → Moves (Owes i b) (set_mtime ino o >>= f) Q
  unfolding modify_inode
  stamped-Owes ino none f w m = absurd (ground (arith, w))
  stamped-Owes ino (some t) f w m = record {
    leaves = λ s h. m.leaves (put_inode ino (record (s.itable ino) { i_mtime = t }) s) h;
  }

  -- What follows a reading of the clock only has to go right for a reading that succeeded.
  stamp-Works :
      {i b : Due} {B : Type 0} {Q : Fs → Type 0} (ino : ℕ) (f : Bool → FsM B)
      → Moves (Owes i b) (f true) Q
      → Moves (Owes i b) (stamp clock ino >>= f) Q
  unfolding stamp
  stamp-Works ino f m = record {
    leaves = λ s h.
        (stamped-Owes ino (clock s.calls) f (works s.calls) m).leaves
          (record s { calls = suc s.calls }) h;
  }

  create_one_empty-Owes :
      (path : List ℕ) (mode : ℕ)
      → Moves (Owes settled settled) (create_one_empty clock path mode) (Owes settled settled)
  unfolding create_one_empty
  create_one_empty-Owes path mode = Moves-bind alloc_inode-Owes (λ ino.
      Moves-bind (set_dir_entry-Owes ino path) (λ table.
        Moves-seq (Moves-if _ Moves-pure (create_new_dentry_table-Owes ino path table))
          (stamp-Works ino _ (Moves-seq (modify_inode-Owes _ _) take_inode-Owes))))

  vsfs_create-Owes :
      (path : List ℕ) (mode : ℕ)
      → Moves (Owes settled settled) (vsfs_create clock path mode) (Owes settled settled)
  unfolding vsfs_create
  vsfs_create-Owes path mode =
      Moves-seq (Moves-assert _)
        (stamp-Works 0 _ (Moves-seq (create_one_empty-Owes path mode) Moves-pure))

  release_inode-Owes :
      (ino : ℕ) → Moves (Owes settled settled) (release_inode clock ino) (Owes settled settled)
  unfolding release_inode
  release_inode-Owes ino = record {
    leaves = λ s h.
        (Moves-seq (release_direct-Owes _ 0 ino) (
            Moves-seq (release_indirect-Owes (s.itable ino)) (
              Moves-seq (free_inode-Owes ino) (
                Moves-seq give_inode-Owes (
                  Moves-seq (modify_inode-Owes _ _)
                    (Moves-bind (stamp-Owes clock 0) (λ stamped. Moves-pure))))))).leaves
          s h;
  }

  vsfs_unlink-Owes :
      (path : List ℕ) → Moves (Owes settled settled) (vsfs_unlink clock path) (Owes settled settled)
  unfolding vsfs_unlink
  vsfs_unlink-Owes path = Moves-bind (unlink_block-Owes path) unlinked
    where
      unlinked :
          (found : ℤ)
          → Moves
              (Owes settled settled)
              (elim found [
                | pos ino ↦ release_inode clock ino
                | negsuc zero ↦ pure minus_one
                | negsuc (suc k) ↦ fault
              ])
              (Owes settled settled)
      unlinked (pos ino) = release_inode-Owes ino
      unlinked (negsuc zero) = Moves-pure
      unlinked (negsuc (suc k)) = record { leaves = λ s h. tt }

  utimens_at-Owes :
      (time : Timespec) (o : ℤ × Option ℕ)
      → Moves (Owes settled settled) (utimens_at clock time o) (Owes settled settled)
  utimens_at-Owes time (r, none) = record { leaves = λ s h. tt }
  utimens_at-Owes time (r, some ino) =
      Moves-if _ (stamp-Works ino _ Moves-pure) (Moves-seq (modify_inode-Owes _ _) Moves-pure)

  vsfs_utimens-Owes :
      (path : List ℕ) (time : Timespec)
      → Moves (Owes settled settled) (vsfs_utimens clock path time) (Owes settled settled)
  unfolding vsfs_utimens
  vsfs_utimens-Owes path time = record {
    leaves = λ s h.
        Leaves-if (Owes settled settled) (some (pos 0, s))
          (utimens_at clock time (path_lookup path s) s) (time.tv_nsec == utime_omit) h
          ((utimens_at-Owes time (path_lookup path s)).leaves s h);
  }

  truncate_checked-Owes :
      (path : List ℕ) (ino size wanted curr free : ℕ)
      → Moves
          (Owes settled settled)
          (truncate_checked path ino size wanted curr free)
          (Owes settled settled)
  unfolding truncate_checked
  truncate_checked-Owes path ino size wanted curr free =
      Moves-if (ltb 1029 wanted) (Moves-pure {a = minus_efbig}) (
        Moves-if (ltb free (wanted - curr)) (Moves-pure {a = minus_enospc}) (
          Moves-if (ltb curr wanted) (truncate_up-Owes path ino size wanted curr)
            (truncate_down-Owes path ino size wanted curr)))

  vsfs_truncate-Owes :
      (path : List ℕ) (size : ℕ)
      → Moves (Owes settled settled) (vsfs_truncate clock path size) (Owes settled settled)
  unfolding vsfs_truncate
  vsfs_truncate-Owes path size = Moves-bind (inode_of-Owes path) (λ ino.
      Moves-bind (stamp-Owes clock ino) (λ stamped.
        Moves-bind Moves-get
          (λ s. Moves-if _ Moves-pure (truncate_checked-Owes path ino size _ _ _))))

  block_of-Owes :
      (ino index : ℕ) → Moves (Owes settled settled) (block_of ino index) (Owes settled settled)
  unfolding block_of
  block_of-Owes ino index = record {
    leaves =
        λ s h. (Moves-if _ (direct_at-Owes _ _) (Moves-seq (Moves-assert _) Moves-pure)).leaves s h;
  }

  vsfs_read-Owes :
      (path : List ℕ) (size offset : ℕ)
      → Moves (Owes settled settled) (vsfs_read clock path size offset) (Owes settled settled)
  unfolding vsfs_read read_at
  vsfs_read-Owes path size offset = Moves-bind (inode_of-Owes path) (λ ino.
      Moves-bind Moves-get (λ s. Moves-if _ Moves-pure (
        Moves-bind (block_of-Owes ino _) (λ blk.
          Moves-seq (Moves-assert _) (
            Moves-bind Moves-get (λ t. Moves-bind (stamp-Owes clock 0) (λ stamped. Moves-pure)))))))

  extend_to-Owes :
      (path : List ℕ) (ino end : ℕ)
      → Moves (Owes settled settled) (extend_to clock path ino end) (Owes settled settled)
  unfolding extend_to
  extend_to-Owes path ino end =
      Moves-bind Moves-get
        (λ s. Moves-if _ (Moves-seq (vsfs_truncate-Owes path end) Moves-pure) Moves-pure)

  write_at-Owes :
      (ino : ℕ) (buf : List ℕ) (offset : ℕ)
      → Moves (Owes settled settled) (write_at clock ino buf offset) (Owes settled settled)
  unfolding write_at
  write_at-Owes ino buf offset = Moves-bind (block_of-Owes ino _) (λ blk.
      Moves-seq (Moves-assert _) (
        Moves-seq (modify_block-Owes _ _)
          (Moves-bind (stamp-Owes clock ino) (λ stamped. Moves-pure))))

  vsfs_write-Owes :
      (path buf : List ℕ) (offset : ℕ)
      → Moves (Owes settled settled) (vsfs_write clock path buf offset) (Owes settled settled)
  unfolding vsfs_write
  vsfs_write-Owes path buf offset = Moves-bind (inode_of-Owes path) (λ ino. Moves-if _ Moves-pure (
      Moves-seq (extend_to-Owes path ino _) (
        Moves-bind Moves-get (λ s.
          Moves-seq (Moves-if _ (modify_inode-Owes _ _) Moves-pure)
            (write_at-Owes ino buf offset)))))

-- The superblock's free counts are the numbers of clear bits, and the bitmaps are well-formed.
abbrev pub CountsRight : Fs → Type 0
CountsRight = Owes settled settled

-- With a clock that can be read, every operation that changes the image leaves right counts right, whatever it answers,
-- unless it faults: the numbers of free inodes and of free blocks stay the numbers of clear bits in the two bitmaps, and
-- the bitmaps stay well-formed.
pub operations-CountsRight :
    (clock : Clock)
    → Works clock
    → (path buf : List ℕ) (mode size offset : ℕ) (time : Timespec)
    → Moves CountsRight (vsfs_create clock path mode) CountsRight
      × Moves CountsRight (vsfs_unlink clock path) CountsRight
      × Moves CountsRight (vsfs_truncate clock path size) CountsRight
      × Moves CountsRight (vsfs_write clock path buf offset) CountsRight
      × Moves CountsRight (vsfs_read clock path size offset) CountsRight
      × Moves CountsRight (vsfs_utimens clock path time) CountsRight
operations-CountsRight clock works path buf mode size offset time = (
  vsfs_create-Owes clock works path mode,
  vsfs_unlink-Owes clock works path,
  vsfs_truncate-Owes clock works path size,
  vsfs_write-Owes clock works path buf offset,
  vsfs_read-Owes clock works path size offset,
  vsfs_utimens-Owes clock works path time,
)
