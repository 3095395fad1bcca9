-- ===== src/Fs/Counts/Blocks.antt =====
-- The counts through the loops that give blocks to files and take them back.
use os_library.Base.{ℕ, zero, suc, ◌-◌, ◌*◌, Bool, List, ◌==◌}
use os_library.Base.Moves.{
  Leaves-if, Moves, Moves-bind, Moves-seq, Moves-if, Moves-pure, Moves-get, Moves-assert,
  Leaves-from_option,
}
use os_library.Base.Bytes.{read_u32}
use os_library.Fs.State.{Inode}
use os_library.Fs.Unlink.{release_direct, release_table, release_indirect}
use os_library.Fs.Truncate.{
  inode_of, grow_table, make_indirect, truncate_up_indir, grow_direct, truncate_up_dir, drop_block,
  shrink_direct, truncate_down_dir, shrink_table, truncate_down_indir, truncate_up, truncate_down,
  set_size,
}
use os_library.Fs.Counts.{
  Due, settled, Owes, alloc_block-Owes, free_block-Owes, take_free_block-Owes, give_free_block-Owes,
  modify_inode-Owes, modify_block-Owes, direct_at-Owes, put_direct-Owes,
}

module _ {i : Due} where
  pub inode_of-Owes : (path : List ℕ) → Moves (Owes i settled) (inode_of path) (Owes i settled)
  unfolding inode_of
  inode_of-Owes path = record { leaves = λ s h. Leaves-from_option (Owes i settled) _ s h }

  grow_table-Owes :
      (rounds k ino : ℕ) → Moves (Owes i settled) (grow_table rounds k ino) (Owes i settled)
  unfolding grow_table
  grow_table-Owes zero k ino = Moves-pure
  grow_table-Owes (suc rounds) k ino = Moves-bind alloc_block-Owes (λ blk.
      Moves-seq (Moves-assert _) (
        Moves-bind Moves-get (λ s. Moves-seq (modify_block-Owes _ _) (
          Moves-seq (modify_inode-Owes _ _) (
            Moves-seq take_free_block-Owes
              (Moves-seq (modify_block-Owes _ _) (grow_table-Owes rounds (suc k) ino)))))))

  make_indirect-Owes : (ino : ℕ) → Moves (Owes i settled) (make_indirect ino) (Owes i settled)
  unfolding make_indirect
  make_indirect-Owes ino =
      Moves-bind alloc_block-Owes (λ blk. Moves-seq (modify_inode-Owes _ _) take_free_block-Owes)

  truncate_up_indir-Owes :
      (path : List ℕ) (alloc : ℕ) (from_dir : Bool)
      → Moves (Owes i settled) (truncate_up_indir path alloc from_dir) (Owes i settled)
  unfolding truncate_up_indir
  truncate_up_indir-Owes path alloc from_dir = Moves-bind (inode_of-Owes path) (λ ino.
      Moves-seq (Moves-if from_dir (make_indirect-Owes ino) Moves-pure)
        (Moves-bind Moves-get (λ s. grow_table-Owes _ _ ino)))

  grow_direct-Owes :
      (rounds k ino : ℕ) → Moves (Owes i settled) (grow_direct rounds k ino) (Owes i settled)
  unfolding grow_direct
  grow_direct-Owes zero k ino = Moves-pure
  grow_direct-Owes (suc rounds) k ino = Moves-bind alloc_block-Owes (λ blk.
      Moves-seq (put_direct-Owes _ _ _) (
        Moves-seq (modify_inode-Owes _ _) (
          Moves-seq take_free_block-Owes
            (Moves-seq (modify_block-Owes _ _) (grow_direct-Owes rounds (suc k) ino)))))

  truncate_up_dir-Owes :
      (path : List ℕ) (alloc : ℕ)
      → Moves (Owes i settled) (truncate_up_dir path alloc) (Owes i settled)
  unfolding truncate_up_dir
  truncate_up_dir-Owes path alloc =
      Moves-bind (inode_of-Owes path) (λ ino. Moves-bind Moves-get (λ s. grow_direct-Owes _ _ ino))

  drop_block-Owes : (ino b : ℕ) → Moves (Owes i settled) (drop_block ino b) (Owes i settled)
  unfolding drop_block
  drop_block-Owes ino b =
      Moves-seq (free_block-Owes b) (Moves-seq (modify_inode-Owes _ _) give_free_block-Owes)

  shrink_direct-Owes :
      (rounds k ino : ℕ) → Moves (Owes i settled) (shrink_direct rounds k ino) (Owes i settled)
  unfolding shrink_direct
  shrink_direct-Owes zero k ino = Moves-pure
  shrink_direct-Owes (suc rounds) k ino =
      Moves-bind (direct_at-Owes _ _)
        (λ b. Moves-seq (drop_block-Owes ino b) (shrink_direct-Owes rounds (k - 1) ino))

  truncate_down_dir-Owes :
      (path : List ℕ) (size : ℕ)
      → Moves (Owes i settled) (truncate_down_dir path size) (Owes i settled)
  unfolding truncate_down_dir
  truncate_down_dir-Owes path size =
      Moves-bind (inode_of-Owes path)
        (λ ino. Moves-bind Moves-get (λ s. shrink_direct-Owes _ _ ino))

  shrink_table-Owes :
      (rounds k ino : ℕ) → Moves (Owes i settled) (shrink_table rounds k ino) (Owes i settled)
  unfolding shrink_table
  shrink_table-Owes zero k ino = Moves-pure
  shrink_table-Owes (suc rounds) k ino = Moves-bind Moves-get (λ s.
      Moves-seq (Moves-assert _)
        (Moves-seq (drop_block-Owes ino _) (shrink_table-Owes rounds (k - 1) ino)))

  truncate_down_indir-Owes :
      (path : List ℕ) (size : ℕ)
      → Moves (Owes i settled) (truncate_down_indir path size) (Owes i settled)
  unfolding truncate_down_indir
  truncate_down_indir-Owes path size = Moves-bind (inode_of-Owes path) (λ ino.
      Moves-bind Moves-get (λ s. Moves-seq (shrink_table-Owes _ _ ino) (
        Moves-seq
          (Moves-if _
            (Moves-bind Moves-get (λ t. Moves-seq (free_block-Owes _) give_free_block-Owes))
            Moves-pure)
          (Moves-if _ (truncate_down_dir-Owes path size) Moves-pure))))

  set_size-Owes : (ino size : ℕ) → Moves (Owes i settled) (set_size ino size) (Owes i settled)
  set_size-Owes ino size = Moves-seq (modify_inode-Owes _ _) Moves-pure

  pub truncate_up-Owes :
      (path : List ℕ) (ino size wanted curr : ℕ)
      → Moves (Owes i settled) (truncate_up path ino size wanted curr) (Owes i settled)
  unfolding truncate_up
  truncate_up-Owes path ino size wanted curr =
      Moves-seq (Moves-if _ (truncate_up_dir-Owes path _) Moves-pure) (
        Moves-bind Moves-get (λ s.
          Moves-seq (Moves-if _ (truncate_up_indir-Owes path _ _) Moves-pure)
            (set_size-Owes ino size)))

  pub truncate_down-Owes :
      (path : List ℕ) (ino size wanted curr : ℕ)
      → Moves (Owes i settled) (truncate_down path ino size wanted curr) (Owes i settled)
  unfolding truncate_down
  truncate_down-Owes path ino size wanted curr =
      Moves-seq
        (Moves-if _
          (Moves-seq (Moves-if _ (truncate_down_indir-Owes path size) Moves-pure)
            (truncate_down_dir-Owes path size))
          (truncate_down_indir-Owes path size))
        (set_size-Owes ino size)

  pub release_direct-Owes :
      (rounds k ino : ℕ) → Moves (Owes i settled) (release_direct rounds k ino) (Owes i settled)
  unfolding release_direct
  release_direct-Owes zero k ino = Moves-pure
  release_direct-Owes (suc rounds) k ino = Moves-bind (direct_at-Owes _ _) (λ b.
      Moves-seq (free_block-Owes b) (
        Moves-seq (put_direct-Owes _ _ _)
          (Moves-seq give_free_block-Owes (release_direct-Owes rounds (suc k) ino))))

  release_table-Owes :
      (left count k table : ℕ)
      → Moves (Owes i settled) (release_table left count k table) (Owes i settled)
  unfolding release_table
  release_table-Owes left zero k table = record { leaves = λ s h. h }
  release_table-Owes zero (suc count) k table = record { leaves = λ s h. tt }
  release_table-Owes (suc left) (suc count) k table = record {
    leaves = λ s h.
        Leaves-if (Owes i settled) _ _ (read_u32 (s.blocks table) (4 * k) == 0)
          ((release_table-Owes left (suc count) (suc k) table).leaves s h)
          ((Moves-seq (free_block-Owes _) (
              Moves-seq (modify_block-Owes _ _) (
                Moves-seq give_free_block-Owes
                  (release_table-Owes left count (suc k) table)))).leaves
            s h);
  }

  pub release_indirect-Owes :
      (node : Inode) → Moves (Owes i settled) (release_indirect node) (Owes i settled)
  unfolding release_indirect
  release_indirect-Owes node =
      Moves-if _ Moves-pure (
        Moves-seq (release_table-Owes _ _ _ _) (Moves-seq (free_block-Owes _) give_free_block-Owes))
