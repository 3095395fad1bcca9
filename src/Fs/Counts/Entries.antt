-- ===== src/Fs/Counts/Entries.antt =====
-- The counts through the changes of the root directory.
use os_library.Base.{ℕ, Option, none, some, Bool, true, List, [], ◌∷◌, ◌==◌}
use os_library.Base.Bytes.{read_u32}
use os_library.Base.Moves.{
  Leaves, Leaves-if, Moves, Moves-bind, Moves-seq, Moves-if, Moves-pure, Moves-assert,
}
use os_library.Fs.State.{Inode, Fs, FsM, ◌>>◌, pure, modify_block, dentries_per_block}
use os_library.Fs.Lookup.{ino_at, name_of, indirect_blocks, num_indirects}
use os_library.Fs.Create.{
  find_new_dentry, enter_in, start_indirect, enter_indirect, set_dir_entry, record_block,
  create_new_dentry_table,
}
use os_library.Fs.Unlink.{named_dentry, clear_dentry, remove_in, remove_indirect, unlink_block}
use os_library.Fs.Counts.{
  Due, settled, Owes, alloc_block-Owes, take_free_block-Owes, modify_inode-Owes, modify_block-Owes,
  put_direct-Owes,
}

module _ {i : Due} where
  entered-Owes :
      (rest : FsM Bool) (b : ℕ) (o : Option (ℕ → ℕ))
      → Moves (Owes i settled) rest (Owes i settled)
      → (s : Fs) → Owes i settled s
      → Leaves
          (Owes i settled)
          (elim o [ none ↦ rest s | some de ↦ (do modify_block b (λ _. de); pure true) s ])
  entered-Owes rest b none m s h = m.leaves s h
  entered-Owes rest b (some de) m s h =
      (Moves-seq (modify_block-Owes b (λ _. de)) Moves-pure).leaves s h

  enter_in-Owes :
      (bs path : List ℕ) (ino : ℕ) → Moves (Owes i settled) (enter_in bs path ino) (Owes i settled)
  unfolding enter_in
  enter_in-Owes [] path ino = record { leaves = λ s h. h }
  enter_in-Owes (b ∷ bs) path ino = record {
    leaves = λ s h.
        entered-Owes (enter_in bs path ino) b (find_new_dentry path ino (s.blocks b))
          (enter_in-Owes bs path ino) s h;
  }

  start_indirect-Owes : Moves (Owes i settled) start_indirect (Owes i settled)
  unfolding start_indirect
  start_indirect-Owes =
      Moves-bind alloc_block-Owes (λ blk. Moves-seq (modify_inode-Owes _ _) take_free_block-Owes)

  enter_indirect-Owes :
      (path : List ℕ) (ino : ℕ) → Moves (Owes i settled) (enter_indirect path ino) (Owes i settled)
  unfolding enter_indirect
  enter_indirect-Owes path ino = record {
    leaves = λ s h.
        Leaves-if (Owes i settled) _ _ _ ((Moves-seq start_indirect-Owes Moves-pure).leaves s h)
          ((Moves-bind (enter_in-Owes _ path ino) (λ found. Moves-pure)).leaves s h);
  }

  pub set_dir_entry-Owes :
      (ino : ℕ) (path : List ℕ) → Moves (Owes i settled) (set_dir_entry ino path) (Owes i settled)
  unfolding set_dir_entry
  set_dir_entry-Owes ino path = record {
    leaves = λ s h.
        (Moves-bind (enter_in-Owes _ path ino) (λ found.
            Moves-if found Moves-pure
              (Moves-if _ Moves-pure (enter_indirect-Owes path ino)))).leaves
          s h;
  }

  record_block-Owes :
      {b : Due} (blk table : ℕ) → Moves (Owes i b) (record_block blk table) (Owes i b)
  unfolding record_block
  record_block-Owes blk table = record {
    leaves = λ s h.
        (Moves-if _ (put_direct-Owes _ _ _)
            (Moves-seq (Moves-assert _) (modify_block-Owes _ _))).leaves
          s h;
  }

  pub create_new_dentry_table-Owes :
      (ino : ℕ) (path : List ℕ) (table : ℕ)
      → Moves (Owes i settled) (create_new_dentry_table ino path table) (Owes i settled)
  unfolding create_new_dentry_table
  create_new_dentry_table-Owes ino path table = Moves-bind alloc_block-Owes (λ blk.
      Moves-seq (record_block-Owes blk table) (
        Moves-seq (modify_inode-Owes _ _) (Moves-seq take_free_block-Owes (modify_block-Owes _ _))))

  removed-Owes :
      (rest : FsM (Option ℕ)) (b ino : ℕ) (o : Option ℕ)
      → Moves (Owes i settled) rest (Owes i settled)
      → (s : Fs) → Owes i settled s
      → Leaves (Owes i settled) (elim o [
        | none ↦ rest s
        | some j ↦
            (do modify_block b (clear_dentry j); pure (some (read_u32 (s.blocks b) (ino_at j)))) s
      ])
  removed-Owes rest b ino none m s h = m.leaves s h
  removed-Owes rest b ino (some j) m s h =
      (Moves-seq (modify_block-Owes b (clear_dentry j)) Moves-pure).leaves s h

  remove_in-Owes : (bs path : List ℕ) → Moves (Owes i settled) (remove_in bs path) (Owes i settled)
  unfolding remove_in
  remove_in-Owes [] path = record { leaves = λ s h. h }
  remove_in-Owes (b ∷ bs) path = record {
    leaves = λ s h.
        removed-Owes (remove_in bs path) b 0
          (named_dentry dentries_per_block 0 (name_of path) (s.blocks b)) (remove_in-Owes bs path) s
          h;
  }

  remove_indirect-Owes :
      (found : Option ℕ) (path : List ℕ) (root : Inode)
      → Moves (Owes i settled) (remove_indirect found path root) (Owes i settled)
  remove_indirect-Owes (some ino) path root = record { leaves = λ s h. h }
  remove_indirect-Owes none path root = record {
    leaves = λ s h. Leaves-if (Owes i settled) _ _ (num_indirects root == 0) h (
        (Moves-bind (remove_in-Owes (indirect_blocks root s) path) (λ found. Moves-pure)).leaves s
          h);
  }

  pub unlink_block-Owes :
      (path : List ℕ) → Moves (Owes i settled) (unlink_block path) (Owes i settled)
  unfolding unlink_block
  unlink_block-Owes path = record {
    leaves = λ s h.
        (Moves-bind (remove_in-Owes _ path)
            (λ found. remove_indirect-Owes found path (s.itable 0))).leaves
          s h;
  }
