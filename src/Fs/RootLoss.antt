-- ===== src/Fs/RootLoss.antt =====
-- vsfs.c: unlinking a name that is not there gives back the root directory.
use os_library.Base.{
  ℕ, zero, suc, ◌+◌, ◌≤◌, ◌<◌, ◌≡◌, ◌≢◌, refl, sym, ap, subst, ◌∙◌, Option, none, some, true, false,
  List, [], ◌∷◌, arith, ◌==◌, if◌then◌else◌, update, All, length, ltb, leb, get_or, set, length-set,
  get_or-set_ne, get_elem?-eq-get_or,
}
use os_library.Base.Int.{pos}
use os_library.Base.Bytes.{read_u32}
use os_library.Base.Members.{has, Distinct}
use os_library.Bitmap.{done, bitmap_free}
use os_library.Bitmap.Form.{bit, IsBitmap}
use os_library.Bitmap.Free.{bitmap_free-Frees, Frees-done}
use os_library.Fs.State.{
  stamp, Inode, Fs, Clock, free_inode, modify_sb, modify_block, give_free_block, modify_inode,
  inc_u32, dec_u32, put_direct, direct_at, dentries_per_block,
}
use os_library.Fs.Lookup.{ino_at, name_of, direct_blocks, first_blocks, num_indirects}
use os_library.Fs.Unlink.{
  clear_dentry, named_dentry, remove_in, unlink_block, release_direct, release_indirect,
  release_inode, vsfs_unlink,
}
use os_library.Fs.Agree.{update_self, update_ne}
use os_library.Fs.Stamps.{Works, stamped, stamp_run}
use os_library.Fs.Misses.{free_block_eq}
use os_library.Fs.Reclaim.{Taken, raised, Taken-freed}

-- The direct pointers `i`, `i + 1`, ..., `rounds` of them.
abbrev pointers : ℕ → ℕ → List ℕ → List ℕ
pointers zero i l = []
pointers (suc rounds) i l = get_or l i 0 ∷ pointers rounds (suc i) l

pointers-after :
    (rounds i b : ℕ) (l : List ℕ) → pointers rounds (suc i) (b ∷ l) ≡ pointers rounds i l
pointers-after zero i b l = refl
pointers-after (suc rounds) i b l = ap (λ r. get_or l i 0 ∷ r) (pointers-after rounds (suc i) b l)

pointers-first :
    (rounds : ℕ) (l : List ℕ) → rounds ≤ length l → pointers rounds 0 l ≡ first_blocks rounds l
pointers-first zero l h = refl
pointers-first (suc rounds) [] h = absurd (omega arith)
pointers-first (suc rounds) (b ∷ l) h =
    ap (λ r. b ∷ r) (pointers-after rounds 0 b l ∙ pointers-first rounds l (omega arith))

pointers-set :
    (rounds i k : ℕ) (l : List ℕ) → k < i → pointers rounds i (set l k 0) ≡ pointers rounds i l
pointers-set zero i k l h = refl
pointers-set (suc rounds) i k l h =
    simp
      (
        get_or-set_ne l k i 0 0 (λ e. omega (arith, h, e)),
        pointers-set rounds (suc i) k l (omega arith),
      )
      refl

-- The image after the direct pointer `i` was given back.
abbrev pointer_freed : ℕ → ℕ → List ℕ → Fs → Fs
pointer_freed ino i words s = record s {
  dbmap = words;
  itable =
      update s.itable ino (record (s.itable ino) { i_direct = set (s.itable ino).i_direct i 0 });
  sb = record s.sb { sb_free_blocks = inc_u32 s.sb.sb_free_blocks };
}

release_direct-suc :
    (rounds i ino : ℕ) (words : List ℕ) (s : Fs)
    → i < length (s.itable ino).i_direct
    → bitmap_free s.dbmap s.sb.sb_num_blocks (get_or (s.itable ino).i_direct i 0) ≡ done words
    → release_direct (suc rounds) i ino s
      ≡ release_direct rounds (suc i) ino (pointer_freed ino i words s)
unfolding release_direct direct_at put_direct modify_inode give_free_block modify_sb
release_direct-suc rounds i ino words s h e =
    let ok : ltb i (length (s.itable ino).i_direct) ≡ true = ground arith in
    simp
      (
        get_elem?-eq-get_or (s.itable ino).i_direct i 0 h,
        free_block_eq (get_or (s.itable ino).i_direct i 0) words s e,
        ok,
      )
      refl

-- The blocks `bs` were given back, and nothing but the pointers of `ino` has changed besides.
record DirectFreed (ino : ℕ) (bs : List ℕ) (s : Fs) (r : Option (Unit {0} × Fs)) : Type 0 where
  after : Fs
  ends : r ≡ some (tt, after)
  freed : (j : ℕ) → bit after.dbmap j ≡ (if has bs j then 0 else bit s.dbmap j)
  same_ibmap : after.ibmap ≡ s.ibmap
  same_blocks : after.blocks ≡ s.blocks
  counted : after.sb ≡ record s.sb { sb_free_blocks = raised (length bs) s.sb.sb_free_blocks }
  same_inodes : (j : ℕ) → ino ≢ j → after.itable j ≡ s.itable j

next_freed :
    (ino i b : ℕ) (words bs : List ℕ) (s : Fs) (r o : Option (Unit {0} × Fs))
    → ((j : ℕ) → bit words j ≡ (if b == j then 0 else bit s.dbmap j))
    → o ≡ r
    → DirectFreed ino bs (pointer_freed ino i words s) r
    → DirectFreed ino (b ∷ bs) s o
next_freed ino i b words bs s r o f e w = record {
  after = w.after;
  ends = e ∙ w.ends;
  freed = λ j. w.freed j ∙ ground (arith, f j);
  same_ibmap = w.same_ibmap;
  same_blocks = w.same_blocks;
  counted = w.counted;
  same_inodes = λ j l. w.same_inodes j l ∙ update_ne s.itable ino j _ l;
}

release_direct-DirectFreed :
    (rounds i ino : ℕ) (bs : List ℕ) (s : Fs)
    → pointers rounds i (s.itable ino).i_direct ≡ bs
    → i + rounds ≤ length (s.itable ino).i_direct
    → IsBitmap s.dbmap s.sb.sb_num_blocks
    → Taken s.dbmap s.sb.sb_num_blocks bs
    → Distinct bs
    → DirectFreed ino bs s (release_direct rounds i ino s)
unfolding release_direct
release_direct-DirectFreed zero i ino bs s e h m w d =
    subst (λ l. DirectFreed ino l s (some (tt, s))) e
      (record {
        after = s;
        ends = refl;
        freed = λ j. refl;
        same_ibmap = refl;
        same_blocks = refl;
        counted = refl;
        same_inodes = λ j l. refl;
      })
release_direct-DirectFreed (suc rounds) i ino bs s e h m w d =
    let l = (s.itable ino).i_direct in
    let b = get_or l i 0 in
    let rest = pointers rounds (suc i) l in
    let w' : Taken s.dbmap s.sb.sb_num_blocks (b ∷ rest) =
      subst (Taken s.dbmap s.sb.sb_num_blocks) (sym e) w in
    let d' : Distinct (b ∷ rest) = subst Distinct (sym e) d in
    let free =
      Frees-done s.dbmap s.sb.sb_num_blocks b (bitmap_free s.dbmap s.sb.sb_num_blocks b) w'.0.0
        w'.0.1 (bitmap_free-Frees s.dbmap s.sb.sb_num_blocks b m) in
    let words = free.0 in
    let node =
      ap (λ n. n.i_direct)
        (update_self s.itable ino (record (s.itable ino) { i_direct = set l i 0 })) in
    subst (λ x. DirectFreed ino x s (release_direct (suc rounds) i ino s)) e
      (next_freed ino i b words rest s
        (release_direct rounds (suc i) ino (pointer_freed ino i words s))
        (release_direct (suc rounds) i ino s) free.2.2.0
        (release_direct-suc rounds i ino words s (omega arith) free.1)
        (release_direct-DirectFreed rounds (suc i) ino rest (pointer_freed ino i words s)
          (ap (pointers rounds (suc i)) node ∙ pointers-set rounds (suc i) i l (omega arith))
          (omega (arith, ap length node, length-set l i 0)) free.2.2.1
          (Taken-freed s.dbmap words s.sb.sb_num_blocks b rest free.2.2.0 d'.0 w'.1) d'.1))

remove_in-none :
    (bs path : List ℕ) (s : Fs)
    → All (λ b. named_dentry dentries_per_block 0 (name_of path) (s.blocks b) ≡ none) bs
    → remove_in bs path s ≡ some (none, s)
unfolding remove_in modify_block
remove_in-none [] path s h = refl
remove_in-none (b ∷ bs) path s h =
    ap
      (λ o. elim o as (λ _. Option (Option ℕ × Fs)) [
        | none ↦ remove_in bs path s
        | some j ↦ some (
          some (read_u32 (s.blocks b) (ino_at j)),
          record s { blocks = update s.blocks b (clear_dentry j (s.blocks b)) },
        )
      ])
      h.0
    ∙ remove_in-none bs path s h.1

-- The root directory was given back.
pub record GivesBackRoot (clock : Clock) (path : List ℕ) (s : Fs) : Type 0 where
  pub after : Fs
  pub unlinks : vsfs_unlink clock path s ≡ some (pos 0, after)
  pub blocks_freed :
      (j : ℕ)
      → bit after.dbmap j ≡ (if has (direct_blocks (s.itable 0)) j then 0 else bit s.dbmap j)
  pub inode_freed : (j : ℕ) → bit after.ibmap j ≡ (if 0 == j then 0 else bit s.ibmap j)
  pub blocks_counted :
      after.sb.sb_free_blocks ≡ raised (length (direct_blocks (s.itable 0))) s.sb.sb_free_blocks
  pub inodes_counted : after.sb.sb_free_inodes ≡ inc_u32 s.sb.sb_free_inodes
  pub other_inodes : (j : ℕ) → 0 ≢ j → after.itable j ≡ s.itable j
  pub same_blocks : after.blocks ≡ s.blocks

-- The image after the root's inode was given back.
abbrev root_freed : List ℕ → Fs → Fs
root_freed words s = record s {
  ibmap = words;
  sb = record s.sb { sb_free_inodes = inc_u32 s.sb.sb_free_inodes };
  itable = update s.itable 0 (record (s.itable 0) { i_nlink = dec_u32 (s.itable 0).i_nlink });
}

no_indirects : (node : Inode) → node.i_blocks ≤ 5 → (num_indirects node == 0) ≡ true
no_indirects node h = ground arith

release_inode-root :
    (clock : Clock) (words : List ℕ) (s t u : Fs)
    → (s.itable 0).i_blocks ≤ 5
    → release_direct (s.itable 0).i_blocks 0 0 s ≡ some (tt, t)
    → bitmap_free t.ibmap t.sb.sb_num_inodes 0 ≡ done words
    → stamp clock 0 (root_freed words t) ≡ some (true, u)
    → release_inode clock 0 s ≡ some (pos 0, u)
unfolding release_inode release_indirect free_inode modify_sb modify_inode
release_inode-root clock words s t u few direct free time =
    let all : ltb 5 (s.itable 0).i_blocks ≡ false = ground arith in
    let none_left = no_indirects (s.itable 0) few in simp (all, direct, none_left, free, time) refl

vsfs_unlink-missing :
    (clock : Clock) (path : List ℕ) (s : Fs)
    → All
        (λ b. named_dentry dentries_per_block 0 (name_of path) (s.blocks b) ≡ none)
        (direct_blocks (s.itable 0))
    → (s.itable 0).i_blocks ≤ 5
    → vsfs_unlink clock path s ≡ release_inode clock 0 s
unfolding vsfs_unlink unlink_block
vsfs_unlink-missing clock path s h few =
    let last = no_indirects (s.itable 0) few in
    simp (remove_in-none (direct_blocks (s.itable 0)) path s h, last) refl

-- Unlinking a name that is in no block of a root directory of at most five blocks returns 0 and gives back the root
-- directory itself, when the two bitmaps are well-formed, the root has five direct pointers, its blocks are different ones
-- that are in range and taken, its inode is taken, and the clock can be read: exactly these blocks and the inode 0 become
-- free, both free counts go up by as many, as 32-bit numbers, and no other inode and no byte of a block changes.
pub vsfs_unlink-root :
    (clock : Clock) (path : List ℕ) (s : Fs)
    → Works clock
    → All
        (λ b. named_dentry dentries_per_block 0 (name_of path) (s.blocks b) ≡ none)
        (direct_blocks (s.itable 0))
    → (s.itable 0).i_blocks ≤ 5
    → length (s.itable 0).i_direct ≡ 5
    → IsBitmap s.dbmap s.sb.sb_num_blocks
    → Taken s.dbmap s.sb.sb_num_blocks (direct_blocks (s.itable 0))
    → Distinct (direct_blocks (s.itable 0))
    → IsBitmap s.ibmap s.sb.sb_num_inodes
    → 0 < s.sb.sb_num_inodes
    → bit s.ibmap 0 ≡ 1
    → GivesBackRoot clock path s
vsfs_unlink-root clock path s works missing few five maps taken distinct inodes some_inode root =
    let rounds = (s.itable 0).i_blocks in
    let listed : pointers rounds 0 (s.itable 0).i_direct ≡ direct_blocks (s.itable 0) =
      let all : leb rounds 5 ≡ true = ground arith in
      pointers-first rounds (s.itable 0).i_direct (omega (arith, few, five)) ∙ simp (all) refl in
    let d =
      release_direct-DirectFreed rounds 0 0 (direct_blocks (s.itable 0)) s listed
        (omega (arith, few, five)) maps taken distinct in
    let t = d.after in
    let count : t.sb.sb_num_inodes ≡ s.sb.sb_num_inodes = ap (λ b. b.sb_num_inodes) d.counted in
    let maps' : IsBitmap t.ibmap t.sb.sb_num_inodes =
      subst (λ w. IsBitmap w t.sb.sb_num_inodes) (sym d.same_ibmap)
        (subst (IsBitmap s.ibmap) (sym count) inodes) in
    let free =
      Frees-done t.ibmap t.sb.sb_num_inodes 0 (bitmap_free t.ibmap t.sb.sb_num_inodes 0)
        (omega (arith, count, some_inode)) (ap (λ w. bit w 0) d.same_ibmap ∙ root)
        (bitmap_free-Frees t.ibmap t.sb.sb_num_inodes 0 maps') in
    let last = root_freed free.0 t in
    let time = stamp_run clock 0 last works in
    let end = stamped 0 time.0 last in
    record {
      after = end;
      unlinks =
          vsfs_unlink-missing clock path s missing few
          ∙ release_inode-root clock free.0 s t end few d.ends free.1 time.1;
      blocks_freed = d.freed;
      inode_freed = λ j. free.2.2.0 j ∙ ap (λ w. if 0 == j then 0 else bit w j) d.same_ibmap;
      blocks_counted = ap (λ b. b.sb_free_blocks) d.counted;
      inodes_counted = ap (λ b. inc_u32 b.sb_free_inodes) d.counted;
      other_inodes =
          λ j l. update_ne last.itable 0 j _ l ∙ update_ne t.itable 0 j _ l ∙ d.same_inodes j l;
      same_blocks = d.same_blocks;
    }
