-- ===== src/Fs/Counts.antt =====
-- The free counts of the superblock against the bitmaps, at each step of an operation.
pub mod Blocks
pub mod Entries
pub mod Files
use os_library.Base.{ℕ, suc, ◌≡◌, sym, ap, ◌∙◌, Option, none, some, List, arith, ltb, length, set}
use os_library.Base.Moves.{
  Leaves, Moves, Moves-bind, Moves-seq, Moves-pure, Moves-modify, Moves-assert, Leaves-from_option,
}
use os_library.Bitmap.{Result, done, AllocResult, allocated, full, bitmap_alloc, bitmap_free}
use os_library.Bitmap.Form.{IsBitmap}
use os_library.Bitmap.Count.{count_clear, count_clear-le, count_clear-set, count_clear-clear}
use os_library.Bitmap.Alloc.{Allocates, bitmap_alloc-Allocates}
use os_library.Bitmap.Free.{Frees, bitmap_free-Frees}
use os_library.Fs.State.{
  Superblock, Inode, Timespec, Fs, set_mtime, read_clock, alloc_answer, bitmap_answer, inc_u32,
  dec_u32, modify_inode, modify_block, modify_sb, take_free_block, give_free_block, direct_at,
  put_direct, alloc_block, alloc_inode, free_block, free_inode, Clock, stamp,
}

-- What is still to be done to a count: nothing, one to take off, or one to give back.
pub data Due : Type 0 where
  settled : Due
  taken : Due
  given : Due

abbrev pub IsDue : Due → ℕ → ℕ → Type 0
IsDue settled free clear = free ≡ clear
IsDue taken free clear = free ≡ suc clear
IsDue given free clear = suc free ≡ clear

-- A bitmap and its count of free bits.
pub record Counted (due : Due) (num free : ℕ) (words : List ℕ) : Type 0 where
  pub is_bitmap : IsBitmap words num
  pub is_due : IsDue due free (count_clear num words)

-- Both bitmaps and their counts, with what is due for inodes and for blocks.
pub record Ledger (inodes blocks : Due) (sb : Superblock) (ibmap dbmap : List ℕ) : Type 0 where
  pub inodes_counted : Counted inodes sb.sb_num_inodes sb.sb_free_inodes ibmap
  pub blocks_counted : Counted blocks sb.sb_num_blocks sb.sb_free_blocks dbmap

-- The counts of an image, with what is due.
abbrev pub Owes : Due → Due → Fs → Type 0
Owes inodes blocks s = Ledger inodes blocks s.sb s.ibmap s.dbmap

take-Counted :
    (num free : ℕ) (words : List ℕ)
    → Counted taken num free words
    → Counted settled num (dec_u32 free) words
take-Counted num free words c = record {
  is_bitmap = c.is_bitmap;
  is_due = omega (arith, c.is_due, count_clear-le num words, c.is_bitmap.small);
}

give-Counted :
    (num free : ℕ) (words : List ℕ)
    → Counted given num free words
    → Counted settled num (inc_u32 free) words
give-Counted num free words c = record {
  is_bitmap = c.is_bitmap;
  is_due = omega (arith, c.is_due, count_clear-le num words, c.is_bitmap.small);
}

alloc-Counted :
    (num free i : ℕ) (words words' : List ℕ)
    → Counted settled num free words
    → Allocates words num (allocated i words')
    → Counted taken num free words'
alloc-Counted num free i words words' c a = record {
  is_bitmap = a.4;
  is_due = c.is_due ∙ count_clear-set num i words words' a.0 a.1 a.3;
}

free-Counted :
    (num free i : ℕ) (words words' : List ℕ)
    → Counted settled num free words
    → Frees words num i (done words')
    → Counted given num free words'
free-Counted num free i words words' c f = record {
  is_bitmap = f.2.1;
  is_due = ap suc c.is_due ∙ sym (count_clear-clear num i words words' f.0 f.1 f.2.0);
}

alloc_answer-Owes :
    (P : Fs → Type 0) (r : AllocResult) (words : List ℕ) (num : ℕ) (put : List ℕ → Fs → Fs) (s : Fs)
    → Allocates words num r
    → ((i : ℕ) (words' : List ℕ) → Allocates words num (allocated i words') → P (put words' s))
    → Leaves P (alloc_answer r put s)
alloc_answer-Owes P full words num put s a h = tt
alloc_answer-Owes P AllocResult.fault words num put s a h = tt
alloc_answer-Owes P (allocated i words') words num put s a h = h i words' a

bitmap_answer-Owes :
    (P : Fs → Type 0) (r : Result) (words : List ℕ) (num i : ℕ) (put : List ℕ → Fs → Fs) (s : Fs)
    → Frees words num i r
    → ((words' : List ℕ) → Frees words num i (done words') → P (put words' s))
    → Leaves P (bitmap_answer r put s)
bitmap_answer-Owes P (done words') words num i put s f h = h words' f
bitmap_answer-Owes P Result.fault words num i put s f h = tt

pub alloc_block-Owes : {i : Due} → Moves (Owes i settled) alloc_block (Owes i taken)
unfolding alloc_block
alloc_block-Owes {i} = record {
  leaves = λ s h.
      alloc_answer-Owes (Owes i taken) (bitmap_alloc s.dbmap s.sb.sb_num_blocks) s.dbmap
        s.sb.sb_num_blocks (λ words t. record t { dbmap = words }) s
        (bitmap_alloc-Allocates s.dbmap s.sb.sb_num_blocks h.blocks_counted.is_bitmap)
        (λ b words' a. record {
          inodes_counted = h.inodes_counted;
          blocks_counted =
              alloc-Counted s.sb.sb_num_blocks s.sb.sb_free_blocks b s.dbmap words' h.blocks_counted
                a;
        });
}

pub alloc_inode-Owes : {b : Due} → Moves (Owes settled b) alloc_inode (Owes taken b)
unfolding alloc_inode
alloc_inode-Owes {b} = record {
  leaves = λ s h.
      alloc_answer-Owes (Owes taken b) (bitmap_alloc s.ibmap s.sb.sb_num_inodes) s.ibmap
        s.sb.sb_num_inodes (λ words t. record t { ibmap = words }) s
        (bitmap_alloc-Allocates s.ibmap s.sb.sb_num_inodes h.inodes_counted.is_bitmap)
        (λ i words' a. record {
          inodes_counted =
              alloc-Counted s.sb.sb_num_inodes s.sb.sb_free_inodes i s.ibmap words' h.inodes_counted
                a;
          blocks_counted = h.blocks_counted;
        });
}

pub free_block-Owes : {i : Due} (b : ℕ) → Moves (Owes i settled) (free_block b) (Owes i given)
unfolding free_block
free_block-Owes {i} b = record {
  leaves = λ s h.
      bitmap_answer-Owes (Owes i given) (bitmap_free s.dbmap s.sb.sb_num_blocks b) s.dbmap
        s.sb.sb_num_blocks b (λ words t. record t { dbmap = words }) s
        (bitmap_free-Frees s.dbmap s.sb.sb_num_blocks b h.blocks_counted.is_bitmap)
        (λ words' f. record {
          inodes_counted = h.inodes_counted;
          blocks_counted =
              free-Counted s.sb.sb_num_blocks s.sb.sb_free_blocks b s.dbmap words' h.blocks_counted
                f;
        });
}

pub free_inode-Owes : {b : Due} (i : ℕ) → Moves (Owes settled b) (free_inode i) (Owes given b)
unfolding free_inode
free_inode-Owes {b} i = record {
  leaves = λ s h.
      bitmap_answer-Owes (Owes given b) (bitmap_free s.ibmap s.sb.sb_num_inodes i) s.ibmap
        s.sb.sb_num_inodes i (λ words t. record t { ibmap = words }) s
        (bitmap_free-Frees s.ibmap s.sb.sb_num_inodes i h.inodes_counted.is_bitmap)
        (λ words' f. record {
          inodes_counted =
              free-Counted s.sb.sb_num_inodes s.sb.sb_free_inodes i s.ibmap words' h.inodes_counted
                f;
          blocks_counted = h.blocks_counted;
        });
}

pub take_free_block-Owes : {i : Due} → Moves (Owes i taken) take_free_block (Owes i settled)
unfolding take_free_block modify_sb
take_free_block-Owes = Moves-modify (λ s h. record {
  inodes_counted = h.inodes_counted;
  blocks_counted = take-Counted s.sb.sb_num_blocks s.sb.sb_free_blocks s.dbmap h.blocks_counted;
})

pub give_free_block-Owes : {i : Due} → Moves (Owes i given) give_free_block (Owes i settled)
unfolding give_free_block modify_sb
give_free_block-Owes = Moves-modify (λ s h. record {
  inodes_counted = h.inodes_counted;
  blocks_counted = give-Counted s.sb.sb_num_blocks s.sb.sb_free_blocks s.dbmap h.blocks_counted;
})

-- The inode that a count is still to be told of.
pub take_inode-Owes :
    {b : Due}
    → Moves
        (Owes taken b)
        (modify_sb (λ k. record k { sb_free_inodes = dec_u32 k.sb_free_inodes }))
        (Owes settled b)
unfolding modify_sb
take_inode-Owes = Moves-modify (λ s h. record {
  inodes_counted = take-Counted s.sb.sb_num_inodes s.sb.sb_free_inodes s.ibmap h.inodes_counted;
  blocks_counted = h.blocks_counted;
})

pub give_inode-Owes :
    {b : Due}
    → Moves
        (Owes given b)
        (modify_sb (λ k. record k { sb_free_inodes = inc_u32 k.sb_free_inodes }))
        (Owes settled b)
unfolding modify_sb
give_inode-Owes = Moves-modify (λ s h. record {
  inodes_counted = give-Counted s.sb.sb_num_inodes s.sb.sb_free_inodes s.ibmap h.inodes_counted;
  blocks_counted = h.blocks_counted;
})

-- The steps that touch neither a bitmap nor a count.
pub modify_inode-Owes :
    {i b : Due} (ino : ℕ) (f : Inode → Inode) → Moves (Owes i b) (modify_inode ino f) (Owes i b)
unfolding modify_inode
modify_inode-Owes ino f = Moves-modify (λ s h. h)

pub modify_block-Owes :
    {i b : Due} (blk : ℕ) (f : (ℕ → ℕ) → ℕ → ℕ) → Moves (Owes i b) (modify_block blk f) (Owes i b)
unfolding modify_block
modify_block-Owes blk f = Moves-modify (λ s h. h)

pub direct_at-Owes : {i b : Due} (ino k : ℕ) → Moves (Owes i b) (direct_at ino k) (Owes i b)
unfolding direct_at
direct_at-Owes {i} {b} ino k = record { leaves = λ s h. Leaves-from_option (Owes i b) _ s h }

pub put_direct-Owes : {i b : Due} (ino k v : ℕ) → Moves (Owes i b) (put_direct ino k v) (Owes i b)
unfolding put_direct
put_direct-Owes {i} {b} ino k v = record {
  leaves = λ s h.
      (Moves-bind (Moves-assert {P = Owes i b} (ltb k (length (s.itable ino).i_direct)))
          (λ _. modify_inode-Owes ino (λ n. record n { i_direct = set n.i_direct k v }))).leaves
        s h;
}

stamp_answer-Owes :
    {i b : Due} (ino : ℕ) (o : Option Timespec) → Moves (Owes i b) (set_mtime ino o) (Owes i b)
stamp_answer-Owes ino none = Moves-pure
stamp_answer-Owes ino (some t) =
    Moves-seq (modify_inode-Owes ino (λ n. record n { i_mtime = t })) Moves-pure

pub stamp-Owes :
    {i b : Due} (clock : Clock) (ino : ℕ) → Moves (Owes i b) (stamp clock ino) (Owes i b)
unfolding stamp
stamp-Owes {i} {b} clock ino =
    Moves-bind {m = read_clock clock} (record { leaves = λ s h. h }) (λ t. stamp_answer-Owes ino t)
