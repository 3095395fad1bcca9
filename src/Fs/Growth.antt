-- ===== src/Fs/Growth.antt =====
-- vsfs.c: a file grows within its direct blocks.
use os_library.Base.{
  ℕ, zero, suc, ◌+◌, ◌/◌, ◌%◌, ◌≤◌, ◌<◌, ◌≡◌, refl, ap, ◌∙◌, ◌≢◌, some, true, List, arith, ◌==◌,
  ltb, if◌then◌else◌, inl, inr, Bool-cases, update, length, ==_refl, get_or, set, get_or-set_self,
  get_or-set_ne, length-set,
}
use os_library.Base.Bytes.{fill_bytes, fill_bytes-inside}
use os_library.Bitmap.{allocated, bitmap_alloc}
use os_library.Bitmap.Bits.{testbit-le_one}
use os_library.Bitmap.Form.{bit}
use os_library.Bitmap.Alloc.{Allocates, bitmap_alloc-Allocates, Allocates-allocated}
use os_library.Bitmap.Count.{count_clear-set, count_clear-le, count_clear-full}
use os_library.Fs.State.{
  Inode, Fs, alloc_block, modify_inode, modify_block, modify_sb, take_free_block, put_direct,
  inc_u32, dec_u32,
}
use os_library.Fs.Agree.{update_ne, update_self}
use os_library.Fs.Truncate.{grow_direct}
use os_library.Fs.Counts.{settled, Counted}

-- What `rounds` new blocks from index `i` on do to an image: the blocks that were taken stay so and keep their bytes, and
-- the new pointers lead to blocks that were free, are taken now, and hold zeros.
pub record Grown (ino rounds i : ℕ) (s t : Fs) : Type 0 where
  pub still_counted : Counted settled t.sb.sb_num_blocks t.sb.sb_free_blocks t.dbmap
  pub fewer_free : t.sb.sb_free_blocks + rounds ≡ s.sb.sb_free_blocks
  pub more_blocks : (t.itable ino).i_blocks ≡ (s.itable ino).i_blocks + rounds
  pub same_length : length (t.itable ino).i_direct ≡ length (s.itable ino).i_direct
  pub others : (j : ℕ) → ino ≢ j → t.itable j ≡ s.itable j
  pub stays_taken : (b : ℕ) → bit s.dbmap b ≡ 1 → (bit t.dbmap b ≡ 1) × (t.blocks b ≡ s.blocks b)
  pub old_pointers :
      (k : ℕ) → k < i → get_or (t.itable ino).i_direct k 0 ≡ get_or (s.itable ino).i_direct k 0
  pub new_pointers :
      (k : ℕ)
      → i ≤ k
      → k < i + rounds
      → (b : ℕ) × (get_or (t.itable ino).i_direct k 0 ≡ b)
        × (bit s.dbmap b ≡ 0)
        × (bit t.dbmap b ≡ 1)
        × ((a : ℕ) → a < 4096 → t.blocks b a ≡ 0)

abbrev with_pointer : ℕ → ℕ → Inode → Inode
with_pointer i b n = record n { i_direct = set n.i_direct i b }

abbrev with_block : Inode → Inode
with_block n = record n { i_blocks = inc_u32 n.i_blocks }

-- The image after one round, in which block `b` was allocated.
one_grown : ℕ → ℕ → ℕ → List ℕ → Fs → Fs
one_grown ino i b words s =
    let first = update s.itable ino (with_pointer i b (s.itable ino)) in
    record s {
      sb = record s.sb { sb_free_blocks = dec_u32 s.sb.sb_free_blocks };
      dbmap = words;
      itable = update first ino (with_block (first ino));
      blocks = update s.blocks b (fill_bytes 4096 0 0 (s.blocks b));
    }

grow_direct-suc :
    (rounds i ino b : ℕ) (words : List ℕ) (s : Fs)
    → bitmap_alloc s.dbmap s.sb.sb_num_blocks ≡ allocated b words
    → i < length (s.itable ino).i_direct
    → grow_direct (suc rounds) i ino s ≡ grow_direct rounds (suc i) ino (one_grown ino i b words s)
unfolding grow_direct alloc_block put_direct modify_inode take_free_block modify_block modify_sb
    one_grown
grow_direct-suc rounds i ino b words s h g =
    let ok : ltb i (length (s.itable ino).i_direct) ≡ true = ground arith in simp (h, ok) refl

one_grown-itable :
    (ino i b : ℕ) (words : List ℕ) (s : Fs)
    → (one_grown ino i b words s).itable ino ≡ with_block (with_pointer i b (s.itable ino))
unfolding one_grown
one_grown-itable ino i b words s =
    let first = update s.itable ino (with_pointer i b (s.itable ino)) in
    update_self first ino (with_block (first ino))
    ∙ ap with_block (update_self s.itable ino (with_pointer i b (s.itable ino)))

one_grown-Grown :
    (ino i b : ℕ) (words : List ℕ) (s : Fs)
    → Counted settled s.sb.sb_num_blocks s.sb.sb_free_blocks s.dbmap
    → Allocates s.dbmap s.sb.sb_num_blocks (allocated b words)
    → i < length (s.itable ino).i_direct
    → (s.itable ino).i_blocks < 5
    → Grown ino 1 i s (one_grown ino i b words s)
unfolding one_grown
one_grown-Grown ino i b words s counted a room few =
    let node = one_grown-itable ino i b words s in
    let before = count_clear-set s.sb.sb_num_blocks b s.dbmap words a.0 a.1 a.3 in
    let first = update s.itable ino (with_pointer i b (s.itable ino)) in
    let now = s.sb.sb_free_blocks in
    let narrow : dec_u32 now + 1 ≡ now = omega (
      arith,
      before,
      counted.is_due,
      count_clear-le s.sb.sb_num_blocks s.dbmap,
      counted.is_bitmap.small,
    ) in
    record {
      still_counted = record {
        is_bitmap = a.4;
        is_due = omega (arith, narrow, before, counted.is_due);
      };
      fewer_free = narrow;
      more_blocks = ap (λ n. n.i_blocks) node ∙ omega arith;
      same_length = ap (λ n. length n.i_direct) node ∙ length-set (s.itable ino).i_direct i b;
      others = λ j l.
          update_ne first ino j (with_block (first ino)) l
          ∙ update_ne s.itable ino j (with_pointer i b (s.itable ino)) l;
      stays_taken = λ c h.
          let other : b ≢ c = λ e. omega (arith, a.1, h, ap (bit s.dbmap) e) in
          (
            a.3 c ∙ ground (arith, h),
            update_ne s.blocks b c (fill_bytes 4096 0 0 (s.blocks b)) other,
          );
      old_pointers = λ k l.
          ap (λ n. get_or n.i_direct k 0) node
          ∙ get_or-set_ne (s.itable ino).i_direct i k b 0 (λ e. omega (arith, l, e));
      new_pointers = λ k l g.
          let same : k ≡ i = omega arith in
          (
            b,
            ap (λ n. get_or n.i_direct k 0) node
                ∙ ap (λ m. get_or (set (s.itable ino).i_direct i b) m 0) same
                ∙ get_or-set_self (s.itable ino).i_direct i b 0 room,
            a.1,
            a.3 b ∙ ap (λ q. if q then 1 else bit s.dbmap b) (==_refl b),
            λ j m.
                ap (λ (f : ℕ → ℕ). f j) (update_self s.blocks b (fill_bytes 4096 0 0 (s.blocks b)))
                ∙ fill_bytes-inside 4096 0 0 j (s.blocks b) (omega arith) (omega arith),
          );
    }

-- A bit that is clear later was clear before, when set bits stay set.
was_free :
    (words words' : List ℕ) (b : ℕ)
    → (bit words b ≡ 1 → bit words' b ≡ 1)
    → bit words' b ≡ 0
    → bit words b ≡ 0
was_free words words' b h e = elim (Bool-cases (bit words b == 1)) [
  | inl d ↦ absurd (omega (arith, h (ground (arith, d)), e))
  | inr d ↦ ground (arith, d, testbit-le_one (get_or words (b / 64) 0) (b % 64))
]

more_rounds :
    (ino rounds i : ℕ) (s t u : Fs)
    → Grown ino 1 i s t
    → Grown ino rounds (suc i) t u
    → Grown ino (suc rounds) i s u
more_rounds ino rounds i s t u g h = record {
  still_counted = h.still_counted;
  fewer_free = omega (arith, g.fewer_free, h.fewer_free);
  more_blocks = omega (arith, g.more_blocks, h.more_blocks);
  same_length = h.same_length ∙ g.same_length;
  others = λ j l. h.others j l ∙ g.others j l;
  stays_taken = λ b e.
      let now = g.stays_taken b e in
      let later = h.stays_taken b now.0 in (later.0, later.1 ∙ now.1);
  old_pointers = λ k l. h.old_pointers k (omega arith) ∙ g.old_pointers k l;
  new_pointers = λ k l m. elim (Bool-cases (k == i)) [
    | inl e ↦
        let new = g.new_pointers k l (ground arith) in
        let later = h.stays_taken new.0 new.3 in
        (
          new.0,
          h.old_pointers k (ground arith) ∙ new.1,
          new.2,
          later.0,
          λ j q. ap (λ (f : ℕ → ℕ). f j) later.1 ∙ new.4 j q,
        )
    | inr e ↦
        let new = h.new_pointers k (ground arith) (omega arith) in
        (
          new.0,
          new.1,
          was_free s.dbmap t.dbmap new.0 (λ c. (g.stays_taken new.0 c).0) new.2,
          new.3,
          new.4,
        )
  ];
}

pub grow_direct_run :
    (rounds i ino : ℕ) (s : Fs)
    → Counted settled s.sb.sb_num_blocks s.sb.sb_free_blocks s.dbmap
    → rounds ≤ s.sb.sb_free_blocks
    → i + rounds ≤ length (s.itable ino).i_direct
    → (s.itable ino).i_blocks + rounds ≤ 5
    → (t : Fs) × (grow_direct rounds i ino s ≡ some (tt, t)) × Grown ino rounds i s t
unfolding grow_direct
grow_direct_run zero i ino s counted enough room few = (
  s,
  refl,
  record {
    still_counted = counted;
    fewer_free = omega arith;
    more_blocks = omega arith;
    same_length = refl;
    others = λ j l. refl;
    stays_taken = λ b e. (e, refl);
    old_pointers = λ k l. refl;
    new_pointers = λ k l m. absurd (omega arith);
  },
)
grow_direct_run (suc rounds) i ino s counted enough room few =
    let new =
      Allocates-allocated s.dbmap s.sb.sb_num_blocks (bitmap_alloc s.dbmap s.sb.sb_num_blocks)
        (bitmap_alloc-Allocates s.dbmap s.sb.sb_num_blocks counted.is_bitmap)
        (λ every.
          omega
            (arith, count_clear-full s.sb.sb_num_blocks s.dbmap every, counted.is_due, enough)) in
    let s1 = one_grown ino i new.0 new.1 s in
    let first = one_grown-Grown ino i new.0 new.1 s counted new.3 (omega arith) (omega arith) in
    let rest =
      grow_direct_run rounds (suc i) ino s1 first.still_counted (omega (arith, first.fewer_free))
        (omega (arith, first.same_length)) (omega (arith, first.more_blocks)) in
    (
      rest.0,
      grow_direct-suc rounds i ino new.0 new.1 s new.2 (omega arith) ∙ rest.1,
      more_rounds ino rounds i s s1 rest.0 first rest.2,
    )
