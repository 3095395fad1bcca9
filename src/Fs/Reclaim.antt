-- ===== src/Fs/Reclaim.antt =====
-- vsfs.c: when the loop of `vsfs_unlink` over the table of blocks ends, and what it gives back.
use os_library.Base.{
  ℕ, zero, suc, ◌+◌, ◌*◌, ◌<◌, ◌≤◌, ◌≡◌, refl, sym, ap, subst, ◌∙◌, Option, none, some, true, false,
  List, [], ◌∷◌, arith, ◌==◌, if◌then◌else◌, update, All, length, ◌⊎◌, ltb, ltb→lt, ltb-false→le,
  Bool-cases, inl, inr,
}
use os_library.Base.Bytes.{read_u32, write_u32, store_bytes, u32_bytes, read_u32_agree}
use os_library.Base.Members.{has, Distinct}
use os_library.Bitmap.{Result, done, bitmap_free}
use os_library.Bitmap.Form.{bit, IsBitmap}
use os_library.Bitmap.Free.{bitmap_free-Frees, Frees-done}
use os_library.Fs.State.{Fs, free_block, modify_sb, modify_block, give_free_block, inc_u32}
use os_library.Fs.Unlink.{release_table}
use os_library.Fs.Agree.{update_self}
use os_library.Fs.Misses.{free_block_eq}

-- The assigned entries of a table, from entry `i` on, of which `left` are left.
abbrev pub assigned : ℕ → ℕ → (ℕ → ℕ) → List ℕ
assigned zero i mem = []
assigned (suc left) i mem =
    let rest = assigned left (suc i) mem in
    if read_u32 mem (4 * i) == 0 then rest else (read_u32 mem (4 * i) ∷ rest)

abbrev pub take : ℕ → List ℕ → List ℕ
take zero bs = []
take (suc n) [] = []
take (suc n) (b ∷ bs) = b ∷ take n bs

-- The free count after `n` more blocks.
abbrev pub raised : ℕ → ℕ → ℕ
raised zero x = x
raised (suc n) x = raised n (inc_u32 x)

-- The image after the entry `i` was given back.
abbrev entry_freed : ℕ → ℕ → List ℕ → Fs → Fs
entry_freed i table words s = record s {
  dbmap = words;
  blocks = update s.blocks table (write_u32 (4 * i) 0 (s.blocks table));
  sb = record s.sb { sb_free_blocks = inc_u32 s.sb.sb_free_blocks };
}

store_above :
    (bytes : List ℕ) (a j : ℕ) (mem : ℕ → ℕ)
    → a + length bytes ≤ j
    → store_bytes bytes a mem j ≡ mem j
store_above [] a j mem h = refl
store_above (b ∷ bytes) a j mem h =
    store_above bytes (suc a) j (λ k. if a == k then b else mem k) (omega arith) ∙ ground arith

assigned_later :
    (left i k : ℕ) (mem : ℕ → ℕ)
    → k < i
    → assigned left i (write_u32 (4 * k) 0 mem) ≡ assigned left i mem
assigned_later zero i k mem h = refl
assigned_later (suc left) i k mem h =
    let same : read_u32 (write_u32 (4 * k) 0 mem) (4 * i) ≡ read_u32 mem (4 * i) =
      read_u32_agree (4 * i) mem (write_u32 (4 * k) 0 mem)
        (λ a l u. store_above (u32_bytes 0) (4 * k) a mem (omega arith)) in
    simp (same, assigned_later left (suc i) k mem (omega arith)) refl

abbrev pub Taken : List ℕ → ℕ → List ℕ → Type 0
Taken words nbits = All (λ b. (b < nbits) × (bit words b ≡ 1))

pub record Reclaims (s : Fs) (bs : List ℕ) (r : Option (Unit {0} × Fs)) : Type 0 where
  pub after : Fs
  pub ends : r ≡ some (tt, after)
  pub freed : (j : ℕ) → bit after.dbmap j ≡ (if has bs j then 0 else bit s.dbmap j)
  pub maps : IsBitmap after.dbmap after.sb.sb_num_blocks
  pub counted : after.sb.sb_free_blocks ≡ raised (length bs) s.sb.sb_free_blocks
  pub same_inodes : after.itable ≡ s.itable

-- One round of the loop: an unassigned entry is passed over, an assigned one is given back.
release_table-skip :
    (left count i table : ℕ) (s : Fs)
    → (read_u32 (s.blocks table) (4 * i) == 0) ≡ true
    → release_table (suc left) (suc count) i table s
      ≡ release_table left (suc count) (suc i) table s
unfolding release_table
release_table-skip left count i table s h = simp (h) refl

release_table-free :
    (left count i table : ℕ) (words : List ℕ) (s : Fs)
    → (read_u32 (s.blocks table) (4 * i) == 0) ≡ false
    → bitmap_free s.dbmap s.sb.sb_num_blocks (read_u32 (s.blocks table) (4 * i)) ≡ done words
    → release_table (suc left) (suc count) i table s
      ≡ release_table left count (suc i) table (entry_freed i table words s)
unfolding release_table give_free_block modify_sb modify_block
release_table-free left count i table words s h e =
    simp (h, free_block_eq (read_u32 (s.blocks table) (4 * i)) words s e) refl

release_table-stuck :
    (left count i table : ℕ) (s : Fs)
    → (read_u32 (s.blocks table) (4 * i) == 0) ≡ false
    → bitmap_free s.dbmap s.sb.sb_num_blocks (read_u32 (s.blocks table) (4 * i)) ≡ Result.fault
    → release_table (suc left) (suc count) i table s ≡ none
unfolding release_table free_block
release_table-stuck left count i table s h e = simp (h, e) refl

still_assigned :
    (left i table : ℕ) (words : List ℕ) (s : Fs)
    → assigned left (suc i) ((entry_freed i table words s).blocks table)
      ≡ assigned left (suc i) (s.blocks table)
still_assigned left i table words s =
    ap (assigned left (suc i)) (update_self s.blocks table (write_u32 (4 * i) 0 (s.blocks table)))
    ∙ assigned_later left (suc i) i (s.blocks table) (omega arith)

-- Fewer assigned entries than blocks: the loop leaves the table.
release_table-leaves :
    (left count i table : ℕ) (s : Fs)
    → length (assigned left i (s.blocks table)) < count
    → release_table left count i table s ≡ none
unfolding release_table
release_table-leaves left zero i table s h = absurd (omega arith)
release_table-leaves zero (suc count) i table s h = refl
release_table-leaves (suc left) (suc count) i table s h =
    elim (Bool-cases (read_u32 (s.blocks table) (4 * i) == 0)) [
      | inl z ↦
          release_table-skip left count i table s z
          ∙ release_table-leaves left (suc count) (suc i) table s (ground (arith, h, z))
      | inr z ↦
          freed_or (bitmap_free s.dbmap s.sb.sb_num_blocks (read_u32 (s.blocks table) (4 * i))) refl
            z (λ words. release_table-leaves left count (suc i) table (entry_freed i table words s))
            (ground (arith, h, z))
    ]
  where
    freed_or :
        (r : Result)
        → bitmap_free s.dbmap s.sb.sb_num_blocks (read_u32 (s.blocks table) (4 * i)) ≡ r
        → (read_u32 (s.blocks table) (4 * i) == 0) ≡ false
        → ((words : List ℕ)
            → length (assigned left (suc i) ((entry_freed i table words s).blocks table)) < count
            → release_table left count (suc i) table (entry_freed i table words s) ≡ none)
        → length (assigned left (suc i) (s.blocks table)) < count
        → release_table (suc left) (suc count) i table s ≡ none
    freed_or (done words) e z rec few =
        release_table-free left count i table words s z e
        ∙ rec words (omega (arith, ap length (still_assigned left i table words s), few))
    freed_or Result.fault e z rec few = release_table-stuck left count i table s z e

-- The blocks that are left are still taken when one that is not among them was freed.
pub Taken-freed :
    (words words' : List ℕ) (nbits b : ℕ) (bs : List ℕ)
    → ((j : ℕ) → bit words' j ≡ (if b == j then 0 else bit words j))
    → has bs b ≡ false
    → Taken words nbits bs
    → Taken words' nbits bs
Taken-freed words words' nbits b [] f h w = tt
Taken-freed words words' nbits b (c ∷ bs) f h w = (
  (w.0.0, f c ∙ ground (arith, h, w.0.1)),
  Taken-freed words words' nbits b bs f (ground (arith, h)) w.1,
)

-- The first block that is given back, before the others.
first_freed :
    (i table b : ℕ) (words bs : List ℕ) (s : Fs) (r o : Option (Unit {0} × Fs))
    → ((j : ℕ) → bit words j ≡ (if b == j then 0 else bit s.dbmap j))
    → o ≡ r
    → Reclaims (entry_freed i table words s) bs r
    → Reclaims s (b ∷ bs) o
first_freed i table b words bs s r o f e w = record {
  after = w.after;
  ends = e ∙ w.ends;
  freed = λ j. w.freed j ∙ ground (arith, f j);
  maps = w.maps;
  counted = w.counted;
  same_inodes = w.same_inodes;
}

table_reclaimed :
    (left count i table : ℕ) (bs : List ℕ) (s : Fs)
    → take count (assigned left i (s.blocks table)) ≡ bs
    → count ≤ length (assigned left i (s.blocks table))
    → IsBitmap s.dbmap s.sb.sb_num_blocks
    → Taken s.dbmap s.sb.sb_num_blocks bs
    → Distinct bs
    → Reclaims s bs (release_table left count i table s)
unfolding release_table
table_reclaimed left zero i table bs s e h m w d =
    subst (λ l. Reclaims s l (some (tt, s))) e
      (record {
        after = s;
        ends = refl;
        freed = λ j. refl;
        maps = m;
        counted = refl;
        same_inodes = refl;
      })
table_reclaimed zero (suc count) i table bs s e h m w d = absurd (omega arith)
table_reclaimed (suc left) (suc count) i table bs s e h m w d =
    elim (Bool-cases (read_u32 (s.blocks table) (4 * i) == 0)) [
      | inl z ↦
          let over : assigned (suc left) i (s.blocks table)
              ≡ assigned left (suc i) (s.blocks table) =
            ground (arith, z) in
          subst (Reclaims s bs) (sym (release_table-skip left count i table s z)) (
            table_reclaimed left (suc count) (suc i) table bs s
              (sym (ap (take (suc count)) over) ∙ e) (subst (λ l. suc count ≤ length l) over h) m w
              d)
      | inr z ↦
          let b = read_u32 (s.blocks table) (4 * i) in
          let rest = assigned left (suc i) (s.blocks table) in
          let over : assigned (suc left) i (s.blocks table) ≡ b ∷ rest = ground (arith, z) in
          let whole : b ∷ take count rest ≡ bs = sym (ap (take (suc count)) over) ∙ e in
          let w' : Taken s.dbmap s.sb.sb_num_blocks (b ∷ take count rest) =
            subst (Taken s.dbmap s.sb.sb_num_blocks) (sym whole) w in
          let d' : Distinct (b ∷ take count rest) = subst Distinct (sym whole) d in
          let room : suc count ≤ length (b ∷ rest) = subst (λ l. suc count ≤ length l) over h in
          let free =
            Frees-done s.dbmap s.sb.sb_num_blocks b (bitmap_free s.dbmap s.sb.sb_num_blocks b)
              w'.0.0 w'.0.1 (bitmap_free-Frees s.dbmap s.sb.sb_num_blocks b m) in
          let words = free.0 in
          let later = still_assigned left i table words s in
          subst (λ l. Reclaims s l (release_table (suc left) (suc count) i table s)) whole
            (first_freed i table b words (take count rest) s
              (release_table left count (suc i) table (entry_freed i table words s))
              (release_table (suc left) (suc count) i table s) free.2.2.0
              (release_table-free left count i table words s z free.1)
              (table_reclaimed left count (suc i) table (take count rest)
                (entry_freed i table words s) (ap (take count) later)
                (omega (arith, ap length later, room)) free.2.2.1
                (Taken-freed s.dbmap words s.sb.sb_num_blocks b (take count rest) free.2.2.0 d'.0
                  w'.1)
                d'.1))
    ]

-- The loop of `vsfs_unlink` over the table of blocks, from the entry `i` on with `left` entries left in the table. When at
-- least `count` of these entries are assigned, and the first `count` of them are different blocks that are in range and
-- taken, it ends inside the table: exactly those blocks are freed, each is counted as free, and no inode changes. When
-- fewer than `count` are assigned, it does not end inside the table.
pub release_table-Reclaims :
    (left count i table : ℕ) (s : Fs)
    → IsBitmap s.dbmap s.sb.sb_num_blocks
    → Taken s.dbmap s.sb.sb_num_blocks (take count (assigned left i (s.blocks table)))
    → Distinct (take count (assigned left i (s.blocks table)))
    → ((count ≤ length (assigned left i (s.blocks table)))
        × Reclaims s
            (take count (assigned left i (s.blocks table)))
            (release_table left count i table s))
      ⊎ ((length (assigned left i (s.blocks table)) < count)
          × (release_table left count i table s ≡ none))
release_table-Reclaims left count i table s m w d =
    let bs = assigned left i (s.blocks table) in
    elim (Bool-cases (ltb (length bs) count)) [
      | inl few ↦
          let less = ltb→lt (length bs) count few in
          inr (less, release_table-leaves left count i table s less)
      | inr many ↦
          let enough = ltb-false→le (length bs) count many in
          inl (enough, table_reclaimed left count i table (take count bs) s refl enough m w d)
    ]
