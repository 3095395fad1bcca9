-- ===== src/Fs/Agree.antt =====
-- What a path lookup depends on: the root's block pointers and the blocks they lead to.
use os_library.Base.{
  ℕ, zero, suc, ◌+◌, ◌-◌, ◌^◌, ◌≡◌, refl, sym, ap, subst, ◌∙◌, ◌≢◌, ◌⊎◌, inl, inr, Option, none,
  some, List, [], ◌∷◌, ◌==◌, leb, if◌then◌else◌, All, update, ==-eq-false, ==_refl,
}
use os_library.Base.Int.{ℤ, pos, negsuc, to_signed}
use os_library.Fs.State.{Fs, minus_enosys}
use os_library.Fs.Lookup.{
  direct_blocks, indirect_blocks, num_indirects, traverse_block, lookup_in, path_lookup, found_ino,
  or_else, first_blocks, count_of, table_from,
}

-- The blocks of a list hold the same bytes in both images.
abbrev pub SameBlocks : Fs → Fs → List ℕ → Type 0
SameBlocks s t = All (λ b. t.blocks b ≡ s.blocks b)

pub lookup_in-SameBlocks :
    (s t : Fs) (bs path : List ℕ) → SameBlocks s t bs → lookup_in bs path t ≡ lookup_in bs path s
unfolding lookup_in
lookup_in-SameBlocks s t [] path h = refl
lookup_in-SameBlocks s t (b ∷ bs) path h =
    ap
      (λ de. elim (traverse_block de path) as (λ _. Option ℤ) [
        | pos n ↦ some (pos n)
        | negsuc zero ↦ lookup_in bs path t
        | negsuc (suc k) ↦ some (negsuc (suc k))
      ])
      h.0
    ∙ ap
        (λ r. elim (traverse_block (s.blocks b) path) as (λ _. Option ℤ) [
          | pos n ↦ some (pos n)
          | negsuc zero ↦ r
          | negsuc (suc k) ↦ some (negsuc (suc k))
        ])
        (lookup_in-SameBlocks s t bs path h.1)

-- Two images with the same root directory.
pub record SameRoot (s t : Fs) : Type 0 where
  pub same_direct : direct_blocks (t.itable 0) ≡ direct_blocks (s.itable 0)
  pub same_indirect : indirect_blocks (t.itable 0) t ≡ indirect_blocks (s.itable 0) s
  pub direct_kept : SameBlocks s t (direct_blocks (s.itable 0))
  pub indirect_kept : SameBlocks s t (indirect_blocks (s.itable 0) s)

pub path_lookup-SameRoot :
    (s t : Fs) (path : List ℕ) → SameRoot s t → path_lookup path t ≡ path_lookup path s
unfolding path_lookup
path_lookup-SameRoot s t [] h = refl
path_lookup-SameRoot s t (c ∷ []) h = refl
path_lookup-SameRoot s t (c ∷ d ∷ cs) h =
    let path = c ∷ d ∷ cs in
    let direct : lookup_in (direct_blocks (t.itable 0)) path t
        ≡ lookup_in (direct_blocks (s.itable 0)) path s =
      ap (λ bs. lookup_in bs path t) h.same_direct
      ∙ lookup_in-SameBlocks s t (direct_blocks (s.itable 0)) path h.direct_kept in
    let indirect : lookup_in (indirect_blocks (t.itable 0) t) path t
        ≡ lookup_in (indirect_blocks (s.itable 0) s) path s =
      ap (λ bs. lookup_in bs path t) h.same_indirect
      ∙ lookup_in-SameBlocks s t (indirect_blocks (s.itable 0) s) path h.indirect_kept in
    ap
      (λ (o : Option ℤ).
        if c == 47
        then found_ino (or_else o (lookup_in (indirect_blocks (t.itable 0) t) path t))
        else (minus_enosys, none))
      direct
    ∙ ap
        (λ (o : Option ℤ).
          if c == 47
          then found_ino (or_else (lookup_in (direct_blocks (s.itable 0)) path s) o)
          else (minus_enosys, none))
        indirect

-- A block outside the root directory: none of its blocks, nor its table of blocks where it has one.
pub record Outside (s : Fs) (b : ℕ) : Type 0 where
  pub not_direct : All (λ c. b ≢ c) (direct_blocks (s.itable 0))
  pub not_table : (num_indirects (s.itable 0) ≡ 0) ⊎ (b ≢ (s.itable 0).i_indirect)
  pub not_indirect : All (λ c. b ≢ c) (indirect_blocks (s.itable 0) s)

pub update_ne : {A : Type 0} (f : ℕ → A) (k j : ℕ) (v : A) → k ≢ j → update f k v j ≡ f j
update_ne f k j v h = ap (λ b. if b then v else f j) (==-eq-false h)

pub update_self : {A : Type 0} (f : ℕ → A) (k : ℕ) (v : A) → update f k v k ≡ v
update_self f k v = ap (λ q. if q then v else f k) (==_refl k)

kept_outside :
    (f : ℕ → ℕ → ℕ) (b : ℕ) (v : ℕ → ℕ) (cs : List ℕ)
    → All (λ c. b ≢ c) cs
    → All (λ c. update f b v c ≡ f c) cs
kept_outside f b v [] h = tt
kept_outside f b v (c ∷ cs) h = (update_ne f b c v h.0, kept_outside f b v cs h.1)

table_outside :
    (n : ℕ) (f : ℕ → ℕ → ℕ) (b k : ℕ) (v : ℕ → ℕ)
    → (n ≡ 0) ⊎ (b ≢ k)
    → table_from n 0 (update f b v k) ≡ table_from n 0 (f k)
table_outside n f b k v (inl e) =
    ap (λ m. table_from m 0 (update f b v k)) e ∙ ap (λ m. table_from m 0 (f k)) (sym e)
table_outside n f b k v (inr h) = ap (table_from n 0) (update_ne f b k v h)

-- Writing to a block outside the root directory leaves the root directory as it was.
pub SameRoot-Outside :
    (s t : Fs) (b : ℕ) (v : ℕ → ℕ)
    → Outside s b
    → t.blocks ≡ update s.blocks b v
    → (t.itable 0).i_blocks ≡ (s.itable 0).i_blocks
    → (t.itable 0).i_direct ≡ (s.itable 0).i_direct
    → (t.itable 0).i_indirect ≡ (s.itable 0).i_indirect
    → SameRoot s t
SameRoot-Outside s t b v out e n d k = record {
  same_direct =
      ap (λ m. first_blocks (if leb m 5 then m else 5) (t.itable 0).i_direct) n
      ∙ ap (first_blocks (if leb (s.itable 0).i_blocks 5 then (s.itable 0).i_blocks else 5)) d;
  same_indirect =
      ap
        (λ m.
          table_from (count_of (to_signed 32 (m + 2 ^ 32 - 5))) 0
            (t.blocks (t.itable 0).i_indirect))
        n
      ∙ ap (λ m. table_from (num_indirects (s.itable 0)) 0 (t.blocks m)) k
      ∙ ap
          (λ (f : ℕ → ℕ → ℕ). table_from (num_indirects (s.itable 0)) 0 (f (s.itable 0).i_indirect))
          e
      ∙ table_outside (num_indirects (s.itable 0)) s.blocks b (s.itable 0).i_indirect v
          out.not_table;
  direct_kept =
      subst (λ (f : ℕ → ℕ → ℕ). All (λ c. f c ≡ s.blocks c) (direct_blocks (s.itable 0))) (sym e)
        (kept_outside s.blocks b v (direct_blocks (s.itable 0)) out.not_direct);
  indirect_kept =
      subst (λ (f : ℕ → ℕ → ℕ). All (λ c. f c ≡ s.blocks c) (indirect_blocks (s.itable 0) s))
        (sym e) (kept_outside s.blocks b v (indirect_blocks (s.itable 0) s) out.not_indirect);
}
