-- ===== src/Memory/Replay.antt =====
-- sim.c: what a trace that stores a byte and loads it again does.
use os_library.Base.{
  ℕ, suc, ◌+◌, ◌*◌, ◌%◌, ◌≤◌, ◌<◌, ◌≡◌, refl, sym, ap, subst, none, some, true, false, [], ◌∷◌,
  arith, ◌==◌, ltb, if◌then◌else◌, update, ==_refl, ◌⊎◌, inl, inr, Bool-cases, ltb→lt, ltb-false→le,
}
use os_library.Memory.State.{simpagesize, Pte, Memory}
use os_library.Memory.Swap.{SwapFile}
use os_library.Memory.Policies.{Policy}
use os_library.Memory.PageTable.{Fresh, find_physpage}
use os_library.Memory.Translation.{Resident, after_hit, find_frame_number-hit}
use os_library.Memory.Simulator.{reference, is_accepted, access_mem, replay_trace}

-- A policy that does nothing when a page is referenced.
abbrev pub Ignores : {P F : Type 0} → Policy P F → Type 0
Ignores {P} {F} policy =
    (frame vaddr : ℕ) (s : Memory P F) → policy.ref_func frame vaddr s ≡ some (tt, s)

module _ {P F : Type 0} (file : SwapFile F) (policy : Policy P F) (fresh : Fresh) where
  find_physpage-hit :
      (s : Memory P F) (v p f type : ℕ) (e : Pte)
      → Ignores policy
      → Resident s v p f e
      → find_physpage file policy fresh v type s
        ≡ some (f * 16, after_hit file policy fresh type p e s)
  unfolding find_physpage
  find_physpage-hit s v p f type e quiet r =
      simp
        (
          find_frame_number-hit file policy fresh s v p f type e r,
          quiet f v (after_hit file policy fresh type p e s),
        )
        refl

  -- The memory after a store to a resident page.
  abbrev stored : ℕ → ℕ → ℕ → ℕ → Pte → Memory P F → Memory P F
  stored v val p f e s =
      let t = after_hit file policy fresh 83 p e s in
      record t { physmem = update t.physmem (f * 16 + v % 4096) val }

  store_run :
      (s : Memory P F) (v p f val : ℕ) (e : Pte)
      → Ignores policy
      → Resident s v p f e
      → f * 16 + v % 4096 < s.memsize * 16
      → access_mem file policy fresh 83 v val s ≡ some (false, stored v val p f e s)
  unfolding access_mem
  store_run s v p f val e quiet r room =
      let inside : ltb (f * 16 + v % 4096) (s.memsize * 16) ≡ true = ground arith in
      simp (find_physpage-hit s v p f 83 e quiet r, inside) refl

  store_out :
      (s : Memory P F) (v p f val : ℕ) (e : Pte)
      → Ignores policy
      → Resident s v p f e
      → s.memsize * 16 ≤ f * 16 + v % 4096
      → access_mem file policy fresh 83 v val s ≡ none
  unfolding access_mem
  store_out s v p f val e quiet r past =
      let outside : ltb (f * 16 + v % 4096) (s.memsize * 16) ≡ false = ground arith in
      simp (find_physpage-hit s v p f 83 e quiet r, outside) refl

  load_run :
      (s : Memory P F) (v p f val : ℕ) (e : Pte)
      → Ignores policy
      → Resident s v p f e
      → f * 16 + v % 4096 < s.memsize * 16
      → s.physmem (f * 16 + v % 4096) ≡ val
      → access_mem file policy fresh 76 v val s ≡ some (false, after_hit file policy fresh 76 p e s)
  unfolding access_mem
  load_run s v p f val e quiet r room held =
      let inside : ltb (f * 16 + v % 4096) (s.memsize * 16) ≡ true = ground arith in
      let same : (s.physmem (f * 16 + v % 4096) == val) ≡ true = ground (arith, held) in
      simp (find_physpage-hit s v p f 76 e quiet r, same, inside) refl

  stored-Resident :
      (s : Memory P F) (v p f val : ℕ) (e : Pte)
      → Resident s v p f e
      → Resident (stored v val p f e s) v p f (record e { dirty_bit = 1; valid_bit = 1 })
  stored-Resident s v p f val e r = record {
    second = r.second;
    third = r.third;
    first_level = r.first_level;
    second_level = r.second_level;
    third_level = r.third_level;
    stored =
        ap (λ b. if b then some (record e { dirty_bit = 1; valid_bit = 1 }) else s.ptes p)
          (==_refl p);
    valid = refl;
    not_on_swap = r.not_on_swap;
    in_frame = r.in_frame;
  }

  accepted : (type v : ℕ) → (type ≡ 83) ⊎ (type ≡ 76) → v % 4096 ≤ 16 → is_accepted type v ≡ true
  accepted type v h l =
      let inside : ltb 16 (v % 4096) ≡ false = ground arith in
      elim h [
        | inl e ↦ subst (λ k. is_accepted k v ≡ true) (sym e) (simp (inside) refl)
        | inr e ↦ subst (λ k. is_accepted k v ≡ true) (sym e) (simp (inside) refl)
      ]

  -- The replay of a byte stored and loaded again.
  pub record LoadsBack (s : Memory P F) (v val : ℕ) : Type 0 where
    pub after : Memory P F
    pub replays :
        replay_trace file policy fresh 1 (reference 83 v val ∷ reference 76 v val ∷ []) s
        ≡ some ((true, []), after)
    pub hits : after.hit_count ≡ suc (suc s.hit_count)
    pub misses : after.miss_count ≡ s.miss_count

  -- A trace that stores a byte at an address of a page that is in a frame of physmem, at an offset below SIMPAGESIZE,
  -- and then loads it from there, is replayed to its end without an error under a policy that ignores references: the
  -- load finds the byte that was stored. Both count as hits.
  pub replay_trace-LoadsBack :
      (s : Memory P F) (v p f val : ℕ) (e : Pte)
      → Ignores policy
      → Resident s v p f e
      → f < s.memsize
      → v % 4096 < 16
      → LoadsBack s v val
  unfolding replay_trace
  replay_trace-LoadsBack s v p f val e quiet r frame inside =
      let t = stored v val p f e s in
      let e1 : Pte = record e { dirty_bit = 1; valid_bit = 1 } in
      let held : t.physmem (f * 16 + v % 4096) ≡ val =
        ap (λ b. if b then val else s.physmem (f * 16 + v % 4096)) (==_refl (f * 16 + v % 4096)) in
      record {
        after = after_hit file policy fresh 76 p e1 t;
        replays =
            simp
              (
                accepted 83 v (inl refl) (omega arith),
                store_run s v p f val e quiet r (omega arith),
                load_run t v p f val e1 quiet (stored-Resident s v p f val e r) (omega arith) held,
              )
              refl;
        hits = refl;
        misses = refl;
      }

  -- The replay of a store past its page's frame.
  pub record Overruns (s : Memory P F) (v f val : ℕ) : Type 0 where
    pub overrun : Memory P F
    pub stores :
        replay_trace file policy fresh 1 (reference 83 v val ∷ []) s ≡ some ((true, []), overrun)
    pub next_frame : overrun.physmem (suc f * simpagesize) ≡ val

  overruns :
      (s : Memory P F) (v p f val : ℕ) (e : Pte)
      → Ignores policy
      → Resident s v p f e
      → suc f < s.memsize
      → v % 4096 ≡ 16
      → Overruns s v f val
  unfolding replay_trace
  overruns s v p f val e quiet r more past = record {
    overrun = stored v val p f e s;
    stores =
        simp (accepted 83 v (inl refl) (omega arith), store_run s v p f val e quiet r (omega arith))
          refl;
    next_frame =
        let same : (f * 16 + v % 4096 == suc f * 16) ≡ true = ground (arith, past) in
        ap (λ b. if b then val else s.physmem (suc f * 16)) same;
  }

  -- A store at offset SIMPAGESIZE of a page in a frame `f` of physmem, which is one past the page, is accepted, under a
  -- policy that ignores references: it changes the first byte of frame `f + 1`, or leaves physmem when `f` is the last
  -- frame.
  pub replay_trace-Overruns :
      (s : Memory P F) (v p f val : ℕ) (e : Pte)
      → Ignores policy
      → Resident s v p f e
      → f < s.memsize
      → v % 4096 ≡ 16
      → (is_accepted 83 v ≡ true)
        × (((suc f < s.memsize) × Overruns s v f val)
            ⊎ ((suc f ≡ s.memsize)
                × (replay_trace file policy fresh 1 (reference 83 v val ∷ []) s ≡ none)))
  unfolding replay_trace
  replay_trace-Overruns s v p f val e quiet r frame past =
      let ok = accepted 83 v (inl refl) (omega arith) in
      (
        ok,
        elim (Bool-cases (ltb (suc f) s.memsize)) [
          | inl more ↦ inl (
            ltb→lt (suc f) s.memsize more,
            overruns s v p f val e quiet r (ltb→lt (suc f) s.memsize more) past,
          )
          | inr last ↦
              let least = ltb-false→le (suc f) s.memsize last in
              inr (omega arith, simp (ok, store_out s v p f val e quiet r (omega arith)) refl)
        ],
      )
