-- ===== src/Memory/Cleared.antt =====
-- What a policy may do to the memory when it evicts: change its own state and clear referenced bits.
use os_library.Base.{
  ℕ, ◌<◌, ◌≡◌, refl, sym, ap, subst, ◌∙◌, Option, none, some, true, arith, ◌==◌, ◌≢◌, ◌⊎◌, inl, inr,
  get_elem?, update, Bool-cases,
}
use os_library.Memory.State.{Pte, Frame, Memory}

-- The same entry, but for a referenced bit that may have been cleared.
abbrev pub ClearedPte : Option Pte → Option Pte → Type 0
ClearedPte none o = o ≡ none
ClearedPte (some e) o = (o ≡ some e) ⊎ (o ≡ some (record e { referenced_bit = 0 }))

pub ClearedPte-refl : (o : Option Pte) → ClearedPte o o
ClearedPte-refl none = refl
ClearedPte-refl (some e) = inl refl

pub ClearedPte-trans :
    (o o' o'' : Option Pte) → ClearedPte o o' → ClearedPte o' o'' → ClearedPte o o''
ClearedPte-trans none o' o'' h g = subst (λ o. ClearedPte o o'') h g
ClearedPte-trans (some e) o' o'' (inl h) g = subst (λ o. ClearedPte o o'') h g
ClearedPte-trans (some e) o' o'' (inr h) g =
    inr (elim (subst (λ o. ClearedPte o o'') h g) [ inl k ↦ k | inr k ↦ k ])

cleared_entry :
    (e : Pte) (o : Option Pte)
    → ClearedPte (some e) o
    → (e' : Pte) × (o ≡ some e') × (e.referenced_bit ≢ 1 → e'.referenced_bit ≢ 1)
cleared_entry e o (inl h) = (e, h, λ n. n)
cleared_entry e o (inr h) = (record e { referenced_bit = 0 }, h, λ n k. absurd (omega arith))

abbrev bit_of_entry : Option Pte → ℕ
bit_of_entry none = 0
bit_of_entry (some e) = e.referenced_bit

module _ {P F : Type 0} where
  pub record Cleared (s s' : Memory P F) : Type 0 where
    pub frame_rest : s' ≡ record s { ptes = s'.ptes; policy = s'.policy }
    pub ptes_cleared : (p : ℕ) → ClearedPte (s.ptes p) (s'.ptes p)

  pub Cleared-refl : (s : Memory P F) (p : P) → Cleared s (record s { policy = p })
  Cleared-refl s p = record { frame_rest = refl; ptes_cleared = λ q. ClearedPte-refl (s.ptes q) }

  pub Cleared-trans : (s t u : Memory P F) → Cleared s t → Cleared t u → Cleared s u
  Cleared-trans s t u h g = record {
    frame_rest =
        g.frame_rest
        ∙ ap {A = Memory P F} (λ v. record v { ptes = u.ptes; policy = u.policy }) h.frame_rest;
    ptes_cleared = λ p.
        ClearedPte-trans (s.ptes p) (t.ptes p) (u.ptes p) (h.ptes_cleared p) (g.ptes_cleared p);
  }

  pub Cleared-memsize : (s s' : Memory P F) → Cleared s s' → s'.memsize ≡ s.memsize
  Cleared-memsize s s' h = ap (λ v. v.memsize) h.frame_rest

  pub Cleared-coremap : (s s' : Memory P F) → Cleared s s' → s'.coremap ≡ s.coremap
  Cleared-coremap s s' h = ap (λ v. v.coremap) h.frame_rest

  -- Frame `i` is in use for the page whose entry is at `p`.
  abbrev pub Holds : Memory P F → ℕ → ℕ → Type 0
  Holds s i p = get_elem? s.coremap i ≡ some (record { in_use = true; pte = some p })

  -- Every frame is in use, for a page whose entry exists.
  abbrev pub AllUsed : Memory P F → Type 0
  AllUsed s = (i : ℕ) → i < s.memsize → (p : ℕ) × (e : Pte) × Holds s i p × (s.ptes p ≡ some e)

  -- Frame `i` is in use for a page that has not been referenced since its bit was cleared.
  abbrev pub Unreferenced : Memory P F → ℕ → Type 0
  Unreferenced s i =
      (p : ℕ) × (e : Pte) × Holds s i p × (s.ptes p ≡ some e) × (e.referenced_bit ≢ 1)

  pub Cleared-Holds : (s s' : Memory P F) (i p : ℕ) → Cleared s s' → Holds s i p → Holds s' i p
  Cleared-Holds s s' i p h g = ap (λ c. get_elem? c i) (Cleared-coremap s s' h) ∙ g

  pub Cleared-AllUsed : (s s' : Memory P F) → Cleared s s' → AllUsed s → AllUsed s'
  Cleared-AllUsed s s' h used i l =
      let u = used i (omega (arith, Cleared-memsize s s' h)) in
      let c =
        cleared_entry u.1 (s'.ptes u.0)
          (subst (λ o. ClearedPte o (s'.ptes u.0)) u.3 (h.ptes_cleared u.0)) in
      (u.0, c.0, Cleared-Holds s s' i u.0 h u.2, c.1)

  pub Cleared-Unreferenced :
      (s s' : Memory P F) (i : ℕ) → Cleared s s' → Unreferenced s i → Unreferenced s' i
  Cleared-Unreferenced s s' i h u =
      let c =
        cleared_entry u.1 (s'.ptes u.0)
          (subst (λ o. ClearedPte o (s'.ptes u.0)) u.3 (h.ptes_cleared u.0)) in
      (u.0, c.0, Cleared-Holds s s' i u.0 h u.2, c.1, c.2 u.4)

  -- The memory after the referenced bit of the entry `e` at `p` is cleared.
  abbrev pub clear_at : Memory P F → ℕ → Pte → Memory P F
  clear_at s p e = record s { ptes = update s.ptes p (some (record e { referenced_bit = 0 })) }

  pub Cleared-clear_at :
      (s : Memory P F) (p : ℕ) (e : Pte) → s.ptes p ≡ some e → Cleared s (clear_at s p e)
  Cleared-clear_at s p e h = record {
    frame_rest = refl;
    ptes_cleared = λ q. elim (Bool-cases (p == q)) [
      | inl z ↦
          let same : p ≡ q = ground arith in
          subst (λ o. ClearedPte o ((clear_at s p e).ptes q)) (sym h ∙ ap s.ptes same)
            (rw (z) (inr refl))
      | inr z ↦ rw (z) (ClearedPte-refl (s.ptes q))
    ];
  }

  pub clear_at-Unreferenced :
      (s : Memory P F) (i p : ℕ) (e : Pte) → Holds s i p → Unreferenced (clear_at s p e) i
  clear_at-Unreferenced s i p e h =
      (p, record e { referenced_bit = 0 }, h, ground arith, λ k. absurd (omega arith))

  -- The referenced bit of the page in a frame.
  abbrev bit_of_page : Memory P F → Option ℕ → ℕ
  bit_of_page s none = 0
  bit_of_page s (some p) = bit_of_entry (s.ptes p)

  abbrev bit_of_frame : Memory P F → Option Frame → ℕ
  bit_of_frame s none = 0
  bit_of_frame s (some f) = bit_of_page s f.pte

  pub Holds-referenced :
      (s : Memory P F) (i p : ℕ) (e : Pte)
      → Holds s i p
      → s.ptes p ≡ some e
      → e.referenced_bit ≡ 1
      → ¬ Unreferenced s i
  Holds-referenced s i p e h g r u = u.4 (
      ap bit_of_entry (sym u.3)
      ∙ ap (bit_of_frame s) (sym u.2)
      ∙ ap (bit_of_frame s) h
      ∙ ap bit_of_entry g
      ∙ r)
