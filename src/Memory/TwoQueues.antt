-- ===== src/Memory/TwoQueues.antt =====
-- s2q.c: the simplified 2Q policy.
use os_library.Base.{
  ℕ, zero, suc, ◌/◌, Option, none, some, Bool, true, false, not, ltb, if◌then◌else◌,
}
use os_library.Base.Int.{ℤ, pos, negsuc, succ_ℤ, pred_ℤ}
use os_library.Memory.State.{
  M, ◌>>=◌, ◌>>◌, pure, get, modify, assert_that, from_option, frame_at, get_referenced,
  set_referenced,
}
use os_library.Memory.Lists.{
  Links, LinksM, next_of, prev_of, list_init, list_entry_is_linked, list_add_head, list_add_tail,
  list_del,
}
use os_library.Memory.Policies.{Policy}

-- The globals of s2q.c. The addresses of list entries: the heads of the two lists, then the `framelist_entry` of each
-- frame.
pub record S2q : Type 0 where
  pub threshold : ℕ
  pub links : Links
  pub am_size : ℤ
  pub a1_size : ℤ

abbrev pub am_head : ℕ
am_head = 0

abbrev pub a1_head : ℕ
a1_head = 1

abbrev pub framelist_entry : ℕ → ℕ
framelist_entry frame = suc (suc frame)

-- container_of(entry, struct frame, framelist_entry) - coremap, which no head has.
abbrev pub frame_of : ℕ → Option ℕ
frame_of zero = none
frame_of (suc zero) = none
frame_of (suc (suc frame)) = some frame

abbrev pub size_positive : ℤ → Bool
size_positive (pos n) = ltb 0 n
size_positive (negsuc n) = false

-- size > threshold
abbrev pub size_above : ℤ → ℕ → Bool
size_above (pos n) t = ltb t n
size_above (negsuc n) t = false

module _ {F : Type 0} where
  abbrev pub with_links : {A : Type 0} → Option (A × Links) → M S2q F A
  with_links none s = none
  with_links (some (a, l)) s = some (a, record s { policy = record s.policy { links = l } })

  abbrev pub on_links : {A : Type 0} → LinksM A → M S2q F A
  on_links m s = with_links (m s.policy.links) s

  abbrev pub change_am : (ℤ → ℤ) → M S2q F (Unit {0})
  change_am f = modify (λ s. record s { policy = record s.policy { am_size = f s.policy.am_size } })

  abbrev pub change_a1 : (ℤ → ℤ) → M S2q F (Unit {0})
  change_a1 f = modify (λ s. record s { policy = record s.policy { a1_size = f s.policy.a1_size } })

  abbrev pub assert_linked : ℕ → M S2q F (Unit {0})
  assert_linked entry = do linked ← on_links (list_entry_is_linked entry); assert_that linked

  abbrev pub assert_unlinked : ℕ → M S2q F (Unit {0})
  assert_unlinked entry = do
    linked ← on_links (list_entry_is_linked entry)
    assert_that (not linked)

  -- `place_tail_Am`, `place_tail_A1`, `place_head_Am` and `place_head_A1`
  unfoldable pub place_tail_am : ℕ → M S2q F (Unit {0})
  place_tail_am frame = do
    on_links (list_add_tail am_head (framelist_entry frame))
    change_am succ_ℤ
    assert_linked (framelist_entry frame)

  unfoldable pub place_tail_a1 : ℕ → M S2q F (Unit {0})
  place_tail_a1 frame = do
    on_links (list_add_tail a1_head (framelist_entry frame))
    change_a1 succ_ℤ
    assert_linked (framelist_entry frame)

  unfoldable pub place_head_am : ℕ → M S2q F (Unit {0})
  place_head_am frame = do
    on_links (list_add_head am_head (framelist_entry frame))
    change_am succ_ℤ
    assert_linked (framelist_entry frame)

  unfoldable pub place_head_a1 : ℕ → M S2q F (Unit {0})
  place_head_a1 frame = do
    on_links (list_add_head a1_head (framelist_entry frame))
    change_a1 succ_ℤ
    assert_linked (framelist_entry frame)

  -- `evict_head_A1`
  unfoldable pub evict_head_a1 : M S2q F ℕ
  evict_head_a1 = do
    s ← get
    assert_that (size_positive s.policy.a1_size)
    head ← on_links (next_of a1_head)
    frame ← from_option (frame_of head)
    f ← frame_at frame
    assert_that f.in_use
    on_links (list_del head)
    change_a1 pred_ℤ
    assert_unlinked head
    pure frame

  -- `evict_tail_Am`
  unfoldable pub evict_tail_am : M S2q F ℕ
  evict_tail_am = do
    s ← get
    assert_that (size_positive s.policy.am_size)
    tail ← on_links (prev_of am_head)
    assert_linked tail
    frame ← from_option (frame_of tail)
    f ← frame_at frame
    assert_that f.in_use
    referenced ← get_referenced f.pte
    assert_that referenced
    on_links (list_del tail)
    change_am pred_ℤ
    assert_unlinked tail
    pure frame

  -- `evict_from_A1` and `evict_from_Am`
  unfoldable pub evict_from_a1 : ℕ → M S2q F (Unit {0})
  evict_from_a1 frame = do
    on_links (list_del (framelist_entry frame))
    assert_unlinked (framelist_entry frame)
    change_a1 pred_ℤ

  unfoldable pub evict_from_am : ℕ → M S2q F (Unit {0})
  evict_from_am frame = do
    on_links (list_del (framelist_entry frame))
    assert_unlinked (framelist_entry frame)
    change_am pred_ℤ

  -- `s2q_evict`
  unfoldable pub s2q_evict : M S2q F ℕ
  s2q_evict = do
    s ← get
    ret ← if size_above s.policy.a1_size s.policy.threshold then evict_head_a1 else evict_tail_am
    f ← frame_at ret
    set_referenced f.pte false
    pure ret

  -- `s2q_ref`
  unfoldable pub s2q_ref : ℕ → ℕ → M S2q F (Unit {0})
  s2q_ref frame vaddr = do
    f ← frame_at frame
    referenced ← get_referenced f.pte
    linked ← on_links (list_entry_is_linked (framelist_entry frame))
    if referenced
        then (evict_from_am frame >> place_head_am frame)
        else if linked
        then (do evict_from_a1 frame; place_head_am frame; set_referenced f.pte true)
        else place_tail_a1 frame

  -- `s2q_init` and `s2q_cleanup`
  unfoldable pub s2q_init : M S2q F (Unit {0})
  s2q_init = do
    change_am (λ _. pos 0)
    change_a1 (λ _. pos 0)
    modify (λ s. record s { policy = record s.policy { threshold = s.memsize / 10 } })
    on_links (list_init am_head)
    on_links (list_init a1_head)

  unfoldable pub s2q_cleanup : M S2q F (Unit {0})
  s2q_cleanup = do on_links (list_init am_head); on_links (list_init a1_head)

  abbrev pub s2q : Policy S2q F
  s2q = record { evict_func = s2q_evict; ref_func = s2q_ref }
