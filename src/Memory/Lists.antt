-- ===== src/Memory/Lists.antt =====
-- list.h: circular lists through entries that know their neighbours.
use os_library.Base.{ℕ, Option, none, some, Bool, is_some, update}
use os_library.Base.Faulting.{Faulting, ◌>>=◌, ◌>>◌, pure, get, modify, from_option}

-- The fields of every `list_entry`, by the address of the entry.
pub record Links : Type 0 where
  pub next : ℕ → Option ℕ
  pub prev : ℕ → Option ℕ

abbrev pub LinksM : Type 0 → Type 0
LinksM A = Faulting Links A

abbrev pub put_next : ℕ → Option ℕ → LinksM (Unit {0})
put_next entry v = modify (λ s. record s { next = update s.next entry v })

abbrev pub put_prev : ℕ → Option ℕ → LinksM (Unit {0})
put_prev entry v = modify (λ s. record s { prev = update s.prev entry v })

-- entry->next and entry->prev where the code follows them.
abbrev pub next_of : ℕ → LinksM ℕ
next_of entry s = from_option (s.next entry) s

abbrev pub prev_of : ℕ → LinksM ℕ
prev_of entry s = from_option (s.prev entry) s

-- `list_init`
unfoldable pub list_init : ℕ → LinksM (Unit {0})
list_init head = do put_next head (some head); put_prev head (some head)

-- `list_entry_init`
unfoldable pub list_entry_init : ℕ → LinksM (Unit {0})
list_entry_init entry = do put_next entry none; put_prev entry none

-- `list_entry_is_linked`
unfoldable pub list_entry_is_linked : ℕ → LinksM Bool
list_entry_is_linked entry = do s ← get; pure (is_some (s.next entry))

-- `__list_insert`
unfoldable pub list_insert : ℕ → ℕ → ℕ → LinksM (Unit {0})
list_insert entry before after = do
  put_prev after (some entry)
  put_next entry (some after)
  put_prev entry (some before)
  put_next before (some entry)

-- `list_add_head`
unfoldable pub list_add_head : ℕ → ℕ → LinksM (Unit {0})
list_add_head head entry = do after ← next_of head; list_insert entry head after

-- `list_add_tail`
unfoldable pub list_add_tail : ℕ → ℕ → LinksM (Unit {0})
list_add_tail head entry = do before ← prev_of head; list_insert entry before head

-- `list_del`
unfoldable pub list_del : ℕ → LinksM (Unit {0})
list_del entry = do
  after ← next_of entry
  s ← get
  put_prev after (s.prev entry)
  before ← prev_of entry
  t ← get
  put_next before (t.next entry)
  list_entry_init entry
