-- ===== src/Cooperative/Yields.antt =====
-- A1-Cooperative-Threads/thread.c: any sequence of yields does what it does on a queue.
use os_library.Base.{
  ℕ, zero, suc, ◌≡◌, refl, sym, ap, subst, ◌∙◌, Option, none, some, true, false, List, [], ◌∷◌,
  ◌++◌, arith, All, Bool-cases, inl, inr, if◌then◌else◌, ◌==◌,
}
use os_library.Base.Int.{pos, negsuc}
use os_library.Base.Switching.{
  Switching, returns, switches, gone, exits, fault, spins, departs, and_then,
}
use os_library.Preempt.Slots.{find_index_in_queue, remove_from_queue, first_slot}
use os_library.Preempt.Slots.Fifo.{
  layout, has, without, shift_left-layout, find-remove, find-missing,
}
use os_library.Base.Members.{
  has-snoc, Distinct-snoc, All-snoc, has-without, without-absent, Distinct-without, All-without,
  All-has,
}
use os_library.Preempt.State.{Tid, thread_any, thread_invalid, thread_none}
use os_library.Cooperative.State.{State}
use os_library.Cooperative.Threads.{
  hand_over, after_any, after_want, switch_over, yield_any, yield_want, thread_yield,
}
use os_library.Cooperative.Scheduling.{
  CanRun, IsRunnable, switched, HandsOver, hand_over-layout, switch_over-HandsOver, after_any-alive,
  after_want-alive, CanRun-switched,
}

-- What a yield is to do with the running thread and the ready queue.
abbrev pub scheduled : Tid → ℕ × List ℕ → ℕ × List ℕ
scheduled (pos want) (r, q) = if has q want then (want, without q want ++ r ∷ []) else (r, q)
scheduled (negsuc zero) (r, []) = (r, [])
scheduled (negsuc zero) (r, x ∷ q) = (x, q ++ r ∷ [])
scheduled (negsuc (suc k)) (r, q) = (r, q)

yield_to-HandsOver :
    (index n pad : ℕ) (rest : List ℕ) (refused : Tid) (s : State)
    → remove_from_queue index s.ready_queue ≡ layout rest (suc pad)
    → CanRun s s.running_thread
    → CanRun s n
    → s.zombie_stack_addr ≡ none
    → s.returning_from_exit ≡ false
    → HandsOver n (switched n (rest ++ s.running_thread ∷ []) pad s) (
        and_then
          (hand_over (some index) n s)
          (λ _. switch_over s.running_thread refused after_want n))
      × HandsOver n (switched n (rest ++ s.running_thread ∷ []) pad s) (
          and_then
            (hand_over (some index) n s)
            (λ _. switch_over s.running_thread refused after_any n))
yield_to-HandsOver index n pad rest refused s e r h z x =
    let t = record s {
      running_thread = n;
      ready_queue = layout (rest ++ s.running_thread ∷ []) pad;
    } in
    let moved = hand_over-layout index n pad rest s e h in
    (
      simp (moved) (
          switch_over-HandsOver s.running_thread n refused after_want t after_want-alive r h h z x),
      simp (moved)
          (switch_over-HandsOver s.running_thread n refused after_any t after_any-alive r h h z x),
    )

-- A yield to a ready thread runs it, with the caller behind the other ready threads, which keep their order, and the
-- caller's context saved. It answers the id of that thread when the caller runs again in a runnable state.
pub thread_yield-HandsOver :
    (s : State) (n pad : ℕ) (ready : List ℕ)
    → IsRunnable s ready pad
    → has ready n ≡ true
    → HandsOver n
        (switched n (without ready n ++ s.running_thread ∷ []) pad s)
        (thread_yield (pos n) s)
unfolding thread_yield yield_want
thread_yield-HandsOver s n pad ready v h =
    let (i, found, gone') = find-remove ready pad n h in
    let other : (s.running_thread == n) ≡ false = ground (arith, v.apart, h) in
    let at : find_index_in_queue s.ready_queue n ≡ some i =
      ap (λ q. find_index_in_queue q n) v.laid_out ∙ found in
    let left : remove_from_queue i s.ready_queue ≡ layout (without ready n) (suc pad) =
      ap (remove_from_queue i) v.laid_out ∙ gone' in
    simp (other, at)
      (yield_to-HandsOver i n pad (without ready n) thread_invalid s left v.runs
        (All-has (CanRun s) ready n v.queued h) v.no_stack v.no_exit).0

remove_first :
    (x : ℕ) (rest : List ℕ) (pad : ℕ)
    → remove_from_queue 0 (layout (x ∷ rest) pad) ≡ layout rest (suc pad)
unfolding remove_from_queue
remove_first x rest pad = shift_left-layout x rest pad

yield_any_eq :
    (s : State) (x : ℕ)
    → first_slot s.ready_queue ≡ some x
    → yield_any s
      ≡ and_then
          (hand_over (some 0) x s)
          (λ _. switch_over s.running_thread thread_none after_any x)
unfolding yield_any
yield_any_eq s x e = ground (arith, e)

yield_any-alone :
    (s : State) → first_slot s.ready_queue ≡ none → yield_any s ≡ returns thread_none s
unfolding yield_any
yield_any-alone s e = ground (arith, e)

pub thread_yield-any :
    (s : State) (x pad : ℕ) (rest : List ℕ)
    → IsRunnable s (x ∷ rest) pad
    → HandsOver x (switched x (rest ++ s.running_thread ∷ []) pad s) (thread_yield thread_any s)
unfolding thread_yield
thread_yield-any s x pad rest v =
    let at : first_slot s.ready_queue ≡ some x = ap first_slot v.laid_out in
    let left : remove_from_queue 0 s.ready_queue ≡ layout rest (suc pad) =
      ap (remove_from_queue 0) v.laid_out ∙ remove_first x rest pad in
    rw (yield_any_eq s x at)
      (yield_to-HandsOver 0 x pad rest thread_none s left v.runs v.queued.0 v.no_stack v.no_exit).1

All-switched :
    (s : State) (new pad : ℕ) (q ts : List ℕ)
    → All (CanRun s) ts
    → All (CanRun (switched new q pad s)) ts
All-switched s new pad q [] h = tt
All-switched s new pad q (t ∷ ts) h =
    (CanRun-switched s new pad t q h.0, All-switched s new pad q ts h.1)

switched-IsRunnable :
    (s : State) (ready : List ℕ) (n pad : ℕ)
    → IsRunnable s ready pad
    → has ready n ≡ true
    → IsRunnable
        (switched n (without ready n ++ s.running_thread ∷ []) pad s)
        (without ready n ++ s.running_thread ∷ [])
        pad
switched-IsRunnable s ready n pad v h =
    let others = without ready n in
    let q = others ++ s.running_thread ∷ [] in
    record {
      laid_out = refl;
      runs = CanRun-switched s n pad n q (All-has (CanRun s) ready n v.queued h);
      queued = All-switched s n pad q q (
          All-snoc (CanRun s) others s.running_thread (All-without (CanRun s) ready n v.queued)
            v.runs);
      apart = ground (
        arith,
        has-snoc others s.running_thread n,
        without-absent ready n v.distinct,
        v.apart,
        h,
      );
      distinct =
          Distinct-snoc others s.running_thread (Distinct-without ready n v.distinct)
            (has-without ready n s.running_thread v.apart);
      no_stack = refl;
      no_exit = v.no_exit;
    }

-- The state after a call that returned or gave up the processor.
abbrev pub next_state : Switching State Tid → Option State
next_state (returns a s) = some s
next_state (switches s k) = some s
next_state (gone s) = some s
next_state (exits s) = none
next_state fault = none
next_state (spins s) = none

departs-next_state :
    (o : Switching State Tid) (t : State) → departs o ≡ some t → next_state o ≡ some t
departs-next_state (returns a s) t e = absurd (cc)
departs-next_state (switches s k) t e = e
departs-next_state (gone s) t e = e
departs-next_state (exits s) t e = absurd (cc)
departs-next_state fault t e = absurd (cc)
departs-next_state (spins s) t e = absurd (cc)

-- The running thread and the ready queue of a runnable state.
abbrev pub Represents : Option State → ℕ × List ℕ → ℕ → Type 0
Represents o view pad =
    (t : State) × (o ≡ some t) × (t.running_thread ≡ view.0) × IsRunnable t view.1 pad

yield_pos-Represents :
    (want : ℕ) (s : State) (ready : List ℕ) (pad : ℕ)
    → IsRunnable s ready pad
    → Represents
        (next_state (thread_yield (pos want) s))
        (scheduled (pos want) (s.running_thread, ready))
        pad
unfolding thread_yield yield_want
yield_pos-Represents want s ready pad v = elim (Bool-cases (has ready want)) [
  | inl h ↦
      let t = switched want (without ready want ++ s.running_thread ∷ []) pad s in
      let went =
        departs-next_state (thread_yield (pos want) s) t
          (thread_yield-HandsOver s want pad ready v h).0 in
      simp (h) (t, went, refl, switched-IsRunnable s ready want pad v h)
  | inr h ↦
      let missing : find_index_in_queue s.ready_queue want ≡ none =
        ap (λ q. find_index_in_queue q want) v.laid_out ∙ find-missing ready pad want h in
      let back : next_state (yield_want want s) ≡ some s = ground (arith, missing) in
      simp (h) (s, back, refl, v)
]

first_slot-empty : (pad : ℕ) → first_slot (layout [] pad) ≡ none
first_slot-empty zero = refl
first_slot-empty (suc pad) = refl

yield-Represents :
    (want : Tid) (s : State) (ready : List ℕ) (pad : ℕ)
    → IsRunnable s ready pad
    → Represents (next_state (thread_yield want s)) (scheduled want (s.running_thread, ready)) pad
unfolding thread_yield
yield-Represents (pos want) s ready pad v = yield_pos-Represents want s ready pad v
yield-Represents (negsuc zero) s [] pad v = (
  s,
  ap next_state (yield_any-alone s (ap first_slot v.laid_out ∙ first_slot-empty pad)),
  refl,
  v,
)
yield-Represents (negsuc zero) s (x ∷ rest) pad v =
    let t = switched x (rest ++ s.running_thread ∷ []) pad s in
    let first : has (x ∷ rest) x ≡ true = ground arith in
    let left : without (x ∷ rest) x ≡ rest = ground arith in
    (
      t,
      departs-next_state (thread_yield thread_any s) t (thread_yield-any s x pad rest v).0,
      refl,
      subst
          (λ l.
            IsRunnable (switched x (l ++ s.running_thread ∷ []) pad s) (l ++ s.running_thread ∷ [])
              pad)
          left (switched-IsRunnable s (x ∷ rest) x pad v first),
    )
yield-Represents (negsuc (suc zero)) s ready pad v = (s, refl, refl, v)
yield-Represents (negsuc (suc (suc k))) s ready pad v = (s, refl, refl, v)

-- Yields in a row, each by the thread that runs then.
pub play : List Tid → State → Option State
play [] s = some s
play (want ∷ wants) s = elim (next_state (thread_yield want s)) [
  | none ↦ none
  | some t ↦ play wants t
]

abbrev pub replay : List Tid → ℕ × List ℕ → ℕ × List ℕ
replay [] view = view
replay (want ∷ wants) view = replay wants (scheduled want view)

play-cons :
    (want : Tid) (wants : List Tid) (s t : State)
    → next_state (thread_yield want s) ≡ some t
    → play (want ∷ wants) s ≡ play wants t
unfolding play
play-cons want wants s t e = ground (arith, e)

-- Any sequence of yields, each by the thread that runs then, does from a runnable state what it does on a queue of threads:
-- none fails, the thread that the queue says runs at the end, the ready queue is in the order that it says, and the state
-- is runnable. A yield to an id takes it from the queue, one to any thread takes the first, the caller goes to the end, and
-- with no such thread ready nothing happens.
pub play-Represents :
    (wants : List Tid) (s : State) (ready : List ℕ) (pad : ℕ)
    → IsRunnable s ready pad
    → Represents (play wants s) (replay wants (s.running_thread, ready)) pad
unfolding play
play-Represents [] s ready pad v = (s, refl, refl, v)
play-Represents (want ∷ wants) s ready pad v =
    let first = yield-Represents want s ready pad v in
    let view = scheduled want (s.running_thread, ready) in
    let rest = play-Represents wants first.0 view.1 pad first.3 in
    let same : (first.0.running_thread, view.1) ≡ view = ap (λ r. (r, view.1)) first.2 in
    subst (λ o. Represents o (replay wants view) pad) (sym (play-cons want wants s first.0 first.1))
      (subst (λ w. Represents (play wants first.0) (replay wants w) pad) same rest)
