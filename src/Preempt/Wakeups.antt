-- ===== src/Preempt/Wakeups.antt =====
-- Wake-ups are first in, first out, and `wakeup_all` ends with an empty queue.
use os_library.Base.{
  ℕ, suc, ◌+◌, ◌<◌, ◌≡◌, refl, sym, ap, ◌∙◌, Option, none, some, true, false, List, [], ◌∷◌, ◌++◌,
  arith, length, update, if◌then◌else◌, All, is_some,
}
use mathlib.Core.List.{append-nil, append_assoc}
use os_library.Preempt.Slots.{add_to_queue_tail}
use os_library.Preempt.Slots.Fifo.{layout, has, add_to_queue_tail-layout}
use os_library.Preempt.State.{
  thread_max_threads, Thread, WaitQueue, State, returns, uninterrupted, thread_at, modify_thread,
  wait_queue_at,
}
use os_library.Preempt.WaitQueues.{wake_first, wakeup, wakeup_loop, wakeup_all, thread_wakeup}

abbrev pub queue_of : List ℕ → ℕ → WaitQueue
queue_of ws n = record { waiting = ws; size = n }

abbrev pub awake : Thread → Thread
awake t = record t { sleeping = false; waiting_on = none }

abbrev pub awake? : Option Thread → Option Thread
awake? none = none
awake? (some t) = some (awake t)

-- The state after the thread `awoken` was taken from the head of `q`.
abbrev pub woken : ℕ → ℕ → List ℕ → ℕ → State → State
woken q awoken rest n s = record s {
  created_threads = update s.created_threads awoken (awake? (s.created_threads awoken));
  ready_queue = add_to_queue_tail s.ready_queue awoken;
  wait_queues = update s.wait_queues q (some (queue_of rest n));
}

-- A thread with a record.
abbrev pub Exists : State → ℕ → Type 0
Exists s t = (t < thread_max_threads) × (is_some (s.created_threads t) ≡ true)

-- `wakeup` of a queue with waiters takes its head, and puts that thread behind the ready queue.
pub wakeup-cons :
    (q awoken n : ℕ) (rest : List ℕ) (s : State)
    → s.wait_queues q ≡ some (queue_of (awoken ∷ rest) (suc n))
    → Exists s awoken
    → wakeup (some q) s ≡ returns 1 (woken q awoken rest n s)
unfolding wakeup uninterrupted wait_queue_at wake_first modify_thread thread_at
wakeup-cons q awoken n rest s e h = ground arith

pub wakeup-nil :
    (q n : ℕ) (s : State) → s.wait_queues q ≡ some (queue_of [] n) → wakeup (some q) s ≡ returns 0 s
unfolding wakeup uninterrupted wait_queue_at
wakeup-nil q n s e = ground arith

-- The threads `ws` are taken from `q` one after the other.
abbrev pub wake_each : ℕ → List ℕ → State → State
wake_each q [] s = s
wake_each q (w ∷ ws) s = wake_each q ws (woken q w ws (length ws) s)

Exists-woken :
    (q w n t : ℕ) (rest : List ℕ) (s : State) → Exists s t → Exists (woken q w rest n s) t
Exists-woken q w n t rest s h = ground arith

All-woken :
    (q w n : ℕ) (rest ts : List ℕ) (s : State)
    → All (Exists s) ts
    → All (Exists (woken q w rest n s)) ts
All-woken q w n rest [] s h = tt
All-woken q w n rest (t ∷ ts) s h = (Exists-woken q w n t rest s h.0, All-woken q w n rest ts s h.1)

-- The loop of `wakeup_all` ends, and wakes the whole queue in order.
wakeup_loop_lem :
    (ws : List ℕ) (q count : ℕ) (s : State)
    → s.wait_queues q ≡ some (queue_of ws (length ws))
    → All (Exists s) ws
    → wakeup_loop (length ws) q count s ≡ returns (count + length ws) (wake_each q ws s)
unfolding wakeup_loop wait_queue_at
wakeup_loop_lem [] q count s e h = ground arith
wakeup_loop_lem (w ∷ ws) q count s e h = ground (
  arith,
  wakeup-cons q w (length ws) ws s e h.0,
  wakeup_loop_lem ws q (count + 1) (woken q w ws (length ws) s) (ground arith)
      (All-woken q w (length ws) ws ws s h.1),
)

wake_each-queue :
    (ws : List ℕ) (q : ℕ) (s : State)
    → s.wait_queues q ≡ some (queue_of ws (length ws))
    → (wake_each q ws s).wait_queues q ≡ some (queue_of [] 0)
wake_each-queue [] q s e = e
wake_each-queue (w ∷ ws) q s e = wake_each-queue ws q _ (ground arith)

wake_each-ready :
    (ws : List ℕ) (q pad : ℕ) (xs : List ℕ) (s : State)
    → s.ready_queue ≡ layout xs (length ws + pad)
    → (wake_each q ws s).ready_queue ≡ layout (xs ++ ws) pad
wake_each-ready [] q pad xs s e =
    e ∙ ap (layout xs) (omega arith) ∙ ap (λ l. layout l pad) (sym (append-nil xs))
wake_each-ready (w ∷ ws) q pad xs s e =
    let here : add_to_queue_tail s.ready_queue w ≡ layout (xs ++ w ∷ []) (length ws + pad) =
      ap (λ r. add_to_queue_tail r w) (e ∙ ap (layout xs) (omega arith))
      ∙ add_to_queue_tail-layout xs (length ws + pad) w in
    wake_each-ready ws q pad (xs ++ w ∷ []) (woken q w ws (length ws) s) here
    ∙ ap (λ l. layout l pad) (append_assoc xs (w ∷ []) ws)

abbrev woken_record : List ℕ → State → ℕ → Option Thread
woken_record ws s i = if has ws i then awake? (s.created_threads i) else s.created_threads i

wake_each-created :
    (ws : List ℕ) (q : ℕ) (s : State) (i : ℕ)
    → (wake_each q ws s).created_threads i ≡ woken_record ws s i
wake_each-created [] q s i = refl
wake_each-created (w ∷ ws) q s i =
    ground (arith, wake_each-created ws q (woken q w ws (length ws) s) i)

wake_each-rest :
    (ws : List ℕ) (q : ℕ) (s : State)
    → ((wake_each q ws s).running_thread ≡ s.running_thread)
      × ((wake_each q ws s).interrupts ≡ s.interrupts)
      × ((wake_each q ws s).locks ≡ s.locks)
wake_each-rest [] q s = (refl, refl, refl)
wake_each-rest (w ∷ ws) q s = wake_each-rest ws q (woken q w ws (length ws) s)

-- What holds when all the waiters `ws` of `q` were woken in `s` and the calls ended in `t`.
pub record IsAwoken (q : ℕ) (ws ready : List ℕ) (s t : State) : Type 0 where
  pub emptied : t.wait_queues q ≡ some (queue_of [] 0)
  pub queued :
      (pad : ℕ)
      → s.ready_queue ≡ layout ready (length ws + pad)
      → t.ready_queue ≡ layout (ready ++ ws) pad
  pub records : (i : ℕ) → t.created_threads i ≡ woken_record ws s i
  pub runs_on : t.running_thread ≡ s.running_thread
  pub interrupts_kept : t.interrupts ≡ s.interrupts

-- `thread_wakeup` with `all` set, on a queue whose threads exist and whose size counts them:
-- it returns their number, the queue is empty, the threads are awake, and, as far as the ready
-- queue has room, they stand behind it in the order in which they fell asleep.
pub thread_wakeup_everyone :
    (q : ℕ) (ws ready : List ℕ) (s : State)
    → s.wait_queues q ≡ some (queue_of ws (length ws))
    → All (Exists s) ws
    → (t : State) × (thread_wakeup (some q) true s ≡ returns (length ws) t)
      × IsAwoken q ws ready s t
unfolding thread_wakeup wakeup_all uninterrupted wait_queue_at
thread_wakeup_everyone q ws ready s e h =
    let off : State = record s { interrupts = false } in
    let t : State = record (wake_each q ws off) { interrupts = s.interrupts } in
    (
      t,
      ground (arith, wakeup_loop_lem ws q 0 off e h, wake_each-rest ws q off),
      record {
        emptied = wake_each-queue ws q off e;
        queued = λ pad r. wake_each-ready ws q pad ready off r;
        records = λ i. wake_each-created ws q off i;
        runs_on = (wake_each-rest ws q off).0;
        interrupts_kept = refl;
      },
    )

-- `thread_wakeup` with `all` clear wakes at most one thread: the one that has slept longest.
pub thread_wakeup-one :
    (q : ℕ) (ws : List ℕ) (s : State)
    → s.wait_queues q ≡ some (queue_of ws (length ws))
    → All (Exists s) ws
    → thread_wakeup (some q) false s
      ≡ (elim ws [ [] ↦ returns 0 s | w ∷ rest ↦ returns 1 (woken q w rest (length rest) s) ])
unfolding thread_wakeup uninterrupted
thread_wakeup-one q [] s e h = ground (arith, wakeup-nil q 0 (record s { interrupts = false }) e)
thread_wakeup-one q (w ∷ ws) s e h =
    ground (arith, wakeup-cons q w (length ws) ws (record s { interrupts = false }) e h.0)
