-- ===== src/Cooperative/Ends.antt =====
-- A1-Cooperative-Threads/thread.c: what becomes of a process whose threads end or are killed.
use os_library.Base.{
  ℕ, zero, suc, ◌<◌, ◌≡◌, refl, sym, ap, ◌∙◌, ◌≢◌, Option, none, some, true, false, List, [], ◌∷◌,
  ◌++◌, arith, Option-cases, inl, inr, ◌==◌, ==-eq-false, update, ltb, is_some,
}
use os_library.Base.Int.{pos}
use os_library.Base.Switching.{Switching, returns, exits, fault}
use os_library.Preempt.Slots.{Slots, find_index_in_queue, remove_from_queue, first_slot}
use os_library.Preempt.Slots.Fifo.{
  layout, has, without, find-missing, find-remove, add_to_queue_tail-layout,
}
use os_library.Base.Members.{Distinct, Distinct-snoc, Distinct-without, has-without, All-has}
use os_library.Preempt.State.{thread_invalid}
use os_library.Cooperative.State.{
  Thread, State, thread_at, modify_thread, free_stack, remove_at, find_tail_of_queue,
}
use os_library.Cooperative.Threads.{
  thread_exit, exit_to_tail, thread_kill, thread_yield, yield_want, hand_over, switch_over,
  after_want, free_zombie, exit_if_killed,
}
use os_library.Cooperative.Scheduling.{
  IsRunnable, CanRun, is_alive, saved?, kept, modify_thread-saved,
}

-- The tail that was found is one of the threads, and is not found in the queue any more.
abbrev IsLost : List ℕ → Option ℕ × Slots → Type 0
IsLost ids (none, q) = Unit
IsLost ids (some t, q) = (has ids t ≡ true) × (find_index_in_queue q t ≡ none)

tail_later :
    (x : ℕ) (ids : List ℕ) (r : Option ℕ × Slots)
    → has ids x ≡ false
    → IsLost ids r
    → IsLost (x ∷ ids) (r.0, some x ∷ r.1)
unfolding find_index_in_queue
tail_later x ids (none, q) h l = tt
tail_later x ids (some t, q) h l =
    let other : (x == t) ≡ false = ground (arith, h, l.0) in
    (ground (arith, l.0, other), ground (arith, l.1, other))

find_tail-IsLost :
    (x : ℕ) (xs : List ℕ) (pad : ℕ)
    → Distinct (x ∷ xs)
    → IsLost (x ∷ xs) (find_tail_of_queue (layout (x ∷ xs) pad))
unfolding find_tail_of_queue
find_tail-IsLost x [] zero d = tt
find_tail-IsLost x [] (suc pad) d = (ground arith, find-missing [] (suc (suc pad)) x refl)
find_tail-IsLost x (y ∷ xs) pad d = tail_later x (y ∷ xs) _ d.0 (find_tail-IsLost y xs pad d.1)

tail_lost-faults :
    (s : State) (ids : List ℕ) (r : Option ℕ × Slots)
    → find_tail_of_queue s.ready_queue ≡ r
    → IsLost ids r
    → exit_to_tail s ≡ fault
unfolding exit_to_tail thread_at remove_at
tail_lost-faults s ids (none, q) e l = ground (arith, e)
tail_lost-faults s ids (some t, q) e l = ground (arith, e, l.1)

exit_to_tail-faults :
    (s : State) (x pad : ℕ) (xs : List ℕ)
    → s.ready_queue ≡ layout (x ∷ xs) pad
    → Distinct (x ∷ xs)
    → thread_exit s ≡ fault
unfolding thread_exit
exit_to_tail-faults s x pad xs e d =
    let busy : is_some (first_slot s.ready_queue) ≡ true = ground (arith, e) in
    simp (busy)
      (tail_lost-faults s (x ∷ xs) _ (ap find_tail_of_queue e) (find_tail-IsLost x xs pad d))

first_slot-none : (pad : ℕ) → first_slot (layout [] pad) ≡ none
first_slot-none zero = refl
first_slot-none (suc pad) = refl

abbrev pub ended : List ℕ → State → Switching State (Unit {0})
ended [] s = exits s
ended (x ∷ xs) s = fault

-- In a runnable state `thread_exit` ends the process when no other thread is ready, and otherwise always writes before the
-- ready queue: the id that it takes from the tail of the queue is looked up in the queue again, is not found, and the index
-- -1 is removed.
pub thread_exit-Ends :
    (s : State) (ready : List ℕ) (pad : ℕ) → IsRunnable s ready pad → thread_exit s ≡ ended ready s
unfolding thread_exit
thread_exit-Ends s [] pad v =
    let idle : first_slot s.ready_queue ≡ none = ap first_slot v.laid_out ∙ first_slot-none pad in
    simp (idle) refl
thread_exit-Ends s (x ∷ xs) pad v = exit_to_tail-faults s x pad xs v.laid_out v.distinct

hand_over-existing :
    (index new pad : ℕ) (rest : List ℕ) (s : State) (th : Thread)
    → remove_from_queue index s.ready_queue ≡ layout rest (suc pad)
    → new < 1024
    → s.created_threads new ≡ some th
    → hand_over (some index) new s
      ≡ returns tt (record s {
        running_thread = new;
        ready_queue = layout (rest ++ s.running_thread ∷ []) pad;
      })
unfolding hand_over thread_at remove_at
hand_over-existing index new pad rest s th e h g =
    ground (arith, g, add_to_queue_tail-layout rest pad s.running_thread)

after_killed :
    (want x pad : ℕ) (xs : List ℕ) (u : State) (th : Thread)
    → u.ready_queue ≡ layout (x ∷ xs) pad
    → Distinct (x ∷ xs)
    → u.running_thread < 1024
    → u.created_threads u.running_thread ≡ some th
    → th.killed ≡ true
    → u.zombie_stack_addr ≡ none
    → u.returning_from_exit ≡ false
    → after_want want u ≡ fault
unfolding after_want free_zombie free_stack exit_if_killed thread_at
after_killed want x pad xs u th e d l c k z r =
    let low : ltb u.running_thread 1024 ≡ true = ground arith in
    let lost =
      exit_to_tail-faults (record u { zombie_stack_addr = none; returning_from_exit = false }) x pad
        xs e d in
    simp (z, r, low, c, k, lost) refl

after_killed_any :
    (want old pad : ℕ) (rest : List ℕ) (u : State) (th : Thread)
    → u.ready_queue ≡ layout (rest ++ old ∷ []) pad
    → Distinct (rest ++ old ∷ [])
    → u.running_thread < 1024
    → u.created_threads u.running_thread ≡ some th
    → th.killed ≡ true
    → u.zombie_stack_addr ≡ none
    → u.returning_from_exit ≡ false
    → after_want want u ≡ fault
after_killed_any want old pad [] u th e d l c k z r =
    after_killed want old pad [] u th e d l c k z r
after_killed_any want old pad (x ∷ xs) u th e d l c k z r =
    after_killed want x pad (xs ++ old ∷ []) u th e d l c k z r

abbrev marked : ℕ → Thread → State → State
marked n th s = record s {
  created_threads = update s.created_threads n (some (record th { killed = true }));
}

thread_kill-marks :
    (k : ℕ) (s : State) (th : Thread)
    → suc k < 1024
    → suc k ≢ s.running_thread
    → s.created_threads (suc k) ≡ some th
    → thread_kill (pos (suc k)) s ≡ returns (pos (suc k)) (marked (suc k) th s)
unfolding thread_kill modify_thread thread_at
thread_kill-marks k s th h o e =
    let low : ltb (suc k) 1024 ≡ true = ground arith in
    let other : (suc k == s.running_thread) ≡ false = ==-eq-false o in simp (low, e, other) refl

-- The switch to a thread that was killed, from a caller that was not.
switch_over-killed :
    (old new pad : ℕ) (rest : List ℕ) (u : State) (th : Thread)
    → u.ready_queue ≡ layout (rest ++ old ∷ []) pad
    → Distinct (rest ++ old ∷ [])
    → u.running_thread ≡ new
    → new < 1024
    → old ≢ new
    → CanRun u old
    → u.created_threads new ≡ some th
    → th.killed ≡ true
    → u.zombie_stack_addr ≡ none
    → u.returning_from_exit ≡ false
    → switch_over old thread_invalid after_want new u ≡ fault
unfolding switch_over
switch_over-killed old new pad rest u th e d run low o alive c k z r =
    let there : (kept old u).created_threads u.running_thread ≡ some th =
      ap (λ i. update u.created_threads old (saved? (u.created_threads old)) i) run
      ∙ ground (arith, c, o) in
    let lost =
      after_killed_any new old pad rest (kept old u) th e d (omega (arith, run, low)) there k z r in
    simp (modify_thread-saved old u alive, lost) refl

-- In a runnable state a ready thread other than thread 0 can be killed, which answers its id; but a yield to it then ends it
-- from within `thread_yield` of the caller, through `thread_exit`, which writes before the ready queue.
pub thread_kill-Strands :
    (k pad : ℕ) (s : State) (ready : List ℕ)
    → IsRunnable s ready pad
    → has ready (suc k) ≡ true
    → (t : State) × (thread_kill (pos (suc k)) s ≡ returns (pos (suc k)) t)
      × (thread_yield (pos (suc k)) t ≡ fault)
unfolding thread_yield yield_want
thread_kill-Strands k pad s ready v h =
    let n = suc k in
    let alive : CanRun s n = All-has (CanRun s) ready n v.queued h in
    let other : (s.running_thread == n) ≡ false = ground (arith, v.apart, h) in
    let apart : s.running_thread ≢ n = λ e. absurd (ground (arith, other, e)) in
    elim (Option-cases (s.created_threads n)) [
      | inl e ↦ absurd (cc (alive.1, ap is_alive e))
      | inr (th, e) ↦
          let t = marked n th s in
          let (i, found, gone') = find-remove ready pad n h in
          let at : find_index_in_queue s.ready_queue n ≡ some i =
            ap (λ q. find_index_in_queue q n) v.laid_out ∙ found in
          let left : remove_from_queue i s.ready_queue ≡ layout (without ready n) (suc pad) =
            ap (remove_from_queue i) v.laid_out ∙ gone' in
          let self : t.created_threads n ≡ some (record th { killed = true }) = ground arith in
          let moved =
            hand_over-existing i n pad (without ready n) t (record th { killed = true }) left
              alive.0 self in
          let old : CanRun t s.running_thread = (v.runs.0, ground (arith, v.runs.1, apart)) in
          let lost =
            switch_over-killed s.running_thread n pad (without ready n)
              (record t {
                running_thread = n;
                ready_queue = layout (without ready n ++ s.running_thread ∷ []) pad;
              })
              (record th { killed = true }) refl
              (Distinct-snoc (without ready n) s.running_thread
                (Distinct-without ready n v.distinct)
                (has-without ready n s.running_thread v.apart))
              refl alive.0 apart old self refl v.no_stack v.no_exit in
          (
            t,
            thread_kill-marks k s th alive.0 (λ q. apart (sym q)) e,
            simp (other, at, moved, lost) refl,
          )
    ]
