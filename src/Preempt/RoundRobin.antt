-- ===== src/Preempt/RoundRobin.antt =====
-- Calls of `thread_yield(THREAD_ANY)`, by the program or by the timer's handler, give every ready thread its turn.
use os_library.Base.{
  ℕ, zero, suc, ◌≡◌, refl, sym, ap, ◌∙◌, subst, Option, none, some, Bool, true, false, not, All,
  ◌<◌, List, [], ◌∷◌, ◌++◌, arith, length,
}
use mathlib.Core.List.{append-nil, append_assoc}
use os_library.Base.Members.{All-snoc}
use os_library.Preempt.Slots.Fifo.{without}
use os_library.Preempt.State.{
  State, thread_any, thread_max_threads, Thread, Outcome, returns, switches, gone, exits, fault,
  spins, thread_at, interrupts_off,
}
use os_library.Preempt.Threads.{thread_routine_cleanup, free_zombie_stack}
use os_library.Preempt.Switch.{thread_yield}
use os_library.Base.Switching.{departs}
use os_library.Preempt.Scheduling.{
  IsRunnable, saved?, switched, thread_yield-any, switched-IsRunnable,
}

abbrev pub Turns : Type 0
Turns = Option (List ℕ × State)

abbrev log_turn : ℕ → Turns → Turns
log_turn i none = none
log_turn i (some (l, u)) = some (i ∷ l, u)

-- The state in which a call has returned.
abbrev returned : Outcome (Unit {0}) → Option State
returned (returns a u) = some u
returned (switches u k) = none
returned (gone u) = none
returned (exits u) = none
returned fault = none
returned (spins u) = none

abbrev cleaned_up : Option State → Option State
cleaned_up none = none
cleaned_up (some t) = returned (thread_routine_cleanup t)

-- The running thread calls `thread_yield(THREAD_ANY)`, and the thread that gets the processor goes through
-- `thread_routine_cleanup`, as every thread does that is switched to, started or resumed.
abbrev turn : State → Option State
turn s = cleaned_up (departs (thread_yield thread_any s))

-- `n` turns in a row: the ids that got the processor and went on, and the state at the end.
pub turns : ℕ → State → Turns
turns zero s = some ([], s)
turns (suc n) s = elim (turn s) [ none ↦ none | some t ↦ log_turn t.running_thread (turns n t) ]

-- A thread that was not killed.
abbrev is_alive : Option Thread → Bool
is_alive none = false
is_alive (some t) = not t.killed

abbrev pub IsAlive : State → ℕ → Type 0
IsAlive s t = is_alive (s.created_threads t) ≡ true

-- No thread has just exited, and neither the running nor a ready one was killed.
pub record IsQuiet (s : State) (ready : List ℕ) : Type 0 where
  pub no_zombie : s.zombie_tid ≡ none
  pub runner : IsAlive s s.running_thread
  pub others : All (IsAlive s) ready

is_alive-saved : (t : Option Thread) → is_alive (saved? t) ≡ is_alive t
is_alive-saved none = refl
is_alive-saved (some t) = refl

IsAlive-switched :
    (s : State) (new pad t : ℕ) (q : List ℕ) → IsAlive s t → IsAlive (switched new q pad s) t
IsAlive-switched s new pad t q h =
    ground (arith, is_alive-saved (s.created_threads s.running_thread))

All-IsAlive-switched :
    (s : State) (new pad : ℕ) (q ts : List ℕ)
    → All (IsAlive s) ts
    → All (IsAlive (switched new q pad s)) ts
All-IsAlive-switched s new pad q [] h = tt
All-IsAlive-switched s new pad q (t ∷ ts) h =
    (IsAlive-switched s new pad t q h.0, All-IsAlive-switched s new pad q ts h.1)

head-IsQuiet :
    (s : State) (x pad : ℕ) (rest : List ℕ)
    → IsQuiet s (x ∷ rest)
    → IsQuiet (switched x (rest ++ s.running_thread ∷ []) pad s) (rest ++ s.running_thread ∷ [])
head-IsQuiet s x pad rest h =
    let q = rest ++ s.running_thread ∷ [] in
    record {
      no_zombie = h.no_zombie;
      runner = IsAlive-switched s x pad x q h.others.0;
      others =
          All-IsAlive-switched s x pad q q
            (All-snoc (IsAlive s) rest s.running_thread h.others.1 h.runner);
    }

cleanup_alive :
    (s : State)
    → s.zombie_tid ≡ none
    → s.running_thread < thread_max_threads
    → IsAlive s s.running_thread
    → thread_routine_cleanup s ≡ returns tt (record s { interrupts = false })
unfolding thread_routine_cleanup free_zombie_stack thread_at interrupts_off
cleanup_alive s z lt h = ground arith

head-IsRunnable :
    (s : State) (x pad : ℕ) (rest : List ℕ)
    → IsRunnable s (x ∷ rest) pad
    → IsRunnable
        (switched x (rest ++ s.running_thread ∷ []) pad s)
        (rest ++ s.running_thread ∷ [])
        pad
head-IsRunnable s x pad rest v =
    let e : without (x ∷ rest) x ≡ rest = ground arith in
    subst
      (λ l.
        IsRunnable (switched x (l ++ s.running_thread ∷ []) pad s) (l ++ s.running_thread ∷ []) pad)
      e (switched-IsRunnable s (x ∷ rest) x pad v (ground arith))

turn_head :
    (s : State) (x pad : ℕ) (rest : List ℕ)
    → IsRunnable s (x ∷ rest) pad
    → IsQuiet s (x ∷ rest)
    → turn s ≡ some (switched x (rest ++ s.running_thread ∷ []) pad s)
turn_head s x pad rest v h =
    let t = switched x (rest ++ s.running_thread ∷ []) pad s in
    let quiet = head-IsQuiet s x pad rest h in
    let runnable = head-IsRunnable s x pad rest v in
    ap cleaned_up (thread_yield-any s x pad rest v)
    ∙ ap returned (cleanup_alive t quiet.no_zombie runnable.runs.0 quiet.runner)

-- The running thread and the ready queue after the threads `xs` had their turn.
abbrev rotated : ℕ → List ℕ → List ℕ → List ℕ
rotated r [] ys = r ∷ ys
rotated r (x ∷ xs) ys = rotated x xs (ys ++ r ∷ [])

rotated-snoc : (r y : ℕ) (xs ys : List ℕ) → rotated r (xs ++ y ∷ []) ys ≡ y ∷ (ys ++ r ∷ xs)
rotated-snoc r y [] ys = refl
rotated-snoc r y (x ∷ xs) ys =
    rotated-snoc x y xs (ys ++ r ∷ []) ∙ ap (λ l. y ∷ l) (append_assoc ys (r ∷ []) (x ∷ xs))

turns-rotate :
    (xs ys : List ℕ) (s : State) (pad : ℕ)
    → IsRunnable s (xs ++ ys) pad
    → IsQuiet s (xs ++ ys)
    → (u : State) × (q : List ℕ) × (turns (length xs) s ≡ some (xs, u))
      × IsRunnable u q pad
      × (u.running_thread ∷ q ≡ rotated s.running_thread xs ys)
unfolding turns
turns-rotate [] ys s pad v h = (s, ys, refl, v, refl)
turns-rotate (x ∷ xs) ys s pad v h =
    let t = switched x ((xs ++ ys) ++ s.running_thread ∷ []) pad s in
    let moved : IsRunnable t (xs ++ (ys ++ s.running_thread ∷ [])) pad =
      subst (λ l. IsRunnable t l pad) (append_assoc xs ys (s.running_thread ∷ []))
        (head-IsRunnable s x pad (xs ++ ys) v) in
    let quiet : IsQuiet t (xs ++ (ys ++ s.running_thread ∷ [])) =
      subst (IsQuiet t) (append_assoc xs ys (s.running_thread ∷ []))
        (head-IsQuiet s x pad (xs ++ ys) h) in
    let (u, q, ran, w, cyc) = turns-rotate xs (ys ++ s.running_thread ∷ []) t pad moved quiet in
    (u, q, ground (arith, turn_head s x pad (xs ++ ys) v h, ran), w, cyc)

-- With the ready queue `x ∷ rest`, no thread that has just exited, and neither the caller nor a ready thread killed: when
-- the caller and then each thread that gets the processor calls `thread_yield(THREAD_ANY)`, as many calls as there are
-- threads give the processor to each ready thread in order, then to the caller again, with the ready queue as it was.
-- Each of them goes on after `thread_routine_cleanup`.
pub round_robin :
    (s : State) (x pad : ℕ) (rest : List ℕ)
    → IsRunnable s (x ∷ rest) pad
    → IsQuiet s (x ∷ rest)
    → (u : State) × (turns (length ((x ∷ rest) ++ s.running_thread ∷ [])) s
        ≡ some ((x ∷ rest) ++ s.running_thread ∷ [], u))
      × IsRunnable u (x ∷ rest) pad
      × (u.running_thread ≡ s.running_thread)
unfolding turns
round_robin s x pad rest v h =
    let xs = rest ++ s.running_thread ∷ [] in
    let t = switched x xs pad s in
    let moved : IsRunnable t (xs ++ []) pad =
      subst (λ l. IsRunnable t l pad) (sym (append-nil xs)) (head-IsRunnable s x pad rest v) in
    let quiet : IsQuiet t (xs ++ []) =
      subst (IsQuiet t) (sym (append-nil xs)) (head-IsQuiet s x pad rest h) in
    let (u, q, ran, w, cyc) = turns-rotate xs [] t pad moved quiet in
    let back : u.running_thread ∷ q ≡ s.running_thread ∷ (x ∷ rest) =
      cyc ∙ rotated-snoc x s.running_thread rest [] in
    let same : q ≡ x ∷ rest = ground arith in
    (
      u,
      ground (arith, turn_head s x pad rest v h, ran),
      subst (λ l. IsRunnable u l pad) same w,
      ground arith,
    )
