-- ===== src/Base/Switching.antt =====
-- Calls that change a state and may give the processor to another thread.
-- A switch of context keeps the rest of the call: `switches s k` has left the processor, and goes on as `k t` when the
-- caller runs again, in the state `t` of then.
use mathlib.Core.Bool.{Bool}
use mathlib.Core.Option.{Option, none, some}
use os_library.Base.Tests.{if◌then◌else◌}

-- `gone`: the processor was left for good. `exits`: the process has ended. `fault`: a failed
-- assertion, a NULL or dangling pointer, an index out of range, or a bad `free`. `spins`: the
-- rounds allowed to a loop ran out.
pub data Switching (S A : Type 0) : Type 0 where
  returns : A → S → Switching S A
  switches : S → (S → Switching S A) → Switching S A
  gone : S → Switching S A
  exits : S → Switching S A
  fault : Switching S A
  spins : S → Switching S A

abbrev pub and_then : {S A B : Type 0} → Switching S A → (A → S → Switching S B) → Switching S B
and_then (returns a s) f = f a s
and_then (switches s k) f = switches s (λ t. and_then (k t) f)
and_then (gone s) f = gone s
and_then (exits s) f = exits s
and_then fault f = fault
and_then (spins s) f = spins s

infixl 5 ◌>>=◌ ◌>>◌
abbrev pub ◌>>=◌ :
    {S A B : Type 0} → (S → Switching S A) → (A → S → Switching S B) → S → Switching S B
◌>>=◌ m f s = and_then (m s) f

abbrev pub ◌>>◌ : {S A B : Type 0} → (S → Switching S A) → (S → Switching S B) → S → Switching S B
m >> k = m >>= λ _. k

abbrev pub pure : {S A : Type 0} → A → S → Switching S A
pure a s = returns a s

abbrev pub get : {S : Type 0} → S → Switching S S
get s = returns s s

abbrev pub modify : {S : Type 0} → (S → S) → S → Switching S (Unit {0})
modify f s = returns tt (f s)

abbrev pub fail : {S A : Type 0} → S → Switching S A
fail s = fault

-- `assert(b)`
abbrev pub assert_that : {S : Type 0} → Bool → S → Switching S (Unit {0})
assert_that b s = if b then returns tt s else fault

-- The state in which the call first leaves the processor to another thread.
abbrev pub departs : {S A : Type 0} → Switching S A → Option S
departs (returns a s) = none
departs (switches s k) = some s
departs (gone s) = some s
departs (exits s) = none
departs fault = none
departs (spins s) = none

-- How the call goes on when its caller runs again.
abbrev pub resumes : {S A : Type 0} → Switching S A → S → Switching S A
resumes (returns a s) t = fault
resumes (switches s k) t = k t
resumes (gone s) t = fault
resumes (exits s) t = fault
resumes fault t = fault
resumes (spins s) t = fault
