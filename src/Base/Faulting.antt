-- ===== src/Base/Faulting.antt =====
-- Calls that change a state and may fault.
use mathlib.Core.Bool.{Bool, true, false}
use mathlib.Core.Option.{Option, none, some}

-- A call on a state `S`: `none` is a failed assertion, a NULL pointer followed, or an array left.
abbrev pub Faulting : Type 0 → Type 0 → Type 0
Faulting S A = S → Option (A × S)

abbrev pub and_then : {S A B : Type 0} → Option (A × S) → (A → Faulting S B) → Option (B × S)
and_then none f = none
and_then (some (a, s)) f = f a s

infixl 5 ◌>>=◌ ◌>>◌
abbrev pub ◌>>=◌ : {S A B : Type 0} → Faulting S A → (A → Faulting S B) → Faulting S B
◌>>=◌ m f s = and_then (m s) f

abbrev pub ◌>>◌ : {S A B : Type 0} → Faulting S A → Faulting S B → Faulting S B
m >> k = m >>= λ _. k

abbrev pub pure : {S A : Type 0} → A → Faulting S A
pure a s = some (a, s)

abbrev pub get : {S : Type 0} → Faulting S S
get s = some (s, s)

abbrev pub modify : {S : Type 0} → (S → S) → Faulting S (Unit {0})
modify f s = some (tt, f s)

abbrev pub fault : {S A : Type 0} → Faulting S A
fault s = none

abbrev pub assert_that : {S : Type 0} → Bool → Faulting S (Unit {0})
assert_that true s = some (tt, s)
assert_that false s = none

abbrev pub from_option : {S A : Type 0} → Option A → Faulting S A
from_option none s = none
from_option (some a) s = some (a, s)
