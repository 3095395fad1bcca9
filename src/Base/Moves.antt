-- ===== src/Base/Moves.antt =====
-- Calls that take states with one property to states with another, when they do not fault.
use mathlib.Core.Bool.{Bool, true, false}
use mathlib.Core.Option.{Option, none, some}
use os_library.Base.Tests.{if◌then◌else◌}
use os_library.Base.Faulting.{
  Faulting, and_then, ◌>>=◌, ◌>>◌, pure, get, modify, assert_that, from_option,
}

module _ {S : Type 0} where
  abbrev pub Leaves : {A : Type 0} → (S → Type 0) → Option (A × S) → Type 0
  Leaves Q none = Unit
  Leaves Q (some (a, s)) = Q s

  pub record Moves {A : Type 0} (P : S → Type 0) (m : Faulting S A) (Q : S → Type 0) : Type 0 where
    pub leaves : (s : S) → P s → Leaves Q (m s)

  Leaves-and_then :
      {A B : Type 0} (P Q : S → Type 0) (r : Option (A × S)) (f : A → Faulting S B)
      → Leaves P r
      → ((a : A) → Moves P (f a) Q)
      → Leaves Q (and_then r f)
  Leaves-and_then P Q none f h g = tt
  Leaves-and_then P Q (some (a, s)) f h g = (g a).leaves s h

  pub Moves-bind :
      {A B : Type 0} {P Q R : S → Type 0} {m : Faulting S A} {f : A → Faulting S B}
      → Moves P m R
      → ((a : A) → Moves R (f a) Q)
      → Moves P (m >>= f) Q
  Moves-bind {P} {Q} {R} {m} {f} h g = record {
    leaves = λ s p. Leaves-and_then R Q (m s) f (h.leaves s p) g;
  }

  pub Moves-seq :
      {A B : Type 0} {P Q R : S → Type 0} {m : Faulting S A} {k : Faulting S B}
      → Moves P m R
      → Moves R k Q
      → Moves P (m >> k) Q
  Moves-seq h g = Moves-bind h (λ _. g)

  pub Moves-if :
      {A : Type 0} {P Q : S → Type 0} {m n : Faulting S A} (b : Bool)
      → Moves P m Q
      → Moves P n Q
      → Moves P (if b then m else n) Q
  Moves-if true h g = h
  Moves-if false h g = g

  pub Leaves-if :
      {A : Type 0} (Q : S → Type 0) (r o : Option (A × S)) (b : Bool)
      → Leaves Q r
      → Leaves Q o
      → Leaves Q (if b then r else o)
  Leaves-if Q r o true h g = h
  Leaves-if Q r o false h g = g

  pub Moves-pure : {A : Type 0} {P : S → Type 0} {a : A} → Moves P (pure a) P
  Moves-pure = record { leaves = λ s p. p }

  pub Moves-get : {P : S → Type 0} → Moves P get P
  Moves-get = record { leaves = λ s p. p }

  pub Moves-modify :
      {P Q : S → Type 0} {f : S → S} → ((s : S) → P s → Q (f s)) → Moves P (modify f) Q
  Moves-modify h = record { leaves = h }

  asserted : (P : S → Type 0) (c : Bool) (s : S) → P s → Leaves P (assert_that c s)
  asserted P true s p = p
  asserted P false s p = tt

  pub Moves-assert : {P : S → Type 0} (b : Bool) → Moves P (assert_that b) P
  Moves-assert {P} b = record { leaves = asserted P b }

  pub Leaves-from_option :
      {A : Type 0} (P : S → Type 0) (o : Option A) (s : S) → P s → Leaves P (from_option o s)
  Leaves-from_option P none s p = tt
  Leaves-from_option P (some a) s p = p
