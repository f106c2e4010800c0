-- ===== src/Base/Triples.antt =====
-- What an action guarantees from a state that satisfies a condition.
use mathlib.Core.Path.{◌≡◌, sym}
use mathlib.Core.Logic.{◌≢◌}
use native.Mathlib.Omega.{arith}
use fctools.Base.Outcomes.{Outcome, ok, err, panic}
use fctools.Base.Action.{Action, ◌>>=◌, resume}

module _ {S E : Type 0} (I K : S → Type 0) where
  -- `Q` after a value, `I` after an error, `K` after a panic.
  unfoldable pub Ends : {A : Type 0} → (A → S → Type 0) → Outcome E A × S → Type 0
  Ends Q (ok a, s) = Q a s
  Ends Q (err e, s) = I s
  Ends Q (panic, s) = K s

  abbrev pub Triple : {A : Type 0} → (S → Type 0) → Action S E A → (A → S → Type 0) → Type 0
  Triple P m Q = (s : S) → P s → Ends Q (m s)

  resume_triple :
      {A B : Type 0} (Q : A → S → Type 0) (R : B → S → Type 0) (r : Outcome E A × S)
      (f : A → Action S E B)
      → Ends Q r
      → ((a : A) → Triple (Q a) (f a) R)
      → Ends R (resume r f)
  unfolding Ends
  resume_triple Q R (ok a, s) f h g = g a s h
  resume_triple Q R (err e, s) f h g = h
  resume_triple Q R (panic, s) f h g = h

  -- The triples of two actions in a row.
  pub bind_triple :
      {A B : Type 0} {P : S → Type 0} (Q : A → S → Type 0) (R : B → S → Type 0) (m : Action S E A)
      (f : A → Action S E B)
      → Triple P m Q
      → ((a : A) → Triple (Q a) (f a) R)
      → Triple P (m >>= f) R
  bind_triple Q R m f h g s p = resume_triple Q R (m s) f (h s p) g

  -- When the value's condition implies the invariant, so does each end.
  pub Ends_all :
      {A : Type 0} (J : S → Type 0) (Q : A → S → Type 0) (r : Outcome E A × S)
      → Ends Q r
      → ((a : A) (s : S) → Q a s → J s)
      → ((s : S) → I s → J s)
      → ((s : S) → K s → J s)
      → J r.1
  unfolding Ends
  Ends_all J Q (ok a, s) h q i k = q a s h
  Ends_all J Q (err e, s) h q i k = i s h
  Ends_all J Q (panic, s) h q i k = k s h

  -- Without a condition for panics there is none.
  pub Ends-ne :
      {A : Type 0} (Q : A → S → Type 0) (r : Outcome E A × S)
      → ((s : S) → K s → ⊥)
      → Ends Q r
      → r.0 ≢ panic
  unfolding Ends
  Ends-ne Q (ok a, s) closed h e = cc
  Ends-ne Q (err x, s) closed h e = cc
  Ends-ne Q (panic, s) closed h e = closed s h

  -- A value satisfies its condition.
  pub Ends-ok :
      {A : Type 0} (Q : A → S → Type 0) (r : Outcome E A × S) {a : A}
      → Ends Q r
      → r.0 ≡ ok a
      → Q a r.1
  unfolding Ends
  Ends-ok Q (ok b, s) {a} h e = let same : b ≡ a = ground arith in rw (sym same) h
  Ends-ok Q (err x, s) h e = absurd cc
  Ends-ok Q (panic, s) h e = absurd cc
