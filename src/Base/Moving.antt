-- ===== src/Base/Moving.antt =====
-- Actions that move the state along a relation, however they end.
use mathlib.Core.Bool.{Bool, true, false}
use mathlib.Core.Path.{◌≡◌, refl}
use fctools.Base.Outcomes.{Outcome, ok, err, panic}
use fctools.Base.Action.{Action, ◌>>=◌, resume, fail_if}

module _ {S : Type 0} (R : S → S → Type 0) where
  abbrev pub Moves : {E A : Type 0} → Action S E A → Type 0
  Moves m = (s : S) → R s (m s).1

  module _ (same : (s : S) → R s s) where
    pub fail_if-Moves : {E : Type 0} (test : Bool) (e : E) → Moves (fail_if test e)
    fail_if-Moves true e s = same s
    fail_if-Moves false e s = same s

  module _ (chain : (s t u : S) → R s t → R t u → R s u) {E A B : Type 0} where
    resume-Moves :
        (s : S) (r : Outcome E A × S) (f : A → Action S E B)
        → R s r.1
        → ((a : A) (t : S) → r ≡ (ok a, t) → R t (f a t).1)
        → R s (resume r f).1
    resume-Moves s (ok a, t) f h k = chain s t (f a t).1 h (k a t refl)
    resume-Moves s (err e, t) f h k = h
    resume-Moves s (panic, t) f h k = h

    -- The second part may use what the first has answered.
    pub bind_from :
        (m : Action S E A) (f : A → Action S E B) (s : S)
        → R s (m s).1
        → ((a : A) (t : S) → m s ≡ (ok a, t) → R t (f a t).1)
        → R s ((m >>= f) s).1
    bind_from m f s h k = resume-Moves s (m s) f h k

    pub bind-Moves :
        (m : Action S E A) (f : A → Action S E B)
        → Moves m
        → ((a : A) → Moves (f a))
        → Moves (m >>= f)
    bind-Moves m f h k s = resume-Moves s (m s) f (h s) (λ a t e. k a t)
