-- ===== src/Base/Action.antt =====
-- Calls that also change a state: the state comes back after an error and after a panic too, since
-- what was written stays written.
use mathlib.Core.Bool.{Bool, true, false}
use mathlib.Core.Path.{◌≡◌, refl, ap}
use fctools.Base.Outcomes.{Outcome, ok, err, panic, map_err}

-- `S` is the state, `E` the error, `A` the value.
abbrev pub Action : Type 0 → Type 0 → Type 0 → Type 0
Action S E A = S → Outcome E A × S

module _ {S E A : Type 0} where
  abbrev pub pure : A → Action S E A
  pure a s = (ok a, s)

  abbrev pub raise : E → Action S E A
  raise e s = (err e, s)

  -- A failed `expect`.
  abbrev pub abort : Action S E A
  abort s = (panic, s)

  abbrev pub of_outcome : Outcome E A → Action S E A
  of_outcome r s = (r, s)

  abbrev pub gets : (S → A) → Action S E A
  gets f s = (ok (f s), s)

-- What follows a call: nothing, unless it succeeded.
abbrev pub resume : {S E A B : Type 0} → Outcome E A × S → (A → Action S E B) → Outcome E B × S
resume (ok a, s) f = f a s
resume (err e, s) f = (err e, s)
resume (panic, s) f = (panic, s)

infixl 5 ◌>>=◌ ◌>>◌
abbrev pub ◌>>=◌ : {S E A B : Type 0} → Action S E A → (A → Action S E B) → Action S E B
◌>>=◌ m f s = resume (m s) f

abbrev pub ◌>>◌ : {S E A B : Type 0} → Action S E A → Action S E B → Action S E B
m >> k = m >>= λ _. k

abbrev pub modify : {S E : Type 0} → (S → S) → Action S E (Unit {0})
modify f s = (ok tt, f s)

-- `.map_err(f)?`
abbrev pub with_err : {S E F A : Type 0} → (E → F) → Action S E A → Action S F A
with_err f m s = let (r, s') = m s in (map_err f r, s')

-- `if test { return Err(e) }`
abbrev pub fail_if : {S E : Type 0} → Bool → E → Action S E (Unit {0})
fail_if true e s = (err e, s)
fail_if false e s = (ok tt, s)

-- `if test { m }`
abbrev pub when : {S E : Type 0} → Bool → Action S E (Unit {0}) → Action S E (Unit {0})
when true m = m
when false m = pure tt

resume-ok :
    {S E A B : Type 0} (r : Outcome E A × S) (f : A → Action S E B) {b : B}
    → (resume r f).0 ≡ ok b
    → (a : A) × (s' : S) × (r ≡ (ok a, s')) × ((f a s').0 ≡ ok b)
resume-ok (ok a, s) f h = (a, s, refl, h)
resume-ok (err e, s) f h = cc
resume-ok (panic, s) f h = cc

-- A call that succeeds has gone through its first part, and then through the rest.
pub bind-ok :
    {S E A B : Type 0} (m : Action S E A) (f : A → Action S E B) (s : S) {b : B}
    → ((m >>= f) s).0 ≡ ok b
    → (a : A) × (s' : S) × (m s ≡ (ok a, s')) × ((f a s').0 ≡ ok b)
bind-ok m f s h = resume-ok (m s) f h

resume_inv :
    {S E A B : Type 0} (r : Outcome E A × S) (f : A → Action S E B) {b : B} {u : S}
    → resume r f ≡ (ok b, u)
    → (a : A) × (s' : S) × (r ≡ (ok a, s')) × (f a s' ≡ (ok b, u))
resume_inv (ok a, s) f h = (a, s, refl, h)
resume_inv (err e, s) f h = cc
resume_inv (panic, s) f h = cc

-- The same, with the state at the end.
pub bind_inv :
    {S E A B : Type 0} (m : Action S E A) (f : A → Action S E B) (s : S) {b : B} {u : S}
    → (m >>= f) s ≡ (ok b, u)
    → (a : A) × (s' : S) × (m s ≡ (ok a, s')) × (f a s' ≡ (ok b, u))
bind_inv m f s h = resume_inv (m s) f h

-- What follows an error is not reached.
pub bind-err :
    {S E A B : Type 0} (m : Action S E A) (f : A → Action S E B) (s : S) {e : E} {s' : S}
    → m s ≡ (err e, s')
    → (m >>= f) s ≡ (err e, s')
bind-err m f s h = ap (λ r. resume r f) h

resume_assoc :
    {S E A B C : Type 0} (r : Outcome E A × S) (k : Action S E B) (l : Action S E C)
    → resume (resume r (λ a. k)) (λ b. l) ≡ resume r (λ a. k >> l)
resume_assoc (ok a, s) k l = refl
resume_assoc (err e, s) k l = refl
resume_assoc (panic, s) k l = refl

resume_cong :
    {S E A B : Type 0} (r : Outcome E A × S) (k l : Action S E B)
    → ((s : S) → k s ≡ l s)
    → resume r (λ a. k) ≡ resume r (λ a. l)
resume_cong (ok a, s) k l h = h s
resume_cong (err e, s) k l h = refl
resume_cong (panic, s) k l h = refl

-- Sequences may be nested either way.
pub then_assoc :
    {S E A B C : Type 0} (m : Action S E A) (k : Action S E B) (l : Action S E C) (s : S)
    → ((m >> k) >> l) s ≡ (m >> (k >> l)) s
then_assoc m k l s = resume_assoc (m s) k l

-- The same first part, and second parts that agree.
pub then_cong :
    {S E A B : Type 0} (m : Action S E A) (k l : Action S E B)
    → ((s : S) → k s ≡ l s)
    → (s : S) → (m >> k) s ≡ (m >> l) s
then_cong m k l h s = resume_cong (m s) k l h

-- What follows a value that is known.
pub bind-eq :
    {S E A B : Type 0} (m : Action S E A) (f : A → Action S E B) (s : S) {a : A} {s' : S}
    → m s ≡ (ok a, s')
    → (m >>= f) s ≡ f a s'
bind-eq m f s h = ap (λ r. resume r f) h
