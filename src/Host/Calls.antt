-- ===== src/Host/Calls.antt =====
-- A call of the host: it answers with an error or a value, and never panics.
use mathlib.Core.Path.{◌≡◌, refl, ap}
use mathlib.Core.Logic.{◌⊎◌, inl, inr}
use fctools.Base.Action.{Action}
use fctools.Base.Outcomes.{Outcome, ok, err}

abbrev pub Call : Type 0 → Type 0 → Type 0 → Type 0
Call W E A = W → (E ⊎ A) × W

abbrev pub answer : {E A : Type 0} → E ⊎ A → Outcome E A
answer (inl e) = err e
answer (inr a) = ok a

-- `call(...).await.map_err(f)`
abbrev pub call : {W E F A : Type 0} → (E → F) → Call W E A → Action W F A
call f c w = let (r, w') = c w in elim r [ inl e ↦ (err (f e), w') | inr a ↦ (ok a, w') ]

-- An answer is an error or a value, and a call gives it.
pub answer_cases :
    {E A W : Type 0} (r : (E ⊎ A) × W)
    → ((e : E) × (w : W) × (r ≡ (inl e, w))) ⊎ ((a : A) × (w : W) × (r ≡ (inr a, w)))
answer_cases (inl e, w) = inl (e, w, refl)
answer_cases (inr a, w) = inr (a, w, refl)

pub call-inl :
    {E F A W : Type 0} (f : E → F) (c : W → (E ⊎ A) × W) (w : W) {e : E} {w' : W}
    → c w ≡ (inl e, w')
    → call f c w ≡ (err (f e), w')
call-inl f c w h = ap (λ r. call f (λ x. r) w) h

pub call-inr :
    {E F A W : Type 0} (f : E → F) (c : W → (E ⊎ A) × W) (w : W) {a : A} {w' : W}
    → c w ≡ (inr a, w')
    → call f c w ≡ (ok a, w')
call-inr f c w h = ap (λ r. call f (λ x. r) w) h

answered_inv :
    {E F A W : Type 0} (f : E → F) (r : (E ⊎ A) × W) {a : A} {w' : W}
    → call f (λ (w : W). r) r.1 ≡ (ok a, w')
    → r ≡ (inr a, w')
answered_inv f (inl e, w) h = absurd cc
answered_inv f (inr a, w) h = ap (λ x. x) cc

-- A call that succeeds was given the value by the host.
pub call-ok_inv :
    {E F A W : Type 0} (f : E → F) (c : W → (E ⊎ A) × W) (w : W) {a : A} {w' : W}
    → call f c w ≡ (ok a, w')
    → c w ≡ (inr a, w')
call-ok_inv f c w h = answered_inv f (c w) h
