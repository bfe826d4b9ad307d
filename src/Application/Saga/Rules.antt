-- ===== src/Application/Saga/Rules.antt =====
-- Rules for the coroutines of the orchestrator: what holds after a `try`, and after a call that
-- did not raise.
use python_commons.Base.{◌≡◌, refl}
use python_commons.Outcome.{Outcome, returned, raised, cancelled}
use python_commons.Application.Saga.{World, Run, Raised, try_except, uncaught, ◌>>=◌}

-- The rule for `try … except`.
pub try_except_holds :
    {V E S A : Type 0} (P : World V S × Outcome A (Raised E) → Type 0)
    (p : World V S × Outcome (Unit {0}) E) (proceed : Run V E S A) (handle : E → Run V E S A)
    → (p.1 ≡ returned tt → P (proceed p.0))
    → ((e : E) → p.1 ≡ raised e → P (handle e p.0))
    → P (p.0, cancelled)
    → P (try_except p proceed handle)
try_except_holds P (w, returned _) proceed handle ok caught stopped = ok refl
try_except_holds P (w, raised e) proceed handle ok caught stopped = caught e refl
try_except_holds P (w, cancelled) proceed handle ok caught stopped = stopped

pub try_except_ok :
    {V E S A : Type 0} (P : World V S × Outcome A (Raised E) → Type 0)
    (p : World V S × Outcome (Unit {0}) E) (proceed : Run V E S A) (handle : E → Run V E S A)
    → p.1 ≡ returned tt
    → P (proceed p.0)
    → P (try_except p proceed handle)
try_except_ok P (w, returned _) proceed handle ok h = h
try_except_ok P (w, raised e) proceed handle ok h = cc
try_except_ok P (w, cancelled) proceed handle ok h = cc

pub uncaught_then :
    {V E S A : Type 0} (P : World V S × Outcome A (Raised E) → Type 0)
    (m : World V S → World V S × Outcome (Unit {0}) E) (f : Unit {0} → Run V E S A) (w : World V S)
    → (m w).1 ≡ returned tt
    → P (f tt (m w).0)
    → P ((uncaught m >>= f) w)
uncaught_then {V} {E} {S} P m f w = go (m w)
  where
    go :
        (p : World V S × Outcome (Unit {0}) E)
        → p.1 ≡ returned tt
        → P (f tt p.0)
        → P ((uncaught (λ _. p) >>= f) w)
    go (w', returned _) ok h = h
    go (w', raised e) ok h = cc
    go (w', cancelled) ok h = cc

pub uncaught_ok :
    {V E S : Type 0} (P : World V S × Outcome (Unit {0}) (Raised E) → Type 0)
    (m : World V S → World V S × Outcome (Unit {0}) E) (w : World V S)
    → (m w).1 ≡ returned tt
    → P ((m w).0, returned tt)
    → P (uncaught m w)
uncaught_ok {V} {E} {S} P m w = go (m w)
  where
    go :
        (p : World V S × Outcome (Unit {0}) E)
        → p.1 ≡ returned tt
        → P (p.0, returned tt)
        → P (uncaught (λ _. p) w)
    go (w', returned _) ok h = h
    go (w', raised e) ok h = cc
    go (w', cancelled) ok h = cc
