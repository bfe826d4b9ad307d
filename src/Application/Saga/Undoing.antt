-- ===== src/Application/Saga/Undoing.antt =====
-- What the compensations of the completed steps call.
use python_commons.Base.{
  ℕ, zero, suc, ◌≤◌, ◌<◌, ◌≡◌, refl, sym, ap, ◌∙◌, String, Option, some, List, [], ◌∷◌, ◌++◌,
  reverse, length, get_elem?, arith,
}
use mathlib.Core.List.{append_assoc, append-nil, reverse-append}
use python_commons.Outcome.{Outcome, returned, raised, cancelled}
use python_commons.Application.Saga.Rules.{try_except_holds}
use python_commons.Application.Saga.{
  SagaStep, SagaStore, Raised, Call, acted, compensated, World, first_error, undo, compensate_from,
}

-- The indices below `n`, and the calls of the actions of those steps, in order.
abbrev pub indices : ℕ → List ℕ
indices zero = []
indices (suc n) = indices n ++ n ∷ []

abbrev pub actions : ℕ → List Call
actions zero = []
actions (suc n) = actions n ++ acted n ∷ []

-- The compensations of the steps below `n`, the last step first.
abbrev pub compensations : ℕ → List Call
compensations zero = []
compensations (suc n) = compensated n ∷ compensations n

abbrev downwards : ℕ → List ℕ
downwards zero = []
downwards (suc n) = n ∷ downwards n

pub reverse-indices : (n : ℕ) → reverse (indices n) ≡ downwards n
reverse-indices zero = refl
reverse-indices (suc n) = reverse-append (indices n) (n ∷ []) ∙ ap (◌∷◌ n) (reverse-indices n)

get_elem?-below {ℓ} :
    {A : Type ℓ} (xs : List A) (i : ℕ) → i < length xs → (x : A) × (get_elem? xs i ≡ some x)
get_elem?-below [] i h = absurd (omega arith)
get_elem?-below (x ∷ xs) zero h = (x, refl)
get_elem?-below (x ∷ xs) (suc i) h = get_elem?-below xs i (omega arith)

module _ {V E S : Type 0} where
  -- What the compensations of the steps below `k` have called.
  abbrev pub Compensates : ℕ → World V S → World V S × Outcome (Option E) (Raised E) → Type 0
  Compensates k w (w', returned first) = w'.calls ≡ w.calls ++ compensations k
  Compensates k w (w', raised x) = ⊥
  Compensates k w (w', cancelled) = Unit

  Compensates-suc :
      (k : ℕ) (w w' : World V S) (r : World V S × Outcome (Option E) (Raised E))
      → w'.calls ≡ w.calls ++ compensated k ∷ []
      → Compensates k w' r
      → Compensates (suc k) w r
  Compensates-suc k w w' (v, returned first) e h =
      h
      ∙ (ap (λ (l : List Call). l ++ compensations k) e
          ∙ append_assoc w.calls (compensated k ∷ []) (compensations k))
  Compensates-suc k w w' (v, raised x) e h = h
  Compensates-suc k w w' (v, cancelled) e h = tt

module _ {V E S : Type 0} (steps : List (SagaStep V E)) (store : Option (SagaStore V E S))
    (saga_id : String) where
  pub compensate_from-Compensates :
      (k : ℕ) (first : Option E) (w : World V S)
      → k ≤ length steps
      → Compensates k w (compensate_from steps store saga_id (downwards k) first w)
  unfolding compensate_from
  compensate_from-Compensates zero first w h = sym (append-nil w.calls)
  compensate_from-Compensates (suc k) first w h =
      let (step, found) = get_elem?-below steps k h in
      let called = undo steps store saga_id k step w in
      rw (found, compensate_from)
        (try_except_holds (Compensates (suc k) w) called
          (compensate_from steps store saga_id (downwards k) first)
          (λ e. compensate_from steps store saga_id (downwards k) (first_error first e))
          (λ _.
            Compensates-suc k w called.0
              (compensate_from steps store saga_id (downwards k) first called.0) refl
              (compensate_from-Compensates k first called.0 (omega arith)))
          (λ e _.
            Compensates-suc k w called.0
              (compensate_from steps store saga_id (downwards k) (first_error first e) called.0)
              refl (compensate_from-Compensates k (first_error first e) called.0 (omega arith)))
          tt)
