-- ===== src/Application/Saga/Store.antt =====
-- What the in-memory store holds about a saga when its run has ended.
use python_commons.Base.{
  ℕ, ◌≡◌, refl, String, string_eq, Option, none, some, List, [], ◌∷◌, ◌++◌, ◌+◌, suc, length,
  reverse, get_elem?, Option-cases, inl, inr,
}
use python_commons.Dict.{lookup-insert_self}
use python_commons.Outcome.{Outcome, returned, raised, cancelled}
use python_commons.Application.Saga.Rules.{try_except_holds}
use python_commons.Application.Saga.{
  SagaState, SagaStep, SagaRecord, Raised, user, saga_failed, saga_compensation_failed, index_error,
  World, try_except, first_error, undo, uncaught, ◌>>=◌, act, persist, compensate_from, conclude,
  fail_at, forward, run, Records, in_memory, save, load,
}

module _ {V E : Type 0} (steps : List (SagaStep V E)) (saga_id : String) where
  abbrev pub Holds : SagaState → World V (Records V) → Type 0
  Holds state w =
      (r : SagaRecord V) × (load saga_id w.store ≡ some r)
      × (r.state ≡ state)
      × (r.ctx_snapshot ≡ w.ctx)

  -- The record of the saga agrees with the way in which the run has ended.
  abbrev pub Agrees : World V (Records V) × Outcome (Unit {0}) (Raised E) → Type 0
  Agrees (w, returned _) = Holds SagaState.completed w
  Agrees (w, raised (saga_failed i name e)) = Holds SagaState.failed w
  Agrees (w, raised (saga_compensation_failed i name e c)) = Holds SagaState.compensation_failed w
  Agrees (w, raised (user e)) = ⊥
  Agrees (w, raised index_error) = Unit
  Agrees (w, cancelled) = Unit

  conclude-Agrees :
      (k : ℕ) (step : SagaStep V E) (e : E) (o : Option E) (w : World V (Records V))
      → Agrees (conclude steps (some in_memory) saga_id k step e o w)
  unfolding conclude persist save load
  conclude-Agrees k step e none w = (_, lookup-insert_self saga_id _ w.store, refl, refl)
  conclude-Agrees k step e (some x) w = (_, lookup-insert_self saga_id _ w.store, refl, refl)

  -- The loop of `_compensate` raises nothing of its own but an `IndexError`.
  abbrev Quiet : World V (Records V) × Outcome (Option E) (Raised E) → Type 0
  Quiet (w, raised x) = x ≡ index_error
  Quiet (w, _) = Unit

  compensate_from-Quiet :
      (is : List ℕ) (first : Option E) (w : World V (Records V))
      → Quiet (compensate_from steps (some in_memory) saga_id is first w)
  unfolding compensate_from
  compensate_from-Quiet [] first w = tt
  compensate_from-Quiet (i ∷ is) first w = elim (Option-cases (get_elem? steps i)) [
    | inl outside ↦ rw (outside, compensate_from) refl
    | inr (step, found) ↦
        rw (found, compensate_from)
          (try_except_holds Quiet (undo steps (some in_memory) saga_id i step w)
            (compensate_from steps (some in_memory) saga_id is first)
            (λ e. compensate_from steps (some in_memory) saga_id is (first_error first e))
            (λ _. compensate_from-Quiet is first (undo steps (some in_memory) saga_id i step w).0)
            (λ e _.
              compensate_from-Quiet is (first_error first e)
                (undo steps (some in_memory) saga_id i step w).0)
            tt)
  ]

  compensated-Agrees :
      (k : ℕ) (step : SagaStep V E) (e : E) (w : World V (Records V))
      (r : World V (Records V) × Outcome (Option E) (Raised E))
      → Quiet r
      → Agrees (((λ _. r) >>= conclude steps (some in_memory) saga_id k step e) w)
  compensated-Agrees k step e w (w', returned o) q = conclude-Agrees k step e o w'
  compensated-Agrees k step e w (w', raised x) q = rw q tt
  compensated-Agrees k step e w (w', cancelled) q = tt

  fail_at-Agrees :
      (k : ℕ) (is : List ℕ) (step : SagaStep V E) (e : E) (w : World V (Records V))
      → Agrees (fail_at steps (some in_memory) saga_id k is step e w)
  unfolding fail_at persist save
  fail_at-Agrees k is step e w =
      let w' = (persist steps (some in_memory) saga_id SagaState.compensating k w).0 in
      compensated-Agrees k step e w'
        (compensate_from steps (some in_memory) saga_id (reverse is) none w')
        (compensate_from-Quiet (reverse is) none w')

  -- A forward pass that returns is followed by the last save of `run`.
  abbrev Pending : World V (Records V) × Outcome (Unit {0}) (Raised E) → Type 0
  Pending (w, returned _) = Unit
  Pending (w, raised x) = Agrees (w, raised x)
  Pending (w, cancelled) = Unit

  Pending-Agrees : (r : World V (Records V) × Outcome (Unit {0}) (Raised E)) → Agrees r → Pending r
  Pending-Agrees (w, returned _) h = tt
  Pending-Agrees (w, raised x) h = h
  Pending-Agrees (w, cancelled) h = tt

  forward-Pending :
      (rest : List (SagaStep V E)) (idx : ℕ) (is : List ℕ) (w : World V (Records V))
      → Pending (forward steps (some in_memory) saga_id idx is rest w)
  unfolding forward persist save
  forward-Pending [] idx is w = tt
  forward-Pending (step ∷ rest) idx is w =
      let called = act steps (some in_memory) saga_id idx step w in
      let done = is ++ idx ∷ [] in
      try_except_holds Pending called
        (λ w₁.
          try_except (persist steps (some in_memory) saga_id SagaState.running (idx + 1) w₁)
            (forward steps (some in_memory) saga_id (suc idx) done rest)
            (fail_at steps (some in_memory) saga_id idx done step))
        (fail_at steps (some in_memory) saga_id idx is step)
        (λ _.
          forward-Pending rest (suc idx) done
            (persist steps (some in_memory) saga_id SagaState.running (idx + 1) called.0).0)
        (λ e _.
          Pending-Agrees (fail_at steps (some in_memory) saga_id idx is step e called.0)
            (fail_at-Agrees idx is step e called.0))
        tt

  finished-Agrees :
      (r : World V (Records V) × Outcome (Unit {0}) (Raised E)) (w : World V (Records V))
      → Pending r
      → Agrees (
          ((λ _. r) >>= λ _.
          uncaught (persist steps (some in_memory) saga_id SagaState.completed (length steps)))
            w)
  unfolding persist save load
  finished-Agrees (w', returned _) w h = (_, lookup-insert_self saga_id _ w'.store, refl, refl)
  finished-Agrees (w', raised x) w h = h
  finished-Agrees (w', cancelled) w h = h

  -- With the in-memory store, a run leaves a record of the saga that has the final context, in
  -- state COMPLETED if it returned, FAILED after `SagaFailedError`, and COMPENSATION_FAILED after
  -- `SagaCompensationFailedError`.
  pub run-Agrees : (w : World V (Records V)) → Agrees (run steps (some in_memory) saga_id w)
  unfolding run persist save
  run-Agrees w =
      let w' = (persist steps (some in_memory) saga_id SagaState.running 0 w).0 in
      finished-Agrees (forward steps (some in_memory) saga_id 0 [] steps w') w'
        (forward-Pending steps 0 [] w')
