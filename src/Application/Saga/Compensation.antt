-- ===== src/Application/Saga/Compensation.antt =====
-- Which steps are called, and in which order, when the store does not fail.
use python_commons.Base.{
  ℕ, zero, suc, ◌+◌, ◌<◌, ◌≡◌, refl, sym, ap, ◌∙◌, subst, String, Option, none, some, List, [], ◌∷◌,
  ◌++◌, reverse, length, get_elem?, arith,
}
use python_commons.Outcome.{Outcome, returned, raised, cancelled}
use python_commons.Application.Saga.Rules.{
  try_except_holds, try_except_ok, uncaught_then, uncaught_ok,
}
use python_commons.Application.Saga.{
  SagaState, SagaContext, SagaStep, SagaRecord, SagaStore, Raised, user, saga_failed,
  saga_compensation_failed, index_error, Call, acted, World, try_except, uncaught, raise, ◌>>=◌,
  act, save_to, persist, compensate_from, conclude, fail_at, forward, run,
}
use python_commons.Application.Saga.Undoing.{
  indices, actions, compensations, reverse-indices, Compensates, compensate_from-Compensates,
}

-- The store does not fail.
abbrev pub IsReliable : {V E S : Type 0} → Option (SagaStore V E S) → Type 0
IsReliable none = Unit
IsReliable {V} {S = S} (some s) = (r : SagaRecord V) (σ : S) → (s.save r σ).1 ≡ returned tt

module _ {V E S : Type 0} (steps : List (SagaStep V E)) (store : Option (SagaStore V E S))
    (saga_id : String) where
  -- The context of the step `k` in the forward pass from `c`: what the actions of the steps below
  -- have made of it.
  abbrev pub ctx_before : SagaContext V → ℕ → SagaContext V
  ctx_before c zero = c
  ctx_before c (suc n) = elim (get_elem? steps n) [
    | none ↦ ctx_before c n
    | some step ↦ (step.action (ctx_before c n)).0
  ]

  -- The actions of the steps below `n` all return.
  abbrev pub Succeeded : SagaContext V → ℕ → Type 0
  Succeeded c zero = Unit
  Succeeded c (suc n) =
      Succeeded c n
      × ((step : SagaStep V E) × (get_elem? steps n ≡ some step)
          × ((step.action (ctx_before c n)).1 ≡ returned tt))

  -- The exception of `run` from the context `c`, after the step `k`, whose action has raised the
  -- cause.
  abbrev Reports : SagaContext V → ℕ → Raised E → Type 0
  Reports c k (saga_failed i name e) =
      (step : SagaStep V E) × (get_elem? steps k ≡ some step)
      × (step.name ≡ name)
      × (i ≡ saga_id)
      × ((step.action (ctx_before c k)).1 ≡ raised e)
  Reports c k (saga_compensation_failed i name e d) =
      (step : SagaStep V E) × (get_elem? steps k ≡ some step)
      × (step.name ≡ name)
      × (i ≡ saga_id)
      × ((step.action (ctx_before c k)).1 ≡ raised e)
  Reports c k (user e) = ⊥
  Reports c k index_error = ⊥

  -- The calls that have been made when `run` from the context `c` has ended.
  abbrev pub Traces : SagaContext V → World V S × Outcome (Unit {0}) (Raised E) → Type 0
  Traces c (w, returned _) = (w.calls ≡ actions (length steps)) × Succeeded c (length steps)
  Traces c (w, raised x) =
      (k : ℕ) × (k < length steps)
      × Succeeded c k
      × Reports c k x
      × (w.calls ≡ actions (suc k) ++ compensations k)
  Traces c (w, cancelled) = Unit

  saved :
      (o : Option (SagaStore V E S)) (r : SagaRecord V) (w : World V S)
      → IsReliable o
      → ((save_to steps store saga_id o r w).1 ≡ returned tt)
        × ((save_to steps store saga_id o r w).0.calls ≡ w.calls)
        × ((save_to steps store saga_id o r w).0.ctx ≡ w.ctx)
  unfolding save_to
  saved none r w h = (refl, refl, refl)
  saved (some s) r w h = (h r w.store, refl, refl)

  persist_reliable :
      (state : SagaState) (i : ℕ) (w : World V S)
      → IsReliable store
      → ((persist steps store saga_id state i w).1 ≡ returned tt)
        × ((persist steps store saga_id state i w).0.calls ≡ w.calls)
        × ((persist steps store saga_id state i w).0.ctx ≡ w.ctx)
  unfolding persist
  persist_reliable state i w h = saved store _ w h

  -- The step `k` is `step`, its action raises `e`, and those below return.
  abbrev Fails : SagaContext V → ℕ → SagaStep V E → E → Type 0
  Fails c k step e =
      (get_elem? steps k ≡ some step)
      × ((step.action (ctx_before c k)).1 ≡ raised e)
      × Succeeded c k

  conclude-Traces :
      (c : SagaContext V) (k : ℕ) (step : SagaStep V E) (e : E) (o : Option E) (w : World V S)
      → IsReliable store
      → Fails c k step e
      → k < length steps
      → w.calls ≡ actions (suc k) ++ compensations k
      → Traces c (conclude steps store saga_id k step e o w)
  unfolding conclude
  conclude-Traces c k step e none w h found below q =
      let (ok, same, _) = persist_reliable SagaState.failed k w h in
      uncaught_then (Traces c) (persist steps store saga_id SagaState.failed k)
        (λ _. raise (saga_failed saga_id step.name e)) w ok
        (k, below, found.2, (step, found.0, refl, refl, found.1), same ∙ q)
  conclude-Traces c k step e (some x) w h found below q =
      let (ok, same, _) = persist_reliable SagaState.compensation_failed k w h in
      uncaught_then (Traces c) (persist steps store saga_id SagaState.compensation_failed k)
        (λ _. raise (saga_compensation_failed saga_id step.name e x)) w ok
        (k, below, found.2, (step, found.0, refl, refl, found.1), same ∙ q)

  compensated-Traces :
      (c : SagaContext V) (k : ℕ) (step : SagaStep V E) (e : E) (w : World V S)
      (r : World V S × Outcome (Option E) (Raised E))
      → IsReliable store
      → Fails c k step e
      → k < length steps
      → w.calls ≡ actions (suc k)
      → Compensates k w r
      → Traces c (((λ _. r) >>= conclude steps store saga_id k step e) w)
  compensated-Traces c k step e w (w', returned o) h found below q p =
      conclude-Traces c k step e o w' h found below
        (p ∙ ap (λ (l : List Call). l ++ compensations k) q)
  compensated-Traces c k step e w (w', raised x) h found below q p = absurd p
  compensated-Traces c k step e w (w', cancelled) h found below q p = tt

  fail_at-Traces :
      (c : SagaContext V) (k : ℕ) (step : SagaStep V E) (e : E) (w : World V S)
      → IsReliable store
      → Fails c k step e
      → k < length steps
      → w.calls ≡ actions (suc k)
      → Traces c (fail_at steps store saga_id k (indices k) step e w)
  unfolding fail_at
  fail_at-Traces c k step e w h found below q =
      let (ok, same, _) = persist_reliable SagaState.compensating k w h in
      let w' = (persist steps store saga_id SagaState.compensating k w).0 in
      uncaught_then (Traces c) (persist steps store saga_id SagaState.compensating k)
        (λ _.
          compensate_from steps store saga_id (reverse (indices k)) none
          >>= conclude steps store saga_id k step e)
        w ok
        (compensated-Traces c k step e w'
          (compensate_from steps store saga_id (reverse (indices k)) none w') h found below
          (same ∙ q)
          (rw reverse-indices
            (compensate_from-Compensates steps store saga_id k none w' (omega arith))))

  module _ (h : IsReliable store) where
    next_ctx :
        (c : SagaContext V) (n : ℕ) (step : SagaStep V E)
        → get_elem? steps n ≡ some step
        → (step.action (ctx_before c n)).0 ≡ ctx_before c (suc n)
    next_ctx c n step found =
        ap
          (λ (o : Option (SagaStep V E)). elim o [
            | none ↦ ctx_before c n
            | some t ↦ (t.action (ctx_before c n)).0
          ])
          (sym found)

    forward-Traces :
        (c : SagaContext V) (idx : ℕ) (rest : List (SagaStep V E)) (w : World V S)
        → idx + length rest ≡ length steps
        → ((i : ℕ) → get_elem? steps (idx + i) ≡ get_elem? rest i)
        → w.calls ≡ actions idx
        → w.ctx ≡ ctx_before c idx
        → Succeeded c idx
        → Traces c (forward steps store saga_id idx (indices idx) rest w)
    unfolding forward act
    forward-Traces c idx [] w n at q x ok =
        let e : idx ≡ length steps = omega arith in (q ∙ ap actions e, subst (Succeeded c) e ok)
    forward-Traces c idx (step ∷ rest) w n at q x ok =
        let found : get_elem? steps idx ≡ some step =
          let z : idx + 0 ≡ idx = omega arith in
          subst (λ i. get_elem? steps i ≡ some step) z (at 0) in
        let at' : (i : ℕ) → get_elem? steps (suc idx + i) ≡ get_elem? rest i = λ i.
          let z : idx + suc i ≡ suc idx + i = omega arith in
          subst (λ j. get_elem? steps j ≡ get_elem? rest i) z (at (suc i)) in
        let called = act steps store saga_id idx step w in
        let (saved_, same, kept) = persist_reliable SagaState.running (idx + 1) called.0 h in
        let ends : called.1 ≡ (step.action (ctx_before c idx)).1 = ap (λ d. (step.action d).1) x in
        let moved : called.0.ctx ≡ ctx_before c (suc idx) =
          ap (λ d. (step.action d).0) x ∙ next_ctx c idx step found in
        let logged : called.0.calls ≡ actions (suc idx) =
          ap (λ (l : List Call). l ++ acted idx ∷ []) q in
        try_except_holds (Traces c) called
          (λ w₁.
            try_except (persist steps store saga_id SagaState.running (idx + 1) w₁)
              (forward steps store saga_id (suc idx) (indices (suc idx)) rest)
              (fail_at steps store saga_id idx (indices (suc idx)) step))
          (fail_at steps store saga_id idx (indices idx) step)
          (λ done.
            try_except_ok (Traces c)
              (persist steps store saga_id SagaState.running (idx + 1) called.0)
              (forward steps store saga_id (suc idx) (indices (suc idx)) rest)
              (fail_at steps store saga_id idx (indices (suc idx)) step) saved_
              (forward-Traces c (suc idx) rest
                (persist steps store saga_id SagaState.running (idx + 1) called.0).0 (omega arith)
                at' (same ∙ logged) (kept ∙ moved) (ok, (step, found, sym ends ∙ done))))
          (λ e failed.
            fail_at-Traces c idx step e called.0 h (found, sym ends ∙ failed, ok) (omega arith)
              logged)
          tt

    finished-Traces :
        (c : SagaContext V) (r : World V S × Outcome (Unit {0}) (Raised E)) (w : World V S)
        → Traces c r
        → Traces c (
            ((λ _. r) >>= λ _.
            uncaught (persist steps store saga_id SagaState.completed (length steps)))
              w)
    finished-Traces c (w', returned _) w t =
        let (ok, same, _) = persist_reliable SagaState.completed (length steps) w' h in
        uncaught_ok (Traces c) (persist steps store saga_id SagaState.completed (length steps)) w'
          ok (same ∙ t.0, t.1)
    finished-Traces c (w', raised x) w t = t
    finished-Traces c (w', cancelled) w t = t

    -- With a store that does not fail, a run that completes has called the actions of all steps,
    -- in order, and no compensation, and every action has returned. A run that raises does so for
    -- the first step `k` of the saga whose action raises, and names it and its exception: it has
    -- called the actions of the steps up to `k` and then the compensations of the steps below `k`,
    -- each once, the last first. It raises nothing but the orchestrator's two errors.
    pub run-Traces : (w : World V S) → w.calls ≡ [] → Traces w.ctx (run steps store saga_id w)
    unfolding run
    run-Traces w q =
        let (ok, same, kept) = persist_reliable SagaState.running 0 w h in
        uncaught_then (Traces w.ctx) (persist steps store saga_id SagaState.running 0)
          (λ _. forward steps store saga_id 0 [] steps >>= λ _.
            uncaught (persist steps store saga_id SagaState.completed (length steps)))
          w ok
          (finished-Traces w.ctx
            (forward steps store saga_id 0 [] steps
              (persist steps store saga_id SagaState.running 0 w).0)
            w
            (forward-Traces w.ctx 0 steps (persist steps store saga_id SagaState.running 0 w).0
              (omega arith) (λ i. let z : 0 + i ≡ i = omega arith in ap (get_elem? steps) z)
              (same ∙ q) kept tt))
