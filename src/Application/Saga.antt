-- ===== src/Application/Saga.antt =====
-- src/mp_commons/application/saga: `SagaState`, `SagaContext`, `SagaStep`, the `SagaStore` port
-- with `InMemorySagaStore`, and `SagaOrchestrator`. An asynchronous method is a function on the
-- state that it shares with the others: the context, the store and, as a ghost, the calls of the
-- steps so far. It comes back changed after a raise too.
mod Rules
mod Undoing
pub mod Compensation
pub mod Store
mod Tests
use python_commons.Base.{
  ℕ, zero, suc, ◌+◌, String, Bool, true, false, Option, none, some, List, [], ◌∷◌, ◌++◌, reverse,
  length, get_elem?, string_eq,
}
use python_commons.Dict.{Dict, insert, lookup}
use python_commons.Outcome.{Outcome, returned, raised, cancelled}

pub data SagaState : Type 0 where
  running completed compensating compensation_failed failed : SagaState

-- `SagaContext`: its `_data`; `snapshot` is a copy of it.
abbrev pub SagaContext : Type 0 → Type 0
SagaContext V = Dict String V

-- A step is what its two coroutines do to the context.
pub record SagaStep (V E : Type 0) : Type 0 where
  pub name : String
  pub action : SagaContext V → SagaContext V × Outcome (Unit {0}) E
  pub compensate : SagaContext V → SagaContext V × Outcome (Unit {0}) E

pub record SagaRecord (V : Type 0) : Type 0 where
  pub saga_id : String
  pub state : SagaState
  pub step_index : ℕ
  pub ctx_snapshot : Dict String V

-- `SagaStore.save`, on the store's state `Σ`
pub record SagaStore (V E S : Type 0) : Type 0 where
  pub save : SagaRecord V → S → S × Outcome (Unit {0}) E

-- What `run` and the steps raise: the exceptions of the steps and of the store, and the
-- orchestrator's own.
pub data Raised (E : Type 0) : Type 0 where
  user : E → Raised E
  saga_failed : String → String → E → Raised E
  saga_compensation_failed : String → String → E → E → Raised E
  index_error : Raised E

-- A call of a step, by the step's index.
pub data Call : Type 0 where
  acted compensated : ℕ → Call

pub record World (V S : Type 0) : Type 0 where
  pub ctx : SagaContext V
  pub store : S
  pub calls : List Call

-- A coroutine of the orchestrator.
abbrev pub Run : Type 0 → Type 0 → Type 0 → Type 0 → Type 0
Run V E S A = World V S → World V S × Outcome A (Raised E)

infixl 5 ◌>>=◌ ◌>>◌
abbrev pub ◌>>=◌ : {V E S A B : Type 0} → Run V E S A → (A → Run V E S B) → Run V E S B
◌>>=◌ m f w =
    let (w', o) = m w in
    elim o [ returned a ↦ f a w' | raised x ↦ (w', raised x) | cancelled ↦ (w', cancelled) ]

abbrev pub ◌>>◌ : {V E S A B : Type 0} → Run V E S A → Run V E S B → Run V E S B
m >> k = m >>= λ _. k

abbrev pub raise : {V E S A : Type 0} → Raised E → Run V E S A
raise x w = (w, raised x)

-- A call of a step or of the store, whose exceptions are not caught.
abbrev pub uncaught :
    {V E S : Type 0} → (World V S → World V S × Outcome (Unit {0}) E) → Run V E S (Unit {0})
uncaught m w =
    let (w', o) = m w in
    elim o [
      | returned a ↦ (w', returned a)
      | raised e ↦ (w', raised (user e))
      | cancelled ↦ (w', cancelled)
    ]

-- `try: await m … except Exception`: how to go on after the end of `m`, without and with an
-- exception.
abbrev pub try_except :
    {V E S A : Type 0}
    → World V S × Outcome (Unit {0}) E
    → Run V E S A
    → (E → Run V E S A)
    → World V S × Outcome A (Raised E)
try_except (w, returned _) proceed handle = proceed w
try_except (w, raised e) proceed handle = handle e w
try_except (w, cancelled) proceed handle = (w, cancelled)

-- the first of the exceptions of the compensations
abbrev pub first_error : {E : Type 0} → Option E → E → Option E
first_error none e = some e
first_error (some f) e = some f

module _ {V E S : Type 0} (steps : List (SagaStep V E)) (store : Option (SagaStore V E S))
    (saga_id : String) where
  -- `await step.action(ctx)` and `await step.compensate(ctx)`
  act : ℕ → SagaStep V E → World V S → World V S × Outcome (Unit {0}) E
  act idx step w =
      let (ctx, o) = step.action w.ctx in
      (record w { ctx = ctx; calls = w.calls ++ acted idx ∷ [] }, o)

  undo : ℕ → SagaStep V E → World V S → World V S × Outcome (Unit {0}) E
  undo idx step w =
      let (ctx, o) = step.compensate w.ctx in
      (record w { ctx = ctx; calls = w.calls ++ compensated idx ∷ [] }, o)

  save_to : Option (SagaStore V E S) → SagaRecord V → World V S → World V S × Outcome (Unit {0}) E
  save_to none r w = (w, returned tt)
  save_to (some s) r w = let (σ, o) = s.save r w.store in (record w { store = σ }, o)

  pub persist : SagaState → ℕ → World V S → World V S × Outcome (Unit {0}) E
  unfolding save_to
  persist state step_index w =
      save_to store
        (record { saga_id = saga_id; state = state; step_index = step_index; ctx_snapshot = w.ctx })
        w

  -- the loop of `_compensate`, over the indices still to be compensated
  pub compensate_from : List ℕ → Option E → Run V E S (Option E)
  unfolding undo
  compensate_from [] first w = (w, returned first)
  compensate_from (idx ∷ rest) first w = elim (get_elem? steps idx) [
    | none ↦ (w, raised index_error)
    | some step ↦
        try_except (undo idx step w) (compensate_from rest first)
          (λ e. compensate_from rest (first_error first e))
  ]

  -- the end of the `except` block: the final state, and the orchestrator's exception
  conclude : ℕ → SagaStep V E → E → Option E → Run V E S (Unit {0})
  conclude idx step e none = do
    uncaught (persist SagaState.failed idx)
    raise (saga_failed saga_id step.name e)
  conclude idx step e (some c) = do
    uncaught (persist SagaState.compensation_failed idx)
    raise (saga_compensation_failed saga_id step.name e c)

  -- the `except` block of the forward pass
  pub fail_at : ℕ → List ℕ → SagaStep V E → E → Run V E S (Unit {0})
  unfolding compensate_from conclude
  fail_at idx succeeded step e = do
    uncaught (persist SagaState.compensating idx)
    compensation_exc ← compensate_from (reverse succeeded) none
    conclude idx step e compensation_exc

  -- the loop of the forward pass, over the steps that are left
  pub forward : ℕ → List ℕ → List (SagaStep V E) → Run V E S (Unit {0})
  unfolding act fail_at
  forward idx succeeded [] w = (w, returned tt)
  forward idx succeeded (step ∷ rest) w =
      let done = succeeded ++ idx ∷ [] in
      try_except (act idx step w)
        (λ w₁.
          try_except (persist SagaState.running (idx + 1) w₁) (forward (suc idx) done rest)
            (fail_at idx done step))
        (fail_at idx succeeded step)

  -- `run` after `SagaContext(initial)`; the context that it returns is the world's.
  pub run : Run V E S (Unit {0})
  unfolding forward
  run = do
    uncaught (persist SagaState.running 0)
    forward 0 [] steps
    uncaught (persist SagaState.completed (length steps))

-- `SagaOrchestrator.__init__`: `none` is `ValueError`.
unfoldable pub init : {V E : Type 0} → List (SagaStep V E) → Option (List (SagaStep V E))
init [] = none
init (s ∷ ss) = some (s ∷ ss)

-- `InMemorySagaStore`: `save` never raises.
abbrev pub Records : Type 0 → Type 0
Records V = Dict String (SagaRecord V)

unfoldable pub save : {V E : Type 0} → SagaRecord V → Records V → Records V × Outcome (Unit {0}) E
save r records = (insert r.saga_id r records, returned tt)

abbrev pub in_memory : {V E : Type 0} → SagaStore V E (Records V)
in_memory = record { save = save }

unfoldable pub load : {V : Type 0} → String → Records V → Option (SagaRecord V)
load saga_id records = lookup saga_id records
