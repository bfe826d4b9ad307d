-- ===== src/Application/Saga/Tests.antt =====
-- Runs of a saga at concrete inputs, and the theorems there.
use python_commons.Base.{ℕ, ◌≡◌, refl, String, string_eq, none, some, List, [], ◌∷◌}
use python_commons.Dict.{insert}
use python_commons.Outcome.{returned, raised}
use python_commons.Application.Saga.{
  SagaStep, saga_compensation_failed, acted, compensated, World, run, persist, Records, in_memory,
  save, init,
}
use python_commons.Application.Saga.Compensation.{Traces, run-Traces}

-- Writes its own name on success, and removes nothing when it is undone.
abbrev good : String → SagaStep ℕ ℕ
good name = record {
  name = name;
  action = λ ctx. (insert name 1 ctx, returned tt);
  compensate = λ ctx. (insert name 0 ctx, returned tt);
}

abbrev stubborn : SagaStep ℕ ℕ
stubborn = record {
  name = "stubborn";
  action = λ ctx. (ctx, returned tt);
  compensate = λ ctx. (ctx, raised 8);
}

abbrev bad : SagaStep ℕ ℕ
bad = record {
  name = "bad";
  action = λ ctx. (insert "bad" 9 ctx, raised 7);
  compensate = λ ctx. (ctx, returned tt);
}

abbrev three : List (SagaStep ℕ ℕ)
three = good "a" ∷ stubborn ∷ bad ∷ good "b" ∷ []

abbrev start : World ℕ (Records ℕ)
start = record { ctx = []; store = []; calls = [] }

failing_run :
    (run three (some in_memory) "s" start).1 ≡ raised (saga_compensation_failed "s" "bad" 7 8)
unfolding run persist save
failing_run = refl

failing_calls :
    (run three (some in_memory) "s" start).0.calls
    ≡ acted 0 ∷ acted 1 ∷ acted 2 ∷ compensated 1 ∷ compensated 0 ∷ []
unfolding run persist save
failing_calls = refl

init-empty : init {V = ℕ} {E = ℕ} [] ≡ none
unfolding init
init-empty = refl

run-Traces_example : Traces three (some in_memory) "s" [] (run three (some in_memory) "s" start)
unfolding save
run-Traces_example = run-Traces three (some in_memory) "s" (λ r σ. refl) start refl
