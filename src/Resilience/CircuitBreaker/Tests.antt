-- ===== src/Resilience/CircuitBreaker/Tests.antt =====
-- Runs of the breaker at concrete inputs, and the theorems there.
use python_commons.Base.{ℕ, ◌≡◌, refl, true, none, some, List, [], ◌∷◌, ◌++◌, arith, ◌==◌}
use python_commons.Outcome.{returned, raised, cancelled}
use python_commons.Resilience.CircuitBreaker.{
  CircuitBreakerPolicy, CircuitBreakerState, CircuitBreaker, init, admit, call,
}
use python_commons.Resilience.CircuitBreaker.Invariant.{
  Event, begin, finish, run, IsValid, init-IsValid, run-IsValid,
}
use python_commons.Resilience.CircuitBreaker.Runs.{successes, recovers}

-- Exception 0 is excluded.
abbrev policy : CircuitBreakerPolicy ℕ
policy = record {
  failure_threshold = 3;
  success_threshold = 2;
  timeout_seconds = 30;
  window_seconds = 60;
  excluded_exceptions = λ e. e == 0;
}

abbrev opened : CircuitBreaker
opened = record {
  state = CircuitBreakerState.open_circuit;
  failure_count = 0;
  success_count = 0;
  opened_at = some 100;
}

abbrev mixed : List (Event ℕ ℕ)
mixed =
    begin 1
    ∷ begin 2
    ∷ finish (raised 7) 3
    ∷ finish (raised 0) 4
    ∷ begin 5
    ∷ finish cancelled 6
    ∷ []

call_rejected : call policy {T = ℕ} opened 129 (returned 5) 130 ≡ (opened, none)
unfolding call
call_rejected = refl

call_probe : call policy {T = ℕ} opened 130 (returned 5) 131 ≡ (
  record opened { state = CircuitBreakerState.half_open; success_count = 1 },
  some (returned 5),
)
unfolding call
call_probe = refl

run-IsValid_example : IsValid policy (run policy init mixed)
run-IsValid_example =
    run-IsValid policy (omega arith) (omega arith) mixed init (init-IsValid policy (omega arith))

abbrev cooling : List (Event ℕ ℕ)
cooling = begin 101 ∷ finish (raised 7) 110 ∷ begin 129 ∷ []

recovers_example :
    let (b', admitted) = admit policy opened 140 in
    (admitted ≡ true)
    × (run {T = ℕ} policy b' (successes ((5, 141) ∷ []))
        ≡ record opened { state = CircuitBreakerState.half_open; success_count = 1 })
    × (run {T = ℕ} policy b' (successes ((5, 141) ∷ []) ++ finish (returned 6) 142 ∷ [])
        ≡ record opened {
          state = CircuitBreakerState.closed;
          failure_count = 0;
          success_count = 2;
        })
recovers_example =
    recovers ℕ policy ((5, 141) ∷ []) 6 142 opened 100 140 refl refl (omega arith) refl
