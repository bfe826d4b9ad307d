-- ===== src/Resilience/Retry/Tests.antt =====
-- Runs of the policy at concrete inputs, and the theorems there.
use python_commons.Base.{ℕ, ◌≤◌, ◌≡◌, refl, true, false, none, [], ◌∷◌, ◌==◌, arith, if◌then◌else◌}
use python_commons.Outcome.{Outcome, returned, raised}
use python_commons.Resilience.Retry.{
  BackoffStrategy, compute, JitterStrategy, apply, RetryPolicy, Executed, delay, execute,
}
use python_commons.Resilience.Retry.Attempts.{Ends, execute-Ends}

-- `random.uniform` that returns its lower bound
abbrev lowest : ℕ → ℕ → ℕ → ℕ
lowest low high attempt = low

-- Exceptions below 10 may be retried.
abbrev policy : RetryPolicy ℕ
policy = record {
  max_attempts = 4;
  backoff = BackoffStrategy.exponential 1 5;
  jitter = JitterStrategy.no_jitter;
  retryable_exceptions = λ e. if e == 7 then true else false;
}

-- A call that fails twice.
abbrev func : ℕ → Outcome ℕ ℕ
func attempt = if attempt == 3 then returned 42 else raised 7

execute_runs : execute lowest policy func ≡ (2 ∷ 4 ∷ [], 3, Executed.ended (returned 42))
unfolding execute delay apply compute
execute_runs = refl

-- With no attempt allowed nothing is called, and `None` is raised.
execute_never :
    execute {T = ℕ} lowest (record policy { max_attempts = 0 }) func
    ≡ ([], 0, Executed.exhausted none)
unfolding execute
execute_never = refl

execute-Ends_example : Ends lowest policy func 1 (execute lowest policy func)
execute-Ends_example = execute-Ends lowest policy func (omega arith)

lowest-bounds :
    (low high attempt : ℕ)
    → low ≤ high
    → (low ≤ lowest low high attempt) × (lowest low high attempt ≤ high)
lowest-bounds low high attempt l = (omega arith, l)
