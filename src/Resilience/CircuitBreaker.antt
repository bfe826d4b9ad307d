-- ===== src/Resilience/CircuitBreaker.antt =====
-- src/mp_commons/resilience/circuit_breaker: `CircuitBreakerPolicy`, `CircuitBreakerState` and
-- `CircuitBreaker`. Clock readings are ticks of `time.monotonic()`, and the two halves of `call`
-- that run under the lock, before and after the awaited function, are functions of their own, so
-- that calls can interleave.
pub mod Invariant
pub mod Runs
mod Tests
use python_commons.Base.{ℕ, ◌+◌, Bool, true, false, Option, none, some, leb, if◌then◌else◌, ◌&&◌}
use python_commons.Outcome.{Outcome, returned, raised, cancelled}

pub record CircuitBreakerPolicy (E : Type 0) : Type 0 where
  pub failure_threshold : ℕ
  pub success_threshold : ℕ
  pub timeout_seconds : ℕ
  pub window_seconds : ℕ
  pub excluded_exceptions : E → Bool

pub data CircuitBreakerState : Type 0 where
  closed open_circuit half_open : CircuitBreakerState

pub record CircuitBreaker : Type 0 where
  pub state : CircuitBreakerState
  pub failure_count : ℕ
  pub success_count : ℕ
  pub opened_at : Option ℕ

unfoldable pub init : CircuitBreaker
init = record {
  state = CircuitBreakerState.closed;
  failure_count = 0;
  success_count = 0;
  opened_at = none;
}

is_open : CircuitBreakerState → Bool
is_open CircuitBreakerState.open_circuit = true
is_open _ = false

module _ {E : Type 0} (policy : CircuitBreakerPolicy E) where
  -- `time.monotonic() - self._opened_at >= timeout_seconds`, when there is a time
  elapsed : Option ℕ → ℕ → Bool
  elapsed none now = false
  elapsed (some t) now = leb (t + policy.timeout_seconds) now

  half_open_if_due : CircuitBreakerState → CircuitBreaker → ℕ → CircuitBreaker
  unfolding elapsed
  half_open_if_due CircuitBreakerState.open_circuit b now =
      if elapsed b.opened_at now
      then record b { state = CircuitBreakerState.half_open; success_count = 0 }
      else b
  half_open_if_due _ b now = b

  pub maybe_transition_half_open : CircuitBreaker → ℕ → CircuitBreaker
  unfolding half_open_if_due
  maybe_transition_half_open b now = half_open_if_due b.state b now

  count_success : CircuitBreakerState → CircuitBreaker → CircuitBreaker
  count_success CircuitBreakerState.half_open b =
      if leb policy.success_threshold (b.success_count + 1)
      then record b {
        state = CircuitBreakerState.closed;
        failure_count = 0;
        success_count = b.success_count + 1;
      }
      else record b { success_count = b.success_count + 1 }
  count_success CircuitBreakerState.closed b = record b { failure_count = 0 }
  count_success CircuitBreakerState.open_circuit b = b

  pub on_success : CircuitBreaker → CircuitBreaker
  unfolding count_success
  on_success b = count_success b.state b

  pub on_failure : CircuitBreaker → ℕ → CircuitBreaker
  on_failure b now =
      if leb policy.failure_threshold (b.failure_count + 1)
      then record b {
        state = CircuitBreakerState.open_circuit;
        failure_count = 0;
        opened_at = some now;
      }
      else record b { failure_count = b.failure_count + 1 }

  -- The first half of `call`: the new state, and whether the function is awaited (`false` is
  -- `raise CircuitOpenError`).
  pub admit : CircuitBreaker → ℕ → CircuitBreaker × Bool
  unfolding maybe_transition_half_open is_open
  admit b now =
      let b' = maybe_transition_half_open b now in
      if is_open b'.state then (b', false) else (b', true)

  -- The second half: what the end of the awaited function is recorded as.
  pub settle {ℓ} : {T : Type ℓ} → CircuitBreaker → Outcome T E → ℕ → CircuitBreaker
  unfolding on_success on_failure
  settle b (returned v) now = on_success b
  settle b (raised e) now = if policy.excluded_exceptions e then b else on_failure b now
  settle b cancelled now = b

  -- `call`, with nothing else in between: `none` is `CircuitOpenError`.
  pub call {ℓ} :
      {T : Type ℓ} → CircuitBreaker → ℕ → Outcome T E → ℕ → CircuitBreaker × Option (Outcome T E)
  unfolding admit settle
  call b started outcome ended =
      let (b', admitted) = admit b started in
      if admitted then (settle b' outcome ended, some outcome) else (b', none)
