-- ===== src/Resilience/Retry.antt =====
-- src/mp_commons/resilience/retry: `RetryPolicy` with its backoff and jitter. Delays are natural
-- numbers of a unit. `random.uniform` is a parameter of the jitter, `draw`, given the bounds and
-- the attempt. `execute` and `execute_async` differ in how they wait only, so both are `execute`.
pub mod Attempts
pub mod Delays
mod Tests
use python_commons.Base.{
  ℕ, zero, suc, ◌+◌, ◌-◌, ◌*◌, ◌/◌, ◌^◌, min, Bool, true, false, not, ◌||◌, Option, none, some,
  List, [], ◌∷◌, ◌==◌, if◌then◌else◌,
}
use python_commons.Outcome.{Outcome, returned, raised, cancelled}

pub data BackoffStrategy : Type 0 where
  constant : ℕ → BackoffStrategy
  linear exponential : ℕ → ℕ → BackoffStrategy

pub compute : BackoffStrategy → ℕ → ℕ
compute (BackoffStrategy.constant delay) attempt = delay
compute (BackoffStrategy.linear base max_delay) attempt = min (base * attempt) max_delay
compute (BackoffStrategy.exponential base max_delay) attempt = min (base * (2 ^ attempt)) max_delay

pub data JitterStrategy : Type 0 where
  no_jitter full equal : JitterStrategy

-- `draw low high attempt` is what `random.uniform(low, high)` returns.
pub apply : (ℕ → ℕ → ℕ → ℕ) → JitterStrategy → ℕ → ℕ → ℕ
apply draw JitterStrategy.no_jitter delay attempt = delay
apply draw JitterStrategy.full delay attempt = draw 0 delay attempt
apply draw JitterStrategy.equal delay attempt = let half = delay / 2 in half + draw 0 half attempt

pub record RetryPolicy (E : Type 0) : Type 0 where
  pub max_attempts : ℕ
  pub backoff : BackoffStrategy
  pub jitter : JitterStrategy
  pub retryable_exceptions : E → Bool

-- How `execute` ends: `exhausted` is the `raise last_exc` behind the loop, where `last_exc` is
-- `None` if the loop has not run.
pub data Executed (T E : Type 0) : Type 0 where
  ended : Outcome T E → Executed T E
  exhausted : Option E → Executed T E

-- The calls made, with the delay slept behind each that was retried, and the end.
abbrev pub Run : Type 0 → Type 0 → Type 0
Run T E = List ℕ × ℕ × Executed T E

module _ {T E : Type 0} (draw : ℕ → ℕ → ℕ → ℕ) (policy : RetryPolicy E)
    (func : ℕ → Outcome T E) where
  unfoldable pub delay : ℕ → ℕ
  delay attempt = apply draw policy.jitter (compute policy.backoff attempt) attempt

  -- the `try` of an attempt, before the rest of the loop
  attempted : Outcome T E → ℕ → Run T E → Run T E
  attempted (returned v) attempt rest = ([], 1, Executed.ended (returned v))
  attempted cancelled attempt rest = ([], 1, Executed.ended cancelled)
  attempted (raised e) attempt (slept, calls, result) =
      if not (policy.retryable_exceptions e) || (attempt == policy.max_attempts)
      then ([], 1, Executed.ended (raised e))
      else (delay attempt ∷ slept, suc calls, result)

  -- `last_exc` after an attempt
  last_exception : Outcome T E → Option E → Option E
  last_exception (raised e) last = some e
  last_exception _ last = last

  -- the loop, with so many attempts left
  loop : ℕ → ℕ → Option E → Run T E
  unfolding attempted last_exception
  loop zero attempt last = ([], 0, Executed.exhausted last)
  loop (suc n) attempt last =
      attempted (func attempt) attempt (loop n (suc attempt) (last_exception (func attempt) last))

  pub execute : Run T E
  unfolding loop
  execute = loop policy.max_attempts 1 none
