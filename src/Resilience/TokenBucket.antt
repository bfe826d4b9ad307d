-- ===== src/Resilience/TokenBucket.antt =====
-- src/mp_commons/resilience/throttle/token_bucket.py: `TokenBucket` and `ThrottlePolicy`. The
-- floats are natural numbers: tokens in a unit small enough that `refill_rate` is a whole number
-- of units per tick of `time.monotonic()`, whose readings never go back.
pub mod Bounds
mod Tests
use python_commons.Base.{ℕ, ◌+◌, ◌-◌, ◌*◌, Bool, true, false, leb, if◌then◌else◌, min}
use python_commons.Outcome.{Outcome}

pub record TokenBucket : Type 0 where
  pub capacity : ℕ
  pub refill_rate : ℕ
  pub tokens : ℕ
  pub last_refill : ℕ

unfoldable pub post_init : ℕ → ℕ → ℕ → TokenBucket
post_init capacity refill_rate now = record {
  capacity = capacity;
  refill_rate = refill_rate;
  tokens = capacity;
  last_refill = now;
}

pub refill : TokenBucket → ℕ → TokenBucket
refill b now = record b {
  tokens = min b.capacity (b.tokens + (now - b.last_refill) * b.refill_rate);
  last_refill = now;
}

pub acquire : TokenBucket → ℕ → ℕ → TokenBucket × Bool
unfolding refill
acquire b tokens now =
    let r = refill b now in
    if leb tokens r.tokens then (record r { tokens = r.tokens - tokens }, true) else (r, false)

-- What `retry_after_ms` returns: 0, infinity, or `needed / refill_rate` (in ticks) as a fraction.
pub data RetryAfter : Type 0 where
  at_once never : RetryAfter
  fraction : ℕ → ℕ → RetryAfter

pub retry_after_ms : TokenBucket → ℕ → RetryAfter
retry_after_ms b tokens =
    if leb tokens b.tokens
    then RetryAfter.at_once
    else if leb b.refill_rate 0
    then RetryAfter.never
    else RetryAfter.fraction (tokens - b.tokens) b.refill_rate

-- `ThrottlePolicy.execute`: the function's outcome, or `ThrottledError` with its delay.
pub data Throttled (T E : Type 0) : Type 0 where
  ran : Outcome T E → Throttled T E
  throttled_error : RetryAfter → Throttled T E

pub execute : {T E : Type 0} → TokenBucket → ℕ → ℕ → Outcome T E → TokenBucket × Throttled T E
unfolding acquire retry_after_ms
execute b tokens now fn =
    let (b', granted) = acquire b tokens now in
    if granted
    then (b', Throttled.ran fn)
    else (b', Throttled.throttled_error (retry_after_ms b' tokens))
