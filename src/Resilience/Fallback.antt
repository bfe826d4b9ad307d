-- ===== src/Resilience/Fallback.antt =====
-- src/mp_commons/resilience/fallback/policy.py: `FallbackPolicy` and `CachedFallbackPolicy`. An
-- awaited callable is its `Outcome` over every `BaseException`, so a cancellation is one of the
-- exceptions here, which `on_exceptions` tests as the others.
pub mod Serving
mod Tests
use python_commons.Base.{Bool, true, false, Option, none, some, if◌then◌else◌}

-- How an awaited callable ends.
pub data Ended (T E : Type 0) : Type 0 where
  value : T → Ended T E
  exception : E → Ended T E

-- The fallback is a value, or a callable that is awaited.
pub data Fallback (T E : Type 0) : Type 0 where
  constant : T → Fallback T E
  callable : Ended T E → Fallback T E

module _ {T E : Type 0} (on_exceptions : E → Bool) where
  unfoldable pub fall_back : Fallback T E → Ended T E
  fall_back (constant v) = value v
  fall_back (callable outcome) = outcome

  -- `FallbackPolicy.execute`
  pub execute : Fallback T E → Ended T E → Ended T E
  unfolding fall_back
  execute fallback (value v) = value v
  execute fallback (exception e) = if on_exceptions e then fall_back fallback else exception e

  -- `CachedFallbackPolicy`: `_last_success`
  unfoldable pub has_cached : Option T → Bool
  has_cached none = false
  has_cached (some v) = true

  -- `cached_value`: `none` is `ValueError`.
  unfoldable pub cached_value : Option T → Option T
  cached_value last = last

  serve_cached : Option T → Fallback T E → Ended T E
  unfolding fall_back
  serve_cached (some v) fallback = value v
  serve_cached none fallback = fall_back fallback

  -- `CachedFallbackPolicy.execute`: the last success, and how it ends.
  pub execute_cached : Fallback T E → Option T → Ended T E → Option T × Ended T E
  unfolding serve_cached
  execute_cached fallback last (value v) = (some v, value v)
  execute_cached fallback last (exception e) =
      (last, if on_exceptions e then serve_cached last fallback else exception e)
