-- ===== src/Adapters/Fastapi/Limits.antt =====
-- src/mp_commons/adapters/fastapi/middleware.py: `FastAPIMetricsMiddleware` and
-- `FastAPIRateLimitMiddleware`. The metrics and the limiter are arguments, that act on the world.
pub mod Metered
pub mod Limited
use python_commons.Base.{
  ℕ, ◌+◌, ◌/◌, String, string_eq, Bool, true, false, Option, none, some, List, [], ◌∷◌, leb,
  if◌then◌else◌,
}
use python_commons.Outcome.{Outcome, returned, raised, cancelled}
use python_commons.Application.RateLimit.{RateLimitResult, is_allowed, retry_after_seconds}
use python_commons.Adapters.Fastapi.{
  ScopeType, Scope, Received, Body, Value, Message, State, Response, App,
}
use python_commons.Adapters.Fastapi.Contexts.{is_http}

-- `_requests`, `_latency` and `_errors`; the labels of the requests have the status as well
pub record Metrics (W : Type 0) : Type 0 where
  pub add_request : (method path : String) → (status : ℕ) → W → W
  pub record_latency : (method path : String) → W → W
  pub add_error : (method path : String) → W → W

-- `status_code[0]` behind the messages that were sent
unfoldable pub captured : ℕ → List Message → ℕ
captured status_code [] = status_code
captured status_code (Message.start status headers ∷ sent) = captured status sent
captured status_code (Message.body b ∷ sent) = captured status_code sent
captured status_code (Message.other ∷ sent) = captured status_code sent

module _ {W : Type 0} where
  -- the `finally` block
  observe : Metrics W → String → String → ℕ → W → W
  observe m method path status w =
      let w' = m.record_latency method path (m.add_request method path status w) in
      if leb 500 status then m.add_error method path w' else w'

module _ {P X W : Type 0} where
  observed : Metrics W → Scope → Response P X W → Response P X W
  unfolding observe
  observed m scope r = record r {
    state = record r.state {
      world = observe m scope.method scope.path (captured 200 r.sent) r.state.world;
    };
  }

  -- `FastAPIMetricsMiddleware.__call__`
  unfoldable pub meter : Metrics W → App P X W → App P X W
  unfolding observed
  meter m app scope received s =
      if is_http scope.type then observed m scope (app scope received s) else app scope received s

-- `_default_identifier`
unfoldable pub default_identifier : Scope → String
default_identifier scope = elim scope.client [ none ↦ "unknown" | some host ↦ host ]

module _ {P X W : Type 0} (second now : ℕ) where
  -- the answer of a request that is over the limit; `second` is the number of ticks in a second
  limited : RateLimitResult → State P W → Response P X W
  limited result s =
      let b = Body.rate_limit_exceeded (retry_after_seconds result now / second + 1) in
      record {
        sent =
            Message.start 429 (
              ("content-type", Value.text "application/json")
              ∷ ("content-length", Value.length_of b)
              ∷ ("retry-after", Value.decimal (retry_after_seconds result now / second + 1))
              ∷ [])
            ∷ Message.body b
            ∷ [];
        state = s;
        ended = returned tt;
      }

  -- what the check of the limiter has ended with
  checked : W × Outcome RateLimitResult X → App P X W → App P X W
  unfolding limited
  checked (w, returned result) app scope received s =
      if is_allowed result
      then app scope received (record s { world = w })
      else limited result (record s { world = w })
  checked (w, raised x) app scope received s = record {
    sent = [];
    state = record s { world = w };
    ended = raised x;
  }
  checked (w, cancelled) app scope received s = record {
    sent = [];
    state = record s { world = w };
    ended = cancelled;
  }

  -- `FastAPIRateLimitMiddleware.__call__`
  unfoldable pub limit :
      (Scope → String) → (String → W → W × Outcome RateLimitResult X) → App P X W → App P X W
  unfolding checked
  limit identifier_fn check app scope received s =
      if is_http scope.type
      then checked (check (identifier_fn scope) s.world) app scope received s
      else app scope received s
