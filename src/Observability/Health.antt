-- ===== src/Observability/Health.antt =====
-- src/mp_commons/observability/health/registry.py: `HealthRegistry` and `HealthReport`. A check is
-- its name and what its `timed_check` ends with; `detail` makes the detail of an exception.
-- Latencies are left out.
pub mod Overall
mod Tests
use python_commons.Base.{
  String, string_eq, Bool, true, false, ◌&&◌, Option, none, some, List, [], ◌∷◌,
}
use python_commons.Dict.{Dict, insert}
use python_commons.Outcome.{Outcome, returned, raised, cancelled}

pub record HealthStatus : Type 0 where
  pub healthy : Bool
  pub detail : Option String

pub record HealthCheck (X : Type 0) : Type 0 where
  pub name : String
  pub timed_check : Outcome HealthStatus X

-- `results` of a `HealthReport`
abbrev pub Results : Type 0
Results = Dict String HealthStatus

-- `overall`
unfoldable pub overall : Results → Bool
overall [] = true
overall ((_, s) ∷ results) = s.healthy && overall results

module _ {X : Type 0} (detail : X → String) where
  -- the `try` around a check; `none` is a cancellation
  unfoldable pub status_of : Outcome HealthStatus X → Option HealthStatus
  status_of (returned s) = some s
  status_of (raised x) = some (record { healthy = false; detail = some (detail x) })
  status_of cancelled = none

put_status : Option HealthStatus → String → Results → Option Results
put_status none name results = none
put_status (some s) name results = some (insert name s results)

on_results : Option Results → (Results → Option Results) → Option Results
on_results none rest = none
on_results (some results) rest = rest results

module _ {X : Type 0} (detail : X → String) where
  -- the loop of `run_all`
  unfoldable pub run_checks : List (HealthCheck X) → Results → Option Results
  unfolding put_status on_results
  run_checks [] results = some results
  run_checks (c ∷ cs) results =
      on_results (put_status (status_of detail c.timed_check) c.name results) (run_checks cs)

  unfoldable pub run_all : List (HealthCheck X) → Option Results
  run_all cs = run_checks cs []
