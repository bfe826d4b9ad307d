-- ===== src/Observability/Health/Tests.antt =====
-- A run of concrete checks, and the theorem there.
use python_commons.Base.{
  ℕ, ◌≡◌, ◌↔◌, refl, String, string_eq, true, false, none, some, List, [], ◌∷◌,
}
use python_commons.Dict.{lookup}
use python_commons.Outcome.{returned, raised}
use python_commons.Observability.Health.{
  HealthStatus, HealthCheck, Results, overall, status_of, run_checks, run_all,
}
use python_commons.Observability.Health.Overall.{Unhealthy, last_status, run_all-overall}

abbrev text : ℕ → String
text _ = "exception"

abbrev up : HealthStatus
up = record { healthy = true; detail = none }

-- the first check of the database raises, the second one hides it
abbrev checks : List (HealthCheck ℕ)
checks =
    record { name = "db"; timed_check = raised 1 }
    ∷ record { name = "cache"; timed_check = returned up }
    ∷ record { name = "db"; timed_check = returned up }
    ∷ []

checks_run : run_all text checks ≡ some (("db", up) ∷ ("cache", up) ∷ [])
unfolding run_all run_checks status_of
checks_run = refl

run_all-overall_example :
    (rs : Results) × (run_all text checks ≡ some rs)
    × ((n : String) → lookup n rs ≡ last_status text checks none n)
    × ((overall rs ≡ false) ↔ Unhealthy (last_status text checks none))
run_all-overall_example = run_all-overall text checks ((λ e. cc), ((λ e. cc), ((λ e. cc), tt)))
