-- ===== src/Resilience/Shutdown/Tests.antt =====
-- A shutdown at concrete hooks, and the theorem there.
use python_commons.Base.{ℕ, ◌+◌, ◌≡◌, refl, false, none, [], ◌∷◌, map, reverse}
use python_commons.Outcome.{returned, raised}
use python_commons.Resilience.Shutdown.{Hook, GracefulShutdown, drain, run_hooks}
use python_commons.Resilience.Shutdown.Hooks.{Drains, run_hooks-Drains}

-- the world is the clock
abbrev slow : ℕ → Hook ℕ ℕ
slow n = record { name = n; call = λ remaining w. (w + 20, returned tt) }

abbrev breaks : Hook ℕ ℕ
breaks = record { name = 9; call = λ remaining w. (w + 1, raised 5) }

abbrev shutdown : GracefulShutdown ℕ ℕ
shutdown = record {
  drain_timeout = 30;
  hooks = slow 1 ∷ slow 2 ∷ breaks ∷ slow 3 ∷ [];
  is_set = false;
  triggered_by = none;
}

run_hooks_runs : (run_hooks (λ w. w) shutdown 100).called ≡ 3 ∷ 9 ∷ 2 ∷ []
unfolding run_hooks drain
run_hooks_runs = refl

run_hooks-Drains_example :
    Drains
      (λ w. w)
      (100 + 30)
      (map (λ h. h.name) (reverse shutdown.hooks))
      (run_hooks (λ w. w) shutdown 100)
run_hooks-Drains_example = run_hooks-Drains (λ w. w) shutdown 100
