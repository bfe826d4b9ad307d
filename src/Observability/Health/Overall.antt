-- ===== src/Observability/Health/Overall.antt =====
-- When a report is healthy.
use mathlib.Core.Bool.{false≢true}
use python_commons.Base.{
  ◌≡◌, ◌≢◌, ◌↔◌, refl, sym, ap, ◌∙◌, String, string_eq, ◌=?◌, false, Bool-cases, inl, inr, Option,
  none, some, List, [], ◌∷◌, arith, if◌then◌else◌,
}
use python_commons.Dict.{lookup, insert, lookup-insert, IsUnique, insert-IsUnique}
use python_commons.Outcome.{Outcome, returned, raised, cancelled}
use python_commons.Observability.Health.{
  HealthStatus, HealthCheck, Results, overall, status_of, put_status, on_results, run_checks,
  run_all,
}

-- some name has an unhealthy status
abbrev pub Unhealthy : (String → Option HealthStatus) → Type 0
Unhealthy f = (n : String) × (s : HealthStatus) × (f n ≡ some s) × (s.healthy ≡ false)

overall-Unhealthy :
    (results : Results)
    → IsUnique results
    → overall results ≡ false
    → Unhealthy (λ n. lookup n results)
unfolding overall
overall-Unhealthy [] u e = absurd (false≢true (sym e))
overall-Unhealthy ((k, s) ∷ results) u e = elim (Bool-cases s.healthy) [
  | inr h ↦ (k, s, ground (arith, string_eq.beq_iff k k), h)
  | inl h ↦
      let (n, t, found, bad) = overall-Unhealthy results u.1 (ground (arith, e, h)) in
      (n, t, ground (arith, u.0, found, string_eq.beq_iff k n), bad)
]

Unhealthy-overall :
    (results : Results) (n : String) (s : HealthStatus)
    → lookup n results ≡ some s
    → s.healthy ≡ false
    → overall results ≡ false
unfolding overall
Unhealthy-overall [] n s found bad = cc
Unhealthy-overall ((k, t) ∷ results) n s found bad = elim (Bool-cases (k =? n)) [
  | inl e ↦ ground (arith, found, e, bad)
  | inr e ↦ ground (arith, Unhealthy-overall results n s (ground (arith, found, e)) bad)
]

overall_iff :
    (results : Results) (f : String → Option HealthStatus)
    → IsUnique results
    → ((n : String) → lookup n results ≡ f n)
    → (overall results ≡ false) ↔ Unhealthy f
overall_iff results f u found = (
  λ e. let (n, s, at_n, bad) = overall-Unhealthy results u e in (n, s, sym (found n) ∙ at_n, bad),
  λ (n, s, at_n, bad). Unhealthy-overall results n s (found n ∙ at_n) bad,
)

module _ {X : Type 0} (detail : X → String) where
  -- the status of the last check of a name
  abbrev pub last_status : List (HealthCheck X) → Option HealthStatus → String → Option HealthStatus
  last_status [] o n = o
  last_status (c ∷ cs) o n =
      last_status cs (if c.name =? n then status_of detail c.timed_check else o) n

  -- no check is cancelled
  abbrev pub Uncancelled : List (HealthCheck X) → Type 0
  Uncancelled [] = Unit
  Uncancelled (c ∷ cs) = (c.timed_check ≢ cancelled) × Uncancelled cs

  status_of-some :
      (o : Outcome HealthStatus X)
      → o ≢ cancelled
      → (s : HealthStatus) × (status_of detail o ≡ some s)
  unfolding status_of
  status_of-some (returned s) u = (s, refl)
  status_of-some (raised x) u = (record { healthy = false; detail = some (detail x) }, refl)
  status_of-some cancelled u = absurd (u refl)

  -- The results of a run, found by the name of their checks.
  abbrev HasRun : List (HealthCheck X) → Results → Results → Type 0
  HasRun cs results rs =
      (run_checks detail cs results ≡ some rs)
      × IsUnique rs
      × ((n : String) → lookup n rs ≡ last_status cs (lookup n results) n)

  run_checks-HasRun :
      (cs : List (HealthCheck X)) (results : Results)
      → IsUnique results
      → Uncancelled cs
      → (rs : Results) × HasRun cs results rs
  unfolding run_checks put_status on_results
  run_checks-HasRun [] results u v = (results, (refl, u, λ n. refl))
  run_checks-HasRun (c ∷ cs) results u v =
      let (s, e) = status_of-some c.timed_check v.0 in
      let (rs, (run, w, found)) =
        run_checks-HasRun cs (insert c.name s results) (insert-IsUnique c.name s results u) v.1 in
      (
        rs,
        (
          ap (λ o. on_results (put_status o c.name results) (run_checks detail cs)) e ∙ run,
          w,
          λ n.
              found n
              ∙ ap (λ o. last_status cs o n)
                  (lookup-insert c.name n s results
                    ∙ ap (λ o. if c.name =? n then o else lookup n results) (sym e)),
        ),
      )

  pub run_all-overall :
      (cs : List (HealthCheck X))
      → Uncancelled cs
      → (rs : Results) × (run_all detail cs ≡ some rs)
        × ((n : String) → lookup n rs ≡ last_status cs none n)
        × ((overall rs ≡ false) ↔ Unhealthy (last_status cs none))
  unfolding run_all
  run_all-overall cs v =
      let (rs, (run, u, found)) = run_checks-HasRun cs [] tt v in
      (rs, run, found, overall_iff rs (last_status cs none) u found)
