-- ===== src/Kernel/Policies/Tests.antt =====
-- Policies at concrete inputs, and the theorems there.
use python_commons.Base.{ℕ, ◌≡◌, refl, String, none, leb, if◌then◌else◌}
use python_commons.Kernel.Policies.{permit, deny, Policy, Policies, evaluate}

abbrev at_least : ℕ → Policy ℕ
at_least n = Policy.rule (λ age. if leb n age then permit none else deny "must be older")

abbrev teenager : Policy ℕ
teenager =
    Policy.all_of
      (Policies.more (at_least 13) (Policies.only (Policy.none_of (Policies.only (at_least 20)))))

evaluate_runs : evaluate teenager 12 ≡ deny "must be older"
unfolding evaluate
evaluate_runs = refl

abbrev isoformat : ℕ → String
isoformat ts = "t"
