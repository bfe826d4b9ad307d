-- ===== src/Kernel/Policies.antt =====
-- src/mp_commons/kernel/ddd/policies.py: policies and what they are composed of. The composites
-- refuse an empty list of policies, so theirs is `Policies`, which has at least one. How a time
-- is printed is a parameter.
pub mod Meaning
mod Tests
use Prim.Native.String.{◌++◌}
use python_commons.Base.{ℕ, String, Bool, true, false, Option, none, some, ltb, if◌then◌else◌}

pub record PolicyResult : Type 0 where
  pub allowed : Bool
  pub reason : Option String

abbrev pub permit : Option String → PolicyResult
permit reason = record { allowed = true; reason = reason }

abbrev pub deny : String → PolicyResult
deny reason = record { allowed = false; reason = some reason }

-- A policy of a subclass is the function that it evaluates.
mutual
  pub data Policy (C : Type 0) : Type 0 where
    rule : (C → PolicyResult) → Policy C
    all_of any_of none_of : Policies C → Policy C

  pub data Policies (C : Type 0) : Type 0 where
    only : Policy C → Policies C
    more : Policy C → Policies C → Policies C

-- `f"… forbids: {result.reason}"`
forbidden : Option String → String
forbidden none = "policy was allowed but NoneOf forbids: None"
forbidden (some reason) = "policy was allowed but NoneOf forbids: " ++ reason

-- one round of each composite's loop, with what the rest of the loop returns
all_round : PolicyResult → PolicyResult → PolicyResult
all_round result rest = if result.allowed then rest else result

any_round : PolicyResult → PolicyResult → PolicyResult
any_round result rest = if result.allowed then result else rest

none_round : PolicyResult → PolicyResult → PolicyResult
unfolding forbidden
none_round result rest = if result.allowed then deny (forbidden result.reason) else rest

-- `evaluate`, and the loops of the composites. The loop of `AnyOf` ends with its last denial.
mutual
  unfolding all_round any_round none_round

  pub evaluate : {C : Type 0} → Policy C → C → PolicyResult
  evaluate (rule f) ctx = f ctx
  evaluate (all_of ps) ctx = evaluate_all ps ctx
  evaluate (any_of ps) ctx = evaluate_any ps ctx
  evaluate (none_of ps) ctx = evaluate_none ps ctx

  pub evaluate_all : {C : Type 0} → Policies C → C → PolicyResult
  evaluate_all (only p) ctx = all_round (evaluate p ctx) (permit none)
  evaluate_all (more p ps) ctx = all_round (evaluate p ctx) (evaluate_all ps ctx)

  pub evaluate_any : {C : Type 0} → Policies C → C → PolicyResult
  evaluate_any (only p) ctx = any_round (evaluate p ctx) (evaluate p ctx)
  evaluate_any (more p ps) ctx = any_round (evaluate p ctx) (evaluate_any ps ctx)

  pub evaluate_none : {C : Type 0} → Policies C → C → PolicyResult
  evaluate_none (only p) ctx = none_round (evaluate p ctx) (permit none)
  evaluate_none (more p ps) ctx = none_round (evaluate p ctx) (evaluate_none ps ctx)

-- `ExpiryPolicy`
pub expiry : (ℕ → String) → Option ℕ → Option ℕ → ℕ → PolicyResult
expiry isoformat not_before not_after ts = elim not_before [
  | none ↦ before_end not_after
  | some start ↦
      if ltb ts start
      then deny ("timestamp " ++ (isoformat ts ++ (" is before " ++ isoformat start)))
      else before_end not_after
]
  where
    before_end : Option ℕ → PolicyResult
    before_end none = permit none
    before_end (some end) =
        if ltb end ts
        then deny ("timestamp " ++ (isoformat ts ++ (" is after " ++ isoformat end)))
        else permit none
