-- ===== src/Kernel/Policies/Meaning.antt =====
-- What the composite policies mean.
use python_commons.Base.{
  ℕ, ◌≤◌, ◌≡◌, refl, ◌↔◌, String, Bool, true, not, ◌&&◌, Option, none, some, arith,
}
use python_commons.Kernel.Policies.{
  Policy, Policies, all_round, any_round, none_round, evaluate, evaluate_all, evaluate_any,
  evaluate_none, expiry,
}

-- The truth tables: no order, and no early return.
mutual
  pub allows : {C : Type 0} → Policy C → C → Bool
  allows (Policy.rule f) ctx = (f ctx).allowed
  allows (Policy.all_of ps) ctx = all_allow ps ctx
  allows (Policy.any_of ps) ctx = not (none_allows ps ctx)
  allows (Policy.none_of ps) ctx = none_allows ps ctx

  pub all_allow : {C : Type 0} → Policies C → C → Bool
  all_allow (Policies.only p) ctx = allows p ctx
  all_allow (Policies.more p ps) ctx = allows p ctx && all_allow ps ctx

  pub none_allows : {C : Type 0} → Policies C → C → Bool
  none_allows (Policies.only p) ctx = not (allows p ctx)
  none_allows (Policies.more p ps) ctx = not (allows p ctx) && none_allows ps ctx

mutual
  unfolding evaluate evaluate_all evaluate_any evaluate_none all_round any_round none_round allows
      all_allow none_allows

  agrees : {C : Type 0} (p : Policy C) (ctx : C) → (evaluate p ctx).allowed ≡ allows p ctx
  agrees (Policy.rule f) ctx = refl
  agrees (Policy.all_of ps) ctx = agrees_all ps ctx
  agrees (Policy.any_of ps) ctx = agrees_any ps ctx
  agrees (Policy.none_of ps) ctx = agrees_none ps ctx

  agrees_all :
      {C : Type 0} (ps : Policies C) (ctx : C) → (evaluate_all ps ctx).allowed ≡ all_allow ps ctx
  agrees_all (Policies.only p) ctx = ground (arith, agrees p ctx)
  agrees_all (Policies.more p ps) ctx = ground (arith, agrees p ctx, agrees_all ps ctx)

  agrees_any :
      {C : Type 0} (ps : Policies C) (ctx : C)
      → (evaluate_any ps ctx).allowed ≡ not (none_allows ps ctx)
  agrees_any (Policies.only p) ctx = ground (arith, agrees p ctx)
  agrees_any (Policies.more p ps) ctx = ground (arith, agrees p ctx, agrees_any ps ctx)

  agrees_none :
      {C : Type 0} (ps : Policies C) (ctx : C) → (evaluate_none ps ctx).allowed ≡ none_allows ps ctx
  agrees_none (Policies.only p) ctx = ground (arith, agrees p ctx)
  agrees_none (Policies.more p ps) ctx = ground (arith, agrees p ctx, agrees_none ps ctx)

-- A policy, however deep its composition, allows a context exactly if its truth table does: of
-- `AllOf` all policies allow, of `AnyOf` at least one does, of `NoneOf` none.
pub evaluate-allows :
    {C : Type 0} (p : Policy C) (ctx : C) → (evaluate p ctx).allowed ≡ allows p ctx
evaluate-allows p ctx = agrees p ctx

-- The time is not before the first bound nor after the second, where they are given.
abbrev pub Within : Option ℕ → Option ℕ → ℕ → Type 0
Within none none ts = Unit
Within none (some end) ts = ts ≤ end
Within (some start) none ts = start ≤ ts
Within (some start) (some end) ts = (start ≤ ts) × (ts ≤ end)

-- `ExpiryPolicy` allows exactly the times within its bounds, the bounds included.
pub expiry_iff :
    (isoformat : ℕ → String) (not_before not_after : Option ℕ) (ts : ℕ)
    → ((expiry isoformat not_before not_after ts).allowed ≡ true) ↔ Within not_before not_after ts
unfolding expiry
expiry_iff isoformat none none ts = (λ h. tt, λ h. refl)
expiry_iff isoformat none (some end) ts = ground arith
expiry_iff isoformat (some start) none ts = ground arith
expiry_iff isoformat (some start) (some end) ts = ground arith
