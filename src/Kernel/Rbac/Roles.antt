-- ===== src/Kernel/Rbac/Roles.antt =====
-- Whom the policy allows, and what the store's operations change of it.
use python_commons.Base.{
  ◌≡◌, refl, sym, ◌∙◌, ap, ◌↔◌, ◌⊎◌, inl, inr, String, string_eq, Bool, true, false, ◌||◌, Option,
  none, some, List, Any, any_of_Any, any-Any, Bool-cases, arith, if◌then◌else◌,
}
use python_commons.Kernel.Rbac.{
  permission_matches, grants, role_has_permission, RoleStore, get_roles, has_permission, Principal,
  RbacPolicy, stored_permission, evaluate, Guarded, require_permission,
}
use python_commons.Kernel.Rbac.Matching.{Covers, permission_matches_iff}

-- One of the permissions covers the required one.
abbrev pub Granted : List String → String → Type 0
Granted permissions required = Any (λ p. Covers p required) permissions

abbrev pub GrantedByRole : Option RoleStore → String → String → Type 0
GrantedByRole none id required = ⊥
GrantedByRole (some store) id required =
    Any (λ r. Granted r.permissions required) (get_roles store id)

-- The principal has the permission itself, or by one of the roles that the store has for it.
abbrev pub Holds : RbacPolicy → Principal → Type 0
Holds policy principal =
    Granted principal.permissions policy.required
    ⊎ GrantedByRole policy.role_store principal.subject policy.required

grants_iff :
    (permissions : List String) (required : String)
    → (grants permissions required ≡ true) ↔ Granted permissions required
unfolding grants
grants_iff permissions required = (
  any-Any (λ p. permission_matches p required) (λ p. (permission_matches_iff p required).0)
      permissions,
  any_of_Any (λ p. permission_matches p required) (λ p. (permission_matches_iff p required).1)
      permissions,
)

stored_permission_iff :
    (store : Option RoleStore) (id required : String)
    → (stored_permission store id required ≡ true) ↔ GrantedByRole store id required
unfolding stored_permission has_permission role_has_permission
stored_permission_iff none id required = (λ e. cc e, λ e. absurd e)
stored_permission_iff (some store) id required = (
  any-Any (λ r. role_has_permission r required) (λ r. (grants_iff r.permissions required).0)
      (get_roles store id),
  any_of_Any (λ r. role_has_permission r required) (λ r. (grants_iff r.permissions required).1)
      (get_roles store id),
)

evaluate-allowed :
    (policy : RbacPolicy) (principal : Principal)
    → (evaluate policy principal).allowed ≡ (
        grants principal.permissions policy.required
        || stored_permission policy.role_store principal.subject policy.required)
unfolding evaluate
evaluate-allowed policy principal = ground arith

-- The policy allows a principal exactly if one of its own permissions, or of those of a role that
-- the store has for its subject, covers the required one; if not, it names the missing permission.
pub evaluate_iff :
    (policy : RbacPolicy) (principal : Principal)
    → (((evaluate policy principal).allowed ≡ true) ↔ Holds policy principal)
      × ((evaluate policy principal).missing_permission
          ≡ (if (evaluate policy principal).allowed then none else some policy.required))
unfolding evaluate
evaluate_iff policy principal = ((holds_of_allowed, allowed_of_holds), ground arith)
  where
    holds_of_allowed : (evaluate policy principal).allowed ≡ true → Holds policy principal
    holds_of_allowed e = elim (Bool-cases (grants principal.permissions policy.required)) [
      | inl ok ↦ inl ((grants_iff principal.permissions policy.required).0 ok)
      | inr bad ↦ inr (
          (stored_permission_iff policy.role_store principal.subject policy.required).0
            (ground (arith, sym (evaluate-allowed policy principal) ∙ e, bad)))
    ]

    allowed_of_holds : Holds policy principal → (evaluate policy principal).allowed ≡ true
    allowed_of_holds (inl h) =
        evaluate-allowed policy principal
        ∙ ground (arith, (grants_iff principal.permissions policy.required).1 h)
    allowed_of_holds (inr h) =
        evaluate-allowed policy principal
        ∙ ground
            (arith, (stored_permission_iff policy.role_store principal.subject policy.required).1 h)

-- There is a principal, and it holds the permission.
abbrev pub Authorized : RbacPolicy → Option Principal → Type 0
Authorized policy none = ⊥
Authorized policy (some principal) = Holds policy principal

is_called : {T : Type 0} → Guarded T → Bool
is_called (Guarded.called fn) = true
is_called _ = false

-- The decorated function is called exactly if there is a principal and it holds the permission.
pub require_permission_iff :
    {T : Type 0} (policy : RbacPolicy) (current : Option Principal) (fn : T)
    → (require_permission policy current fn ≡ Guarded.called fn) ↔ Authorized policy current
unfolding require_permission is_called
require_permission_iff policy none fn = (λ e. cc e, λ h. absurd h)
require_permission_iff policy (some principal) fn = (
  λ e. elim (Bool-cases (evaluate policy principal).allowed) [
    | inl ok ↦ (evaluate_iff policy principal).0.0 ok
    | inr bad ↦ absurd (ground (arith, ap is_called e, bad))
  ],
  λ h. rw ((evaluate_iff policy principal).0.1 h) refl,
)
