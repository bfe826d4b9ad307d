-- ===== src/Kernel/Rbac/Tests.antt =====
-- Runs of the policy and the store at concrete inputs, and the theorems there.
use python_commons.Base.{◌≡◌, refl, ◌↔◌, string_eq, true, false, none, some, [], ◌∷◌, if◌then◌else◌}
use python_commons.Kernel.Rbac.{
  permission_matches, RbacRole, RoleStore, get_roles, discard, same_role, remove_role, clear_roles,
  has_permission, Principal, RbacPolicy, evaluate,
}
use python_commons.Kernel.Rbac.Roles.{Holds, evaluate_iff}

matches_runs : permission_matches "orders:*" "orders:cancel" ≡ true
unfolding permission_matches
matches_runs = refl

matches_refuses : permission_matches "orders:*" "order:cancel" ≡ false
unfolding permission_matches
matches_refuses = refl

abbrev editor : RbacRole
editor = record { name = "editor"; permissions = "articles:*" ∷ [] }

abbrev clerk : RbacRole
clerk = record { name = "clerk"; permissions = "orders:read" ∷ "orders:cancel" ∷ [] }

abbrev store : RoleStore
store = ("ann", editor ∷ []) ∷ ("bob", clerk ∷ []) ∷ []

abbrev ann : Principal
ann = record { subject = "ann"; permissions = "orders:read" ∷ [] }

abbrev cancel : RbacPolicy
cancel = record { required = "orders:cancel"; role_store = some store }

remove_runs : has_permission (remove_role "bob" clerk store) "bob" "orders:read" ≡ false
unfolding has_permission remove_role get_roles discard same_role
remove_runs = refl

cleared : has_permission (clear_roles store) "ann" "articles:read" ≡ false
unfolding has_permission clear_roles get_roles
cleared = refl

evaluate_iff_example :
    (((evaluate cancel ann).allowed ≡ true) ↔ Holds cancel ann)
    × ((evaluate cancel ann).missing_permission
        ≡ (if (evaluate cancel ann).allowed then none else some "orders:cancel"))
evaluate_iff_example = evaluate_iff cancel ann
