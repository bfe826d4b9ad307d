-- ===== src/Kernel/Rbac.antt =====
-- src/mp_commons/kernel/security/rbac.py, and the identity of principal.py. A frozenset is a list,
-- of which only the members matter; a `Permission` is its value. The decorator's context variable
-- is the argument `current`: the principal, if there is one.
pub mod Matching
pub mod Roles
pub mod Assignments
mod Tests
use Prim.Native.String.{[], ◌∷◌}
use text.Mathlib.Text.{starts_with}
use python_commons.Base.{
  String, string_eq, ◌=?◌, Bool, true, false, ◌&&◌, ◌||◌, Option, none, some, List, [], ◌∷◌, ◌++◌,
  any, all, if◌then◌else◌,
}
use python_commons.Dict.{Dict, lookup, insert}

-- `s.endswith(t)`
pub ends_with : String → String → Bool
ends_with [] t = [] =? t
ends_with (c ∷ s) t = ((c ∷ s) =? t) || ends_with s t

-- `s[:-1]`
pub init : String → String
init [] = []
init (c ∷ []) = []
init (c ∷ (d ∷ s)) = c ∷ init (d ∷ s)

-- `_permission_matches`
pub permission_matches : String → String → Bool
unfolding ends_with init
permission_matches stored required =
    if stored =? "*"
    then true
    else if stored =? required
    then true
    else if ends_with stored ":*"
    then starts_with required (init stored)
    else false

pub record RbacRole : Type 0 where
  pub name : String
  pub permissions : List String

unfoldable pub grants : List String → String → Bool
grants permissions required = any (λ p. permission_matches p required) permissions

unfoldable pub role_has_permission : RbacRole → String → Bool
role_has_permission role required = grants role.permissions required

-- `==` of two frozen dataclasses whose sets are compared by their members
within : List String → List String → Bool
within xs ys = all (λ x. any (λ y. x =? y) ys) xs

pub same_role : RbacRole → RbacRole → Bool
unfolding within
same_role r s =
    (r.name =? s.name) && (within r.permissions s.permissions && within s.permissions r.permissions)

-- `set.add` and `set.discard`
pub add : RbacRole → List RbacRole → List RbacRole
add role roles = if any (same_role role) roles then roles else roles ++ role ∷ []

pub discard : RbacRole → List RbacRole → List RbacRole
discard role [] = []
discard role (r ∷ roles) = if same_role role r then roles else r ∷ discard role roles

-- `InMemoryRoleStore`
abbrev pub RoleStore : Type 0
RoleStore = Dict String (List RbacRole)

unfoldable pub get_roles : RoleStore → String → List RbacRole
get_roles store id = elim (lookup id store) [ none ↦ [] | some roles ↦ roles ]

unfoldable pub add_role : String → RbacRole → RoleStore → RoleStore
add_role id role store = insert id (add role (get_roles store id)) store

unfoldable pub remove_role : String → RbacRole → RoleStore → RoleStore
remove_role id role store = elim (lookup id store) [
  | none ↦ store
  | some roles ↦ insert id (discard role roles) store
]

unfoldable pub clear_roles : RoleStore → RoleStore
clear_roles store = []

unfoldable pub has_permission : RoleStore → String → String → Bool
has_permission store id required = any (λ r. role_has_permission r required) (get_roles store id)

pub record Principal : Type 0 where
  pub subject : String
  pub permissions : List String

-- `RBACPolicy` and the `RBACResult` of its `evaluate`
pub record RbacPolicy : Type 0 where
  pub required : String
  pub role_store : Option RoleStore

pub record RbacResult : Type 0 where
  pub allowed : Bool
  pub principal : Principal
  pub missing_permission : Option String

stored_permission : Option RoleStore → String → String → Bool
stored_permission none id required = false
stored_permission (some store) id required = has_permission store id required

pub evaluate : RbacPolicy → Principal → RbacResult
unfolding stored_permission
evaluate policy principal =
    if grants principal.permissions policy.required
    then record { allowed = true; principal = principal; missing_permission = none }
    else if stored_permission policy.role_store principal.subject policy.required
    then record { allowed = true; principal = principal; missing_permission = none }
    else record {
      allowed = false;
      principal = principal;
      missing_permission = some policy.required;
    }

-- `@require_permission`: how a call of the decorated function ends. `unauthorized` is what
-- `SecurityContext.require` raises when there is no principal.
pub data Guarded (T : Type 0) : Type 0 where
  unauthorized : Guarded T
  forbidden : RbacResult → Guarded T
  called : T → Guarded T

pub require_permission : {T : Type 0} → RbacPolicy → Option Principal → T → Guarded T
require_permission policy none fn = Guarded.unauthorized
require_permission policy (some principal) fn =
    let result = evaluate policy principal in
    if result.allowed then Guarded.called fn else Guarded.forbidden result
