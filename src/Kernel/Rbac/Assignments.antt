-- ===== src/Kernel/Rbac/Assignments.antt =====
-- What adding and removing roles changes of the permissions.
use text.Mathlib.TextEquality.{eq_iff}
use python_commons.Base.{
  ◌≡◌, refl, ◌∙◌, ap, subst, inl, inr, String, string_eq, ◌=?◌, Bool, true, ◌&&◌, ◌||◌, List, [],
  ◌∷◌, any, any-append, Bool-cases, arith, if◌then◌else◌,
}
use python_commons.Dict.{insert, lookup-insert}
use python_commons.Kernel.Rbac.{
  permission_matches, RbacRole, grants, role_has_permission, within, same_role, add, RoleStore,
  get_roles, add_role, has_permission,
}

any_of_member :
    (f : String → Bool) (x : String) (ys : List String)
    → any (λ y. x =? y) ys ≡ true
    → f x ≡ true
    → any f ys ≡ true
any_of_member f x [] m e = absurd (cc m)
any_of_member f x (y ∷ ys) m e = elim (Bool-cases (x =? y)) [
  | inl same ↦ ground (arith, subst (λ z. f z ≡ true) ((eq_iff x y).0 same) e)
  | inr other ↦ ground (arith, any_of_member f x ys (ground (arith, m, other)) e)
]

any_of_within :
    (f : String → Bool) (xs ys : List String)
    → within xs ys ≡ true
    → any f xs ≡ true
    → any f ys ≡ true
unfolding within
any_of_within f [] ys w e = absurd (cc e)
any_of_within f (x ∷ xs) ys w e = elim (Bool-cases (f x)) [
  | inl first ↦ any_of_member f x ys (ground (arith, w)) first
  | inr later ↦ any_of_within f xs ys (ground (arith, w)) (ground (arith, e, later))
]

-- Equal roles have the same permissions.
same_role-grants :
    (r s : RbacRole) (required : String)
    → same_role r s ≡ true
    → role_has_permission r required ≡ true
    → role_has_permission s required ≡ true
unfolding same_role role_has_permission grants
same_role-grants r s required e h =
    any_of_within (λ p. permission_matches p required) r.permissions s.permissions
      (ground (arith, e)) h

abbrev by_roles : List RbacRole → String → Bool
by_roles roles required = any (λ r. role_has_permission r required) roles

present-by_roles :
    (role : RbacRole) (roles : List RbacRole) (required : String)
    → any (same_role role) roles ≡ true
    → role_has_permission role required ≡ true
    → by_roles roles required ≡ true
present-by_roles role [] required m h = absurd (cc m)
present-by_roles role (r ∷ roles) required m h = elim (Bool-cases (same_role role r)) [
  | inl same ↦ ground (arith, same_role-grants role r required same h)
  | inr other ↦ ground (arith, present-by_roles role roles required (ground (arith, m, other)) h)
]

by_roles-add :
    (role : RbacRole) (roles : List RbacRole) (required : String)
    → by_roles (add role roles) required
      ≡ (by_roles roles required || role_has_permission role required)
unfolding add
by_roles-add role roles required = elim (Bool-cases (any (same_role role) roles)) [
  | inl present ↦ elim (Bool-cases (role_has_permission role required)) [
    | inl h ↦ ground (arith, present, h, present-by_roles role roles required present h)
    | inr h ↦ ground (arith, present, h)
  ]
  | inr absent ↦
      ground (arith, absent, any-append (λ r. role_has_permission r required) roles (role ∷ []))
]

get_roles-insert :
    (id j : String) (roles : List RbacRole) (store : RoleStore)
    → get_roles (insert id roles store) j ≡ (if id =? j then roles else get_roles store j)
unfolding get_roles
get_roles-insert id j roles store = elim (Bool-cases (id =? j)) [
  | inl same ↦ rw (get_roles, lookup-insert id j roles store, same) refl
  | inr other ↦ rw (get_roles, lookup-insert id j roles store, other) refl
]

-- Adding a role gives its principal the permissions of the role besides those that it had, and
-- leaves every other principal as it was.
pub has_permission-add_role :
    (id j : String) (role : RbacRole) (store : RoleStore) (required : String)
    → has_permission (add_role id role store) j required
      ≡ (has_permission store j required || ((id =? j) && role_has_permission role required))
unfolding has_permission add_role
has_permission-add_role id j role store required = elim (Bool-cases (id =? j)) [
  | inl same ↦
      rw (get_roles-insert id j (add role (get_roles store id)) store, same)
        (by_roles-add role (get_roles store id) required
          ∙ ap (λ k. by_roles (get_roles store k) required || role_has_permission role required)
              ((eq_iff id j).0 same))
  | inr other ↦
      rw (get_roles-insert id j (add role (get_roles store id)) store, other) (ground arith)
]
