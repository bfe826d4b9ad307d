-- ===== src/Kernel/Rbac/Matching.antt =====
-- When a stored permission covers a required one, in words of the two texts.
use Prim.Native.String.append
use Prim.Native.String.{[], ◌∷◌, ◌++◌}
use text.Mathlib.TextEquality.{eq_iff, starts_with_iff}
use text.Mathlib.Text.{starts_with}
use python_commons.Base.{
  ◌≡◌, refl, sym, ◌∙◌, ap, ◌↔◌, ◌⊎◌, inl, inr, String, string_eq, ◌=?◌, true, Bool-cases, arith,
}
use python_commons.Kernel.Rbac.{ends_with, init, permission_matches}

abbrev IsSuffix : String → String → Type 0
IsSuffix t s = (u : String) × (u ++ t ≡ s)

suffix_of_ends_with : (s t : String) → ends_with s t ≡ true → IsSuffix t s
unfolding ends_with
suffix_of_ends_with [] t h = ([], append.nil t ∙ sym ((eq_iff [] t).0 h))
suffix_of_ends_with (c ∷ s) t h = elim (Bool-cases ((c ∷ s) =? t)) [
  | inl e ↦ ([], append.nil t ∙ sym ((eq_iff (c ∷ s) t).0 e))
  | inr e ↦
      let (u, p) = suffix_of_ends_with s t (ground (arith, e, h)) in
      (c ∷ u, append.cons c u t ∙ ap (λ v. c ∷ v) p)
]

ends_with_self : (t : String) → ends_with t t ≡ true
unfolding ends_with
ends_with_self [] = refl
ends_with_self (c ∷ s) = ground (arith, (eq_iff (c ∷ s) (c ∷ s)).1 refl)

ends_with-append : (u t : String) → ends_with (u ++ t) t ≡ true
unfolding ends_with
ends_with-append [] t = ap (λ v. ends_with v t) (append.nil t) ∙ ends_with_self t
ends_with-append (c ∷ u) t =
    ap (λ v. ends_with v t) (append.cons c u t) ∙ ground (arith, ends_with-append u t)

init-append : (u : String) → init (u ++ ":*") ≡ u ++ ":"
unfolding init
init-append [] = refl
init-append (c ∷ []) = ap init (append.cons c [] ":*") ∙ sym (append.cons c [] ":")
init-append (c ∷ (d ∷ u)) =
    ap init (append.cons c (d ∷ u) ":*")
    ∙ (ap (λ v. init (c ∷ v)) (append.cons d u ":*")
        ∙ (ap (λ v. c ∷ init v) (sym (append.cons d u ":*"))
            ∙ (ap (λ v. c ∷ v) (init-append (d ∷ u)) ∙ sym (append.cons c (d ∷ u) ":"))))

-- The ways for a stored permission to cover a required one.
abbrev pub Covers : String → String → Type 0
Covers stored required =
    (stored ≡ "*")
    ⊎ (stored ≡ required)
    ⊎ ((resource : String) × (rest : String) × (stored ≡ resource ++ ":*")
        × (required ≡ (resource ++ ":") ++ rest))

permission_matches-Covers :
    (stored required : String) → permission_matches stored required ≡ true → Covers stored required
unfolding permission_matches
permission_matches-Covers stored required h = elim (Bool-cases (stored =? "*")) [
  | inl star ↦ inl ((eq_iff stored "*").0 star)
  | inr e₁ ↦ elim (Bool-cases (stored =? required)) [
    | inl same ↦ inr (inl ((eq_iff stored required).0 same))
    | inr e₂ ↦ elim (Bool-cases (ends_with stored ":*")) [
      | inl e₃ ↦
          let (resource, p) = suffix_of_ends_with stored ":*" e₃ in
          let begins : starts_with required (init stored) ≡ true = ground (arith, h, e₁, e₂, e₃) in
          let (rest, q) = (starts_with_iff required (init stored)).0 begins in
          inr (
            inr (
              resource,
              rest,
              sym p,
              sym q ∙ ap (λ v. v ++ rest) (ap init (sym p) ∙ init-append resource),
            ))
      | inr e₃ ↦ absurd (ground (arith, h, e₁, e₂, e₃))
    ]
  ]
]

Covers-permission_matches :
    (stored required : String) → Covers stored required → permission_matches stored required ≡ true
unfolding permission_matches
Covers-permission_matches stored required (inl star) = ground (arith, (eq_iff stored "*").1 star)
Covers-permission_matches stored required (inr (inl same)) =
    ground (arith, (eq_iff stored required).1 same)
Covers-permission_matches stored required (inr (inr (resource, rest, p, q))) =
    let ends : ends_with stored ":*" ≡ true =
      ap (λ v. ends_with v ":*") p ∙ ends_with-append resource ":*" in
    let begins : starts_with required (init stored) ≡ true =
      (starts_with_iff required (init stored)).1
        (rest, ap (λ v. v ++ rest) (ap init p ∙ init-append resource) ∙ sym q) in
    ground (arith, ends, begins)

-- A stored permission matches a required one exactly if it is `*`, or the same, or is a resource
-- followed by `:*` and the required one begins with that resource and a colon.
pub permission_matches_iff :
    (stored required : String)
    → (permission_matches stored required ≡ true) ↔ Covers stored required
permission_matches_iff stored required =
    (permission_matches-Covers stored required, Covers-permission_matches stored required)
