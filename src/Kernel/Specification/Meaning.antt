-- ===== src/Kernel/Specification/Meaning.antt =====
-- What a specification says, as a proposition about the candidate.
use python_commons.Base.{◌≡◌, ◌↔◌, ◌⊎◌, inl, inr, true, Bool-cases, arith}
use python_commons.Kernel.Specification.{Specification, is_satisfied_by, and_, or_, not_}

module _ {T : Type 0} where
  abbrev pub Says : Specification T → T → Type 0
  Says (Specification.lambda predicate) candidate = predicate candidate ≡ true
  Says (Specification.and_specification left right) candidate =
      Says left candidate × Says right candidate
  Says (Specification.or_specification left right) candidate =
      Says left candidate ⊎ Says right candidate
  Says (Specification.not_specification spec) candidate = Says spec candidate → ⊥

  -- A candidate satisfies a specification exactly if what the specification says holds of it, with
  -- the combinators read as conjunction, disjunction and negation.
  pub is_satisfied_by_iff :
      (spec : Specification T) (candidate : T)
      → (is_satisfied_by spec candidate ≡ true) ↔ Says spec candidate
  unfolding is_satisfied_by
  is_satisfied_by_iff (Specification.lambda predicate) candidate = (λ h. h, λ h. h)
  is_satisfied_by_iff (Specification.and_specification left right) candidate =
      let l = is_satisfied_by_iff left candidate in
      let r = is_satisfied_by_iff right candidate in
      (
        λ h. (l.0 (ground (arith, h)), r.0 (ground (arith, h))),
        λ h. ground (arith, l.1 h.0, r.1 h.1),
      )
  is_satisfied_by_iff (Specification.or_specification left right) candidate =
      let l = is_satisfied_by_iff left candidate in
      let r = is_satisfied_by_iff right candidate in
      (
        λ h. elim (Bool-cases (is_satisfied_by left candidate)) [
          | inl e ↦ inl (l.0 e)
          | inr e ↦ inr (r.0 (ground (arith, h, e)))
        ],
        λ h. elim h [ inl s ↦ ground (arith, l.1 s) | inr s ↦ ground (arith, r.1 s) ],
      )
  is_satisfied_by_iff (Specification.not_specification spec) candidate =
      let s = is_satisfied_by_iff spec candidate in
      (
        λ h t. ground (arith, h, s.1 t),
        λ h. elim (Bool-cases (is_satisfied_by spec candidate)) [
          | inl e ↦ absurd (h (s.0 e))
          | inr e ↦ ground (arith, e)
        ],
      )

  -- A candidate satisfies the negation of a conjunction exactly if it satisfies the disjunction of
  -- the negations, and the other way round.
  pub de_morgan :
      (a b : Specification T) (candidate : T)
      → (is_satisfied_by (not_ (and_ a b)) candidate
          ≡ is_satisfied_by (or_ (not_ a) (not_ b)) candidate)
        × (is_satisfied_by (not_ (or_ a b)) candidate
            ≡ is_satisfied_by (and_ (not_ a) (not_ b)) candidate)
  unfolding is_satisfied_by and_ or_ not_
  de_morgan a b candidate = ground arith
