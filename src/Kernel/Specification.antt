-- ===== src/Kernel/Specification.antt =====
-- src/mp_commons/kernel/ddd/specification.py: specifications and their combinators. A subclass or
-- a `LambdaSpecification` is its predicate.
pub mod Meaning
mod Tests
use python_commons.Base.{Bool, not, ◌&&◌, ◌||◌}

pub data Specification (T : Type 0) : Type 0 where
  lambda : (T → Bool) → Specification T
  and_specification or_specification : Specification T → Specification T → Specification T
  not_specification : Specification T → Specification T

module _ {T : Type 0} where
  pub is_satisfied_by : Specification T → T → Bool
  is_satisfied_by (lambda predicate) candidate = predicate candidate
  is_satisfied_by (and_specification left right) candidate =
      is_satisfied_by left candidate && is_satisfied_by right candidate
  is_satisfied_by (or_specification left right) candidate =
      is_satisfied_by left candidate || is_satisfied_by right candidate
  is_satisfied_by (not_specification spec) candidate = not (is_satisfied_by spec candidate)

  -- `and_`, `or_` and `not_`, and the operators `&`, `|` and `~`
  unfoldable pub and_ : Specification T → Specification T → Specification T
  and_ self other = and_specification self other

  unfoldable pub or_ : Specification T → Specification T → Specification T
  or_ self other = or_specification self other

  unfoldable pub not_ : Specification T → Specification T
  not_ self = not_specification self
