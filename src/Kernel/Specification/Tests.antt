-- ===== src/Kernel/Specification/Tests.antt =====
-- Specifications of numbers, and the theorem there.
use python_commons.Base.{ℕ, ◌≡◌, refl, true, ltb}
use python_commons.Kernel.Specification.{Specification, is_satisfied_by, and_, or_, not_}
use python_commons.Kernel.Specification.Meaning.{de_morgan}

abbrev above : ℕ → Specification ℕ
above n = Specification.lambda (λ k. ltb n k)

abbrev between : Specification ℕ
between = and_ (above 3) (not_ (above 9))

satisfied : is_satisfied_by between 7 ≡ true
unfolding is_satisfied_by and_ not_
satisfied = refl

de_morgan_law :
    is_satisfied_by (not_ (and_ (above 3) (above 9))) 7
    ≡ is_satisfied_by (or_ (not_ (above 3)) (not_ (above 9))) 7
de_morgan_law = (de_morgan (above 3) (above 9) 7).0
