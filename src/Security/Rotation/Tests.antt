-- ===== src/Security/Rotation/Tests.antt =====
-- Two secrets, of which one fails, and the theorems there.
use python_commons.Base.{ℕ, ◌+◌, ◌≡◌, refl, string_eq, none, List, [], ◌∷◌, All, arith}
use python_commons.Outcome.{returned, raised}
use python_commons.Security.Rotation.{
  RotatableSecret, SecretRotatedEvent, SecretRotator, Callback, rotated_event, register, rotate_all,
}
use python_commons.Security.Rotation.Accounts.{Accounted, NeverCancelled, rotate_all-Accounted}

-- secrets that count the rotations
abbrev database : RotatableSecret ℕ ℕ
database = record { secret_name = "database"; rotate = λ w. (w + 1, returned "new") }

abbrev broken : RotatableSecret ℕ ℕ
broken = record { secret_name = "broken"; rotate = λ w. (w + 1, raised 5) }

-- a callback that fails
abbrev announce : Callback ℕ ℕ
announce event w = (w, raised 7)

abbrev empty : SecretRotator ℕ ℕ
empty = record { secrets = []; on_rotated = none; rotation_errors = [] }

abbrev rotator : SecretRotator ℕ ℕ
rotator = record empty { secrets = broken ∷ database ∷ [] }

registered : register database (register broken empty) ≡ rotator
unfolding register
registered = refl

-- the time is the number of rotations
abbrev clock : ℕ → ℕ
clock w = w

isolated : rotate_all clock rotator 0 ≡ (
  record rotator { rotation_errors = ("broken", 5) ∷ [] },
  2,
  returned (rotated_event "database" 2 ∷ []),
)
unfolding rotate_all
isolated = refl

broken-NeverCancelled : NeverCancelled broken
broken-NeverCancelled w e = grind (arith, e)

database-NeverCancelled : NeverCancelled database
database-NeverCancelled w e = grind (arith, e)

rotate_all-Accounted_example :
    (events : List SecretRotatedEvent) × ((rotate_all clock rotator 0).2 ≡ returned events)
    × All
        (Accounted (rotate_all clock rotator 0).0.rotation_errors events)
        ("broken" ∷ "database" ∷ [])
rotate_all-Accounted_example =
    rotate_all-Accounted clock rotator 0 tt (broken-NeverCancelled, (database-NeverCancelled, tt))
