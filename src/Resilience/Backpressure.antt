-- ===== src/Resilience/Backpressure.antt =====
-- src/mp_commons/resilience/backpressure.py: `BackpressurePolicy` as a context manager. Its
-- semaphore is its value: nobody waits for it, since `__aenter__` has seen a value before it
-- acquires, with no suspension in between.
pub mod Counting
mod Tests
use python_commons.Base.{ℕ, ◌+◌, ◌-◌, ◌==◌, ltb, Bool, Option, none, some, if◌then◌else◌}

pub record BackpressurePolicy : Type 0 where
  pub max : ℕ
  pub value : ℕ  -- `_semaphore._value`

pub record BackpressureError : Type 0 where
  pub in_flight : ℕ
  pub max_in_flight : ℕ

-- `none` is the ValueError.
unfoldable pub make : ℕ → Option BackpressurePolicy
make max_in_flight =
    if ltb max_in_flight 1
    then none
    else some (record { max = max_in_flight; value = max_in_flight })

unfoldable pub in_flight : BackpressurePolicy → ℕ
in_flight p = p.max - p.value

unfoldable pub is_overloaded : BackpressurePolicy → Bool
is_overloaded p = p.value == 0

unfoldable pub aenter : BackpressurePolicy → BackpressurePolicy × Option BackpressureError
unfolding in_flight
aenter p =
    if p.value == 0
    then (p, some (record { in_flight = in_flight p; max_in_flight = p.max }))
    else (record p { value = p.value - 1 }, none)

unfoldable pub aexit : BackpressurePolicy → BackpressurePolicy
aexit p = record p { value = p.value + 1 }
