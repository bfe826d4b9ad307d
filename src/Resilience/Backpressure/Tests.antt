-- ===== src/Resilience/Backpressure/Tests.antt =====
-- Runs of the policy at concrete inputs, and the theorem there.
use python_commons.Base.{◌≡◌, refl, true, false, none, some, List, [], ◌∷◌, arith}
use python_commons.Resilience.Backpressure.{BackpressurePolicy, make}
use python_commons.Resilience.Backpressure.Counting.{
  Call, enters, leaves, serve, counted, make-counted,
}

abbrev calls : List Call
calls = enters ∷ enters ∷ enters ∷ leaves ∷ enters ∷ []

counted_runs : counted 2 0 calls ≡ (
    (none, 1, false)
    ∷ (none, 2, true)
    ∷ (some (record { in_flight = 2; max_in_flight = 2 }), 2, true)
    ∷ (none, 1, false)
    ∷ (none, 2, true)
    ∷ [])
unfolding counted
counted_runs = refl

make-counted_example :
    (p : BackpressurePolicy) × (make 2 ≡ some p) × (serve p 0 calls ≡ counted 2 0 calls)
make-counted_example = make-counted 2 calls (omega arith)
