-- ===== src/Resilience/Bulkhead/Tests.antt =====
-- Runs of the bulkhead at concrete inputs, and the theorems there.
use python_commons.Base.{◌≤◌, ◌≡◌, refl, ◌⊎◌, List, [], ◌∷◌, length}
use python_commons.Resilience.Bulkhead.{init, full, aenter, aexit, cancel}
use python_commons.Resilience.Bulkhead.Invariant.{Call, enter, leave, cancelled, step, run}
use python_commons.Resilience.Bulkhead.Capacity.{run-bounded}

-- one slot, one place to wait
abbrev calls : List Call
calls = enter 1 ∷ enter 2 ∷ enter 3 ∷ leave 1 ∷ []

run_runs : ((run (init 1 1) calls).inside ≡ 2 ∷ []) × ((run (init 1 1) calls).waiting ≡ [])
unfolding run init step aexit aenter
run_runs = (refl, refl)

-- Coroutine 2 was cancelled while it waited: when 1 has left, nobody is there, and the second
-- to enter then is refused.
abbrev leaks : List Call
leaks = enter 1 ∷ enter 2 ∷ cancelled 2 ∷ leave 1 ∷ enter 3 ∷ []

leak_fills : (aenter 4 (run (init 1 1) leaks)).1 ≡ full
unfolding run init aenter step aexit cancel
leak_fills = refl

run-bounded_example :
    (length (run (init 1 1) calls).inside ≤ 1)
    × (length (run (init 1 1) calls).waiting ≤ 1)
    × ((length (run (init 1 1) calls).waiting ≡ 0) ⊎ (length (run (init 1 1) calls).inside ≡ 1))
run-bounded_example = run-bounded 1 1 calls
