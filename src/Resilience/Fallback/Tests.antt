-- ===== src/Resilience/Fallback/Tests.antt =====
-- Calls at concrete inputs, and the theorem there.
use python_commons.Base.{ℕ, ◌≡◌, refl, Bool, List, [], ◌∷◌, ◌==◌}
use python_commons.Resilience.Fallback.{Ended, Fallback, execute}

-- Exception 7 is listed.
abbrev listed : ℕ → Bool
listed e = e == 7

abbrev fallback : Fallback ℕ ℕ
fallback = Fallback.constant 0

abbrev calls : List (Ended ℕ ℕ)
calls = Ended.value 4 ∷ Ended.exception 7 ∷ Ended.value 5 ∷ Ended.exception 9 ∷ []

execute_runs : execute listed fallback (Ended.exception 7) ≡ Ended.value 0
unfolding execute
execute_runs = refl
