-- ===== src/Config/Flags/Tests.antt =====
-- Flags at concrete inputs, and the theorems there.
use python_commons.Base.{ℕ, ◌≡◌, refl, String, string_eq, nat_eq, true, false, none, some, [], ◌∷◌}
use python_commons.Dict.{Dict}
use python_commons.Outcome.{Outcome, raised}
use python_commons.Config.Flags.{
  EvaluationContext, FlagDef, Flag, mapping, FlatFileProvider, percentage_bucket, evaluate_boolean,
}

-- a digest that puts everyone into the bucket 40000
abbrev digest : String → ℕ
digest s = 40000

abbrev half : FlagDef ℕ
half = record {
  targeting =
      record { key = some "user-1"; match_ = none; value = true }
      ∷ record { key = some "country"; match_ = some 7; value = false }
      ∷ [];
  rollout_percentage = some 50000;
  enabled = false;
  value = none;
}

abbrev user : String → EvaluationContext ℕ
user k = record { targeting_key = k; attributes = ("country", 7) ∷ [] }

-- The key is looked up in all rules before any attribute.
targeting_runs :
    (evaluate_boolean digest "f" half (some (user "user-1")) ≡ true)
    × (evaluate_boolean digest "f" half (some (user "user-2")) ≡ false)
    × (evaluate_boolean digest "f" half none ≡ true)
unfolding evaluate_boolean percentage_bucket
targeting_runs = (refl, refl, refl)

abbrev flags : Dict String (Flag ℕ)
flags = ("f", mapping half) ∷ []

abbrev unloaded : FlatFileProvider ℕ
unloaded = record { flags = none }

abbrev broken : Outcome (Dict String (Flag ℕ)) ℕ
broken = raised 3
