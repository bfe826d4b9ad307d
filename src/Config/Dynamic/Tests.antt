-- ===== src/Config/Dynamic/Tests.antt =====
-- A concrete registry, and the theorem there.
use python_commons.Base.{ℕ, ◌+◌, ◌≡◌, refl, string_eq, [], ◌∷◌}
use python_commons.Outcome.{returned}
use python_commons.Config.Dynamic.{
  ConfigSource, DynamicConfigRegistry, register, on_change, invalidate_all, or_default,
}

-- a source that counts its loads and never has the key
abbrev source : ConfigSource ℕ ℕ ℕ
source = record { load = λ w. (w + 1, returned []) }

abbrev empty : DynamicConfigRegistry ℕ ℕ ℕ ℕ
empty = record { sources = []; cache = []; ttl = 30; callbacks = [] }

abbrev registry : DynamicConfigRegistry ℕ ℕ ℕ ℕ
registry = record empty { sources = ("size", source) ∷ [] }

registered : register "size" source empty ≡ registry
unfolding register
registered = refl

watched : (on_change "size" 8 (on_change "size" 7 registry)).callbacks ≡ (("size", 7 ∷ 8 ∷ []) ∷ [])
unfolding on_change or_default
watched = refl

cleared : invalidate_all (record registry { cache = ("size", (1, 2)) ∷ [] }) ≡ registry
unfolding invalidate_all
cleared = refl
