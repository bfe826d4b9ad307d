-- ===== src/Config/Dynamic.antt =====
-- src/mp_commons/config/dynamic/source.py: `DynamicConfigRegistry`. A source is what its `load` does
-- to the world. `now` is the clock at the beginning of a call and `later` after the load.
pub mod Freshness
mod Tests
use python_commons.Base.{
  ℕ, ◌+◌, ltb, String, string_eq, Bool, true, false, Option, none, some, List, [], ◌∷◌, ◌++◌,
  if◌then◌else◌,
}
use python_commons.Dict.{Dict, lookup, insert, erase}
use python_commons.Outcome.{Outcome, returned, raised, cancelled}

pub record ConfigSource (V W X : Type 0) : Type 0 where
  pub load : W → W × Outcome (Dict String V) X

-- `C` is a callback.
pub record DynamicConfigRegistry (V W X C : Type 0) : Type 0 where
  pub sources : Dict String (ConfigSource V W X)
  pub cache : Dict String (V × ℕ)
  pub ttl : ℕ
  pub callbacks : Dict String (List C)

pub or_default : {V : Type 0} → V → Option V → V
or_default default none = default
or_default default (some v) = v

-- the value of an entry that has not expired
unfoldable pub fresh : {V : Type 0} → ℕ → Option (V × ℕ) → Option V
fresh now none = none
fresh now (some (value, expires_at)) = if ltb now expires_at then some value else none

module _ {V W X C : Type 0} where
  unfoldable pub register :
      String → ConfigSource V W X → DynamicConfigRegistry V W X C → DynamicConfigRegistry V W X C
  register key source r = record r { sources = insert key source r.sources }

  -- behind the load
  keep :
      ℕ
      → String
      → V
      → DynamicConfigRegistry V W X C
      → W × Outcome (Dict String V) X
      → DynamicConfigRegistry V W X C × W × Outcome V X
  unfolding or_default
  keep later key default r (w, returned loaded) =
      let value = or_default default (lookup key loaded) in
      (record r { cache = insert key (value, later + r.ttl) r.cache }, w, returned value)
  keep later key default r (w, raised x) = (r, w, raised x)
  keep later key default r (w, cancelled) = (r, w, cancelled)

  load_from :
      ℕ
      → String
      → V
      → DynamicConfigRegistry V W X C
      → W
      → Option (ConfigSource V W X)
      → DynamicConfigRegistry V W X C × W × Outcome V X
  unfolding keep
  load_from later key default r w none = (r, w, returned default)
  load_from later key default r w (some source) = keep later key default r (source.load w)

  unless_fresh :
      ℕ
      → String
      → V
      → DynamicConfigRegistry V W X C
      → W
      → Option V
      → DynamicConfigRegistry V W X C × W × Outcome V X
  unfolding load_from
  unless_fresh later key default r w (some value) = (r, w, returned value)
  unless_fresh later key default r w none = load_from later key default r w (lookup key r.sources)

  unfoldable pub get :
      (now later : ℕ)
      → String
      → V
      → DynamicConfigRegistry V W X C
      → W
      → DynamicConfigRegistry V W X C × W × Outcome V X
  unfolding unless_fresh
  get now later key default r w =
      unless_fresh later key default r w (fresh now (lookup key r.cache))

  unfoldable pub on_change :
      String → C → DynamicConfigRegistry V W X C → DynamicConfigRegistry V W X C
  unfolding or_default
  on_change key callback r = record r {
    callbacks = insert key (or_default [] (lookup key r.callbacks) ++ (callback ∷ [])) r.callbacks;
  }

  unfoldable pub invalidate : String → DynamicConfigRegistry V W X C → DynamicConfigRegistry V W X C
  invalidate key r = record r { cache = erase key r.cache }

  unfoldable pub invalidate_all : DynamicConfigRegistry V W X C → DynamicConfigRegistry V W X C
  invalidate_all r = record r { cache = [] }
