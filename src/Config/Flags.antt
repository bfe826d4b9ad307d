-- ===== src/Config/Flags.antt =====
-- src/mp_commons/config/flags/provider.py: `FeatureFlagClient` over a provider, and
-- `FlatFileProvider`. Of a YAML value only what `bool` and `str` make of it and the comparison with
-- an attribute are used, which are arguments; an attribute is never None. A percentage is a
-- number of thousandths, as its bucket is: `int(digest[:8], 16)` is an argument.
pub mod Rollout
mod Tests
use Prim.Native.String.{◌++◌}
use python_commons.Base.{
  ℕ, ◌%◌, ltb, String, string_eq, ◌=?◌, Bool, true, false, ◌&&◌, ◌||◌, Option, none, some, List, [],
  ◌∷◌, Eq, if◌then◌else◌,
}
use python_commons.Dict.{Dict, lookup}
use python_commons.Outcome.{Outcome, returned, raised, cancelled}

pub record EvaluationContext (V : Type 0) : Type 0 where
  pub targeting_key : String
  pub attributes : List (String × V)

-- a rule of `targeting`; a missing `value` is false
pub record Rule (V : Type 0) : Type 0 where
  pub key : Option String
  pub match_ : Option V
  pub value : Bool

-- a mapping of the file; a missing `targeting` is [] and a missing `enabled` false
pub record FlagDef (V : Type 0) : Type 0 where
  pub targeting : List (Rule V)
  pub rollout_percentage : Option ℕ
  pub enabled : Bool
  pub value : Option V

pub data Flag (V : Type 0) : Type 0 where
  plain : V → Flag V
  mapping : FlagDef V → Flag V

-- `rule.get(name) == x`, for a value that is not None
is_at : {A : Type 0} ⦃e : Eq A⦄ → Option A → A → Bool
is_at none a = false
is_at (some b) a = b =? a

module _ {V : Type 0} where
  -- the first loop over the rules
  by_key : String → List (Rule V) → Option Bool
  unfolding is_at
  by_key targeting_key [] = none
  by_key targeting_key (r ∷ rs) =
      if is_at r.key targeting_key then some r.value else by_key targeting_key rs

module _ {V : Type 0} ⦃e : Eq V⦄ where
  -- the loop over the attributes, for one rule
  matches : Rule V → List (String × V) → Bool
  unfolding is_at
  matches r [] = false
  matches r ((k, v) ∷ attributes) = (is_at r.key k && is_at r.match_ v) || matches r attributes

  -- the second loop over the rules
  by_attribute : List (String × V) → List (Rule V) → Option Bool
  unfolding matches
  by_attribute attributes [] = none
  by_attribute attributes (r ∷ rs) =
      if matches r attributes then some r.value else by_attribute attributes rs

  or_by_attribute : Option Bool → EvaluationContext V → List (Rule V) → Option Bool
  unfolding by_attribute
  or_by_attribute (some b) context rs = some b
  or_by_attribute none context rs = by_attribute context.attributes rs

  -- the value of the rule that applies
  pub targeted : Option (EvaluationContext V) → List (Rule V) → Option Bool
  unfolding by_key or_by_attribute
  targeted none rs = none
  targeted (some context) rs = or_by_attribute (by_key context.targeting_key rs) context rs

targeting_key_of : {V : Type 0} → Option (EvaluationContext V) → String
targeting_key_of none = ""
targeting_key_of (some context) = context.targeting_key

module _ (digest : String → ℕ) where
  -- `_percentage_bucket`
  unfoldable pub percentage_bucket : String → String → ℕ
  percentage_bucket targeting_key flag_key = digest (flag_key ++ (":" ++ targeting_key)) % 100000

  rolled_out : Option ℕ → Bool → String → String → Bool
  unfolding percentage_bucket
  rolled_out none enabled targeting_key flag_key = enabled
  rolled_out (some pct) enabled targeting_key flag_key =
      ltb (percentage_bucket targeting_key flag_key) pct

module _ {V : Type 0} ⦃e : Eq V⦄ (digest : String → ℕ) where
  unless_targeted : Option Bool → FlagDef V → String → String → Bool
  unfolding rolled_out
  unless_targeted (some b) d targeting_key flag_key = b
  unless_targeted none d targeting_key flag_key =
      rolled_out digest d.rollout_percentage d.enabled targeting_key flag_key

  unfoldable pub evaluate_boolean : String → FlagDef V → Option (EvaluationContext V) → Bool
  unfolding unless_targeted targeted targeting_key_of
  evaluate_boolean flag_key d context =
      unless_targeted (targeted context d.targeting) d (targeting_key_of context) flag_key

  -- `get_boolean`, of flags that are loaded; `truthy` is `bool`
  pub boolean_of :
      (V → Bool) → Option (Flag V) → String → Bool → Option (EvaluationContext V) → Bool
  unfolding evaluate_boolean
  boolean_of truthy none flag_key default context = default
  boolean_of truthy (some (Flag.plain v)) flag_key default context = truthy v
  boolean_of truthy (some (Flag.mapping d)) flag_key default context =
      evaluate_boolean flag_key d context

-- `get_string`, of flags that are loaded
module _ {V : Type 0} (str : V → String) where
  value_or : Option V → String → String
  value_or none default = default
  value_or (some v) default = str v

  unfoldable pub string_of : Option (Flag V) → String → String
  unfolding value_or
  string_of none default = default
  string_of (some (Flag.plain v)) default = str v
  string_of (some (Flag.mapping d)) default = value_or d.value default

-- `_loaded` tells whether there are flags.
pub record FlatFileProvider (V : Type 0) : Type 0 where
  pub flags : Option (Dict String (Flag V))

module _ {V X : Type 0} where
  -- `reload`, by how `_load` ends
  unfoldable pub reload :
      Outcome (Dict String (Flag V)) X
      → FlatFileProvider V
      → FlatFileProvider V × Outcome (Dict String (Flag V)) X
  reload (returned flags) p = (record { flags = some flags }, returned flags)
  reload (raised x) p = (p, raised x)
  reload cancelled p = (p, cancelled)

  load_unless :
      Option (Dict String (Flag V))
      → Outcome (Dict String (Flag V)) X
      → FlatFileProvider V
      → FlatFileProvider V × Outcome (Dict String (Flag V)) X
  unfolding reload
  load_unless (some flags) load p = (p, returned flags)
  load_unless none load p = reload load p

  -- `_ensure_loaded`
  unfoldable pub ensure_loaded :
      Outcome (Dict String (Flag V)) X
      → FlatFileProvider V
      → FlatFileProvider V × Outcome (Dict String (Flag V)) X
  unfolding load_unless
  ensure_loaded load p = load_unless p.flags load p

  on_loaded :
      {T : Type 0} → (Dict String (Flag V) → T) → Outcome (Dict String (Flag V)) X → Outcome T X
  on_loaded f (returned flags) = returned (f flags)
  on_loaded f (raised x) = raised x
  on_loaded f cancelled = cancelled

-- `FeatureFlagClient`: what each of its methods makes of the provider's
unfoldable pub or_default : {T X : Type 0} → T → Outcome T X → Outcome T X
or_default default (returned v) = returned v
or_default default (raised x) = returned default
or_default default cancelled = cancelled

module _ {V X : Type 0} ⦃e : Eq V⦄ (digest : String → ℕ) (truthy : V → Bool) where
  unfoldable pub get_boolean :
      Outcome (Dict String (Flag V)) X
      → FlatFileProvider V
      → String
      → Bool
      → Option (EvaluationContext V)
      → FlatFileProvider V × Outcome Bool X
  unfolding boolean_of on_loaded
  get_boolean load p flag_key default context =
      let (p', o) = ensure_loaded load p in
      (
        p',
        on_loaded
            (λ flags. boolean_of digest truthy (lookup flag_key flags) flag_key default context) o,
      )

  -- `FeatureFlagClient.is_enabled`
  unfoldable pub is_enabled :
      Outcome (Dict String (Flag V)) X
      → FlatFileProvider V
      → String
      → Bool
      → Option (EvaluationContext V)
      → FlatFileProvider V × Outcome Bool X
  is_enabled load p flag_key default context =
      let (p', o) = get_boolean load p flag_key default context in (p', or_default default o)
