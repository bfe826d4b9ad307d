-- ===== src/Config/Flags/Rollout.antt =====
-- What a flag answers.
use native.Mathlib.Nat.{mod-lt}
use python_commons.Base.{
  ℕ, ◌≤◌, ◌≡◌, refl, String, string_eq, Bool, true, false, Option, none, some, Eq, arith, lt→ltb,
}
use python_commons.Dict.{Dict, lookup}
use python_commons.Outcome.{Outcome, returned, raised}
use python_commons.Config.Flags.{
  EvaluationContext, FlagDef, Flag, FlatFileProvider, targeted, targeting_key_of, rolled_out,
  unless_targeted, percentage_bucket, evaluate_boolean, boolean_of, reload, load_unless,
  ensure_loaded, on_loaded, or_default, get_boolean, is_enabled,
}

pub or_else : Option Bool → Bool → Bool
or_else (some b) c = b
or_else none c = c

module _ {V : Type 0} ⦃e : Eq V⦄ (digest : String → ℕ) where
  unless_targeted-monotone :
      (o : Option Bool) (d : FlagDef V) (p p' : ℕ) (targeting_key flag_key : String)
      → p ≤ p'
      → unless_targeted digest o (record d { rollout_percentage = some p }) targeting_key flag_key
        ≡ true
      → unless_targeted digest o (record d { rollout_percentage = some p' }) targeting_key flag_key
        ≡ true
  unfolding unless_targeted rolled_out
  unless_targeted-monotone (some b) d p p' t f h on = on
  unless_targeted-monotone none d p p' t f h on = ground (arith, on, h)

  full_rollout :
      (o : Option Bool) (d : FlagDef V) (targeting_key flag_key : String)
      → (unless_targeted digest o
            (record d { rollout_percentage = some 100000 })
            targeting_key
            flag_key
          ≡ or_else o true)
        × (unless_targeted digest o
              (record d { rollout_percentage = some 0 })
              targeting_key
              flag_key
            ≡ or_else o false)
  unfolding unless_targeted rolled_out percentage_bucket or_else
  full_rollout (some b) d t f = (refl, refl)
  full_rollout none d t f = (lt→ltb _ _ (mod-lt _ (omega arith)), ground arith)

  -- Raising the percentage of a rollout turns a flag off for nobody: a context for which the flag
  -- is on at a percentage has it on at every higher one.
  pub evaluate_boolean-monotone :
      (d : FlagDef V) (flag_key : String) (context : Option (EvaluationContext V)) (p p' : ℕ)
      → p ≤ p'
      → evaluate_boolean digest flag_key (record d { rollout_percentage = some p }) context ≡ true
      → evaluate_boolean digest flag_key (record d { rollout_percentage = some p' }) context ≡ true
  unfolding evaluate_boolean
  evaluate_boolean-monotone d flag_key context p p' h on =
      unless_targeted-monotone (targeted context d.targeting) d p p' (targeting_key_of context)
        flag_key h on

  -- At 100 percent a flag is what the targeting says, and on where it says nothing, and at 0 it
  -- is off there.
  pub evaluate_boolean-full :
      (d : FlagDef V) (flag_key : String) (context : Option (EvaluationContext V))
      → (evaluate_boolean digest flag_key (record d { rollout_percentage = some 100000 }) context
          ≡ or_else (targeted context d.targeting) true)
        × (evaluate_boolean digest flag_key (record d { rollout_percentage = some 0 }) context
            ≡ or_else (targeted context d.targeting) false)
  unfolding evaluate_boolean
  evaluate_boolean-full d flag_key context =
      full_rollout (targeted context d.targeting) d (targeting_key_of context) flag_key

module _ {V X : Type 0} ⦃e : Eq V⦄ (digest : String → ℕ) (truthy : V → Bool) where
  -- With a provider that has no flags yet, a call whose load raises answers its default and leaves
  -- the provider to load again; after a call whose load returns every later call answers from
  -- those flags, whatever the file is by then.
  pub is_enabled-recovers :
      (p : FlatFileProvider V) (x : X) (flags : Dict String (Flag V))
      → (load : Outcome (Dict String (Flag V)) X) (k k' : String) (b b' : Bool)
      → (c c' : Option (EvaluationContext V)) → p.flags ≡ none
      → (is_enabled digest truthy (raised x) p k b c ≡ (p, returned b))
        × ((is_enabled digest truthy load
              (is_enabled {X = X} digest truthy (returned flags) p k b c).0
              k'
              b'
              c').1
            ≡ returned (boolean_of digest truthy (lookup k' flags) k' b' c'))
  unfolding is_enabled get_boolean ensure_loaded load_unless reload on_loaded or_default
  is_enabled-recovers p x flags load k k' b b' c c' h = (rw h refl, rw h refl)
