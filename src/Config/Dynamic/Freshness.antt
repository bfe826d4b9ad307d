-- ===== src/Config/Dynamic/Freshness.antt =====
-- What a registry serves while an entry is fresh.
use python_commons.Base.{ℕ, ◌+◌, ◌<◌, ◌≡◌, refl, ap, ◌∙◌, String, string_eq, lt→ltb, none, some}
use python_commons.Dict.{Dict, lookup, insert, lookup-insert_self, IsUnique, lookup-erase_self}
use python_commons.Outcome.{Outcome, returned, raised, cancelled}
use python_commons.Config.Dynamic.{
  ConfigSource, DynamicConfigRegistry, or_default, fresh, keep, load_from, unless_fresh, get,
  invalidate,
}

fresh_kept :
    {V : Type 0} (now expires_at : ℕ) (key : String) (value : V) (cache : Dict String (V × ℕ))
    → now < expires_at
    → fresh now (lookup key (insert key (value, expires_at) cache)) ≡ some value
unfolding fresh
fresh_kept now expires_at key value cache l =
    ap (fresh now) (lookup-insert_self key (value, expires_at) cache) ∙ rw (lt→ltb _ _ l) refl

module _ {V W X C : Type 0} (r : DynamicConfigRegistry V W X C) (key : String) where
  -- Two calls for a key with a source and no fresh entry, the second before the ttl has passed since
  -- the load of the first: both return what the first load has given for the key, or the default of
  -- the first call if that has given nothing, whatever the default of the second is; the second
  -- does not load.
  pub get-get :
      (now later then_ later_ : ℕ) (default default_ : V) (w w' w_ : W)
      (source : ConfigSource V W X) (loaded : Dict String V)
      → fresh now (lookup key r.cache) ≡ none
      → lookup key r.sources ≡ some source
      → source.load w ≡ (w', returned loaded)
      → then_ < later + r.ttl
      → (r' : DynamicConfigRegistry V W X C) × (get now later key default r w
          ≡ (r', w', returned (or_default default (lookup key loaded))))
        × (get then_ later_ key default_ r' w_
            ≡ (r', w_, returned (or_default default (lookup key loaded))))
  unfolding get unless_fresh load_from keep
  get-get now later then_ later_ default default_ w w' w_ source loaded stale found load l =
      let value = or_default default (lookup key loaded) in
      (
        record r { cache = insert key (value, later + r.ttl) r.cache },
        rw stale (rw found (ap (keep later key default r) load)),
        rw (fresh_kept then_ (later + r.ttl) key value r.cache l) refl,
      )

  keep-world :
      (later : ℕ) (default : V) (r' : DynamicConfigRegistry V W X C)
      (p : W × Outcome (Dict String V) X)
      → (keep later key default r' p).1 ≡ p.0
  unfolding keep
  keep-world later default r' (w, returned loaded) = refl
  keep-world later default r' (w, raised x) = refl
  keep-world later default r' (w, cancelled) = refl

  -- After an invalidation the next call for the key loads again.
  pub get-invalidate :
      (now later : ℕ) (default : V) (w : W) (source : ConfigSource V W X)
      → IsUnique r.cache
      → lookup key r.sources ≡ some source
      → (get now later key default (invalidate key r) w).1 ≡ (source.load w).0
  unfolding get unless_fresh load_from invalidate fresh
  get-invalidate now later default w source u found =
      rw (lookup-erase_self key r.cache u)
        (rw found (keep-world later default (invalidate key r) (source.load w)))
