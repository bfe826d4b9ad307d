-- ===== src/Resilience/Fallback/Serving.antt =====
-- What is served over a run of calls.
use python_commons.Base.{◌≡◌, refl, ◌∙◌, ap, Bool, Option, none, some, List, [], ◌∷◌, if◌then◌else◌}
use python_commons.Resilience.Fallback.{Ended, Fallback, fall_back, serve_cached, execute_cached}

module _ {T E : Type 0} where
  -- The last value among the calls, if there is one, or else the given one.
  abbrev pub newest : Option T → List (Ended T E) → Option T
  newest last [] = last
  newest last (Ended.value v ∷ os) = newest (some v) os
  newest last (Ended.exception e ∷ os) = newest last os

module _ {T E : Type 0} (on_exceptions : E → Bool) (fallback : Fallback T E) where
  -- What the policy has cached after calls that ended so.
  unfoldable pub cached_after : Option T → List (Ended T E) → Option T
  cached_after last [] = last
  cached_after last (o ∷ os) = cached_after (execute_cached on_exceptions fallback last o).0 os

  cached-newest : (last : Option T) (os : List (Ended T E)) → cached_after last os ≡ newest last os
  unfolding cached_after execute_cached
  cached-newest last [] = refl
  cached-newest last (Ended.value v ∷ os) = cached-newest (some v) os
  cached-newest last (Ended.exception e ∷ os) = cached-newest last os

  -- What a failed call is to be served with.
  abbrev pub stale : Option T → Ended T E
  stale none = fall_back on_exceptions fallback
  stale (some v) = Ended.value v

  cached-stale :
      (last : Option T) (e : E)
      → (execute_cached on_exceptions fallback last (Ended.exception e)).1
        ≡ (if on_exceptions e then stale last else Ended.exception e)
  unfolding execute_cached serve_cached
  cached-stale none e = refl
  cached-stale (some v) e = refl

  -- After any calls, a call that raises one of the listed exceptions is served with the last value
  -- that a call has returned, and with the fallback if none has; any other exception passes.
  pub execute_cached-stale :
      (os : List (Ended T E)) (e : E)
      → (execute_cached on_exceptions fallback (cached_after none os) (Ended.exception e)).1
        ≡ (if on_exceptions e then stale (newest none os) else Ended.exception e)
  execute_cached-stale os e =
      cached-stale (cached_after none os) e
      ∙ ap (λ last. if on_exceptions e then stale last else Ended.exception e)
          (cached-newest none os)
