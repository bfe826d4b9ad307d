-- ===== src/Resilience/CircuitBreaker/Invariant.antt =====
-- The invariant of the breaker, under any interleaving of the two halves of concurrent calls.
use python_commons.Base.{
  ℕ, ◌+◌, leb, Bool-cases, ◌<◌, ◌≡◌, refl, Option, some, List, [], ◌∷◌, arith, inl, inr,
}
use python_commons.Outcome.{Outcome, returned, raised, cancelled}
use python_commons.Resilience.CircuitBreaker.{
  CircuitBreakerPolicy, CircuitBreakerState, CircuitBreaker, init, admit, settle, on_success,
  on_failure, maybe_transition_half_open,
}

-- One half of some call: it begins, or the function that it awaits ends.
pub data Event (T E : Type 0) : Type 0 where
  begin : ℕ → Event T E
  finish : Outcome T E → ℕ → Event T E

module _ {T E : Type 0} (policy : CircuitBreakerPolicy E) where
  unfoldable pub step : CircuitBreaker → Event T E → CircuitBreaker
  step b (begin now) = (admit policy b now).0
  step b (finish o now) = settle policy b o now

  unfoldable pub run : CircuitBreaker → List (Event T E) → CircuitBreaker
  run b [] = b
  run b (e ∷ es) = run (step b e) es

module _ {E : Type 0} (policy : CircuitBreakerPolicy E) where
  abbrev pub Fits : CircuitBreakerState → ℕ → Option ℕ → Type 0
  Fits CircuitBreakerState.closed successes opened_at = Unit
  Fits CircuitBreakerState.open_circuit successes opened_at = (t : ℕ) × (opened_at ≡ some t)
  Fits CircuitBreakerState.half_open successes opened_at = successes < policy.success_threshold

  pub record IsValid (b : CircuitBreaker) : Type 0 where
    pub below : b.failure_count < policy.failure_threshold
    pub fits : Fits b.state b.success_count b.opened_at

module _ {E : Type 0} (policy : CircuitBreakerPolicy E) where
  pub init-IsValid : 0 < policy.failure_threshold → IsValid policy init
  unfolding init
  init-IsValid h = record { below = h; fits = tt }

  transition-IsValid :
      0 < policy.success_threshold
      → (b : CircuitBreaker) (now : ℕ) → IsValid policy b
      → IsValid policy (maybe_transition_half_open policy b now)
  unfolding maybe_transition_half_open
  transition-IsValid h b now v = ground arith

  on_success-IsValid :
      0 < policy.failure_threshold
      → (b : CircuitBreaker) → IsValid policy b
      → IsValid policy (on_success policy b)
  unfolding on_success
  on_success-IsValid h b v = ground arith

  on_failure-IsValid :
      0 < policy.failure_threshold
      → (b : CircuitBreaker) (now : ℕ) → IsValid policy b
      → IsValid policy (on_failure policy b now)
  unfolding on_failure
  on_failure-IsValid h b now v =
      elim (Bool-cases (leb policy.failure_threshold (b.failure_count + 1))) [
        | inl reached ↦ rw reached (record { below = h; fits = (now, refl) })
        | inr early ↦ rw early (record { below = ground arith; fits = v.fits })
      ]

  module _ (some_failure : 0 < policy.failure_threshold)
      (some_success : 0 < policy.success_threshold) where
    admit-IsValid :
        (b : CircuitBreaker) (now : ℕ) → IsValid policy b → IsValid policy (admit policy b now).0
    unfolding admit
    admit-IsValid b now v = ground (arith, transition-IsValid some_success b now v)

    settle-IsValid :
        {T : Type 0} (b : CircuitBreaker) (o : Outcome T E) (now : ℕ)
        → IsValid policy b
        → IsValid policy (settle policy b o now)
    unfolding settle
    settle-IsValid b (returned r) now v = on_success-IsValid some_failure b v
    settle-IsValid b (raised x) now v = ground (arith, on_failure-IsValid some_failure b now v)
    settle-IsValid b cancelled now v = v

    -- However the halves of concurrent calls interleave, the failure count stays below its
    -- threshold, an open breaker has a time of opening, and a half-open one has fewer successes
    -- than it needs to close.
    pub run-IsValid :
        {T : Type 0} (es : List (Event T E)) (b : CircuitBreaker)
        → IsValid policy b
        → IsValid policy (run policy b es)
    unfolding run step
    run-IsValid [] b v = v
    run-IsValid (begin now ∷ es) b v = run-IsValid es (admit policy b now).0 (admit-IsValid b now v)
    run-IsValid (finish o now ∷ es) b v =
        run-IsValid es (settle policy b o now) (settle-IsValid b o now v)
