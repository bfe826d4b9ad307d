-- ===== src/Resilience/CircuitBreaker/Runs.antt =====
-- What the breaker does over whole sequences of calls.
use python_commons.Base.{
  ℕ, ◌+◌, ◌≤◌, ◌<◌, ◌≡◌, refl, sym, subst, ◌++◌, Bool, ap, true, false, Option, none, some, List,
  [], ◌∷◌, arith, ◌∙◌, Bool-cases, inl, inr, leb, All, length,
}
use python_commons.Outcome.{Outcome, returned, raised, cancelled}
use python_commons.Resilience.CircuitBreaker.{
  CircuitBreakerPolicy, CircuitBreakerState, CircuitBreaker, admit, settle, on_success, on_failure,
}
use python_commons.Resilience.CircuitBreaker.Invariant.{Event, begin, finish, step, run}

abbrev pub Since : ℕ → Option ℕ → Type 0
Since t none = ⊥
Since t (some u) = t ≤ u

-- Open, and opened at the time `t` or later.
abbrev pub IsOpenSince : ℕ → CircuitBreaker → Type 0
IsOpenSince t b = (b.state ≡ CircuitBreakerState.open_circuit) × Since t b.opened_at

module _ {E : Type 0} (policy : CircuitBreakerPolicy E) where
  admit-open :
      (t : ℕ) (b : CircuitBreaker) (now : ℕ)
      → IsOpenSince t b
      → now < t + policy.timeout_seconds
      → admit policy b now ≡ (b, false)
  unfolding admit
  admit-open t b now o h = ground arith

  on_failure-open :
      (t : ℕ) (b : CircuitBreaker) (now : ℕ)
      → IsOpenSince t b
      → t ≤ now
      → IsOpenSince t (on_failure policy b now)
  unfolding on_failure
  on_failure-open t b now o h =
      elim (Bool-cases (leb policy.failure_threshold (b.failure_count + 1))) [
        | inl reached ↦ rw reached (refl, h)
        | inr early ↦ rw early o
      ]

  settle-open :
      {T : Type 0} (t : ℕ) (b : CircuitBreaker) (o : Outcome T E) (now : ℕ)
      → IsOpenSince t b
      → t ≤ now
      → IsOpenSince t (settle policy b o now)
  unfolding settle
  settle-open t b (returned v) now o h = ground arith
  settle-open t b (raised x) now o h = elim (Bool-cases (policy.excluded_exceptions x)) [
    | inl excluded ↦ rw excluded o
    | inr counted ↦ rw counted (on_failure-open t b now o h)
  ]
  settle-open t b cancelled now o h = o

module _ {T E : Type 0} (policy : CircuitBreakerPolicy E) where
  -- The event falls into the `timeout_seconds` after the time `t`.
  abbrev pub Within : ℕ → Event T E → Type 0
  Within t (begin now) = now < t + policy.timeout_seconds
  Within t (finish o now) = t ≤ now

  -- Whether each call that begins is let through.
  unfoldable pub admissions : CircuitBreaker → List (Event T E) → List Bool
  unfolding step
  admissions b [] = []
  admissions b (begin now ∷ es) =
      (admit policy b now).1 ∷ admissions (step {T = T} policy b (begin now)) es
  admissions b (finish o now ∷ es) = admissions (step policy b (finish o now)) es

  -- From the opening of the circuit until the timeout has passed no call is let through, and the
  -- circuit stays open, whatever calls begin and whatever earlier calls end in between.
  pub open_rejects :
      (t : ℕ) (es : List (Event T E)) (b : CircuitBreaker)
      → IsOpenSince t b
      → All (Within t) es
      → All (λ admitted. admitted ≡ false) (admissions b es) × IsOpenSince t (run policy b es)
  unfolding admissions run step
  open_rejects t [] b o h = (tt, o)
  open_rejects t (begin now ∷ es) b o h =
      let (rejected, kept) = open_rejects t es b o h.1 in
      subst
        (λ (p : CircuitBreaker × Bool).
          All (λ admitted. admitted ≡ false) (p.1 ∷ admissions p.0 es)
          × IsOpenSince t (run policy p.0 es))
        (sym (admit-open policy t b now o h.0)) ((refl, rejected), kept)
  open_rejects t (finish x now ∷ es) b o h =
      open_rejects t es (settle policy b x now) (settle-open policy t b x now o h.0) h.1

-- Failures in a row, each with the time at which the awaited function raised.
abbrev pub failures : {T E : Type 0} → List (E × ℕ) → List (Event T E)
failures [] = []
failures ((e, t) ∷ fs) = finish (raised e) t ∷ failures fs

abbrev pub successes : {T E : Type 0} → List (T × ℕ) → List (Event T E)
successes [] = []
successes ((v, t) ∷ fs) = finish (returned v) t ∷ successes fs

module _ {E : Type 0} (policy : CircuitBreakerPolicy E) where
  abbrev pub Counted : List (E × ℕ) → Type 0
  Counted = All (λ f. policy.excluded_exceptions f.0 ≡ false)

  settle-early :
      (T : Type 0) (b : CircuitBreaker) (e : E) (t : ℕ)
      → policy.excluded_exceptions e ≡ false
      → b.failure_count + 1 < policy.failure_threshold
      → settle policy {T = T} b (raised e) t ≡ record b { failure_count = b.failure_count + 1 }
  unfolding settle on_failure
  settle-early T b e t c h = ground arith

  settle-reached :
      (T : Type 0) (b : CircuitBreaker) (e : E) (t : ℕ)
      → policy.excluded_exceptions e ≡ false
      → policy.failure_threshold ≤ b.failure_count + 1
      → settle policy {T = T} b (raised e) t ≡ record b {
        state = CircuitBreakerState.open_circuit;
        failure_count = 0;
        opened_at = some t;
      }
  unfolding settle on_failure
  settle-reached T b e t c h = ground arith

  settle-probe :
      {T : Type 0} (b : CircuitBreaker) (v : T) (t : ℕ)
      → b.state ≡ CircuitBreakerState.half_open
      → b.success_count + 1 < policy.success_threshold
      → settle policy b (returned v) t ≡ record b { success_count = b.success_count + 1 }
  unfolding settle on_success
  settle-probe b v t e h = ground arith

  settle-recovered :
      {T : Type 0} (b : CircuitBreaker) (v : T) (t : ℕ)
      → b.state ≡ CircuitBreakerState.half_open
      → policy.success_threshold ≤ b.success_count + 1
      → settle policy b (returned v) t ≡ record b {
        state = CircuitBreakerState.closed;
        failure_count = 0;
        success_count = b.success_count + 1;
      }
  unfolding settle on_success
  settle-recovered b v t e h = ground arith

  admit-due :
      (b : CircuitBreaker) (t now : ℕ)
      → b.state ≡ CircuitBreakerState.open_circuit
      → b.opened_at ≡ some t
      → t + policy.timeout_seconds ≤ now
      → admit policy b now
        ≡ (record b { state = CircuitBreakerState.half_open; success_count = 0 }, true)
  unfolding admit
  admit-due b t now s o h = ground arith

module _ (T : Type 0) {E : Type 0} (policy : CircuitBreakerPolicy E) where
  failures_below :
      (fs : List (E × ℕ)) (b : CircuitBreaker)
      → Counted policy fs
      → b.failure_count + length fs < policy.failure_threshold
      → run {T = T} policy b (failures fs)
        ≡ record b { failure_count = b.failure_count + length fs }
  unfolding run step
  failures_below [] b c h = ground arith
  failures_below ((e, t) ∷ fs) b c h =
      ap (λ d. run {T = T} policy d (failures fs)) (settle-early policy T b e t c.0 (omega arith))
      ∙ (failures_below fs (record b { failure_count = b.failure_count + 1 }) c.1 (omega arith)
          ∙ ap (λ n. record b { failure_count = n }) (omega arith))

  run-append :
      (xs ys : List (Event T E)) (b : CircuitBreaker)
      → run policy b (xs ++ ys) ≡ run policy (run policy b xs) ys
  unfolding run
  run-append [] ys b = refl
  run-append (x ∷ xs) ys b = run-append xs ys (step policy b x)

  -- Failures in a row that count leave a breaker in its state while fewer than
  -- `failure_threshold` have come, and the one that reaches the threshold opens it, at its time.
  pub failures_open :
      (fs : List (E × ℕ)) (e : E) (t : ℕ) (b : CircuitBreaker)
      → Counted policy fs
      → policy.excluded_exceptions e ≡ false
      → b.failure_count + length fs + 1 ≡ policy.failure_threshold
      → (run {T = T} policy b (failures fs)
          ≡ record b { failure_count = b.failure_count + length fs })
        × (run {T = T} policy b (failures fs ++ finish (raised e) t ∷ []) ≡ record b {
          state = CircuitBreakerState.open_circuit;
          failure_count = 0;
          opened_at = some t;
        })
  unfolding run step
  failures_open fs e t b c x h =
      let below = failures_below fs b c (omega arith) in
      (
        below,
        run-append (failures fs) (finish (raised e) t ∷ []) b
            ∙ (ap (λ d. settle policy {T = T} d (raised e) t) below
                ∙ settle-reached policy T _ e t x (omega arith)),
      )

  successes_below :
      (ss : List (T × ℕ)) (b : CircuitBreaker)
      → b.state ≡ CircuitBreakerState.half_open
      → b.success_count + length ss < policy.success_threshold
      → run {T = T} policy b (successes ss)
        ≡ record b { success_count = b.success_count + length ss }
  unfolding run step
  successes_below [] b e h = ground arith
  successes_below ((v, t) ∷ ss) b e h =
      ap (λ d. run policy d (successes ss)) (settle-probe policy b v t e (omega arith))
      ∙ (successes_below ss (record b { success_count = b.success_count + 1 }) e (omega arith)
          ∙ ap (λ n. record b { success_count = n }) (omega arith))

  -- Once the timeout has passed, the next call of an open circuit is let through half open; then
  -- fewer successes than `success_threshold` leave it half open, and the one that reaches the
  -- threshold closes it with the failure count at 0.
  pub recovers :
      (ss : List (T × ℕ)) (v : T) (u : ℕ) (b : CircuitBreaker) (t now : ℕ)
      → b.state ≡ CircuitBreakerState.open_circuit
      → b.opened_at ≡ some t
      → t + policy.timeout_seconds ≤ now
      → length ss + 1 ≡ policy.success_threshold
      → let (b', admitted) = admit policy b now in
        (admitted ≡ true)
        × (run {T = T} policy b' (successes ss)
            ≡ record b { state = CircuitBreakerState.half_open; success_count = length ss })
        × (run {T = T} policy b' (successes ss ++ finish (returned v) u ∷ []) ≡ record b {
          state = CircuitBreakerState.closed;
          failure_count = 0;
          success_count = length ss + 1;
        })
  unfolding run step
  recovers ss v u b t now s o due h =
      let q = admit-due policy b t now s o due in
      let probing : CircuitBreaker = record b {
        state = CircuitBreakerState.half_open;
        success_count = 0;
      } in
      let below : run {T = T} policy (admit policy b now).0 (successes ss)
          ≡ record probing { success_count = length ss } =
        ap (λ (p : CircuitBreaker × Bool). run policy p.0 (successes ss)) q
        ∙ (successes_below ss probing refl (omega arith)
            ∙ ap (λ n. record probing { success_count = n }) (omega arith)) in
      (
        ap (λ (p : CircuitBreaker × Bool). p.1) q,
        below,
        run-append (successes ss) (finish (returned v) u ∷ []) (admit policy b now).0
            ∙ (ap (λ d. settle policy d (returned v) u) below
                ∙ settle-recovered policy (record probing { success_count = length ss }) v u refl
                    (omega arith)),
      )
