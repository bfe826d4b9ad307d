-- ===== src/Resilience/RedisBreaker/Recovery.antt =====
-- How the breaker on Redis closes again.
use python_commons.Base.{
  ℕ, ◌+◌, ◌≤◌, ◌≡◌, refl, sym, ap, ◌∙◌, le→leb, true, none, some, List, map, length,
}
use python_commons.Outcome.{returned}
use python_commons.Resilience.CircuitBreaker.{CircuitBreakerPolicy, CircuitBreakerState}
use python_commons.Resilience.RedisBreaker.{
  Keys, or_closed, or_zero, state, half_open_after, set_existing, transition, admit_in, admit,
  settle, settle_admitted, call,
}
use python_commons.Resilience.RedisBreaker.Automaton.{
  View, view, IsRedis, with_state, fails, succeeds, automaton_step, step, run, step-automaton,
}
use python_commons.Resilience.RedisBreaker.Opening.{opened_with, opens}

abbrev half_open_with : ℕ → ℕ → View
half_open_with n t = record (opened_with n t) { state = some CircuitBreakerState.half_open }

abbrev pub closed_again : View
closed_again = record {
  state = some CircuitBreakerState.closed;
  failures = some 0;
  opened_at = none;
}

module _ {R : Type 0} (keys : Keys R) where
  admit-granted :
      (timeout ttl t started : ℕ) (r : R)
      → keys.state.get r ≡ some CircuitBreakerState.open_circuit
      → keys.opened_at.get r ≡ some t
      → t + timeout ≤ started
      → (keys.set_probe_lock ttl started (keys.state.set CircuitBreakerState.half_open r)).1 ≡ true
      → admit keys timeout ttl started r ≡ (
        (keys.set_probe_lock ttl started (keys.state.set CircuitBreakerState.half_open r)).0,
        true,
      )
  unfolding admit state transition half_open_after set_existing admit_in or_closed
  admit-granted timeout ttl t started r open_ at_ due granted =
      rw (open_, at_, open_, le→leb _ _ due)
        (ap
          (λ b. (
            (keys.set_probe_lock ttl started (keys.state.set CircuitBreakerState.half_open r)).0,
            b,
          ))
          granted)

  recovers :
      {T E : Type 0} (policy : CircuitBreakerPolicy E) (ttl n t started ended : ℕ) (x : T) (r : R)
      → IsRedis keys
      → view keys r ≡ opened_with n t
      → t + policy.timeout_seconds ≤ started
      → (keys.set_probe_lock ttl started (keys.state.set CircuitBreakerState.half_open r)).1 ≡ true
      → policy.success_threshold ≤ n + 1
      → ((call keys policy ttl started (returned x) ended r).1 ≡ true)
        × (view keys (call keys policy ttl started (returned x) ended r).0 ≡ closed_again)
  unfolding call settle_admitted settle step or_closed or_zero
  recovers policy ttl n t started ended x r l e due granted few =
      let r' =
        (keys.set_probe_lock ttl started (keys.state.set CircuitBreakerState.half_open r)).0 in
      let called : call keys policy ttl started (returned x) ended r
          ≡ (settle keys policy (returned x) ended r', true) =
        ap (settle_admitted keys policy (returned x) ended) (
          admit-granted policy.timeout_seconds ttl t started r (ap (λ v. v.state) e)
            (ap (λ v. v.opened_at) e) due granted) in
      let half : view keys r' ≡ half_open_with n t =
        l.set_lock ttl started _
        ∙ l.set_state CircuitBreakerState.half_open r
        ∙ ap (with_state CircuitBreakerState.half_open) e in
      (
        ap (λ p. p.1) called,
        ap (λ p. view keys p.0) called
            ∙ l.delete_lock _
            ∙ step-automaton keys policy.failure_threshold policy.success_threshold r' succeeds l
            ∙ ap (λ v. automaton_step policy.failure_threshold policy.success_threshold v succeeds)
                half
            ∙ rw (le→leb _ _ few) refl,
      )

  -- From a counter at 0, failure_threshold failures open the circuit, at the time of the last one;
  -- after the timeout the next call that gets the lock is let through, and if it returns, the
  -- circuit is closed again at once, whenever success_threshold is at most
  -- failure_threshold + 1: the failures count as successes.
  pub closes_at_once :
      {T E : Type 0} (policy : CircuitBreakerPolicy E) (ts : List ℕ) (t ttl started ended : ℕ)
      (x : T) (r r' : R)
      → IsRedis keys
      → or_zero (keys.failures.get r) ≡ 0
      → length ts + 1 ≡ policy.failure_threshold
      → policy.success_threshold ≤ policy.failure_threshold + 1
      → step keys policy.failure_threshold policy.success_threshold
          (run keys policy.failure_threshold policy.success_threshold r (map fails ts))
          (fails t)
        ≡ r'
      → t + policy.timeout_seconds ≤ started
      → (keys.set_probe_lock ttl started (keys.state.set CircuitBreakerState.half_open r')).1 ≡ true
      → (view keys r' ≡ opened_with policy.failure_threshold t)
        × ((call keys policy ttl started (returned x) ended r').1 ≡ true)
        × (view keys (call keys policy ttl started (returned x) ended r').0 ≡ closed_again)
  closes_at_once policy ts t ttl started ended x r r' l zero_ enough few e due granted =
      let o =
        ap (view keys) (sym e)
        ∙ opens keys policy.failure_threshold policy.success_threshold t ts r l zero_ enough in
      let (a, b) =
        recovers policy ttl policy.failure_threshold t started ended x r' l o due granted few in
      (o, a, b)
