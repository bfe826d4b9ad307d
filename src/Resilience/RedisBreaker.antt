-- ===== src/Resilience/RedisBreaker.antt =====
-- src/mp_commons/resilience/circuit_breaker/redis_breaker.py: `RedisCircuitBreaker`, with the policy
-- and the states of Resilience.CircuitBreaker. Redis is an argument: what its commands do to the
-- four keys of a breaker. Each command, and each of the two scripts, is atomic; `call` is the
-- commands of one call with none of another in between. Clock readings are ticks of `time.time()`.
pub mod Automaton
pub mod Opening
pub mod Recovery
mod Tests
use python_commons.Base.{
  ℕ, ◌+◌, ◌≡◌, ◌≢◌, leb, Bool, true, false, Option, none, some, if◌then◌else◌,
}
use python_commons.Outcome.{Outcome, returned, raised, cancelled}
use python_commons.Resilience.CircuitBreaker.{CircuitBreakerPolicy, CircuitBreakerState}

-- One string key of Redis, over values of a type.
pub record Key (R V : Type 0) : Type 0 where
  pub get : R → Option V
  pub set : V → R → R
  pub delete : R → R

-- The keys of a breaker. `set_probe_lock` is `SET NX PX` at a time, which tells whether it has set.
pub record Keys (R : Type 0) : Type 0 where
  pub state : Key R CircuitBreakerState
  pub failures : Key R ℕ
  pub opened_at : Key R ℕ
  pub set_probe_lock : ℕ → ℕ → R → R × Bool
  pub delete_probe_lock : R → R

-- `self.state()`, of what `get` has returned
pub or_closed : Option CircuitBreakerState → CircuitBreakerState
or_closed none = CircuitBreakerState.closed
or_closed (some s) = s

-- Redis counts a missing key as 0
unfoldable pub or_zero : Option ℕ → ℕ
or_zero none = 0
or_zero (some n) = n

module _ {R : Type 0} (keys : Keys R) where
  unfoldable pub state : R → CircuitBreakerState
  unfolding or_closed
  state r = or_closed (keys.state.get r)

  -- `INCR`
  incr_failures : R → R × ℕ
  unfolding or_zero
  incr_failures r = let n = or_zero (keys.failures.get r) + 1 in (keys.failures.set n r, n)

  -- `_LUA_RECORD_FAILURE`
  unfoldable pub record_failure : ℕ → ℕ → R → R
  unfolding incr_failures
  record_failure failure_threshold now r =
      let (r', failures) = incr_failures r in
      if leb failure_threshold failures
      then keys.opened_at.set now (keys.state.set CircuitBreakerState.open_circuit r')
      else r'

  success_in : CircuitBreakerState → ℕ → R → R
  unfolding incr_failures
  success_in CircuitBreakerState.half_open success_threshold r =
      let (r', succ) = incr_failures r in
      if leb success_threshold succ
      then keys.opened_at.delete
          (keys.failures.set 0 (keys.state.set CircuitBreakerState.closed r'))
      else r'
  success_in CircuitBreakerState.closed success_threshold r = keys.failures.set 0 r
  success_in CircuitBreakerState.open_circuit success_threshold r = r

  -- `_LUA_RECORD_SUCCESS`
  unfoldable pub record_success : ℕ → R → R
  unfolding success_in
  record_success success_threshold r = success_in (state r) success_threshold r

  -- `SET XX` of the state
  set_existing : Option CircuitBreakerState → CircuitBreakerState → R → R
  set_existing none s r = r
  set_existing (some _) s r = keys.state.set s r

  -- the open branch of `_maybe_transition_half_open`
  half_open_after : Option ℕ → ℕ → ℕ → R → R × CircuitBreakerState
  unfolding set_existing
  half_open_after none timeout now r = (r, CircuitBreakerState.open_circuit)
  half_open_after (some opened_at) timeout now r =
      if leb (opened_at + timeout) now
      then (
        set_existing (keys.state.get r) CircuitBreakerState.half_open r,
        CircuitBreakerState.half_open,
      )
      else (r, CircuitBreakerState.open_circuit)

  -- `_maybe_transition_half_open`, of the state that was read
  transition : CircuitBreakerState → ℕ → ℕ → R → R × CircuitBreakerState
  unfolding half_open_after
  transition CircuitBreakerState.open_circuit timeout now r =
      half_open_after (keys.opened_at.get r) timeout now r
  transition s timeout now r = (r, s)

  -- whether the call goes on, in the state that it is in now
  admit_in : CircuitBreakerState → ℕ → ℕ → R → R × Bool
  admit_in CircuitBreakerState.open_circuit ttl now r = (r, false)
  admit_in CircuitBreakerState.half_open ttl now r = keys.set_probe_lock ttl now r
  admit_in CircuitBreakerState.closed ttl now r = (r, true)

  -- the first half of `call`
  unfoldable pub admit : ℕ → ℕ → ℕ → R → R × Bool
  unfolding transition admit_in
  admit timeout ttl now r =
      let (r', s) = transition (state r) timeout now r in admit_in s ttl now r'

  -- the second half: what the end of the awaited function does
  unfoldable pub settle {ℓ} :
      {T : Type ℓ} {E : Type 0} → CircuitBreakerPolicy E → Outcome T E → ℕ → R → R
  settle policy (returned v) now r =
      keys.delete_probe_lock (record_success policy.success_threshold r)
  settle policy (raised e) now r =
      if policy.excluded_exceptions e then r else record_failure policy.failure_threshold now r
  settle policy cancelled now r = r

  settle_admitted {ℓ} :
      {T : Type ℓ} {E : Type 0} → CircuitBreakerPolicy E → Outcome T E → ℕ → R × Bool → R × Bool
  unfolding settle
  settle_admitted policy outcome ended (r, true) = (settle policy outcome ended r, true)
  settle_admitted policy outcome ended (r, false) = (r, false)

  -- `call`; the flag tells whether the function was awaited
  unfoldable pub call {ℓ} :
      {T : Type ℓ} {E : Type 0} → CircuitBreakerPolicy E → ℕ → ℕ → Outcome T E → ℕ → R → R × Bool
  unfolding settle_admitted
  call policy ttl started outcome ended r =
      settle_admitted policy outcome ended (admit policy.timeout_seconds ttl started r)
