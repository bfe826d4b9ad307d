-- ===== src/Resilience/RedisBreaker/Automaton.antt =====
-- The breaker on Redis against an automaton on the values of its keys.
use python_commons.Base.{
  ℕ, ◌+◌, ◌≡◌, refl, ap, ◌∙◌, leb, Bool-cases, inl, inr, Option, none, some, List, [], ◌∷◌,
  if◌then◌else◌,
}
use python_commons.Resilience.CircuitBreaker.{CircuitBreakerState}
use python_commons.Resilience.RedisBreaker.{
  Keys, or_closed, or_zero, state, incr_failures, record_failure, success_in, record_success,
  set_existing,
}

-- the values of the keys but the lock
pub record View : Type 0 where
  pub state : Option CircuitBreakerState
  pub failures : Option ℕ
  pub opened_at : Option ℕ

abbrev pub view : {R : Type 0} → Keys R → R → View
view keys r = record {
  state = keys.state.get r;
  failures = keys.failures.get r;
  opened_at = keys.opened_at.get r;
}

abbrev pub with_state : CircuitBreakerState → View → View
with_state s v = record v { state = some s }

abbrev pub with_failures : ℕ → View → View
with_failures n v = record v { failures = some n }

abbrev pub with_opened_at : Option ℕ → View → View
with_opened_at t v = record v { opened_at = t }

-- What Redis documents of its commands: each changes its own key.
pub record IsRedis {R : Type 0} (keys : Keys R) : Type 0 where
  pub set_state :
      (s : CircuitBreakerState) (r : R)
      → view keys (keys.state.set s r) ≡ record (view keys r) { state = some s }
  pub set_failures :
      (n : ℕ) (r : R)
      → view keys (keys.failures.set n r) ≡ record (view keys r) { failures = some n }
  pub set_opened_at :
      (t : ℕ) (r : R)
      → view keys (keys.opened_at.set t r) ≡ record (view keys r) { opened_at = some t }
  pub delete_opened_at :
      (r : R) → view keys (keys.opened_at.delete r) ≡ record (view keys r) { opened_at = none }
  pub set_lock : (ttl now : ℕ) (r : R) → view keys (keys.set_probe_lock ttl now r).0 ≡ view keys r
  pub delete_lock : (r : R) → view keys (keys.delete_probe_lock r) ≡ view keys r

-- the scripts and the transition, on the values
abbrev pub failed : ℕ → ℕ → View → View
failed failure_threshold now v =
    if leb failure_threshold (or_zero v.failures + 1)
    then record {
      state = some CircuitBreakerState.open_circuit;
      failures = some (or_zero v.failures + 1);
      opened_at = some now;
    }
    else record v { failures = some (or_zero v.failures + 1) }

abbrev pub succeeded_in : CircuitBreakerState → ℕ → View → View
succeeded_in CircuitBreakerState.half_open success_threshold v =
    if leb success_threshold (or_zero v.failures + 1)
    then record { state = some CircuitBreakerState.closed; failures = some 0; opened_at = none }
    else record v { failures = some (or_zero v.failures + 1) }
succeeded_in CircuitBreakerState.closed success_threshold v = record v { failures = some 0 }
succeeded_in CircuitBreakerState.open_circuit success_threshold v = v

abbrev pub moved : Option CircuitBreakerState → View → View
moved none v = v
moved (some _) v = record v { state = some CircuitBreakerState.half_open }

-- One command of some instance: a script, `SET XX` of the state, the lock is set or deleted.
pub data Command : Type 0 where
  fails : (now : ℕ) → Command
  succeeds : Command
  half_opens : Command
  locks : (ttl now : ℕ) → Command
  unlocks : Command

abbrev pub automaton_step : (failure_threshold success_threshold : ℕ) → View → Command → View
automaton_step f s v (fails now) = failed f now v
automaton_step f s v succeeds = succeeded_in (or_closed v.state) s v
automaton_step f s v half_opens = moved v.state v
automaton_step f s v (locks ttl now) = v
automaton_step f s v unlocks = v

unfoldable pub automaton : ℕ → ℕ → View → List Command → View
automaton f s v [] = v
automaton f s v (c ∷ cs) = automaton f s (automaton_step f s v c) cs

module _ {R : Type 0} (keys : Keys R) where
  incr_failures-view :
      (r : R)
      → IsRedis keys
      → view keys (incr_failures keys r).0
        ≡ record (view keys r) { failures = some (or_zero (keys.failures.get r) + 1) }
  unfolding incr_failures
  incr_failures-view r l = l.set_failures _ r

  record_failure-failed :
      (threshold now : ℕ) (r : R)
      → IsRedis keys
      → view keys (record_failure keys threshold now r) ≡ failed threshold now (view keys r)
  unfolding record_failure incr_failures
  record_failure-failed threshold now r l =
      let n = or_zero (keys.failures.get r) + 1 in
      elim (Bool-cases (leb threshold n)) [
        | inl e ↦ rw e (
            l.set_opened_at now _
            ∙ ap (with_opened_at (some now)) (
                l.set_state CircuitBreakerState.open_circuit _
                ∙ ap (with_state CircuitBreakerState.open_circuit) (l.set_failures n r)))
        | inr e ↦ rw e (l.set_failures n r)
      ]

  success_in-succeeded :
      (c : CircuitBreakerState) (threshold : ℕ) (r : R)
      → IsRedis keys
      → view keys (success_in keys c threshold r) ≡ succeeded_in c threshold (view keys r)
  unfolding success_in incr_failures
  success_in-succeeded CircuitBreakerState.half_open threshold r l =
      let n = or_zero (keys.failures.get r) + 1 in
      elim (Bool-cases (leb threshold n)) [
        | inl e ↦ rw e (
            l.delete_opened_at _
            ∙ ap (with_opened_at none) (
                l.set_failures 0 _
                ∙ ap (with_failures 0) (
                    l.set_state CircuitBreakerState.closed _
                    ∙ ap (with_state CircuitBreakerState.closed) (l.set_failures n r))))
        | inr e ↦ rw e (l.set_failures n r)
      ]
  success_in-succeeded CircuitBreakerState.closed threshold r l = l.set_failures 0 r
  success_in-succeeded CircuitBreakerState.open_circuit threshold r l = refl

  set_existing-moved :
      (o : Option CircuitBreakerState) (r : R)
      → IsRedis keys
      → view keys (set_existing keys o CircuitBreakerState.half_open r) ≡ moved o (view keys r)
  unfolding set_existing
  set_existing-moved none r l = refl
  set_existing-moved (some s) r l = l.set_state CircuitBreakerState.half_open r

  module _ (failure_threshold success_threshold : ℕ) where
    unfoldable pub step : R → Command → R
    unfolding set_existing
    step r (fails now) = record_failure keys failure_threshold now r
    step r succeeds = record_success keys success_threshold r
    step r half_opens = set_existing keys (keys.state.get r) CircuitBreakerState.half_open r
    step r (locks ttl now) = (keys.set_probe_lock ttl now r).0
    step r unlocks = keys.delete_probe_lock r

    unfoldable pub run : R → List Command → R
    run r [] = r
    run r (c ∷ cs) = run (step r c) cs

    pub step-automaton :
        (r : R) (c : Command)
        → IsRedis keys
        → view keys (step r c) ≡ automaton_step failure_threshold success_threshold (view keys r) c
    unfolding step record_success state
    step-automaton r (fails now) l = record_failure-failed failure_threshold now r l
    step-automaton r succeeds l =
        success_in-succeeded (or_closed (keys.state.get r)) success_threshold r l
    step-automaton r half_opens l = set_existing-moved (keys.state.get r) r l
    step-automaton r (locks ttl now) l = l.set_lock ttl now r
    step-automaton r unlocks l = l.delete_lock r

    -- If Redis does what it documents, then whatever commands the instances of a breaker send, in
    -- any interleaving, the values of its keys go through the automaton that the two scripts and
    -- the transition make on them.
    pub run-automaton :
        (r : R) (cs : List Command)
        → IsRedis keys
        → view keys (run r cs) ≡ automaton failure_threshold success_threshold (view keys r) cs
    unfolding run automaton
    run-automaton r [] l = refl
    run-automaton r (c ∷ cs) l =
        run-automaton (step r c) cs l
        ∙ ap (λ v. automaton failure_threshold success_threshold v cs) (step-automaton r c l)
