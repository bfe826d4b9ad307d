-- ===== src/Resilience/RedisBreaker/Opening.antt =====
-- When the breaker on Redis opens.
use python_commons.Base.{
  ℕ, ◌+◌, ◌≤◌, ◌≡◌, refl, sym, ap, ◌∙◌, leb, le→leb, leb→le, Bool-cases, inl, inr, Option, none,
  some, List, [], ◌∷◌, map, length, subst, arith,
}
use python_commons.Resilience.CircuitBreaker.{CircuitBreakerState}
use python_commons.Resilience.RedisBreaker.{Keys, or_closed, or_zero}
use python_commons.Resilience.RedisBreaker.Automaton.{
  View, view, IsRedis, failed, succeeded_in, moved, Command, fails, succeeds, half_opens, locks,
  unlocks, step, run, automaton, run-automaton, step-automaton,
}

-- An open breaker has a time of opening, and its counter has reached the threshold.
abbrev pub Fits : ℕ → Option CircuitBreakerState → View → Type 0
Fits f (some CircuitBreakerState.open_circuit) v =
    ((t : ℕ) × (v.opened_at ≡ some t)) × (f ≤ or_zero v.failures)
Fits f _ v = Unit

Fits-more :
    (f : ℕ) (o : Option CircuitBreakerState) (v : View)
    → Fits f o v
    → Fits f o (record v { failures = some (or_zero v.failures + 1) })
unfolding or_zero
Fits-more f (some CircuitBreakerState.open_circuit) v h = (h.0, omega (arith, h.1))
Fits-more f (some CircuitBreakerState.half_open) v h = tt
Fits-more f (some CircuitBreakerState.closed) v h = tt
Fits-more f none v h = tt

Fits-closed :
    (f : ℕ) (o : Option CircuitBreakerState) (v : View)
    → or_closed o ≡ CircuitBreakerState.closed
    → Fits f o v
unfolding or_closed
Fits-closed f (some CircuitBreakerState.open_circuit) v e = cc
Fits-closed f (some CircuitBreakerState.half_open) v e = tt
Fits-closed f (some CircuitBreakerState.closed) v e = tt
Fits-closed f none v e = tt

failed-Fits :
    (f now : ℕ) (v : View) → Fits f v.state v → Fits f (failed f now v).state (failed f now v)
unfolding or_zero
failed-Fits f now v h = elim (Bool-cases (leb f (or_zero v.failures + 1))) [
  | inl e ↦ rw e ((now, refl), leb→le _ _ e)
  | inr e ↦ rw e (Fits-more f v.state v h)
]

succeeded_in-Fits :
    (c : CircuitBreakerState) (f s : ℕ) (v : View)
    → or_closed v.state ≡ c
    → Fits f v.state v
    → Fits f (succeeded_in c s v).state (succeeded_in c s v)
succeeded_in-Fits CircuitBreakerState.half_open f s v e h =
    elim (Bool-cases (leb s (or_zero v.failures + 1))) [
      | inl y ↦ rw y tt
      | inr n ↦ rw n (Fits-more f v.state v h)
    ]
succeeded_in-Fits CircuitBreakerState.closed f s v e h =
    Fits-closed f v.state (record v { failures = some 0 }) e
succeeded_in-Fits CircuitBreakerState.open_circuit f s v e h = h

moved-Fits :
    (o : Option CircuitBreakerState) (f : ℕ) (v : View)
    → Fits f v.state v
    → Fits f (moved o v).state (moved o v)
moved-Fits none f v h = h
moved-Fits (some _) f v h = tt

automaton-Fits :
    (f s : ℕ) (v : View) (cs : List Command)
    → Fits f v.state v
    → Fits f (automaton f s v cs).state (automaton f s v cs)
unfolding automaton
automaton-Fits f s v [] h = h
automaton-Fits f s v (fails now ∷ cs) h =
    automaton-Fits f s (failed f now v) cs (failed-Fits f now v h)
automaton-Fits f s v (succeeds ∷ cs) h =
    automaton-Fits f s (succeeded_in (or_closed v.state) s v) cs (succeeded_in-Fits _ f s v refl h)
automaton-Fits f s v (half_opens ∷ cs) h =
    automaton-Fits f s (moved v.state v) cs (moved-Fits v.state f v h)
automaton-Fits f s v (locks ttl now ∷ cs) h = automaton-Fits f s v cs h
automaton-Fits f s v (unlocks ∷ cs) h = automaton-Fits f s v cs h

-- the counter goes up with every failure
or_zero-failed : (f now : ℕ) (v : View) → or_zero (failed f now v).failures ≡ or_zero v.failures + 1
unfolding or_zero
or_zero-failed f now v = ground arith

or_zero-fails :
    (f s : ℕ) (ts : List ℕ) (v : View)
    → or_zero (automaton f s v (map fails ts)).failures ≡ or_zero v.failures + length ts
unfolding automaton
or_zero-fails f s [] v = omega arith
or_zero-fails f s (t ∷ ts) v =
    omega (arith, or_zero-fails f s ts (failed f t v), or_zero-failed f t v)

failed-opens :
    (f t : ℕ) (v : View)
    → or_zero v.failures + 1 ≡ f
    → failed f t v ≡ record {
      state = some CircuitBreakerState.open_circuit;
      failures = some f;
      opened_at = some t;
    }
failed-opens f t v n = rw (n, le→leb f f (omega arith)) refl

abbrev pub opened_with : ℕ → ℕ → View
opened_with n t = record {
  state = some CircuitBreakerState.open_circuit;
  failures = some n;
  opened_at = some t;
}

module _ {R : Type 0} (keys : Keys R) where
  -- If Redis does what it documents, then under whatever commands the instances send, in any
  -- interleaving, a breaker that is open has a time of opening and a counter that has reached
  -- failure_threshold.
  pub run-Fits :
      (f s : ℕ) (r : R) (cs : List Command)
      → IsRedis keys
      → Fits f (keys.state.get r) (view keys r)
      → Fits f (keys.state.get (run keys f s r cs)) (view keys (run keys f s r cs))
  run-Fits f s r cs l h =
      subst (λ v. Fits f v.state v) (sym (run-automaton keys f s r cs l))
        (automaton-Fits f s (view keys r) cs h)

  -- the failure that reaches the threshold opens
  pub opens :
      (f s t : ℕ) (ts : List ℕ) (r : R)
      → IsRedis keys
      → or_zero (keys.failures.get r) ≡ 0
      → length ts + 1 ≡ f
      → view keys (step keys f s (run keys f s r (map fails ts)) (fails t)) ≡ record {
        state = some CircuitBreakerState.open_circuit;
        failures = some f;
        opened_at = some t;
      }
  opens f s t ts r l h e =
      let v = automaton f s (view keys r) (map fails ts) in
      let n : or_zero v.failures + 1 ≡ f =
        omega (arith, or_zero-fails f s ts (view keys r), h, e) in
      step-automaton keys f s (run keys f s r (map fails ts)) (fails t) l
      ∙ ap (failed f t) (run-automaton keys f s r (map fails ts) l)
      ∙ failed-opens f t v n
