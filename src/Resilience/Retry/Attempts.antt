-- ===== src/Resilience/Retry/Attempts.antt =====
-- How often the policy calls, how it ends, and how long it sleeps.
use python_commons.Base.{
  ℕ, zero, suc, ◌+◌, ◌≤◌, ◌<◌, ◌≡◌, refl, sym, subst, ◌∙◌, ap, ◌⊎◌, inl, inr, true, false, Option,
  none, List, [], ◌∷◌, ◌==◌, ==_iff, arith, Bool-cases,
}
use python_commons.Outcome.{Outcome, returned, raised, cancelled}
use python_commons.Resilience.Retry.{
  RetryPolicy, Executed, Run, delay, attempted, last_exception, loop, execute,
}

module _ {T E : Type 0} (draw : ℕ → ℕ → ℕ → ℕ) (policy : RetryPolicy E)
    (func : ℕ → Outcome T E) where
  -- The attempt raises an exception that may be retried.
  abbrev pub Retried : ℕ → Type 0
  Retried attempt = (e : E) × (func attempt ≡ raised e) × (policy.retryable_exceptions e ≡ true)

  -- The attempt does not raise an exception that may be retried.
  abbrev pub Final : ℕ → Type 0
  Final attempt = (e : E) → func attempt ≡ raised e → policy.retryable_exceptions e ≡ false

  -- the delays of so many attempts
  abbrev pub delays : ℕ → ℕ → List ℕ
  delays first zero = []
  delays first (suc n) = delay draw policy func first ∷ delays (suc first) n

  -- The attempts from `first` on: some are retried, each after its delay; the next is not, or is
  -- the last that is allowed, and ends the run as the call ended.
  abbrev pub Ends : ℕ → Run T E → Type 0
  Ends first (slept, calls, result) =
      (n : ℕ) × (calls ≡ suc n)
      × (first + n ≤ policy.max_attempts)
      × ((k : ℕ) → k < n → Retried (first + k))
      × (Final (first + n) ⊎ (first + n ≡ policy.max_attempts))
      × (slept ≡ delays first n)
      × (result ≡ Executed.ended (func (first + n)))

  last-Ends :
      (attempt : ℕ) (o : Outcome T E)
      → func attempt ≡ o
      → attempt ≤ policy.max_attempts
      → Final attempt ⊎ (attempt ≡ policy.max_attempts)
      → Ends attempt ([], 1, Executed.ended o)
  last-Ends attempt o e l f =
      let same : attempt ≡ attempt + 0 = omega arith in
      (
        0,
        refl,
        omega arith,
        (λ k h. absurd (omega (arith, h))),
        subst (λ a. Final a ⊎ (a ≡ policy.max_attempts)) same f,
        refl,
        ap Executed.ended (sym e ∙ ap func same),
      )

  retry-Ends :
      (attempt : ℕ) (rest : Run T E)
      → Retried attempt
      → Ends (suc attempt) rest
      → Ends attempt (delay draw policy func attempt ∷ rest.0, suc rest.1, rest.2)
  retry-Ends attempt rest r (n, calls, l, before, f, slept, result) =
      let same : suc attempt + n ≡ attempt + suc n = omega arith in
      (
        suc n,
        ap suc calls,
        omega (arith, l),
        retried before,
        subst (λ a. Final a ⊎ (a ≡ policy.max_attempts)) same f,
        ap (λ s. delay draw policy func attempt ∷ s) slept,
        result ∙ ap (λ a. Executed.ended (func a)) same,
      )
    where
      retried :
          ((k : ℕ) → k < n → Retried (suc attempt + k))
          → (k : ℕ) → k < suc n
          → Retried (attempt + k)
      retried before zero h = subst Retried (omega arith) r
      retried before (suc k) h = subst Retried (omega arith) (before k (omega (arith, h)))

  attempted-Ends :
      (o : Outcome T E) (attempt : ℕ) (rest : Run T E)
      → func attempt ≡ o
      → attempt ≤ policy.max_attempts
      → (attempt < policy.max_attempts → Ends (suc attempt) rest)
      → Ends attempt (attempted draw policy func o attempt rest)
  unfolding attempted
  attempted-Ends (returned v) attempt rest e l h =
      last-Ends attempt (returned v) e l (inl (λ x q. cc (sym e ∙ q)))
  attempted-Ends cancelled attempt rest e l h =
      last-Ends attempt cancelled e l (inl (λ x q. cc (sym e ∙ q)))
  attempted-Ends (raised x) attempt rest e l h = elim (Bool-cases (policy.retryable_exceptions x)) [
    | inr final ↦ rw final (
        last-Ends attempt (raised x) e l
          (inl (λ y q. ap policy.retryable_exceptions (cc (sym q ∙ e)) ∙ final)))
    | inl retryable ↦ elim (Bool-cases (attempt == policy.max_attempts)) [
      | inl at_end ↦
          rw (retryable, at_end)
            (last-Ends attempt (raised x) e l (inr ((==_iff attempt policy.max_attempts).0 at_end)))
      | inr more ↦
          rw (retryable, more) (retry-Ends attempt rest (x, e, retryable) (h (ground arith)))
    ]
  ]

  loop-Ends :
      (n attempt : ℕ) (last : Option E)
      → 0 < n
      → attempt + n ≡ suc policy.max_attempts
      → Ends attempt (loop draw policy func n attempt last)
  unfolding loop
  loop-Ends zero attempt last l e = absurd (omega (arith, l))
  loop-Ends (suc n) attempt last l e =
      attempted-Ends (func attempt) attempt
        (loop draw policy func n (suc attempt)
          (last_exception draw policy func (func attempt) last))
        refl (omega (arith, e))
        (λ more.
          loop-Ends n (suc attempt) (last_exception draw policy func (func attempt) last)
            (omega (arith, more, e)) (omega (arith, e)))

  -- With at least one attempt allowed, `execute` calls the function until a call does not raise an
  -- exception that may be retried, or `max_attempts` calls have been made, sleeps the delay of each
  -- attempt that it retries, and ends as the last call has ended.
  pub execute-Ends : 0 < policy.max_attempts → Ends 1 (execute draw policy func)
  unfolding execute
  execute-Ends l = loop-Ends policy.max_attempts 1 none l (omega arith)
