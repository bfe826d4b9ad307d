-- ===== src/Application/Webhooks/Deliveries.antt =====
-- How a delivery ends.
use python_commons.Base.{
  ℕ, zero, suc, ◌+◌, ◌≤◌, ◌<◌, ◌≡◌, ◌≢◌, ◌==◌, ==_iff, subst, if◌then◌else◌, refl, sym, ap, ◌∙◌,
  Bool-cases, inl, inr, ◌⊎◌, Option, none, some, arith, String,
}
use python_commons.Outcome.{Outcome, returned, raised, cancelled}
use python_commons.Application.Webhooks.{
  WebhookEndpoint, WebhookDeliveryRecord, WebhookDispatcher, is_final, attempt_once, loop_on,
  deliver_from, deliver,
}

module _ {E : Type 0} (d : WebhookDispatcher E) where
  -- what an attempt leaves to report: nothing if its status is not retried, or else its error
  abbrev pub error_of : Outcome ℕ E → Option E
  error_of (returned status) = if is_final d status then none else some (d.http_error status)
  error_of (raised e) = some e
  error_of cancelled = none

  -- no attempt is cancelled
  abbrev pub Uncancelled : (ℕ → Outcome ℕ E) → Type 0
  Uncancelled post = (i : ℕ) → post i ≢ cancelled

module _ {E : Type 0} (d : WebhookDispatcher E) (post : ℕ → Outcome ℕ E) where
  -- The record is of the attempts from `first` on: the last of them is not after `last`, all before
  -- it have failed, the error is that of the last, and if there is one it is the `last` one.
  abbrev pub Delivers : ℕ → ℕ → Option (WebhookDeliveryRecord E) → Type 0
  Delivers first last none = ⊥
  Delivers first last (some r) =
      (first ≤ r.attempts)
      × (r.attempts ≤ last)
      × ((i : ℕ) → first ≤ i → i < r.attempts → error_of d (post i) ≢ none)
      × (r.last_error ≡ error_of d (post r.attempts))
      × ((r.last_error ≡ none) ⊎ (r.attempts ≡ last))

  Delivers-earlier :
      (attempt left : ℕ) (o : Option (WebhookDeliveryRecord E))
      → error_of d (post attempt) ≢ none
      → Delivers (suc attempt) (suc attempt + left) o
      → Delivers attempt (attempt + suc left) o
  Delivers-earlier attempt left none ne h = h
  Delivers-earlier attempt left (some r) ne (from, to, before, last, end) = (
    omega (arith, from),
    omega (arith, to),
    (λ i le lt. elim (Bool-cases (i == attempt)) [
      | inl e ↦ subst (λ j. error_of d (post j) ≢ none) (sym ((==_iff i attempt).0 e)) ne
      | inr e ↦ before i (ground (arith, e, le)) lt
    ]),
    last,
    ground (arith, end),
  )

  -- the claim for what is left of the loop behind an attempt
  Later : ℕ → ℕ → Type 0
  Later zero attempt = Unit
  Later (suc left) attempt =
      (r : WebhookDeliveryRecord E) (last_error : Option E)
      → Delivers (suc attempt) (suc attempt + left)
          (deliver_from d post (suc left) (suc attempt) r last_error)

  fails :
      (left attempt : ℕ) (r : WebhookDeliveryRecord E) (x : E)
      → r.attempts ≡ attempt
      → error_of d (post attempt) ≡ some x
      → Later left attempt
      → Delivers attempt (attempt + left) (deliver_from d post left (suc attempt) r (some x))
  unfolding Later deliver_from
  fails zero attempt r x e f later = (
    omega (arith, e),
    omega (arith, e),
    (λ i le lt. absurd (omega (arith, e, le, lt))),
    sym (ap (λ j. error_of d (post j)) e ∙ f),
    inr (omega (arith, e)),
  )
  fails (suc left) attempt r x e f later =
      Delivers-earlier attempt left (deliver_from d post (suc left) (suc attempt) r (some x))
        (λ n. cc (n, f)) (later r (some x))

  by_outcome :
      (left attempt : ℕ) (r : WebhookDeliveryRecord E) (o : Outcome ℕ E)
      → post attempt ≡ o
      → o ≢ cancelled
      → r.attempts ≡ attempt
      → Later left attempt
      → Delivers attempt
          (attempt + left)
          (loop_on (attempt_once d r o) (deliver_from d post left (suc attempt)))
  unfolding attempt_once loop_on
  by_outcome left attempt r (returned status) p u e later = elim (Bool-cases (is_final d status)) [
    | inl y ↦ rw y (
      omega (arith, e),
      omega (arith, e),
      (λ i le lt. absurd (omega (arith, e, le, lt))),
      sym (ap (λ j. error_of d (post j)) e ∙ ap (error_of d) p ∙ rw y refl),
      inl refl,
    )
    | inr n ↦ rw n (
        fails left attempt (record r { http_status = some status }) (d.http_error status) e
          (ap (error_of d) p ∙ rw n refl) later)
  ]
  by_outcome left attempt r (raised x) p u e later =
      fails left attempt r x e (ap (error_of d) p) later
  by_outcome left attempt r cancelled p u e later = absurd (u refl)

  deliver_from-Delivers :
      (left attempt : ℕ) (r : WebhookDeliveryRecord E) (last_error : Option E)
      → Uncancelled d post
      → Delivers attempt (attempt + left) (deliver_from d post (suc left) attempt r last_error)
  unfolding deliver_from Later
  deliver_from-Delivers zero attempt r last_error u =
      by_outcome zero attempt (record r { attempts = attempt }) (post attempt) refl (u attempt) refl
        tt
  deliver_from-Delivers (suc left) attempt r last_error u =
      by_outcome (suc left) attempt (record r { attempts = attempt }) (post attempt) refl
        (u attempt) refl (λ r' le. deliver_from-Delivers left (suc attempt) r' le u)

  -- With at least one attempt, and none that is cancelled, a delivery makes attempts until one gets
  -- a status that is not retried, at most max_retries of them; all attempts before the last one
  -- have failed, and the record has the error of the last one, which is none if it succeeded,
  -- and otherwise the last of all.
  pub deliver-Delivers :
      (ep : WebhookEndpoint) (event_type : String) (n : ℕ)
      → d.max_retries ≡ suc n
      → Uncancelled d post
      → Delivers 1 d.max_retries (deliver d post ep event_type)
  unfolding deliver
  deliver-Delivers ep event_type n e u =
      let r : WebhookDeliveryRecord E = record {
        endpoint_id = ep.id;
        event_type = event_type;
        http_status = none;
        attempts = 0;
        last_error = none;
      } in
      subst (λ m. Delivers 1 m (deliver_from d post m 1 r none)) (sym e)
        (subst (λ m. Delivers 1 m (deliver_from d post (suc n) 1 r none)) (omega arith)
          (deliver_from-Delivers n 1 r none u))
