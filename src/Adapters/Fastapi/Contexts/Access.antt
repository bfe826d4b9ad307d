-- ===== src/Adapters/Fastapi/Contexts/Access.antt =====
-- Whom the security middleware lets through.
use python_commons.Base.{
  ◌≡◌, ◌≢◌, refl, String, string_eq, ◌=?◌, ne_of_test, true, Bool-cases, Option-cases, Option, none,
  some, List, [], inl, inr, ◌⊎◌,
}
use python_commons.Outcome.{Outcome, returned, raised, cancelled}
use python_commons.Adapters.Fastapi.{Scope, Received, Body, State, Response, App, header}
use python_commons.Adapters.Fastapi.Text.{strip}
use python_commons.Adapters.Fastapi.Contexts.{
  is_http, refuse, bearer_token, authorized, verified, authenticate, secure,
}

module _ {P X W : Type 0} (app : App P X W) where
  -- The verifier was called with the token, and its end decides: the application was called for the
  -- principal that it has returned, the answer is 401 if it has returned none or has raised, or the
  -- request was cancelled as it was.
  abbrev pub Verified :
      (String → W → W × Outcome (Option P) X)
      → String
      → Scope
      → List Received
      → State P W
      → Response P X W
      → Type 0
  Verified verify token scope received s r =
      ((p : P) × (w : W) × (verify token s.world ≡ (w, returned (some p)))
        × (r ≡ app scope received (record s { principal = some p; world = w })))
      ⊎ ((w : W) × ((verify token s.world ≡ (w, returned none))
            ⊎ ((x : X) × (verify token s.world ≡ (w, raised x))))
          × (r ≡ refuse 401 Body.unauthorized (record s { world = w })))
      ⊎ ((w : W) × (verify token s.world ≡ (w, cancelled))
          × (r ≡ record { sent = []; state = record s { world = w }; ended = cancelled }))

  -- There is no verifier or no token, and the answer is 401; or the verifier decides.
  abbrev pub Admitted :
      Option (String → W → W × Outcome (Option P) X)
      → String
      → Scope
      → List Received
      → State P W
      → Response P X W
      → Type 0
  Admitted verifier token scope received s r =
      (((verifier ≡ none) ⊎ (token ≡ "")) × (r ≡ refuse 401 Body.unauthorized s))
      ⊎ ((verify : String → W → W × Outcome (Option P) X) × (verifier ≡ some verify)
          × (token ≢ "")
          × Verified verify token scope received s r)

  -- The value of the authorization header is not UTF-8, and the request ends with that error; or its
  -- bearer token decides.
  abbrev pub Secured :
      X
      → Option (String → W → W × Outcome (Option P) X)
      → Scope
      → List Received
      → State P W
      → Response P X W
      → Type 0
  Secured decode_error verifier scope received s r =
      ((header "authorization" scope.headers ≡ none)
        × (r ≡ record { sent = []; state = s; ended = raised decode_error }))
      ⊎ ((raw : String) × (header "authorization" scope.headers ≡ some raw)
          × Admitted verifier (bearer_token (strip raw)) scope received s r)

  verified-Verified :
      (verify : String → W → W × Outcome (Option P) X) (token : String) (scope : Scope)
      (received : List Received) (s : State P W) (p : W × Outcome (Option P) X)
      → verify token s.world ≡ p
      → Verified verify token scope received s (verified true p app scope received s)
  unfolding verified authorized
  verified-Verified verify token scope received s (w, returned (some p)) e = inl (p, w, e, refl)
  verified-Verified verify token scope received s (w, returned none) e = inr (inl (w, inl e, refl))
  verified-Verified verify token scope received s (w, raised x) e = inr (inl (w, inr (x, e), refl))
  verified-Verified verify token scope received s (w, cancelled) e = inr (inr (w, e, refl))

  authenticate-Admitted :
      (verifier : Option (String → W → W × Outcome (Option P) X)) (token : String) (scope : Scope)
      (received : List Received) (s : State P W)
      → Admitted verifier token scope received s
          (authenticate true verifier token app scope received s)
  unfolding authenticate authorized
  authenticate-Admitted none token scope received s = inl (inl refl, refl)
  authenticate-Admitted (some verify) token scope received s = elim (Bool-cases (token =? "")) [
    | inl e ↦ rw e (inl (inr ((string_eq.beq_iff token "").0 e), refl))
    | inr e ↦ rw e (
        inr (
          verify,
          refl,
          ne_of_test token "" e,
          verified-Verified verify token scope received s (verify token s.world) refl,
        ))
  ]

  pub secure-Secured :
      (decode_error : X) (verifier : Option (String → W → W × Outcome (Option P) X)) (scope : Scope)
      (received : List Received) (s : State P W)
      → is_http scope.type ≡ true
      → Secured decode_error verifier scope received s
          (secure decode_error true verifier app scope received s)
  unfolding secure
  secure-Secured decode_error verifier scope received s http =
      elim (Option-cases (header "authorization" scope.headers)) [
        | inl e ↦ inl (e, rw (http, secure) (rw e refl))
        | inr (raw, e) ↦ inr (
          raw,
          e,
          rw (http, secure)
              (rw e (authenticate-Admitted verifier (bearer_token (strip raw)) scope received s)),
        )
      ]
