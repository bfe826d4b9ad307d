-- ===== src/Adapters/Fastapi/Limits/Metered.antt =====
-- What the metrics say of a request.
use python_commons.Base.{
  ℕ, ◌≡◌, refl, sym, ap, String, true, List, [], ◌∷◌, ◌++◌, leb, inl, inr, ◌⊎◌, if◌then◌else◌,
}
use python_commons.Adapters.Fastapi.{Scope, Received, Value, Message, State, App}
use python_commons.Adapters.Fastapi.Contexts.{is_http}
use python_commons.Adapters.Fastapi.Limits.{Metrics, captured, observe, observed, meter}

-- no message that starts a response
abbrev pub Unstarted : List Message → Type 0
Unstarted [] = Unit
Unstarted (Message.start status headers ∷ sent) = ⊥
Unstarted (Message.body b ∷ sent) = Unstarted sent
Unstarted (Message.other ∷ sent) = Unstarted sent

-- The status of the last start of a response among the messages, or 200 if there is none.
abbrev pub LastStatus : List Message → ℕ → Type 0
LastStatus sent status =
    (Unstarted sent × (status ≡ 200))
    ⊎ ((before : List Message) × (headers : List (String × Value)) × (behind : List Message) × (sent
          ≡ (before ++ Message.start status headers ∷ behind))
        × Unstarted behind)

captured-LastStatus_from :
    (status : ℕ) (sent : List Message)
    → (Unstarted sent × (captured status sent ≡ status))
      ⊎ ((before : List Message) × (headers : List (String × Value)) × (behind : List Message)
          × (sent ≡ (before ++ Message.start (captured status sent) headers ∷ behind))
          × Unstarted behind)
unfolding captured
captured-LastStatus_from status [] = inl (tt, refl)
captured-LastStatus_from status (Message.start s headers ∷ sent) =
    elim (captured-LastStatus_from s sent) [
      | inl (u, e) ↦ inr ([], headers, sent, ap (λ t. Message.start t headers ∷ sent) (sym e), u)
      | inr (before, hs, behind, e, u) ↦ inr (
        Message.start s headers ∷ before,
        hs,
        behind,
        ap (λ xs. Message.start s headers ∷ xs) e,
        u,
      )
    ]
captured-LastStatus_from status (Message.body b ∷ sent) =
    elim (captured-LastStatus_from status sent) [
      | inl (u, e) ↦ inl (u, e)
      | inr (before, hs, behind, e, u) ↦ inr (Message.body b ∷ before, hs, behind, cc, u)
    ]
captured-LastStatus_from status (Message.other ∷ sent) =
    elim (captured-LastStatus_from status sent) [
      | inl (u, e) ↦ inl (u, e)
      | inr (before, hs, behind, e, u) ↦ inr (Message.other ∷ before, hs, behind, cc, u)
    ]

captured-Unstarted :
    (status : ℕ) (sent : List Message) → Unstarted sent → captured status sent ≡ status
unfolding captured
captured-Unstarted status [] u = refl
captured-Unstarted status (Message.start s headers ∷ sent) u = absurd u
captured-Unstarted status (Message.body b ∷ sent) u = captured-Unstarted status sent u
captured-Unstarted status (Message.other ∷ sent) u = captured-Unstarted status sent u

module _ {P X W : Type 0} (m : Metrics W) (app : App P X W) where
  -- For a request over HTTP the metrics count one request, with the status of the last response
  -- that was started or with 200, record one latency, and count an error if that status is 500 or
  -- more, however the application ends; the messages, the context variables and the end are those
  -- of the application.
  pub meter-LastStatus :
      (scope : Scope) (received : List Received) (s : State P W)
      → is_http scope.type ≡ true
      → (status : ℕ) × LastStatus (app scope received s).sent status
        × (meter m app scope received s ≡ (
            let r = app scope received s in
            let w =
              m.record_latency scope.method scope.path
                (m.add_request scope.method scope.path status r.state.world) in
            record r {
              state = record r.state {
                world = if leb 500 status then m.add_error scope.method scope.path w else w;
              };
            }))
  unfolding meter observed observe
  meter-LastStatus scope received s http =
      let sent = (app scope received s).sent in
      (captured 200 sent, captured-LastStatus_from 200 sent, rw (http, meter))

  -- A request whose application starts no response, such as one that raises at once, is counted
  -- with the status 200 and not as an error.
  pub meter-Unstarted :
      (scope : Scope) (received : List Received) (s : State P W)
      → is_http scope.type ≡ true
      → Unstarted (app scope received s).sent
      → (meter m app scope received s).state.world
        ≡ m.record_latency scope.method scope.path
            (m.add_request scope.method scope.path 200 (app scope received s).state.world)
  unfolding meter observed observe
  meter-Unstarted scope received s http u =
      rw (http, meter) (rw (captured-Unstarted 200 (app scope received s).sent u))
