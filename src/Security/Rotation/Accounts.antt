-- ===== src/Security/Rotation/Accounts.antt =====
-- A run accounts for every registered secret.
use python_commons.Base.{
  Any-append_left, Any-append_last, ℕ, ◌≡◌, refl, sym, ap, subst, String, string_eq, Option, none,
  some, List, [], ◌∷◌, ◌++◌, map, Any, All, ◌⊎◌, inl, inr, true, ◌≢◌, arith,
}
use python_commons.Dict.{Dict, lookup, insert, contains, lookup-insert, lookup-insert_self}
use python_commons.Outcome.{Outcome, returned, raised, cancelled}
use python_commons.Security.Rotation.{
  RotatableSecret, SecretRotatedEvent, SecretRotator, Run, Loop, Callback, rotated_event, notified,
  notify, rotated, rotate_each, rotate_all,
}

module _ {X : Type 0} where
  contains-insert :
      (name other : String) (x : X) (d : Dict String X)
      → contains other d ≡ true
      → contains other (insert name x d) ≡ true
  contains-insert name other x d e = ground (arith, e, lookup-insert name other x d)

  contains-insert_self :
      (name : String) (x : X) (d : Dict String X) → contains name (insert name x d) ≡ true
  contains-insert_self name x d =
      ground (arith, lookup-insert name name x d, string_eq.beq_iff name name)

  -- an event tells of the secret, or an error is kept for it
  abbrev pub Accounted : Dict String X → List SecretRotatedEvent → String → Type 0
  Accounted errors events name =
      Any (λ e. e.secret_name ≡ name) events ⊎ (contains name errors ≡ true)

  keeps_error :
      (name : String) (x : X) (errors : Dict String X) (events : List SecretRotatedEvent)
      (other : String)
      → Accounted errors events other
      → Accounted (insert name x errors) events other
  keeps_error name x errors events other (inl a) = inl a
  keeps_error name x errors events other (inr e) = inr (contains-insert name other x errors e)

  keeps_event :
      (event : SecretRotatedEvent) (errors : Dict String X) (events : List SecretRotatedEvent)
      (other : String)
      → Accounted errors events other
      → Accounted errors (events ++ (event ∷ [])) other
  keeps_event event errors events other (inl a) = inl (Any-append_left _ events (event ∷ []) a)
  keeps_event event errors events other (inr e) = inr e

module _ {X W : Type 0} where
  -- neither `rotate` is cancelled, nor the callback
  abbrev pub NeverCancelled : RotatableSecret X W → Type 0
  NeverCancelled s = (w : W) → (s.rotate w).1 ≢ cancelled

  abbrev pub NeverCancels : Option (Callback X W) → Type 0
  NeverCancels none = Unit
  NeverCancels (some f) = (e : SecretRotatedEvent) (w : W) → (f e w).1 ≢ cancelled

  -- A run that ends with events, keeps what was accounted for before and accounts for `names`.
  record Ends (names : List String) (errors : Dict String X) (events : List SecretRotatedEvent)
      (run : Run X W) : Type 0 where
    errors_after : Dict String X
    events_after : List SecretRotatedEvent
    world_after : W
    ends : run ≡ (errors_after, world_after, returned events_after)
    keeps :
        (name : String) → Accounted errors events name → Accounted errors_after events_after name
    covers : All (Accounted errors_after events_after) names

  abbrev Accounts : List String → Loop X W → Type 0
  Accounts names loop =
      (errors : Dict String X) (events : List SecretRotatedEvent) (w : W)
      → Ends names errors events (loop errors events w)

  -- one more secret, accounted for before the rest of the loop
  one_more :
      (name : String) (names : List String) (errors errors' : Dict String X)
      (events events' : List SecretRotatedEvent) (run : Run X W)
      → ((other : String) → Accounted errors events other → Accounted errors' events' other)
      → Accounted errors' events' name
      → Ends names errors' events' run
      → Ends (name ∷ names) errors events run
  one_more name names errors errors' events events' run keeps own rest = record {
    errors_after = rest.errors_after;
    events_after = rest.events_after;
    world_after = rest.world_after;
    ends = rest.ends;
    keeps = λ other a. rest.keeps other (keeps other a);
    covers = (rest.keeps name own, rest.covers);
  }

  module _ (name : String) (names : List String) (continue : Loop X W)
      (rest : Accounts names continue) where
    after_error :
        (x : X) (errors : Dict String X) (events : List SecretRotatedEvent) (w : W)
        → Ends (name ∷ names) errors events (continue (insert name x errors) events w)
    after_error x errors events w =
        one_more name names errors (insert name x errors) events events _
          (keeps_error name x errors events) (inr (contains-insert_self name x errors))
          (rest (insert name x errors) events w)

    notified-Ends :
        (errors : Dict String X) (events : List SecretRotatedEvent) (p : W × Outcome (Unit {0}) X)
        → Accounted errors events name
        → p.1 ≢ cancelled
        → Ends (name ∷ names) errors events (notified name continue errors events p)
    unfolding notified
    notified-Ends errors events (w, returned u) own ne =
        one_more name names errors errors events events _ (λ other a. a) own (rest errors events w)
    notified-Ends errors events (w, raised x) own ne = after_error x errors events w
    notified-Ends errors events (w, cancelled) own ne = absurd (ne refl)

    notify-Ends :
        (on_rotated : Option (Callback X W)) (time : ℕ) (errors : Dict String X)
        (events : List SecretRotatedEvent) (w : W)
        → NeverCancels on_rotated
        → Accounted errors events name
        → Ends
            (name ∷ names)
            errors
            events
            (notify on_rotated (rotated_event name time) continue errors events w)
    unfolding notify
    notify-Ends none time errors events w never own =
        one_more name names errors errors events events _ (λ other a. a) own (rest errors events w)
    notify-Ends (some f) time errors events w never own =
        let event = rotated_event name time in
        notified-Ends errors events (f event w) own (never event w)

    rotated-Ends :
        (on_rotated : Option (Callback X W)) (now : W → ℕ) (errors : Dict String X)
        (events : List SecretRotatedEvent) (p : W × Outcome String X)
        → NeverCancels on_rotated
        → p.1 ≢ cancelled
        → Ends (name ∷ names) errors events (rotated on_rotated now name continue errors events p)
    unfolding rotated
    rotated-Ends on_rotated now errors events (w, returned value) never ne =
        let event = rotated_event name (now w) in
        let behind =
          notify-Ends on_rotated (now w) errors (events ++ (event ∷ [])) w never
            (inl (Any-append_last _ events event refl)) in
        record {
          errors_after = behind.errors_after;
          events_after = behind.events_after;
          world_after = behind.world_after;
          ends = behind.ends;
          covers = behind.covers;
          keeps = λ other a. behind.keeps other (keeps_event event errors events other a);
        }
    rotated-Ends on_rotated now errors events (w, raised x) never ne = after_error x errors events w
    rotated-Ends on_rotated now errors events (w, cancelled) never ne = absurd (ne refl)

  rotate_each-Accounts :
      (on_rotated : Option (Callback X W)) (now : W → ℕ) (secrets : List (RotatableSecret X W))
      → NeverCancels on_rotated
      → All NeverCancelled secrets
      → Accounts (map (λ s. s.secret_name) secrets) (rotate_each on_rotated now secrets)
  unfolding rotate_each
  rotate_each-Accounts on_rotated now [] never nc errors events w = record {
    errors_after = errors;
    events_after = events;
    world_after = w;
    ends = refl;
    keeps = λ other a. a;
    covers = tt;
  }
  rotate_each-Accounts on_rotated now (s ∷ ss) never nc errors events w =
      rotated-Ends s.secret_name (map (λ t. t.secret_name) ss) (rotate_each on_rotated now ss)
        (rotate_each-Accounts on_rotated now ss never nc.1) on_rotated now errors events
        (s.rotate w) never (nc.0 w)

  pub rotate_all-Accounted :
      (now : W → ℕ) (r : SecretRotator X W) (w : W)
      → NeverCancels r.on_rotated
      → All NeverCancelled r.secrets
      → (events : List SecretRotatedEvent) × ((rotate_all now r w).2 ≡ returned events)
        × All
            (Accounted (rotate_all now r w).0.rotation_errors events)
            (map (λ s. s.secret_name) r.secrets)
  unfolding rotate_all
  rotate_all-Accounted now r w never nc =
      let run = rotate_each-Accounts r.on_rotated now r.secrets never nc [] [] w in
      (
        run.events_after,
        ap (λ p. p.2) run.ends,
        subst (λ p. All (Accounted p.0 run.events_after) (map (λ s. s.secret_name) r.secrets))
            (sym run.ends) run.covers,
      )

  -- A secret that was rotated, but for which the callback raises, has an event and an error.
  pub rotated_twice :
      (f : Callback X W) (now : W → ℕ) (s : RotatableSecret X W) (w w' w'' : W) (value : String)
      (x : X)
      → s.rotate w ≡ (w', returned value)
      → f (rotated_event s.secret_name (now w')) w' ≡ (w'', raised x)
      → (r : SecretRotator X W) × (rotate_all now
            (record { secrets = s ∷ []; on_rotated = some f; rotation_errors = [] })
            w
          ≡ (r, w'', returned (rotated_event s.secret_name (now w') ∷ [])))
        × (lookup s.secret_name r.rotation_errors ≡ some x)
  unfolding rotate_all rotate_each rotated notify notified
  rotated_twice f now s w w' w'' value x e h = (
    record { secrets = s ∷ []; on_rotated = some f; rotation_errors = (s.secret_name, x) ∷ [] },
    rw e (rw h refl),
    lookup-insert_self s.secret_name x [],
  )
