-- ===== src/Security/Rotation.antt =====
-- src/mp_commons/security/rotation/rotator.py: `SecretRotator`. A secret is its name and what its
-- `rotate` does to the world `W`; `now` reads the clock of the world.
pub mod Accounts
mod Tests
use python_commons.Base.{ℕ, String, string_eq, Option, none, some, List, [], ◌∷◌, ◌++◌}
use python_commons.Dict.{Dict, insert}
use python_commons.Outcome.{Outcome, returned, raised, cancelled}

pub record RotatableSecret (X W : Type 0) : Type 0 where
  pub secret_name : String
  pub rotate : W → W × Outcome String X

pub record SecretRotatedEvent : Type 0 where
  pub secret_name : String
  pub rotated_at : ℕ

abbrev pub rotated_event : String → ℕ → SecretRotatedEvent
rotated_event name time = record { secret_name = name; rotated_at = time }

abbrev pub Callback : Type 0 → Type 0 → Type 0
Callback X W = SecretRotatedEvent → W → W × Outcome (Unit {0}) X

pub record SecretRotator (X W : Type 0) : Type 0 where
  pub secrets : List (RotatableSecret X W)
  pub on_rotated : Option (Callback X W)
  pub rotation_errors : Dict String X

-- what a run leaves: the errors, the world and how it ends
abbrev pub Run : Type 0 → Type 0 → Type 0
Run X W = Dict String X × W × Outcome (List SecretRotatedEvent) X

-- the rest of the loop of `rotate_all`
abbrev pub Loop : Type 0 → Type 0 → Type 0
Loop X W = Dict String X → List SecretRotatedEvent → W → Run X W

module _ {X W : Type 0} where
  unfoldable pub register : RotatableSecret X W → SecretRotator X W → SecretRotator X W
  register secret r = record r { secrets = r.secrets ++ (secret ∷ []) }

  -- behind the call of `on_rotated`
  notified :
      String
      → Loop X W
      → Dict String X
      → List SecretRotatedEvent
      → W × Outcome (Unit {0}) X
      → Run X W
  notified name continue errors events (w, returned u) = continue errors events w
  notified name continue errors events (w, raised x) = continue (insert name x errors) events w
  notified name continue errors events (w, cancelled) = (errors, w, cancelled)

  notify :
      Option (Callback X W)
      → SecretRotatedEvent
      → Loop X W
      → Dict String X
      → List SecretRotatedEvent
      → W
      → Run X W
  unfolding notified
  notify none event continue errors events w = continue errors events w
  notify (some on_rotated) event continue errors events w =
      notified event.secret_name continue errors events (on_rotated event w)

  -- behind the call of `rotate`
  rotated :
      Option (Callback X W)
      → (W → ℕ)
      → String
      → Loop X W
      → Dict String X
      → List SecretRotatedEvent
      → W × Outcome String X
      → Run X W
  unfolding notify
  rotated on_rotated now name continue errors events (w, returned value) =
      let event = rotated_event name (now w) in
      notify on_rotated event continue errors (events ++ (event ∷ [])) w
  rotated on_rotated now name continue errors events (w, raised x) =
      continue (insert name x errors) events w
  rotated on_rotated now name continue errors events (w, cancelled) = (errors, w, cancelled)

  rotate_each : Option (Callback X W) → (W → ℕ) → List (RotatableSecret X W) → Loop X W
  unfolding rotated
  rotate_each on_rotated now [] errors events w = (errors, w, returned events)
  rotate_each on_rotated now (s ∷ ss) errors events w =
      rotated on_rotated now s.secret_name (rotate_each on_rotated now ss) errors events
        (s.rotate w)

  unfoldable pub rotate_all :
      (W → ℕ) → SecretRotator X W → W → SecretRotator X W × W × Outcome (List SecretRotatedEvent) X
  unfolding rotate_each
  rotate_all now r w =
      let run = rotate_each r.on_rotated now r.secrets [] [] w in
      (record r { rotation_errors = run.0 }, run.1, run.2)
