-- ===== src/Application/EventSourcing/Tests.antt =====
-- Runs of the store and the repository at concrete inputs, and the theorems there.
use python_commons.Base.{
  ℕ, ◌+◌, ◌≡◌, refl, String, ◌=?◌, Bool-cases, inl, inr, string_eq, true, some, List, [], ◌∷◌,
  length, arith, ap,
}
use python_commons.Dict.{Dict}
use python_commons.Application.EventSourcing.{
  StoredEvent, DomainEvent, Aggregate, stream, append, raise_event, pull_events, save,
  load_aggregate, take_snapshot, latest,
}
use python_commons.Application.EventSourcing.Saving.{IsOrdered, save_again}
use python_commons.Application.EventSourcing.Repository.{save-load}

-- A counter: each event carries an amount, which is its payload.
abbrev event : ℕ → DomainEvent ℕ
event n = record { event_type = "Added"; occurred_at = 5; body = n }

abbrev serialise : DomainEvent ℕ → ℕ
serialise e = e.body

abbrev metadata : DomainEvent ℕ → ℕ
metadata e = 0

abbrev add : StoredEvent ℕ ℕ → ℕ → ℕ
add e total = total + e.payload

abbrev at : ℕ → ℕ → StoredEvent ℕ ℕ
at v n = record {
  stream_id = "c";
  version = v;
  event_type = "Added";
  payload = n;
  metadata = 0;
  occurred_at = 5;
}

abbrev streams : Dict String (List (StoredEvent ℕ ℕ))
streams = ("c", at 1 10 ∷ at 2 20 ∷ []) ∷ []

abbrev counter : Aggregate ℕ ℕ
counter = record { version = 4; events = event 3 ∷ event 4 ∷ []; state = 37 }

abbrev stale : Aggregate ℕ ℕ
stale = record { version = 3; events = event 7 ∷ []; state = 37 }

save_runs :
    save serialise metadata add 0 "c" counter streams
    ≡ (("c", at 1 10 ∷ at 2 20 ∷ at 3 3 ∷ at 4 4 ∷ []) ∷ [], record counter { events = [] }, true)
unfolding save append stream pull_events
save_runs = refl

raise_event_counts : raise_event (event 7) (record { version = 2; events = []; state = 37 }) ≡ stale
unfolding raise_event
raise_event_counts = refl

latest_snapshot :
    latest {B = ℕ} "c" (take_snapshot "c" 2 30 (take_snapshot "c" 1 10 []))
    ≡ some (record { stream_id = "c"; version = 2; state_bytes = 30 })
unfolding take_snapshot latest
latest_snapshot = refl

streams-IsOrdered : IsOrdered serialise metadata add 0 streams
unfolding stream
streams-IsOrdered j = elim (Bool-cases ("c" =? j)) [
  | inl same ↦ rw (same, stream) (refl, (refl, tt))
  | inr other ↦ rw (other, stream) tt
]

save-load_example :
    load_aggregate serialise metadata add 0 "c"
      (save serialise metadata add 0 "c" counter streams).0
    ≡ some (save serialise metadata add 0 "c" counter streams).1
unfolding save append stream pull_events
save-load_example =
    save-load serialise metadata add 0 "c" counter streams streams-IsOrdered (omega arith)
      (λ q. absurd (omega (arith, ap length q))) refl refl

abbrev late : Aggregate ℕ ℕ
late = record { version = 6; events = event 7 ∷ []; state = 37 }

save_again_example :
    let (streams', agg', _) = save serialise metadata add 0 "c" late streams in
    ((j : String) → stream j streams' ≡ stream j streams)
    × (save serialise metadata add 0 "c" agg' streams' ≡ (streams', agg', true))
unfolding save append stream pull_events
save_again_example = save_again serialise metadata add 0 "c" late streams refl
