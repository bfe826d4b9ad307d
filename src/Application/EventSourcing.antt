-- ===== src/Application/EventSourcing.antt =====
-- src/mp_commons/application/event_sourcing (`StoredEvent`, `InMemoryEventStore`,
-- `InMemorySnapshotStore`, `EventSourcedRepository`) and the event list of
-- src/mp_commons/kernel/ddd/aggregate.py. What a subclass supplies, its own state and
-- `apply_stored_event`, and the serialiser and metadata factory are arguments.
pub mod Streams
pub mod Saving
pub mod Repository
mod Tests
use python_commons.Base.{
  ℕ, zero, suc, ◌+◌, ◌-◌, String, string_eq, Bool, true, false, Option, none, some, List, [], ◌∷◌,
  ◌++◌, length, ltb, ◌==◌, if◌then◌else◌,
}
use python_commons.Dict.{Dict, lookup, insert}

pub record StoredEvent (P M : Type 0) : Type 0 where
  pub stream_id : String
  pub version : ℕ
  pub event_type : String
  pub payload : P
  pub metadata : M
  pub occurred_at : ℕ

module _ {P M : Type 0} where
  -- `self._streams.get(stream_id, [])`
  unfoldable pub stream : String → Dict String (List (StoredEvent P M)) → List (StoredEvent P M)
  stream id streams = elim (lookup id streams) [ none ↦ [] | some es ↦ es ]

  -- `append`: `none` is `OptimisticConcurrencyError`. Before the test `setdefault` gives an
  -- unknown stream an empty list, which stays.
  pub append :
      String
      → List (StoredEvent P M)
      → ℕ
      → Dict String (List (StoredEvent P M))
      → Dict String (List (StoredEvent P M)) × Bool
  append id events expected_version streams =
      let old = stream id streams in
      if length old == expected_version
      then (insert id (old ++ events) streams, true)
      else (insert id old streams, false)

  -- `[e for e in stream if e.version > from_version]`
  since : ℕ → List (StoredEvent P M) → List (StoredEvent P M)
  since from_version [] = []
  since from_version (e ∷ es) =
      if ltb from_version e.version then e ∷ since from_version es else since from_version es

  pub load : String → ℕ → Dict String (List (StoredEvent P M)) → List (StoredEvent P M)
  unfolding since
  load id from_version streams = since from_version (stream id streams)

  pub stream_version : String → Dict String (List (StoredEvent P M)) → ℕ
  stream_version id streams = length (stream id streams)

-- A domain event: what the repository reads of it, and the rest.
pub record DomainEvent (D : Type 0) : Type 0 where
  pub event_type : String
  pub occurred_at : ℕ
  pub body : D

-- `AggregateRoot`, with the state of the subclass.
pub record Aggregate (D S : Type 0) : Type 0 where
  pub version : ℕ
  pub events : List (DomainEvent D)
  pub state : S

module _ {D S : Type 0} where
  unfoldable pub raise_event : DomainEvent D → Aggregate D S → Aggregate D S
  raise_event event agg = record agg {
    events = agg.events ++ event ∷ [];
    version = agg.version + 1;
  }

  unfoldable pub pull_events : Aggregate D S → List (DomainEvent D) × Aggregate D S
  pull_events agg = (agg.events, record agg { events = [] })

module _ {D S P M : Type 0} (serialise : DomainEvent D → P) (metadata_factory : DomainEvent D → M)
    (apply_stored_event : StoredEvent P M → S → S) (create_empty : S) where
  -- The comprehension of `save`: the version of the `i`-th event is `prior_version + i + 1`.
  pub stored : String → ℕ → List (DomainEvent D) → List (StoredEvent P M)
  stored id prior [] = []
  stored id prior (de ∷ des) =
      record {
        stream_id = id;
        version = prior + 1;
        event_type = de.event_type;
        payload = serialise de;
        metadata = metadata_factory de;
        occurred_at = de.occurred_at;
      }
      ∷ stored id (prior + 1) des

  -- `save`: the store, the aggregate, and whether it returned (`false` is
  -- `OptimisticConcurrencyError`).
  append_pulled :
      String
      → ℕ
      → List (DomainEvent D)
      → Dict String (List (StoredEvent P M))
      → Dict String (List (StoredEvent P M)) × Bool
  unfolding stored
  append_pulled id version [] streams = (streams, true)
  append_pulled id version (de ∷ des) streams =
      let prior_version = version - length (de ∷ des) in
      append id (stored id prior_version (de ∷ des)) prior_version streams

  pub save :
      String
      → Aggregate D S
      → Dict String (List (StoredEvent P M))
      → Dict String (List (StoredEvent P M)) × Aggregate D S × Bool
  unfolding append_pulled
  save id agg streams =
      let (domain_events, pulled) = pull_events agg in
      let (streams', done) = append_pulled id agg.version domain_events streams in
      (streams', pulled, done)

  -- the loop of `load`
  pub replay : List (StoredEvent P M) → Aggregate D S → Aggregate D S
  replay [] agg = agg
  replay (e ∷ es) agg =
      replay es (record agg { state = apply_stored_event e agg.state; version = e.version })

  -- `load` of the repository: `none` if the stream is empty.
  replay_all : List (StoredEvent P M) → Option (Aggregate D S)
  unfolding replay
  replay_all [] = none
  replay_all (e ∷ es) =
      some (replay (e ∷ es) (record { version = 0; events = []; state = create_empty }))

  pub load_aggregate : String → Dict String (List (StoredEvent P M)) → Option (Aggregate D S)
  unfolding replay_all
  load_aggregate id streams = replay_all (load id 0 streams)

-- `InMemorySnapshotStore`
pub record SnapshotRecord (B : Type 0) : Type 0 where
  pub stream_id : String
  pub version : ℕ
  pub state_bytes : B

unfoldable pub take_snapshot :
    {B : Type 0} → String → ℕ → B → Dict String (SnapshotRecord B) → Dict String (SnapshotRecord B)
take_snapshot id version bytes snapshots =
    insert id (record { stream_id = id; version = version; state_bytes = bytes }) snapshots

unfoldable pub latest :
    {B : Type 0} → String → Dict String (SnapshotRecord B) → Option (SnapshotRecord B)
latest id snapshots = lookup id snapshots
