-- ===== src/Adapters/Dispatch.antt =====
-- `dispatch_pending` of src/mp_commons/adapters/kafka/outbox_dispatcher.py, redis/streams.py and
-- pulsar/messaging.py, over a repository and a broker: `publish` is what a producer does to the
-- world `W` of the broker, and `text` is `str` of an exception.
pub mod Settling
pub mod Delivery
mod Tests
use python_commons.Base.{
  ℕ, suc, String, string_eq, Bool, true, false, Option, none, some, List, [], ◌∷◌, if◌then◌else◌,
}
use python_commons.Dict.{Dict, lookup, insert}
use python_commons.Outcome.{Outcome, returned, raised, cancelled}
use python_commons.Kernel.Outbox.{OutboxRecord, OutboxRepository}

-- the message that Kafka's dispatcher makes of a record
pub record KafkaMessage : Type 0 where
  pub id : String
  pub topic : String
  pub payload : List ℕ
  pub correlation_id : Option String
  pub extra : Dict String String

unfoldable pub kafka_message : OutboxRecord → KafkaMessage
kafka_message r = record {
  id = r.id;
  topic = r.topic;
  payload = r.payload;
  correlation_id = lookup "correlation-id" r.headers;
  extra = r.headers;
}

-- a value of a stream's entry
pub data Field : Type 0 where
  text : String → Field
  bytes : List ℕ → Field

-- `fields.update(headers)`
update : Dict String String → Dict String Field → Dict String Field
update [] fields = fields
update ((k, v) ∷ headers) fields = update headers (insert k (text v) fields)

unfoldable pub redis_message : OutboxRecord → String × Dict String Field
unfolding update
redis_message r = (
  r.topic,
  update r.headers (
      ("id", text r.id)
      ∷ ("event_type", text r.event_type)
      ∷ ("aggregate_id", text r.aggregate_id)
      ∷ ("aggregate_type", text r.aggregate_type)
      ∷ ("payload", bytes r.payload)
      ∷ []),
)

unfoldable pub pulsar_message : OutboxRecord → String × List ℕ
pulsar_message r = (r.topic, r.payload)

-- what a dispatcher leaves: the repository, the broker and how it ends
abbrev pub Dispatched : Type 0 → Type 0 → Type 0 → Type 0
Dispatched S W X = (S × W) × Outcome ℕ X

module _ {M S W X : Type 0} (repository : OutboxRepository S X)
    (publish : M → W → W × Outcome (Unit {0}) X) (message : OutboxRecord → M)
    (error_text : X → String) where
  -- behind `mark_failed`
  resume : (ℕ → S → W → Dispatched S W X) → ℕ → W → S × Outcome (Unit {0}) X → Dispatched S W X
  resume continue count w (s, returned u) = continue count s w
  resume continue count w (s, raised x) = ((s, w), raised x)
  resume continue count w (s, cancelled) = ((s, w), cancelled)

  -- the `except` block
  on_error : (ℕ → S → W → Dispatched S W X) → String → ℕ → X → S → W → Dispatched S W X
  unfolding resume
  on_error continue id count x s w =
      resume continue count w (repository.mark_failed id (error_text x) s)

  -- behind `mark_dispatched`
  marked :
      (ℕ → S → W → Dispatched S W X) → String → ℕ → W → S × Outcome (Unit {0}) X → Dispatched S W X
  unfolding on_error
  marked continue id count w (s, returned u) = continue (suc count) s w
  marked continue id count w (s, raised x) = on_error continue id count x s w
  marked continue id count w (s, cancelled) = ((s, w), cancelled)

  -- behind `publish`
  published :
      (ℕ → S → W → Dispatched S W X) → String → ℕ → S → W × Outcome (Unit {0}) X → Dispatched S W X
  unfolding marked
  published continue id count s (w, returned u) =
      marked continue id count w (repository.mark_dispatched id s)
  published continue id count s (w, raised x) = on_error continue id count x s w
  published continue id count s (w, cancelled) = ((s, w), cancelled)

  pub dispatch_each : List OutboxRecord → ℕ → S → W → Dispatched S W X
  unfolding published
  dispatch_each [] count s w = ((s, w), returned count)
  dispatch_each (r ∷ rs) count s w =
      published (dispatch_each rs) r.id count s (publish (message r) w)

  fetched : W → S × Outcome (List OutboxRecord) X → Dispatched S W X
  unfolding dispatch_each
  fetched w (s, returned rs) = dispatch_each rs 0 s w
  fetched w (s, raised x) = ((s, w), raised x)
  fetched w (s, cancelled) = ((s, w), cancelled)

  unfoldable pub dispatch_pending : S → W → Dispatched S W X
  unfolding fetched
  dispatch_pending s w = fetched w (repository.get_pending 100 s)

-- behind the connection of Pulsar's producer
connected :
    {S W X : Type 0} → (W → Dispatched S W X) → S → W × Outcome (Unit {0}) X → Dispatched S W X
connected dispatch s (w, returned u) = dispatch w
connected dispatch s (w, raised x) = ((s, w), raised x)
connected dispatch s (w, cancelled) = ((s, w), cancelled)

unfoldable pub kafka_dispatch :
    {S W X : Type 0}
    → OutboxRepository S X
    → (KafkaMessage → W → W × Outcome (Unit {0}) X)
    → (X → String)
    → S
    → W
    → Dispatched S W X
unfolding dispatch_pending kafka_message
kafka_dispatch repository publish str s w =
    dispatch_pending repository publish kafka_message str s w

unfoldable pub redis_dispatch :
    {S W X : Type 0}
    → OutboxRepository S X
    → (String × Dict String Field → W → W × Outcome (Unit {0}) X)
    → S
    → W
    → Dispatched S W X
unfolding dispatch_pending redis_message
redis_dispatch repository publish s w =
    dispatch_pending repository publish redis_message (λ x. "dispatch failed") s w

-- `is_connected` tells whether the producer has a client, which `connect` makes; `send` is the
-- producer of a topic and its `send`.
unfoldable pub pulsar_dispatch :
    {S W X : Type 0}
    → OutboxRepository S X
    → (is_connected : W → Bool) → (connect : W → W × Outcome (Unit {0}) X)
    → (send : String × List ℕ → W → W × Outcome (Unit {0}) X) → S
    → W
    → Dispatched S W X
unfolding dispatch_pending pulsar_message connected
pulsar_dispatch repository is_connected connect send s w =
    if is_connected w
    then dispatch_pending repository send pulsar_message (λ x. "pulsar dispatch failed") s w
    else connected
        (dispatch_pending repository send pulsar_message (λ x. "pulsar dispatch failed") s) s
        (connect w)
