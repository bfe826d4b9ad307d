-- ===== src/Adapters/Dispatch/Tests.antt =====
-- Two records in an outbox in memory, of which the broker takes one, and the theorems there.
use python_commons.Base.{
  length, ◌≤◌, ℕ, ◌≡◌, ◌≢◌, refl, sym, ap, String, string_eq, Bool, true, false, none, some, List,
  [], ◌∷◌, All, ◌=?◌, Bool-cases, inl, inr,
}
use mathlib.Core.Bool.{false≢true}
use python_commons.Dict.{lookup}
use python_commons.Outcome.{Outcome, returned, raised, cancelled}
use python_commons.Kernel.Outbox.{
  OutboxStatus, OutboxRecord, OutboxRepository, RepositoryLaws, MemoryOutbox, memory_outbox,
  all_records,
}
use python_commons.Kernel.Outbox.Memory.{memory_laws, memory-IsValid}
use python_commons.Adapters.Dispatch.{
  KafkaMessage, kafka_message, Field, redis_message, dispatch_pending, kafka_dispatch,
  redis_dispatch, pulsar_dispatch,
}
use python_commons.Adapters.Dispatch.Settling.{publish_all, taken, status_for}
use python_commons.Adapters.Dispatch.Delivery.{
  dispatch_pending-Delivered, dispatch_pending-dispatch_pending,
}

abbrev order : String → String → OutboxRecord
order id topic = record {
  id = id;
  aggregate_id = "a";
  aggregate_type = "Order";
  event_type = "Paid";
  topic = topic;
  payload = 1 ∷ 2 ∷ [];
  headers = ("payload", "h") ∷ [];
  status = OutboxStatus.pending;
  created_at = 3;
  dispatched_at = none;
  retry_count = 0;
  last_error = none;
}

abbrev outbox : MemoryOutbox
outbox = ("1", order "1" "orders") ∷ ("2", order "2" "closed") ∷ []

-- a broker that keeps the ids that it was sent and refuses the messages of a topic
abbrev publish : KafkaMessage → List String → List String × Outcome (Unit {0}) ℕ
publish m w = (m.id ∷ w, elim (m.topic =? "closed") [ true ↦ raised 7 | false ↦ returned tt ])

abbrev str : ℕ → String
str x = "refused"

abbrev store : OutboxRepository MemoryOutbox ℕ
store = memory_outbox

abbrev laws : RepositoryLaws store
laws = memory_laws

abbrev settled : MemoryOutbox
settled =
    ("1", record (order "1" "orders") { status = OutboxStatus.dispatched })
    ∷ ("2", record (order "2" "closed") { status = OutboxStatus.failed })
    ∷ []

dispatched_one :
    kafka_dispatch store publish str outbox [] ≡ ((settled, "2" ∷ "1" ∷ []), returned 1)
unfolding kafka_dispatch memory_outbox
dispatched_one = refl

listed : all_records outbox ≡ (order "1" "orders" ∷ order "2" "closed" ∷ [])
unfolding all_records
listed = refl

-- a broker of texts that keeps the topics
abbrev keep : {M : Type 0} → String × M → List String → List String × Outcome (Unit {0}) ℕ
keep m w = (m.0 ∷ w, returned tt)

streamed : (redis_dispatch store keep outbox []).0.1 ≡ ("closed" ∷ "orders" ∷ [])
unfolding redis_dispatch memory_outbox
streamed = refl

unconnected :
    pulsar_dispatch store (λ w. false) (λ w. (w, raised 4)) keep outbox []
    ≡ ((outbox, []), raised 4)
unfolding pulsar_dispatch
unconnected = refl

-- A header takes the place of the payload.
overwritten : lookup "payload" (redis_message (order "1" "orders")).1 ≡ some (Field.text "h")
unfolding redis_message
overwritten = refl

abbrev refusal : Outcome (Unit {0}) ℕ
refusal = raised 7

abbrev acceptance : Outcome (Unit {0}) ℕ
acceptance = returned tt

abbrev ends_well : Outcome (Unit {0}) ℕ → Bool
ends_well (returned u) = true
ends_well (raised x) = true
ends_well cancelled = false

raised-ne-cancelled : refusal ≢ cancelled
raised-ne-cancelled e = false≢true (sym (ap ends_well e))

returned-ne-cancelled : acceptance ≢ cancelled
returned-ne-cancelled e = false≢true (sym (ap ends_well e))

never : (m : KafkaMessage) (w : List String) → (publish m w).1 ≢ cancelled
never m w = elim (Bool-cases (m.topic =? "closed")) [
  | inl e ↦ rw (e, publish) raised-ne-cancelled
  | inr e ↦ rw (e, publish) returned-ne-cancelled
]

valid : laws.IsValid outbox
valid = memory-IsValid ℕ outbox ((refl, (refl, tt)), (refl, (refl, tt)))

dispatch_pending-Delivered_example :
    (let sent = publish_all publish kafka_message (laws.pending_records 100 outbox) [] in
      let run = dispatch_pending store publish kafka_message str outbox [] in
      (length sent.1 ≤ 100)
      × (run.1 ≡ returned (taken sent.1))
      × (run.0.1 ≡ sent.0)
      × All (λ e. laws.status_at e.0 run.0.0 ≡ some (status_for e.1)) sent.1)
dispatch_pending-Delivered_example =
    dispatch_pending-Delivered store laws publish never kafka_message str outbox [] valid

dispatch_pending-dispatch_pending_example :
    (let sent = publish_all publish kafka_message (laws.pending_records 100 outbox) [] in
      let run = dispatch_pending store publish kafka_message str outbox [] in
      All (λ e. All (λ r. e.0 ≢ r.id) (laws.pending_records 100 run.0.0)) sent.1)
dispatch_pending-dispatch_pending_example =
    dispatch_pending-dispatch_pending store laws publish never kafka_message str outbox [] valid
