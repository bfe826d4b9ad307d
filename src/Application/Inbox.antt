-- ===== src/Application/Inbox.antt =====
-- src/mp_commons/application/inbox: `InboxStatus`, `InboxRecord`, `InMemoryInboxStore` and
-- `InboxProcessor`. A record is a value: the processor saves it after each of its changes, so the
-- record that the store shares with the caller never differs from the saved one for longer than
-- that. The command bus is outside: what it does is the outcome of its `dispatch`.
pub mod Deliveries
mod Tests
use python_commons.Base.{
  ℕ, zero, suc, String, string_eq, Bool, true, false, Option, none, some, List, [], ◌∷◌, ◌++◌,
  if◌then◌else◌,
}
use python_commons.Dict.{Dict, lookup, insert}
use python_commons.Outcome.{Outcome, returned, raised, cancelled}

pub data InboxStatus : Type 0 where
  pending processed failed duplicate : InboxStatus

pub record InboxRecord (P : Type 0) : Type 0 where
  pub source : String
  pub event_type : String
  pub payload : P
  pub id : String
  pub received_at : ℕ
  pub processed_at : Option ℕ
  pub status : InboxStatus
  pub error : Option String

-- `InMemoryInboxStore`
abbrev pub Records : Type 0 → Type 0
Records P = Dict String (InboxRecord P)

-- `rec.status == InboxStatus.PROCESSED`
is_processed : InboxStatus → Bool
is_processed InboxStatus.processed = true
is_processed _ = false

module _ {P : Type 0} where
  unfoldable pub save : InboxRecord P → Records P → Records P
  save record_ records = insert record_.id record_ records

  unfoldable pub load : String → Records P → Option (InboxRecord P)
  load id records = lookup id records

  unfoldable pub is_duplicate : String → Records P → Bool
  unfolding is_processed
  is_duplicate id records = elim (lookup id records) [
    | none ↦ false
    | some r ↦ is_processed r.status
  ]

-- What `process` leaves and returns: the store, the record or the exception, and whether the
-- command was dispatched.
pub record Processed (P X : Type 0) : Type 0 where
  pub records : Records P
  pub result : Outcome (InboxRecord P) X
  pub dispatched : Bool

module _ {P X : Type 0} (str : X → String) where
  -- the `try` of `process`, and the save behind it
  finish : Outcome (Unit {0}) X → ℕ → InboxRecord P → Records P → Processed P X
  finish (returned _) now r records =
      let r' = record r { status = InboxStatus.processed; processed_at = some now } in
      record { records = save r' records; result = returned r'; dispatched = true }
  finish (raised x) now r records =
      let r' = record r { status = InboxStatus.failed; error = some (str x) } in
      record { records = save r' records; result = returned r'; dispatched = true }
  finish cancelled now r records = record {
    records = records;
    result = cancelled;
    dispatched = true;
  }

  pub process : Outcome (Unit {0}) X → ℕ → InboxRecord P → Records P → Processed P X
  unfolding finish
  process dispatch now r records =
      if is_duplicate r.id records
      then (let r' = record r { status = InboxStatus.duplicate } in
          record { records = save r' records; result = returned r'; dispatched = false })
      else finish dispatch now r (save r records)
