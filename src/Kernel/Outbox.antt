-- ===== src/Kernel/Outbox.antt =====
-- src/mp_commons/kernel/messaging/outbox.py and testing/fakes/outbox.py: records, the repository as
-- an interface with laws, and the repository in memory. A repository is its operations on a state
-- `S`; `X` is an exception.
pub mod Memory
use python_commons.Base.{
  ℕ, ◌≤◌, length, String, string_eq, ◌≡◌, ◌≢◌, Bool, true, false, Option, none, some, List, [], ◌∷◌,
  map, take, All, if◌then◌else◌,
}
use python_commons.Dict.{Dict, lookup, insert}
use python_commons.Outcome.{Outcome, returned}

pub data OutboxStatus : Type 0 where
  pending : OutboxStatus
  dispatched : OutboxStatus
  failed : OutboxStatus

-- a payload is the list of its bytes
pub record OutboxRecord : Type 0 where
  pub id : String
  pub aggregate_id : String
  pub aggregate_type : String
  pub event_type : String
  pub topic : String
  pub payload : List ℕ
  pub headers : Dict String String
  pub status : OutboxStatus
  pub created_at : ℕ
  pub dispatched_at : Option ℕ
  pub retry_count : ℕ
  pub last_error : Option String

pub record OutboxRepository (S X : Type 0) : Type 0 where
  pub save : OutboxRecord → S → S × Outcome (Unit {0}) X
  pub get_pending : ℕ → S → S × Outcome (List OutboxRecord) X
  pub mark_dispatched : String → S → S × Outcome (Unit {0}) X
  pub mark_failed : String → String → S → S × Outcome (Unit {0}) X

abbrev pub Distinct : List String → Type 0
Distinct [] = Unit
Distinct (x ∷ xs) = All (λ y. x ≢ y) xs × Distinct xs

abbrev pub ids : List OutboxRecord → List String
ids rs = map (λ r. r.id) rs

-- What a client relies on: the status that each id has, which the operations that mark a record
-- change as they say and for no other id, and that the records which are returned as pending are
-- so, are different, and are at most as many as the limit.
pub record RepositoryLaws {S X : Type 0} (repository : OutboxRepository S X) : Type 1 where
  pub IsValid : S → Type 0
  pub status_at : String → S → Option OutboxStatus
  pub pending_records : ℕ → S → List OutboxRecord
  pub get_pending_lem :
      (limit : ℕ) (s : S) → repository.get_pending limit s ≡ (s, returned (pending_records limit s))
  pub pending_records-pending :
      (limit : ℕ) (s : S)
      → IsValid s
      → All (λ r. status_at r.id s ≡ some OutboxStatus.pending) (pending_records limit s)
  pub pending_records_bounded : (limit : ℕ) (s : S) → length (pending_records limit s) ≤ limit
  pub pending_records-Distinct :
      (limit : ℕ) (s : S) → IsValid s → Distinct (ids (pending_records limit s))
  pub dispatched_returns : (id : String) (s : S) → (repository.mark_dispatched id s).1 ≡ returned tt
  pub dispatched-IsValid :
      (id : String) (s : S) → IsValid s → IsValid (repository.mark_dispatched id s).0
  pub dispatched_self :
      (id : String) (s : S)
      → status_at id s ≢ none
      → status_at id (repository.mark_dispatched id s).0 ≡ some OutboxStatus.dispatched
  pub dispatched_ne :
      (id other : String) (s : S)
      → id ≢ other
      → status_at other (repository.mark_dispatched id s).0 ≡ status_at other s
  pub failed_returns :
      (id error : String) (s : S) → (repository.mark_failed id error s).1 ≡ returned tt
  pub failed-IsValid :
      (id error : String) (s : S) → IsValid s → IsValid (repository.mark_failed id error s).0
  pub failed_self :
      (id error : String) (s : S)
      → status_at id s ≢ none
      → status_at id (repository.mark_failed id error s).0 ≡ some OutboxStatus.failed
  pub failed_ne :
      (id error other : String) (s : S)
      → id ≢ other
      → status_at other (repository.mark_failed id error s).0 ≡ status_at other s

-- `InMemoryOutboxRepository`
abbrev pub MemoryOutbox : Type 0
MemoryOutbox = Dict String OutboxRecord

-- The record that takes the place of `r`: what is not named there has its default.
pub remade : OutboxStatus → OutboxRecord → OutboxRecord
remade status r = record r {
  status = status;
  dispatched_at = none;
  retry_count = 0;
  last_error = none;
}

is_pending : OutboxStatus → Bool
is_pending OutboxStatus.pending = true
is_pending OutboxStatus.dispatched = false
is_pending OutboxStatus.failed = false

all_pending : MemoryOutbox → List OutboxRecord
unfolding is_pending
all_pending [] = []
all_pending ((id, r) ∷ d) =
    let rest = all_pending d in if is_pending r.status then r ∷ rest else rest

mark : OutboxStatus → String → MemoryOutbox → Option OutboxRecord → MemoryOutbox
unfolding remade
mark status id d none = d
mark status id d (some r) = insert id (remade status r) d

unfoldable pub memory_outbox : {X : Type 0} → OutboxRepository MemoryOutbox X
unfolding mark all_pending
memory_outbox = record {
  save = λ r d. (insert r.id r d, returned tt);
  get_pending = λ limit d. (d, returned (take limit (all_pending d)));
  mark_dispatched = λ id d. (mark OutboxStatus.dispatched id d (lookup id d), returned tt);
  mark_failed = λ id error d. (mark OutboxStatus.failed id d (lookup id d), returned tt);
}

unfoldable pub all_records : MemoryOutbox → List OutboxRecord
all_records d = map (λ (e : String × OutboxRecord). e.1) d
