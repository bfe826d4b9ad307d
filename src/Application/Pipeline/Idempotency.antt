-- ===== src/Application/Pipeline/Idempotency.antt =====
-- The middlewares that look a request up in an idempotency store, with the port and its records of
-- src/mp_commons/kernel/messaging/idempotency.py, and the in-memory store of
-- src/mp_commons/testing/fakes/idempotency.py. A record's times are left out: nothing here reads
-- them. `encode` is `json.dumps({"result": str(result)}).encode()`.
pub mod Once
pub mod Replay
use Prim.Native.String.{◌++◌}
use python_commons.Base.{
  ℕ, ◌≡◌, String, string_eq, ◌≢◌, ◌=?◌, Bool, true, false, Option, none, some, if◌then◌else◌,
}
use python_commons.Dict.{Dict, lookup, insert, lookup-insert_self, lookup-insert_ne}
use python_commons.Outcome.{Outcome, returned, raised, cancelled}
use python_commons.Application.Pipeline.{
  Kind, Request, Reply, response, Failure, conflict, Handler, Middleware,
}

pub data Status : Type 0 where
  processing completed : Status

pub record IdempotencyRecord (B : Type 0) : Type 0 where
  pub key : String
  pub response_ : Option B
  pub status : Status

-- `f"{operation}:{client_key}"`
unfoldable pub idempotency_key_str : String → String → String
idempotency_key_str client_key operation = operation ++ (":" ++ client_key)

-- The port, on the part of the world that it keeps.
pub record IdempotencyStore (B W : Type 0) : Type 0 where
  pub get : String → W → Option (IdempotencyRecord B)
  pub save : String → IdempotencyRecord B → W → W
  pub complete : String → B → W → W

abbrev pub with_response : {B : Type 0} → IdempotencyRecord B → B → IdempotencyRecord B
with_response r b = record { key = r.key; response_ = some b; status = Status.completed }

-- Python's `a or b` on optional strings
truthy_or : Option String → Option String → Option String
truthy_or none b = b
truthy_or (some a) b = if a =? "" then b else some a

-- What the port's documentation promises.
pub record IsStore {B W : Type 0} (s : IdempotencyStore B W) : Type 0 where
  pub get-save : (k : String) (r : IdempotencyRecord B) (w : W) → s.get k (s.save k r w) ≡ some r
  pub get-complete :
      (k : String) (b : B) (r : IdempotencyRecord B) (w : W)
      → s.get k w ≡ some r
      → s.get k (s.complete k b w) ≡ some (with_response r b)

-- `InMemoryIdempotencyStore`
module _ {B : Type 0} where
  complete_in :
      Option (IdempotencyRecord B)
      → String
      → B
      → Dict String (IdempotencyRecord B)
      → Dict String (IdempotencyRecord B)
  complete_in none k b records = records
  complete_in (some r) k b records = insert k (with_response r b) records

  unfoldable pub in_memory : IdempotencyStore B (Dict String (IdempotencyRecord B))
  unfolding complete_in
  in_memory = record {
    get = lookup;
    save = insert;
    complete = λ k b records. complete_in (lookup k records) k b records;
  }

  -- The in-memory store gives back the record that was saved last under a key, and keeps the
  -- response when a saved record is completed.
  pub in_memory-IsStore : IsStore in_memory
  unfolding in_memory complete_in
  in_memory-IsStore = record {
    get-save = lookup-insert_self;
    get-complete = λ k b r w h. rw h (lookup-insert_self k (with_response r b) w);
  }

-- `getattr(request, "command_id", None) or getattr(request, "idempotency_key", None)`
unfoldable pub client_key : {P : Type 0} → Request P → Option String
unfolding truthy_or
client_key q = truthy_or q.command_id q.idempotency_key

-- the calls behind `save`: the handler, and `complete` if it returns
pub finish :
    {R B X W : Type 0}
    → IdempotencyStore B W
    → (Reply R B → B)
    → String
    → W × Outcome (Reply R B) (Failure X)
    → W × Outcome (Reply R B) (Failure X)
finish s encode k (w, returned r) = (s.complete k (encode r) w, returned r)
finish s encode k (w, raised x) = (w, raised x)
finish s encode k (w, cancelled) = (w, cancelled)

-- the world after the `save` that begins a run
pub begin_ : {B W : Type 0} → IdempotencyStore B W → String → W → W
begin_ s k w = s.save k (record { key = k; response_ = none; status = Status.processing }) w

module _ {P R B X W : Type 0} (s : IdempotencyStore B W) (encode : Reply R B → B) where
  pub run_recorded : String → Middleware P R B X W
  unfolding finish begin_
  run_recorded k q next_ w = finish s encode k (next_ q (begin_ s k w))

  -- `IdempotencyMiddleware`, behind the test for a key
  resume_as : Status → Option B → String → Middleware P R B X W
  unfolding run_recorded
  resume_as Status.processing kept k q next_ w = run_recorded k q next_ w
  resume_as Status.completed kept k q next_ w = (w, returned (response kept))

  resume : Option (IdempotencyRecord B) → String → Middleware P R B X W
  unfolding run_recorded resume_as
  resume none k q next_ w = run_recorded k q next_ w
  resume (some r) k q next_ w = resume_as r.status r.response_ k q next_ w

  idempotent_on : Option String → Middleware P R B X W
  unfolding resume
  idempotent_on none q next_ w = next_ q w
  idempotent_on (some c) q next_ w =
      let k = idempotency_key_str c q.name in resume (s.get k w) k q next_ w

  unfoldable pub idempotency : Middleware P R B X W
  unfolding idempotent_on
  idempotency q next_ w = idempotent_on q.idempotency_key q next_ w

  -- `DeduplicationMiddleware`, behind the test for a key
  reject_as : Status → Option B → String → Middleware P R B X W
  reject_as Status.processing kept c q next_ w = (w, raised (conflict q.name c))
  reject_as Status.completed kept c q next_ w = (w, returned (response kept))

  reject : Option (IdempotencyRecord B) → String → String → Middleware P R B X W
  unfolding run_recorded reject_as
  reject none k c q next_ w = run_recorded k q next_ w
  reject (some r) k c q next_ w = reject_as r.status r.response_ c q next_ w

  deduplicate_on : Option String → Middleware P R B X W
  unfolding reject
  deduplicate_on none q next_ w = next_ q w
  deduplicate_on (some c) q next_ w =
      let k = idempotency_key_str c q.name in reject (s.get k w) k c q next_ w

  by_kind : Kind → Middleware P R B X W
  unfolding deduplicate_on client_key
  by_kind Kind.command q next_ w = deduplicate_on (client_key q) q next_ w
  by_kind _ q next_ w = next_ q w

  unfoldable pub deduplication : Middleware P R B X W
  unfolding by_kind
  deduplication q next_ w = by_kind q.kind q next_ w
