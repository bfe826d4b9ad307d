-- ===== src/Application/Pipeline/Tests.antt =====
-- Runs of the pipeline at concrete inputs, and the theorems there.
use python_commons.Base.{
  ℕ, zero, suc, ◌≡◌, refl, String, string_eq, true, none, some, List, [], ◌∷◌,
}
use python_commons.Dict.{Dict, lookup, insert, lookup-insert_self}
use python_commons.Outcome.{returned, raised}
use python_commons.Application.Pipeline.{
  Kind, Request, Reply, result, response, other, Handler, Middleware, execute,
}
use python_commons.Application.Pipeline.Chain.{nested, execute-nested}
use python_commons.Application.Pipeline.Idempotency.{
  IdempotencyRecord, Status, in_memory, in_memory-IsStore, idempotency_key_str, begin_,
  run_recorded, deduplication,
}
use python_commons.Application.Pipeline.Idempotency.Replay.{
  completed_with, write_all, replay, in_memory-replays,
}
use python_commons.Application.Pipeline.Idempotency.Once.{rejected, deduplication-once}
use python_commons.Application.Pipeline.Guards.{PolicyDecision, PolicyContext}
use python_commons.Application.Pipeline.Transactions.{UnitOfWork, Cache, unit_of_work}
use python_commons.Application.Pipeline.Transactions.Endings.{
  IsTransactional, IsAtomic, IsCache, unit_of_work-IsAtomic,
}
use python_commons.Application.Pipeline.Observers.{Metrics}

abbrev request : Kind → Request ℕ
request kind = record {
  name = "Pay";
  kind = kind;
  command_id = some "c1";
  idempotency_key = some "c1";
  correlation_id = none;
  is_stampable = true;
  resource = none;
  action = none;
  payload = 7;
}

-- idempotency records, with bytes as numbers
abbrev Records : Type 0
Records = Dict String (IdempotencyRecord ℕ)

abbrev encode : Reply ℕ ℕ → ℕ
encode r = 10

abbrev pays : Handler ℕ ℕ ℕ ℕ Records
pays q w = (w, returned (result 1))

abbrev fails : Handler ℕ ℕ ℕ ℕ Records
fails q w = (w, raised (other 5))

abbrev paid : Records
paid = ("Pay:c1", record { key = "Pay:c1"; response_ = some 10; status = Status.completed }) ∷ []

abbrev stuck : Records
stuck = ("Pay:c1", record { key = "Pay:c1"; response_ = none; status = Status.processing }) ∷ []

deduplication_runs :
    deduplication in_memory encode (request Kind.command) pays [] ≡ (paid, returned (result 1))
unfolding deduplication in_memory idempotency_key_str
deduplication_runs = refl

-- the same command with another payload
abbrev again : Request ℕ
again = record (request Kind.command) { payload = 8 }

deduplication-once_example :
    (deduplication in_memory encode (request Kind.command) fails []
      ≡ run_recorded in_memory encode
          (idempotency_key_str "c1" "Pay")
          (request Kind.command)
          fails
          [])
    × (deduplication in_memory encode again pays stuck ≡ (
      stuck,
      rejected encode "Pay" "c1"
          (fails (request Kind.command) (begin_ in_memory (idempotency_key_str "c1" "Pay") [])).1,
    ))
unfolding deduplication in_memory idempotency_key_str
deduplication-once_example =
    deduplication-once in_memory encode (request Kind.command) again "c1" fails pays [] stuck
      in_memory-IsStore refl refl refl refl refl (λ w. refl) refl refl

-- a middleware that notes that it ran
abbrev notes : ℕ → Middleware ℕ ℕ ℕ ℕ (List ℕ)
notes n q next_ w = next_ q (n ∷ w)

abbrev done : Handler ℕ ℕ ℕ ℕ (List ℕ)
done q w = (w, returned (result 1))

abbrev undone : Handler ℕ ℕ ℕ ℕ (List ℕ)
undone q w = (9 ∷ w, raised (other 1))

execute-nested_example :
    execute (notes 1 ∷ notes 2 ∷ []) (request Kind.query) done []
    ≡ nested (notes 1 ∷ notes 2 ∷ []) done (request Kind.query) []
execute-nested_example = execute-nested (notes 1 ∷ notes 2 ∷ []) (request Kind.query) done []

abbrev denies : PolicyContext ℕ → List ℕ → List ℕ × PolicyDecision
denies c w = (w, PolicyDecision.deny)

abbrev counts : Metrics (List ℕ)
counts = record { count_call = λ s w. 1 ∷ w; record_latency = λ s w. w; count_error = λ s w. 2 ∷ w }

-- the world is what is committed, and what the session holds
abbrev session : UnitOfWork ℕ (ℕ × ℕ)
session = record {
  begin = λ w. (w.0, w.0);
  commit = λ w. ((w.1, w.1), returned tt);
  rollback = λ w. ((w.0, w.0), returned tt);
}

session-IsTransactional : IsTransactional (λ w. w.0) session
session-IsTransactional = record {
  begin_keeps = λ w. refl;
  rollback_keeps = λ w. refl;
  commit_keeps = λ w. tt;
}

abbrev adds_and_fails : Handler ℕ ℕ ℕ ℕ (ℕ × ℕ)
adds_and_fails q w = ((w.0, suc w.1), raised (other 1))

unit_of_work-IsAtomic_example :
    IsAtomic
      (λ w. w.0)
      session
      (5, 0)
      (adds_and_fails (request Kind.command) (session.begin (5, 0)))
      (unit_of_work session (request Kind.command) adds_and_fails (5, 0))
unfolding unit_of_work
unit_of_work-IsAtomic_example =
    unit_of_work-IsAtomic (λ w. w.0) session (request Kind.command) adds_and_fails (5, 0)
      session-IsTransactional (λ v. refl)

-- a cache in memory that keeps what it is given, without its time to live; bytes are lists
abbrev dumps : Reply ℕ (List ℕ) → List ℕ
dumps (result n) = 0 ∷ n ∷ []
dumps (response none) = 1 ∷ []
dumps (response (some b)) = 2 ∷ b

abbrev loads : List ℕ → Reply ℕ (List ℕ)
loads (zero ∷ (n ∷ rest)) = result n
loads (suc zero ∷ rest) = response none
loads (suc (suc zero) ∷ b) = response (some b)
loads _ = response none

abbrev memory : Cache (Reply ℕ (List ℕ)) (List ℕ) (Dict String (List ℕ))
memory = record { get = lookup; set = λ k b ttl w. insert k b w; dumps = dumps; loads = loads }

loads-dumps : (r : Reply ℕ (List ℕ)) → loads (dumps r) ≡ r
loads-dumps (result n) = refl
loads-dumps (response none) = refl
loads-dumps (response (some b)) = refl

memory-IsCache : IsCache memory
memory-IsCache = record {
  get-set = λ k b ttl w. lookup-insert_self k b w;
  loads-dumps = loads-dumps;
}

abbrev answers : Handler ℕ ℕ (List ℕ) ℕ (Dict String (List ℕ))
answers q w = (w, returned (result 4))

abbrev breaks : Handler ℕ ℕ (List ℕ) ℕ (Dict String (List ℕ))
breaks q w = (w, raised (other 4))

abbrev warm : Dict String (List ℕ)
warm = ("query:Pay:d", 0 ∷ 4 ∷ []) ∷ []

in_memory-replays_example :
    (in_memory {B = ℕ}).get "Pay:c1" (write_all (completed_with "Pay:c1" 9 ∷ []) stuck)
    ≡ replay (completed_with "Pay:c1" 9 ∷ []) "Pay:c1" ((in_memory {B = ℕ}).get "Pay:c1" stuck)
in_memory-replays_example = in_memory-replays (completed_with "Pay:c1" 9 ∷ []) "Pay:c1" stuck
