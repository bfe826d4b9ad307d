-- ===== src/Application/Cqrs/Tests.antt =====
-- Runs of the buses at concrete inputs, and the theorems there.
use python_commons.Base.{ℕ, suc, ◌≡◌, refl, String, string_eq, true, none, some, List, [], ◌∷◌}
use python_commons.Outcome.{returned, raised}
use python_commons.Application.Pipeline.{
  execute, wrap_all, Kind, Request, Reply, result, no_handler, Handler, Middleware,
}
use python_commons.Application.Cqrs.{Handlers, dispatch_through, make_bus}
use python_commons.Dict.{Dict}
use python_commons.Application.Pipeline.Idempotency.{
  IdempotencyRecord, in_memory, in_memory-IsStore, idempotency_key_str, client_key, begin_,
  run_recorded, deduplication,
}
use python_commons.Application.Pipeline.Idempotency.Once.{rejected}
use python_commons.Application.Cqrs.Redelivery.{dispatches, dispatch_once}

-- the world counts the calls
abbrev order : Request ℕ
order = record {
  name = "CreateOrder";
  kind = Kind.command;
  command_id = none;
  idempotency_key = none;
  correlation_id = none;
  is_stampable = true;
  resource = none;
  action = none;
  payload = 7;
}

abbrev answers : ℕ → Handler ℕ ℕ ℕ ℕ ℕ
answers n q w = (suc w, returned (result n))

abbrev counting : Middleware ℕ ℕ ℕ ℕ ℕ
counting q next_ w = next_ q (suc w)

abbrev registry : Handlers ℕ ℕ ℕ ℕ ℕ
registry = ("CreateOrder", answers 1) ∷ ("CancelOrder", answers 2) ∷ []

abbrev extra : Handlers ℕ ℕ ℕ ℕ ℕ
extra = ("CreateOrder", answers 3) ∷ []

dispatch_through_runs :
    dispatch_through (counting ∷ []) (make_bus registry (some extra)) order 0
    ≡ (2, returned (result 3))
unfolding dispatch_through make_bus execute wrap_all
dispatch_through_runs = refl

dispatch_fails :
    dispatch_through (counting ∷ []) (make_bus extra none) (record order { name = "X" }) 5
    ≡ (5, raised (no_handler "X"))
unfolding dispatch_through make_bus
dispatch_fails = refl

abbrev subscriptions : List (String × ℕ)
subscriptions = ("a", 1) ∷ ("b", 2) ∷ ("a", 3) ∷ []

-- the store of the bus is the world, and its bytes are numbers
abbrev Records : Type 0
Records = Dict String (IdempotencyRecord ℕ)

abbrev encode : Reply ℕ ℕ → ℕ
encode r = 10

abbrev pays : Handler ℕ ℕ ℕ ℕ Records
pays q w = (w, returned (result 1))

abbrev payment : Request ℕ
payment = record order { name = "Pay"; command_id = some "c1" }

abbrev bus : Handlers ℕ ℕ ℕ ℕ Records
bus = ("Pay", pays) ∷ []

dispatch_once_example :
    (dispatches (deduplication in_memory encode ∷ []) bus 3 payment []
      ≡ (run_recorded in_memory encode (idempotency_key_str "c1" "Pay") payment pays []).0)
    × (dispatch_through
          (deduplication in_memory encode ∷ [])
          bus
          payment
          (dispatches (deduplication in_memory encode ∷ []) bus 3 payment [])
        ≡ (
          dispatches (deduplication in_memory encode ∷ []) bus 3 payment [],
          rejected encode "Pay" "c1"
              (pays payment (begin_ in_memory (idempotency_key_str "c1" "Pay") [])).1,
        ))
unfolding in_memory idempotency_key_str client_key
dispatch_once_example =
    dispatch_once in_memory encode [] bus pays payment "c1" 2 [] in_memory-IsStore refl refl refl
      (λ w. refl) refl
