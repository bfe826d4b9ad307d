-- ===== src/Application/Pipeline.antt =====
-- src/mp_commons/application/pipeline: `Pipeline` and what its middlewares see. A handler is a
-- function of the request and of the world, which is all the state that handlers, middlewares
-- and ports share; it leaves a world and ends as an awaited callable does. A middleware gets the
-- rest of the chain as a handler. `Pipeline.add` appends to a list of middlewares.
pub mod Chain
pub mod Idempotency
pub mod Guards
pub mod Transactions
pub mod Observers
mod Tests
use python_commons.Base.{String, Bool, Option, List, [], ◌∷◌, ◌++◌, reverse}
use python_commons.Outcome.{Outcome}

-- The base classes that a middleware tests with `isinstance`.
pub data Kind : Type 0 where
  command query other : Kind

-- `name` is `type(request).__name__`; an attribute that the request does not have is `none`.
-- `is_stampable` tells whether `object.__setattr__` works on it.
pub record Request (P : Type 0) : Type 0 where
  pub name : String
  pub kind : Kind
  pub command_id : Option String
  pub idempotency_key : Option String
  pub correlation_id : Option String
  pub is_stampable : Bool
  pub resource : Option String
  pub action : Option String
  pub payload : P

-- What the caller gets: a result of the handler, or bytes that a store kept.
pub data Reply (R B : Type 0) : Type 0 where
  result : R → Reply R B
  response : Option B → Reply R B

pub data Failure (X : Type 0) : Type 0 where
  unauthorized : Failure X
  forbidden : (resource action : String) → Failure X
  conflict : (operation client_key : String) → Failure X
  no_handler : (name : String) → Failure X
  timed_out : Failure X  -- the library's `TimeoutError`
  timeout_error : Failure X  -- Python's
  other : X → Failure X

module _ (P R B X W : Type 0) where
  abbrev pub Handler : Type 0
  Handler = Request P → W → W × Outcome (Reply R B) (Failure X)

  abbrev pub Middleware : Type 0
  Middleware = Request P → Handler → W → W × Outcome (Reply R B) (Failure X)

module _ {P R B X W : Type 0} where
  unfoldable pub add :
      Middleware P R B X W → List (Middleware P R B X W) → List (Middleware P R B X W)
  add m ms = ms ++ (m ∷ [])

  -- `_wrap`, with its captured `_n` and `_m`
  wrap : Middleware P R B X W → Handler P R B X W → Handler P R B X W
  wrap m next_ q w = m q next_ w

  -- the loop of `execute`
  unfoldable pub wrap_all : List (Middleware P R B X W) → Handler P R B X W → Handler P R B X W
  unfolding wrap
  wrap_all [] chain = chain
  wrap_all (m ∷ ms) chain = wrap_all ms (wrap m chain)

  unfoldable pub execute :
      List (Middleware P R B X W)
      → Request P
      → Handler P R B X W
      → W
      → W × Outcome (Reply R B) (Failure X)
  execute ms q handler w = wrap_all (reverse ms) handler q w
