-- ===== src/Application/Cqrs.antt =====
-- src/mp_commons/application/cqrs: the in-process command, query and event buses, the command bus
-- with a pipeline, and the factories of buses over the registries of the decorators. A request
-- type is its name. The query bus has the same two methods as the command bus over another dict,
-- and is the same functions here.
pub mod Registered
pub mod Redelivery
mod Tests
use python_commons.Base.{String, string_eq, Option, none, some, List, [], ◌∷◌, ◌++◌, map}
use python_commons.Dict.{Dict, lookup, insert}
use python_commons.Outcome.{Outcome, raised}
use python_commons.Application.Pipeline.{
  Request, Reply, Failure, no_handler, Handler, Middleware, execute,
}

-- `_handlers`
abbrev pub Handlers : Type 0 → Type 0 → Type 0 → Type 0 → Type 0 → Type 0
Handlers P R B X W = Dict String (Handler P R B X W)

module _ {P R B X W : Type 0} where
  unfoldable pub register : String → Handler P R B X W → Handlers P R B X W → Handlers P R B X W
  register t handler handlers = insert t handler handlers

  pub handle : Option (Handler P R B X W) → Handler P R B X W
  handle none q w = (w, raised (no_handler q.name))
  handle (some handler) q w = handler q w

  -- `InProcessCommandBus.dispatch` and `InProcessQueryBus.ask`
  unfoldable pub dispatch : Handlers P R B X W → Handler P R B X W
  unfolding handle
  dispatch handlers q w = handle (lookup q.name handlers) q w

  handle_through : List (Middleware P R B X W) → Option (Handler P R B X W) → Handler P R B X W
  handle_through ms none q w = (w, raised (no_handler q.name))
  handle_through ms (some handler) q w = execute ms q handler w

  -- `MiddlewareAwareCommandBus.dispatch`
  unfoldable pub dispatch_through :
      List (Middleware P R B X W) → Handlers P R B X W → Handler P R B X W
  unfolding handle_through
  dispatch_through ms handlers q w = handle_through ms (lookup q.name handlers) q w

  -- the two loops of `make_command_bus`
  register_all : Handlers P R B X W → Handlers P R B X W → Handlers P R B X W
  unfolding register
  register_all [] handlers = handlers
  register_all ((t, handler) ∷ rest) handlers = register_all rest (register t handler handlers)

  -- `make_command_bus` and `make_query_bus`, on handlers that are already instances
  unfoldable pub make_bus : Handlers P R B X W → Option (Handlers P R B X W) → Handlers P R B X W
  unfolding register_all
  make_bus registry none = register_all registry []
  make_bus registry (some extra) = register_all extra (register_all registry [])

module _ {H : Type 0} where
  subscribers : Option (List H) → List H
  subscribers none = []
  subscribers (some hs) = hs

  -- `InProcessEventBus.register`
  unfoldable pub subscribe : String → H → Dict String (List H) → Dict String (List H)
  unfolding subscribers
  subscribe t h handlers = insert t (subscribers (lookup t handlers) ++ (h ∷ [])) handlers

  -- `InProcessEventBus.publish`: the calls that are gathered
  unfoldable pub publish : String → Dict String (List H) → List H
  unfolding subscribers
  publish t handlers = subscribers (lookup t handlers)
