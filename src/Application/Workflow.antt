-- ===== src/Application/Workflow.antt =====
-- src/mp_commons/application/workflow: definitions, instances and `WorkflowEngine` over
-- `InMemoryWorkflowInstanceStore`. That store holds the instances themselves, so what `trigger`
-- does to the instance that it loaded is in the store before it saves. A callback is a function
-- to its `Outcome`. The instance's id, that uuid4 makes, is an argument of `start`; time stamps
-- and the ids of history records are left out.
pub mod Histories
pub mod Triggers
pub mod Validity
mod Tests
use python_commons.Base.{
  String, string_eq, ◌=?◌, Bool, true, false, ◌&&◌, Option, none, some, List, [], ◌∷◌, ◌++◌,
  if◌then◌else◌,
}
use python_commons.Dict.{Dict, lookup, insert}
use python_commons.Outcome.{Outcome, returned, raised, cancelled}

pub record WorkflowState (C X : Type 0) : Type 0 where
  pub name : String
  pub is_initial : Bool
  pub is_terminal : Bool
  pub on_enter : Option (String → C → Outcome (Unit {0}) X)
  pub on_exit : Option (String → C → Outcome (Unit {0}) X)

pub record WorkflowTransition (C X : Type 0) : Type 0 where
  pub from_state : String
  pub to_state : String
  pub trigger : String
  pub guard : Option (C → Outcome Bool X)
  pub action : Option (C → Outcome (Unit {0}) X)

pub record TransitionRecord (C : Type 0) : Type 0 where
  pub from_state : String
  pub to_state : String
  pub trigger : String
  pub context : C

pub record WorkflowInstance (C : Type 0) : Type 0 where
  pub id : String
  pub workflow_name : String
  pub current_state : String
  pub history : List (TransitionRecord C)
  pub context : C

pub record WorkflowDefinition (C X : Type 0) : Type 0 where
  pub name : String
  pub states : Dict String (WorkflowState C X)
  pub transitions : List (WorkflowTransition C X)

-- What `start` and `trigger` raise: `KeyError`, `ValueError` without an initial state,
-- `InvalidTransitionError`, and what a callback raised.
pub data WorkflowError (X : Type 0) : Type 0 where
  key_error : String → WorkflowError X
  no_initial_state : String → WorkflowError X
  invalid_transition : String → String → WorkflowError X
  callback_error : X → WorkflowError X

-- `InMemoryWorkflowInstanceStore`
abbrev pub Instances : Type 0 → Type 0
Instances C = Dict String (WorkflowInstance C)

unfoldable pub save : {C : Type 0} → WorkflowInstance C → Instances C → Instances C
save instance_ store = insert instance_.id instance_ store

unfoldable pub load : {C : Type 0} → String → Instances C → Option (WorkflowInstance C)
load id store = lookup id store

-- The instances, and what the method returned or raised.
abbrev pub Result : Type 0 → Type 0 → Type 0
Result C X = Instances C × Outcome (WorkflowInstance C) (WorkflowError X)

module _ {C X : Type 0} where
  -- `{s.name: s for s in states}`
  states_by_name :
      List (WorkflowState C X) → Dict String (WorkflowState C X) → Dict String (WorkflowState C X)
  states_by_name [] d = d
  states_by_name (s ∷ ss) d = states_by_name ss (insert s.name s d)

  pub define :
      String
      → List (WorkflowState C X)
      → List (WorkflowTransition C X)
      → Dict String (WorkflowDefinition C X)
      → Dict String (WorkflowDefinition C X)
  unfolding states_by_name
  define name states transitions definitions =
      insert name
        (record { name = name; states = states_by_name states []; transitions = transitions })
        definitions

  first_initial : Dict String (WorkflowState C X) → Option (WorkflowState C X)
  first_initial [] = none
  first_initial ((_, s) ∷ states) = if s.is_initial then some s else first_initial states

  unfoldable pub initial_state : WorkflowDefinition C X → Option (WorkflowState C X)
  unfolding first_initial
  initial_state defn = first_initial defn.states

  -- the rest of a method behind an awaited callback
  pub after : Outcome (Unit {0}) X → Instances C → Result C X → Result C X
  after (returned _) store rest = rest
  after (raised e) store rest = (store, raised (WorkflowError.callback_error e))
  after cancelled store rest = (store, cancelled)

  -- `if callback: await callback(id, ctx)`
  hook : Option (String → C → Outcome (Unit {0}) X) → String → C → Outcome (Unit {0}) X
  hook none id ctx = returned tt
  hook (some f) id ctx = f id ctx

  -- `if action: await action(ctx)`
  perform : Option (C → Outcome (Unit {0}) X) → C → Outcome (Unit {0}) X
  perform none ctx = returned tt
  perform (some f) ctx = f ctx

  begin : WorkflowState C X → String → String → C → Instances C → Result C X
  unfolding after hook
  begin initial workflow_name id ctx store =
      let instance_ : WorkflowInstance C = record {
        id = id;
        workflow_name = workflow_name;
        current_state = initial.name;
        history = [];
        context = ctx;
      } in
      after (hook initial.on_enter id ctx) store (save instance_ store, returned instance_)

  pub start : Dict String (WorkflowDefinition C X) → String → String → C → Instances C → Result C X
  unfolding begin
  start definitions workflow_name id ctx store = elim (lookup workflow_name definitions) [
    | none ↦ (store, raised (WorkflowError.key_error workflow_name))
    | some defn ↦ elim (initial_state defn) [
      | none ↦ (store, raised (WorkflowError.no_initial_state workflow_name))
      | some initial ↦ begin initial workflow_name id ctx store
    ]
  ]

  -- `t.guard is None or await t.guard(ctx)`
  pub passes : Option (C → Outcome Bool X) → C → Outcome Bool X
  passes none ctx = returned true
  passes (some g) ctx = g ctx

  -- the search for a transition, past the first guard
  choose :
      Outcome Bool X
      → WorkflowTransition C X
      → Outcome (Option (WorkflowTransition C X)) X
      → Outcome (Option (WorkflowTransition C X)) X
  choose (returned true) t rest = returned (some t)
  choose (returned false) t rest = rest
  choose (raised e) t rest = raised e
  choose cancelled t rest = cancelled

  pub find_transition :
      String
      → String
      → C
      → List (WorkflowTransition C X)
      → Outcome (Option (WorkflowTransition C X)) X
  unfolding choose passes
  find_transition current event ctx [] = returned none
  find_transition current event ctx (t ∷ ts) =
      let rest = find_transition current event ctx ts in
      if (t.from_state =? current) && (t.trigger =? event)
      then choose (passes t.guard ctx) t rest
      else rest

  -- the record in the history, and the new state
  unfoldable pub advance :
      WorkflowTransition C X → String → C → WorkflowInstance C → WorkflowInstance C
  advance t event ctx i = record i {
    history =
        i.history
        ++ record {
          from_state = t.from_state;
          to_state = t.to_state;
          trigger = event;
          context = ctx;
        }
          ∷ [];
    current_state = t.to_state;
  }

  -- `trigger` from the entering of the new state on
  pub arrive :
      Option (WorkflowState C X) → String → C → WorkflowInstance C → Instances C → Result C X
  unfolding after hook
  arrive none to_state ctx i store = (store, raised (WorkflowError.key_error to_state))
  arrive (some new_state) to_state ctx i store =
      after (hook new_state.on_enter i.id ctx) store (save i store, returned i)

  -- `trigger` from the exit of the current state on
  fire :
      WorkflowDefinition C X
      → WorkflowState C X
      → WorkflowTransition C X
      → String
      → String
      → C
      → WorkflowInstance C
      → Instances C
      → Result C X
  unfolding after hook perform arrive
  fire defn current t id event ctx i store =
      let moved = advance t event ctx i in
      after (hook current.on_exit i.id ctx) store (
        after (perform t.action ctx) store
          (arrive (lookup t.to_state defn.states) t.to_state ctx moved (insert id moved store)))

  decide :
      Outcome (Option (WorkflowTransition C X)) X
      → WorkflowDefinition C X
      → WorkflowState C X
      → String
      → String
      → C
      → WorkflowInstance C
      → Instances C
      → Result C X
  unfolding fire
  decide (returned (some t)) defn current id event ctx i store =
      fire defn current t id event ctx i store
  decide (returned none) defn current id event ctx i store =
      (store, raised (WorkflowError.invalid_transition i.current_state event))
  decide (raised e) defn current id event ctx i store =
      (store, raised (WorkflowError.callback_error e))
  decide cancelled defn current id event ctx i store = (store, cancelled)

  in_state :
      Option (WorkflowState C X)
      → WorkflowDefinition C X
      → String
      → String
      → C
      → WorkflowInstance C
      → Instances C
      → Result C X
  unfolding decide
  in_state none defn id event ctx i store =
      (store, raised (WorkflowError.key_error i.current_state))
  in_state (some current) defn id event ctx i store =
      decide (find_transition i.current_state event ctx defn.transitions) defn current id event ctx
        i store

  in_definition :
      Option (WorkflowDefinition C X)
      → String
      → String
      → C
      → WorkflowInstance C
      → Instances C
      → Result C X
  unfolding in_state
  in_definition none id event ctx i store =
      (store, raised (WorkflowError.key_error i.workflow_name))
  in_definition (some defn) id event ctx i store =
      in_state (lookup i.current_state defn.states) defn id event ctx i store

  loaded :
      Option (WorkflowInstance C)
      → Dict String (WorkflowDefinition C X)
      → String
      → String
      → C
      → Instances C
      → Result C X
  unfolding in_definition
  loaded none definitions id event ctx store = (store, raised (WorkflowError.key_error id))
  loaded (some i) definitions id event ctx store =
      in_definition (lookup i.workflow_name definitions) id event ctx i store

  pub trigger :
      Dict String (WorkflowDefinition C X) → String → String → C → Instances C → Result C X
  unfolding loaded
  trigger definitions id event ctx store = loaded (load id store) definitions id event ctx store
