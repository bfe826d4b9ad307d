-- ===== src/Application/Workflow/Triggers.antt =====
-- What a trigger does to the instances.
use python_commons.Base.{◌≡◌, refl, inl, inr, String, string_eq, Option, none, some, Any}
use python_commons.Dict.{Dict, lookup, insert}
use python_commons.Outcome.{Outcome, returned, raised, cancelled}
use python_commons.Application.Workflow.{
  WorkflowState, WorkflowTransition, WorkflowInstance, WorkflowDefinition, WorkflowError, Instances,
  load, Result, after, hook, perform, find_transition, advance, arrive, fire, decide, in_state,
  in_definition, loaded, trigger,
}
use python_commons.Application.Workflow.Histories.{
  IsKeyed, Enabled, Triggered, found-Enabled, after-elim, arrive-Arrived,
}

module _ {C X : Type 0} (definitions : Dict String (WorkflowDefinition C X)) (id event : String)
    (ctx : C) (store : Instances C) where
  abbrev Goes : Result C X → Type 0
  Goes = Triggered definitions id event ctx store

  failed-Triggered : (e : WorkflowError X) → Goes (store, raised e)
  failed-Triggered e = inl (refl, λ k q. cc q)

  cancelled-Triggered : Goes (store, cancelled)
  cancelled-Triggered = inl (refl, λ k q. cc q)

  fire-Triggered :
      (defn : WorkflowDefinition C X) (current : WorkflowState C X) (t : WorkflowTransition C X)
      (i : WorkflowInstance C)
      → i.id ≡ id
      → lookup id store ≡ some i
      → lookup i.workflow_name definitions ≡ some defn
      → Any (λ u. u ≡ t) defn.transitions
      → Enabled i.current_state event ctx t
      → Goes (fire defn current t id event ctx i store)
  unfolding fire advance
  fire-Triggered defn current t i same e d m h =
      let moved = advance t event ctx i in
      let arrival =
        arrive (lookup t.to_state defn.states) t.to_state ctx moved (insert id moved store) in
      let (where_, what) =
        arrive-Arrived (lookup t.to_state defn.states) t.to_state ctx id moved store same in
      after-elim Goes (hook current.on_exit i.id ctx) store
        (after (perform t.action ctx) store arrival)
        (after-elim Goes (perform t.action ctx) store arrival
          (inr (i, defn, t, e, d, m, h, where_, what)) failed-Triggered cancelled-Triggered)
        failed-Triggered cancelled-Triggered

  decide-Triggered :
      (o : Outcome (Option (WorkflowTransition C X)) X) (defn : WorkflowDefinition C X)
      (current : WorkflowState C X) (i : WorkflowInstance C)
      → i.id ≡ id
      → lookup id store ≡ some i
      → lookup i.workflow_name definitions ≡ some defn
      → find_transition i.current_state event ctx defn.transitions ≡ o
      → Goes (decide o defn current id event ctx i store)
  unfolding decide
  decide-Triggered (returned (some t)) defn current i same e d f =
      let (m, h) = found-Enabled i.current_state event ctx defn.transitions t f in
      fire-Triggered defn current t i same e d m h
  decide-Triggered (returned none) defn current i same e d f =
      failed-Triggered (WorkflowError.invalid_transition i.current_state event)
  decide-Triggered (raised x) defn current i same e d f =
      failed-Triggered (WorkflowError.callback_error x)
  decide-Triggered cancelled defn current i same e d f = cancelled-Triggered

  in_state-Triggered :
      (o : Option (WorkflowState C X)) (defn : WorkflowDefinition C X) (i : WorkflowInstance C)
      → i.id ≡ id
      → lookup id store ≡ some i
      → lookup i.workflow_name definitions ≡ some defn
      → Goes (in_state o defn id event ctx i store)
  unfolding in_state
  in_state-Triggered none defn i same e d =
      failed-Triggered (WorkflowError.key_error i.current_state)
  in_state-Triggered (some current) defn i same e d =
      decide-Triggered (find_transition i.current_state event ctx defn.transitions) defn current i
        same e d refl

  in_definition-Triggered :
      (o : Option (WorkflowDefinition C X)) (i : WorkflowInstance C)
      → i.id ≡ id
      → lookup id store ≡ some i
      → lookup i.workflow_name definitions ≡ o
      → Goes (in_definition o id event ctx i store)
  unfolding in_definition
  in_definition-Triggered none i same e d =
      failed-Triggered (WorkflowError.key_error i.workflow_name)
  in_definition-Triggered (some defn) i same e d =
      in_state-Triggered (lookup i.current_state defn.states) defn i same e d

  loaded-Triggered :
      (o : Option (WorkflowInstance C))
      → IsKeyed store
      → lookup id store ≡ o
      → Goes (loaded o definitions id event ctx store)
  unfolding loaded
  loaded-Triggered none keyed e = failed-Triggered (WorkflowError.key_error id)
  loaded-Triggered (some i) keyed e =
      in_definition-Triggered (lookup i.workflow_name definitions) i (keyed id i e) e refl

  pub trigger-Triggered :
      IsKeyed store
      → Triggered definitions id event ctx store (trigger definitions id event ctx store)
  unfolding trigger load
  trigger-Triggered keyed = loaded-Triggered (lookup id store) keyed refl
