-- ===== src/Application/Workflow/Validity.antt =====
-- The invariant of the instances, over starts and triggers.
use text.Mathlib.TextEquality.{eq_iff}
use python_commons.Base.{
  ◌≡◌, refl, sym, ◌∙◌, ap, subst, inl, inr, String, string_eq, ◌=?◌, some, List, [], ◌∷◌, Any,
  Bool-cases, Option-cases,
}
use python_commons.Dict.{Dict, lookup, insert, lookup-insert}
use python_commons.Outcome.{returned}
use python_commons.Application.Workflow.{
  WorkflowState, WorkflowTransition, TransitionRecord, WorkflowInstance, WorkflowDefinition,
  Instances, save, initial_state, hook, begin, start, advance, trigger,
}
use python_commons.Application.Workflow.Histories.{Enabled, Leads, Leads-append, after-elim}
use python_commons.Application.Workflow.Triggers.{trigger-Triggered}

module _ {C X : Type 0} (definitions : Dict String (WorkflowDefinition C X)) where
  -- The history leads from the initial state of the instance's definition to its current state, by
  -- transitions of the definition.
  abbrev pub HasHistory : WorkflowInstance C → Type 0
  HasHistory i =
      (defn : WorkflowDefinition C X) × (s : WorkflowState C X) × (lookup i.workflow_name
          definitions
        ≡ some defn)
      × (initial_state defn ≡ some s)
      × Leads defn.transitions s.name i.history i.current_state

  -- Every instance stands under its id, and has such a history.
  abbrev pub IsValid : Instances C → Type 0
  IsValid store =
      (id : String) (i : WorkflowInstance C) → lookup id store ≡ some i → (i.id ≡ id) × HasHistory i

  recorded :
      (t : WorkflowTransition C X) (r : TransitionRecord C) (ts : List (WorkflowTransition C X))
      → (t.from_state ≡ r.from_state) × (t.to_state ≡ r.to_state) × (t.trigger ≡ r.trigger)
      → Any (λ u. u ≡ t) ts
      → Any
          (λ u. (u.from_state ≡ r.from_state) × (u.to_state ≡ r.to_state) × (u.trigger ≡ r.trigger))
          ts
  recorded t r [] h m = absurd m
  recorded t r (u ∷ ts) h (inl e) = inl (
      subst
        (λ v. (v.from_state ≡ r.from_state) × (v.to_state ≡ r.to_state) × (v.trigger ≡ r.trigger))
        (sym e) h)
  recorded t r (u ∷ ts) h (inr m) = inr (recorded t r ts h m)

  advance-HasHistory :
      (i : WorkflowInstance C) (defn : WorkflowDefinition C X) (t : WorkflowTransition C X)
      (event : String) (ctx : C)
      → lookup i.workflow_name definitions ≡ some defn
      → Any (λ u. u ≡ t) defn.transitions
      → Enabled i.current_state event ctx t
      → HasHistory i
      → HasHistory (advance t event ctx i)
  unfolding advance
  advance-HasHistory i defn t event ctx d m (from, named, _) (defn', s, d', initial, path) =
      let same : defn ≡ defn' = cc (sym d ∙ d') in
      let r : TransitionRecord C = record {
        from_state = t.from_state;
        to_state = t.to_state;
        trigger = event;
        context = ctx;
      } in
      (
        defn',
        s,
        d',
        initial,
        Leads-append defn'.transitions s.name i.current_state i.history r path from (
            recorded t r defn'.transitions (refl, refl, named)
              (subst (λ v. Any (λ u. u ≡ t) v.transitions) same m)),
      )

  -- A `trigger`, however it ends, keeps every instance under its id, with a history that leads from
  -- the initial state of its definition to its current state by transitions of the definition.
  pub trigger-IsValid :
      (id event : String) (ctx : C) (store : Instances C)
      → IsValid store
      → IsValid (trigger definitions id event ctx store).0
  unfolding advance
  trigger-IsValid id event ctx store valid j k e =
      elim (trigger-Triggered definitions id event ctx store (λ n i f. (valid n i f).0)) [
        | inl (same, _) ↦ valid j k (sym (ap (lookup j) same) ∙ e)
        | inr (i, defn, t, f, d, m, h, where_, _) ↦ elim (Bool-cases (id =? j)) [
          | inl here ↦
              let (same, history) = valid id i f in
              let moved = advance-HasHistory i defn t event ctx d m h history in
              let k_moved : advance t event ctx i ≡ k = cc (sym (rw here at (where_ j)) ∙ e) in
              subst (λ n. (n.id ≡ j) × HasHistory n) k_moved (same ∙ (eq_iff id j).0 here, moved)
          | inr other ↦ valid j k (sym (rw other at (where_ j)) ∙ e)
        ]
      ]

  pub insert-IsValid :
      (i : WorkflowInstance C) (store : Instances C)
      → HasHistory i
      → IsValid store
      → IsValid (insert i.id i store)
  insert-IsValid i store h valid j k e = elim (Bool-cases (i.id =? j)) [
    | inl here ↦
        let same : i ≡ k = cc (sym (rw here at (lookup-insert i.id j i store)) ∙ e) in
        subst (λ n. (n.id ≡ j) × HasHistory n) same ((eq_iff i.id j).0 here, h)
    | inr other ↦ valid j k (sym (rw other at (lookup-insert i.id j i store)) ∙ e)
  ]

  begin-IsValid :
      (defn : WorkflowDefinition C X) (initial : WorkflowState C X) (name id : String) (ctx : C)
      (store : Instances C)
      → lookup name definitions ≡ some defn
      → initial_state defn ≡ some initial
      → IsValid store
      → IsValid (begin initial name id ctx store).0
  unfolding begin save
  begin-IsValid defn initial name id ctx store d s valid =
      let i : WorkflowInstance C = record {
        id = id;
        workflow_name = name;
        current_state = initial.name;
        history = [];
        context = ctx;
      } in
      after-elim (λ r. IsValid r.0) (hook initial.on_enter id ctx) store
        (insert id i store, returned i) (insert-IsValid i store (defn, initial, d, s, refl) valid)
        (λ e. valid) valid

  -- A `start`, however it ends, keeps every instance under its id, with a history that leads from
  -- the initial state of its definition to its current state by transitions of the definition.
  pub start-IsValid :
      (name id : String) (ctx : C) (store : Instances C)
      → IsValid store
      → IsValid (start definitions name id ctx store).0
  unfolding start initial_state
  start-IsValid name id ctx store valid = elim (Option-cases (lookup name definitions)) [
    | inl absent ↦ rw (start, absent) valid
    | inr (defn, d) ↦ elim (Option-cases (initial_state defn)) [
      | inl absent ↦ rw (start, d, absent) valid
      | inr (initial, s) ↦ rw (start, d, s) (begin-IsValid defn initial name id ctx store d s valid)
    ]
  ]
