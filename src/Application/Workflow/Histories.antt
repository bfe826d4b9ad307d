-- ===== src/Application/Workflow/Histories.antt =====
-- What the engine leaves of an instance: its history and its state.
use text.Mathlib.TextEquality.{eq_iff}
use python_commons.Base.{
  ◌≡◌, ◌≢◌, refl, sym, ◌∙◌, subst, ◌⊎◌, inl, inr, String, string_eq, ◌=?◌, Bool, true, false, ◌&&◌,
  Option, none, some, List, [], ◌∷◌, ◌++◌, Any, Bool-cases, arith, if◌then◌else◌,
}
use python_commons.Dict.{Dict, lookup, insert, lookup-insert}
use python_commons.Outcome.{Outcome, returned, raised, cancelled}
use python_commons.Application.Workflow.{
  WorkflowState, WorkflowTransition, TransitionRecord, WorkflowInstance, WorkflowDefinition,
  WorkflowError, Instances, save, Result, after, hook, passes, choose, find_transition, advance,
  arrive,
}

-- The store has an instance under its id only.
abbrev pub IsKeyed : {C : Type 0} → Instances C → Type 0
IsKeyed {C} store = (id : String) (i : WorkflowInstance C) → lookup id store ≡ some i → i.id ≡ id

moved-lookup :
    {C : Type 0} (id : String) (moved : WorkflowInstance C) (store : Instances C)
    → moved.id ≡ id
    → (j : String)
    → lookup j (save moved (insert id moved store))
      ≡ (if id =? j then some moved else lookup j store)
unfolding save
moved-lookup id moved store same j =
    subst
      (λ n.
        lookup j (insert n moved (insert id moved store))
        ≡ (if id =? j then some moved else lookup j store))
      (sym same)
      (ground
        (arith, lookup-insert id j moved (insert id moved store), lookup-insert id j moved store))

module _ {C X : Type 0} where
  -- The transition can be taken: it leads from the state by the event, and its guard passes.
  abbrev pub Enabled : String → String → C → WorkflowTransition C X → Type 0
  Enabled current event ctx t =
      (t.from_state ≡ current) × (t.trigger ≡ event) × (passes t.guard ctx ≡ returned true)

  -- The records lead from the first state to the second by transitions of the list.
  abbrev pub Leads :
      List (WorkflowTransition C X) → String → List (TransitionRecord C) → String → Type 0
  Leads ts s [] final = s ≡ final
  Leads ts s (r ∷ rs) final =
      (r.from_state ≡ s)
      × Any
          (λ t. (t.from_state ≡ r.from_state) × (t.to_state ≡ r.to_state) × (t.trigger ≡ r.trigger))
          ts
      × Leads ts r.to_state rs final

  choose_cases :
      (o : Outcome Bool X) (u t : WorkflowTransition C X)
      (rest : Outcome (Option (WorkflowTransition C X)) X)
      → choose o u rest ≡ returned (some t)
      → ((o ≡ returned true) × (u ≡ t)) ⊎ (rest ≡ returned (some t))
  unfolding choose
  choose_cases (returned true) u t rest e = inl (refl, cc e)
  choose_cases (returned false) u t rest e = inr e
  choose_cases (raised x) u t rest e = absurd (cc e)
  choose_cases cancelled u t rest e = absurd (cc e)

  pub found-Enabled :
      (current event : String) (ctx : C) (ts : List (WorkflowTransition C X))
      (t : WorkflowTransition C X)
      → find_transition current event ctx ts ≡ returned (some t)
      → Any (λ u. u ≡ t) ts × Enabled current event ctx t
  unfolding find_transition
  found-Enabled current event ctx [] t e = absurd (cc e)
  found-Enabled current event ctx (u ∷ ts) t e =
      elim (Bool-cases ((u.from_state =? current) && (u.trigger =? event))) [
        | inl fits ↦
            elim (choose_cases (passes u.guard ctx) u t (find_transition current event ctx ts)
              (ground (arith, e, fits))) [
                | inl (ok, same) ↦ (
                  inl same,
                  subst (Enabled current event ctx) same (
                    (eq_iff u.from_state current).0 (ground (arith, fits)),
                    (eq_iff u.trigger event).0 (ground (arith, fits)),
                    ok,
                  ),
                )
                | inr later ↦ let (m, h) = found-Enabled current event ctx ts t later in (inr m, h)
              ]
        | inr other ↦
            let (m, h) = found-Enabled current event ctx ts t (ground (arith, e, other)) in
            (inr m, h)
      ]

  pub Leads-append :
      (ts : List (WorkflowTransition C X)) (s mid : String) (rs : List (TransitionRecord C))
      (r : TransitionRecord C)
      → Leads ts s rs mid
      → r.from_state ≡ mid
      → Any
          (λ t. (t.from_state ≡ r.from_state) × (t.to_state ≡ r.to_state) × (t.trigger ≡ r.trigger))
          ts
      → Leads ts s (rs ++ r ∷ []) r.to_state
  Leads-append ts s mid [] r h e a = (e ∙ sym h, a, refl)
  Leads-append ts s mid (q ∷ rs) r h e a = (h.0, h.1, Leads-append ts q.to_state mid rs r h.2 e a)

  -- How a `trigger` has gone: up to the exit from the current state nothing has changed; else a
  -- transition that could be taken has been, and the instance in the store is the one that it
  -- leads to, also if `trigger` raised; what it returned is that instance.
  abbrev pub Triggered :
      Dict String (WorkflowDefinition C X) → String → String → C → Instances C → Result C X → Type 0
  Triggered definitions id event ctx store (store', outcome) =
      ((store' ≡ store) × ((k : WorkflowInstance C) → outcome ≢ returned k))
      ⊎ ((i : WorkflowInstance C) × (defn : WorkflowDefinition C X) × (t : WorkflowTransition C X)
          × (lookup id store ≡ some i)
          × (lookup i.workflow_name definitions ≡ some defn)
          × Any (λ u. u ≡ t) defn.transitions
          × Enabled i.current_state event ctx t
          × ((j : String)
              → lookup j store'
                ≡ (if id =? j then some (advance t event ctx i) else lookup j store))
          × (outcome ≡ returned (advance t event ctx i)
              ⊎ ((k : WorkflowInstance C) → outcome ≢ returned k)))

  pub after-elim :
      (P : Result C X → Type 0) (o : Outcome (Unit {0}) X) (store : Instances C) (rest : Result C X)
      → P rest
      → ((e : WorkflowError X) → P (store, raised e))
      → P (store, cancelled)
      → P (after o store rest)
  unfolding after
  after-elim P (returned _) store rest h f c = h
  after-elim P (raised e) store rest h f c = f (WorkflowError.callback_error e)
  after-elim P cancelled store rest h f c = c

  -- Entering the new state: the instance moved is in the store whether or not that raises.
  abbrev pub Arrived : String → WorkflowInstance C → Instances C → Result C X → Type 0
  Arrived id moved store (store', outcome) =
      ((j : String) → lookup j store' ≡ (if id =? j then some moved else lookup j store))
      × (outcome ≡ returned moved ⊎ ((k : WorkflowInstance C) → outcome ≢ returned k))

  pub arrive-Arrived :
      (s : Option (WorkflowState C X)) (to_state : String) (ctx : C) (id : String)
      (moved : WorkflowInstance C) (store : Instances C)
      → moved.id ≡ id
      → Arrived id moved store (arrive s to_state ctx moved (insert id moved store))
  unfolding arrive
  arrive-Arrived none to_state ctx id moved store same =
      (λ j. lookup-insert id j moved store, inr (λ k q. absurd (cc q)))
  arrive-Arrived (some s) to_state ctx id moved store same =
      after-elim (Arrived id moved store) (hook s.on_enter moved.id ctx) (insert id moved store)
        (save moved (insert id moved store), returned moved)
        (moved-lookup id moved store same, inl refl)
        (λ e. (λ j. lookup-insert id j moved store, inr (λ k q. absurd (cc q))))
        (λ j. lookup-insert id j moved store, inr (λ k q. absurd (cc q)))
