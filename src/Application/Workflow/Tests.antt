-- ===== src/Application/Workflow/Tests.antt =====
-- Runs of the engine at concrete inputs, and the theorems there.
use python_commons.Base.{
  ℕ, ◌≡◌, refl, String, string_eq, nat_eq, ◌=?◌, Bool, true, false, none, some, [], ◌∷◌,
  if◌then◌else◌,
}
use python_commons.Dict.{Dict}
use python_commons.Outcome.{Outcome, returned, raised}
use python_commons.Application.Workflow.{
  WorkflowState, WorkflowTransition, WorkflowInstance, WorkflowDefinition, WorkflowError, Instances,
  initial_state, save, load, find_transition, advance, define, start, trigger,
}
use python_commons.Application.Workflow.Histories.{Triggered}
use python_commons.Application.Workflow.Triggers.{trigger-Triggered}
use python_commons.Application.Workflow.Validity.{IsValid, insert-IsValid}

abbrev draft : WorkflowState ℕ String
draft = record {
  name = "draft";
  is_initial = true;
  is_terminal = false;
  on_enter = none;
  on_exit = none;
}

abbrev sent : WorkflowState ℕ String
sent = record {
  name = "sent";
  is_initial = false;
  is_terminal = true;
  on_enter = some (λ id ctx. raised "mail");
  on_exit = none;
}

abbrev positive : ℕ → Outcome Bool String
positive ctx = returned (if ctx =? 0 then false else true)

abbrev send : WorkflowTransition ℕ String
send = record {
  from_state = "draft";
  to_state = "sent";
  trigger = "send";
  guard = some positive;
  action = none;
}

abbrev definitions : Dict String (WorkflowDefinition ℕ String)
definitions =
    (
      "letter",
      record {
        name = "letter";
        states = ("draft", draft) ∷ ("sent", sent) ∷ [];
        transitions = send ∷ [];
      },
    )
    ∷ []

abbrev letter : WorkflowInstance ℕ
letter = record {
  id = "i1";
  workflow_name = "letter";
  current_state = "draft";
  history = [];
  context = 0;
}

abbrev store : Instances ℕ
store = ("i1", letter) ∷ []

define_runs : define "letter" (draft ∷ sent ∷ []) (send ∷ []) [] ≡ definitions
unfolding define
define_runs = refl

start_runs : start definitions "letter" "i1" 0 [] ≡ (store, returned letter)
unfolding start initial_state save
start_runs = refl

trigger_refused :
    (trigger definitions "i1" "send" 0 store).1
    ≡ raised (WorkflowError.invalid_transition "draft" "send")
unfolding trigger load find_transition advance
trigger_refused = refl

trigger_raises :
    (trigger definitions "i1" "send" 5 store).1 ≡ raised (WorkflowError.callback_error "mail")
unfolding trigger load find_transition advance
trigger_raises = refl

abbrev moved : WorkflowInstance ℕ
moved = record {
  id = "i1";
  workflow_name = "letter";
  current_state = "sent";
  history = record { from_state = "draft"; to_state = "sent"; trigger = "send"; context = 5 } ∷ [];
  context = 0;
}

none-IsValid : IsValid definitions []
none-IsValid id i e = absurd (cc e)

store-IsValid : IsValid definitions store
unfolding initial_state
store-IsValid =
    insert-IsValid definitions letter []
      (
        record {
          name = "letter";
          states = ("draft", draft) ∷ ("sent", sent) ∷ [];
          transitions = send ∷ [];
        },
        draft,
        refl,
        refl,
        refl,
      )
      none-IsValid

trigger-Triggered_example :
    Triggered definitions "i1" "send" 5 store (trigger definitions "i1" "send" 5 store)
trigger-Triggered_example =
    trigger-Triggered definitions "i1" "send" 5 store (λ id i e. (store-IsValid id i e).0)
