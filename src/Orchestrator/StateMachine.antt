-- ===== src/Orchestrator/StateMachine.antt =====
-- packages/orchestrator/src/orchestrator/state_machine.py and steps.py: which state may follow
-- which, and the order of the steps.
pub mod Order
pub mod Sequence
use governed_agent_platform.Prelude.{
  ℕ, zero, suc, ◌+◌, ◌-◌, String, ◌<>◌, Bool, true, false, ◌||◌, Option, none, some, List, [], ◌∷◌,
  if◌then◌else◌, Eq, ◌==◌, id_eq, length, get_elem?,
}
use governed_agent_platform.Prelude.Exec.{Result, ok, raised}
use governed_agent_platform.Orchestrator.Models.{
  RunState, in_progress, waiting_for_approval, completed, failed, canceled, state_value,
  run_state_eq, RunStep, classify, retrieve_context, decide_tools, execute_tools,
  request_approval_if_needed, generate_response, complete, step_value, run_step_eq,
}
use governed_agent_platform.Orchestrator.Errors.{Error, invalid_state_transition_error}

-- `_ALLOWED_STATE_TRANSITIONS`
allowed_state_transitions : RunState → List RunState
allowed_state_transitions RunState.pending = in_progress ∷ canceled ∷ []
allowed_state_transitions in_progress = waiting_for_approval ∷ completed ∷ failed ∷ canceled ∷ []
allowed_state_transitions waiting_for_approval = in_progress ∷ failed ∷ canceled ∷ []
allowed_state_transitions completed = []
allowed_state_transitions failed = []
allowed_state_transitions canceled = []

-- `x in xs`
contains {ℓ} : {A : Type ℓ} ⦃e : Eq A⦄ → A → List A → Bool
contains x [] = false
contains x (y ∷ ys) = x == y || contains x ys

-- `xs.index(x)`; `none` stands for its `ValueError`.
index_of {ℓ} : {A : Type ℓ} ⦃e : Eq A⦄ → A → List A → Option ℕ
index_of x [] = none
index_of x (y ∷ ys) =
    let rest = index_of x ys in
    if y == x then some 0 else elim rest [ none ↦ none | some i ↦ some (i + 1) ]

unfoldable pub transition_state : RunState → RunState → Result Error RunState
unfolding allowed_state_transitions contains
transition_state current target =
    if contains target (allowed_state_transitions current)
    then ok target
    else raised (
        invalid_state_transition_error
          ("Invalid state transition: " <> state_value current <> " -> " <> state_value target))

-- `ORDERED_STEPS`
unfoldable pub ordered_steps : List RunStep
ordered_steps =
    classify ∷ retrieve_context ∷ decide_tools ∷ execute_tools ∷ request_approval_if_needed
    ∷ generate_response ∷ complete ∷ []

unknown_step : RunStep → Result Error RunStep
unknown_step current =
    raised (invalid_state_transition_error ("Unknown step: " <> step_value current))

-- The step at `index + 1`, or the refusal at the last step.
successor_at : RunStep → Option ℕ → Result Error RunStep
unfolding ordered_steps unknown_step
successor_at current none = unknown_step current
successor_at current (some index) =
    if index == length ordered_steps - 1
    then raised
        (invalid_state_transition_error ("Step " <> step_value current <> " has no successor"))
    else elim (get_elem? ordered_steps (index + 1)) [
      | none ↦ unknown_step current
      | some step ↦ ok step
    ]

unfoldable pub next_step : Option RunStep → Result Error RunStep
unfolding index_of successor_at
next_step none = ok classify
next_step (some current) = successor_at current (index_of current ordered_steps)
