-- ===== src/Orchestrator/StateMachine/Order.antt =====
-- state_machine.py: the diagram of the states, and what `transition_state` accepts of it.
use governed_agent_platform.Prelude.{◌≡◌, refl, ◌⊎◌, inl, inr, ◌<>◌, Bool-cases}
use governed_agent_platform.Prelude.Exec.{Result, ok, raised}
use governed_agent_platform.Orchestrator.Errors.{Error, invalid_state_transition_error}
use governed_agent_platform.Orchestrator.Models.{
  RunState, in_progress, waiting_for_approval, completed, failed, canceled, state_value,
  run_state_eq,
}
use governed_agent_platform.Orchestrator.StateMachine.{
  allowed_state_transitions, contains, transition_state,
}

infix 40 ◌⟶◌
pub data ◌⟶◌ : RunState → RunState → Type 0 where
  start : RunState.pending ⟶ in_progress
  drop : RunState.pending ⟶ canceled
  pause : in_progress ⟶ waiting_for_approval
  finish : in_progress ⟶ completed
  crash : in_progress ⟶ failed
  abort : in_progress ⟶ canceled
  resume : waiting_for_approval ⟶ in_progress
  break : waiting_for_approval ⟶ failed
  reject : waiting_for_approval ⟶ canceled

edge_allowed : {a b : RunState} → a ⟶ b → transition_state a b ≡ ok b
unfolding transition_state
edge_allowed start = refl
edge_allowed drop = refl
edge_allowed pause = refl
edge_allowed finish = refl
edge_allowed crash = refl
edge_allowed abort = refl
edge_allowed resume = refl
edge_allowed break = refl
edge_allowed reject = refl

allowed_edge : (a b : RunState) → transition_state a b ≡ ok b → a ⟶ b
unfolding transition_state
allowed_edge RunState.pending in_progress h = start
allowed_edge RunState.pending canceled h = drop
allowed_edge in_progress waiting_for_approval h = pause
allowed_edge in_progress completed h = finish
allowed_edge in_progress failed h = crash
allowed_edge in_progress canceled h = abort
allowed_edge waiting_for_approval in_progress h = resume
allowed_edge waiting_for_approval failed h = break
allowed_edge waiting_for_approval canceled h = reject
allowed_edge _ _ h = cc

-- A refusal of `transition_state`, with its message.
abbrev pub refusal : RunState → RunState → Result Error RunState
refusal a b = raised (
    invalid_state_transition_error
      ("Invalid state transition: " <> state_value a <> " -> " <> state_value b))

two_results :
    (a b : RunState) → (transition_state a b ≡ ok b) ⊎ (transition_state a b ≡ refusal a b)
unfolding transition_state
two_results a b = elim (Bool-cases (contains b (allowed_state_transitions a))) [
  | inl yes_it_is ↦ inl (rw yes_it_is)
  | inr not_it ↦ inr (rw not_it)
]

-- `transition_state` decides the edges of the diagram: along an edge it returns the target, and
-- for any other pair, a state and itself included, it raises the error that names both states.
pub transition_state_decides :
    (a b : RunState)
    → ((a ⟶ b) × (transition_state a b ≡ ok b))
      ⊎ ((¬ (a ⟶ b)) × (transition_state a b ≡ refusal a b))
transition_state_decides a b = elim (two_results a b) [
  | inl accepted ↦ inl (allowed_edge a b accepted, accepted)
  | inr refused ↦ inr (λ e. cc (edge_allowed e), refused)
]
