-- ===== src/Orchestrator/Engine/Termination.antt =====
-- engine.py: the loop of `_execute` ends, whatever the collaborators do.
use governed_agent_platform.Prelude.{
  ℕ, zero, suc, ◌≤◌, ◌<◌, ◌≡◌, refl, Bool, true, false, Option, none, some, List, [], ◌∷◌, arith,
  Option-cases, inl, inr,
}
use governed_agent_platform.Prelude.Exec.{Result, ok, raised}
use governed_agent_platform.Orchestrator.Errors.{Error}
use governed_agent_platform.Orchestrator.Models.{
  RunState, in_progress, waiting_for_approval, completed, RunStep, classify, retrieve_context,
  decide_tools, execute_tools, request_approval_if_needed, generate_response, complete, ToolCall,
  ToolExecutionRecord, ToolExecutionResult,
}
use governed_agent_platform.Orchestrator.StateMachine.{transition_state, next_step}
use governed_agent_platform.Orchestrator.Interfaces.{Collaborators}
use governed_agent_platform.Orchestrator.Engine.State.{Machine}
use governed_agent_platform.Orchestrator.Engine.{Outcome, iterate, loop, max_turns}
use governed_agent_platform.Orchestrator.Engine.Turns.{
  Flow, again, finished, turn, record_calls, record_results, settle_tools,
}

-- The turns that the loop takes at most from a step on.
abbrev pub turns_from : RunStep → ℕ
turns_from classify = 7
turns_from retrieve_context = 6
turns_from decide_tools = 5
turns_from execute_tools = 4
turns_from request_approval_if_needed = 3
turns_from generate_response = 2
turns_from complete = 1

abbrev pub turns_left : Option RunStep → ℕ
turns_left none = 7
turns_left (some step) = turns_from step

pub turns_left-le : (step : Option RunStep) → turns_left step ≤ max_turns
turns_left-le step = ground arith

-- The states in which a turn may leave the run.
abbrev pub is_open : RunState → Bool
is_open in_progress = true
is_open waiting_for_approval = true
is_open completed = true
is_open _ = false

-- The states in which a turn may end the loop.
abbrev pub is_resting : RunState → Bool
is_resting waiting_for_approval = true
is_resting completed = true
is_resting _ = false

module _ {W : Type 0} where
  abbrev pub Turned : ℕ → Result Error Flow × Machine W → Type 0
  Turned n (ok again, m) = (m.context.state ≡ in_progress) × (turns_left m.context.current_step < n)
  Turned n (ok finished, m) =
      (is_resting m.context.state ≡ true) × (n ≤ 2 → m.context.state ≡ completed)
  Turned n (raised e, m) = is_open m.context.state ≡ true

  -- How the loop ends that had `n` turns to go: with fuel to spare, in a state of rest or, on an
  -- exception, in one that `_fail_run` can fail.
  abbrev pub Looped : ℕ → Outcome W → Type 0
  Looped n none = ⊥
  Looped n (some (ok _, m)) =
      (is_resting m.context.state ≡ true) × (n ≤ 2 → m.context.state ≡ completed)
  Looped n (some (raised e, m)) = is_open m.context.state ≡ true

module _ {W : Type 0} (c : Collaborators W) where
  pub record_calls-context :
      (calls : List ToolCall) (m : Machine W) → (record_calls c calls m).1.context ≡ m.context
  unfolding record_calls
  record_calls-context [] m = refl
  record_calls-context (t ∷ rest) m = grind (arith, record_calls-context rest)

  pub record_results-context :
      (records : List ToolExecutionRecord) (m : Machine W)
      → (record_results c records m).1.context ≡ m.context
  unfolding record_results
  record_results-context [] m = refl
  record_results-context (r ∷ rest) m = grind (arith, record_results-context rest)

  settle_tools-Turned :
      (result : ToolExecutionResult) (m : Machine W)
      → m.context.state ≡ in_progress
      → Turned 4 (settle_tools c result m)
  unfolding settle_tools transition_state
  settle_tools-Turned result m h = ground arith

  pub turn-Turned :
      (step : RunStep) (m : Machine W)
      → m.context.state ≡ in_progress
      → Turned (turns_from step) (turn c step m)
  unfolding turn next_step transition_state
  turn-Turned classify m h = ground arith
  turn-Turned retrieve_context m h = ground arith
  turn-Turned decide_tools m h = ground arith
  turn-Turned execute_tools m h =
      grind (arith, record_calls-context, record_results-context, settle_tools-Turned)
  turn-Turned request_approval_if_needed m h = ground arith
  turn-Turned generate_response m h = ground arith
  turn-Turned complete m h = ground arith

  pub iterate-Turned :
      (m : Machine W)
      → m.context.state ≡ in_progress
      → Turned (turns_left m.context.current_step) (iterate c m)
  unfolding iterate next_step
  iterate-Turned m h = elim (Option-cases m.context.current_step) [
    | inl first ↦ rw first (
        turn-Turned classify
          (record m { context = record m.context { current_step = some classify } }) h)
    | inr (step, at) ↦
        rw at (
          turn-Turned step (record m { context = record m.context { current_step = some step } }) h)
  ]

  pub loop-Looped :
      (fuel : ℕ) (m : Machine W)
      → m.context.state ≡ in_progress
      → turns_left m.context.current_step ≤ fuel
      → Looped (turns_left m.context.current_step) (loop c fuel m)
  unfolding loop
  loop-Looped zero m h le = ground arith
  loop-Looped (suc fuel) m h le =
      ground (arith, iterate-Turned m h, loop-Looped fuel (iterate c m).1)
