-- ===== src/Orchestrator/Engine/Gate.antt =====
-- engine.py: a run whose tools need approval stops before the response.
use governed_agent_platform.Prelude.{
  ℕ, zero, suc, ◌≤◌, ◌≡◌, ◌≢◌, refl, Bool, true, false, none, some, String, arith, Option-cases,
  inl, inr, ◌⊎◌,
}
use governed_agent_platform.Prelude.Exec.{Result, ok, raised}
use governed_agent_platform.Orchestrator.Errors.{Error, message}
use governed_agent_platform.Orchestrator.Models.{
  RunState, in_progress, waiting_for_approval, failed, RunStep, classify, retrieve_context,
  decide_tools, execute_tools, request_approval_if_needed, generate_response, complete, AgentTask,
  RunContext, ToolExecutionResult, new_context,
}
use governed_agent_platform.Orchestrator.StateMachine.{transition_state, next_step}
use governed_agent_platform.Orchestrator.Interfaces.{Collaborators}
use governed_agent_platform.Orchestrator.Engine.State.{Machine}
use governed_agent_platform.Orchestrator.Engine.Methods.{fail_run, transition}
use governed_agent_platform.Orchestrator.Engine.Turns.{Flow, again, finished, turn, settle_tools}
use governed_agent_platform.Orchestrator.Engine.{
  Outcome, begin, iterate, loop, rescue, execute, max_turns, start_run,
}
use governed_agent_platform.Orchestrator.Engine.Termination.{
  turns_left, iterate-Turned, record_calls-context, record_results-context,
}

-- The context of a run that has written no response and has not come to the step that writes it.
abbrev pub IsGuarded : RunContext → Type 0
IsGuarded x = (x.state ≡ in_progress) × (x.response_text ≡ none) × (3 ≤ turns_left x.current_step)

-- The states of a stopped run: it waits for approval, or an exception can still fail it.
abbrev pub is_stopped : RunState → Bool
is_stopped in_progress = true
is_stopped waiting_for_approval = true
is_stopped _ = false

module _ {W : Type 0} where
  abbrev pub GuardedTurn : Result Error Flow × Machine W → Type 0
  GuardedTurn (ok again, m) = IsGuarded m.context
  GuardedTurn (ok finished, m) =
      (m.context.state ≡ waiting_for_approval)
      × (m.context.response_text ≡ none)
      × (m.context.approval_request_id ≢ none)
  GuardedTurn (raised e, m) = (is_stopped m.context.state ≡ true) × (m.context.response_text ≡ none)

  -- A run that was stopped: it waits with an approval request, or has failed, with no response.
  abbrev pub Stopped : Outcome W → Type 0
  Stopped none = ⊥
  Stopped (some (ok _, m)) =
      (((m.context.state ≡ waiting_for_approval) × (m.context.approval_request_id ≢ none))
        ⊎ (m.context.state ≡ failed))
      × (m.context.response_text ≡ none)
  Stopped (some (raised e, m)) = (m.context.state ≡ failed) × (m.context.response_text ≡ none)

  abbrev pub GuardedLoop : Outcome W → Type 0
  GuardedLoop none = ⊥
  GuardedLoop (some (ok _, m)) = GuardedTurn (ok finished, m)
  GuardedLoop (some (raised e, m)) = GuardedTurn (raised e, m)

  -- Every result of the tool executor asks for approval.
  abbrev pub NeedsApproval : Collaborators W → Type 0
  NeedsApproval c =
      (x : RunContext) (w : W) (result : ToolExecutionResult)
      → (c.tool_executor.execute_tools x w).0 ≡ ok result
      → result.requires_approval ≡ true

module _ {W : Type 0} (c : Collaborators W) (needs : NeedsApproval c) where
  settle_tools-Guarded :
      (result : ToolExecutionResult) (m : Machine W)
      → result.requires_approval ≡ true
      → m.context.state ≡ in_progress
      → m.context.response_text ≡ none
      → GuardedTurn (settle_tools c result m)
  unfolding settle_tools transition_state
  settle_tools-Guarded result m a h n = ground arith

  turn-Guarded :
      (step : RunStep) (m : Machine W)
      → IsGuarded m.context
      → m.context.current_step ≡ some step
      → GuardedTurn (turn c step m)
  unfolding turn next_step transition_state
  turn-Guarded classify m h at = ground arith
  turn-Guarded retrieve_context m h at = ground arith
  turn-Guarded decide_tools m h at = ground arith
  turn-Guarded execute_tools m h at =
      grind (arith, record_calls-context, record_results-context, settle_tools-Guarded, needs)
  turn-Guarded request_approval_if_needed m h at = ground arith
  turn-Guarded generate_response m h at = ground arith
  turn-Guarded complete m h at = ground arith

  iterate-Guarded : (m : Machine W) → IsGuarded m.context → GuardedTurn (iterate c m)
  unfolding iterate next_step
  iterate-Guarded m h = elim (Option-cases m.context.current_step) [
    | inl first ↦ rw first (
        turn-Guarded classify
          (record m { context = record m.context { current_step = some classify } })
          (h.0, h.1, omega arith) refl)
    | inr (step, at) ↦ rw at (
        turn-Guarded step (record m { context = record m.context { current_step = some step } })
          (h.0, h.1, rw at at h.2) refl)
  ]

  loop-Guarded :
      (fuel : ℕ) (m : Machine W)
      → IsGuarded m.context
      → turns_left m.context.current_step ≤ fuel
      → GuardedLoop (loop c fuel m)
  unfolding loop
  loop-Guarded zero m h le = absurd (omega arith)
  loop-Guarded (suc fuel) m h le =
      ground (arith, iterate-Guarded m h, iterate-Turned c m h.0, loop-Guarded fuel (iterate c m).1)

  fail_run-Stopped :
      (reason : String) (m : Machine W)
      → is_stopped m.context.state ≡ true
      → m.context.response_text ≡ none
      → Stopped (some (fail_run c reason m))
  unfolding fail_run transition_state
  fail_run-Stopped reason m h n = ground arith

  rescue-Stopped : (o : Outcome W) → GuardedLoop o → Stopped (rescue c o)
  unfolding rescue
  rescue-Stopped none h = h
  rescue-Stopped (some (ok _, m)) h = (inl (h.0, h.2), h.1)
  rescue-Stopped (some (raised e, m)) h = fail_run-Stopped (message e) m h.0 h.1

  begin-Guarded :
      (m : Machine W)
      → m.context ≡ new_context m.context.task
      → IsGuarded (begin c m).1.context × (turns_left (begin c m).1.context.current_step ≡ 7)
  unfolding begin transition transition_state
  begin-Guarded m h = ground arith

  entered-Stopped :
      (r : Result Error Unit) (m : Machine W)
      → IsGuarded m.context
      → turns_left m.context.current_step ≡ 7
      → Stopped (rescue c (elim r [ ok _ ↦ loop c max_turns m | raised e ↦ some (raised e, m) ]))
  entered-Stopped (ok _) m h seven =
      rescue-Stopped (loop c max_turns m) (loop-Guarded max_turns m h (omega arith))
  entered-Stopped (raised e) m h seven = rescue-Stopped (some (raised e, m)) (ground arith)

  -- If every result of the tool executor requires approval, then whatever the collaborators do,
  -- `start_run` ends with no response written, and the run either waits with an approval request
  -- or has failed: it is never completed.
  pub start_run-Stopped : (task : AgentTask) (w : W) → Stopped (start_run c task w)
  unfolding start_run execute
  start_run-Stopped task w =
      let m : Machine W = record { context = new_context task; world = w } in
      let (h, seven) = begin-Guarded m refl in entered-Stopped (begin c m).0 (begin c m).1 h seven
