-- ===== src/Orchestrator/Engine/Store.antt =====
-- engine.py: the status of a run in the run store, against the state of its context.
use governed_agent_platform.Prelude.{
  ℕ, zero, suc, ◌≤◌, ◌≡◌, refl, Bool, true, false, Option, none, some, String, List, [], ◌∷◌, arith,
  Uuid, Payload, Option-cases, inl, inr,
}
use governed_agent_platform.Prelude.Exec.{Result, ok, raised}
use governed_agent_platform.Tracing.{EventPayload}
use governed_agent_platform.Orchestrator.Errors.{Error, message}
use governed_agent_platform.Orchestrator.Models.{
  RunState, in_progress, waiting_for_approval, completed, failed, state_value, RunStep, classify,
  retrieve_context, decide_tools, execute_tools, request_approval_if_needed, generate_response,
  complete, RunContext, AgentTask, ToolCall, ToolExecutionRecord, ToolExecutionResult, new_context,
}
use governed_agent_platform.Orchestrator.StateMachine.{transition_state, next_step}
use governed_agent_platform.Orchestrator.Interfaces.{Collaborators}
use governed_agent_platform.Orchestrator.Engine.State.{Machine}
use governed_agent_platform.Orchestrator.Engine.Methods.{fail_run, transition}
use governed_agent_platform.Orchestrator.Engine.Turns.{
  turn, settle_tools, record_calls, record_results,
}
use governed_agent_platform.Orchestrator.Engine.{
  Outcome, begin, iterate, loop, rescue, execute, max_turns, start_run,
}
use governed_agent_platform.Orchestrator.Engine.Termination.{
  turns_left, turns_left-le, is_open, Looped, loop-Looped, iterate-Turned, record_calls-context,
  record_results-context,
}
use governed_agent_platform.Orchestrator.Engine.Lifecycle.{begin_lem}

-- Whether the run store has a status.
abbrev pub is_known : Option String → Bool
is_known none = false
is_known (some s) = true

-- A view of the status that the run store holds, with what the collaborators do to it: for a run
-- that has one, a call of `update_run_status` with the value of a state returns and sets it, and no
-- other call changes it.
pub record StatusView {W : Type 0} (c : Collaborators W) : Type 0 where
  pub status : Uuid → W → Option String
  pub update_run_status :
      (x : RunState) (id : Uuid) (e : Option String) (w : W)
      → is_known (status id w) ≡ true
      → ((c.run_store.update_run_status id (state_value x) e w).0 ≡ ok tt)
        × (status id (c.run_store.update_run_status id (state_value x) e w).1
            ≡ some (state_value x))
  pub create_approval_request :
      (id i : Uuid) (s : String) (p : Option Payload) (t : Option Uuid) (w : W)
      → status id (c.approval_store.create_approval_request i s p t w).1 ≡ status id w
  pub classify :
      (id : Uuid) (t : AgentTask) (w : W) → status id (c.ai_gateway.classify t w).1 ≡ status id w
  pub generate_response :
      (id : Uuid) (x : RunContext) (w : W)
      → status id (c.ai_gateway.generate_response x w).1 ≡ status id w
  pub describe_route :
      (id : Uuid) (f : _) (x : RunContext) (w : W)
      → c.ai_gateway.describe_route ≡ some f
      → status id (f x w).1 ≡ status id w
  pub retrieve :
      (id : Uuid) (t : AgentTask) (s : String) (w : W)
      → status id (c.retrieval_service.retrieve t s w).1 ≡ status id w
  pub plan_tools :
      (id : Uuid) (x : RunContext) (w : W)
      → status id (c.tool_executor.plan_tools x w).1 ≡ status id w
  pub execute_tools :
      (id : Uuid) (x : RunContext) (w : W)
      → status id (c.tool_executor.execute_tools x w).1 ≡ status id w
  pub record_event :
      (id i : Uuid) (s : String) (p : Option EventPayload) (w : W)
      → status id (c.trace_recorder.record_event i s p w).1 ≡ status id w
  pub store_waiting_context :
      (id : Uuid) (x : RunContext) (w : W)
      → status id (c.runtime_hooks.store_waiting_context x w).1 ≡ status id w
  pub on_waiting_for_approval :
      (id i a : Uuid) (w : W)
      → status id (c.runtime_hooks.on_waiting_for_approval i a w).1 ≡ status id w
  pub on_run_completed :
      (id i : Uuid) (s : RunState) (w : W)
      → status id (c.runtime_hooks.on_run_completed i s w).1 ≡ status id w

module _ {W : Type 0} (c : Collaborators W) (v : StatusView c) (id : Uuid) where
  -- The context is that of the run, and the store holds its state.
  abbrev pub IsSynced : Machine W → Type 0
  IsSynced m =
      (m.context.task.run_id ≡ id) × (v.status id m.world ≡ some (state_value m.context.state))

  record_calls-IsSynced :
      (calls : List ToolCall) (m : Machine W) → IsSynced m → IsSynced (record_calls c calls m).1
  unfolding record_calls
  record_calls-IsSynced [] m h = h
  record_calls-IsSynced (t ∷ rest) m h = grind (arith, v.record_event, record_calls-IsSynced rest)

  record_results-IsSynced :
      (records : List ToolExecutionRecord) (m : Machine W)
      → IsSynced m
      → IsSynced (record_results c records m).1
  unfolding record_results
  record_results-IsSynced [] m h = h
  record_results-IsSynced (r ∷ rest) m h =
      grind (arith, v.record_event, record_results-IsSynced rest)

  settle_tools-IsSynced :
      (result : ToolExecutionResult) (m : Machine W)
      → IsSynced m
      → m.context.state ≡ in_progress
      → IsSynced (settle_tools c result m).1
  unfolding settle_tools transition_state
  settle_tools-IsSynced result m h s = grind (
    arith,
    v.update_run_status in_progress,
    v.update_run_status waiting_for_approval,
    v.update_run_status completed,
    v.update_run_status failed,
    v.record_event,
    v.create_approval_request,
    v.store_waiting_context,
    v.on_waiting_for_approval,
  )

  turn-IsSynced :
      (step : RunStep) (m : Machine W)
      → IsSynced m
      → m.context.state ≡ in_progress
      → IsSynced (turn c step m).1
  unfolding turn next_step transition_state
  turn-IsSynced classify m h s = grind (arith, v.classify)
  turn-IsSynced retrieve_context m h s = grind (arith, v.retrieve, v.record_event)
  turn-IsSynced decide_tools m h s = grind (arith, v.plan_tools)
  turn-IsSynced execute_tools m h s = grind (
    arith, v.execute_tools, record_calls-context, record_results-context, record_calls-IsSynced,
    record_results-IsSynced, settle_tools-IsSynced,
  )
  turn-IsSynced request_approval_if_needed m h s = grind (
    arith,
    v.update_run_status in_progress,
    v.update_run_status waiting_for_approval,
    v.update_run_status completed,
    v.update_run_status failed,
    v.record_event,
    v.create_approval_request,
    v.store_waiting_context,
    v.on_waiting_for_approval,
  )
  turn-IsSynced generate_response m h s =
      grind (arith, v.describe_route, v.record_event, v.generate_response)
  turn-IsSynced complete m h s = grind (
    arith,
    v.update_run_status in_progress,
    v.update_run_status waiting_for_approval,
    v.update_run_status completed,
    v.update_run_status failed,
    v.record_event,
    v.on_run_completed,
  )

  iterate-IsSynced :
      (m : Machine W) → IsSynced m → m.context.state ≡ in_progress → IsSynced (iterate c m).1
  unfolding iterate next_step
  iterate-IsSynced m h s = elim (Option-cases m.context.current_step) [
    | inl first ↦ rw first (
        turn-IsSynced classify
          (record m { context = record m.context { current_step = some classify } }) h s)
    | inr (step, at) ↦ rw at (
        turn-IsSynced step (record m { context = record m.context { current_step = some step } }) h
          s)
  ]

  abbrev pub OutcomeSynced : Outcome W → Type 0
  OutcomeSynced none = ⊥
  OutcomeSynced (some (r, m)) = IsSynced m

  loop-IsSynced :
      (fuel : ℕ) (m : Machine W)
      → IsSynced m
      → m.context.state ≡ in_progress
      → turns_left m.context.current_step ≤ fuel
      → OutcomeSynced (loop c fuel m)
  unfolding loop
  loop-IsSynced zero m h s le = ground arith
  loop-IsSynced (suc fuel) m h s le =
      ground
        (arith, iterate-IsSynced m h s, iterate-Turned c m s, loop-IsSynced fuel (iterate c m).1)

  fail_run-IsSynced :
      (reason : String) (m : Machine W)
      → IsSynced m
      → is_open m.context.state ≡ true
      → IsSynced (fail_run c reason m).1
  unfolding fail_run transition_state
  fail_run-IsSynced reason m h s = grind (
    arith,
    v.update_run_status in_progress,
    v.update_run_status waiting_for_approval,
    v.update_run_status completed,
    v.update_run_status failed,
    v.record_event,
    v.on_run_completed,
  )

  rescue-IsSynced :
      (n : ℕ) (o : Outcome W) → OutcomeSynced o → Looped n o → OutcomeSynced (rescue c o)
  unfolding rescue
  rescue-IsSynced n none h l = h
  rescue-IsSynced n (some (ok _, m)) h l = h
  rescue-IsSynced n (some (raised e, m)) h l = fail_run-IsSynced (message e) m h l

  begin-IsSynced :
      (m : Machine W)
      → m.context.task.run_id ≡ id
      → is_known (v.status id m.world) ≡ true
      → m.context.state ≡ RunState.pending
      → IsSynced (begin c m).1
  unfolding begin transition transition_state
  begin-IsSynced m at h s = grind (
    arith,
    v.update_run_status in_progress,
    v.update_run_status waiting_for_approval,
    v.update_run_status completed,
    v.update_run_status failed,
    v.record_event,
  )

  entered-IsSynced :
      (r : Result Error Unit) (m : Machine W)
      → IsSynced m
      → m.context.state ≡ in_progress
      → OutcomeSynced
          (rescue c (elim r [ ok _ ↦ loop c max_turns m | raised e ↦ some (raised e, m) ]))
  entered-IsSynced (ok _) m h s =
      let le = turns_left-le m.context.current_step in
      rescue-IsSynced _ (loop c max_turns m) (loop-IsSynced max_turns m h s le)
        (loop-Looped c max_turns m s le)
  entered-IsSynced (raised e) m h s = rescue-IsSynced 7 (some (raised e, m)) h (ground arith)

  -- With a run store that has a status for the run and does not raise, `start_run` leaves the store with the state that the
  -- context of the run has, however the run ends and whatever the other collaborators raise.
  pub start_run-IsSynced :
      (task : AgentTask) (w : W)
      → task.run_id ≡ id
      → is_known (v.status id w) ≡ true
      → OutcomeSynced (start_run c task w)
  unfolding start_run execute
  start_run-IsSynced task w at h =
      let m : Machine W = record { context = new_context task; world = w } in
      entered-IsSynced (begin c m).0 (begin c m).1 (begin-IsSynced m at h refl)
        (begin_lem c m (inl refl)).0
