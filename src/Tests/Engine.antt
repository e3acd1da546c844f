-- ===== src/Tests/Engine.antt =====
-- The engine on concrete runs.
use governed_agent_platform.Prelude.{
  ◌≡◌, refl, true, false, Option, none, some, String, List, [], ◌∷◌, ◌⊎◌, arith,
}
use governed_agent_platform.Prelude.Exec.{ok}
use governed_agent_platform.Orchestrator.Models.{
  RunState, waiting_for_approval, completed, RunContext, new_context, rejected,
  request_approval_if_needed,
}
use governed_agent_platform.Orchestrator.Interfaces.{Call, RoutePayload}
use governed_agent_platform.Orchestrator.StateMachine.{transition_state, next_step}
use governed_agent_platform.Orchestrator.StateMachine.Order.{◌⟶◌, refusal, transition_state_decides}
use governed_agent_platform.Orchestrator.Engine.State.{Machine}
use governed_agent_platform.Orchestrator.Engine.{
  start_run, resume_after_approval, Outcome, execute, begin, rescue, loop, iterate,
}
use governed_agent_platform.Orchestrator.Engine.Turns.{
  turn, record_calls, record_results, derive_tool_records, settle_tools,
}
use governed_agent_platform.Orchestrator.Engine.Lifecycle.{
  Settles, start_run-Settles, Ends, resume_after_approval-Ends,
}
use governed_agent_platform.Orchestrator.Engine.Gate.{NeedsApproval, Stopped, start_run-Stopped}
use governed_agent_platform.Orchestrator.Engine.Resume.{
  with_tools, resume_after_approval-with_tools, Denied, KeepsBooks, resume-Denied,
}
use governed_agent_platform.Orchestrator.Engine.Store.{
  StatusView, OutcomeSynced, start_run-IsSynced,
}
use governed_agent_platform.Tests.Fakes.{World, empty_world, task, fakes}

-- The state, the response and the events of a run.
abbrev summary : Outcome World → Option (RunState × Option String × List String)
summary none = none
summary (some (_, m)) = some (m.context.state, m.context.response_text, m.world.events)

completed_run :
    summary (start_run (fakes false) task empty_world)
    ≡ some (
      completed,
      some "Ticket T-100",
      "RUN_STARTED" ∷ "RETRIEVAL_COMPLETED" ∷ "TOOL_CALLED" ∷ "TOOL_RESULT_RECEIVED"
          ∷ "RUN_COMPLETED" ∷ [],
    )
unfolding start_run execute begin rescue loop iterate turn transition_state next_step record_calls
    record_results derive_tool_records settle_tools
completed_run = refl

gated_run :
    summary (start_run (fakes true) task empty_world)
    ≡ some (
      waiting_for_approval,
      none,
      "RUN_STARTED" ∷ "RETRIEVAL_COMPLETED" ∷ "TOOL_CALLED" ∷ "TOOL_RESULT_RECEIVED"
          ∷ "APPROVAL_REQUESTED" ∷ [],
    )
unfolding start_run execute begin rescue loop iterate turn transition_state next_step record_calls
    record_results derive_tool_records settle_tools
gated_run = refl

transition_state_decides_example :
    ((RunState.pending ⟶ completed) × (transition_state RunState.pending completed ≡ ok completed))
    ⊎ ((¬ (RunState.pending ⟶ completed))
        × (transition_state RunState.pending completed ≡ refusal RunState.pending completed))
transition_state_decides_example = transition_state_decides RunState.pending completed

start_run-Settles_example : Settles (start_run (fakes false) task empty_world)
start_run-Settles_example = start_run-Settles (fakes false) task empty_world

-- A run that waits for approval 77, with the decision still to be read.
abbrev waiting : String → Machine World
waiting decision = record {
  context = record (new_context task) {
    state = waiting_for_approval;
    current_step = some request_approval_if_needed;
    approval_request_id = some 77;
  };
  world = record empty_world { decision = decision };
}

resume_after_approval-Ends_example :
    Ends (resume_after_approval (fakes true) true (waiting "APPROVED"))
resume_after_approval-Ends_example =
    resume_after_approval-Ends (fakes true) true (waiting "APPROVED")

fakes_gated : NeedsApproval (fakes true)
fakes_gated x w result h = ground arith

start_run-Stopped_example : Stopped (start_run (fakes true) task empty_world)
start_run-Stopped_example = start_run-Stopped (fakes true) fakes_gated task empty_world

resume_after_approval-with_tools_example :
    resume_after_approval
      (with_tools (fakes true) (fakes true).retrieval_service (fakes false).tool_executor)
      true
      (waiting "APPROVED")
    ≡ resume_after_approval (fakes true) true (waiting "APPROVED")
resume_after_approval-with_tools_example =
    resume_after_approval-with_tools (fakes true) (fakes true).retrieval_service
      (fakes false).tool_executor true (waiting "APPROVED")

fakes-KeepsBooks : KeepsBooks (fakes true)
fakes-KeepsBooks = record {
  status_kept = λ id status e w. refl;
  event_kept = λ id event p w. refl;
  completion_kept = λ id state w. refl;
  request_read = λ id w. (_, refl);
}

resume-Denied_example :
    Denied "Approval rejected"
      (waiting "REJECTED").context
      (resume_after_approval (fakes true) true (waiting "REJECTED"))
resume-Denied_example =
    resume-Denied (fakes true) true fakes-KeepsBooks 77 rejected (waiting "REJECTED").world
      (waiting "REJECTED") refl refl refl refl

abbrev fresh : Machine World
fresh = record { context = new_context task; world = empty_world }

no_route :
    (f : RunContext → Call World (Option RoutePayload)) (x : RunContext) (w : World)
    → (fakes true).ai_gateway.describe_route ≡ some f
    → (f x w).1.status ≡ w.status
no_route f x w h = cc

abbrev status_view : StatusView (fakes true)
status_view = record {
  status = λ id w. w.status;
  update_run_status = λ x id e w known. (refl, refl);
  create_approval_request = λ id i s p t w. refl;
  classify = λ id t w. refl;
  generate_response = λ id x w. refl;
  describe_route = λ id. no_route;
  retrieve = λ id t s w. refl;
  plan_tools = λ id x w. refl;
  execute_tools = λ id x w. refl;
  record_event = λ id i s p w. refl;
  store_waiting_context = λ id x w. refl;
  on_waiting_for_approval = λ id i a w. refl;
  on_run_completed = λ id i s w. refl;
}

start_run-IsSynced_example :
    OutcomeSynced
      (fakes true)
      status_view
      1
      (start_run (fakes true) task (record empty_world { status = some "PENDING" }))
start_run-IsSynced_example =
    start_run-IsSynced (fakes true) status_view 1 task
      (record empty_world { status = some "PENDING" }) refl refl
