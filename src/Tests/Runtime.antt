-- ===== src/Tests/Runtime.antt =====
-- packages/runtime/src/runtime/engine.py on concrete contexts, and the engine with this controller.
use governed_agent_platform.Prelude.{refl, true, none, some, [], ◌∷◌, id_eq}
use governed_agent_platform.Orchestrator.Models.{RunContext, new_context}
use governed_agent_platform.Orchestrator.Engine.{start_run}
use governed_agent_platform.Runtime.{InMemoryRuntimeController, new_controller}
use governed_agent_platform.Runtime.Pause.{Place, with_runtime, FoundOutcome, start_run-IsFound}
use governed_agent_platform.Tests.Fakes.{task, tool_result, planned}
use governed_agent_platform.Prelude.Exec.{ok}
use governed_agent_platform.Orchestrator.Interfaces.{Collaborators}

abbrev waiting_context : RunContext
waiting_context = record (new_context task) { approval_request_id = some 77 }

-- The world of the run is the controller alone.
abbrev place : Place InMemoryRuntimeController
place = record { get = λ w. w; set = λ r w. r; get-set = λ r w. refl }

-- Services whose tools ask for approval.
abbrev gated : Collaborators InMemoryRuntimeController
gated = record {
  run_store = record { update_run_status = λ id s e w. (ok tt, w) };
  approval_store = record {
    create_approval_request = λ id reason preview invocation w. (ok (some 77), w);
    get_approval_decision = λ id w. (ok "PENDING", w);
    get_approval_request = λ id w. (ok none, w);
  };
  ai_gateway = record {
    classify = λ t w. (ok "grounded_answer", w);
    generate_response = λ x w. (ok "Ticket T-100", w);
    describe_route = none;
  };
  retrieval_service = record { retrieve = λ t s w. (ok [], w) };
  tool_executor = record {
    plan_tools = λ x w. (ok (planned ∷ []), w);
    execute_tools = λ x w. (ok (tool_result true), w);
  };
  trace_recorder = record { record_event = λ id event payload w. (ok tt, w) };
  runtime_hooks = record {
    store_waiting_context = λ x w. (ok tt, w);
    on_waiting_for_approval = λ id a w. (ok tt, w);
    on_run_resumed = λ id w. (ok tt, w);
    on_run_completed = λ id s w. (ok tt, w);
  };
}

start_run-IsFound_example :
    FoundOutcome place gated (start_run (with_runtime place gated) task new_controller)
start_run-IsFound_example = start_run-IsFound place gated task new_controller
