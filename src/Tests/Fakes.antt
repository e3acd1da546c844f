-- ===== src/Tests/Fakes.antt =====
-- Collaborators of the engine for the tests: a run store that keeps the last status, a recorder that
-- keeps the events, and services that answer at once (packages/orchestrator/tests/conftest.py has
-- such fakes).
use governed_agent_platform.Prelude.{
  Bool, false, Option, none, some, String, List, [], ◌∷◌, ◌++◌, id_eq,
}
use governed_agent_platform.Prelude.Exec.{ok}
use governed_agent_platform.Orchestrator.Models.{AgentTask, ToolCall, ToolExecutionResult}
use governed_agent_platform.Orchestrator.Interfaces.{Collaborators}

pub record World : Type 0 where
  pub status : Option String
  pub events : List String
  pub decision : String

abbrev pub empty_world : World
empty_world = record { status = none; events = []; decision = "PENDING" }

abbrev pub task : AgentTask
task = record {
  run_id = 1;
  workflow_key = "support.ticket";
  user_input = "Summarize ticket T-100 for me.";
  tenant_id = "tenant-a";
  requested_by = none;
}

abbrev pub planned : ToolCall
planned = record { name = "get_ticket"; requires_approval = false; arguments = [] }

abbrev pub tool_result : Bool → ToolExecutionResult
tool_result gated = record {
  outputs = [] ∷ [];
  requires_approval = gated;
  approval_reason = none;
  approval_preview = none;
  tool_records = [];
}

-- `gated` says whether the tools need approval.
abbrev pub fakes : Bool → Collaborators World
fakes gated = record {
  run_store = record { update_run_status = λ id s e w. (ok tt, record w { status = some s }) };
  approval_store = record {
    create_approval_request = λ id reason preview invocation w. (ok (some 77), w);
    get_approval_decision = λ id w. (ok w.decision, w);
    get_approval_request = λ id w. (ok none, w);
  };
  ai_gateway = record {
    classify = λ t w. (ok "grounded_answer", w);
    generate_response = λ x w. (ok "Ticket T-100", w);
    describe_route = none;
  };
  retrieval_service = record { retrieve = λ t s w. (ok [], w) };
  tool_executor = record {
    plan_tools = λ x w. (ok (planned ∷ []), w);
    execute_tools = λ x w. (ok (tool_result gated), w);
  };
  trace_recorder = record {
    record_event = λ id event payload w. (ok tt, record w { events = w.events ++ event ∷ [] });
  };
  runtime_hooks = record {
    store_waiting_context = λ x w. (ok tt, w);
    on_waiting_for_approval = λ id a w. (ok tt, w);
    on_run_resumed = λ id w. (ok tt, w);
    on_run_completed = λ id s w. (ok tt, w);
  };
}
