-- ===== src/Tests/Demo.antt =====
-- The execution and the responses of the demo in apps/api/app/demo.py on planned tools, and the
-- witness of its theorem.
use governed_agent_platform.Prelude.{
  List, ◌++◌, length, ◌≡◌, refl, true, false, none, some, [], ◌∷◌, string_eq, ◌==◌,
}
use governed_agent_platform.Prelude.Exec.{ok, Exec}
use governed_agent_platform.Orchestrator.Models.{ToolCall, RunContext, new_context}
use governed_agent_platform.Tools.Schemas.{low, succeeded, approval_required, ToolError}
use governed_agent_platform.Tools.Schemas
use governed_agent_platform.App.Demo.Tools.{execute_tools, run_planned, generate_response}
use governed_agent_platform.App.Demo.Execution.{Executed, execute_tools-Executed}
use governed_agent_platform.Tests.Fakes.{task, planned}

abbrev drafted : ToolCall
drafted = record { name = "draft_refund_request"; requires_approval = true; arguments = [] }

-- A draft requires approval, and another tool gives an output. The world is the log of the calls.
abbrev execute : Schemas.ToolCall → Exec (List Schemas.ToolCall) ToolError Schemas.ToolResult
execute call calls = (
  ok (record {
    tool_name = call.name;
    status = succeeded;
    output = some [];
    error = none;
    requires_approval = call.name == "draft_refund_request";
    preview_payload = none;
    metadata = record {
      tool_name = call.name;
      risk_level = low;
      requires_approval = false;
      tenant_id = none;
      attempts = 1;
      timeout_ms = 250;
      started_at = 1;
      completed_at = 2;
      duration_ms = 1;
      retried = false;
    };
  }),
  calls ++ call ∷ [],
)

abbrev context : RunContext
context = record (new_context task) { planned_tools = planned ∷ drafted ∷ planned ∷ [] }

-- The tool after the draft is not executed.
two_executed : length (execute_tools execute (λ calls. (7, calls)) context []).1 ≡ 2
unfolding execute_tools run_planned
two_executed = refl

execute_tools-Executed_example :
    Executed
      (λ calls. calls)
      context.task.requested_by
      context.planned_tools
      []
      []
      []
      (execute_tools execute (λ calls. (7, calls)) context [])
execute_tools-Executed_example =
    execute_tools-Executed execute (λ calls. (7, calls)) (λ calls. calls) (λ call w. refl)
      (λ w. refl) context []

no_response : generate_response (λ v. "None") context ≡ ok "No grounded response available."
unfolding generate_response
no_response = refl
