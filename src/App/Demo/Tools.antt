-- ===== src/App/Demo/Tools.antt =====
-- apps/api/app/demo.py: the tools that `DemoToolExecutor` executes, and the responses of
-- `DemoGateway`. The executor of the tools, `uuid4` and the text of a value that is no text are
-- parameters.
use governed_agent_platform.Prelude.{
  String, ◌<>◌, Bool, true, false, ◌&&◌, ◌||◌, Option, none, some, List, [], ◌∷◌, ◌++◌, ◌==◌,
  if◌then◌else◌, Value, Payload, Uuid, string_eq,
}
use governed_agent_platform.Prelude.Dict.{lookup}
use governed_agent_platform.Prelude.Exec.{Result, ok, raised, Exec, pure, ◌>>=◌}
use governed_agent_platform.Orchestrator.Models.{
  canceled, in_progress, run_state_eq, RetrievedContext, ToolCall, ToolExecutionRecord,
  ToolExecutionResult, RunContext,
}
use governed_agent_platform.Tools.Schemas.{
  ToolStatus, succeeded, failed, approval_required, ToolError,
}
use governed_agent_platform.Tools.Schemas
use governed_agent_platform.Evals.Responses.{record_response}

abbrev pub tool_status_value : ToolStatus → String
tool_status_value succeeded = "succeeded"
tool_status_value ToolStatus.failed = "failed"
tool_status_value approval_required = "approval_required"

-- `if result.output is not None: outputs.append(result.output)`
abbrev pub with_output : List Payload → Option Payload → List Payload
with_output outputs none = outputs
with_output outputs (some o) = outputs ++ o ∷ []

-- The record of one execution.
abbrev pub execution_record : ToolCall → Uuid → Schemas.ToolResult → ToolExecutionRecord
execution_record planned id result = record {
  tool_name = planned.name;
  status = tool_status_value result.status;
  tool_invocation_id = some id;
  output = result.output;
  error = result.error;
  requires_approval = result.requires_approval;
  preview_payload = result.preview_payload;
}

-- The result at a tool that requires approval, and after the last one.
abbrev pub stopped_at :
    ToolCall → Schemas.ToolResult → List Payload → List ToolExecutionRecord → ToolExecutionResult
stopped_at planned result outputs records = record {
  outputs = outputs;
  requires_approval = true;
  approval_reason = some ("Approval required for " <> planned.name);
  approval_preview = result.preview_payload;
  tool_records = records;
}

abbrev pub all_executed : List Payload → List ToolExecutionRecord → ToolExecutionResult
all_executed outputs records = record {
  outputs = outputs;
  requires_approval = false;
  approval_reason = none;
  approval_preview = none;
  tool_records = records;
}

module _ {W : Type 0} (execute : Schemas.ToolCall → Exec W ToolError Schemas.ToolResult)
    (uuid4 : W → Uuid × W) where
  abbrev pub new_id : Exec W ToolError Uuid
  new_id w = let (id, w') = uuid4 w in (ok id, w')

  -- The `for` loop of `execute_tools`.
  unfoldable pub run_planned :
      Option String
      → List ToolCall
      → List Payload
      → List ToolExecutionRecord
      → Exec W ToolError ToolExecutionResult
  run_planned requested_by [] outputs records = pure (all_executed outputs records)
  run_planned requested_by (planned ∷ rest) outputs records = do
    result ←
        execute (record {
          name = planned.name;
          arguments = planned.arguments;
          requested_by = requested_by;
        })
    id ← new_id
    let outputs' = with_output outputs result.output
    let records' = records ++ execution_record planned id result ∷ []
    let others = run_planned requested_by rest outputs' records'
    if result.requires_approval then pure (stopped_at planned result outputs' records') else others

  -- `DemoToolExecutor.execute_tools`
  unfoldable pub execute_tools : RunContext → Exec W ToolError ToolExecutionResult
  unfolding run_planned
  execute_tools context = run_planned context.task.requested_by context.planned_tools [] []

abbrev pub any_gated : List ToolExecutionRecord → Bool
any_gated [] = false
any_gated (r ∷ records) = r.requires_approval || any_gated records

-- `text or default`
abbrev pub text_or : String → Option String → String
text_or default none = default
text_or default (some s) = if s == "" then default else s

abbrev pub is_there : {A : Type 0} → Option A → Bool
is_there none = false
is_there (some a) = true

-- The end of `generate_response`.
abbrev pub grounded : List RetrievedContext → String
grounded [] = "No grounded response available."
grounded (top ∷ rest) = top.content <> " [" <> top.source_id <> "]"

module _ (repr : Value → String) where
  abbrev pub first_text : Result ToolError (String × List Payload) → Result ToolError String
  first_text (ok (text, citations)) = ok text
  first_text (raised e) = raised e

  -- The response that the first result of the tools gives, or the grounded one.
  abbrev pub customer_text : Option Value → List RetrievedContext → Result ToolError String
  customer_text none contexts = ok (grounded contexts)
  customer_text (some customer) contexts =
      first_text
        (record_response repr "Customer " "customer_id" ": " "name" " on " "plan" "." customer)

  abbrev pub incident_text :
      Option Value → Option Value → List RetrievedContext → Result ToolError String
  incident_text none customer contexts = customer_text customer contexts
  incident_text (some incident) customer contexts =
      first_text
        (record_response repr "Incident " "incident_id" ": " "title" " (" "status" ")." incident)

  abbrev pub result_text :
      Option Value → Option Value → Option Value → List RetrievedContext → Result ToolError String
  result_text none incident customer contexts = incident_text incident customer contexts
  result_text (some ticket) incident customer contexts =
      first_text
        (record_response repr "Ticket " "ticket_id" ": " "subject" " (" "status" ")." ticket)

  abbrev pub results_text : List Payload → List RetrievedContext → Result ToolError String
  results_text [] contexts = ok (grounded contexts)
  results_text (first ∷ rest) contexts =
      result_text (lookup "ticket" first) (lookup "incident" first) (lookup "customer" first)
        contexts

  -- `DemoGateway.generate_response`
  unfoldable pub generate_response : RunContext → Result ToolError String
  generate_response context =
      if context.state == canceled
      then ok (text_or "Run canceled." context.failure_reason)
      else if any_gated context.tool_records
      then ok (
          if is_there context.approval_request_id && context.state == in_progress
          then "Refund request approved. V1 keeps the action as a non-executed preview for safety."
          else "Approval required before the proposed refund action can proceed.")
      else results_text context.tool_results context.retrieved_context
