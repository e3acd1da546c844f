-- ===== src/Orchestrator/Models.antt =====
-- packages/orchestrator/src/orchestrator/models.py: the states, steps and records of a run.
use governed_agent_platform.Prelude.{
  String, Bool, ◌≡◌, refl, Option, none, some, List, [], if◌then◌else◌, Eq, ◌==◌, string_eq,
  enum_eq, Uuid, Payload,
}

pub data RunState : Type 0 where
  pending in_progress waiting_for_approval completed failed canceled : RunState

pub data RunStep : Type 0 where
  classify retrieve_context decide_tools execute_tools : RunStep
  request_approval_if_needed generate_response complete : RunStep

pub data ApprovalDecision : Type 0 where
  pending approved rejected expired : ApprovalDecision

abbrev pub state_value : RunState → String
state_value RunState.pending = "PENDING"
state_value in_progress = "IN_PROGRESS"
state_value waiting_for_approval = "WAITING_FOR_APPROVAL"
state_value completed = "COMPLETED"
state_value failed = "FAILED"
state_value canceled = "CANCELED"

-- `RunState(text)`
unfoldable pub state_of : String → Option RunState
state_of s =
    if s == "PENDING"
    then some RunState.pending
    else if s == "IN_PROGRESS"
    then some in_progress
    else if s == "WAITING_FOR_APPROVAL"
    then some waiting_for_approval
    else if s == "COMPLETED"
    then some completed
    else if s == "FAILED"
    then some failed
    else if s == "CANCELED"
    then some canceled
    else none

abbrev pub step_value : RunStep → String
step_value classify = "classify"
step_value retrieve_context = "retrieve_context"
step_value decide_tools = "decide_tools"
step_value execute_tools = "execute_tools"
step_value request_approval_if_needed = "request_approval_if_needed"
step_value generate_response = "generate_response"
step_value complete = "complete"

-- `RunStep(text)`
unfoldable pub step_of : String → Option RunStep
step_of s =
    if s == "classify"
    then some classify
    else if s == "retrieve_context"
    then some retrieve_context
    else if s == "decide_tools"
    then some decide_tools
    else if s == "execute_tools"
    then some execute_tools
    else if s == "request_approval_if_needed"
    then some request_approval_if_needed
    else if s == "generate_response"
    then some generate_response
    else if s == "complete"
    then some complete
    else none

abbrev pub decision_value : ApprovalDecision → String
decision_value ApprovalDecision.pending = "PENDING"
decision_value approved = "APPROVED"
decision_value rejected = "REJECTED"
decision_value expired = "EXPIRED"

-- `decision.value.lower()`
abbrev pub decision_lower : ApprovalDecision → String
decision_lower ApprovalDecision.pending = "pending"
decision_lower approved = "approved"
decision_lower rejected = "rejected"
decision_lower expired = "expired"

-- `ApprovalDecision(text)`
unfoldable pub decision_of : String → Option ApprovalDecision
decision_of s =
    if s == "PENDING"
    then some ApprovalDecision.pending
    else if s == "APPROVED"
    then some approved
    else if s == "REJECTED"
    then some rejected
    else if s == "EXPIRED"
    then some expired
    else none

pub state_of-value : (s : RunState) → state_of (state_value s) ≡ some s
unfolding state_of
state_of-value RunState.pending = refl
state_of-value _ = refl

pub step_of-value : (s : RunStep) → step_of (step_value s) ≡ some s
unfolding step_of
step_of-value classify = refl
step_of-value _ = refl

pub decision_of-value : (d : ApprovalDecision) → decision_of (decision_value d) ≡ some d
unfolding decision_of
decision_of-value ApprovalDecision.pending = refl
decision_of-value _ = refl

instance abbrev pub run_state_eq : Eq RunState
run_state_eq = enum_eq state_value state_of state_of-value

instance abbrev pub run_step_eq : Eq RunStep
run_step_eq = enum_eq step_value step_of step_of-value

instance abbrev pub approval_decision_eq : Eq ApprovalDecision
approval_decision_eq = enum_eq decision_value decision_of decision_of-value

pub record AgentTask : Type 0 where
  pub run_id : Uuid
  pub workflow_key : String
  pub user_input : String
  pub tenant_id : String
  pub requested_by : Option String

pub record RetrievedContext : Type 0 where
  pub source_id : String
  pub content : String

pub record ToolCall : Type 0 where
  pub name : String
  pub requires_approval : Bool
  pub arguments : Payload

pub record ToolExecutionRecord : Type 0 where
  pub tool_name : String
  pub status : String
  pub tool_invocation_id : Option Uuid
  pub output : Option Payload
  pub error : Option String
  pub requires_approval : Bool
  pub preview_payload : Option Payload

pub record ToolExecutionResult : Type 0 where
  pub outputs : List Payload
  pub requires_approval : Bool
  pub approval_reason : Option String
  pub approval_preview : Option Payload
  pub tool_records : List ToolExecutionRecord

pub record RunContext : Type 0 where
  pub task : AgentTask
  pub state : RunState
  pub current_step : Option RunStep
  pub classification : Option String
  pub retrieved_context : List RetrievedContext
  pub planned_tools : List ToolCall
  pub tool_results : List Payload
  pub tool_records : List ToolExecutionRecord
  pub response_text : Option String
  pub approval_request_id : Option Uuid
  pub pending_tool_invocation_id : Option Uuid
  pub failure_reason : Option String

-- `RunContext(task=task)`
abbrev pub new_context : AgentTask → RunContext
new_context t = record {
  task = t;
  state = RunState.pending;
  current_step = none;
  classification = none;
  retrieved_context = [];
  planned_tools = [];
  tool_results = [];
  tool_records = [];
  response_text = none;
  approval_request_id = none;
  pending_tool_invocation_id = none;
  failure_reason = none;
}
