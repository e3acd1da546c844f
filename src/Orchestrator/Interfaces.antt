-- ===== src/Orchestrator/Interfaces.antt =====
-- packages/orchestrator/src/orchestrator/interfaces.py: the collaborators of the engine.
use governed_agent_platform.Prelude.{String, Option, List, Uuid, Payload}
use governed_agent_platform.Prelude.Exec.{Exec}
use governed_agent_platform.Tracing.{EventPayload}
use governed_agent_platform.Orchestrator.Errors.{Error}
use governed_agent_platform.Orchestrator.Models.{
  AgentTask, RetrievedContext, RunContext, RunState, ToolCall, ToolExecutionResult,
}

-- A call of a collaborator may change the world `W` outside the engine, and may raise.
abbrev pub Call : Type 0 → Type 0 → Type 0
Call W A = Exec W Error A

pub record RunStore (W : Type 0) : Type 0 where
  pub update_run_status : Uuid → String → Option String → Call W Unit

-- What the engine reads of an approval request: `decision_comment`.
pub record ApprovalView : Type 0 where
  pub decision_comment : Option String

-- `create_approval_request` returns an object: `none` stands for one whose `id` is no `UUID`.
-- `get_approval_decision` returns the value of the decision.
pub record ApprovalStore (W : Type 0) : Type 0 where
  pub create_approval_request : Uuid → String → Option Payload → Option Uuid → Call W (Option Uuid)
  pub get_approval_decision : Uuid → Call W String
  pub get_approval_request : Uuid → Call W (Option ApprovalView)

-- What the engine reads of the dictionary that `describe_route` returns: the keys `provider`,
-- `model` and `reason`, each by the text of its value, or `none` where the key is not there (and,
-- for `reason`, where its value is `None`).
pub record RoutePayload : Type 0 where
  pub provider : Option String
  pub model : Option String
  pub reason : Option String

-- A gateway need not have `describe_route`.
pub record AiGateway (W : Type 0) : Type 0 where
  pub classify : AgentTask → Call W String
  pub generate_response : RunContext → Call W String
  pub describe_route : Option (RunContext → Call W (Option RoutePayload))

pub record RetrievalService (W : Type 0) : Type 0 where
  pub retrieve : AgentTask → String → Call W (List RetrievedContext)

pub record ToolExecutor (W : Type 0) : Type 0 where
  pub plan_tools : RunContext → Call W (List ToolCall)
  pub execute_tools : RunContext → Call W ToolExecutionResult

pub record TraceRecorder (W : Type 0) : Type 0 where
  pub record_event : Uuid → String → Option EventPayload → Call W Unit

pub record RuntimeResumeHooks (W : Type 0) : Type 0 where
  pub store_waiting_context : RunContext → Call W Unit
  pub on_waiting_for_approval : Uuid → Uuid → Call W Unit
  pub on_run_resumed : Uuid → Call W Unit
  pub on_run_completed : Uuid → RunState → Call W Unit

-- The arguments of `OrchestratorEngine(...)`.
pub record Collaborators (W : Type 0) : Type 0 where
  pub run_store : RunStore W
  pub approval_store : ApprovalStore W
  pub ai_gateway : AiGateway W
  pub retrieval_service : RetrievalService W
  pub tool_executor : ToolExecutor W
  pub trace_recorder : TraceRecorder W
  pub runtime_hooks : RuntimeResumeHooks W
