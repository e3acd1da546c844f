-- ===== src/Orchestrator/Approval.antt =====
-- packages/orchestrator/src/orchestrator/approval.py: `ApprovalCoordinator`.
use governed_agent_platform.Prelude.{String, Option, none, some, Uuid, Payload}
use governed_agent_platform.Prelude.Exec.{Result, ok, raised, lift, ◌>>=◌, ◌>>◌, pure}
use governed_agent_platform.Tracing.{
  approval_requested, approval_resolved, value, approval_requested_payload,
  approval_resolved_payload, model,
}
use governed_agent_platform.Orchestrator.Errors.{Error, approval_resolution_error}
use governed_agent_platform.Orchestrator.Models.{RunContext, ApprovalDecision, decision_value}
use governed_agent_platform.Orchestrator.Interfaces.{Call, ApprovalStore, TraceRecorder}

-- `_extract_uuid(getattr(approval_request, "id", None), "approval request id")`
unfoldable pub extract_uuid : Option Uuid → Result Error Uuid
extract_uuid none = raised (approval_resolution_error "Expected approval request id to be a UUID.")
extract_uuid (some id) = ok id

module _ {W : Type 0} (approval_store : ApprovalStore W) (trace_recorder : TraceRecorder W) where
  unfoldable pub request_approval : RunContext → String → Option Payload → Option Uuid → Call W Uuid
  unfolding extract_uuid
  request_approval context reason action_preview tool_invocation_id = do
    approval_request ←
        approval_store.create_approval_request context.task.run_id reason action_preview
          tool_invocation_id
    approval_request_id ← lift (extract_uuid approval_request)
    trace_recorder.record_event context.task.run_id (value approval_requested) (
        some (
          model (
            approval_requested_payload approval_request_id tool_invocation_id
              (decision_value ApprovalDecision.pending) action_preview)))
    pure approval_request_id

  unfoldable pub record_resolution : Uuid → Uuid → ApprovalDecision → Option String → Call W Unit
  record_resolution run_id approval_request_id decision decision_comment =
      trace_recorder.record_event run_id (value approval_resolved) (
        some (
          model (
            approval_resolved_payload approval_request_id (decision_value decision)
              decision_comment)))
