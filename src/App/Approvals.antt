-- ===== src/App/Approvals.antt =====
-- apps/api/app/main.py: the resolution of an approval request by the API. A `UUID` and a time stand
-- for their texts.
pub mod Refused
use governed_agent_platform.Prelude.{ℕ, String, Option, none, some, Uuid, Value, Payload}
use governed_agent_platform.Prelude.Exec.{Result, ok, raised}
use governed_agent_platform.Tracing.{
  approval_resolved, value, approval_resolved_payload, model, record_event,
}
use governed_agent_platform.Orchestrator.Errors.{Error, value_error, other}
use governed_agent_platform.Orchestrator.Models.{RunContext, state_value}
use governed_agent_platform.Orchestrator.Interfaces.{Collaborators}
use governed_agent_platform.Orchestrator.Decisions.{resolve_approval_status}
use governed_agent_platform.Runtime.Pause.{Place}
use governed_agent_platform.Db.Enums.{ApprovalStatus, approval_status_value}
use governed_agent_platform.Db.Session.{ApprovalRequest, Session}
use governed_agent_platform.Db.Approvals.{get_approval_request, resolve_approval_request}
use governed_agent_platform.Db.Stores.{event_store}
use governed_agent_platform.App.Platform.{resume_approved}

-- What leaves a route: an `HTTPException` with its status code, or an exception of the program.
pub data ApiError : Type 0 where
  not_found : String → ApiError
  conflict : String → ApiError
  internal : Error → ApiError

-- `_serialize_resume_result`
pub record ResumeResult : Type 0 where
  pub run_state : String
  pub response_text : Option String
  pub failure_reason : Option String

-- `ApprovalResponse`
pub record ApprovalResponse : Type 0 where
  pub id : Uuid
  pub run_id : Uuid
  pub tool_invocation_id : Option Uuid
  pub status : String
  pub reason : String
  pub action_preview : Option Payload
  pub requested_at : ℕ
  pub resolved_at : Option ℕ
  pub decision_comment : Option String
  pub resume_result : Option ResumeResult

abbrev pub serialize_resume_result : RunContext → ResumeResult
serialize_resume_result x = record {
  run_state = state_value x.state;
  response_text = x.response_text;
  failure_reason = x.failure_reason;
}

abbrev pub resume_entry : Option RunContext → Option ResumeResult
resume_entry none = none
resume_entry (some x) = some (serialize_resume_result x)

-- `_serialize_approval`, and the entry `resume_result`.
unfoldable pub serialize_approval : Option RunContext → ApprovalRequest → ApprovalResponse
serialize_approval result r = record {
  id = r.id;
  run_id = r.run_id;
  tool_invocation_id = r.tool_invocation_id;
  status = approval_status_value r.status;
  reason = r.reason;
  action_preview = r.action_preview;
  requested_at = r.requested_at;
  resolved_at = r.resolved_at;
  decision_comment = r.decision_comment;
  resume_result = resume_entry result;
}

-- The exception that leaves the `try` of `_resolve_approval`: a `ValueError` is a conflict.
abbrev pub resolution_error : Error → ApiError
resolution_error (value_error m) = conflict m
resolution_error e = internal e

-- A route's answer; `none` would be an engine that ran out of turns.
abbrev pub Answer : Type 0 → Type 0
Answer W = Option (Result ApiError ApprovalResponse × W)

module _ {W : Type 0} (s : Session W) (p : Place W) (c : Collaborators W) (repr : Value → String)
    (upper : String → String) where
  -- `get_approval`
  unfoldable pub get_approval : Uuid → W → Result ApiError ApprovalResponse
  unfolding serialize_approval
  get_approval approval_id w = elim (get_approval_request s approval_id w) [
    | none ↦ raised (not_found "Approval request not found.")
    | some r ↦ ok (serialize_approval none r)
  ]

  -- The end of `_resolve_approval`, after the resume.
  abbrev pub answered : ApprovalRequest → Option (Result Error (Option RunContext) × W) → Answer W
  answered resolved none = none
  answered resolved (some (raised e, w)) = some (raised (internal e), w)
  answered resolved (some (ok result, w)) = some (ok (serialize_approval result resolved), w)

  -- After the commit: the resume.
  abbrev pub then_resume : Uuid → ApprovalRequest → Result Error Unit × W → Answer W
  then_resume approval_id resolved (raised e, w) = some (raised (internal e), w)
  then_resume approval_id resolved (ok _, w) =
      answered resolved (resume_approved s p c repr approval_id w)

  -- After the event: the commit.
  abbrev pub then_commit : Uuid → ApprovalRequest → Result Error Unit × W → Answer W
  then_commit approval_id resolved (raised e, w) = some (raised (internal e), w)
  then_commit approval_id resolved (ok _, w) = then_resume approval_id resolved (s.commit w)

  -- After the resolution. A request that was found is resolved as an object, not as `None`.
  abbrev pub then_record :
      Uuid → Uuid → String → Result Error (Option ApprovalRequest) × W → Answer W
  then_record approval_id run_id decision (raised e, w) = some (raised (resolution_error e), w)
  then_record approval_id run_id decision (ok none, w) =
      some (raised (internal (other "'NoneType' object has no attribute 'id'")), w)
  then_record approval_id run_id decision (ok (some resolved), w) =
      then_commit approval_id resolved (
        record_event (event_store s) run_id (value approval_resolved)
          (some (model (approval_resolved_payload approval_id decision none))) w)

  -- The body of the `try`, with the status that the decision names.
  abbrev pub try_resolve : Uuid → Uuid → String → Result Error ApprovalStatus → W → Answer W
  try_resolve approval_id run_id decision (raised e) w = some (raised (resolution_error e), w)
  try_resolve approval_id run_id decision (ok status) w =
      then_record approval_id run_id decision (resolve_approval_request s approval_id status none w)

  abbrev pub resolve_there : Uuid → String → Option ApprovalRequest → W → Answer W
  resolve_there approval_id decision none w =
      some (raised (not_found "Approval request not found."), w)
  resolve_there approval_id decision (some r) w =
      try_resolve approval_id r.run_id decision (resolve_approval_status upper decision) w

  -- `_resolve_approval`
  unfoldable pub resolve_approval : String → Uuid → W → Answer W
  resolve_approval decision approval_id w =
      resolve_there approval_id decision (get_approval_request s approval_id w) w

  unfoldable pub approve_approval : Uuid → W → Answer W
  unfolding resolve_approval
  approve_approval = resolve_approval "APPROVED"

  unfoldable pub reject_approval : Uuid → W → Answer W
  unfolding resolve_approval
  reject_approval = resolve_approval "REJECTED"
