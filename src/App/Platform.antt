-- ===== src/App/Platform.antt =====
-- apps/api/app/demo.py: `DemoPlatformService` for runs, and the models of models.py that it uses. The
-- texts of ids and values are parameters.
pub mod Started
use governed_agent_platform.Prelude.{
  ◌≡◌, String, Bool, true, false, ◌&&◌, Option, none, some, List, [], ◌∷◌, ◌++◌, map, ◌==◌,
  string_eq, if◌then◌else◌, Uuid, Value, Payload, text_of,
}
use governed_agent_platform.Prelude.Dict.{lookup}
use governed_agent_platform.Prelude.Exec.{Result, ok, raised, continue}
use governed_agent_platform.Orchestrator.Errors.{Error, other}
use governed_agent_platform.Orchestrator.Models.{AgentTask, RunContext}
use governed_agent_platform.Orchestrator.Interfaces.{Call, Collaborators}
use governed_agent_platform.Orchestrator.Engine.State.{Machine}
use governed_agent_platform.Orchestrator.Engine.{Outcome, start_run, resume_after_approval}
use governed_agent_platform.Runtime.{get_waiting_context, get_run_id_for_approval}
use governed_agent_platform.Runtime.Pause.{Place, with_runtime}
use governed_agent_platform.Db.Enums.{
  RunStatus, run_status_value, ApprovalStatus, approval_status_value,
}
use governed_agent_platform.Db.Session.{Run, RunEvent, ApprovalRequest, Session}
use governed_agent_platform.Db.Runs.{create_run, get_run, list_run_events}
use governed_agent_platform.Db.Approvals.{get_latest_for_run}
use governed_agent_platform.Db.Stores.{with_repositories}

pub record RunCreateRequest : Type 0 where
  pub workflow_key : String
  pub user_input : String
  pub tenant_id : String
  pub requested_by : Option String

-- A `UUID` stands for its text.
pub record RunResponse : Type 0 where
  pub run_id : Uuid
  pub status : String
  pub workflow_key : String
  pub user_input : Option String
  pub response_text : Option String
  pub last_error : Option String
  pub approval_request_id : Option Uuid

-- `value if isinstance(value, str)`, of `(payload or {}).get(key)`
abbrev pub text_at : String → Option Payload → Option String
text_at key none = none
text_at key (some payload) = elim (lookup key payload) [
  | some v ↦ elim v [ Value.str t ↦ some t | _ ↦ none ]
  | none ↦ none
]

-- The text that one event gives: the response of a completed run, or the error of a failed one.
abbrev pub event_text : RunEvent → Option String
event_text e =
    if e.event_type == "RUN_COMPLETED"
    then text_at "response_text" e.payload
    else if e.event_type == "RUN_FAILED"
    then text_at "error" e.payload
    else none

abbrev pub or_else : {A : Type 0} → Option A → Option A → Option A
or_else none b = b
or_else (some a) b = some a

-- `_extract_response_text`: the text of the last event that has one.
unfoldable pub extract_response_text : List RunEvent → Option String
extract_response_text [] = none
extract_response_text (e ∷ events) = or_else (extract_response_text events) (event_text e)

-- `str(user_input) if user_input is not None else None`, of `input_payload.get("user_input")`
abbrev pub input_text : (Value → String) → Option Payload → Option String
input_text repr none = none
input_text repr (some p) = elim (lookup "user_input" p) [
  | none ↦ none
  | some v ↦ elim v [ Value.null ↦ none | x ↦ some (text_of repr x) ]
]

abbrev pub is_pending : Option ApprovalRequest → Bool
is_pending none = false
is_pending (some r) = approval_status_value r.status == "PENDING"

abbrev pub id_if : Bool → Option ApprovalRequest → Option Uuid
id_if true (some r) = some r.id
id_if _ r = none

abbrev pub response_of : Option RunContext → Option String
response_of none = none
response_of (some x) = x.response_text

-- The text of a response, from what was extracted: where there is none, that of a run that waits.
abbrev pub shown_text : Option String → Option ApprovalRequest → String → Option String
shown_text (some t) latest status = some t
shown_text none latest status =
    if is_pending latest && (status == "WAITING_FOR_APPROVAL")
    then some "Approval required before the proposed action can proceed."
    else none

module _ {W : Type 0} (s : Session W) (p : Place W) (c : Collaborators W)
    (repr : Value → String) where
  -- `_build_engine`, with the gateway, the retrieval service and the tool executor from `c`.
  abbrev pub engine : Collaborators W
  engine = with_repositories s (with_runtime p c)

  -- The response for a run that was found.
  unfoldable pub run_response : Option RunContext → W → Run → RunResponse
  unfolding extract_response_text
  run_response context_override w run =
      let latest : Option ApprovalRequest = get_latest_for_run s run.id w in
      let extracted : Option String = extract_response_text (list_run_events s run.id w) in
      record {
        run_id = run.id;
        status = run_status_value run.status;
        workflow_key = run.workflow_key;
        user_input = input_text repr run.input_payload;
        response_text =
            shown_text (or_else (response_of context_override) extracted) latest
              (run_status_value run.status);
        last_error = run.last_error;
        approval_request_id = id_if (is_pending latest) latest;
      }

  unfoldable pub respond : Option RunContext → W → Option Run → Result Error RunResponse
  unfolding run_response
  respond context_override w none = raised (other "Run not found.")
  respond context_override w (some run) = ok (run_response context_override w run)

  -- `get_run`
  unfoldable pub get_run_response : Uuid → Option RunContext → Call W RunResponse
  unfolding respond
  get_run_response run_id context_override w = (respond context_override w (get_run s run_id w), w)

  -- The rest of `start_run`, after the engine.
  unfoldable pub finish_start : Uuid → Outcome W → Option (Result Error RunResponse × W)
  unfolding get_run_response
  finish_start run_id none = none
  finish_start run_id (some (raised e, m)) = some (raised e, m.world)
  finish_start run_id (some (ok _, m)) =
      let (r, w) = s.commit m.world in
      some (continue r (λ _. get_run_response run_id (some m.context)) w)

  abbrev pub task_of : RunCreateRequest → Run → AgentTask
  task_of request run = record {
    run_id = run.id;
    workflow_key = request.workflow_key;
    user_input = request.user_input;
    tenant_id = request.tenant_id;
    requested_by = request.requested_by;
  }

  -- The rest of `start_run`, after `create_run`.
  unfoldable pub start_created :
      RunCreateRequest → Result Error Run × W → Option (Result Error RunResponse × W)
  unfolding finish_start
  start_created request (raised e, w) = some (raised e, w)
  start_created request (ok run, w) = finish_start run.id (start_run engine (task_of request run) w)

  -- `start_run`; `none` would be an engine that ran out of turns.
  unfoldable pub start_run_response : RunCreateRequest → W → Option (Result Error RunResponse × W)
  unfolding start_created
  start_run_response request w = start_created request (
      create_run s request.workflow_key request.requested_by
        (some (
          ("user_input", Value.str request.user_input)
          ∷ ("tenant_id", Value.str request.tenant_id)
          ∷ []))
        RunStatus.pending w)

  -- What `resume_after_approval` returns: `ok none` for an approval that leads to no waiting run.
  abbrev pub resumed : Outcome W → Option (Result Error (Option RunContext) × W)
  resumed none = none
  resumed (some (raised e, m)) = some (raised e, m.world)
  resumed (some (ok _, m)) =
      let (r, w) = s.commit m.world in some (continue r (λ _ w'. (ok (some m.context), w')) w)

  unfoldable pub resume_waiting :
      Option RunContext → W → Option (Result Error (Option RunContext) × W)
  resume_waiting none w = some (ok none, w)
  resume_waiting (some x) w =
      resumed (resume_after_approval engine false (record { context = x; world = w }))

  abbrev pub context_at : Option Uuid → W → Option RunContext
  context_at none w = none
  context_at (some run_id) w = get_waiting_context run_id (p.get w)

  -- `resume_after_approval`
  unfoldable pub resume_approved : Uuid → W → Option (Result Error (Option RunContext) × W)
  unfolding resume_waiting
  resume_approved approval_id w =
      resume_waiting (context_at (get_run_id_for_approval approval_id (p.get w)) w) w
