-- ===== src/Tests/App.antt =====
-- The repositories and the service behind the API on a session in memory, and the witnesses of the
-- theorems about packages/db and apps/api/app.
use governed_agent_platform.Prelude.{
  suc, ◌+◌, ◌≢◌, refl, String, true, none, List, [], ◌∷◌, length, arith, keep, Value, id_eq,
}
use governed_agent_platform.Prelude.Exec.{ok}
use governed_agent_platform.Orchestrator.Decisions.{
  decision_for_status, resolve_approval_status, ComesBack, Resolves, decision_for_status-ComesBack,
}
use governed_agent_platform.Orchestrator.Interfaces.{Collaborators}
use governed_agent_platform.Runtime.{InMemoryRuntimeController, new_controller}
use governed_agent_platform.Runtime.Pause.{Place, with_runtime}
use governed_agent_platform.Db.Enums.{ApprovalStatus, approved, expired, approval_status_eq}
use governed_agent_platform.Db.Session.{Tables, ApprovalRequest, Session, IsSession}
use governed_agent_platform.Db.Runs.{append_run_event}
use governed_agent_platform.Db.Runs.Events.{IsLog, Appended, append_run_event-Appended}
use governed_agent_platform.Db.Approvals.{get_approval_request, resolve_approval_request}
use governed_agent_platform.Db.Approvals.Resolution.{
  Resolution, resolve_all, HasStatus, IsFinal, resolve_approval_request-once,
}
use governed_agent_platform.Db.Stores.Status.{LeaveRuns}
use governed_agent_platform.App.Platform.{RunCreateRequest, start_run_response}
use governed_agent_platform.App.Platform.Started.{Reported, start_run_response-Reported}
use governed_agent_platform.App.Approvals.Refused.{Refuses, resolve_approval-Refuses}
use governed_agent_platform.Prelude.{◌==◌, string_eq, some, if◌then◌else◌}
use governed_agent_platform.App.Demo.{TextLibrary}
use governed_agent_platform.Tests.Fakes.{planned, tool_result}

pub record Server : Type 0 where
  pub rows : Tables
  pub controller : InMemoryRuntimeController

abbrev empty : Server
empty = record {
  rows = record { runs = []; run_events = []; approval_requests = []; tool_invocations = [] };
  controller = new_controller;
}

abbrev session : Session Server
session = record {
  tables = λ w. w.rows;
  write = λ g w. record w { rows = g w.rows };
  flush = λ w. (ok tt, w);
  commit = λ w. (ok tt, w);
  now = λ w. 1000;
  uuid4 = λ w. suc (length w.rows.runs + length w.rows.approval_requests);
}

session-IsSession : IsSession session
session-IsSession = record {
  writes = λ g w. refl;
  flush_returns = λ w. refl;
  commit_returns = λ w. refl;
  commit_keeps = λ w. refl;
}

abbrev place : Place Server
place = record {
  get = λ w. w.controller;
  set = λ r w. record w { controller = r };
  get-set = λ r w. refl;
}

-- A gateway without routes, and tools that need approval.
abbrev collaborators : Collaborators Server
collaborators = record {
  run_store = record { update_run_status = λ id s e w. (ok tt, w) };
  approval_store = record {
    create_approval_request = λ id reason preview invocation w. (ok none, w);
    get_approval_decision = λ id w. (ok "PENDING", w);
    get_approval_request = λ id w. (ok none, w);
  };
  ai_gateway = record {
    classify = λ t w. (ok "action_request", w);
    generate_response = λ x w. (ok "Ticket T-100", w);
    describe_route = none;
  };
  retrieval_service = record { retrieve = λ t s w. (ok [], w) };
  tool_executor = record {
    plan_tools = λ x w. (ok (planned ∷ []), w);
    execute_tools = λ x w. (ok (tool_result true), w);
  };
  trace_recorder = record { record_event = λ id event payload w. (ok tt, w) };
  runtime_hooks = record {
    store_waiting_context = λ x w. (ok tt, w);
    on_waiting_for_approval = λ id a w. (ok tt, w);
    on_run_resumed = λ id w. (ok tt, w);
    on_run_completed = λ id s w. (ok tt, w);
  };
}

collaborators-LeaveRuns : LeaveRuns session (with_runtime place collaborators)
collaborators-LeaveRuns = record {
  classify = λ t w. refl;
  generate_response = λ x w. refl;
  describe_route = λ f x h. absurd (ground arith);
  retrieve = λ t q w. refl;
  plan_tools = λ x w. refl;
  execute_tools = λ x w. refl;
  store_waiting_context = λ x w. refl;
  on_waiting_for_approval = λ i a w. refl;
  on_run_completed = λ i q w. refl;
}

abbrev repr : Value → String
repr v = "None"

abbrev request : RunCreateRequest
request = record {
  workflow_key = "support.ticket";
  user_input = "Draft a refund for T-100.";
  tenant_id = "tenant-a";
  requested_by = none;
}

start_run_response-Reported_example :
    Reported session place collaborators repr 1
      (start_run_response session place collaborators repr request empty)
start_run_response-Reported_example =
    start_run_response-Reported session place collaborators repr session-IsSession
      collaborators-LeaveRuns request empty refl

empty-IsLog : IsLog session empty
unfolding keep
empty-IsLog id = tt

append_run_event-Appended_example :
    Appended session 1 "RUN_STARTED" none empty
      (append_run_event session 1 "RUN_STARTED" none empty)
append_run_event-Appended_example =
    append_run_event-Appended session session-IsSession 1 "RUN_STARTED" none empty empty-IsLog

-- A request that waits.
abbrev waiting : ApprovalRequest
waiting = record {
  id = 7;
  run_id = 1;
  tool_invocation_id = none;
  status = ApprovalStatus.pending;
  reason = "Approval required for draft_refund_request";
  action_preview = none;
  requested_at = 1000;
  decision_comment = none;
  expires_at = none;
  resolved_at = none;
}

abbrev one_waiting : Server
one_waiting = record empty { rows = record empty.rows { approval_requests = waiting ∷ [] } }

waiting-HasStatus : HasStatus session 7 ApprovalStatus.pending one_waiting
unfolding get_approval_request
waiting-HasStatus = (waiting, (refl, refl))

approved-ne-pending : approved ≢ ApprovalStatus.pending
approved-ne-pending e =
    ground (arith, (approval_status_eq.decides approved ApprovalStatus.pending).1 e)

abbrev late : List Resolution
late = record { approval_request_id = 7; status = expired; decision_comment = none } ∷ []

resolve_approval_request-once_example :
    IsFinal session 7 approved
      (resolve_all session late (resolve_approval_request session 7 approved none one_waiting).1)
resolve_approval_request-once_example =
    resolve_approval_request-once session session-IsSession 7 approved none one_waiting
      waiting-HasStatus approved-ne-pending late

abbrev closed : Server
closed = record empty {
  rows = record empty.rows { approval_requests = record waiting { status = approved } ∷ [] };
}

resolve_approval-Refuses_example :
    Refuses session place collaborators repr
      (λ t. t)
      7
      closed
      (get_approval_request session 7 closed)
resolve_approval-Refuses_example =
    resolve_approval-Refuses session place collaborators repr (λ t. t) session-IsSession refl refl 7
      closed

abbrev upper : String → String
upper t = if t == "approved" then "APPROVED" else t

decision_for_status-ComesBack_example :
    ComesBack upper "approved" approved (decision_for_status approved)
    × Resolves "approved" (resolve_approval_status upper "approved")
decision_for_status-ComesBack_example = decision_for_status-ComesBack upper "approved" approved

-- Texts about a customer, with one match for every pattern.
abbrev texts : TextLibrary
texts = record {
  lower = λ t. t;
  upper = λ t. t;
  contains = λ needle text. needle == "customer";
  first_group = λ pattern text. some "T-100";
}
