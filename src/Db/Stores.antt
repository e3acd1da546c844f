-- ===== src/Db/Stores.antt =====
-- The repositories of packages/db as the stores of the engine, as `_build_engine` of
-- apps/api/app/demo.py passes them.
pub mod Status
use governed_agent_platform.Prelude.{String, Option, none, some, Uuid}
use governed_agent_platform.Prelude.Exec.{ok, ◌>>=◌, ◌>>◌, pure}
use governed_agent_platform.Tracing.{RunEventStore, record_event}
use governed_agent_platform.Orchestrator.Errors.{Error}
use governed_agent_platform.Orchestrator.Interfaces.{
  RunStore, ApprovalStore, ApprovalView, TraceRecorder, Collaborators,
}
use governed_agent_platform.Db.Enums.{approval_status_value}
use governed_agent_platform.Db.Session.{ApprovalRequest, Session}
use governed_agent_platform.Db.Runs.{update_run_status, append_run_event}
use governed_agent_platform.Db.Approvals.{
  create_approval_request, get_approval_decision, get_approval_request,
}

-- What the engine reads of a request.
abbrev view_of : Option ApprovalRequest → Option ApprovalView
view_of none = none
view_of (some r) = some (record { decision_comment = r.decision_comment })

module _ {W : Type 0} (s : Session W) where
  abbrev pub run_store : RunStore W
  run_store = record {
    update_run_status = λ id status last_error. update_run_status s id status last_error >> pure tt;
  }

  abbrev pub approval_store : ApprovalStore W
  approval_store = record {
    create_approval_request = λ run_id reason preview invocation.
        create_approval_request s run_id reason preview invocation none >>= λ r. pure (some r.id);
    get_approval_decision =
        λ id. get_approval_decision s id >>= λ status. pure (approval_status_value status);
    get_approval_request = λ id w. (ok (view_of (get_approval_request s id w)), w);
  }

  abbrev pub event_store : RunEventStore W Error
  event_store = record {
    append_run_event =
        λ run_id event_type payload. append_run_event s run_id event_type payload >> pure tt;
  }

  abbrev pub trace_recorder : TraceRecorder W
  trace_recorder = record { record_event = record_event event_store }

  -- `_build_engine`, with the other collaborators from `c`.
  abbrev pub with_repositories : Collaborators W → Collaborators W
  with_repositories c = record c {
    run_store = run_store;
    approval_store = approval_store;
    trace_recorder = trace_recorder;
  }
