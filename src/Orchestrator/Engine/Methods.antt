-- ===== src/Orchestrator/Engine/Methods.antt =====
-- engine.py: the engine's private methods.
use governed_agent_platform.Prelude.{
  true, false, Option, none, some, String, find, if◌then◌else◌, ◌==◌, string_eq, Uuid, Payload,
}
use governed_agent_platform.Prelude.Exec.{ok, pure, gets, lift, ◌>>=◌, ◌>>◌}
use governed_agent_platform.Tracing.{
  TraceEventType, run_completed, run_failed, value, TracePayload, run_completed_payload,
  run_failed_payload, model,
}
use governed_agent_platform.Orchestrator.Models.{
  RunState, waiting_for_approval, failed, canceled, state_value, ToolExecutionRecord, RunContext,
}
use governed_agent_platform.Orchestrator.StateMachine.{transition_state}
use governed_agent_platform.Orchestrator.Interfaces.{Collaborators}
use governed_agent_platform.Orchestrator.Approval.{request_approval}
use governed_agent_platform.Orchestrator.Engine.State.{Method, call, modify, is_terminal}

-- `text or default`
abbrev pub or_default : Option String → String → String
or_default none d = d
or_default (some s) d = if s == "" then d else s

abbrev pub pending_record : RunContext → Option ToolExecutionRecord
pending_record context = find (λ r. r.requires_approval) context.tool_records

-- `pending_record.tool_invocation_id if pending_record is not None else None`
abbrev pub pending_invocation : Option ToolExecutionRecord → Option Uuid
pending_invocation none = none
pending_invocation (some r) = r.tool_invocation_id

-- The preview of the record if it has one, else the preview handed in.
abbrev pub action_preview : Option ToolExecutionRecord → Option Payload → Option Payload
action_preview none preview = preview
action_preview (some r) preview = elim r.preview_payload [ none ↦ preview | some p ↦ some p ]

module _ {W : Type 0} (c : Collaborators W) where
  -- `_record_event`
  unfoldable pub record_event : TraceEventType → Option TracePayload → Method W Unit
  record_event event_type payload m =
      call
        (c.trace_recorder.record_event m.context.task.run_id (value event_type)
          (elim payload [ none ↦ none | some p ↦ some (model p) ]))
        m

  -- `if event_type is not None: self._record_event(...)`
  unfoldable pub emit : Option TraceEventType → Option TracePayload → Method W Unit
  unfolding record_event
  emit none payload = pure tt
  emit (some event_type) payload = record_event event_type payload

  -- `_transition_state`
  unfoldable pub transition :
      RunState → Option TraceEventType → Option TracePayload → Option String → Method W Unit
  unfolding emit
  transition target event_type payload last_error = do
    current ← gets (λ m. m.context.state)
    state ← lift (transition_state current target)
    modify (λ x. record x { state = state })
    run_id ← gets (λ m. m.context.task.run_id)
    call (c.run_store.update_run_status run_id (state_value target) last_error)
    emit event_type payload

  -- The last two statements of `_request_approval`.
  unfoldable pub hand_over : Uuid → Method W Unit
  hand_over approval_request_id = do
    waiting ← gets (λ m. m.context)
    call (c.runtime_hooks.store_waiting_context waiting)
    call (c.runtime_hooks.on_waiting_for_approval waiting.task.run_id approval_request_id)

  -- `_request_approval` up to there: the request is created and the run waits.
  unfoldable pub open_request : Option String → Option Payload → Method W Uuid
  unfolding transition request_approval
  open_request reason preview_payload = do
    pending ← gets (λ m. pending_record m.context)
    modify (λ x. record x { pending_tool_invocation_id = pending_invocation pending })
    context ← gets (λ m. m.context)
    approval_request_id ← call (
        request_approval c.approval_store c.trace_recorder context
          (or_default reason "Approval required") (action_preview pending preview_payload)
          context.pending_tool_invocation_id)
    modify (λ x. record x { approval_request_id = some approval_request_id })
    transition waiting_for_approval none none none
    pure approval_request_id

  -- `_request_approval`
  unfoldable pub ask_approval : Option String → Option Payload → Method W Unit
  unfolding open_request hand_over
  ask_approval reason preview_payload = do
    approval_request_id ← open_request reason preview_payload
    hand_over approval_request_id

  -- `_runtime_hooks.on_run_completed(context.task.run_id, context.state)`
  unfoldable pub notify_completed : Method W Unit
  notify_completed m =
      call (c.runtime_hooks.on_run_completed m.context.task.run_id m.context.state) m

  -- The guarded part of `_cancel_run`.
  close_canceled : String → Method W Unit
  unfolding transition notify_completed
  close_canceled reason m = elim (is_terminal m.context.state) [
    | true ↦ (ok tt, m)
    | false ↦
        (do
          transition canceled (some run_completed)
              (some (run_completed_payload (state_value canceled) (some reason))) none
          notify_completed)
          m
  ]

  -- `_cancel_run`
  unfoldable pub cancel_run : String → Method W Unit
  unfolding close_canceled
  cancel_run reason = do
    close_canceled reason
    modify (λ x. record x { failure_reason = some reason })

  -- The guarded part of `_fail_run`.
  close_failed : String → Method W Unit
  unfolding transition notify_completed
  close_failed reason m = elim (is_terminal m.context.state) [
    | true ↦ (ok tt, m)
    | false ↦
        (do
          transition failed (some run_failed) (some (run_failed_payload reason)) (some reason)
          notify_completed)
          m
  ]

  -- `_fail_run`
  unfoldable pub fail_run : String → Method W Unit
  unfolding close_failed
  fail_run reason = do close_failed reason; modify (λ x. record x { failure_reason = some reason })
