-- ===== src/Tracing.antt =====
-- packages/tracing/src/tracing: the events of a run (events.py), the recorder that writes them to
-- a store (recorder.py) and the timeline that is read back (timeline.py, in the child module).
pub mod Timeline
use governed_agent_platform.Prelude.{
  String, Bool, true, false, ℕ, ◌≡◌, refl, Option, none, some, List, [], ◌∷◌, if◌then◌else◌, Eq,
  ◌==◌, string_eq, enum_eq, Uuid, Value, Payload, as_dict,
}
use governed_agent_platform.Prelude.Exec.{Exec}

pub data TraceEventType : Type 0 where
  run_started model_selected retrieval_completed tool_called tool_result_received : TraceEventType
  approval_requested approval_resolved run_completed run_failed : TraceEventType

abbrev pub value : TraceEventType → String
value run_started = "RUN_STARTED"
value model_selected = "MODEL_SELECTED"
value retrieval_completed = "RETRIEVAL_COMPLETED"
value tool_called = "TOOL_CALLED"
value tool_result_received = "TOOL_RESULT_RECEIVED"
value approval_requested = "APPROVAL_REQUESTED"
value approval_resolved = "APPROVAL_RESOLVED"
value run_completed = "RUN_COMPLETED"
value run_failed = "RUN_FAILED"

-- `TraceEventType(text)`
unfoldable pub of_value : String → Option TraceEventType
of_value s =
    if s == "RUN_STARTED"
    then some run_started
    else if s == "MODEL_SELECTED"
    then some model_selected
    else if s == "RETRIEVAL_COMPLETED"
    then some retrieval_completed
    else if s == "TOOL_CALLED"
    then some tool_called
    else if s == "TOOL_RESULT_RECEIVED"
    then some tool_result_received
    else if s == "APPROVAL_REQUESTED"
    then some approval_requested
    else if s == "APPROVAL_RESOLVED"
    then some approval_resolved
    else if s == "RUN_COMPLETED"
    then some run_completed
    else if s == "RUN_FAILED"
    then some run_failed
    else none

-- The payload classes, a constructor for each, with their fields in order.
pub data TracePayload : Type 0 where
  run_started_payload : String → String → TracePayload
  model_selected_payload : String → String → Option String → TracePayload
  retrieval_completed_payload : String → ℕ → TracePayload
  tool_called_payload : String → Option Uuid → Bool → TracePayload
  tool_result_received_payload : String → Option Uuid → String → Bool → TracePayload
  approval_requested_payload : Uuid → Option Uuid → String → Option Payload → TracePayload
  approval_resolved_payload : Uuid → String → Option String → TracePayload
  run_completed_payload : String → Option String → TracePayload
  run_failed_payload : String → TracePayload

-- A field that may be `None`.
abbrev optional : {A : Type 0} → (A → Value) → Option A → Value
optional f none = Value.null
optional f (some a) = f a

-- `payload.model_dump(mode="json")`
unfoldable pub model_dump : TracePayload → Payload
model_dump (run_started_payload workflow_key tenant_id) =
    ("workflow_key", Value.str workflow_key) ∷ ("tenant_id", Value.str tenant_id) ∷ []
model_dump (model_selected_payload provider model reason) =
    ("provider", Value.str provider)
    ∷ ("model", Value.str model)
    ∷ ("reason", optional Value.str reason)
    ∷ []
model_dump (retrieval_completed_payload classification document_count) =
    ("classification", Value.str classification) ∷ ("document_count", Value.int document_count) ∷ []
model_dump (tool_called_payload tool_name tool_invocation_id requires_approval) =
    ("tool_name", Value.str tool_name)
    ∷ ("tool_invocation_id", optional Value.uuid tool_invocation_id)
    ∷ ("requires_approval", Value.bool requires_approval)
    ∷ []
model_dump (tool_result_received_payload tool_name tool_invocation_id status requires_approval) =
    ("tool_name", Value.str tool_name)
    ∷ ("tool_invocation_id", optional Value.uuid tool_invocation_id)
    ∷ ("status", Value.str status)
    ∷ ("requires_approval", Value.bool requires_approval)
    ∷ []
model_dump (approval_requested_payload approval_request_id tool_invocation_id status preview) =
    ("approval_request_id", Value.uuid approval_request_id)
    ∷ ("tool_invocation_id", optional Value.uuid tool_invocation_id)
    ∷ ("status", Value.str status)
    ∷ ("action_preview", optional as_dict preview)
    ∷ []
model_dump (approval_resolved_payload approval_request_id status decision_comment) =
    ("approval_request_id", Value.uuid approval_request_id)
    ∷ ("status", Value.str status)
    ∷ ("decision_comment", optional Value.str decision_comment)
    ∷ []
model_dump (run_completed_payload final_state response_text) =
    ("final_state", Value.str final_state)
    ∷ ("response_text", optional Value.str response_text)
    ∷ []
model_dump (run_failed_payload error) = ("error", Value.str error) ∷ []

-- What `record_event` is handed: a payload model, or a plain dictionary.
pub data EventPayload : Type 0 where
  model : TracePayload → EventPayload
  plain : Payload → EventPayload

-- The payload that is stored.
unfoldable pub normalized_payload : Option EventPayload → Option Payload
unfolding model_dump
normalized_payload none = none
normalized_payload (some (model p)) = some (model_dump p)
normalized_payload (some (plain d)) = some d

-- `RunEventStore`
pub record RunEventStore (S E : Type 0) : Type 0 where
  pub append_run_event : Uuid → String → Option Payload → Exec S E Unit

-- `TraceRecorder.record_event`
unfoldable pub record_event :
    {S E : Type 0} → RunEventStore S E → Uuid → String → Option EventPayload → Exec S E Unit
unfolding normalized_payload
record_event store run_id event_type payload =
    store.append_run_event run_id event_type (normalized_payload payload)

pub of_value-value : (t : TraceEventType) → of_value (value t) ≡ some t
unfolding of_value
of_value-value run_started = refl
of_value-value _ = refl

instance abbrev pub event_type_eq : Eq TraceEventType
event_type_eq = enum_eq value of_value of_value-value
