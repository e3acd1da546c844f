-- ===== src/Tracing/Timeline.antt =====
-- packages/tracing/src/tracing/timeline.py, and `TraceEventRecord` of events.py: the timeline of a
-- run's events.
use governed_agent_platform.Prelude.{ℕ, String, Option, List, map, Uuid, Payload, length}
use governed_agent_platform.Tracing.{
  TraceEventType, run_started, model_selected, retrieval_completed, tool_called,
  tool_result_received, approval_requested, approval_resolved, run_completed, run_failed,
}

-- `created_at` is a time stamp, by its number of microseconds.
pub record TraceEventRecord : Type 0 where
  pub run_id : Uuid
  pub sequence : ℕ
  pub event_type : TraceEventType
  pub payload : Option Payload
  pub created_at : ℕ

pub record TimelineEntry : Type 0 where
  pub sequence : ℕ
  pub event_type : TraceEventType
  pub title : String
  pub timestamp : ℕ
  pub payload : Option Payload

pub record RunTimeline : Type 0 where
  pub run_id : Uuid
  pub event_count : ℕ
  pub events : List TimelineEntry

-- `_title_for_event`
unfoldable pub title_for_event : TraceEventType → String
title_for_event run_started = "Run started"
title_for_event model_selected = "Model selected"
title_for_event retrieval_completed = "Retrieval completed"
title_for_event tool_called = "Tool called"
title_for_event tool_result_received = "Tool result received"
title_for_event approval_requested = "Approval requested"
title_for_event approval_resolved = "Approval resolved"
title_for_event run_completed = "Run completed"
title_for_event run_failed = "Run failed"

timeline_entry : TraceEventRecord → TimelineEntry
timeline_entry event = record {
  sequence = event.sequence;
  event_type = event.event_type;
  title = title_for_event event.event_type;
  timestamp = event.created_at;
  payload = event.payload;
}

-- `TimelineBuilder.build`
unfoldable pub build : Uuid → List TraceEventRecord → RunTimeline
unfolding timeline_entry title_for_event
build run_id events =
    let entries = map timeline_entry events in
    record { run_id = run_id; event_count = length entries; events = entries }
