-- ===== src/Orchestrator/Engine/Turns.antt =====
-- engine.py: the turn of the loop of `_execute` at each step.
use governed_agent_platform.Prelude.{
  Bool, ℕ, ◌+◌, true, false, Option, none, some, String, List, [], ◌∷◌, length, get_elem?,
  string_eq, Payload,
}
use governed_agent_platform.Prelude.Exec.{ok, pure, gets, lift, ◌>>=◌, ◌>>◌}
use governed_agent_platform.Tracing.{
  model_selected, retrieval_completed, tool_called, tool_result_received, run_completed,
  model_selected_payload, retrieval_completed_payload, tool_called_payload,
  tool_result_received_payload, run_completed_payload,
}
use governed_agent_platform.Orchestrator.Models.{
  completed, state_value, RunStep, classify, retrieve_context, decide_tools, execute_tools,
  request_approval_if_needed, generate_response, complete, ToolCall, ToolExecutionRecord,
  ToolExecutionResult, RunContext,
}
use governed_agent_platform.Orchestrator.StateMachine.{next_step}
use governed_agent_platform.Orchestrator.Interfaces.{Collaborators, RoutePayload}
use governed_agent_platform.Orchestrator.Engine.State.{Method, call, modify, is_waiting}
use governed_agent_platform.Orchestrator.Engine.Methods.{
  or_default, record_event, transition, ask_approval, notify_completed,
}

-- How a turn of the loop ends: by `continue`, or by `return context`.
pub data Flow : Type 0 where
  again finished : Flow

-- `payload.get(key, "unknown")`
abbrev or_unknown : Option String → String
or_unknown none = "unknown"
or_unknown (some s) = s

-- `context.planned_tools[index].name if index < len(context.planned_tools) else "tool"`
tool_name_at : List ToolCall → ℕ → String
tool_name_at planned index = elim (get_elem? planned index) [
  | none ↦ "tool"
  | some tool ↦ tool.name
]

-- `_derive_tool_records`, from the output at `index` on.
unfoldable pub derive_from : List ToolCall → ℕ → List Payload → List ToolExecutionRecord
unfolding tool_name_at
derive_from planned index [] = []
derive_from planned index (output ∷ outputs) =
    record {
      tool_name = tool_name_at planned index;
      status = "succeeded";
      tool_invocation_id = none;
      output = some output;
      error = none;
      requires_approval = false;
      preview_payload = none;
    }
    ∷ derive_from planned (index + 1) outputs

unfoldable pub derive_tool_records : RunContext → List ToolExecutionRecord
unfolding derive_from
derive_tool_records context = derive_from context.planned_tools 0 context.tool_results

-- `execution_result.tool_records or self._derive_tool_records(context)`
or_derived : List ToolExecutionRecord → RunContext → List ToolExecutionRecord
or_derived [] context = derive_tool_records context
or_derived (r ∷ rs) context = r ∷ rs

module _ {W : Type 0} (c : Collaborators W) where
  -- `context.current_step = self._state_machine.next_step(step)`, and `continue`
  unfoldable pub advance : RunStep → Method W Flow
  advance step = do
    following ← lift (next_step (some step))
    modify (λ x. record x { current_step = some following })
    pure again

  turn_classify : Method W Flow
  unfolding advance
  turn_classify = do
    context ← gets (λ m. m.context)
    classification ← call (c.ai_gateway.classify context.task)
    modify (λ x. record x { classification = some classification })
    advance classify

  turn_retrieve : Method W Flow
  unfolding advance record_event
  turn_retrieve = do
    context ← gets (λ m. m.context)
    found ← call (
        c.retrieval_service.retrieve context.task
          (or_default context.classification "unclassified"))
    modify (λ x. record x { retrieved_context = found })
    record_event c retrieval_completed (
        some (
          retrieval_completed_payload (or_default context.classification "unclassified")
            (length found)))
    advance retrieve_context

  turn_decide : Method W Flow
  unfolding advance
  turn_decide = do
    context ← gets (λ m. m.context)
    planned ← call (c.tool_executor.plan_tools context)
    modify (λ x. record x { planned_tools = planned })
    advance decide_tools

  -- The first `for` loop of the step.
  unfoldable pub record_calls : List ToolCall → Method W Unit
  unfolding record_event
  record_calls [] = pure tt
  record_calls (tool_call ∷ rest) = do
    record_event c tool_called
        (some (tool_called_payload tool_call.name none tool_call.requires_approval))
    record_calls rest

  -- The second `for` loop of the step.
  unfoldable pub record_results : List ToolExecutionRecord → Method W Unit
  unfolding record_event
  record_results [] = pure tt
  record_results (r ∷ rest) = do
    record_event c tool_result_received (
        some (
          tool_result_received_payload r.tool_name r.tool_invocation_id r.status
            r.requires_approval))
    record_results rest

  -- After a request: `return context` if the run waits, else `continue`.
  unfoldable pub pause_or_again : Method W Flow
  pause_or_again m = elim (is_waiting m.context.state) [
    | true ↦ (ok finished, m)
    | false ↦ (ok again, m)
  ]

  -- The end of the step, by `execution_result.requires_approval`: the request for approval, or on
  -- to the response.
  unfoldable pub settle_by : Bool → ToolExecutionResult → Method W Flow
  unfolding ask_approval pause_or_again
  settle_by true result = do
    modify (λ x. record x { current_step = some request_approval_if_needed })
    ask_approval c result.approval_reason result.approval_preview
    pause_or_again
  settle_by false result = do
    modify (λ x. record x { current_step = some generate_response })
    pure again

  unfoldable pub settle_tools : ToolExecutionResult → Method W Flow
  unfolding settle_by
  settle_tools result = settle_by result.requires_approval result

  turn_execute : Method W Flow
  unfolding or_derived
  turn_execute = do
    planning ← gets (λ m. m.context)
    record_calls planning.planned_tools
    context ← gets (λ m. m.context)
    result ← call (c.tool_executor.execute_tools context)
    modify (λ x. record x { tool_results = result.outputs })
    modify (λ x. record x { tool_records = or_derived result.tool_records x })
    executed ← gets (λ m. m.context)
    record_results executed.tool_records
    settle_tools result

  turn_request : Method W Flow
  unfolding ask_approval pause_or_again
  turn_request = do ask_approval c (some "Approval required") none; pause_or_again

  -- `_describe_route`
  describe_route : Method W (Option RoutePayload)
  describe_route m = elim c.ai_gateway.describe_route [
    | none ↦ (ok none, m)
    | some describe ↦ call (describe m.context) m
  ]

  record_route : Option RoutePayload → Method W Unit
  unfolding record_event
  record_route none = pure tt
  record_route (some route) = record_event c model_selected (
      some
        (model_selected_payload (or_unknown route.provider) (or_unknown route.model) route.reason))

  turn_generate : Method W Flow
  unfolding describe_route record_route advance
  turn_generate = do
    route ← describe_route
    record_route route
    context ← gets (λ m. m.context)
    text ← call (c.ai_gateway.generate_response context)
    modify (λ x. record x { response_text = some text })
    advance generate_response

  turn_complete : Method W Flow
  unfolding transition notify_completed
  turn_complete = do
    context ← gets (λ m. m.context)
    transition c completed (some run_completed)
        (some (run_completed_payload (state_value completed) context.response_text)) none
    notify_completed c
    pure finished

  -- The `if` ladder of the loop, by the step.
  unfoldable pub turn : RunStep → Method W Flow
  unfolding turn_classify turn_retrieve turn_decide turn_execute turn_request turn_generate
      turn_complete
  turn classify = turn_classify
  turn retrieve_context = turn_retrieve
  turn decide_tools = turn_decide
  turn execute_tools = turn_execute
  turn request_approval_if_needed = turn_request
  turn generate_response = turn_generate
  turn complete = turn_complete
