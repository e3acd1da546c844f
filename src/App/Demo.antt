-- ===== src/App/Demo.antt =====
-- apps/api/app/demo.py: the classes and routes of `DemoGateway`, and the plan of `DemoToolExecutor`.
-- The operations on texts are parameters.
pub mod Plans
pub mod Tools
pub mod Execution
use governed_agent_platform.Prelude.{
  String, Bool, true, false, ◌&&◌, ◌||◌, Option, none, some, List, [], ◌∷◌, ◌++◌, ◌==◌, string_eq,
  if◌then◌else◌, Value, Payload,
}
use governed_agent_platform.Orchestrator.Models.{AgentTask, RunContext, ToolCall}
use governed_agent_platform.Orchestrator.Interfaces.{RoutePayload}

-- What the demo uses of texts: `lower`, `upper`, `needle in text`, and the first group of the first
-- match of a pattern, whatever the case of its letters.
pub record TextLibrary : Type 0 where
  pub lower : String → String
  pub upper : String → String
  pub contains : String → String → Bool
  pub first_group : String → String → Option String

-- The names of the tools that the demo plans.
pub data DemoTool : Type 0 where
  draft_refund_request get_ticket get_incident get_customer : DemoTool

abbrev pub demo_tool_name : DemoTool → String
demo_tool_name draft_refund_request = "draft_refund_request"
demo_tool_name get_ticket = "get_ticket"
demo_tool_name get_incident = "get_incident"
demo_tool_name get_customer = "get_customer"

-- `_arguments_for`; an override has a key of its own.
unfoldable pub arguments_for : RunContext → DemoTool → Payload → Payload
arguments_for context draft_refund_request overrides =
    ("tenant_id", Value.str context.task.tenant_id)
    ∷ ("customer_id", Value.str "C-100")
    ∷ ("ticket_id", Value.str "T-100")
    ∷ ("amount", Value.literal "42.5")
    ∷ ("reason", Value.str "Duplicate charge confirmed")
    ∷ overrides
arguments_for context tool overrides = ("tenant_id", Value.str context.task.tenant_id) ∷ overrides

-- A planned call.
unfoldable pub planned_call : RunContext → DemoTool → Bool → Payload → ToolCall
unfolding arguments_for
planned_call context tool requires_approval overrides = record {
  name = demo_tool_name tool;
  requires_approval = requires_approval;
  arguments = arguments_for context tool overrides;
}

abbrev pub is_match : Option String → Bool
is_match none = false
is_match (some id) = true

module _ (l : TextLibrary) where
  -- `classify`
  unfoldable pub classify : AgentTask → String
  classify task =
      if l.contains "refund" (l.lower task.user_input) then "action_request" else "grounded_answer"

  -- A look-up of the matched id.
  abbrev pub lookup_of : RunContext → DemoTool → String → Option String → List ToolCall
  lookup_of context tool key none = []
  lookup_of context tool key (some id) =
      planned_call context tool false ((key, Value.str (l.upper id)) ∷ []) ∷ []

  unfoldable pub plan_tools : RunContext → List ToolCall
  unfolding planned_call
  plan_tools context =
      let input : String = context.task.user_input in
      let text : String = l.lower input in
      let ticket : Option String = l.first_group "(T-\\d+)" input in
      let incident : Option String = l.first_group "(INC-\\d+)" input in
      let customer : Option String = l.first_group "(C-\\d+)" input in
      if (l.contains "draft" text || (l.contains "submit" text || l.contains "approve" text))
        && l.contains "refund" text
      then planned_call context draft_refund_request true [] ∷ []
      else if is_match ticket
      then lookup_of context get_ticket "ticket_id" ticket
      else if is_match incident
      then lookup_of context get_incident "incident_id" incident
      else if is_match customer && l.contains "customer" text
      then lookup_of context get_customer "customer_id" customer
      else []

abbrev pub is_class : Option String → String → Bool
is_class none name = false
is_class (some c) name = c == name

-- `describe_route`
unfoldable pub describe_route : RunContext → RoutePayload
describe_route context =
    if is_class context.classification "action_request"
    then record {
      provider = some "openai";
      model = some "gpt-4.1";
      reason = some "approval-sensitive path";
    }
    else record {
      provider = some "openai";
      model = some "gpt-4.1-mini";
      reason = some "grounded support answer";
    }
