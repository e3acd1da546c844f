-- ===== src/Evals/Cases.antt =====
-- packages/evals/src/evals/runner.py: the tool that a case runs, its arguments, and the response that
-- is made of its result.
pub mod Arguments
use governed_agent_platform.Prelude.{
  String, ◌<>◌, Bool, true, false, ◌&&◌, ◌||◌, Option, none, some, List, [], ◌∷◌, if◌then◌else◌,
  string_eq, Value, Payload,
}
use governed_agent_platform.Prelude.Dict.{lookup}
use governed_agent_platform.Prelude.Exec.{Result, ok, raised}
use governed_agent_platform.Tools.Schemas.{ToolError, key_error}
use governed_agent_platform.Tools.Implementations.{◌>>=◌, item}
use governed_agent_platform.Evals.Scoring.{
  EvalCase, PlatformEvalOutput, ScoringLibrary, persisted_key,
}

-- The tools of the registry.
pub data ToolName : Type 0 where
  draft_refund_request get_incident get_customer get_ticket search_docs : ToolName

abbrev pub tool_name_value : ToolName → String
tool_name_value draft_refund_request = "draft_refund_request"
tool_name_value get_incident = "get_incident"
tool_name_value get_customer = "get_customer"
tool_name_value get_ticket = "get_ticket"
tool_name_value search_docs = "search_docs"

abbrev pub is_there : Option Value → Bool
is_there none = false
is_there (some v) = true

module _ {F : Type 0} (l : ScoringLibrary F) where
  -- `_select_tool`
  unfoldable pub select_tool : EvalCase F → ToolName
  select_tool case =
      let text : String = l.lower case.input_text in
      let has : String → Bool = λ key. is_there (lookup key case.context) in
      if (l.contains "draft" text || (l.contains "submit" text || l.contains "approve" text))
        && l.contains "refund" text
      then draft_refund_request
      else if l.contains "incident" text && has "incident_id"
      then get_incident
      else if l.contains "customer" text && (has "customer_id" && l.contains "profile" text)
      then get_customer
      else if l.contains "ticket" text && has "ticket_id"
      then get_ticket
      else search_docs

module _ {F : Type 0} where
  -- The arguments of a look-up: the id from the context, and the tenant of the case.
  unfoldable pub id_arguments : String → EvalCase F → Result ToolError Payload
  unfolding item
  id_arguments key case = do
    id ← item key case.context
    ok ((key, id) ∷ ("tenant_id", Value.str case.tenant_id) ∷ [])

  -- `_tool_arguments_for_case`
  unfoldable pub tool_arguments_for_case : EvalCase F → ToolName → Result ToolError Payload
  unfolding item id_arguments
  tool_arguments_for_case case search_docs =
      ok (("query", Value.str case.input_text) ∷ ("tenant_id", Value.str case.tenant_id) ∷ [])
  tool_arguments_for_case case get_ticket = id_arguments "ticket_id" case
  tool_arguments_for_case case get_incident = id_arguments "incident_id" case
  tool_arguments_for_case case get_customer = id_arguments "customer_id" case
  tool_arguments_for_case case draft_refund_request = do
    customer_id ← item "customer_id" case.context
    ticket_id ← item "ticket_id" case.context
    amount ← item "amount" case.context
    reason ← item "reason" case.context
    ok (
        ("customer_id", customer_id)
        ∷ ("ticket_id", ticket_id)
        ∷ ("amount", amount)
        ∷ ("reason", reason)
        ∷ ("tenant_id", Value.str case.tenant_id)
        ∷ [])
