-- ===== src/Evals/Responses.antt =====
-- packages/evals/src/evals/runner.py: the response that is made of the result of a tool.
use governed_agent_platform.Prelude.{
  ℕ, String, ◌<>◌, Bool, Option, none, some, List, [], ◌∷◌, ◌==◌, string_eq, if◌then◌else◌, length,
  Value, nil, cons, Fields, end, field, Payload, text_of,
}
use governed_agent_platform.Prelude.Dict.{lookup}
use governed_agent_platform.Prelude.Exec.{Result, ok, raised}
use governed_agent_platform.Tools.Schemas.{ToolError, key_error, other}
use governed_agent_platform.Tools.Implementations.{◌>>=◌, item}
use governed_agent_platform.Evals.Scoring.{EvalCase, PlatformEvalOutput, persisted_key}
use governed_agent_platform.Evals.Cases.{
  ToolName, draft_refund_request, get_incident, get_customer, get_ticket, search_docs,
}

abbrev pub found_or_key : String → Option Value → Result ToolError Value
found_or_key key none = raised (key_error key)
found_or_key key (some v) = ok v

-- `d.get(key)` of a nested dictionary
unfoldable pub field_of : String → Fields → Option Value
field_of key end = none
field_of key (field k v d) = let rest = field_of key d in if k == key then some v else rest

-- `value[key]`
abbrev pub at_key : String → Value → Result ToolError Value
at_key key (Value.dict d) = found_or_key key (field_of key d)
at_key key v = raised (other "TypeError")

-- `output or {}`
abbrev pub or_empty : Option Payload → Payload
or_empty none = []
or_empty (some d) = d

abbrev pub results_or : Option Value → Value
results_or none = Value.list nil
results_or (some v) = v

module _ (repr : Value → String) where
  -- `{value[key]}` in a text
  abbrev pub shown_at : String → Value → Result ToolError String
  shown_at key v = at_key key v >>= λ x. ok (text_of repr x)

  -- `{d.get(key)}` in a text
  abbrev pub shown_or_none : Option Value → String
  shown_or_none none = "None"
  shown_or_none (some v) = text_of repr v

  -- The response to a search, with its first result; the results of the tool are a list.
  abbrev pub search_response : Value → Result ToolError (String × List Payload)
  search_response (Value.list nil) = ok ("No grounded documentation found.", [])
  search_response (Value.list (cons top results)) = do
    doc_id ← shown_at "doc_id" top
    source ← at_key "doc_id" top
    snippet ← shown_at "snippet" top
    ok (
      snippet <> " [" <> doc_id <> ":0]",
      (("citation_id", Value.str (doc_id <> ":0")) ∷ ("source_id", source) ∷ []) ∷ [],
    )
  search_response v = raised (other "TypeError")

  -- A response of three texts of a record.
  abbrev pub record_response :
      String
      → String
      → String
      → String
      → String
      → String
      → String
      → Value
      → Result ToolError (String × List Payload)
  record_response before key_a between key_b after key_c last r = do
    a ← shown_at key_a r
    b ← shown_at key_b r
    c ← shown_at key_c r
    ok (before <> a <> between <> b <> after <> c <> last, [])

  -- `_build_response`
  unfoldable pub build_response :
      ToolName → Payload → Option Payload → Result ToolError (String × List Payload)
  unfolding item field_of
  build_response search_docs output preview = search_response (results_or (lookup "results" output))
  build_response get_ticket output preview =
      item "ticket" output
      >>= record_response "Ticket " "ticket_id" ": " "subject" " (" "status" ")."
  build_response get_incident output preview =
      item "incident" output
      >>= record_response "Incident " "incident_id" ": " "title" " (" "status" ")."
  build_response get_customer output preview =
      item "customer" output
      >>= record_response "Customer " "customer_id" ": " "name" " on " "plan" "."
  build_response draft_refund_request output preview = ok (
    "Approval required before submitting refund request. Prepared draft for "
        <> shown_or_none (lookup "customer_id" (or_empty preview))
        <> " on ticket "
        <> shown_or_none (lookup "ticket_id" (or_empty preview))
        <> ".",
    [],
  )

abbrev pub flag_text : Bool → String
flag_text b = if b then "True" else "False"

abbrev pub name_or_none : Option String → String
name_or_none none = "None"
name_or_none (some s) = s

module _ {F : Type 0} (show : ℕ → String) where
  -- `_build_case_summary`
  unfoldable pub build_case_summary : EvalCase F → PlatformEvalOutput F → Bool → String
  build_case_summary case output passed =
      persisted_key case
      <> " "
      <> (if passed then "passed" else "failed")
      <> ": tool="
      <> name_or_none output.tool_name
      <> ", approval="
      <> flag_text output.requires_approval
      <> ", citations="
      <> show (length output.citations)
