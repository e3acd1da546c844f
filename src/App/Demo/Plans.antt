-- ===== src/App/Demo/Plans.antt =====
-- apps/api/app/demo.py: what the demo may plan.
use governed_agent_platform.Prelude.{
  ◌≤◌, ◌≡◌, refl, String, Bool, true, false, Option, none, some, List, [], ◌∷◌, ◌==◌, string_eq,
  if◌then◌else◌, All, length, Value, arith,
}
use governed_agent_platform.Prelude.Dict.{lookup}
use governed_agent_platform.Orchestrator.Models.{RunContext, ToolCall}
use governed_agent_platform.App.Demo.{
  TextLibrary, draft_refund_request, get_ticket, get_incident, get_customer, arguments_for,
  planned_call, lookup_of, plan_tools,
}

-- A call for the tenant of the task, which requires approval just where it drafts a refund.
abbrev pub IsGuarded : RunContext → ToolCall → Type 0
IsGuarded context t =
    (lookup "tenant_id" t.arguments ≡ some (Value.str context.task.tenant_id))
    × (t.requires_approval ≡ (t.name == "draft_refund_request"))

-- At most one call, and guarded.
abbrev pub IsPlan : RunContext → List ToolCall → Type 0
IsPlan context calls = All (IsGuarded context) calls × (length calls ≤ 1)

module _ (l : TextLibrary) (context : RunContext) where
  draft_lem : IsPlan context (planned_call context draft_refund_request true [] ∷ [])
  unfolding planned_call arguments_for lookup
  draft_lem = (((refl, refl), tt), omega arith)

  ticket_lem : (o : Option String) → IsPlan context (lookup_of l context get_ticket "ticket_id" o)
  unfolding planned_call arguments_for lookup
  ticket_lem none = (tt, omega arith)
  ticket_lem (some id) = (((refl, refl), tt), omega arith)

  incident_lem :
      (o : Option String) → IsPlan context (lookup_of l context get_incident "incident_id" o)
  unfolding planned_call arguments_for lookup
  incident_lem none = (tt, omega arith)
  incident_lem (some id) = (((refl, refl), tt), omega arith)

  customer_lem :
      (o : Option String) → IsPlan context (lookup_of l context get_customer "customer_id" o)
  unfolding planned_call arguments_for lookup
  customer_lem none = (tt, omega arith)
  customer_lem (some id) = (((refl, refl), tt), omega arith)

  -- Which of the plans the tests choose.
  choice_lem :
      (xs ys bs cs : List ToolCall) (p q r s : Bool)
      → IsPlan context xs
      → IsPlan context ys
      → IsPlan context bs
      → IsPlan context cs
      → IsPlan context (if p then xs else if q then ys else if r then bs else if s then cs else [])
  choice_lem xs ys bs cs true q r s x a b c = x
  choice_lem xs ys bs cs false true r s x a b c = a
  choice_lem xs ys bs cs false false true s x a b c = b
  choice_lem xs ys bs cs false false false true x a b c = c
  choice_lem xs ys bs cs false false false false x a b c = (tt, omega arith)

  -- The demo plans at most one tool, for the tenant of the task, and the plan requires approval just
  -- where it drafts a refund.
  pub plan_tools-IsPlan : IsPlan context (plan_tools l context)
  unfolding plan_tools
  plan_tools-IsPlan =
      let input : String = context.task.user_input in
      let ticket : Option String = l.first_group "(T-\\d+)" input in
      let incident : Option String = l.first_group "(INC-\\d+)" input in
      let customer : Option String = l.first_group "(C-\\d+)" input in
      choice_lem (planned_call context draft_refund_request true [] ∷ [])
        (lookup_of l context get_ticket "ticket_id" ticket)
        (lookup_of l context get_incident "incident_id" incident)
        (lookup_of l context get_customer "customer_id" customer) _ _ _ _ draft_lem
        (ticket_lem ticket) (incident_lem incident) (customer_lem customer)
