-- ===== src/Evals/Cases/Arguments.antt =====
-- packages/evals/src/evals/runner.py: the selected tool and its arguments fit.
use governed_agent_platform.Prelude.{
  ◌≡◌, refl, true, some, Option-cases, inl, inr, [], ◌∷◌, string_eq, Value, Payload, arith,
}
use governed_agent_platform.Prelude.Dict.{lookup}
use governed_agent_platform.Prelude.Exec.{Result, ok, raised}
use governed_agent_platform.Tools.Schemas.{ToolError}
use governed_agent_platform.Tools.Implementations.{item, ◌>>=◌}
use governed_agent_platform.Evals.Scoring.{EvalCase, ScoringLibrary}
use governed_agent_platform.Evals.Cases.{
  ToolName, draft_refund_request, get_incident, get_customer, get_ticket, search_docs, is_there,
  select_tool, id_arguments, tool_arguments_for_case,
}

-- Arguments for the tenant of the case; only a draft may miss some of its own.
abbrev pub Fits : {F : Type 0} → EvalCase F → ToolName → Result ToolError Payload → Type 0
Fits case draft_refund_request (raised e) = Unit
Fits case tool (raised e) = ⊥
Fits case tool (ok arguments) = lookup "tenant_id" arguments ≡ some (Value.str case.tenant_id)

-- The ids that the look-ups want are in the context.
abbrev Wants : {F : Type 0} → EvalCase F → ToolName → Type 0
Wants case get_incident = is_there (lookup "incident_id" case.context) ≡ true
Wants case get_customer = is_there (lookup "customer_id" case.context) ≡ true
Wants case get_ticket = is_there (lookup "ticket_id" case.context) ≡ true
Wants case tool = Unit

select_tool-Wants :
    {F : Type 0} (l : ScoringLibrary F) (case : EvalCase F) → Wants case (select_tool l case)
unfolding select_tool
select_tool-Wants l case = ground arith

module _ {F : Type 0} (case : EvalCase F) where
  -- The result of a draft's arguments.
  abbrev IsDraft : Result ToolError Payload → Type 0
  IsDraft r = Fits case draft_refund_request r

  drafted_lem :
      (a b c d : Result ToolError Value)
      → IsDraft (
          a >>= λ customer_id. b >>= λ ticket_id. c >>= λ amount. d >>= λ reason. ok (
            ("customer_id", customer_id)
            ∷ ("ticket_id", ticket_id)
            ∷ ("amount", amount)
            ∷ ("reason", reason)
            ∷ ("tenant_id", Value.str case.tenant_id)
            ∷ []))
  unfolding lookup
  drafted_lem (ok a) (ok b) (ok c) (ok d) = refl
  drafted_lem (ok a) (ok b) (ok c) (raised e) = tt
  drafted_lem (ok a) (ok b) (raised e) d = tt
  drafted_lem (ok a) (raised e) c d = tt
  drafted_lem (raised e) b c d = tt

  fits_lem :
      (tool : ToolName) → Wants case tool → Fits case tool (tool_arguments_for_case case tool)
  unfolding tool_arguments_for_case id_arguments item lookup
  fits_lem search_docs h = refl
  fits_lem get_ticket h = elim (Option-cases (lookup "ticket_id" case.context)) [
    | inl missing ↦ absurd (ground (arith, missing, h))
    | inr (v, there) ↦ rw there refl
  ]
  fits_lem get_incident h = elim (Option-cases (lookup "incident_id" case.context)) [
    | inl missing ↦ absurd (ground (arith, missing, h))
    | inr (v, there) ↦ rw there refl
  ]
  fits_lem get_customer h = elim (Option-cases (lookup "customer_id" case.context)) [
    | inl missing ↦ absurd (ground (arith, missing, h))
    | inr (v, there) ↦ rw there refl
  ]
  fits_lem draft_refund_request h =
      drafted_lem (item "customer_id" case.context) (item "ticket_id" case.context)
        (item "amount" case.context) (item "reason" case.context)

  -- The arguments of the tool that is selected for a case carry the case's tenant, and making them
  -- raises only for a drafted refund.
  pub select_tool-Fits :
      (l : ScoringLibrary F)
      → Fits case (select_tool l case) (tool_arguments_for_case case (select_tool l case))
  select_tool-Fits l = fits_lem (select_tool l case) (select_tool-Wants l case)
