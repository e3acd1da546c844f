-- ===== src/Tests/Implementations.antt =====
-- The tools of packages/tools/src/tools/implementations on seed data of two records, and the witnesses
-- of their theorems.
use governed_agent_platform.Prelude.{◌≡◌, refl, String, List, [], ◌∷◌, Value, Payload}
use governed_agent_platform.Prelude.Dict.{lookup}
use governed_agent_platform.Prelude.Exec.{raised}
use governed_agent_platform.Tools.Schemas.{tool_permission_error, require_tenant_match}
use governed_agent_platform.Tools.Implementations.{
  Collection, customers, tickets, incidents, find_in, get_customer, get_ticket, get_incident,
  draft_refund_request,
}
use governed_agent_platform.Tools.Implementations.Tenants.{
  Decides, tools-Decide, Drafts, draft_refund_request-Drafts,
}

abbrev pub repr : Value → String
repr v = "None"

abbrev pub customer : Payload
customer =
    ("customer_id", Value.str "C-1")
    ∷ ("tenant_id", Value.str "tenant-a")
    ∷ ("email", Value.str "c1@example.com")
    ∷ ("currency", Value.str "EUR")
    ∷ []

abbrev pub ticket : Payload
ticket =
    ("ticket_id", Value.str "T-1")
    ∷ ("tenant_id", Value.str "tenant-a")
    ∷ ("subject", Value.str "Double charge")
    ∷ []

abbrev pub seed : Collection → List Payload
seed customers = customer ∷ []
seed tickets = ticket ∷ []
seed incidents = []

-- Another tenant's ticket.
get_ticket_test :
    get_ticket seed repr "T-1" "tenant-b"
    ≡ raised (
        tool_permission_error
          "Tenant mismatch for ticket T-1: expected 'tenant-b' but found 'tenant-a'.")
unfolding get_ticket find_in require_tenant_match lookup
get_ticket_test = refl

tools-Decide_example :
    Decides seed repr customers "customer_id" "customer" "C-1" "tenant-a"
      (get_customer seed repr "C-1" "tenant-a")
    × (Decides seed repr tickets "ticket_id" "ticket" "C-1" "tenant-a"
          (get_ticket seed repr "C-1" "tenant-a")
        × Decides seed repr incidents "incident_id" "incident" "C-1" "tenant-a"
            (get_incident seed repr "C-1" "tenant-a"))
tools-Decide_example = tools-Decide seed repr "C-1" "tenant-a"

draft_refund_request-Drafts_example :
    Drafts seed repr "tenant-a"
      (find_in (seed customers) "customer_id" "C-1")
      (find_in (seed tickets) "ticket_id" "T-1")
      (draft_refund_request seed repr "C-1" "T-1" (Value.literal "49.5") "Double charge" "tenant-a")
draft_refund_request-Drafts_example =
    draft_refund_request-Drafts seed repr "C-1" "T-1" (Value.literal "49.5") "Double charge"
      "tenant-a"
