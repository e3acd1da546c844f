-- ===== src/Tests/Registry.antt =====
-- Searches and calls of the default tools of packages/tools/src/tools, and the witnesses of their
-- theorems.
use governed_agent_platform.Prelude.{
  ℕ, suc, ◌≡◌, refl, String, none, some, [], ◌∷◌, map, string_eq, Value, Payload,
}
use governed_agent_platform.Prelude.Dict.{insert}
use governed_agent_platform.Prelude.Exec.{Result, ok, raised}
use governed_agent_platform.Prelude.Sorting.{sort}
use governed_agent_platform.Retrieval.Ranking.{text_before}
use governed_agent_platform.Retrieval.Service
use governed_agent_platform.Tools.Schemas.{ToolError, ToolInput, ToolCall}
use governed_agent_platform.Tools.Executor.{execute}
use governed_agent_platform.Tools.SearchDocs.{
  SearchDocsFilters, SearchLibrary, support_docs, search,
}
use governed_agent_platform.Tools.SearchDocs.Results.{OnOk}
use governed_agent_platform.Tools.SearchDocs.Ranked.{AreResults, search-AreResults}
use governed_agent_platform.Tools.Registry.{Schemas, new_registry, list_tools}
use governed_agent_platform.Tools.Registry.Handlers.{get_ticket_name, Disclosed}
use governed_agent_platform.Tools.Registry.Outputs.{ShowsAll}
use governed_agent_platform.Tools.Registry.Disclosure.{registry, execute-Discloses}
use governed_agent_platform.Tests.Retrieval.{
  floats, floats-IsFloatOrder, records, library, embed, config,
}
use governed_agent_platform.Tests.Implementations.{repr, seed}
use governed_agent_platform.Tests.Tools.{clock, show}

abbrev python : SearchLibrary ℕ
python = record {
  round6 = λ a. a;
  float_value = Value.int;
  iterate = λ v. raised (ToolError.other "TypeError");
}

abbrev filters : SearchDocsFilters
filters = record { category = none; tags = [] }

search-AreResults_example :
    OnOk
      (AreResults floats python repr "tenant-a"
        (some filters)
        (Service.search floats library embed config 1 "refunds" (support_docs "tenant-a") records))
      (search floats python repr library embed config 1 records "refunds" "tenant-a" (some filters))
search-AreResults_example =
    search-AreResults floats python repr floats-IsFloatOrder library embed config 1 records
      "refunds" "tenant-a" (some filters)

-- A schema that takes the arguments as they are.
abbrev taken : Payload → Result String ToolInput
taken fields = ok (record { tenant_id = none; fields = fields })

abbrev schemas : Schemas
schemas = record {
  search_docs_input = taken;
  get_ticket_input = taken;
  get_incident_input = taken;
  get_customer_input = taken;
  draft_refund_request_input = taken;
}

abbrev call : ToolCall
call = record {
  name = "get_ticket";
  arguments = ("ticket_id", Value.str "T-1") ∷ ("tenant_id", Value.str "tenant-a") ∷ [];
  requested_by = none;
}

execute-Discloses_example :
    ShowsAll
      (Disclosed floats python repr library embed config 1 records seed schemas
        (λ v. v)
        (λ w. (1, suc w))
        get_ticket_name
        (taken call.arguments))
      (execute clock show
        (registry floats python repr library embed config 1 records seed schemas
          (λ v. v)
          (λ w. (1, suc w))
          floats-IsFloatOrder)
        call
        0)
execute-Discloses_example =
    execute-Discloses floats python repr library embed config 1 records seed schemas (λ v. v)
      (λ w. (1, suc w)) floats-IsFloatOrder clock show get_ticket_name call 0 refl

-- The tools in the order of their names.
listed :
    map
      (λ d. d.name)
      (list_tools (
        new_registry {W = ℕ} floats python repr library embed config 1 records seed schemas
          (λ v. v)
          (λ w. (1, suc w))
          none))
    ≡ "draft_refund_request" ∷ "get_customer" ∷ "get_incident" ∷ "get_ticket" ∷ "search_docs" ∷ []
unfolding list_tools new_registry insert sort text_before
listed = refl
