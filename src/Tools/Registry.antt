-- ===== src/Tools/Registry.antt =====
-- packages/tools/src/tools/registry.py: the registry, and the definitions of the five tools. The
-- schemas of pydantic, the rounding of an amount and the time that a handler takes are parameters.
pub mod Outputs
pub mod Handlers
pub mod Disclosure
use governed_agent_platform.Prelude.{
  ℕ, String, Bool, true, false, Option, none, some, List, [], ◌∷◌, ◌==◌, string_eq, if◌then◌else◌,
  Value, Items, nil, cons, Fields, Payload, map,
}
use governed_agent_platform.Prelude.Dict.{Dict, lookup, insert}
use governed_agent_platform.Prelude.Exec.{Result, ok, raised}
use governed_agent_platform.Prelude.Sorting.{sort}
use governed_agent_platform.Retrieval.Floats.{Floats}
use governed_agent_platform.Retrieval.Types.{ChunkRecord}
use governed_agent_platform.Retrieval.Ranking.{text_before}
use governed_agent_platform.Retrieval.Chunking.{ChunkingConfig}
use governed_agent_platform.Retrieval.Documents.{ChunkerLibrary}
use governed_agent_platform.Retrieval.Service.{Embed}
use governed_agent_platform.Tools.Schemas.{
  low, high, ToolError, other, ToolExecutionOutput, ToolInput, Handled, ToolDefinition,
}
use governed_agent_platform.Tools.Implementations.{
  Collection, ◌>>=◌, get_customer, get_ticket, get_incident, draft_refund_request,
}
use governed_agent_platform.Tools.SearchDocs.{
  SearchDocsFilters, SearchLibrary, search_docs, values_of,
}

module _ {W : Type 0} where
  -- `{definition.name: definition for definition in definition_list}`, from `found` on
  unfoldable pub registered :
      List (ToolDefinition W) → Dict String (ToolDefinition W) → Dict String (ToolDefinition W)
  registered [] found = found
  registered (d ∷ ds) found = registered ds (insert d.name d found)

  -- `definitions or build_default_tool_definitions()`
  abbrev pub definitions_or :
      Option (List (ToolDefinition W)) → List (ToolDefinition W) → List (ToolDefinition W)
  definitions_or none defaults = defaults
  definitions_or (some []) defaults = defaults
  definitions_or (some (d ∷ ds)) defaults = d ∷ ds

  -- `name in self._definitions`
  abbrev pub is_registered : Option (ToolDefinition W) → Bool
  is_registered none = false
  is_registered (some d) = true

  unfoldable pub has : String → Dict String (ToolDefinition W) → Bool
  has name definitions = is_registered (lookup name definitions)

  -- `list_tools`: the definitions in the order of their keys.
  abbrev pub key_precedes : String × ToolDefinition W → String × ToolDefinition W → Bool
  key_precedes (j, d) (k, e) = text_before j k

  unfoldable pub list_tools : Dict String (ToolDefinition W) → List (ToolDefinition W)
  list_tools definitions = map (λ e. e.1) (sort key_precedes definitions)

-- The schemas of the tools, from the arguments of a call to the fields of the model.
pub record Schemas : Type 0 where
  pub search_docs_input : Payload → Result String ToolInput
  pub get_ticket_input : Payload → Result String ToolInput
  pub get_incident_input : Payload → Result String ToolInput
  pub get_customer_input : Payload → Result String ToolInput
  pub draft_refund_request_input : Payload → Result String ToolInput

abbrev pub attribute : String → Option Value → Result ToolError Value
attribute key none = raised (other key)
attribute key (some v) = ok v

abbrev pub as_text : String → Option Value → Result ToolError String
as_text key (some (Value.str s)) = ok s
as_text key v = raised (other key)

-- `arguments.key`, of a model's field
unfoldable pub value_field : String → ToolInput → Result ToolError Value
value_field key input = attribute key (lookup key input.fields)

-- `arguments.key`, of a field that the model has as a text
unfoldable pub text_field : String → ToolInput → Result ToolError String
text_field key input = as_text key (lookup key input.fields)

-- The texts of a field `list[str]`.
abbrev pub texts_of : List Value → List String
texts_of [] = []
texts_of (Value.str s ∷ vs) = s ∷ texts_of vs
texts_of (v ∷ vs) = texts_of vs

-- The entry of a nested model.
unfoldable pub nested : String → Fields → Option Value
nested key Fields.end = none
nested key (Fields.field k v d) = let rest = nested key d in if k == key then some v else rest

abbrev pub category_of : Option Value → Option String
category_of (some (Value.str s)) = some s
category_of v = none

abbrev pub tags_of : Option Value → List String
tags_of (some (Value.list vs)) = texts_of (values_of vs)
tags_of v = []

-- `arguments.optional_filters`
abbrev pub filters_of : Option Value → Option SearchDocsFilters
filters_of (some (Value.dict d)) =
    some (record { category = category_of (nested "category" d); tags = tags_of (nested "tags" d) })
filters_of v = none

module _ {F W : Type 0} (f : Floats F) (s : SearchLibrary F) (repr : Value → String)
    (l : ChunkerLibrary) (embed : Embed F) (config : ChunkingConfig) (fuel : ℕ)
    (records : List (ChunkRecord F)) (seed : Collection → List Payload) (schemas : Schemas)
    (round2 : Value → Value) (took : W → ℕ × W) where
  -- A handler that reads its arguments only, and the time that it takes.
  abbrev pub handler_of :
      (ToolInput → Result ToolError ToolExecutionOutput) → ToolInput → W → Handled × W
  handler_of run input w =
      let (elapsed, w') = took w in (record { elapsed_ms = elapsed; result = run input }, w')

  unfoldable pub run_search_docs : ToolInput → Result ToolError ToolExecutionOutput
  unfolding text_field
  run_search_docs input = do
    query ← text_field "query" input
    tenant_id ← text_field "tenant_id" input
    search_docs f s repr l embed config fuel records query tenant_id
        (filters_of (lookup "optional_filters" input.fields))

  -- A look-up by the id of a field, for the tenant of the arguments.
  abbrev pub run_lookup :
      (String → String → Result ToolError ToolExecutionOutput)
      → String
      → ToolInput
      → Result ToolError ToolExecutionOutput
  run_lookup look_up key input = do
    id ← text_field key input
    tenant_id ← text_field "tenant_id" input
    look_up id tenant_id

  unfoldable pub run_draft : ToolInput → Result ToolError ToolExecutionOutput
  unfolding text_field value_field
  run_draft input = do
    customer_id ← text_field "customer_id" input
    ticket_id ← text_field "ticket_id" input
    amount ← value_field "amount" input
    reason ← text_field "reason" input
    tenant_id ← text_field "tenant_id" input
    draft_refund_request seed repr customer_id ticket_id (round2 amount) reason tenant_id

  abbrev pub search_docs_tool : ToolDefinition W
  search_docs_tool = record {
    name = "search_docs";
    description = "Search seeded local support documents for a tenant.";
    input_schema = schemas.search_docs_input;
    risk_level = low;
    requires_approval = false;
    timeout_ms = 250;
    retry_count = 0;
    handler = handler_of run_search_docs;
  }

  abbrev pub get_ticket_tool : ToolDefinition W
  get_ticket_tool = record {
    name = "get_ticket";
    description = "Load a seeded support ticket by id for a tenant.";
    input_schema = schemas.get_ticket_input;
    risk_level = low;
    requires_approval = false;
    timeout_ms = 250;
    retry_count = 0;
    handler = handler_of (run_lookup (get_ticket seed repr) "ticket_id");
  }

  abbrev pub get_incident_tool : ToolDefinition W
  get_incident_tool = record {
    name = "get_incident";
    description = "Load a seeded incident by id for a tenant.";
    input_schema = schemas.get_incident_input;
    risk_level = low;
    requires_approval = false;
    timeout_ms = 250;
    retry_count = 0;
    handler = handler_of (run_lookup (get_incident seed repr) "incident_id");
  }

  abbrev pub get_customer_tool : ToolDefinition W
  get_customer_tool = record {
    name = "get_customer";
    description = "Load a seeded customer by id for a tenant.";
    input_schema = schemas.get_customer_input;
    risk_level = low;
    requires_approval = false;
    timeout_ms = 250;
    retry_count = 0;
    handler = handler_of (run_lookup (get_customer seed repr) "customer_id");
  }

  abbrev pub draft_refund_request_tool : ToolDefinition W
  draft_refund_request_tool = record {
    name = "draft_refund_request";
    description = "Generate a preview-only refund request draft for approval review.";
    input_schema = schemas.draft_refund_request_input;
    risk_level = high;
    requires_approval = true;
    timeout_ms = 250;
    retry_count = 0;
    handler = handler_of run_draft;
  }

  unfoldable pub build_default_tool_definitions : List (ToolDefinition W)
  build_default_tool_definitions =
      search_docs_tool ∷ get_ticket_tool ∷ get_incident_tool ∷ get_customer_tool
      ∷ draft_refund_request_tool ∷ []

  -- `ToolRegistry.__init__`
  unfoldable pub new_registry : Option (List (ToolDefinition W)) → Dict String (ToolDefinition W)
  unfolding registered build_default_tool_definitions
  new_registry definitions =
      registered (definitions_or definitions build_default_tool_definitions) []
