-- ===== src/Tools/Registry/Disclosure.antt =====
-- packages/tools/src/tools: what a call of the default tools may disclose.
use governed_agent_platform.Prelude.{
  ℕ, String, ◌≡◌, refl, ap, ◌∙◌, none, List, string_eq, Value, Payload,
}
use governed_agent_platform.Prelude.Dict.{Dict, lookup, insert}
use governed_agent_platform.Prelude.Exec.{Result, ok, raised}
use governed_agent_platform.Retrieval.Floats.{Floats}
use governed_agent_platform.Retrieval.Types.{ChunkRecord}
use governed_agent_platform.Retrieval.Ranking.{IsFloatOrder}
use governed_agent_platform.Retrieval.Chunking.{ChunkingConfig}
use governed_agent_platform.Retrieval.Documents.{ChunkerLibrary}
use governed_agent_platform.Retrieval.Service.{Embed}
use governed_agent_platform.Tools.Schemas.{ToolInput, ToolCall, ToolDefinition, get}
use governed_agent_platform.Tools.Executor.{Clock, execute}
use governed_agent_platform.Tools.Implementations.{Collection}
use governed_agent_platform.Tools.SearchDocs.{SearchLibrary}
use governed_agent_platform.Tools.Registry.{
  Schemas, search_docs_tool, get_ticket_tool, get_incident_tool, get_customer_tool,
  draft_refund_request_tool, new_registry,
}
use governed_agent_platform.Tools.Registry.Handlers.{
  DefaultTool, search_docs_name, get_ticket_name, get_incident_name, get_customer_name, draft_name,
  name_of, Disclosed, run_of-Gives,
}
use governed_agent_platform.Tools.Registry.Outputs.{Gives, ShowsAll, HandlerGives, execute-ShowsAll}

module _ {F W : Type 0} (f : Floats F) (s : SearchLibrary F) (repr : Value → String)
    (l : ChunkerLibrary) (embed : Embed F) (config : ChunkingConfig) (fuel : ℕ)
    (records : List (ChunkRecord F)) (seed : Collection → List Payload) (schemas : Schemas)
    (round2 : Value → Value) (took : W → ℕ × W) where
  module _ (o : IsFloatOrder f) where
    definition_of : DefaultTool → ToolDefinition W
    definition_of search_docs_name =
        search_docs_tool f s repr l embed config fuel records seed schemas round2 took
    definition_of get_ticket_name =
        get_ticket_tool f s repr l embed config fuel records seed schemas round2 took
    definition_of get_incident_name =
        get_incident_tool f s repr l embed config fuel records seed schemas round2 took
    definition_of get_customer_name =
        get_customer_tool f s repr l embed config fuel records seed schemas round2 took
    definition_of draft_name =
        draft_refund_request_tool f s repr l embed config fuel records seed schemas round2 took

    -- The schema of a default tool.
    abbrev pub schema_of : DefaultTool → Payload → Result String ToolInput
    schema_of search_docs_name = schemas.search_docs_input
    schema_of get_ticket_name = schemas.get_ticket_input
    schema_of get_incident_name = schemas.get_incident_input
    schema_of get_customer_name = schemas.get_customer_input
    schema_of draft_name = schemas.draft_refund_request_input

    abbrev pub registry : Dict String (ToolDefinition W)
    registry = new_registry f s repr l embed config fuel records seed schemas round2 took none

    registry_lem : (tool : DefaultTool) → get (name_of tool) registry ≡ ok (definition_of tool)
    unfolding get new_registry lookup insert definition_of
    registry_lem search_docs_name = refl
    registry_lem get_ticket_name = refl
    registry_lem get_incident_name = refl
    registry_lem get_customer_name = refl
    registry_lem draft_name = refl

    handler_of-Gives :
        (tool : DefaultTool) (i : ToolInput) (v : W)
        → Gives
            (Disclosed f s repr l embed config fuel records seed schemas round2 took tool (ok i))
            ((definition_of tool).handler i v).0.result
    unfolding definition_of
    handler_of-Gives search_docs_name i v =
        run_of-Gives f s repr l embed config fuel records seed schemas round2 took o
          search_docs_name i
    handler_of-Gives get_ticket_name i v =
        run_of-Gives f s repr l embed config fuel records seed schemas round2 took o get_ticket_name
          i
    handler_of-Gives get_incident_name i v =
        run_of-Gives f s repr l embed config fuel records seed schemas round2 took o
          get_incident_name i
    handler_of-Gives get_customer_name i v =
        run_of-Gives f s repr l embed config fuel records seed schemas round2 took o
          get_customer_name i
    handler_of-Gives draft_name i v =
        run_of-Gives f s repr l embed config fuel records seed schemas round2 took o draft_name i

    parsed_lem :
        (clock : Clock W) (show : ℕ → String) (tool : DefaultTool) (r : Result String ToolInput)
        → HandlerGives clock show
            (definition_of tool)
            (Disclosed f s repr l embed config fuel records seed schemas round2 took tool r)
            r
    parsed_lem clock show tool (ok i) = λ v. handler_of-Gives tool i v
    parsed_lem clock show tool (raised e) = tt

    schema_lem :
        (tool : DefaultTool) (arguments : Payload)
        → (definition_of tool).input_schema arguments ≡ schema_of tool arguments
    unfolding definition_of
    schema_lem search_docs_name arguments = refl
    schema_lem get_ticket_name arguments = refl
    schema_lem get_incident_name arguments = refl
    schema_lem get_customer_name arguments = refl
    schema_lem draft_name arguments = refl

    -- What the output of a call of a default tool discloses, where the floats are ordered with no NaN
    -- among them: nothing for arguments that the tool's schema refuses, and nothing for a drafted
    -- refund; a single record of the seed data that is owned by the tenant of the arguments for the
    -- look-ups; and for a search, results that are for chunks of that tenant.
    pub execute-Discloses :
        (clock : Clock W) (show : ℕ → String) (tool : DefaultTool) (call : ToolCall) (w : W)
        → call.name ≡ name_of tool
        → ShowsAll
            (Disclosed f s repr l embed config fuel records seed schemas round2 took tool
              (schema_of tool call.arguments))
            (execute clock show registry call w)
    execute-Discloses clock show tool call w named =
        execute-ShowsAll clock show (definition_of tool)
          (Disclosed f s repr l embed config fuel records seed schemas round2 took tool
            (schema_of tool call.arguments))
          registry call w (ap (λ n. get n registry) named ∙ registry_lem tool)
          (rw (schema_lem tool call.arguments)
            (parsed_lem clock show tool (schema_of tool call.arguments)))
