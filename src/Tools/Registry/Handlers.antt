-- ===== src/Tools/Registry/Handlers.antt =====
-- packages/tools/src/tools: what the handlers of the default tools may disclose.
use governed_agent_platform.Prelude.{
  ℕ, String, ◌≡◌, refl, Option, none, some, List, [], ◌∷◌, string_eq, Value, Payload, as_dict,
  arith, subst, sym,
}
use governed_agent_platform.Prelude.Dict.{lookup}
use governed_agent_platform.Prelude.Exec.{Result, ok, raised}
use governed_agent_platform.Retrieval.Floats.{Floats}
use governed_agent_platform.Retrieval.Types.{ChunkRecord}
use governed_agent_platform.Retrieval.Ranking.{IsFloatOrder}
use governed_agent_platform.Retrieval.Chunking.{ChunkingConfig}
use governed_agent_platform.Retrieval.Documents.{ChunkerLibrary}
use governed_agent_platform.Retrieval.Service.{Embed}
use governed_agent_platform.Retrieval.Service
use governed_agent_platform.Tools.Schemas.{ToolError, ToolExecutionOutput, ToolInput}
use governed_agent_platform.Tools.Implementations.{
  Collection, customers, tickets, incidents, get_customer, get_ticket, get_incident, ◌>>=◌,
}
use governed_agent_platform.Tools.Implementations.Tenants.{
  IsOwned, IsAmong, Answers, Drafts, tools-Decide, draft_refund_request-Drafts,
}
use governed_agent_platform.Tools.SearchDocs.{
  SearchDocsFilters, DocResult, SearchLibrary, search_output, support_docs, search, search_docs,
}
use governed_agent_platform.Tools.SearchDocs.Results.{OnOk}
use governed_agent_platform.Tools.SearchDocs.Ranked.{AreResults, search-AreResults}
use governed_agent_platform.Tools.Registry.{
  Schemas, as_text, text_field, value_field, filters_of, run_search_docs, run_lookup, run_draft,
}
use governed_agent_platform.Tools.Registry.Outputs.{IfSome, Gives, weaken_lem}

-- The default tools.
pub data DefaultTool : Type 0 where
  search_docs_name get_ticket_name get_incident_name get_customer_name draft_name : DefaultTool

abbrev pub name_of : DefaultTool → String
name_of search_docs_name = "search_docs"
name_of get_ticket_name = "get_ticket"
name_of get_incident_name = "get_incident"
name_of get_customer_name = "get_customer"
name_of draft_name = "draft_refund_request"

Gives->>= :
    {A : Type 0} (P : Payload → Type 0) (r : Result ToolError A)
    (g : A → Result ToolError ToolExecutionOutput)
    → ((a : A) → r ≡ ok a → Gives P (g a))
    → Gives P (r >>= g)
Gives->>= P (ok a) g k = k a refl
Gives->>= P (raised e) g k = tt

text_lem :
    (key : String) (o : Option Value) (t : String) → as_text key o ≡ ok t → o ≡ some (Value.str t)
text_lem key none t h = ground arith
text_lem key (some (Value.str s)) t h = ground arith
text_lem key (some _) t h = ground arith

text_field_lem :
    (key : String) (i : ToolInput) (t : String)
    → text_field key i ≡ ok t
    → lookup key i.fields ≡ some (Value.str t)
unfolding text_field
text_field_lem key i t h = text_lem key (lookup key i.fields) t h

module _ {F W : Type 0} (f : Floats F) (s : SearchLibrary F) (repr : Value → String)
    (l : ChunkerLibrary) (embed : Embed F) (config : ChunkingConfig) (fuel : ℕ)
    (records : List (ChunkRecord F)) (seed : Collection → List Payload) (schemas : Schemas)
    (round2 : Value → Value) (took : W → ℕ × W) where
  -- A record of the seed data that the tenant owns, under its name.
  abbrev pub OwnedRecord : Collection → String → String → Payload → Type 0
  OwnedRecord c name t o =
      (r : Payload) × (IsAmong r (seed c)
        × (IsOwned repr t (lookup "tenant_id" r) × (o ≡ (name, as_dict r) ∷ [])))

  -- The results of a search for the tenant.
  abbrev pub TenantResults : Option SearchDocsFilters → String → Payload → Type 0
  TenantResults filters t o =
      (query : String) × ((docs : List (DocResult F)) × (AreResults f s repr t filters
            (Service.search f l embed config fuel query (support_docs t) records) docs
          × (some o ≡ (search_output f s repr query docs).output)))

  -- What the output of a tool may be, for the tenant of the arguments.
  abbrev pub DisclosedTo : DefaultTool → ToolInput → String → Payload → Type 0
  DisclosedTo search_docs_name i t o =
      TenantResults (filters_of (lookup "optional_filters" i.fields)) t o
  DisclosedTo get_ticket_name i t o = OwnedRecord tickets "ticket" t o
  DisclosedTo get_incident_name i t o = OwnedRecord incidents "incident" t o
  DisclosedTo get_customer_name i t o = OwnedRecord customers "customer" t o
  DisclosedTo draft_name i t o = ⊥

  abbrev pub Disclosed : DefaultTool → Result String ToolInput → Payload → Type 0
  Disclosed tool (raised e) o = ⊥
  Disclosed tool (ok i) o =
      (t : String) × ((lookup "tenant_id" i.fields ≡ some (Value.str t)) × DisclosedTo tool i t o)

  answers_lem :
      (c : Collection) (key name id t : String) (o : Option Payload)
      (q : Result ToolError ToolExecutionOutput)
      → Answers repr (seed c) key name id t o q
      → Gives (OwnedRecord c name t) q
  answers_lem c key name id t none (ok o) h = absurd h
  answers_lem c key name id t none (raised e) h = tt
  answers_lem c key name id t (some r) (ok o) h =
      subst (λ x. Gives (OwnedRecord c name t) (ok x)) (sym h.1.0) (r, (h.1.1.0, (h.0, refl)))
  answers_lem c key name id t (some r) (raised e) h = tt

  -- The handlers of the look-ups.
  lookup_lem :
      (tool : DefaultTool) (key : String) (i : ToolInput)
      (look_up : String → String → Result ToolError ToolExecutionOutput)
      → ((id t : String) → Gives (DisclosedTo tool i t) (look_up id t))
      → Gives
          (Disclosed tool (ok i))
          (run_lookup f s repr l embed config fuel records seed schemas round2 took look_up key i)
  lookup_lem tool key i look_up h = Gives->>= (Disclosed tool (ok i)) (text_field key i) _ λ id _.
      Gives->>= (Disclosed tool (ok i)) (text_field "tenant_id" i) _ λ t at.
        weaken_lem _ _ (look_up id t) (λ o d. (t, (text_field_lem "tenant_id" i t at, d))) (h id t)

  lookups-Give :
      (id t : String)
      → Gives (OwnedRecord customers "customer" t) (get_customer seed repr id t)
        × (Gives (OwnedRecord tickets "ticket" t) (get_ticket seed repr id t)
            × Gives (OwnedRecord incidents "incident" t) (get_incident seed repr id t))
  lookups-Give id t =
      let (a, (b, c)) = tools-Decide seed repr id t in
      (
        answers_lem customers "customer_id" "customer" id t _ (get_customer seed repr id t) a,
        (
          answers_lem tickets "ticket_id" "ticket" id t _ (get_ticket seed repr id t) b,
          answers_lem incidents "incident_id" "incident" id t _ (get_incident seed repr id t) c,
        ),
      )

  drafts_lem :
      (t : String) (a b : Option Payload) (q : Result ToolError ToolExecutionOutput)
      → Drafts seed repr t a b q
      → Gives (λ o. ⊥) q
  drafts_lem t (some a) (some b) (ok x) h = subst (IfSome (λ o. ⊥)) (sym h.1.1.0) tt
  drafts_lem t (some a) none (ok x) h = absurd h
  drafts_lem t none b (ok x) h = absurd h
  drafts_lem t a b (raised e) h = tt

  module _ (o : IsFloatOrder f) where
    search_docs-Gives :
        (query t : String) (filters : Option SearchDocsFilters)
        → Gives
            (TenantResults filters t)
            (search_docs f s repr l embed config fuel records query t filters)
    unfolding search_docs
    search_docs-Gives query t filters =
        listed (search f s repr l embed config fuel records query t filters)
          (search-AreResults f s repr o l embed config fuel records query t filters)
      where
        listed :
            (r : Result ToolError (List (DocResult F)))
            → OnOk
                (AreResults f s repr t filters
                  (Service.search f l embed config fuel query (support_docs t) records))
                r
            → Gives
                (TenantResults filters t)
                (r >>= λ results. ok (search_output f s repr query results))
        listed (ok docs) h = (query, (docs, (h, refl)))
        listed (raised e) h = tt

    -- The handler of a default tool.
    abbrev run_of : DefaultTool → ToolInput → Result ToolError ToolExecutionOutput
    run_of search_docs_name =
        run_search_docs f s repr l embed config fuel records seed schemas round2 took
    run_of get_ticket_name =
        run_lookup f s repr l embed config fuel records seed schemas round2 took
          (get_ticket seed repr) "ticket_id"
    run_of get_incident_name =
        run_lookup f s repr l embed config fuel records seed schemas round2 took
          (get_incident seed repr) "incident_id"
    run_of get_customer_name =
        run_lookup f s repr l embed config fuel records seed schemas round2 took
          (get_customer seed repr) "customer_id"
    run_of draft_name = run_draft f s repr l embed config fuel records seed schemas round2 took

    pub run_of-Gives :
        (tool : DefaultTool) (i : ToolInput) → Gives (Disclosed tool (ok i)) (run_of tool i)
    unfolding run_search_docs run_draft
    run_of-Gives search_docs_name i =
        Gives->>= (Disclosed search_docs_name (ok i)) (text_field "query" i) _ λ query _.
          Gives->>= (Disclosed search_docs_name (ok i)) (text_field "tenant_id" i) _ λ t at.
            weaken_lem (TenantResults (filters_of (lookup "optional_filters" i.fields)) t)
              (Disclosed search_docs_name (ok i)) _
              (λ d k. (t, (text_field_lem "tenant_id" i t at, k)))
              (search_docs-Gives query t (filters_of (lookup "optional_filters" i.fields)))
    run_of-Gives get_ticket_name i =
        lookup_lem get_ticket_name "ticket_id" i (get_ticket seed repr)
          (λ id t. (lookups-Give id t).1.0)
    run_of-Gives get_incident_name i =
        lookup_lem get_incident_name "incident_id" i (get_incident seed repr)
          (λ id t. (lookups-Give id t).1.1)
    run_of-Gives get_customer_name i =
        lookup_lem get_customer_name "customer_id" i (get_customer seed repr)
          (λ id t. (lookups-Give id t).0)
    run_of-Gives draft_name i = Gives->>= Absent (text_field "customer_id" i) _ λ customer_id _.
        Gives->>= Absent (text_field "ticket_id" i) _ λ ticket_id _.
          Gives->>= Absent (value_field "amount" i) _ λ amount _.
            Gives->>= Absent (text_field "reason" i) _ λ reason _.
              Gives->>= Absent (text_field "tenant_id" i) _ λ t _.
                weaken_lem _ _ _ (λ d k. absurd k)
                  (drafts_lem t _ _ _ (
                    draft_refund_request-Drafts seed repr customer_id ticket_id (round2 amount)
                      reason t))
      where
        Absent : Payload → Type 0
        Absent = Disclosed draft_name (ok i)
