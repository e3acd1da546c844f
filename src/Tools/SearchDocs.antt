-- ===== src/Tools/SearchDocs.antt =====
-- packages/tools/src/tools/implementations/search_docs.py: the document search over the retrieval
-- service, whose parameters and records are this module's too.
pub mod Results
pub mod Ranked
use governed_agent_platform.Prelude.{
  ℕ, String, Bool, true, false, not, ◌&&◌, ◌||◌, Option, none, some, List, [], ◌∷◌, ◌==◌, string_eq,
  if◌then◌else◌, map, length, Value, Items, nil, cons, Payload, as_dict, text_of,
}
use governed_agent_platform.Prelude.Dict.{Dict, lookup, insert}
use governed_agent_platform.Prelude.Exec.{Result, ok, raised}
use governed_agent_platform.Prelude.Sorting.{sort}
use governed_agent_platform.Retrieval.Floats.{Floats}
use governed_agent_platform.Retrieval.Types.{ChunkRecord, RetrievalFilter, RetrievedChunk, Citation}
use governed_agent_platform.Retrieval.Ranking.{text_before}
use governed_agent_platform.Retrieval.Chunking.{ChunkingConfig}
use governed_agent_platform.Retrieval.Documents.{
  RetrievalError, value_error, index_error, zero_division, no_end, ChunkerLibrary,
}
use governed_agent_platform.Retrieval.Service.{Embed}
use governed_agent_platform.Retrieval.Service
use governed_agent_platform.Tools.Schemas.{ToolError, other, ToolExecutionOutput}
use governed_agent_platform.Tools.Implementations.{is_text, ◌>>=◌}

pub record SearchDocsFilters : Type 0 where
  pub category : Option String
  pub tags : List String

-- A result, which the source keeps as a dictionary with these keys.
pub record DocResult (F : Type 0) : Type 0 where
  pub doc_id : String
  pub title : Option String
  pub category : Value
  pub tags : Value
  pub snippet : String
  pub score : F

-- What the search uses of Python: `round(x, 6)`, a float in a result, and the iteration over a value
-- that is no list.
pub record SearchLibrary (F : Type 0) : Type 0 where
  pub round6 : F → F
  pub float_value : F → Value
  pub iterate : Value → Result ToolError (List Value)

abbrev pub or_value : Value → Option Value → Value
or_value v none = v
or_value v (some w) = w

unfoldable pub values_of : Items → List Value
values_of nil = []
values_of (cons v vs) = v ∷ values_of vs

-- `text in texts`
unfoldable pub is_among : String → List String → Bool
is_among s [] = false
is_among s (t ∷ ts) = s == t || is_among s ts

-- `set(xs).issubset(texts)`
unfoldable pub are_among : List String → List String → Bool
unfolding is_among
are_among [] texts = true
are_among (s ∷ ss) texts = is_among s texts && are_among ss texts

-- `filters.category is not None and metadata.get("category") != filters.category`
abbrev pub is_other_category : Option String → Payload → Bool
is_other_category none metadata = false
is_other_category (some c) metadata = not (is_text (lookup "category" metadata) c)

-- An exception of the retrieval as one that leaves the handler.
abbrev pub retrieval_failure : RetrievalError → ToolError
retrieval_failure (RetrievalError.key_error k) = ToolError.key_error k
retrieval_failure (value_error m) = other m
retrieval_failure index_error = other "list index out of range"
retrieval_failure zero_division = other "division by zero"
retrieval_failure no_end = other "no end"

abbrev pub passed_on : {A : Type 0} → Result RetrievalError A → Result ToolError A
passed_on (ok a) = ok a
passed_on (raised e) = raised (retrieval_failure e)

abbrev pub optional_value : Option String → Value
optional_value none = Value.null
optional_value (some s) = Value.str s

-- The filter that the search gives to the retrieval service.
abbrev pub support_docs : String → RetrievalFilter
support_docs tenant_id = record {
  tenant_id = tenant_id;
  source_type = some "support_doc";
  source_id = none;
  object_id = none;
  top_k = 10;
}

unfoldable pub dict_values : {A : Type 0} → Dict String A → List A
dict_values [] = []
dict_values ((k, v) ∷ d) = v ∷ dict_values d

module _ {F : Type 0} (f : Floats F) (s : SearchLibrary F) (repr : Value → String) where
  abbrev pub iterated : Value → Result ToolError (List Value)
  iterated (Value.list vs) = ok (values_of vs)
  iterated v = s.iterate v

  -- The end of `_matches_filters`, for tags that are there.
  abbrev pub has_tags : List String → Payload → Result ToolError Bool
  has_tags [] metadata = ok true
  has_tags (t ∷ ts) metadata =
      iterated (or_value (Value.list nil) (lookup "tags" metadata)) >>= λ tags.
      ok (are_among (t ∷ ts) (map (text_of repr) tags))

  -- `_matches_filters`
  unfoldable pub matches_filters : Payload → SearchDocsFilters → Result ToolError Bool
  unfolding are_among values_of
  matches_filters metadata filters =
      if is_other_category filters.category metadata
      then ok false
      else has_tags filters.tags metadata

  -- `filters is None or _matches_filters(metadata, filters)`
  abbrev pub is_admitted : Option SearchDocsFilters → Payload → Result ToolError Bool
  is_admitted none metadata = ok true
  is_admitted (some filters) metadata = matches_filters metadata filters

  abbrev pub candidate : RetrievedChunk F → Citation → DocResult F
  candidate chunk citation = record {
    doc_id = citation.source_id;
    title = citation.title;
    category = or_value Value.null (lookup "category" chunk.metadata);
    tags = or_value (Value.list nil) (lookup "tags" chunk.metadata);
    snippet = citation.snippet;
    score = s.round6 chunk.score;
  }

  -- Whether the candidate takes the place of what is there.
  abbrev pub is_better : DocResult F → Option (DocResult F) → Bool
  is_better c none = true
  is_better c (some existing) = f.lt existing.score c.score

  unfoldable pub keep_better : DocResult F → Dict String (DocResult F) → Dict String (DocResult F)
  keep_better c found =
      if is_better c (lookup c.doc_id found) then insert c.doc_id c found else found

  -- The `for` loop of `search`, from what was found on.
  unfoldable pub collect :
      Option SearchDocsFilters
      → List (RetrievedChunk F)
      → List Citation
      → Dict String (DocResult F)
      → Result ToolError (Dict String (DocResult F))
  collect filters [] [] found = ok found
  collect filters (chunk ∷ chunks) (citation ∷ citations) found =
      is_admitted filters chunk.metadata >>= λ admitted.
      collect filters chunks citations
        (if admitted then keep_better (candidate chunk citation) found else found)
  collect filters chunks citations found = raised (other "ValueError")

  -- The order of the tuples `(-score, doc_id)`.
  unfoldable pub result_before : DocResult F → DocResult F → Bool
  result_before a b =
      if f.eq (f.neg a.score) (f.neg b.score)
      then text_before a.doc_id b.doc_id
      else f.lt (f.neg a.score) (f.neg b.score)

  -- `search` from the chunks and their citations on
  unfoldable pub merge :
      Option SearchDocsFilters
      → List (RetrievedChunk F) × List Citation
      → Result ToolError (List (DocResult F))
  unfolding collect
  merge filters (chunks, citations) =
      collect filters chunks citations [] >>= λ found. ok (sort result_before (dict_values found))

  -- A result as a value of the output.
  abbrev pub result_value : DocResult F → Value
  result_value r = as_dict (
      ("doc_id", Value.str r.doc_id)
      ∷ ("title", optional_value r.title)
      ∷ ("category", r.category)
      ∷ ("tags", r.tags)
      ∷ ("snippet", Value.str r.snippet)
      ∷ ("score", s.float_value r.score)
      ∷ [])

  unfoldable pub result_items : List (DocResult F) → Items
  result_items [] = nil
  result_items (r ∷ rs) = cons (result_value r) (result_items rs)

  abbrev pub search_output : String → List (DocResult F) → ToolExecutionOutput
  search_output query results = record {
    output = some (
        ("query", Value.str query)
        ∷ ("results", Value.list (result_items results))
        ∷ ("result_count", Value.int (length results))
        ∷ []);
    preview_payload = none;
  }

  module _ (l : ChunkerLibrary) (embed : Embed F) (config : ChunkingConfig) (fuel : ℕ)
      (records : List (ChunkRecord F)) where
    -- `RetrievalDocumentSearch.search`
    unfoldable pub search :
        String → String → Option SearchDocsFilters → Result ToolError (List (DocResult F))
    unfolding merge
    search query tenant_id filters =
        passed_on (Service.search f l embed config fuel query (support_docs tenant_id) records)
        >>= merge filters

    -- The handler of `build_search_docs_tool`
    unfoldable pub search_docs :
        String → String → Option SearchDocsFilters → Result ToolError ToolExecutionOutput
    unfolding search
    search_docs query tenant_id filters =
        search query tenant_id filters >>= λ results. ok (search_output query results)
