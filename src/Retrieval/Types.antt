-- ===== src/Retrieval/Types.antt =====
-- packages/retrieval/src/retrieval/types.py, over the type `F` of floats, and citations.py.
use governed_agent_platform.Prelude.{
  ℕ, zero, suc, String, ◌<>◌, Option, none, some, List, [], ◌∷◌, string_eq, Value, Payload, text_of,
}
use governed_agent_platform.Prelude.Dict.{lookup}

pub record ChunkRecord (F : Type 0) : Type 0 where
  pub tenant_id : String
  pub source_type : String
  pub source_id : String
  pub object_id : Option String
  pub chunk_index : ℕ
  pub content : String
  pub content_hash : String
  pub metadata : Payload
  pub embedding : List F

pub record RetrievalFilter : Type 0 where
  pub tenant_id : String
  pub source_type : Option String
  pub source_id : Option String
  pub object_id : Option String
  pub top_k : ℕ

pub record RetrievedChunk (F : Type 0) : Type 0 where
  pub tenant_id : String
  pub source_type : String
  pub source_id : String
  pub object_id : Option String
  pub chunk_index : ℕ
  pub content : String
  pub metadata : Payload
  pub score : F

pub record Citation : Type 0 where
  pub citation_id : String
  pub source_type : String
  pub source_id : String
  pub object_id : Option String
  pub title : Option String
  pub snippet : String
  pub chunk_index : ℕ

-- `text[:n]`
unfoldable pub first_chars : ℕ → String → String
first_chars zero s = ""
first_chars (suc n) String.[] = ""
first_chars (suc n) (String.◌∷◌ c s) = String.◌∷◌ c (first_chars n s)

-- `str(title) if title is not None else None`, of `metadata.get("title")`
abbrev pub title_of : (Value → String) → Option Value → Option String
title_of repr none = none
title_of repr (some Value.null) = none
title_of repr (some v) = some (text_of repr v)

module _ (show : ℕ → String) (repr : Value → String) {F : Type 0} where
  -- One citation of `package_citations`.
  unfoldable pub citation_of : RetrievedChunk F → Citation
  unfolding first_chars
  citation_of chunk = record {
    citation_id = chunk.source_id <> ":" <> show chunk.chunk_index;
    source_type = chunk.source_type;
    source_id = chunk.source_id;
    object_id = chunk.object_id;
    title = title_of repr (lookup "title" chunk.metadata);
    snippet = first_chars 180 chunk.content;
    chunk_index = chunk.chunk_index;
  }

  unfoldable pub package_citations : List (RetrievedChunk F) → List Citation
  unfolding citation_of
  package_citations [] = []
  package_citations (chunk ∷ chunks) = citation_of chunk ∷ package_citations chunks
