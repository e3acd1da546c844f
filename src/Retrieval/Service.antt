-- ===== src/Retrieval/Service.antt =====
-- packages/retrieval/src/retrieval/service.py: `RetrievalService`. The embedding provider is a
-- parameter; the store is the one in memory.
pub mod Search
use governed_agent_platform.Prelude.{
  ℕ, String, Option, none, some, List, [], ◌∷◌, ◌++◌, map, Value, Payload,
}
use governed_agent_platform.Prelude.Exec.{Result, ok, raised}
use governed_agent_platform.Retrieval.Floats.{Floats}
use governed_agent_platform.Retrieval.Types.{
  ChunkRecord, RetrievalFilter, RetrievedChunk, Citation, package_citations,
}
use governed_agent_platform.Retrieval.Chunking.{ChunkingConfig}
use governed_agent_platform.Retrieval.Documents.{
  RetrievalError, value_error, index_error, ◌>>=◌, ChunkerLibrary, chunk_document,
}
use governed_agent_platform.Retrieval.Store.{upsert_chunks, query}

-- `embed` of the provider.
abbrev pub Embed : Type 0 → Type 0
Embed F = List String → Result RetrievalError (List (List F))

module _ {F : Type 0} where
  -- `zip(chunks, embeddings, strict=True)`, with the update of each chunk.
  unfoldable pub enrich :
      List (ChunkRecord F) → List (List F) → Result RetrievalError (List (ChunkRecord F))
  enrich [] [] = ok []
  enrich (c ∷ chunks) (e ∷ embeddings) = do
    rest ← enrich chunks embeddings
    ok (record c { embedding = e } ∷ rest)
  enrich _ _ = raised (value_error "zip() arguments have different lengths")

  -- `embeddings[0]`
  abbrev pub first_of : List (List F) → Result RetrievalError (List F)
  first_of [] = raised index_error
  first_of (e ∷ es) = ok e

module _ {F : Type 0} (f : Floats F) (l : ChunkerLibrary) (embed : Embed F)
    (config : ChunkingConfig) (fuel : ℕ) where
  -- The first loop of `ingest_documents`.
  unfoldable pub chunk_all : List Payload → Result RetrievalError (List (ChunkRecord F))
  unfolding chunk_document
  chunk_all [] = ok []
  chunk_all (document ∷ documents) = do
    chunks ← chunk_document l config fuel document
    rest ← chunk_all documents
    ok (chunks ++ rest)

  unfoldable pub enriched_of : List Payload → Result RetrievalError (List (ChunkRecord F))
  unfolding chunk_all enrich
  enriched_of documents = do
    chunks ← chunk_all documents
    embeddings ← embed (map (λ c. c.content) chunks)
    enrich chunks embeddings

  -- `ingest_documents`, with the records of the store after it. An exception leaves the store.
  abbrev pub store_all :
      Result RetrievalError (List (ChunkRecord F))
      → List (ChunkRecord F)
      → Result RetrievalError (List (ChunkRecord F)) × List (ChunkRecord F)
  store_all (ok enriched) records = (ok enriched, upsert_chunks enriched records)
  store_all (raised e) records = (raised e, records)

  unfoldable pub ingest_documents :
      List Payload
      → List (ChunkRecord F)
      → Result RetrievalError (List (ChunkRecord F)) × List (ChunkRecord F)
  unfolding enriched_of
  ingest_documents documents records = store_all (enriched_of documents) records

  unfoldable pub search :
      String
      → RetrievalFilter
      → List (ChunkRecord F)
      → Result RetrievalError (List (RetrievedChunk F) × List Citation)
  search query_text retrieval_filter records = do
    embeddings ← embed (query_text ∷ [])
    query_embedding ← first_of embeddings
    let chunks = query f query_embedding retrieval_filter records
    ok (chunks, package_citations l.show l.repr chunks)

  -- `from_seed_data`: a new store with the documents in it.
  unfoldable pub from_seed_data :
      List Payload → Result RetrievalError (List (ChunkRecord F)) × List (ChunkRecord F)
  unfolding ingest_documents
  from_seed_data documents = ingest_documents documents []
