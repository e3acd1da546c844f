-- ===== src/Retrieval/Store.antt =====
-- packages/retrieval/src/retrieval/store.py: `InMemoryRetrievalStore`, whose state is its list of
-- records.
pub mod Upsert
pub mod Query
pub mod Pg
pub mod Postgres
use governed_agent_platform.Prelude.{
  ℕ, Bool, not, ◌&&◌, ◌==◌, string_eq, id_eq, List, [], ◌∷◌, ◌++◌, map, take, keep,
}
use governed_agent_platform.Prelude.Sorting.{sort}
use governed_agent_platform.Retrieval.Floats.{Floats, cosine_similarity, not_negative}
use governed_agent_platform.Retrieval.Types.{ChunkRecord, RetrievalFilter, RetrievedChunk}
use governed_agent_platform.Retrieval.Filters.{columns, matches_filter}
use governed_agent_platform.Retrieval.Ranking.{Key, key_before}

module _ {F : Type 0} where
  -- The columns that name a chunk are the same in both.
  unfoldable pub same_chunk : ChunkRecord F → ChunkRecord F → Bool
  same_chunk existing chunk =
      existing.tenant_id == chunk.tenant_id
      && (existing.source_type == chunk.source_type
          && (existing.source_id == chunk.source_id && existing.chunk_index == chunk.chunk_index))

  -- One round of the loop of `upsert_chunks`.
  unfoldable pub upsert_chunk : ChunkRecord F → List (ChunkRecord F) → List (ChunkRecord F)
  unfolding same_chunk
  upsert_chunk chunk records =
      keep (λ existing. not (same_chunk existing chunk)) records ++ chunk ∷ []

  unfoldable pub upsert_chunks : List (ChunkRecord F) → List (ChunkRecord F) → List (ChunkRecord F)
  unfolding upsert_chunk
  upsert_chunks [] records = records
  upsert_chunks (chunk ∷ chunks) records = upsert_chunks chunks (upsert_chunk chunk records)

module _ {F : Type 0} (f : Floats F) (query_embedding : List F) where
  -- The key of the sort.
  abbrev pub rank_key : ChunkRecord F → Key F
  rank_key r = record {
    score = f.neg (cosine_similarity f r.embedding query_embedding);
    source_id = r.source_id;
    chunk_index = r.chunk_index;
  }

  abbrev pub ranks_before : ChunkRecord F → ChunkRecord F → Bool
  ranks_before a b = key_before f (rank_key a) (rank_key b)

  abbrev pub retrieved : ChunkRecord F → RetrievedChunk F
  retrieved r = record {
    tenant_id = r.tenant_id;
    source_type = r.source_type;
    source_id = r.source_id;
    object_id = r.object_id;
    chunk_index = r.chunk_index;
    content = r.content;
    metadata = r.metadata;
    score = not_negative f (cosine_similarity f r.embedding query_embedding);
  }

  -- The records that the filter admits, ranked.
  unfoldable pub ranked : RetrievalFilter → List (ChunkRecord F) → List (ChunkRecord F)
  ranked retrieval_filter records =
      sort ranks_before (keep (λ r. matches_filter (columns r) retrieval_filter) records)

  unfoldable pub query : RetrievalFilter → List (ChunkRecord F) → List (RetrievedChunk F)
  unfolding ranked
  query retrieval_filter records =
      map retrieved (take retrieval_filter.top_k (ranked retrieval_filter records))
