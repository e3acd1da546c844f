-- ===== src/Retrieval/Service/Search.antt =====
-- packages/retrieval/src/retrieval/service.py: what the seeded service stores, and what a search of
-- it shows.
use governed_agent_platform.Prelude.{
  ℕ, ◌≤◌, ◌≡◌, refl, String, List, [], ◌∷◌, All, All-weaken, Payload, length, Value, string_eq,
}
use governed_agent_platform.Prelude.Exec.{Result, ok, raised}
use governed_agent_platform.Retrieval.Floats.{Floats}
use governed_agent_platform.Retrieval.Types.{
  ChunkRecord, RetrievalFilter, RetrievedChunk, Citation, citation_of, package_citations,
}
use governed_agent_platform.Retrieval.Filters.{IsWanted, OfObject, Asks-OfObject}
use governed_agent_platform.Retrieval.Chunking.{ChunkingConfig}
use governed_agent_platform.Retrieval.Documents.{RetrievalError, ChunkerLibrary, ◌>>=◌}
use governed_agent_platform.Retrieval.Store.{query}
use governed_agent_platform.Retrieval.Store.Query.{result_columns, query-IsWanted}
use governed_agent_platform.Retrieval.Store.Upsert.{IsUnique, upsert_chunks-IsUnique}
use governed_agent_platform.Retrieval.Service.{
  Embed, first_of, enriched_of, ingest_documents, store_all, search, from_seed_data,
}

-- A citation names its chunk: the same source, object and index.
abbrev pub Cites : {F : Type 0} → RetrievedChunk F → Citation → Type 0
Cites chunk c =
    (c.source_type ≡ chunk.source_type)
    × ((c.source_id ≡ chunk.source_id)
        × ((c.object_id ≡ chunk.object_id) × (c.chunk_index ≡ chunk.chunk_index)))

-- One citation for each chunk, in the same order.
abbrev pub AllCited : {F : Type 0} → List (RetrievedChunk F) → List Citation → Type 0
AllCited [] [] = Unit
AllCited (x ∷ xs) (c ∷ cs) = Cites x c × AllCited xs cs
AllCited xs cs = ⊥

package_citations-AllCited :
    (show : ℕ → String) (repr : Value → String) {F : Type 0} (xs : List (RetrievedChunk F))
    → AllCited xs (package_citations show repr xs)
unfolding package_citations citation_of
package_citations-AllCited show repr [] = tt
package_citations-AllCited show repr (x ∷ xs) =
    ((refl, (refl, (refl, refl))), package_citations-AllCited show repr xs)

-- A chunk that a filter wants, with its own object.
abbrev pub IsShown : {F : Type 0} → RetrievalFilter → RetrievedChunk F → Type 0
IsShown w x = IsWanted w (result_columns x) × OfObject w.object_id x.object_id

-- What a search may show: chunks that the filter wants, at most `top_k`, each with its citation.
abbrev pub Shows :
    {F : Type 0}
    → RetrievalFilter
    → Result RetrievalError (List (RetrievedChunk F) × List Citation)
    → Type 0
Shows w (raised e) = Unit
Shows w (ok (chunks, citations)) =
    All (IsShown w) chunks × ((length chunks ≤ w.top_k) × AllCited chunks citations)

module _ {F : Type 0} (f : Floats F) (l : ChunkerLibrary) (embed : Embed F)
    (config : ChunkingConfig) (fuel : ℕ) where
  searched :
      (q : Result RetrievalError (List F)) (w : RetrievalFilter) (records : List (ChunkRecord F))
      → Shows w (
          q >>= λ e.
          ok (query f e w records, package_citations l.show l.repr (query f e w records)))
  searched (raised e) w records = tt
  searched (ok e) w records = (
    All-weaken (λ x. IsWanted w (result_columns x)) (IsShown w) (query f e w records)
        (λ x h. (h, Asks-OfObject w.object_id x.object_id h.1.1.1))
        (query-IsWanted f e w records).0,
    (
      (query-IsWanted f e w records).1,
      package_citations-AllCited l.show l.repr (query f e w records),
    ),
  )

  -- A search shows chunks of the filter's tenant only, of its source type and source where it names
  -- them, and of the object that it names, where the text "None" names the chunks without an object
  -- too; at most `top_k` of them, and one citation for each chunk, in the same order and with the
  -- chunk's source, object and index.
  pub search-Shows :
      (text : String) (w : RetrievalFilter) (records : List (ChunkRecord F))
      → Shows w (search f l embed config fuel text w records)
  unfolding search
  search-Shows text w records = go (embed (text ∷ []))
    where
      go :
          (r : Result RetrievalError (List (List F)))
          → Shows w (
              r >>= λ embeddings. first_of embeddings >>= λ e.
              ok (query f e w records, package_citations l.show l.repr (query f e w records)))
      go (raised e) = tt
      go (ok embeddings) = searched (first_of embeddings) w records

  -- A seeded store has no two chunks of one tenant, source type and source with one index.
  pub from_seed_data-IsUnique :
      (documents : List Payload) → IsUnique (from_seed_data f l embed config fuel documents).1
  unfolding from_seed_data ingest_documents
  from_seed_data-IsUnique documents = go (enriched_of f l embed config fuel documents)
    where
      go :
          (r : Result RetrievalError (List (ChunkRecord F)))
          → IsUnique (store_all f l embed config fuel r []).1
      go (ok enriched) = upsert_chunks-IsUnique enriched [] tt
      go (raised e) = tt
