-- ===== src/Retrieval/Embedding/Answers.antt =====
-- packages/retrieval/src/retrieval/service.py with the provider of embeddings.py: a search answers.
use governed_agent_platform.Prelude.{ℕ, suc, String, List, [], ◌∷◌, arith}
use governed_agent_platform.Prelude.Exec.{Result, ok, raised}
use governed_agent_platform.Retrieval.Floats.{Floats}
use governed_agent_platform.Retrieval.Types.{
  ChunkRecord, RetrievalFilter, RetrievedChunk, Citation, package_citations,
}
use governed_agent_platform.Retrieval.Chunking.{ChunkingConfig}
use governed_agent_platform.Retrieval.Documents.{RetrievalError, ChunkerLibrary, ◌>>=◌}
use governed_agent_platform.Retrieval.Store.{query}
use governed_agent_platform.Retrieval.Service.{first_of, search}
use governed_agent_platform.Retrieval.Service.Search.{Shows, search-Shows}
use governed_agent_platform.Retrieval.Embedding.{Hashing, AreVectors, embed, embed-AreVectors}

abbrev pub Returns : {A : Type 0} → Result RetrievalError A → Type 0
Returns (ok x) = Unit
Returns (raised e) = ⊥

module _ {F : Type 0} (f : Floats F) (l : ChunkerLibrary) (h : Hashing) (config : ChunkingConfig)
    (fuel n : ℕ) where
  -- With the provider of a dimension above zero a search never raises, and it shows what its filter
  -- asks for, each chunk with its citation.
  pub search-Returns :
      (text : String) (w : RetrievalFilter) (records : List (ChunkRecord F))
      → Returns (search f l (embed f h (suc n)) config fuel text w records)
        × Shows w (search f l (embed f h (suc n)) config fuel text w records)
  unfolding search
  search-Returns text w records = (
    go (embed f h (suc n) (text ∷ [])) (embed-AreVectors f h n (text ∷ [])),
    search-Shows f l (embed f h (suc n)) config fuel text w records,
  )
    where
      go :
          (r : Result RetrievalError (List (List F)))
          → AreVectors (suc n) (text ∷ []) r
          → Returns {A = List (RetrievedChunk F) × List Citation} (
              r >>= λ embeddings. first_of embeddings >>= λ e.
              ok (query f e w records, package_citations l.show l.repr (query f e w records)))
      go (raised e) p = p
      go (ok []) p = absurd (ground (arith, p.0))
      go (ok (v ∷ vs)) p = tt
