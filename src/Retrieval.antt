-- ===== src/Retrieval.antt =====
-- packages/retrieval/src/retrieval: chunks of documents, their store and the search for them.
pub mod Types
pub mod Floats
pub mod Filters
pub mod Ranking
pub mod Store
pub mod Chunking
pub mod Documents
pub mod Service
pub mod Embedding
