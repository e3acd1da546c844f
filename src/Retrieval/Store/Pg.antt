-- ===== src/Retrieval/Store/Pg.antt =====
-- packages/retrieval/src/retrieval/store.py: `PgVectorRetrievalStore` on a database that is not
-- PostgreSQL, where it ranks the rows itself. The session is a parameter, by what it does to the
-- rows of the table; the query for PostgreSQL is a statement that the database runs.
use governed_agent_platform.Prelude.{
  ◌≡◌, refl, sym, ap, ◌∙◌, Bool, true, false, not, Option, none, some, List, [], ◌∷◌, ◌++◌, map,
  keep, take, Payload, ℕ, String, keep-map, map-take, map-append, All, All-weaken, All-append,
  keep-append, keep_all_lem, append-nil, append_assoc,
}
use governed_agent_platform.Retrieval.Floats.{Floats}
use governed_agent_platform.Retrieval.Types.{ChunkRecord, RetrievalFilter, RetrievedChunk}
use governed_agent_platform.Retrieval.Filters.{Columns, matches_filter, columns}
use governed_agent_platform.Prelude.Sorting.{sort, sort-map}
use governed_agent_platform.Retrieval.Store.Upsert.{IsUnique, same_chunk_sym}
use governed_agent_platform.Retrieval.Store.{
  same_chunk, upsert_chunk, upsert_chunks, ranks_before, retrieved, ranked, query,
}

-- The model `DocumentChunk` of packages/db, without the columns that the store does not read.
pub record DocumentChunk (F : Type 0) : Type 0 where
  pub tenant_id : String
  pub source_type : String
  pub source_id : String
  pub object_id : Option String
  pub chunk_index : ℕ
  pub content : String
  pub content_hash : String
  pub chunk_metadata : Option Payload
  pub embedding : List F

-- What the store asks of its session: statements on the rows of the table, and objects that wait for
-- a flush, which the statements do not see (the sessions of packages/db do not flush by themselves).
pub record Session (W F : Type 0) : Type 0 where
  pub delete_where : (DocumentChunk F → Bool) → W → W
  pub add : DocumentChunk F → W → W
  pub flush : W → W
  pub scalars : W → List (DocumentChunk F)
  pub pending : W → List (DocumentChunk F)

-- The documented effect of the statements on the rows, where the flush does not fail.
pub record IsSession {W F : Type 0} (s : Session W F) : Type 0 where
  pub deletes :
      (p : DocumentChunk F → Bool) (w : W)
      → (s.scalars (s.delete_where p w) ≡ keep (λ r. not (p r)) (s.scalars w))
        × (s.pending (s.delete_where p w) ≡ s.pending w)
  pub adds :
      (r : DocumentChunk F) (w : W)
      → (s.scalars (s.add r w) ≡ s.scalars w) × (s.pending (s.add r w) ≡ s.pending w ++ r ∷ [])
  pub flushes : (w : W) → s.scalars (s.flush w) ≡ s.scalars w ++ s.pending w

-- `record.chunk_metadata or {}`
abbrev pub metadata_or_empty : Option Payload → Payload
metadata_or_empty none = []
metadata_or_empty (some m) = m

module _ {F : Type 0} where
  -- The row of a chunk.
  abbrev pub row_of : ChunkRecord F → DocumentChunk F
  row_of c = record {
    tenant_id = c.tenant_id;
    source_type = c.source_type;
    source_id = c.source_id;
    object_id = c.object_id;
    chunk_index = c.chunk_index;
    content = c.content;
    content_hash = c.content_hash;
    chunk_metadata = some c.metadata;
    embedding = c.embedding;
  }

  abbrev pub chunk_of : DocumentChunk F → ChunkRecord F
  chunk_of r = record {
    tenant_id = r.tenant_id;
    source_type = r.source_type;
    source_id = r.source_id;
    object_id = r.object_id;
    chunk_index = r.chunk_index;
    content = r.content;
    content_hash = r.content_hash;
    metadata = metadata_or_empty r.chunk_metadata;
    embedding = r.embedding;
  }

  abbrev pub row_columns : DocumentChunk F → Columns
  row_columns r = record {
    tenant_id = r.tenant_id;
    source_type = r.source_type;
    source_id = r.source_id;
    object_id = r.object_id;
  }

  -- The statement's condition for a chunk.
  abbrev pub is_row_of : ChunkRecord F → DocumentChunk F → Bool
  is_row_of chunk r = same_chunk (chunk_of r) chunk

module _ {W F : Type 0} (s : Session W F) where
  -- The `for` loop of `upsert_chunks`.
  unfoldable pub upsert_rows : List (ChunkRecord F) → W → W
  unfolding same_chunk
  upsert_rows [] w = w
  upsert_rows (chunk ∷ chunks) w =
      upsert_rows chunks (s.add (row_of chunk) (s.delete_where (is_row_of chunk) w))

  -- `upsert_chunks`
  unfoldable pub upsert_pg : List (ChunkRecord F) → W → W
  unfolding upsert_rows
  upsert_pg [] w = w
  upsert_pg (chunk ∷ chunks) w = s.flush (upsert_rows (chunk ∷ chunks) w)

  -- `_query_python`
  unfoldable pub query_python : Floats F → List F → RetrievalFilter → W → List (RetrievedChunk F)
  query_python f query_embedding retrieval_filter w =
      let filtered : List (DocumentChunk F) =
        keep (λ r. matches_filter (row_columns r) retrieval_filter) (s.scalars w) in
      let in_order : List (DocumentChunk F) =
        sort (λ a b. ranks_before f query_embedding (chunk_of a) (chunk_of b)) filtered in
      map (λ r. retrieved f query_embedding (chunk_of r)) (take retrieval_filter.top_k in_order)

  -- The rows are those of the records, and the objects that wait are those of others.
  abbrev Holds : List (ChunkRecord F) → List (ChunkRecord F) → W → Type 0
  Holds records waiting w = (s.scalars w ≡ map row_of records) × (s.pending w ≡ map row_of waiting)

  module _ (laws : IsSession s) where
    -- One round of the loop, on the rows and on the objects that wait.
    round_lem :
        (chunk : ChunkRecord F) (records waiting : List (ChunkRecord F)) (w : W)
        → Holds records waiting w
        → Holds
            (keep (λ e. not (same_chunk e chunk)) records)
            (waiting ++ chunk ∷ [])
            (s.add (row_of chunk) (s.delete_where (is_row_of chunk) w))
    round_lem chunk records waiting w (rows, objects) =
        let w' : W = s.delete_where (is_row_of chunk) w in
        (
          (laws.adds (row_of chunk) w').0
              ∙ (laws.deletes (is_row_of chunk) w).0
              ∙ ap (keep (λ r. not (is_row_of chunk r))) rows
              ∙ keep-map row_of (λ r. not (is_row_of chunk r)) records,
          (laws.adds (row_of chunk) w').1
              ∙ ap (λ rs. rs ++ row_of chunk ∷ []) ((laws.deletes (is_row_of chunk) w).1 ∙ objects)
              ∙ sym (map-append row_of waiting (chunk ∷ [])),
        )

    -- In memory, a chunk that none of the waiting ones is replaced by goes behind them.
    apart_lem :
        (chunk : ChunkRecord F) (records waiting : List (ChunkRecord F))
        → All (λ x. same_chunk x chunk ≡ false) waiting
        → keep (λ e. not (same_chunk e chunk)) records ++ (waiting ++ chunk ∷ [])
          ≡ upsert_chunk chunk (records ++ waiting)
    unfolding upsert_chunk
    apart_lem chunk records waiting h =
        let test : ChunkRecord F → Bool = λ e. not (same_chunk e chunk) in
        let kept : keep test waiting ≡ waiting = keep_all_lem test waiting (
          All-weaken (λ x. same_chunk x chunk ≡ false) (λ x. test x ≡ true) waiting
            (λ x k. ap not k) h) in
        sym (append_assoc (keep test records) waiting (chunk ∷ []))
        ∙ ap (λ xs. (keep test records ++ xs) ++ chunk ∷ []) (sym kept)
        ∙ ap (λ xs. xs ++ chunk ∷ []) (sym (keep-append test records waiting))

    -- Each of the chunks is apart from all of the waiting ones.
    abbrev AreApart : List (ChunkRecord F) → List (ChunkRecord F) → Type 0
    AreApart waiting chunks = All (λ c. All (λ x. same_chunk x c ≡ false) waiting) chunks

    next_apart :
        (chunk : ChunkRecord F) (waiting chunks : List (ChunkRecord F))
        → AreApart waiting chunks
        → All (λ x. same_chunk x chunk ≡ false) chunks
        → AreApart (waiting ++ chunk ∷ []) chunks
    next_apart chunk waiting [] h k = tt
    next_apart chunk waiting (c ∷ cs) h k = (
      All-append (λ x. same_chunk x c ≡ false) waiting (chunk ∷ []) h.0
          (same_chunk_sym chunk c ∙ k.0, tt),
      next_apart chunk waiting cs h.1 k.1,
    )

    upsert_rows_lem :
        (chunks records waiting : List (ChunkRecord F)) (w : W)
        → Holds records waiting w
        → AreApart waiting chunks
        → IsUnique chunks
        → s.scalars (upsert_rows chunks w) ++ s.pending (upsert_rows chunks w)
          ≡ map row_of (upsert_chunks chunks (records ++ waiting))
    unfolding upsert_rows upsert_chunks
    upsert_rows_lem [] records waiting w (rows, objects) apart unique =
        ap (λ rs. rs ++ s.pending w) rows
        ∙ ap (◌++◌ (map row_of records)) objects
        ∙ sym (map-append row_of records waiting)
    upsert_rows_lem (chunk ∷ chunks) records waiting w holds apart unique =
        upsert_rows_lem chunks (keep (λ e. not (same_chunk e chunk)) records)
          (waiting ++ chunk ∷ []) (s.add (row_of chunk) (s.delete_where (is_row_of chunk) w))
          (round_lem chunk records waiting w holds)
          (next_apart chunk waiting chunks apart.1 unique.0) unique.1
        ∙ ap (λ rs. map row_of (upsert_chunks chunks rs)) (apart_lem chunk records waiting apart.0)

    -- The store over a session refines the store in memory: where the rows of the table are those of
    -- the records and no object waits for a flush, they are so after an upsert of the same chunks in
    -- both, if no two of the chunks have one key.
    pub upsert_pg-refines :
        (chunks records : List (ChunkRecord F)) (w : W)
        → s.scalars w ≡ map row_of records
        → s.pending w ≡ []
        → IsUnique chunks
        → s.scalars (upsert_pg chunks w) ≡ map row_of (upsert_chunks chunks records)
    unfolding upsert_pg upsert_chunks
    upsert_pg-refines [] records w h none_waits unique = h
    upsert_pg-refines (chunk ∷ chunks) records w h none_waits unique =
        laws.flushes (upsert_rows (chunk ∷ chunks) w)
        ∙ upsert_rows_lem (chunk ∷ chunks) records [] w (h, none_waits)
            (none_apart (chunk ∷ chunks)) unique
        ∙ ap (λ rs. map row_of (upsert_chunks (chunk ∷ chunks) rs)) (append-nil records)
      where
        none_apart : (cs : List (ChunkRecord F)) → AreApart [] cs
        none_apart [] = tt
        none_apart (c ∷ cs) = (tt, none_apart cs)

    map-map :
        {A B C : Type 0} (g : B → C) (f : A → B) (xs : List A)
        → map g (map f xs) ≡ map (λ x. g (f x)) xs
    map-map g f [] = refl
    map-map g f (x ∷ xs) = ap (◌∷◌ (g (f x))) (map-map g f xs)

    -- Where the rows of the table are those of the records, both stores answer a query alike.
    pub query_python-eq-query :
        (f : Floats F) (q : List F) (w : RetrievalFilter) (records : List (ChunkRecord F))
        (world : W)
        → s.scalars world ≡ map row_of records
        → query_python f q w world ≡ query f q w records
    unfolding query_python query ranked
    query_python-eq-query f q w records world h =
        let wanted : List (ChunkRecord F) = keep (λ r. matches_filter (columns r) w) records in
        let before = (λ (a b : DocumentChunk F). ranks_before f q (chunk_of a) (chunk_of b)) in
        ap (λ rows. map (λ r. retrieved f q (chunk_of r)) (take w.top_k (sort before rows)))
          (ap (keep (λ r. matches_filter (row_columns r) w)) h
            ∙ keep-map row_of (λ r. matches_filter (row_columns r) w) records)
        ∙ ap (λ rows. map (λ r. retrieved f q (chunk_of r)) (take w.top_k rows))
            (sort-map row_of before wanted)
        ∙ ap (map (λ r. retrieved f q (chunk_of r)))
            (map-take row_of w.top_k (sort (ranks_before f q) wanted))
        ∙ map-map (λ r. retrieved f q (chunk_of r)) row_of
            (take w.top_k (sort (ranks_before f q) wanted))
