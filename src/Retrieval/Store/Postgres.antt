-- ===== src/Retrieval/Store/Postgres.antt =====
-- packages/retrieval/src/retrieval/store.py: `PgVectorRetrievalStore` on PostgreSQL. The database runs
-- the statement, by the conditions, the embedding and the limit that the store gives it.
use governed_agent_platform.Prelude.{
  ℕ, ◌≤◌, ◌≡◌, String, Bool, true, false, Option, none, some, ◌&&◌, ◌==◌, string_eq, arith, List,
  map, length, length-map, All, All-map, All-weaken, if◌then◌else◌, Bool-cases, inl, inr, keep,
  take,
}
use governed_agent_platform.Retrieval.Floats.{Floats, not_negative}
use governed_agent_platform.Retrieval.Types.{RetrievalFilter, RetrievedChunk}
use governed_agent_platform.Prelude.Sorting.{sort}
use governed_agent_platform.Retrieval.Filters.{
  IsWanted, matches_filter, matches_filter-IsWanted, Asks, object_text,
}
use governed_agent_platform.Retrieval.Store.{ranks_before, retrieved}
use governed_agent_platform.Retrieval.Store.Pg.{
  DocumentChunk, Session, metadata_or_empty, chunk_of, row_columns, query_python,
}
use governed_agent_platform.Retrieval.Store.Query.{result_columns, chosen_lem}

-- A row of the answer, with its distance.
abbrev pub Near : Type 0 → Type 0
Near F = DocumentChunk F × F

-- What the store uses of the database: the name of its dialect, and the nearest rows that meet the
-- conditions, as many as the limit.
pub record Database (W F : Type 0) : Type 0 where
  pub dialect : Option String
  pub nearest : (DocumentChunk F → Bool) → List F → ℕ → W → List (Near F)

-- The documented effect of `where` and `limit`.
pub record IsDatabase {W F : Type 0} (d : Database W F) : Type 0 where
  pub wheres :
      (p : DocumentChunk F → Bool) (q : List F) (n : ℕ) (w : W)
      → All (λ x. p x.0 ≡ true) (d.nearest p q n w)
  pub limits :
      (p : DocumentChunk F → Bool) (q : List F) (n : ℕ) (w : W) → length (d.nearest p q n w) ≤ n

-- The condition on a column that is never null, where the filter names a text.
abbrev pub where_text : Option String → String → Bool
where_text none column = true
where_text (some wanted) column = column == wanted

-- The condition on a column that may be null: a null equals nothing.
abbrev pub where_nullable : Option String → Option String → Bool
where_nullable none column = true
where_nullable (some wanted) none = false
where_nullable (some wanted) (some s) = s == wanted

-- The conditions of the statement of `_query_postgres`.
unfoldable pub statement_where : {F : Type 0} → RetrievalFilter → DocumentChunk F → Bool
statement_where f r =
    r.tenant_id == f.tenant_id
    && (where_text f.source_type r.source_type
        && (where_text f.source_id r.source_id && where_nullable f.object_id r.object_id))

-- `dialect.name == "postgresql"`, of a session with a bind.
abbrev pub is_postgresql : Option String → Bool
is_postgresql none = false
is_postgresql (some name) = name == "postgresql"

module _ {F : Type 0} (f : Floats F) where
  abbrev pub near_chunk : Near F → RetrievedChunk F
  near_chunk (r, distance) = record {
    tenant_id = r.tenant_id;
    source_type = r.source_type;
    source_id = r.source_id;
    object_id = r.object_id;
    chunk_index = r.chunk_index;
    content = r.content;
    metadata = metadata_or_empty r.chunk_metadata;
    score = not_negative f (f.sub f.one distance);
  }

  module _ {W : Type 0} (s : Session W F) (d : Database W F) where
    unfoldable pub query_postgres : List F → RetrievalFilter → W → List (RetrievedChunk F)
    unfolding statement_where
    query_postgres query_embedding retrieval_filter w =
        map near_chunk
          (d.nearest (statement_where retrieval_filter) query_embedding retrieval_filter.top_k w)

    -- `query`
    unfoldable pub query_pg : List F → RetrievalFilter → W → List (RetrievedChunk F)
    unfolding query_postgres query_python
    query_pg query_embedding retrieval_filter w =
        if is_postgresql d.dialect
        then query_postgres query_embedding retrieval_filter w
        else query_python s f query_embedding retrieval_filter w

where_text-Asks : (o : Option String) (s : String) → where_text o s ≡ true → Asks o s
where_text-Asks none s h = tt
where_text-Asks (some wanted) s h = (string_eq.decides s wanted).0 h

where_nullable-Asks : (o s : Option String) → where_nullable o s ≡ true → Asks o (object_text s)
where_nullable-Asks none s h = tt
where_nullable-Asks (some wanted) none h = absurd (ground arith)
where_nullable-Asks (some wanted) (some s) h = (string_eq.decides s wanted).0 h

statement_where-IsWanted :
    {F : Type 0} (w : RetrievalFilter) (r : DocumentChunk F)
    → statement_where w r ≡ true
    → IsWanted w (row_columns r)
unfolding statement_where
statement_where-IsWanted w r h = (
  (string_eq.decides r.tenant_id w.tenant_id).0 (ground arith),
  (
    where_text-Asks w.source_type r.source_type (ground arith),
    (
      where_text-Asks w.source_id r.source_id (ground arith),
      where_nullable-Asks w.object_id r.object_id (ground arith),
    ),
  ),
)

-- Chunks that the filter wants, at most `top_k`.
abbrev pub AreWanted : {F : Type 0} → RetrievalFilter → List (RetrievedChunk F) → Type 0
AreWanted w chunks = All (λ x. IsWanted w (result_columns x)) chunks × (length chunks ≤ w.top_k)

module _ {F W : Type 0} (f : Floats F) (s : Session W F) (d : Database W F) (q : List F)
    (w : RetrievalFilter) where
  query_python-AreWanted : (world : W) → AreWanted w (query_python s f q w world)
  unfolding query_python
  query_python-AreWanted world =
      let before = (λ (a b : DocumentChunk F). ranks_before f q (chunk_of a) (chunk_of b)) in
      let rows : List (DocumentChunk F) =
        take w.top_k
          (sort before (keep (λ r. matches_filter (row_columns r) w) (s.scalars world))) in
      let (each, count) =
        chosen_lem before (λ r. matches_filter (row_columns r) w) (λ r. IsWanted w (row_columns r))
          w.top_k (s.scalars world) (λ r. matches_filter-IsWanted (row_columns r) w) in
      (
        All-map (λ x. IsWanted w (result_columns x)) (λ r. retrieved f q (chunk_of r)) rows each,
        omega (arith, count, length-map (λ r. retrieved f q (chunk_of r)) rows),
      )

  query_postgres-AreWanted :
      IsDatabase d → (world : W) → AreWanted w (query_postgres f s d q w world)
  unfolding query_postgres
  query_postgres-AreWanted laws world =
      let rows : List (Near F) = d.nearest (statement_where w) q w.top_k world in
      (
        All-map (λ x. IsWanted w (result_columns x)) (near_chunk f) rows
            (All-weaken (λ x. statement_where w x.0 ≡ true) (λ x. IsWanted w (row_columns x.0)) rows
              (λ x. statement_where-IsWanted w x.0)
              (laws.wheres (statement_where w) q w.top_k world)),
        omega (
          arith,
          length-map (near_chunk f) rows,
          laws.limits (statement_where w) q w.top_k world,
        ),
      )

  pub query_pg-AreWanted : IsDatabase d → (world : W) → AreWanted w (query_pg f s d q w world)
  unfolding query_pg
  query_pg-AreWanted laws world = elim (Bool-cases (is_postgresql d.dialect)) [
    | inl postgresql ↦ rw postgresql (query_postgres-AreWanted laws world)
    | inr other ↦ rw other (query_python-AreWanted world)
  ]
