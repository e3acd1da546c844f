-- ===== src/Retrieval/Store/Query.antt =====
-- packages/retrieval/src/retrieval/store.py: what a query answers.
use governed_agent_platform.Prelude.{
  ℕ, ◌≤◌, ◌≡◌, refl, ◌⊎◌, subst, sym, Bool, true, false, List, [], ◌++◌, map, take, drop, keep,
  length, All, All-map, All-take, All-weaken, keep-All, length-take-le, arith, length-map,
  take-append-drop, take-drop-cases,
}
use governed_agent_platform.Prelude.Sorting.{
  sort, All-sort, sort-perm, sort-IsSorted, IsSorted, IsOrder, IsSorted-take, IsSorted-split,
}
use mathlib.Core.List.{Perm}
use governed_agent_platform.Retrieval.Floats.{Floats}
use governed_agent_platform.Retrieval.Types.{ChunkRecord, RetrievalFilter, RetrievedChunk}
use governed_agent_platform.Retrieval.Filters.{
  Columns, columns, matches_filter, IsWanted, matches_filter-IsWanted,
}
use governed_agent_platform.Retrieval.Ranking.{IsFloatOrder, key_before-IsOrder}
use governed_agent_platform.Retrieval.Store.{rank_key, ranks_before, retrieved, ranked, query}

abbrev pub result_columns : {F : Type 0} → RetrievedChunk F → Columns
result_columns c = record {
  tenant_id = c.tenant_id;
  source_type = c.source_type;
  source_id = c.source_id;
  object_id = c.object_id;
}

-- What a query takes of the sorted items that pass a test: each passes it, and there are at most `n`.
pub chosen_lem :
    {A : Type 0} (before : A → A → Bool) (test : A → Bool) (P : A → Type 0) (n : ℕ) (xs : List A)
    → ((x : A) → test x ≡ true → P x)
    → All P (take n (sort before (keep test xs)))
      × (length (take n (sort before (keep test xs))) ≤ n)
chosen_lem before test P n xs h = (
  All-take P n (sort before (keep test xs)) (
      All-sort before P (keep test xs)
        (All-weaken (λ x. test x ≡ true) P (keep test xs) h (keep-All test xs))),
  length-take-le n (sort before (keep test xs)),
)

abbrev wanted : {F : Type 0} → RetrievalFilter → List (ChunkRecord F) → List (ChunkRecord F)
wanted w records = keep (λ r. matches_filter (columns r) w) records

module _ {F : Type 0} (f : Floats F) (q : List F) where
  -- Each result of a query has the tenant of the filter and what else the filter asks for, and there
  -- are at most `top_k` of them.
  pub query-IsWanted :
      (retrieval_filter : RetrievalFilter) (records : List (ChunkRecord F))
      → All (λ x. IsWanted retrieval_filter (result_columns x)) (query f q retrieval_filter records)
        × (length (query f q retrieval_filter records) ≤ retrieval_filter.top_k)
  unfolding query ranked
  query-IsWanted w records =
      let (each, count) =
        chosen_lem (ranks_before f q) (λ r. matches_filter (columns r) w)
          (λ r. IsWanted w (columns r)) w.top_k records
          (λ r. matches_filter-IsWanted (columns r) w) in
      (
        All-map (λ x. IsWanted w (result_columns x)) (retrieved f q)
            (take w.top_k (ranked f q w records)) each,
        omega (arith, count, length-map (retrieved f q) (take w.top_k (ranked f q w records))),
      )

  -- A split of the wanted records: those chosen, best first, and the rest.
  pub record IsBest (w : RetrievalFilter) (records chosen rest : List (ChunkRecord F))
      : Type 0 where
    pub splits : Perm (chosen ++ rest) (keep (λ r. matches_filter (columns r) w) records)
    pub best : All (λ x. All (λ y. ranks_before f q y x ≡ false) rest) chosen
    pub ordered : IsSorted (ranks_before f q) chosen
    pub answers : query f q w records ≡ map (retrieved f q) chosen
    pub full : (rest ≡ []) ⊎ (length chosen ≡ w.top_k)

  -- Where the floats are ordered, with no NaN among them, the answers of a query are the best of the
  -- wanted records: these split into those chosen, in the order of their ranks, and a rest in which
  -- none ranks before a chosen one; and either the rest is empty or `top_k` were chosen.
  pub query-IsBest :
      IsFloatOrder f
      → (w : RetrievalFilter) (records : List (ChunkRecord F))
      → (chosen : List (ChunkRecord F)) × ((rest : List (ChunkRecord F)) × IsBest w records chosen
            rest)
  unfolding query ranked
  query-IsBest o w records =
      let before = ranks_before f q in
      let all : List (ChunkRecord F) = ranked f q w records in
      let sorted : IsSorted before all = sort-IsSorted before order (wanted w records) in
      (
        take w.top_k all,
        (
          drop w.top_k all,
          record {
            splits =
                subst (λ xs. Perm xs (wanted w records)) (sym (take-append-drop w.top_k all))
                  (sort-perm before (wanted w records));
            best = IsSorted-split before w.top_k all sorted;
            ordered = IsSorted-take before w.top_k all sorted;
            answers = refl;
            full = take-drop-cases w.top_k all;
          },
        ),
      )
    where
      order : IsOrder (ranks_before f q)
      order = record {
        asymm = λ x y. (key_before-IsOrder f o).asymm (rank_key f q x) (rank_key f q y);
        trans = λ x y z.
            (key_before-IsOrder f o).trans (rank_key f q x) (rank_key f q y) (rank_key f q z);
      }
