-- ===== src/Tools/SearchDocs/Ranked.antt =====
-- packages/tools/src/tools/implementations/search_docs.py: the list of the results that a search
-- answers.
use governed_agent_platform.Prelude.{
  ℕ, String, ◌≡◌, refl, sym, ap, ◌∙◌, inl, inr, Bool, true, false, Bool-cases, Option, none, some,
  some-injective, List, [], ◌∷◌, ◌==◌, string_eq, All, Any, Pairwise, All-weaken, Value, arith,
  subst,
}
use governed_agent_platform.Prelude.Dict.{Dict, lookup}
use governed_agent_platform.Prelude.Exec.{Result, ok, raised}
use governed_agent_platform.Prelude.Sorting.{
  sort, IsSorted, IsOrder, sort-IsSorted, All-sort, sort-Pairwise, sort-Any,
}
use governed_agent_platform.Retrieval.Floats.{Floats}
use governed_agent_platform.Retrieval.Types.{ChunkRecord, RetrievalFilter, RetrievedChunk, Citation}
use governed_agent_platform.Retrieval.Ranking.{
  Key, IsFloatOrder, key_before, key_before-IsOrder, text_before, text_before_self,
}
use governed_agent_platform.Retrieval.Chunking.{ChunkingConfig}
use governed_agent_platform.Retrieval.Documents.{RetrievalError, ChunkerLibrary}
use governed_agent_platform.Retrieval.Service.{Embed}
use governed_agent_platform.Retrieval.Service
use governed_agent_platform.Retrieval.Service.Search.{AllCited, Shows, search-Shows}
use governed_agent_platform.Tools.Schemas.{ToolError}
use governed_agent_platform.Tools.Implementations.{◌>>=◌}
use governed_agent_platform.Tools.SearchDocs.{
  SearchDocsFilters, DocResult, SearchLibrary, is_admitted, collect, result_before, merge,
  passed_on, dict_values, support_docs, search,
}
use governed_agent_platform.Tools.SearchDocs.Results.{
  OnOk, OnOk->>=, IfAdmitted, Keyed, Candidates, Entries, AllCovered, collect-Entries,
  collect-AllCovered,
}

module _ {F : Type 0} (f : Floats F) (s : SearchLibrary F) (repr : Value → String) where
  key_of : DocResult F → Key F
  key_of d = record { score = f.neg d.score; source_id = d.doc_id; chunk_index = 0 }

  result_before-eq-key_before :
      (a b : DocResult F) → result_before f s repr a b ≡ key_before f (key_of a) (key_of b)
  unfolding result_before key_before key_of
  result_before-eq-key_before a b =
      let same : (a.doc_id == b.doc_id) ≡ true → text_before a.doc_id b.doc_id ≡ false = λ h.
        subst (λ t. text_before a.doc_id t ≡ false) ((string_eq.decides a.doc_id b.doc_id).0 h)
          (text_before_self a.doc_id) in
      ground (arith, same)

  result_before-IsOrder : IsFloatOrder f → IsOrder (result_before f s repr)
  result_before-IsOrder o =
      let k = key_before-IsOrder f o in
      record {
        asymm = λ x y h.
            result_before-eq-key_before y x
            ∙ k.asymm (key_of x) (key_of y) (sym (result_before-eq-key_before x y) ∙ h);
        trans = λ x y z h i.
            result_before-eq-key_before z x
            ∙ k.trans (key_of x) (key_of y) (key_of z) (sym (result_before-eq-key_before y x) ∙ h)
                (sym (result_before-eq-key_before z y) ∙ i);
      }

  -- Results of two documents.
  abbrev pub Differ : DocResult F → DocResult F → Type 0
  Differ a b = (a.doc_id == b.doc_id) ≡ false

  Differs_back : (a b : DocResult F) → Differ a b → Differ b a
  Differs_back a b h =
      ground (arith, string_eq.decides a.doc_id b.doc_id, string_eq.decides b.doc_id a.doc_id)

  values-All :
      (P : DocResult F → Type 0) (d : Dict String (DocResult F))
      → All (Keyed f s repr P) d
      → All P (dict_values d)
  unfolding dict_values
  values-All P [] h = tt
  values-All P ((k, v) ∷ d) h = (h.0.1, values-All P d h.1)

  absent_lem :
      (P : DocResult F → Type 0) (v : DocResult F) (d : Dict String (DocResult F))
      → lookup v.doc_id d ≡ none
      → All (Keyed f s repr P) d
      → All (Differ v) (dict_values d)
  unfolding dict_values lookup
  absent_lem P v [] h k = tt
  absent_lem P v ((j, w) ∷ d) h k = (
    ground (arith, string_eq.decides v.doc_id w.doc_id, string_eq.decides j v.doc_id),
    absent_lem P v d (ground arith) k.1,
  )

  values-Pairwise :
      (P : DocResult F → Type 0) (d : Dict String (DocResult F))
      → Entries f s repr P d
      → Pairwise Differ (dict_values d)
  unfolding dict_values
  values-Pairwise P [] h = tt
  values-Pairwise P ((k, v) ∷ d) h = (
    absent_lem P v d (subst (λ j. lookup j d ≡ none) (sym h.1.0.0) h.0.0) h.1.1,
    values-Pairwise P d (h.0.1, h.1.1),
  )

  found_lem :
      (k : String) (e : DocResult F) (d : Dict String (DocResult F)) (P : DocResult F → Type 0)
      → lookup k d ≡ some e
      → P e
      → Any P (dict_values d)
  unfolding dict_values lookup
  found_lem k e [] P h p = ground arith
  found_lem k e ((j, w) ∷ d) P h p = elim (Bool-cases (j == k)) [
    | inl same ↦
        let at : some w ≡ some e = ground arith in inl (subst P (sym (some-injective w e at)) p)
    | inr differs ↦ inr (found_lem k e d P (ground arith) p)
  ]

  keyed_lem :
      (k : String) (e : DocResult F) (d : Dict String (DocResult F))
      → All (Keyed f s repr (λ r. Unit)) d
      → lookup k d ≡ some e
      → e.doc_id ≡ k
  unfolding lookup
  keyed_lem k e [] h at = ground arith
  keyed_lem k e ((j, w) ∷ d) h at = elim (Bool-cases (j == k)) [
    | inl same ↦
        let found : some w ≡ some e = ground arith in
        ap (λ r. r.doc_id) (sym (some-injective w e found))
        ∙ (h.0.0 ∙ (string_eq.decides j k).0 same)
    | inr differs ↦ keyed_lem k e d h.1 (ground arith)
  ]

  -- A result with the document and the score of a chunk.
  abbrev pub ShowsChunk : String → DocResult F → RetrievedChunk F → Type 0
  ShowsChunk tenant_id d x =
      (d.doc_id ≡ x.source_id) × ((d.score ≡ s.round6 x.score) × (x.tenant_id ≡ tenant_id))

  -- A result for the document of a chunk, with no worse score.
  abbrev pub AnswersChunk : List (DocResult F) → RetrievedChunk F → Type 0
  AnswersChunk docs x =
      Any (λ d. (d.doc_id ≡ x.source_id) × (f.lt d.score (s.round6 x.score) ≡ false)) docs

  -- What the results are, for the chunks that the retrieval found.
  abbrev pub AreResults :
      String
      → Option SearchDocsFilters
      → Result RetrievalError (List (RetrievedChunk F) × List Citation)
      → List (DocResult F)
      → Type 0
  AreResults tenant_id filters (raised e) docs = ⊥
  AreResults tenant_id filters (ok (chunks, citations)) docs =
      All (λ d. Any (ShowsChunk tenant_id d) chunks) docs
      × (All (λ x. IfAdmitted (is_admitted f s repr filters x.metadata) (AnswersChunk docs x))
            chunks
          × (Pairwise Differ docs × IsSorted (result_before f s repr) docs))

  candidates_lem :
      (tenant_id : String) (P : DocResult F → Type 0) (xs : List (RetrievedChunk F))
      (cs : List Citation)
      → All (λ x. x.tenant_id ≡ tenant_id) xs
      → AllCited xs cs
      → ((d : DocResult F) → Any (ShowsChunk tenant_id d) xs → P d)
      → Candidates f s repr P xs cs
  candidates_lem tenant_id P [] [] t h k = tt
  candidates_lem tenant_id P [] (c ∷ cs) t h k = tt
  candidates_lem tenant_id P (x ∷ xs) [] t h k = tt
  candidates_lem tenant_id P (x ∷ xs) (c ∷ cs) t h k = (
    k _ (inl (h.0.1.0, (refl, t.0))),
    candidates_lem tenant_id P xs cs t.1 h.1 (λ d a. k d (inr a)),
  )

  IfAdmitted_lem :
      {P Q : Type 0} (r : Result ToolError Bool) → (P → Q) → IfAdmitted r P → IfAdmitted r Q
  IfAdmitted_lem (ok true) g h = g h
  IfAdmitted_lem (ok false) g h = h
  IfAdmitted_lem (raised e) g h = h

  module _ (o : IsFloatOrder f) where
    answered_lem :
        (filters : Option SearchDocsFilters) (d : Dict String (DocResult F))
        (xs : List (RetrievedChunk F)) (cs : List Citation)
        → AllCited xs cs
        → Entries f s repr (λ d. Unit) d
        → AllCovered f s repr o filters xs cs d
        → All
            (λ x.
              IfAdmitted
                (is_admitted f s repr filters x.metadata)
                (AnswersChunk (sort (result_before f s repr) (dict_values d)) x))
            xs
    answered_lem filters d [] [] h n k = tt
    answered_lem filters d [] (c ∷ cs) h n k = tt
    answered_lem filters d (x ∷ xs) [] h n k = absurd h
    answered_lem filters d (x ∷ xs) (c ∷ cs) h n k = (
      IfAdmitted_lem (is_admitted f s repr filters x.metadata)
          (λ (e, (at, low)).
            sort-Any (result_before f s repr) _ (dict_values d)
              (found_lem c.source_id e d _ at (keyed_lem c.source_id e d n.1 at ∙ h.0.1.0, low)))
          k.0,
      answered_lem filters d xs cs h.1 n k.1,
    )

    merge-AreResults :
        (tenant_id : String) (filters : Option SearchDocsFilters) (xs : List (RetrievedChunk F))
        (cs : List Citation)
        → All (λ x. x.tenant_id ≡ tenant_id) xs
        → AllCited xs cs
        → OnOk (AreResults tenant_id filters (ok (xs, cs))) (merge f s repr filters (xs, cs))
    unfolding merge
    merge-AreResults tenant_id filters xs cs t h =
        let Shown : DocResult F → Type 0 = λ d. Any (ShowsChunk tenant_id d) xs in
        let entries =
          collect-Entries f s repr Shown filters xs cs []
            (candidates_lem tenant_id Shown xs cs t h (λ d a. a)) (tt, tt) in
        let covered = collect-AllCovered f s repr o filters xs cs [] in
        OnOk->>= (AreResults tenant_id filters (ok (xs, cs))) (collect f s repr filters xs cs []) _
          λ d at.
            let kept : Entries f s repr Shown d =
              subst (OnOk (Entries f s repr Shown)) at entries in
            let all : AllCovered f s repr o filters xs cs d =
              subst (OnOk (AllCovered f s repr o filters xs cs)) at covered in
            let before = result_before f s repr in
            (
              All-sort before Shown (dict_values d) (values-All Shown d kept.1),
              (
                answered_lem filters d xs cs h
                    (kept.0, All-weaken _ _ d (λ (k, r) known. (known.0, tt)) kept.1) all,
                (
                  sort-Pairwise before Differ Differs_back (dict_values d)
                      (values-Pairwise Shown d kept),
                  sort-IsSorted before (result_before-IsOrder o) (dict_values d),
                ),
              ),
            )

    passed-AreResults :
        (w : RetrievalFilter) (filters : Option SearchDocsFilters)
        (found : Result RetrievalError (List (RetrievedChunk F) × List Citation))
        → Shows w found
        → OnOk (AreResults w.tenant_id filters found) (passed_on found >>= merge f s repr filters)
    passed-AreResults w filters (ok (xs, cs)) h =
        merge-AreResults w.tenant_id filters xs cs (All-weaken _ _ xs (λ x k. k.0.0) h.0) h.1.1
    passed-AreResults w filters (raised e) h = tt

    -- The results of a document search, where the floats are ordered with no NaN among them: each
    -- is for the document, and with the rounded score, of a chunk of the tenant that the retrieval
    -- found; every such chunk that the filters admit has a result for its document with no worse
    -- score; no two are for one document; and they are in the order of their scores, the best first,
    -- and then of their documents.
    pub search-AreResults :
        (l : ChunkerLibrary) (embed : Embed F) (config : ChunkingConfig) (fuel : ℕ)
        (records : List (ChunkRecord F)) (query tenant_id : String)
        (filters : Option SearchDocsFilters)
        → OnOk
            (AreResults tenant_id filters
              (Service.search f l embed config fuel query (support_docs tenant_id) records))
            (search f s repr l embed config fuel records query tenant_id filters)
    unfolding search
    search-AreResults l embed config fuel records query tenant_id filters =
        passed-AreResults (support_docs tenant_id) filters
          (Service.search f l embed config fuel query (support_docs tenant_id) records)
          (search-Shows f l embed config fuel query (support_docs tenant_id) records)
