-- ===== src/Tools/SearchDocs/Results.antt =====
-- packages/tools/src/tools/implementations/search_docs.py: the results of a document search.
use governed_agent_platform.Prelude.{
  String, ◌≡◌, refl, sym, ap, ◌∙◌, inl, inr, Bool, true, false, Bool-cases, Option, none, some,
  some-injective, List, [], ◌∷◌, ◌==◌, string_eq, if◌then◌else◌, All, Value, arith, subst,
}
use governed_agent_platform.Prelude.Dict.{
  Dict, lookup, insert, lookup-insert, lookup-insert_self, IsDict, insert-IsDict, All-insert,
}
use governed_agent_platform.Prelude.Exec.{Result, ok, raised}
use governed_agent_platform.Retrieval.Floats.{Floats}
use governed_agent_platform.Retrieval.Types.{RetrievedChunk, Citation}
use governed_agent_platform.Retrieval.Ranking.{IsFloatOrder}
use governed_agent_platform.Tools.Schemas.{ToolError}
use governed_agent_platform.Tools.Implementations.{◌>>=◌}
use governed_agent_platform.Tools.SearchDocs.{
  SearchDocsFilters, DocResult, SearchLibrary, is_admitted, candidate, is_better, keep_better,
  collect,
}

-- What holds of a result, if there is one.
abbrev pub OnOk : {A : Type 0} → (A → Type 0) → Result ToolError A → Type 0
OnOk P (ok a) = P a
OnOk P (raised e) = Unit

pub OnOk->>= :
    {A B : Type 0} (Q : B → Type 0) (r : Result ToolError A) (g : A → Result ToolError B)
    → ((a : A) → r ≡ ok a → OnOk Q (g a))
    → OnOk Q (r >>= g)
OnOk->>= Q (ok a) g k = k a refl
OnOk->>= Q (raised e) g k = tt

pub OnOk-both :
    {A : Type 0} (P Q : A → Type 0) (r : Result ToolError A)
    → OnOk P r
    → OnOk Q r
    → OnOk (λ a. P a × Q a) r
OnOk-both P Q (ok a) h k = (h, k)
OnOk-both P Q (raised e) h k = tt

OnOk-tt : {A : Type 0} (r : Result ToolError A) → OnOk (λ a. Unit) r
OnOk-tt (ok a) = tt
OnOk-tt (raised e) = tt

-- What holds of a chunk that the filters admit. They were read.
abbrev pub IfAdmitted : Result ToolError Bool → Type 0 → Type 0
IfAdmitted (ok true) P = P
IfAdmitted (ok false) P = Unit
IfAdmitted (raised e) P = ⊥

module _ {F : Type 0} (f : Floats F) (s : SearchLibrary F) (repr : Value → String) where
  -- An entry under its own key, which has a property.
  abbrev pub Keyed : (DocResult F → Type 0) → String × DocResult F → Type 0
  Keyed P (k, d) = (d.doc_id ≡ k) × P d

  -- The candidates of the chunks with their citations have a property.
  abbrev pub Candidates : (DocResult F → Type 0) → List (RetrievedChunk F) → List Citation → Type 0
  Candidates P (x ∷ xs) (c ∷ cs) = P (candidate f s repr x c) × Candidates P xs cs
  Candidates P xs cs = Unit

  abbrev pub Entries : (DocResult F → Type 0) → Dict String (DocResult F) → Type 0
  Entries P d = IsDict d × All (Keyed P) d

  keep_better-Entries :
      (P : DocResult F → Type 0) (c : DocResult F) (d : Dict String (DocResult F))
      → P c
      → Entries P d
      → Entries P (keep_better f s repr c d)
  unfolding keep_better
  keep_better-Entries P c d p h = elim (Bool-cases (is_better f s repr c (lookup c.doc_id d))) [
    | inl better ↦ rw better (
      insert-IsDict c.doc_id c d h.0,
      All-insert (Keyed P) c.doc_id c d (λ j same. (sym ((string_eq.decides j c.doc_id).0 same), p))
          h.1,
    )
    | inr worse ↦ rw worse h
  ]

  kept_if :
      (P : DocResult F → Type 0) (b : Bool) (c : DocResult F) (d : Dict String (DocResult F))
      → P c
      → Entries P d
      → Entries P (if b then keep_better f s repr c d else d)
  kept_if P true c d p h = keep_better-Entries P c d p h
  kept_if P false c d p h = h

  pub collect-Entries :
      (P : DocResult F → Type 0) (filters : Option SearchDocsFilters) (xs : List (RetrievedChunk F))
      (cs : List Citation) (d : Dict String (DocResult F))
      → Candidates P xs cs
      → Entries P d
      → OnOk (Entries P) (collect f s repr filters xs cs d)
  unfolding collect
  collect-Entries P filters [] [] d p h = h
  collect-Entries P filters [] (c ∷ cs) d p h = tt
  collect-Entries P filters (x ∷ xs) [] d p h = tt
  collect-Entries P filters (x ∷ xs) (c ∷ cs) d p h =
      OnOk->>= (Entries P) (is_admitted f s repr filters x.metadata) _
        λ b _. collect-Entries P filters xs cs _ p.1 (kept_if P b (candidate f s repr x c) d p.0 h)

  -- The entry of the candidate's document, which the candidate is not better than.
  abbrev pub Covers : DocResult F → Dict String (DocResult F) → Type 0
  Covers c d = (e : DocResult F) × ((lookup c.doc_id d ≡ some e) × (f.lt e.score c.score ≡ false))

  module _ (o : IsFloatOrder f) where
    not_better : (c : DocResult F) → f.lt c.score c.score ≡ false
    not_better c = ground (arith, o.asymm c.score c.score)

    keep_better-Covers_new :
        (c : DocResult F) (d : Dict String (DocResult F)) → Covers c (keep_better f s repr c d)
    unfolding keep_better
    keep_better-Covers_new c d = go (lookup c.doc_id d) refl
      where
        go :
            (x : Option (DocResult F))
            → lookup c.doc_id d ≡ x
            → Covers c (if is_better f s repr c x then insert c.doc_id c d else d)
        go none at = (c, (lookup-insert_self c.doc_id c d, not_better c))
        go (some e) at = elim (Bool-cases (f.lt e.score c.score)) [
          | inl better ↦ rw better (c, (lookup-insert_self c.doc_id c d, not_better c))
          | inr worse ↦ rw worse (e, (at, worse))
        ]

    inserted-Covers :
        (b c e : DocResult F) (d : Dict String (DocResult F))
        → lookup b.doc_id d ≡ some e
        → f.lt e.score b.score ≡ false
        → ((c.doc_id == b.doc_id) ≡ true → f.lt e.score c.score ≡ true)
        → Covers b (insert c.doc_id c d)
    inserted-Covers b c e d at low more = elim (Bool-cases (c.doc_id == b.doc_id)) [
      | inl same ↦ (
        c,
        (
          lookup-insert c.doc_id b.doc_id c d ∙ rw same refl,
          o.trans b.score e.score c.score low (o.asymm e.score c.score (more same)),
        ),
      )
      | inr differs ↦ (e, (lookup-insert c.doc_id b.doc_id c d ∙ rw differs at, low))
    ]

    keep_better-Covers :
        (b c : DocResult F) (d : Dict String (DocResult F))
        → Covers b d
        → Covers b (keep_better f s repr c d)
    unfolding keep_better
    keep_better-Covers b c d (e, (at, low)) = go (lookup c.doc_id d) refl
      where
        go :
            (x : Option (DocResult F))
            → lookup c.doc_id d ≡ x
            → Covers b (if is_better f s repr c x then insert c.doc_id c d else d)
        go none missing =
            inserted-Covers b c e d at low
              λ same. ground (arith, string_eq.decides c.doc_id b.doc_id)
        go (some i) found = elim (Bool-cases (f.lt i.score c.score)) [
          | inl better ↦ rw better (
              inserted-Covers b c e d at low λ same.
                subst (λ x. f.lt x.score c.score ≡ true)
                  (some-injective i e (
                    sym found
                    ∙ ap (λ k. lookup k d) ((string_eq.decides c.doc_id b.doc_id).0 same)
                    ∙ at))
                  better)
          | inr worse ↦ rw worse (e, (at, low))
        ]

    keeps_if :
        (b c : DocResult F) (d : Dict String (DocResult F)) (t : Bool)
        → Covers b d
        → Covers b (if t then keep_better f s repr c d else d)
    keeps_if b c d true h = keep_better-Covers b c d h
    keeps_if b c d false h = h

    collect-Covers :
        (b : DocResult F) (filters : Option SearchDocsFilters) (xs : List (RetrievedChunk F))
        (cs : List Citation) (d : Dict String (DocResult F))
        → Covers b d
        → OnOk (Covers b) (collect f s repr filters xs cs d)
    unfolding collect
    collect-Covers b filters [] [] d h = h
    collect-Covers b filters [] (c ∷ cs) d h = tt
    collect-Covers b filters (x ∷ xs) [] d h = tt
    collect-Covers b filters (x ∷ xs) (c ∷ cs) d h =
        OnOk->>= (Covers b) (is_admitted f s repr filters x.metadata) _
          λ t _. collect-Covers b filters xs cs _ (keeps_if b (candidate f s repr x c) d t h)

    -- Each chunk that the filters admit is covered.
    abbrev pub AllCovered :
        Option SearchDocsFilters
        → List (RetrievedChunk F)
        → List Citation
        → Dict String (DocResult F)
        → Type 0
    AllCovered filters (x ∷ xs) (c ∷ cs) d =
        IfAdmitted (is_admitted f s repr filters x.metadata) (Covers (candidate f s repr x c) d)
        × AllCovered filters xs cs d
    AllCovered filters xs cs d = Unit

    admitted_lem :
        (r : Result ToolError Bool) (t : Bool) (c : DocResult F)
        (filters : Option SearchDocsFilters) (xs : List (RetrievedChunk F)) (cs : List Citation)
        (d : Dict String (DocResult F))
        → r ≡ ok t
        → OnOk
            (λ e. IfAdmitted r (Covers c e))
            (collect f s repr filters xs cs (if t then keep_better f s repr c d else d))
    admitted_lem r true c filters xs cs d h =
        rw h
          (collect-Covers c filters xs cs (keep_better f s repr c d) (keep_better-Covers_new c d))
    admitted_lem r false c filters xs cs d h = rw h (OnOk-tt (collect f s repr filters xs cs d))

    pub collect-AllCovered :
        (filters : Option SearchDocsFilters) (xs : List (RetrievedChunk F)) (cs : List Citation)
        (d : Dict String (DocResult F))
        → OnOk (AllCovered filters xs cs) (collect f s repr filters xs cs d)
    unfolding collect
    collect-AllCovered filters [] [] d = tt
    collect-AllCovered filters [] (c ∷ cs) d = tt
    collect-AllCovered filters (x ∷ xs) [] d = tt
    collect-AllCovered filters (x ∷ xs) (c ∷ cs) d =
        OnOk->>= (AllCovered filters (x ∷ xs) (c ∷ cs)) (is_admitted f s repr filters x.metadata) _
          λ t at.
            OnOk-both _ _ _
              (admitted_lem (is_admitted f s repr filters x.metadata) t (candidate f s repr x c)
                filters xs cs d at)
              (collect-AllCovered filters xs cs _)
