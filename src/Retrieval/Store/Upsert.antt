-- ===== src/Retrieval/Store/Upsert.antt =====
-- packages/retrieval/src/retrieval/store.py: what `upsert_chunks` stores.
use governed_agent_platform.Prelude.{
  ◌≡◌, refl, true, false, ◌&&◌, ◌==◌, string_eq, id_eq, Option, some, List, [], ◌∷◌, keep, find,
  All, Bool-cases, inl, inr, if◌then◌else◌, arith, ◌∙◌, ap,
}
use governed_agent_platform.Retrieval.Types.{ChunkRecord}
use governed_agent_platform.Retrieval.Store.{same_chunk, upsert_chunk, upsert_chunks}

module _ {F : Type 0} where
  pub same_chunk_sym : (a b : ChunkRecord F) → same_chunk a b ≡ same_chunk b a
  unfolding same_chunk
  same_chunk_sym a b = ground (
    arith,
    string_eq.decides a.tenant_id b.tenant_id,
    string_eq.decides b.tenant_id a.tenant_id,
    string_eq.decides a.source_type b.source_type,
    string_eq.decides b.source_type a.source_type,
    string_eq.decides a.source_id b.source_id,
    string_eq.decides b.source_id a.source_id,
    id_eq.decides a.chunk_index b.chunk_index,
    id_eq.decides b.chunk_index a.chunk_index,
  )

  same_chunk-eq : (a b k : ChunkRecord F) → same_chunk a b ≡ true → same_chunk a k ≡ same_chunk b k
  unfolding same_chunk
  same_chunk-eq a b k h =
      let t = (string_eq.decides a.tenant_id b.tenant_id).0 (ground arith) in
      let s = (string_eq.decides a.source_type b.source_type).0 (ground arith) in
      let i = (string_eq.decides a.source_id b.source_id).0 (ground arith) in
      let n = (id_eq.decides a.chunk_index b.chunk_index).0 (ground arith) in
      λ j.
        (t j == k.tenant_id)
        && ((s j == k.source_type) && ((i j == k.source_id) && (n j == k.chunk_index)))

  -- The record that is stored under the key of `k`.
  abbrev pub stored_at : ChunkRecord F → List (ChunkRecord F) → Option (ChunkRecord F)
  stored_at k = find (λ r. same_chunk r k)

  -- The last of the chunks with the key of `k`, or else what was there.
  abbrev pub latest :
      ChunkRecord F → List (ChunkRecord F) → Option (ChunkRecord F) → Option (ChunkRecord F)
  latest k [] old = old
  latest k (c ∷ cs) old = latest k cs (if same_chunk c k then some c else old)

  -- No two records have one key.
  abbrev pub IsUnique : List (ChunkRecord F) → Type 0
  IsUnique [] = Unit
  IsUnique (r ∷ rs) = All (λ x. same_chunk x r ≡ false) rs × IsUnique rs

  stored-upsert_chunk :
      (k c : ChunkRecord F) (records : List (ChunkRecord F))
      → stored_at k (upsert_chunk c records)
        ≡ (if same_chunk c k then some c else stored_at k records)
  unfolding upsert_chunk keep
  stored-upsert_chunk k c [] = ground arith
  stored-upsert_chunk k c (r ∷ rs) = elim (Bool-cases (same_chunk r c)) [
    | inl replaced ↦
        rw replaced (ground (arith, stored-upsert_chunk k c rs, same_chunk-eq r c k replaced))
    | inr kept ↦
        rw kept (
          ground (arith, kept, stored-upsert_chunk k c rs, same_chunk_sym k c, same_chunk-eq r k c))
  ]

  -- After an upsert, the record under a key is the last of the chunks that has the key, and the old
  -- one where none has it.
  pub upsert_chunks-stored :
      (chunks : List (ChunkRecord F)) (k : ChunkRecord F) (records : List (ChunkRecord F))
      → stored_at k (upsert_chunks chunks records) ≡ latest k chunks (stored_at k records)
  unfolding upsert_chunks
  upsert_chunks-stored [] k records = refl
  upsert_chunks-stored (c ∷ cs) k records =
      upsert_chunks-stored cs k (upsert_chunk c records)
      ∙ ap (latest k cs) (stored-upsert_chunk k c records)

  All-upsert :
      (P : ChunkRecord F → Type 0) (c : ChunkRecord F) (records : List (ChunkRecord F))
      → All P records
      → P c
      → All P (upsert_chunk c records)
  unfolding upsert_chunk keep
  All-upsert P c [] h p = (p, tt)
  All-upsert P c (r ∷ rs) h p = elim (Bool-cases (same_chunk r c)) [
    | inl replaced ↦ rw replaced (All-upsert P c rs h.1 p)
    | inr kept ↦ rw kept (h.0, All-upsert P c rs h.1 p)
  ]

  IsUnique-keep :
      (c : ChunkRecord F) (records : List (ChunkRecord F))
      → IsUnique records
      → IsUnique (upsert_chunk c records)
  unfolding upsert_chunk keep
  IsUnique-keep c [] h = (tt, tt)
  IsUnique-keep c (r ∷ rs) h = elim (Bool-cases (same_chunk r c)) [
    | inl replaced ↦ rw replaced (IsUnique-keep c rs h.1)
    | inr kept ↦ rw kept (
      All-upsert (λ x. same_chunk x r ≡ false) c rs h.0 (same_chunk_sym c r ∙ kept),
      IsUnique-keep c rs h.1,
    )
  ]

  -- An upsert leaves no two records with one key, where there were none before.
  pub upsert_chunks-IsUnique :
      (chunks records : List (ChunkRecord F))
      → IsUnique records
      → IsUnique (upsert_chunks chunks records)
  unfolding upsert_chunks
  upsert_chunks-IsUnique [] records h = h
  upsert_chunks-IsUnique (c ∷ cs) records h =
      upsert_chunks-IsUnique cs (upsert_chunk c records) (IsUnique-keep c records h)
