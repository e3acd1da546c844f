-- ===== src/Tests/Retrieval.antt =====
-- Chunking, storing and searching of packages/retrieval/src/retrieval on concrete inputs, and the
-- witnesses of its theorems. The floats are natural numbers, and the negation counts down from 100.
use Prim.Native.Char.{Char, code}
use governed_agent_platform.Prelude.{
  ℕ, zero, suc, ◌+◌, ◌-◌, ◌*◌, ◌<◌, ◌≡◌, refl, String, Bool, true, false, none, some, List, [], ◌∷◌,
  ◌++◌, map, keep, not, arith, ltb, ◌==◌, id_eq, string_eq, Value, Payload, get_elem?, take,
  All-take, All-map, keep-All, length-take-le,
}
use governed_agent_platform.Prelude.Exec.{ok}
use governed_agent_platform.Retrieval.Floats.{Floats, cosine_similarity}
use governed_agent_platform.Retrieval.Types.{ChunkRecord, RetrievalFilter}
use governed_agent_platform.Retrieval.Filters.{matches_filter}
use governed_agent_platform.Prelude.Sorting.{sort}
use governed_agent_platform.Retrieval.Ranking.{IsFloatOrder, key_before, text_before}
use governed_agent_platform.Retrieval.Store.{same_chunk, upsert_chunks, query}
use governed_agent_platform.Retrieval.Store.Query.{IsBest, query-IsBest}
use governed_agent_platform.Retrieval.Store.Upsert.{
  IsUnique, stored_at, latest, upsert_chunks-stored, upsert_chunks-IsUnique,
}
use governed_agent_platform.Retrieval.Store.Pg.{
  DocumentChunk, Session, IsSession, row_of, upsert_pg, query_python, upsert_pg-refines,
  query_python-eq-query,
}
use governed_agent_platform.Retrieval.Store.Postgres.{
  Database, IsDatabase, query_pg, AreWanted, query_pg-AreWanted,
}
use governed_agent_platform.Retrieval.Chunking.{
  ChunkingConfig, Text, join_words, is_blank_at, slice_text,
}
use governed_agent_platform.Retrieval.Chunking.Progress.{
  EndsWithin, IsBreak, slice_text-Ends, slice_text-stuck,
}
use governed_agent_platform.Retrieval.Documents.{ChunkerLibrary}
use governed_agent_platform.Retrieval.Service.{Embed, search, from_seed_data}
use governed_agent_platform.Retrieval.Embedding
use governed_agent_platform.Retrieval.Embedding.{Hashing}
use governed_agent_platform.Retrieval.Embedding.Answers.{Returns, search-Returns}
use governed_agent_platform.Retrieval.Service.Search.{Shows, search-Shows, from_seed_data-IsUnique}

abbrev pub is_space : Char → Bool
is_space c = code c == 32

abbrev pub floats : Floats ℕ
floats = record {
  zero = 0;
  one = 1;
  add = λ a b. a + b;
  sub = λ a b. a - b;
  mul = λ a b. a * b;
  div = λ a b. a;
  neg = λ a. 100 - a;
  sqrt = λ a. a;
  lt = ltb;
  eq = λ a b. a == b;
}

pub floats-IsFloatOrder : IsFloatOrder floats
floats-IsFloatOrder = record {
  eq_iff = λ a b. (λ h. (ground arith, ground arith), λ h. ground arith);
  asymm = λ a b h. ground arith;
  trans = λ a b c h k. ground arith;
}

abbrev pub chunk : String → String → ℕ → ChunkRecord ℕ
chunk tenant_id source_id n = record {
  tenant_id = tenant_id;
  source_type = "support_doc";
  source_id = source_id;
  object_id = some source_id;
  chunk_index = n;
  content = "Refunds need approval.";
  content_hash = "5f2c";
  metadata = ("title", Value.str "Refunds") ∷ [];
  embedding = suc n ∷ [];
}

abbrev pub records : List (ChunkRecord ℕ)
records = chunk "tenant-a" "doc-1" 0 ∷ chunk "tenant-b" "doc-2" 0 ∷ chunk "tenant-a" "doc-1" 1 ∷ []

abbrev wanted : RetrievalFilter
wanted = record {
  tenant_id = "tenant-a";
  source_type = some "support_doc";
  source_id = none;
  object_id = none;
  top_k = 1;
}

records-IsUnique : IsUnique records
unfolding same_chunk
records-IsUnique = ((refl, (refl, tt)), ((refl, tt), (tt, tt)))

-- The chunk with the greater similarity is the answer.
query_test : map (λ r. r.chunk_index) (query floats (5 ∷ []) wanted records) ≡ 1 ∷ []
unfolding query matches_filter sort cosine_similarity key_before text_before keep
query_test = refl

query-IsBest_example :
    (chosen : List (ChunkRecord ℕ)) × ((rest : List (ChunkRecord ℕ)) × IsBest floats
        (5 ∷ [])
        wanted
        records
        chosen
        rest)
query-IsBest_example = query-IsBest floats (5 ∷ []) floats-IsFloatOrder wanted records

upsert_chunks-stored_example :
    stored_at (chunk "tenant-a" "doc-1" 0) (upsert_chunks (chunk "tenant-a" "doc-1" 0 ∷ []) records)
    ≡ latest
        (chunk "tenant-a" "doc-1" 0)
        (chunk "tenant-a" "doc-1" 0 ∷ [])
        (stored_at (chunk "tenant-a" "doc-1" 0) records)
upsert_chunks-stored_example =
    upsert_chunks-stored (chunk "tenant-a" "doc-1" 0 ∷ []) (chunk "tenant-a" "doc-1" 0) records

upsert_chunks-IsUnique_example : IsUnique (upsert_chunks (chunk "tenant-b" "doc-2" 0 ∷ []) records)
upsert_chunks-IsUnique_example =
    upsert_chunks-IsUnique (chunk "tenant-b" "doc-2" 0 ∷ []) records records-IsUnique

-- A session whose world is the rows of the table, and the objects that wait for a flush.
abbrev Rows : Type 0
Rows = List (DocumentChunk ℕ) × List (DocumentChunk ℕ)

abbrev session : Session Rows ℕ
session = record {
  delete_where = λ p w. (keep (λ r. not (p r)) w.0, w.1);
  add = λ r w. (w.0, w.1 ++ r ∷ []);
  flush = λ w. (w.0 ++ w.1, []);
  scalars = λ w. w.0;
  pending = λ w. w.1;
}

session-IsSession : IsSession session
session-IsSession = record {
  deletes = λ p w. (refl, refl);
  adds = λ r w. (refl, refl);
  flushes = λ w. refl;
}

abbrev table : Rows
table = (map row_of records, [])

upsert_pg-refines_example :
    (upsert_pg session (chunk "tenant-a" "doc-1" 0 ∷ []) table).0
    ≡ map row_of (upsert_chunks (chunk "tenant-a" "doc-1" 0 ∷ []) records)
upsert_pg-refines_example =
    upsert_pg-refines session session-IsSession (chunk "tenant-a" "doc-1" 0 ∷ []) records table refl
      refl (tt, tt)

query_python-eq-query_example :
    query_python session floats (5 ∷ []) wanted table ≡ query floats (5 ∷ []) wanted records
query_python-eq-query_example =
    query_python-eq-query session session-IsSession floats (5 ∷ []) wanted records table refl

-- A database that answers the rows that meet the conditions, in the order of the table.
abbrev database : Database Rows ℕ
database = record {
  dialect = some "postgresql";
  nearest = λ p q n w. take n (map (λ r. (r, 0)) (keep p w.0));
}

database-IsDatabase : IsDatabase database
database-IsDatabase = record {
  wheres = λ p q n w.
      All-take (λ x. p x.0 ≡ true) n (map (λ r. (r, 0)) (keep p w.0))
        (All-map (λ x. p x.0 ≡ true) (λ r. (r, 0)) (keep p w.0) (keep-All p w.0));
  limits = λ p q n w. length-take-le n (map (λ r. (r, 0)) (keep p w.0));
}

query_pg-AreWanted_example :
    AreWanted wanted (query_pg floats session database (5 ∷ []) wanted table)
query_pg-AreWanted_example =
    query_pg-AreWanted floats session database (5 ∷ []) wanted database-IsDatabase table

abbrev pub config : ChunkingConfig
config = record { max_chars = 50; overlap_chars = 30; max_chars_ge = omega arith }

-- A text with a blank in each window.
abbrev words_of_a : ℕ → Text
words_of_a zero = "a" ∷ []
words_of_a (suc n) = "a" ∷ " " ∷ words_of_a n

abbrev letters : Text
letters = words_of_a 28

letters-IsBreak : (start : ℕ) → start + 50 < 57 → (k : ℕ) × IsBreak 50 30 letters start k
letters-IsBreak start h = (41, (omega arith, (omega arith, refl)))

slice_text-Ends_example : EndsWithin 50 (slice_text is_space config 58 letters)
unfolding join_words
slice_text-Ends_example = slice_text-Ends is_space config letters (omega arith) letters-IsBreak

-- A text whose first window has its last blank in the overlap.
abbrev run_of_b : ℕ → Text
run_of_b zero = []
run_of_b (suc n) = "b" ∷ run_of_b n

abbrev heading : Text
heading = "a" ∷ " " ∷ run_of_b 60

no_blank : (n k : ℕ) → is_blank_at (get_elem? (run_of_b n) k) ≡ false
no_blank zero k = refl
no_blank (suc n) zero = refl
no_blank (suc n) (suc k) = no_blank n k

heading_last : (k : ℕ) → 1 < k → k < 50 → is_blank_at (get_elem? heading k) ≡ false
heading_last zero l u = absurd (omega arith)
heading_last (suc zero) l u = absurd (omega arith)
heading_last (suc (suc k)) l u = no_blank 60 k

slice_text-stuck_example : slice_text is_space config 1000 heading ≡ none
unfolding join_words
slice_text-stuck_example =
    slice_text-stuck is_space config heading 1 (omega arith) (omega arith) (omega arith)
      (omega arith) refl heading_last 1000

abbrev pub library : ChunkerLibrary
library = record { is_space = is_space; repr = λ v. "None"; show = λ n. "0"; sha256 = λ s. s }

abbrev pub embed : Embed ℕ
embed texts = ok (map (λ t. 5 ∷ []) texts)

-- Words by their text, all with the same bytes.
abbrev hashing : Hashing
hashing = record { lower_words = λ s. s ∷ []; first_bytes = λ s. (9, 2) }

search-Returns_example :
    Returns
      (search floats library (Embedding.embed floats hashing 8) config 1 "refunds" wanted records)
    × Shows wanted
        (search floats library (Embedding.embed floats hashing 8) config 1 "refunds" wanted records)
search-Returns_example = search-Returns floats library hashing config 1 7 "refunds" wanted records

abbrev document : Payload
document =
    ("tenant_id", Value.str "tenant-a")
    ∷ ("doc_id", Value.str "doc-1")
    ∷ ("title", Value.str "Refunds")
    ∷ ("content", Value.str "Refunds need approval.")
    ∷ []

search-Shows_example : Shows wanted (search floats library embed config 1 "refunds" wanted records)
search-Shows_example = search-Shows floats library embed config 1 "refunds" wanted records

from_seed_data-IsUnique_example :
    IsUnique
      (from_seed_data floats library embed
        (record { max_chars = 900; overlap_chars = 120; max_chars_ge = omega arith })
        1
        (document ∷ document ∷ [])).1
from_seed_data-IsUnique_example =
    from_seed_data-IsUnique floats library embed
      (record { max_chars = 900; overlap_chars = 120; max_chars_ge = omega arith }) 1
      (document ∷ document ∷ [])
