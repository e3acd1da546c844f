-- ===== src/Retrieval/Documents.antt =====
-- packages/retrieval/src/retrieval/chunking.py: `DocumentChunker.chunk_document`. The hash and the
-- fuel of the slices are parameters.
use Prim.Native.Char.{Char}
use governed_agent_platform.Prelude.{
  ℕ, ◌+◌, String, ◌<>◌, Bool, not, ◌&&◌, ◌==◌, if◌then◌else◌, Option, none, some, List, [], ◌∷◌,
  string_eq, Value, Items, Payload, text_of,
}
use governed_agent_platform.Prelude.Dict.{lookup}
use governed_agent_platform.Prelude.Exec.{Result, ok, raised}
use governed_agent_platform.Retrieval.Types.{ChunkRecord}
use governed_agent_platform.Retrieval.Chunking.{
  ChunkingConfig, Text, chars, text, strip, slice_text,
}

-- The exceptions of the package. `no_end` stands for a loop that does not end.
pub data RetrievalError : Type 0 where
  key_error : String → RetrievalError
  value_error : String → RetrievalError
  index_error : RetrievalError
  zero_division : RetrievalError
  no_end : RetrievalError

infixl 5 ◌>>=◌
abbrev pub ◌>>=◌ :
    {A B : Type 0}
    → Result RetrievalError A
    → (A → Result RetrievalError B)
    → Result RetrievalError B
ok a >>= f = f a
raised e >>= f = raised e

abbrev pub present : String → Option Value → Result RetrievalError Value
present key none = raised (key_error key)
present key (some v) = ok v

abbrev pub value_or : Value → Option Value → Value
value_or d none = d
value_or d (some v) = v

abbrev pub or_no_end : Option (List Text) → Result RetrievalError (List Text)
or_no_end none = raised no_end
or_no_end (some s) = ok s

-- What the chunker uses of the libraries: the test of white space, `str`, and the hash.
pub record ChunkerLibrary : Type 0 where
  pub is_space : Char → Bool
  pub repr : Value → String
  pub show : ℕ → String
  pub sha256 : String → String

module _ (l : ChunkerLibrary) where
  -- `str(document[key])`
  unfoldable pub item_text : String → Payload → Result RetrievalError String
  item_text key document = do v ← present key (lookup key document); ok (text_of l.repr v)

  -- `_content_hash`
  unfoldable pub content_hash : String → String → ℕ → String → String
  content_hash tenant_id source_id chunk_index content =
      l.sha256 (tenant_id <> ":" <> source_id <> ":" <> l.show chunk_index <> ":" <> content)

module _ (l : ChunkerLibrary) {F : Type 0} where
  -- The validation of a `ChunkRecord`: these texts are not empty.
  abbrev pub is_complete : ChunkRecord F → Bool
  is_complete c =
      not (c.tenant_id == "")
      && not (c.source_type == "")
      && not (c.source_id == "")
      && not (c.content == "")
      && not (c.content_hash == "")

  unfoldable pub validated : ChunkRecord F → Result RetrievalError (ChunkRecord F)
  validated c = if is_complete c then ok c else raised (value_error "ValidationError")

  -- The chunk of one slice.
  unfoldable pub chunk_at : Payload → String → ℕ → Text → Result RetrievalError (ChunkRecord F)
  unfolding item_text content_hash validated
  chunk_at document title index chunk_text = do
    tenant_id ← item_text l "tenant_id" document
    doc_id ← item_text l "doc_id" document
    validated (record {
      tenant_id = tenant_id;
      source_type =
          text_of l.repr (value_or (Value.str "support_doc") (lookup "source_type" document));
      source_id = doc_id;
      object_id = some doc_id;
      chunk_index = index;
      content = text chunk_text;
      content_hash = content_hash l tenant_id doc_id index (text chunk_text);
      metadata =
          ("title", Value.str title)
          ∷ ("category", value_or Value.null (lookup "category" document))
          ∷ ("tags", value_or (Value.list Items.nil) (lookup "tags" document))
          ∷ [];
      embedding = [];
    })

  -- The loop over the slices.
  unfoldable pub chunks_from :
      Payload → String → ℕ → List Text → Result RetrievalError (List (ChunkRecord F))
  unfolding chunk_at
  chunks_from document title index [] = ok []
  chunks_from document title index (s ∷ slices) = do
    chunk ← chunk_at document title index s
    rest ← chunks_from document title (index + 1) slices
    ok (chunk ∷ rest)

  -- `chunk_document`
  unfoldable pub chunk_document :
      ChunkingConfig → ℕ → Payload → Result RetrievalError (List (ChunkRecord F))
  unfolding item_text chunks_from chars text strip
  chunk_document config fuel document = do
    raw_content ← item_text l "content" document
    raw_title ← item_text l "title" document
    let content = text (strip l.is_space (chars raw_content))
    let title = text (strip l.is_space (chars raw_title))
    slices ← or_no_end (slice_text l.is_space config fuel (chars (title <> "\n\n" <> content)))
    chunks_from document title 0 slices
