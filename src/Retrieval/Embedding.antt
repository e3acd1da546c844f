-- ===== src/Retrieval/Embedding.antt =====
-- packages/retrieval/src/retrieval/embeddings.py: `DeterministicEmbeddingProvider`. The words of a text
-- in lower case, and the first two bytes of the hash of a word, are parameters.
pub mod Answers
use governed_agent_platform.Prelude.{
  ℕ, zero, suc, ◌+◌, ◌%◌, ◌≡◌, refl, ap, String, Bool, true, false, List, [], ◌∷◌, map, length,
  arith, ◌==◌, id_eq, if◌then◌else◌, length-map, All,
}
use governed_agent_platform.Prelude.Exec.{Result, ok, raised}
use governed_agent_platform.Retrieval.Floats.{Floats, norm}
use governed_agent_platform.Retrieval.Documents.{RetrievalError, zero_division, ◌>>=◌}
use governed_agent_platform.Retrieval.Service.{Embed}

-- What the provider uses of the libraries.
pub record Hashing : Type 0 where
  pub lower_words : String → List String
  pub first_bytes : String → ℕ × ℕ

-- `[0.0 for _ in range(n)]`
unfoldable pub zeros : {F : Type 0} → F → ℕ → List F
zeros z zero = []
zeros z (suc n) = z ∷ zeros z n

-- `values[index] += x`, where the index is in range.
unfoldable pub add_at : {F : Type 0} → (F → F) → ℕ → List F → List F
add_at step index [] = []
add_at step zero (v ∷ values) = step v ∷ values
add_at step (suc index) (v ∷ values) = v ∷ add_at step index values

module _ {F : Type 0} (f : Floats F) (h : Hashing) where
  -- `1.0 if digest[1] % 2 == 0 else -1.0`
  abbrev pub sign_of : ℕ → F
  sign_of byte = if byte % 2 == 0 then f.one else f.neg f.one

  -- The loop over the words.
  unfoldable pub add_words : ℕ → List String → List F → List F
  unfolding add_at
  add_words dimension [] values = values
  add_words dimension (token ∷ tokens) values =
      let (first, second) = h.first_bytes token in
      add_words dimension tokens (add_at (λ v. f.add v (sign_of second)) (first % dimension) values)

  -- `[value / norm for value in values]`, or zeros where the norm is zero.
  unfoldable pub scaled : List F → List F
  unfolding norm
  scaled values =
      if f.eq (norm f values) f.zero
      then map (λ v. f.zero) values
      else map (λ v. f.div v (norm f values)) values

  -- The words of a text with at least one, where the remainder by a dimension of zero raises.
  abbrev pub embed_words : ℕ → List String → Result RetrievalError (List F)
  embed_words dimension [] = ok (zeros f.zero dimension)
  embed_words zero (token ∷ tokens) = raised zero_division
  embed_words (suc n) (token ∷ tokens) =
      ok (scaled (add_words (suc n) (token ∷ tokens) (zeros f.zero (suc n))))

  -- `_embed_text`
  unfoldable pub embed_text : ℕ → String → Result RetrievalError (List F)
  unfolding zeros add_words scaled
  embed_text dimension s = embed_words dimension (h.lower_words s)

  -- `embed` of the provider.
  unfoldable pub embed : ℕ → Embed F
  unfolding embed_text
  embed dimension [] = ok []
  embed dimension (s ∷ texts) = do
    v ← embed_text dimension s
    rest ← embed dimension texts
    ok (v ∷ rest)

length-zeros : {F : Type 0} (z : F) (n : ℕ) → length (zeros z n) ≡ n
unfolding zeros
length-zeros z zero = refl
length-zeros z (suc n) = ap suc (length-zeros z n)

length-add_at :
    {F : Type 0} (step : F → F) (index : ℕ) (values : List F)
    → length (add_at step index values) ≡ length values
unfolding add_at
length-add_at step index [] = ground arith
length-add_at step zero (v ∷ values) = refl
length-add_at step (suc index) (v ∷ values) = ap suc (length-add_at step index values)

-- One vector for each text, each of the dimension.
abbrev pub AreVectors :
    {F : Type 0} → ℕ → List String → Result RetrievalError (List (List F)) → Type 0
AreVectors dimension texts (raised e) = ⊥
AreVectors dimension texts (ok vectors) =
    (length vectors ≡ length texts) × All (λ v. length v ≡ dimension) vectors

abbrev IsVector : {F : Type 0} → ℕ → Result RetrievalError (List F) → Type 0
IsVector dimension (raised e) = ⊥
IsVector dimension (ok v) = length v ≡ dimension

module _ {F : Type 0} (f : Floats F) (h : Hashing) where
  length-add_words :
      (dimension : ℕ) (tokens : List String) (values : List F)
      → length (add_words f h dimension tokens values) ≡ length values
  unfolding add_words
  length-add_words dimension [] values = refl
  length-add_words dimension (token ∷ tokens) values =
      let (first, second) = h.first_bytes token in
      let step = (λ (v : F). f.add v (sign_of f h second)) in
      omega (
        arith,
        length-add_words dimension tokens (add_at step (first % dimension) values),
        length-add_at step (first % dimension) values,
      )

  length-scaled : (values : List F) → length (scaled f h values) ≡ length values
  unfolding scaled
  length-scaled values = ground (
    arith,
    length-map (λ (v : F). f.zero) values,
    length-map (λ v. f.div v (norm f values)) values,
  )

  embed_words-IsVector :
      (n : ℕ) (tokens : List String) → IsVector (suc n) (embed_words f h (suc n) tokens)
  embed_words-IsVector n [] = length-zeros f.zero (suc n)
  embed_words-IsVector n (token ∷ tokens) = omega (
    arith,
    length-scaled (add_words f h (suc n) (token ∷ tokens) (zeros f.zero (suc n))),
    length-add_words (suc n) (token ∷ tokens) (zeros f.zero (suc n)),
    length-zeros f.zero (suc n),
  )

  both :
      (n : ℕ) (s : String) (texts : List String) (v : Result RetrievalError (List F))
      (rest : Result RetrievalError (List (List F)))
      → IsVector n v
      → AreVectors n texts rest
      → AreVectors n (s ∷ texts) (v >>= λ x. rest >>= λ xs. ok (x ∷ xs))
  both n s texts (raised e) rest p q = absurd p
  both n s texts (ok v) (raised e) p q = absurd q
  both n s texts (ok v) (ok vs) p q = (ap suc q.0, (p, q.1))

  -- With a dimension above zero, the provider embeds any texts: one vector for each, each of the
  -- dimension.
  pub embed-AreVectors :
      (n : ℕ) (texts : List String) → AreVectors (suc n) texts (embed f h (suc n) texts)
  unfolding embed embed_text
  embed-AreVectors n [] = (refl, tt)
  embed-AreVectors n (s ∷ texts) =
      both (suc n) s texts (embed_text f h (suc n) s) (embed f h (suc n) texts)
        (embed_words-IsVector n (h.lower_words s)) (embed-AreVectors n texts)
