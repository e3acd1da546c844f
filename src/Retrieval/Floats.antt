-- ===== src/Retrieval/Floats.antt =====
-- packages/retrieval/src/retrieval/embeddings.py: `cosine_similarity`, over any numbers with the
-- operations that it uses.
use governed_agent_platform.Prelude.{Bool, List, [], ◌∷◌, ◌||◌, if◌then◌else◌}

-- What the package does with a float.
pub record Floats (F : Type 0) : Type 0 where
  pub zero : F
  pub one : F
  pub add : F → F → F
  pub sub : F → F → F
  pub mul : F → F → F
  pub div : F → F → F
  pub neg : F → F
  pub sqrt : F → F
  pub lt : F → F → Bool
  pub eq : F → F → Bool

module _ {F : Type 0} (f : Floats F) where
  -- `sum(a * b for a, b in zip(left, right))`, from `acc` on.
  unfoldable pub dot : F → List F → List F → F
  dot acc (a ∷ left) (b ∷ right) = dot (f.add acc (f.mul a b)) left right
  dot acc left right = acc

  -- `math.sqrt(sum(value * value for value in values))`
  unfoldable pub norm : List F → F
  unfolding dot
  norm values = f.sqrt (dot f.zero values values)

  unfoldable pub cosine_similarity : List F → List F → F
  unfolding dot norm
  cosine_similarity [] right = f.zero
  cosine_similarity (a ∷ left) [] = f.zero
  cosine_similarity (a ∷ left) (b ∷ right) =
      let left_norm = norm (a ∷ left) in
      let right_norm = norm (b ∷ right) in
      if f.eq left_norm f.zero || f.eq right_norm f.zero
      then f.zero
      else f.div (dot f.zero (a ∷ left) (b ∷ right)) (f.mul left_norm right_norm)

  -- `max(0.0, score)`
  abbrev pub not_negative : F → F
  not_negative score = if f.lt f.zero score then score else f.zero
