-- ===== src/Retrieval/Chunking/Slices.antt =====
-- packages/retrieval/src/retrieval/chunking.py: the end of a slice, and how long the slices are.
use Prim.Native.Char.{Char}
use governed_agent_platform.Prelude.{
  ℕ, zero, suc, ◌+◌, ◌-◌, ◌≤◌, ◌<◌, ◌≡◌, min, Bool, true, Option, none, some, List, [], ◌∷◌, length,
  get_elem?, take, drop, All, length-take-le, arith, Bool-cases, inl, inr,
}
use governed_agent_platform.Retrieval.Chunking.{
  ChunkingConfig, Text, lstrip, rstrip, strip, normalized, is_blank_at, rfind, slice_end, segment,
  cons_each, slices, slice_text,
}

module _ (cs : Text) where
  -- What a search finds is a blank in its range.
  abbrev pub Found : ℕ → ℕ → Option ℕ → Type 0
  Found lo n none = Unit
  Found lo n (some b) = (lo ≤ b) × ((b < lo + n) × (is_blank_at (get_elem? cs b) ≡ true))

  pub rfind-Found : (lo n : ℕ) → Found lo n (rfind cs lo n)
  unfolding rfind
  rfind-Found lo zero = tt
  rfind-Found lo (suc n) = ground (arith, rfind-Found lo n)

  -- It is the last one: none of the range is behind it.
  abbrev pub AtLeast : ℕ → Option ℕ → Type 0
  AtLeast k none = ⊥
  AtLeast k (some b) = k ≤ b

  pub rfind-AtLeast :
      (lo n k : ℕ)
      → lo ≤ k
      → k < lo + n
      → is_blank_at (get_elem? cs k) ≡ true
      → AtLeast k (rfind cs lo n)
  unfolding rfind
  rfind-AtLeast lo zero k l u h = ground arith
  rfind-AtLeast lo (suc n) k l u h = elim (Bool-cases (is_blank_at (get_elem? cs (lo + n)))) [
    | inl hit ↦ rw hit (omega arith)
    | inr miss ↦ rw miss (rfind-AtLeast lo n k l (ground arith) h)
  ]

  module _ (max_chars overlap_chars : ℕ) where
    pub slice_end-le :
        (start : ℕ)
        → (slice_end max_chars overlap_chars cs start ≤ start + max_chars)
          × (slice_end max_chars overlap_chars cs start ≤ length cs)
    unfolding slice_end
    slice_end-le start =
        ground (arith, rfind-Found start (min (start + max_chars) (length cs) - start))

abbrev pub IsShort : ℕ → Option (List Text) → Type 0
IsShort n none = Unit
IsShort n (some segments) = All (λ s. length s ≤ n) segments

cons_each-IsShort :
    (n : ℕ) (s : Text) (o : Option (List Text))
    → length s ≤ n
    → IsShort n o
    → IsShort n (cons_each s o)
cons_each-IsShort n s none h k = tt
cons_each-IsShort n s (some rest) h k = (h, k)

module _ (is_space : Char → Bool) where
  length-lstrip-le : (cs : Text) → length (lstrip is_space cs) ≤ length cs
  unfolding lstrip
  length-lstrip-le [] = omega arith
  length-lstrip-le (c ∷ cs) = ground (arith, length-lstrip-le cs)

  length-rstrip-le : (cs : Text) → length (rstrip is_space cs) ≤ length cs
  unfolding rstrip
  length-rstrip-le [] = omega arith
  length-rstrip-le (c ∷ cs) = ground (arith, length-rstrip-le cs)

  length-strip-le : (cs : Text) → length (strip is_space cs) ≤ length cs
  unfolding strip
  length-strip-le cs = omega (arith, length-rstrip-le (lstrip is_space cs), length-lstrip-le cs)

  module _ (max_chars overlap_chars : ℕ) (cs : Text) where
    segment-le :
        (start : ℕ)
        → length (
            segment max_chars overlap_chars cs is_space start
              (slice_end max_chars overlap_chars cs start))
          ≤ max_chars
    segment-le start =
        let e = slice_end max_chars overlap_chars cs start in
        omega (
          arith,
          length-strip-le (take (e - start) (drop start cs)),
          length-take-le (e - start) (drop start cs),
          (slice_end-le cs max_chars overlap_chars start).0,
        )

    slices-IsShort :
        (fuel start : ℕ) → IsShort max_chars (slices max_chars overlap_chars cs is_space fuel start)
    unfolding slices
    slices-IsShort zero start = tt
    slices-IsShort (suc fuel) start = ground (
      arith,
      segment-le start,
      cons_each-IsShort max_chars
          (segment max_chars overlap_chars cs is_space start
            (slice_end max_chars overlap_chars cs start))
          (slices max_chars overlap_chars cs is_space fuel
            (slice_end max_chars overlap_chars cs start - overlap_chars))
          (segment-le start)
          (slices-IsShort fuel (slice_end max_chars overlap_chars cs start - overlap_chars)),
    )

  -- Whatever the fuel, no slice of a text is longer than the maximum, where slicing ends.
  pub slice_text-IsShort :
      (config : ChunkingConfig) (fuel : ℕ) (source : Text)
      → IsShort config.max_chars (slice_text is_space config fuel source)
  unfolding slice_text
  slice_text-IsShort config fuel source = ground (
    arith,
    slices-IsShort config.max_chars config.overlap_chars (normalized is_space source) fuel 0,
  )
