-- ===== src/Retrieval/Chunking/Progress.antt =====
-- packages/retrieval/src/retrieval/chunking.py: when the loop of `_slice_text` ends.
use Prim.Native.Char.{Char}
use governed_agent_platform.Prelude.{
  ℕ, zero, suc, ◌+◌, ◌-◌, ◌≤◌, ◌<◌, ◌≡◌, refl, min, Bool, true, false, Option, none, some, List,
  length, get_elem?, leb, arith, Bool-cases, ◌⊎◌, inl, inr,
}
use governed_agent_platform.Retrieval.Chunking.{
  ChunkingConfig, Text, normalized, is_blank_at, rfind, slice_end, segment, cons_each, slices,
  slice_text,
}
use governed_agent_platform.Retrieval.Chunking.Slices.{
  IsShort, slice_text-IsShort, Found, rfind-Found, AtLeast, rfind-AtLeast,
}

abbrev pub Ends : Option (List Text) → Type 0
Ends none = ⊥
Ends (some segments) = Unit

-- There are slices, none of them longer than the maximum.
abbrev pub EndsWithin : ℕ → Option (List Text) → Type 0
EndsWithin n o = Ends o × IsShort n o

cons_each-Ends : (s : Text) (o : Option (List Text)) → Ends o → Ends (cons_each s o)
cons_each-Ends s none h = h
cons_each-Ends s (some rest) h = tt

le_or_lt : (a b : ℕ) → (a ≤ b) ⊎ (b < a)
le_or_lt a b = elim (Bool-cases (leb a b)) [
  | inl h ↦ inl (ground arith)
  | inr h ↦ inr (ground arith)
]

module _ (max_chars overlap_chars : ℕ) (cs : Text) where
  -- The index of a blank in the window from `start`, beyond the overlap.
  abbrev pub IsBreak : ℕ → ℕ → Type 0
  IsBreak start k =
      (start + overlap_chars < k)
      × ((k < start + max_chars) × (is_blank_at (get_elem? cs k) ≡ true))

  module _ (wide : overlap_chars < max_chars)
      (breaks : (start : ℕ) → start + max_chars < length cs → (k : ℕ) × IsBreak start k) where
    -- Each round but the last moves on.
    advances :
        (start : ℕ)
        → start < length cs
        → slice_end max_chars overlap_chars cs start < length cs
        → start + overlap_chars < slice_end max_chars overlap_chars cs start
    unfolding slice_end
    advances start h k = elim (le_or_lt (length cs) (start + max_chars)) [
      | inl at_end ↦ absurd (ground arith)
      | inr further ↦
          let (b, (lo, (hi, blank))) = breaks start further in
          let n = min (start + max_chars) (length cs) - start in
          ground (
            arith,
            rfind-AtLeast cs start n b (omega arith) (omega arith) blank,
            rfind-Found cs start n,
          )
    ]

    module _ (is_space : Char → Bool) where
      slices-Ends :
          (fuel start : ℕ)
          → length cs - start < fuel
          → Ends (slices max_chars overlap_chars cs is_space fuel start)
      unfolding slices
      slices-Ends zero start h = ground arith
      slices-Ends (suc fuel) start h =
          let e = slice_end max_chars overlap_chars cs start in
          ground (
            arith,
            advances start,
            cons_each-Ends (segment max_chars overlap_chars cs is_space start e)
                (slices max_chars overlap_chars cs is_space fuel (e - overlap_chars)),
            slices-Ends fuel (e - overlap_chars),
          )

  -- The loop stands still where the last blank of the first window is not beyond the overlap.
  module _ (b : ℕ) (first : 0 < b) (near : b ≤ overlap_chars) (within : b < max_chars)
      (long : max_chars < length cs) (blank : is_blank_at (get_elem? cs b) ≡ true)
      (last : (k : ℕ) → b < k → k < max_chars → is_blank_at (get_elem? cs k) ≡ false) where
    stuck_last :
        (o : Option ℕ)
        → Found cs 0 (min (0 + max_chars) (length cs) - 0) o
        → AtLeast cs b o
        → o ≡ some b
    stuck_last none f h = absurd h
    stuck_last (some k) (l, (u, t)) h = ground (arith, last k)

    stuck_end : slice_end max_chars overlap_chars cs 0 ≡ b
    unfolding slice_end
    stuck_end =
        let n = min (0 + max_chars) (length cs) - 0 in
        ground (
          arith,
          rfind-AtLeast cs 0 n b (omega arith) (omega arith) blank,
          stuck_last (rfind cs 0 n) (rfind-Found cs 0 n),
        )

    stuck :
        (is_space : Char → Bool) (fuel : ℕ)
        → slices max_chars overlap_chars cs is_space fuel 0 ≡ none
    unfolding slices
    stuck is_space zero = refl
    stuck is_space (suc fuel) = ground (arith, stuck_end, stuck is_space fuel)

module _ (is_space : Char → Bool) (config : ChunkingConfig) (source : Text) where
  abbrev pub source_chars : Text
  source_chars = normalized is_space source

  -- `_slice_text` ends, within one round for each character and one more, and no slice is longer
  -- than the maximum, where the overlap is below the maximum and every window that does not reach the
  -- end has a blank beyond the overlap.
  pub slice_text-Ends :
      config.overlap_chars < config.max_chars
      → ((start : ℕ)
          → start + config.max_chars < length source_chars
          → (k : ℕ) × IsBreak config.max_chars config.overlap_chars source_chars start k)
      → EndsWithin config.max_chars (slice_text is_space config (suc (length source_chars)) source)
  unfolding slice_text
  slice_text-Ends wide breaks = (
    ground (
      arith,
      slices-Ends config.max_chars config.overlap_chars source_chars wide breaks is_space
          (suc (length source_chars)) 0 (omega arith),
    ),
    slice_text-IsShort is_space config (suc (length source_chars)) source,
  )

  -- `_slice_text` never ends where the text is longer than the maximum and the last blank of its
  -- first window lies in the overlap, at an index `b` above 0: no fuel is enough.
  pub slice_text-stuck :
      (b : ℕ)
      → 0 < b
      → b ≤ config.overlap_chars
      → b < config.max_chars
      → config.max_chars < length source_chars
      → is_blank_at (get_elem? source_chars b) ≡ true
      → ((k : ℕ) → b < k → k < config.max_chars → is_blank_at (get_elem? source_chars k) ≡ false)
      → (fuel : ℕ) → slice_text is_space config fuel source ≡ none
  unfolding slice_text
  slice_text-stuck b first near within long blank last fuel = ground (
    arith,
    stuck config.max_chars config.overlap_chars source_chars b first near within long blank last
        is_space fuel,
  )
