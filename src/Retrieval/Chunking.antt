-- ===== src/Retrieval/Chunking.antt =====
-- packages/retrieval/src/retrieval/chunking.py. A text is the list of its characters where the code
-- walks it. Whether a character is white space, and the hash, are parameters.
pub mod Slices
pub mod Progress
use Prim.Native.Char.{Char, code}
use governed_agent_platform.Prelude.{
  ℕ, zero, suc, ◌+◌, ◌-◌, ◌≤◌, min, String, ◌<>◌, Bool, true, false, Option, none, some, List, [],
  ◌∷◌, ◌++◌, length, get_elem?, take, drop, ltb, leb, if◌then◌else◌, ◌==◌, string_eq, id_eq, Value,
  Payload, text_of,
}
use governed_agent_platform.Prelude.Dict.{lookup}
use governed_agent_platform.Prelude.Exec.{Result, ok, raised}
use governed_agent_platform.Retrieval.Types.{ChunkRecord}

-- A configuration that was validated.
pub record ChunkingConfig : Type 0 where
  pub max_chars : ℕ
  pub overlap_chars : ℕ
  pub max_chars_ge : 50 ≤ max_chars

-- The characters of a text.
abbrev pub Text : Type 0
Text = List Char

unfoldable pub chars : String → Text
chars String.[] = []
chars (String.◌∷◌ c s) = c ∷ chars s

unfoldable pub text : Text → String
text [] = ""
text (c ∷ cs) = String.◌∷◌ c (text cs)

-- Where the walk of `split` is: before the first word, in a word, or behind one.
pub data Place : Type 0 where
  at_start in_word between : Place

abbrev pub after_space : Place → Place
after_space at_start = at_start
after_space _ = between

-- A word that is not the first one has a blank in front.
abbrev pub lead : Place → Text → Text
lead between word = " " ∷ word
lead _ word = word

abbrev pub cons_each : Text → Option (List Text) → Option (List Text)
cons_each segment none = none
cons_each segment (some rest) = some (segment ∷ rest)

module _ (is_space : Char → Bool) where
  unfoldable pub lstrip : Text → Text
  lstrip [] = []
  lstrip (c ∷ cs) = let rest = lstrip cs in if is_space c then rest else c ∷ cs

  -- `rstrip`: the white space at the end goes.
  unfoldable pub rstrip : Text → Text
  rstrip [] = []
  rstrip (c ∷ cs) = elim (rstrip cs) [
    | [] ↦ if is_space c then [] else c ∷ []
    | r ∷ rs ↦ c ∷ r ∷ rs
  ]

  -- `text.strip()`
  unfoldable pub strip : Text → Text
  unfolding lstrip rstrip
  strip cs = rstrip (lstrip cs)

  -- `" ".join(text.split())`, from a place on.
  unfoldable pub join_words : Place → Text → Text
  join_words place [] = []
  join_words place (c ∷ cs) =
      let skipped = join_words (after_space place) cs in
      let kept = join_words in_word cs in if is_space c then skipped else lead place (c ∷ kept)

  abbrev pub normalized : Text → Text
  normalized = join_words at_start

-- The blank at an index, where there is one.
abbrev pub is_blank_at : Option Char → Bool
is_blank_at none = false
is_blank_at (some c) = code c == 32

module _ (cs : Text) where
  -- `cs.rfind(" ", lo, lo + n)`
  unfoldable pub rfind : ℕ → ℕ → Option ℕ
  rfind lo zero = none
  rfind lo (suc n) =
      let rest = rfind lo n in if is_blank_at (get_elem? cs (lo + n)) then some (lo + n) else rest

module _ (max_chars overlap_chars : ℕ) (cs : Text) where
  -- The boundary, if it is beyond the start; else the end it would have cut.
  abbrev pub boundary_or : ℕ → ℕ → Option ℕ → ℕ
  boundary_or start end_ none = end_
  boundary_or start end_ (some boundary) = if ltb start boundary then boundary else end_

  -- The end of the slice from `start` on.
  unfoldable pub slice_end : ℕ → ℕ
  unfolding rfind
  slice_end start =
      let end_ = min (start + max_chars) (length cs) in
      if ltb end_ (length cs) then boundary_or start end_ (rfind cs start (end_ - start)) else end_

  module _ (is_space : Char → Bool) where
    abbrev pub segment : ℕ → ℕ → Text
    segment start end_ = strip is_space (take (end_ - start) (drop start cs))

    -- The `while` loop. `none` when the fuel was too little.
    unfoldable pub slices : ℕ → ℕ → Option (List Text)
    unfolding slice_end strip
    slices zero start = none
    slices (suc fuel) start =
        let rest = slices fuel (slice_end start - overlap_chars) in
        let this = segment start (slice_end start) in
        if ltb start (length cs)
        then (if leb (length cs) (slice_end start) then some (this ∷ []) else cons_each this rest)
        else some []

-- `_slice_text`, with a fuel for its loop.
unfoldable pub slice_text : (Char → Bool) → ChunkingConfig → ℕ → Text → Option (List Text)
unfolding slices join_words
slice_text is_space config fuel source =
    let cs = normalized is_space source in
    if leb (length cs) config.max_chars
    then some (cs ∷ [])
    else slices config.max_chars config.overlap_chars cs is_space fuel 0
