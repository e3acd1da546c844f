-- ===== src/Retrieval/Ranking.antt =====
-- packages/retrieval/src/retrieval/store.py: the order of the ranked records, Python's order of the
-- tuples `(-similarity, source_id, chunk_index)`.
use Prim.Native.Char.{code}
use text.Mathlib.TextEquality.{Char-path}
use governed_agent_platform.Prelude.{
  ℕ, String, Bool, true, false, ◌≡◌, refl, ◌↔◌, if◌then◌else◌, ◌==◌, string_eq, ltb, arith,
}
use governed_agent_platform.Prelude.Sorting.{IsOrder}
use governed_agent_platform.Retrieval.Floats.{Floats}

-- `s < t` on texts: by the numbers of the characters.
unfoldable pub text_before : String → String → Bool
text_before String.[] String.[] = false
text_before String.[] (String.◌∷◌ d t) = true
text_before (String.◌∷◌ c s) String.[] = false
text_before (String.◌∷◌ c s) (String.◌∷◌ d t) =
    let rest = text_before s t in
    if ltb (code c) (code d) then true else if ltb (code d) (code c) then false else rest

text_before-asymm : (s t : String) → text_before s t ≡ true → text_before t s ≡ false
unfolding text_before
text_before-asymm String.[] String.[] h = refl
text_before-asymm String.[] (String.◌∷◌ d t) h = refl
text_before-asymm (String.◌∷◌ c s) String.[] h = ground arith
text_before-asymm (String.◌∷◌ c s) (String.◌∷◌ d t) h = ground (arith, text_before-asymm s t)

pub text_before_self : (s : String) → text_before s s ≡ false
text_before_self s = ground (arith, text_before-asymm s s)

text_before_trans :
    (s t u : String) → text_before t s ≡ false → text_before u t ≡ false → text_before u s ≡ false
unfolding text_before
text_before_trans String.[] String.[] String.[] h k = refl
text_before_trans s (String.◌∷◌ d t) String.[] h k = ground arith
text_before_trans (String.◌∷◌ c s) String.[] u h k = ground arith
text_before_trans String.[] String.[] (String.◌∷◌ e u) h k = refl
text_before_trans String.[] (String.◌∷◌ d t) (String.◌∷◌ e u) h k = refl
text_before_trans (String.◌∷◌ c s) (String.◌∷◌ d t) (String.◌∷◌ e u) h k =
    ground (arith, text_before_trans s t u)

text_before-total : (s t : String) → text_before s t ≡ false → text_before t s ≡ false → s ≡ t
unfolding text_before
text_before-total String.[] String.[] h k = refl
text_before-total String.[] (String.◌∷◌ d t) h k = ground arith
text_before-total (String.◌∷◌ c s) String.[] h k = ground arith
text_before-total (String.◌∷◌ c s) (String.◌∷◌ d t) h k =
    let same : c ≡ d = Char-path c d (ground arith) in
    let rest : s ≡ t = ground (arith, text_before-total s t) in λ i. String.◌∷◌ (same i) (rest i)

-- A tuple that is sorted by.
pub record Key (F : Type 0) : Type 0 where
  pub score : F
  pub source_id : String
  pub chunk_index : ℕ

-- What the order of the floats keeps where no NaN is among them.
pub record IsFloatOrder {F : Type 0} (f : Floats F) : Type 0 where
  pub eq_iff : (a b : F) → (f.eq a b ≡ true) ↔ ((f.lt a b ≡ false) × (f.lt b a ≡ false))
  pub asymm : (a b : F) → f.lt a b ≡ true → f.lt b a ≡ false
  pub trans : (a b c : F) → f.lt b a ≡ false → f.lt c b ≡ false → f.lt c a ≡ false

module _ {F : Type 0} (f : Floats F) where
  unfoldable pub key_before : Key F → Key F → Bool
  unfolding text_before
  key_before x y =
      if f.eq x.score y.score
      then (if x.source_id == y.source_id
          then ltb x.chunk_index y.chunk_index
          else text_before x.source_id y.source_id)
      else f.lt x.score y.score

  key_before-asymm : IsFloatOrder f → (x y : Key F) → key_before x y ≡ true → key_before y x ≡ false
  unfolding key_before
  key_before-asymm o x y h = ground (
    arith,
    o.eq_iff x.score y.score,
    o.eq_iff y.score x.score,
    o.asymm x.score y.score,
    string_eq.decides x.source_id y.source_id,
    string_eq.decides y.source_id x.source_id,
    text_before-asymm x.source_id y.source_id,
  )

  key_before_trans :
      IsFloatOrder f
      → (x y z : Key F) → key_before y x ≡ false
      → key_before z y ≡ false
      → key_before z x ≡ false
  unfolding key_before
  key_before_trans o x y z h k = ground (
    arith,
    o.eq_iff x.score y.score,
    o.eq_iff y.score x.score,
    o.eq_iff z.score y.score,
    o.eq_iff z.score x.score,
    o.trans x.score y.score z.score,
    o.trans y.score z.score x.score,
    o.trans z.score x.score y.score,
    o.trans x.score z.score y.score,
    o.trans z.score y.score x.score,
    o.trans y.score x.score z.score,
    string_eq.decides y.source_id x.source_id,
    string_eq.decides z.source_id y.source_id,
    string_eq.decides z.source_id x.source_id,
    text_before_trans x.source_id y.source_id z.source_id,
    text_before-total x.source_id y.source_id,
    text_before-total y.source_id z.source_id,
  )

  pub key_before-IsOrder : IsFloatOrder f → IsOrder key_before
  key_before-IsOrder o = record { asymm = key_before-asymm o; trans = key_before_trans o }
