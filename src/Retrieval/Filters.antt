-- ===== src/Retrieval/Filters.antt =====
-- packages/retrieval/src/retrieval/filters.py, on the four columns of a record that it reads.
use governed_agent_platform.Prelude.{
  String, Bool, true, false, ◌≡◌, refl, sym, Option, none, some, ◌==◌, string_eq, if◌then◌else◌,
  not, arith, ◌↔◌,
}
use governed_agent_platform.Retrieval.Types.{ChunkRecord, RetrievalFilter}

pub record Columns : Type 0 where
  pub tenant_id : String
  pub source_type : String
  pub source_id : String
  pub object_id : Option String

-- `str(record.get("object_id"))`
abbrev pub object_text : Option String → String
object_text none = "None"
object_text (some s) = s

-- `wanted is None or text == wanted`
abbrev pub admits : Option String → String → Bool
admits none text = true
admits (some wanted) text = text == wanted

unfoldable pub matches_filter : Columns → RetrievalFilter → Bool
matches_filter r f =
    if not (r.tenant_id == f.tenant_id)
    then false
    else if not (admits f.source_type r.source_type)
    then false
    else if not (admits f.source_id r.source_id)
    then false
    else admits f.object_id (object_text r.object_id)

abbrev pub columns : {F : Type 0} → ChunkRecord F → Columns
columns c = record {
  tenant_id = c.tenant_id;
  source_type = c.source_type;
  source_id = c.source_id;
  object_id = c.object_id;
}

-- What a filter asks of one column.
abbrev pub Asks : Option String → String → Type 0
Asks none text = Unit
Asks (some wanted) text = text ≡ wanted

-- What a filter's object asks of a record's: to be it, or for a record without an object that the
-- filter spells it "None".
abbrev pub OfObject : Option String → Option String → Type 0
OfObject none object_id = Unit
OfObject (some wanted) none = wanted ≡ "None"
OfObject (some wanted) (some s) = s ≡ wanted

pub Asks-OfObject :
    (wanted object_id : Option String)
    → Asks wanted (object_text object_id)
    → OfObject wanted object_id
Asks-OfObject none object_id h = tt
Asks-OfObject (some wanted) none h = sym h
Asks-OfObject (some wanted) (some s) h = h

-- What a filter asks of a record.
abbrev pub IsWanted : RetrievalFilter → Columns → Type 0
IsWanted f r =
    (r.tenant_id ≡ f.tenant_id)
    × (Asks f.source_type r.source_type
        × (Asks f.source_id r.source_id × Asks f.object_id (object_text r.object_id)))

admits_iff_Asks : (o : Option String) (s : String) → (admits o s ≡ true) ↔ Asks o s
admits_iff_Asks none s = (λ h. tt, λ h. refl)
admits_iff_Asks (some w) s = string_eq.decides s w

pub matches_filter-IsWanted :
    (r : Columns) (f : RetrievalFilter) → matches_filter r f ≡ true → IsWanted f r
unfolding matches_filter
matches_filter-IsWanted r f h = (
  (string_eq.decides r.tenant_id f.tenant_id).0 (ground arith),
  (
    (admits_iff_Asks f.source_type r.source_type).0 (ground arith),
    (
      (admits_iff_Asks f.source_id r.source_id).0 (ground arith),
      (admits_iff_Asks f.object_id (object_text r.object_id)).0 (ground arith),
    ),
  ),
)

pub IsWanted-matches_filter :
    (r : Columns) (f : RetrievalFilter) → IsWanted f r → matches_filter r f ≡ true
unfolding matches_filter
IsWanted-matches_filter r f h =
    let a = (string_eq.decides r.tenant_id f.tenant_id).1 h.0 in
    let b = (admits_iff_Asks f.source_type r.source_type).1 h.1.0 in
    let c = (admits_iff_Asks f.source_id r.source_id).1 h.1.1.0 in
    let d = (admits_iff_Asks f.object_id (object_text r.object_id)).1 h.1.1.1 in
    rw (a, b, c, d) refl
