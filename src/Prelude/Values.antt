-- ===== src/Prelude/Values.antt =====
-- Python objects that the program stores in payloads: the values of JSON.
use Prim.Native.String.{String}
use mathlib.Core.Bool.{Bool}
use Prim.Native.Nat.{ℕ}
use mathlib.Core.List.{List, [], ◌∷◌}

-- `literal` is a number that is no natural number, by its decimal literal. `uuid` is the
-- text of a `UUID`.
mutual
  pub data Value : Type 0 where
    null : Value
    bool : Bool → Value
    int : ℕ → Value
    literal : String → Value
    uuid : ℕ → Value
    str : String → Value
    list : Items → Value
    dict : Fields → Value

  pub data Items : Type 0 where
    nil : Items
    cons : Value → Items → Items

  pub data Fields : Type 0 where
    end : Fields
    field : String → Value → Fields → Fields

-- A `UUID`: the number that it stands for. The program only compares them.
abbrev pub Uuid : Type 0
Uuid = ℕ

-- `dict[str, object]`
abbrev pub Payload : Type 0
Payload = List (String × Value)

fields_of : Payload → Fields
fields_of [] = end
fields_of ((k, v) ∷ d) = field k v (fields_of d)

-- A dictionary as a value inside another one.
unfoldable pub as_dict : Payload → Value
unfolding fields_of
as_dict d = dict (fields_of d)

-- `str(value)`. `repr` is the text of a value that is no text.
abbrev pub text_of : (Value → String) → Value → String
text_of repr (Value.str s) = s
text_of repr v = repr v
