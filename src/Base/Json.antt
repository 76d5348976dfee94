-- ===== src/Base/Json.antt =====
-- JSON values. A JSON column holds the value whose text it is, since parsing the text of a value
-- gives it back.
use Prim.Native.String.{String}
use mathlib.Core.Bool.{Bool}

mutual
  pub data Json : Type 0 where
    null : Json
    truth : Bool → Json
    number : String → Json
    text : String → Json
    array : Items → Json
    object : Fields → Json

  pub data Items : Type 0 where
    no_items : Items
    item : Json → Items → Items

  pub data Fields : Type 0 where
    no_fields : Fields
    field : String → Json → Fields → Fields

-- `value ?? fallback`
abbrev pub or_json : Json → Json → Json
or_json null fallback = fallback
or_json (truth b) fallback = truth b
or_json (number n) fallback = number n
or_json (text t) fallback = text t
or_json (array xs) fallback = array xs
or_json (object fs) fallback = object fs
