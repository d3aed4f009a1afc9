-- ===== src/Json.antt =====
-- The values that json.loads gives, and what the adapters ask of them. A number stands as Python prints
-- it. An object is the dict in its order of insertion, in which each key stands once.
use gxassessms.Base.{
  String, Bool, true, false, not, Option, none, some, List, [], ◌∷◌, ◌||◌, str_eq, lookup,
}

mutual
  pub data Json : Type 0 where
    null : Json
    bool : Bool → Json
    number : String → Json
    text : String → Json
    array : Items → Json
    object : Fields → Json

  pub data Items : Type 0 where
    nil : Items
    cons : Json → Items → Items

  pub data Fields : Type 0 where
    end : Fields
    field : String → Json → Fields → Fields

abbrev pub Object : Type 0
Object = List (String × Json)

abbrev pub items : Items → List Json
items nil = []
items (cons j js) = j ∷ items js

abbrev pub fields : Fields → Object
fields end = []
fields (field k j fs) = (k, j) ∷ fields fs

-- isinstance(value, dict), isinstance(value, list) and isinstance(value, str)
abbrev pub as_object : Json → Option Object
as_object (object fs) = some (fields fs)
as_object _ = none

abbrev pub as_array : Json → Option (List Json)
as_array (array js) = some (items js)
as_array _ = none

abbrev pub as_text : Json → Option String
as_text (text s) = some s
as_text _ = none

-- bool(value)
unfoldable pub truthy : Json → Bool
truthy null = false
truthy (bool b) = b
truthy (number n) = not (str_eq n "0" || str_eq n "0.0" || str_eq n "-0.0")
truthy (text s) = not (str_eq s "")
truthy (array nil) = false
truthy (array (cons j js)) = true
truthy (object end) = false
truthy (object (field k j fs)) = true

-- d.get(k, default)
abbrev pub get_or_default : Json → String → Object → Json
get_or_default d k o = or_default d (lookup k o)
  where
    or_default : Json → Option Json → Json
    or_default d none = d
    or_default d (some j) = j

-- the dict behind a value that is not surely one: `value if isinstance(value, dict) else {}`
abbrev pub object_or_empty : Option Json → Object
object_or_empty (some (object fs)) = fields fs
object_or_empty _ = []

-- str(value); `repr` is str of a list or a dict
abbrev pub str_of : (Json → String) → Json → String
str_of repr null = "None"
str_of repr (bool true) = "True"
str_of repr (bool false) = "False"
str_of repr (number n) = n
str_of repr (text s) = s
str_of repr other = repr other

-- `str(value) if value else default`
abbrev pub str_or : (Json → String) → String → Json → String
str_or repr default j = pick_text (truthy j)
  where
    pick_text : Bool → String
    pick_text true = str_of repr j
    pick_text false = default
