-- ===== src/Workflows/Json.antt =====
-- Values of type `unknown` and `JsonObject`, the fields of an object in their order. What is no value
-- of JSON is `not_json` (undefined, a function, a symbol), an object with a prototype of its own, such as
-- a Date, is `foreign`, and a reference back to an enclosing object is `ancestor`.
use ai_knowledge_system.Common.{
  String, Bool, Option, none, some, List, [], ◌∷◌, Number, str_eq, if◌then◌else◌,
}

mutual
  pub data Json : Type 0 where
    null : Json
    bool : Bool → Json
    number : Number → Json
    text : String → Json
    array : Items → Json
    object : JsonObject → Json
    not_json foreign ancestor : Json

  pub data Items : Type 0 where
    nil : Items
    cons : Json → Items → Items

  pub data JsonObject : Type 0 where
    empty : JsonObject
    field : String → Json → JsonObject → JsonObject

unfoldable pub get_field : String → JsonObject → Option Json
get_field key empty = none
get_field key (field k value rest) = if str_eq k key then some value else get_field key rest

-- `{ ...fields, [key]: value }`: a field that is there keeps its place.
unfoldable pub set_field : String → Json → JsonObject → JsonObject
set_field key value empty = field key value empty
set_field key value (field k old rest) =
    if str_eq k key then field key value rest else field k old (set_field key value rest)

abbrev pub texts : List String → Items
texts [] = nil
texts (s ∷ rest) = cons (text s) (texts rest)

abbrev pub text_or_null : Option String → Json
text_or_null none = null
text_or_null (some s) = text s

-- `typeof value === "string" ? value : …`, at a field that may be missing.
abbrev pub as_text : Option Json → Option String
as_text (some (text s)) = some s
as_text _ = none
