-- ===== src/Automations/Inputs/Json.antt =====
-- The JSON values of step inputs and event payloads, and their own properties. The code also meets
-- what every object inherits, when a key is read that is the name of an inherited property.
use robia_back.Prelude.{String, Bool, Option, none, some, str_eq, if◌then◌else◌}

-- A number is kept as its text. `member` is an inherited property, which is no JSON value.
mutual
  pub data Json : Type 0 where
    null : Json
    bool : Bool → Json
    number : String → Json
    text : String → Json
    array : Items → Json
    object : Fields → Json
    member : String → Json

  pub data Items : Type 0 where
    no_items : Items
    item : Json → Items → Items

  pub data Fields : Type 0 where
    no_fields : Fields
    field : String → Json → Fields → Fields

-- An own property; `none` is `undefined`.
unfoldable pub get_field : String → Fields → Option Json
get_field key no_fields = none
get_field key (field k v entries) =
    let rest = get_field key entries in if str_eq k key then some v else rest

-- `object[key] = value`
unfoldable pub put_field : String → Json → Fields → Fields
put_field key v no_fields = field key v no_fields
put_field key v (field k u entries) =
    let rest = put_field key v entries in if str_eq k key then field k v entries else field k u rest

-- The input of a step: `undefined`, or an object.
abbrev pub Input : Type 0
Input = Option Fields

-- `input?.[key]`, for a key that no object inherits.
abbrev pub value_at : String → Input → Option Json
value_at key none = none
value_at key (some entries) = get_field key entries
