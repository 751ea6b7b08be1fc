-- ===== src/Json.antt =====
-- Values of JSON, and of `unknown` that the code takes from JSON columns.
use openvac_web.Prelude.{ℕ, String, Bool, true, false, Option, none, some, str_eq, if◌then◌else◌}

-- A number: a safe integer at or above zero, one below zero, or any other.
pub data Number : Type 0 where
  natural negative : ℕ → Number
  other_number : Number

mutual
  pub data Json : Type 0 where
    null_value : Json
    bool_value : Bool → Json
    number_value : Number → Json
    string_value : String → Json
    array_value : JsonItems → Json
    object_value : JsonFields → Json

  pub data JsonItems : Type 0 where
    no_items : JsonItems
    item : Json → JsonItems → JsonItems

  pub data JsonFields : Type 0 where
    no_fields : JsonFields
    field : String → Json → JsonFields → JsonFields

-- `value.name`; none is undefined.
unfoldable pub get : String → JsonFields → Option Json
get name no_fields = none
get name (field key value rest) = if str_eq key name then some value else get name rest

-- `value === "text"`
unfoldable pub is_text : String → Option Json → Bool
is_text text (some (string_value s)) = str_eq s text
is_text text _ = false

-- `value === true`
unfoldable pub is_true : Option Json → Bool
is_true (some (bool_value b)) = b
is_true _ = false

-- `value !== null && value !== undefined`
unfoldable pub is_present : Option Json → Bool
is_present none = false
is_present (some null_value) = false
is_present (some _) = true

-- The fields of an object, and none of anything else. An array has no field of the names that the
-- code asks for.
unfoldable pub record_value : Option Json → JsonFields
record_value (some (object_value fields)) = fields
record_value _ = no_fields
