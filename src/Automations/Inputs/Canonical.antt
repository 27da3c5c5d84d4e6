-- ===== src/Automations/Inputs/Canonical.antt =====
-- `canonicalizeInput` with `requireStringInput` and `canonicalizeObjectInput` of
-- src/ops-automation/actions/ops-actions-registry.service.ts.
use Prim.Native.String
use robia_back.Prelude.{String, Option, none, some, List, [], ◌∷◌, is_blank, str_eq, if◌then◌else◌}
use robia_back.Automations.Actions.{Descriptor, get_action}
use robia_back.Automations.Inputs.Json.{
  Json, null, text, object, member, Fields, no_fields, put_field, Input, value_at,
}

-- `UnknownOpsActionError`, and `InvalidOpsActionInputError` of a text or of an object, with the
-- name of its field.
pub data InputError : Type 0 where
  unknown_action : String → InputError
  invalid_input : String → InputError
  not_an_object : String → InputError

-- The message of the error.
abbrev pub message_of : InputError → String
message_of (unknown_action action_type) =
    String.◌++◌ "Action type \"" (String.◌++◌ action_type "\" is not in the Ops action allowlist.")
message_of (invalid_input key) = String.◌++◌ "Missing or invalid \"" (String.◌++◌ key "\" input.")
message_of (not_an_object key) = String.◌++◌ "\"" (String.◌++◌ key "\" must be a plain object.")

pub data Checked (A : Type 0) : Type 0 where
  accepted : A → Checked A
  refused : InputError → Checked A

abbrev pub and_then : {A B : Type 0} → Checked A → (A → Checked B) → Checked B
and_then (accepted a) f = f a
and_then (refused e) f = refused e

abbrev pub string_of : Option Json → Option String
string_of (some (text s)) = if is_blank s then none else some s
string_of _ = none

unfoldable pub require_string_input : Input → String → Checked String
require_string_input input key = elim (string_of (value_at key input)) [
  | none ↦ refused (invalid_input key)
  | some s ↦ accepted s
]

-- The first loop over `inputSchema`.
unfoldable pub require_all : List String → Input → Fields → Checked Fields
unfolding require_string_input
require_all [] input canonical = accepted canonical
require_all (key ∷ keys) input canonical =
    and_then (require_string_input input key) (λ s. require_all keys input canonical)

-- The second loop, which copies the value as it is.
unfoldable pub copy_all : List String → Input → Fields → Fields
copy_all [] input canonical = canonical
copy_all (key ∷ keys) input canonical =
    copy_all keys input
      (elim (value_at key input) [ none ↦ canonical | some v ↦ put_field key v canonical ])

-- One field of `optionalInputSchema`.
unfoldable pub copy_optional_value : Input → String → Option Json → Fields → Checked Fields
unfolding require_string_input
copy_optional_value input key none canonical = accepted canonical
copy_optional_value input key (some null) canonical = accepted canonical
copy_optional_value input key (some v) canonical =
    and_then (require_string_input input key) (λ s. accepted (put_field key (text s) canonical))

unfoldable pub copy_optional : List String → Input → Fields → Checked Fields
unfolding copy_optional_value
copy_optional [] input canonical = accepted canonical
copy_optional (key ∷ keys) input canonical =
    and_then (copy_optional_value input key (value_at key input) canonical)
      (copy_optional keys input)

-- A plain object, copied by `{ ...value }`; `Object.prototype` has no enumerable property.
unfoldable pub canonicalize_object_input : String → Option Json → Checked Fields
canonicalize_object_input key none = accepted no_fields
canonicalize_object_input key (some null) = accepted no_fields
canonicalize_object_input key (some (object entries)) = accepted entries
canonicalize_object_input key (some (member name)) =
    if str_eq name "__proto__" then accepted no_fields else refused (not_an_object key)
canonicalize_object_input key (some _) = refused (not_an_object key)

unfoldable pub copy_objects : List String → Input → Fields → Checked Fields
unfolding canonicalize_object_input
copy_objects [] input canonical = accepted canonical
copy_objects (key ∷ keys) input canonical =
    and_then (canonicalize_object_input key (value_at key input))
      (λ entries. copy_objects keys input (put_field key (object entries) canonical))

unfoldable pub canonicalize_with : Descriptor → Input → Checked Fields
unfolding require_all copy_all copy_optional copy_objects
canonicalize_with action input = and_then (require_all action.input_schema input no_fields) λ start.
    and_then
      (copy_optional action.optional_input_schema input (copy_all action.input_schema input start))
      (copy_objects action.object_input_fields input)

unfoldable pub canonicalize_input : String → Input → Checked Fields
unfolding canonicalize_with
canonicalize_input action_type input = elim (get_action action_type) [
  | none ↦ refused (unknown_action action_type)
  | some action ↦ canonicalize_with action input
]
