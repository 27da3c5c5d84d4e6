-- ===== src/Automations/Inputs/Tests.antt =====
-- Inputs of steps of src/ops-automation.
use robia_back.Prelude.{◌≡◌, refl, String, false, none, some, any, str_eq, is_blank}
use robia_back.Automations.Actions.{Descriptor, get_action}
use robia_back.Automations.Inputs.Json.{
  text, object, member, Fields, no_fields, field, get_field, put_field,
}
use robia_back.Automations.Inputs.Canonical.{
  accepted, canonicalize_input, canonicalize_with, require_all, require_string_input, copy_all,
  copy_optional, copy_optional_value, copy_objects, canonicalize_object_input,
}
use robia_back.Automations.Inputs.Templating.{
  placeholder, payload_value, resolve_value, resolve_leaf, strip, word_end, is_word,
}
use robia_back.Automations.Inputs.Idempotence.{canonicalize_input_stable}
use robia_back.Automations.Inputs.Stable.{declared}

-- A placeholder that no event has declared reads what every object inherits.
inherited_placeholder :
    resolve_value (some no_fields) (text "{{event.constructor}}") ≡ member "constructor"
unfolding resolve_value resolve_leaf placeholder payload_value get_field strip word_end is_word
inherited_placeholder = refl

-- An email, with a secret that is no input of it.
abbrev email : Fields
email =
    field "templateKey" (text "audit_ready")
      (field "token" (text "secret") (field "auditId" (text "a1") no_fields))

abbrev canonical_email : Fields
canonical_email =
    field "templateKey" (text "audit_ready")
      (field "auditId" (text "a1") (field "templateData" (object no_fields) no_fields))

email_accepted :
    canonicalize_input "robia.notification.send_email" (some email) ≡ accepted canonical_email
unfolding canonicalize_input get_action canonicalize_with require_all require_string_input copy_all
    copy_optional copy_optional_value copy_objects canonicalize_object_input get_field put_field
    is_blank
email_accepted = refl

canonicalize_input_stable_example :
    (action : Descriptor) × (get_action "robia.notification.send_email" ≡ some action)
    × (canonicalize_input "robia.notification.send_email" (some canonical_email)
        ≡ accepted canonical_email)
    × ((key : String)
        → any (λ k. str_eq k key) (declared action) ≡ false
        → get_field key canonical_email ≡ none)
canonicalize_input_stable_example =
    canonicalize_input_stable "robia.notification.send_email" (some email) canonical_email
      email_accepted
