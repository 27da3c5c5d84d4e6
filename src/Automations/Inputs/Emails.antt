-- ===== src/Automations/Inputs/Emails.antt =====
-- `canonicalizeInput` of src/ops-automation/actions/ops-actions-registry.service.ts for
-- `robia.notification.send_email`, with a text, an optional text and an object.
use robia_back.Prelude.{
  ◌≡◌, refl, sym, ap, ◌∙◌, subst, inl, inr, true, false, String, Option, none, some, [], ◌∷◌, any,
  is_blank, str_eq, arith, Bool-cases, Option-cases,
}
use robia_back.Automations.Actions.{Descriptor}
use robia_back.Automations.Inputs.Json.{
  Json, null, bool, number, text, array, object, member, Fields, no_fields, field, get_field,
  put_field, Input, value_at,
}
use robia_back.Automations.Inputs.Canonical.{
  accepted, string_of, require_string_input, require_all, copy_all, copy_optional_value,
  copy_optional, canonicalize_object_input, copy_objects, canonicalize_with,
}
use robia_back.Automations.Inputs.Stable.{
  declared, IsStable, Keeps, text_of, and_then_accepted, unaccepted,
}

abbrev email : Descriptor
email = record {
  type_name = "robia.notification.send_email";
  retry_safe = true;
  input_schema = "templateKey" ∷ [];
  optional_input_schema = "auditId" ∷ [];
  object_input_fields = "templateData" ∷ [];
}

-- The canonical input of an email: its template, the audit if there is one, and the variables.
abbrev email_input : String → Option String → Fields → Fields
email_input s none entries =
    field "templateKey" (text s) (field "templateData" (object entries) no_fields)
email_input s (some a) entries =
    field "templateKey" (text s)
      (field "auditId" (text a) (field "templateData" (object entries) no_fields))

abbrev IsFilled : Option String → Type 0
IsFilled none = Unit
IsFilled (some a) = is_blank a ≡ false

optional_accepted :
    (input : Input) (o : Option Json) (start c : Fields)
    → value_at "auditId" input ≡ o
    → copy_optional_value input "auditId" o start ≡ accepted c
    → (a : Option String) × IsFilled a
      × (c ≡ elim a [ none ↦ start | some b ↦ put_field "auditId" (text b) start ])
unfolding copy_optional_value require_string_input
optional_accepted input none start c e h = (none, tt, ground arith)
optional_accepted input (some null) start c e h = (none, tt, ground arith)
optional_accepted input (some (bool b)) start c e h = absurd (ground (arith, ap string_of e))
optional_accepted input (some (number n)) start c e h = absurd (ground (arith, ap string_of e))
optional_accepted input (some (array xs)) start c e h = absurd (ground (arith, ap string_of e))
optional_accepted input (some (object fs)) start c e h = absurd (ground (arith, ap string_of e))
optional_accepted input (some (member n)) start c e h = absurd (ground (arith, ap string_of e))
optional_accepted input (some (text s)) start c e h = elim (Bool-cases (is_blank s)) [
  | inl b ↦ absurd (ground (arith, ap string_of e))
  | inr b ↦ (some s, b, ground (arith, ap string_of e))
]

required_accepted :
    (key : String) (input : Input) (x : Fields)
    → require_all (key ∷ []) input no_fields ≡ accepted x
    → (s : String) × (is_blank s ≡ false)
      × (copy_all (key ∷ []) input x ≡ field key (text s) no_fields)
unfolding require_all require_string_input copy_all put_field
required_accepted key input x h = elim (Option-cases (string_of (value_at key input))) [
  | inl e ↦ absurd (ground arith)
  | inr (s, e) ↦ let p = text_of (value_at key input) s e in (s, p.1, ground (arith, p.0))
]

copy_optional_one :
    (key : String) (input : Input) (start y : Fields)
    → copy_optional (key ∷ []) input start ≡ accepted y
    → copy_optional_value input key (value_at key input) start ≡ accepted y
unfolding copy_optional
copy_optional_one key input start y h =
    let p = and_then_accepted (copy_optional_value input key (value_at key input) start) _ y h in
    p.1 ∙ p.2

copy_objects_one :
    (key : String) (input : Input) (y c : Fields)
    → copy_objects (key ∷ []) input y ≡ accepted c
    → (entries : Fields) × (accepted (put_field key (object entries) y) ≡ accepted c)
unfolding copy_objects
copy_objects_one key input y c h =
    let p = and_then_accepted (canonicalize_object_input key (value_at key input)) _ c h in
    (p.0, p.2)

email_built :
    (s : String) (a : Option String) (entries : Fields)
    → put_field "templateData" (object entries) (elim a [
      | none ↦ field "templateKey" (text s) no_fields
      | some b ↦ put_field "auditId" (text b) (field "templateKey" (text s) no_fields)
    ])
      ≡ email_input s a entries
unfolding put_field
email_built s none entries = refl
email_built s (some b) entries = refl

email_accepted :
    (input : Input) (c : Fields)
    → canonicalize_with email input ≡ accepted c
    → (s : String) × (a : Option String) × (entries : Fields) × (is_blank s ≡ false)
      × IsFilled a
      × (accepted (email_input s a entries) ≡ accepted c)
unfolding canonicalize_with
email_accepted input c h =
    let p = and_then_accepted (require_all ("templateKey" ∷ []) input no_fields) _ c h in
    let r = required_accepted "templateKey" input p.0 p.1 in
    let start = copy_all ("templateKey" ∷ []) input p.0 in
    let q = and_then_accepted (copy_optional ("auditId" ∷ []) input start) _ c p.2 in
    let o =
      optional_accepted input (value_at "auditId" input) start q.0 refl
        (copy_optional_one "auditId" input start q.0 q.1) in
    let d = copy_objects_one "templateData" input q.0 c q.2 in
    (
      r.0,
      o.0,
      d.0,
      r.1,
      o.1,
      (sym (ap accepted (email_built r.0 o.0 d.0))
          ∙ ap (λ (x : Fields). accepted (put_field "templateData" (object d.0) x))
              (sym (
                o.2
                ∙ ap
                    (λ (x : Fields). elim o.0 [
                      | none ↦ x
                      | some b ↦ put_field "auditId" (text b) x
                    ])
                    r.2))
          ∙ d.1),
    )

email_again :
    (s : String) (a : Option String) (entries : Fields)
    → is_blank s ≡ false
    → IsFilled a
    → canonicalize_with email (some (email_input s a entries)) ≡ accepted (email_input s a entries)
unfolding canonicalize_with require_all require_string_input copy_all copy_optional
    copy_optional_value copy_objects canonicalize_object_input put_field get_field
email_again s none entries h k = ground (arith, h)
email_again s (some b) entries h k = ground (arith, h, k)

email-declared :
    (s : String) (a : Option String) (entries : Fields) (key : String)
    → any (λ k. str_eq k key) (declared email) ≡ false
    → get_field key (email_input s a entries) ≡ none
unfolding get_field
email-declared s none entries key h = ground arith
email-declared s (some b) entries key h = ground arith

pub Keeps-email : Keeps email
Keeps-email input c h =
    let (s, a, entries, n, k, e) = email_accepted input c h in
    subst (IsStable email) (unaccepted _ c e)
      (record { again = email_again s a entries n k; declared_only = email-declared s a entries })
