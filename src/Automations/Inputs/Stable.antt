-- ===== src/Automations/Inputs/Stable.antt =====
-- `canonicalizeInput` of src/ops-automation/actions/ops-actions-registry.service.ts for actions that
-- declare at most one text.
use robia_back.Prelude.{
  ◌≡◌, refl, subst, inl, inr, Bool, false, String, Option, none, some, List, [], ◌∷◌, ◌++◌, any,
  is_blank, str_eq, eq_iff, arith, Option-cases,
}
use robia_back.Automations.Actions.{Descriptor}
use robia_back.Automations.Inputs.Json.{
  Json, null, bool, number, text, array, object, member, Fields, no_fields, field, get_field,
  put_field, Input, value_at,
}
use robia_back.Automations.Inputs.Canonical.{
  Checked, accepted, refused, and_then, string_of, require_string_input, canonicalize_with,
}

-- The keys that an action declares.
abbrev pub declared : Descriptor → List String
declared d = d.input_schema ++ (d.optional_input_schema ++ d.object_input_fields)

-- What an action accepts is accepted again as it is, and has only declared keys.
pub record IsStable (d : Descriptor) (canonical : Fields) : Type 0 where
  pub again : canonicalize_with d (some canonical) ≡ accepted canonical
  pub declared_only :
      (key : String) → any (λ k. str_eq k key) (declared d) ≡ false → get_field key canonical ≡ none

abbrev pub Keeps : Descriptor → Type 0
Keeps d =
    (input : Input) (canonical : Fields)
    → canonicalize_with d input ≡ accepted canonical
    → IsStable d canonical

abbrev pub strings_only : String → Bool → List String → Descriptor
strings_only type_name retry_safe keys = record {
  type_name = type_name;
  retry_safe = retry_safe;
  input_schema = keys;
  optional_input_schema = [];
  object_input_fields = [];
}

pub Keeps-no_keys : (t : String) (r : Bool) → Keeps (strings_only t r [])
unfolding canonicalize_with get_field
Keeps-no_keys t r input c h =
    let e : no_fields ≡ c = ground arith in
    subst (IsStable (strings_only t r [])) e
      (record { again = refl; declared_only = λ key k. refl })

pub text_of :
    (o : Option Json) (s : String)
    → string_of o ≡ some s
    → (o ≡ some (text s)) × (is_blank s ≡ false)
text_of none s h = ground arith
text_of (some null) s h = ground arith
text_of (some (bool b)) s h = ground arith
text_of (some (number n)) s h = ground arith
text_of (some (text t)) s h = ground arith
text_of (some (array xs)) s h = ground arith
text_of (some (object entries)) s h = ground arith
text_of (some (member name)) s h = ground arith

-- What an action with one required text makes of an input.
one_key_accepted :
    (t : String) (r : Bool) (key : String) (input : Input) (c : Fields)
    → canonicalize_with (strings_only t r (key ∷ [])) input ≡ accepted c
    → (s : String) × (is_blank s ≡ false) × (field key (text s) no_fields ≡ c)
unfolding canonicalize_with require_string_input put_field
one_key_accepted t r key input c h = elim (Option-cases (string_of (value_at key input))) [
  | inl e ↦ absurd (ground arith)
  | inr (s, e) ↦ let p = text_of (value_at key input) s e in (s, p.1, ground (arith, p.0))
]

pub Keeps-one_key : (t : String) (r : Bool) (key : String) → Keeps (strings_only t r (key ∷ []))
unfolding canonicalize_with require_string_input put_field get_field
Keeps-one_key t r key input c h =
    let p = one_key_accepted t r key input c h in
    subst (IsStable (strings_only t r (key ∷ []))) (p.2)
      (record { again = ground (arith, p.1, eq_iff key key); declared_only = λ k n. ground arith })

pub and_then_accepted :
    {A B : Type 0} (m : Checked A) (f : A → Checked B) (b : B)
    → and_then m f ≡ accepted b
    → (a : A) × (m ≡ accepted a) × (f a ≡ accepted b)
and_then_accepted (accepted a) f b h = (a, refl, h)
and_then_accepted (refused e) f b h = ground arith

pub unaccepted : {A : Type 0} (c c' : A) → accepted c ≡ accepted c' → c ≡ c'
unaccepted c c' h = ground arith
