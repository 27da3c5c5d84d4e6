-- ===== src/Automations/Inputs/Templating.antt =====
-- src/ops-automation/automation-templating.ts: the placeholders `{{event.<key>}}` of a step's input.
use Prim.Native.Char.{Char, code}
use robia_back.Prelude.{
  ℕ, Bool, ◌&&◌, ◌||◌, String, Option, none, some, leb, ◌==◌, any, str_eq, inherited_names,
  if◌then◌else◌,
}
use robia_back.Automations.Inputs.Json.{
  Json, null, text, object, member, Fields, no_fields, field, get_field, put_field, Input,
}

-- `[a-zA-Z0-9_]`
unfoldable pub is_word : ℕ → Bool
is_word c =
    leb b'a' c && leb c b'z' || leb b'A' c && leb c b'Z' || leb b'0' c && leb c b'9' || c == b'_'

-- `s` without the text that it starts with.
unfoldable pub strip : String → String → Option String
strip String.[] s = some s
strip (String.◌∷◌ d p) String.[] = none
strip (String.◌∷◌ d p) (String.◌∷◌ c s) =
    let rest = strip p s in if code c == code d then rest else none

abbrev pub prepend : Char → Option String → Option String
prepend c none = none
prepend c (some s) = some (String.◌∷◌ c s)

-- `([a-zA-Z0-9_]*)\}\}$`, the group of it.
unfoldable pub word_end : String → Option String
word_end String.[] = none
word_end (String.◌∷◌ c s) =
    let rest = word_end s in
    if is_word (code c)
    then prepend c rest
    else if str_eq (String.◌∷◌ c s) "}}"
    then some String.[]
    else none

abbrev pub nonempty : Option String → Option String
nonempty (some (String.◌∷◌ c s)) = some (String.◌∷◌ c s)
nonempty _ = none

-- `EVENT_PLACEHOLDER.exec(value)?.[1]`
unfoldable pub placeholder : String → Option String
placeholder s = elim (strip "{{event." s) [ none ↦ none | some rest ↦ nonempty (word_end rest) ]

-- `eventPayload?.[key] ?? null`: an own property, or an inherited one.
unfoldable pub payload_value : Option Fields → String → Json
payload_value none key = null
payload_value (some payload) key = elim (get_field key payload) [
  | none ↦ if any (λ n. str_eq n key) inherited_names then member key else null
  | some v ↦ v
]

abbrev pub resolve_text : Option Fields → String → Json
resolve_text payload s = elim (placeholder s) [
  | none ↦ text s
  | some key ↦ payload_value payload key
]

-- `resolveValue` without nested objects.
unfoldable pub resolve_leaf : Option Fields → Json → Json
unfolding payload_value
resolve_leaf payload (text s) = resolve_text payload s
resolve_leaf payload v = v

-- The loop over the entries of an object. The assignment of `__proto__` sets no own property.
unfoldable pub resolve_entries : (Json → Json) → Fields → Fields → Fields
resolve_entries resolve no_fields resolved = resolved
resolve_entries resolve (field key v entries) resolved =
    resolve_entries resolve entries
      (if str_eq key "__proto__" then resolved else put_field key (resolve v) resolved)

-- `resolveValue` with one level of nested objects.
unfoldable pub resolve_value : Option Fields → Json → Json
unfolding resolve_leaf
resolve_value payload (object entries) =
    object (resolve_entries (resolve_leaf payload) entries no_fields)
resolve_value payload v = resolve_leaf payload v

unfoldable pub resolve_step_input : Input → Option Fields → Input
unfolding resolve_value
resolve_step_input none payload = none
resolve_step_input (some entries) payload =
    some (resolve_entries (resolve_value payload) entries no_fields)
