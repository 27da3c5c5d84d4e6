-- ===== src/Opportunities/Rows.antt =====
-- The opportunities of src/opportunities/opportunities.service.ts, the findings of
-- src/intelligence that become opportunities, and the data by which they are told apart.
use robia_back.Prelude.{
  ℕ, String, Bool, true, false, ◌||◌, Option, none, some, List, [], ◌∷◌, leb, ◌==◌, if◌then◌else◌,
}
use robia_back.Automations.Inputs.Json.{
  Json, null, bool, number, text, array, object, Items, no_items, Fields, no_fields, field,
  get_field,
}
use robia_back.Automations.Inputs.Placeholders.{append}

pub data Status : Type 0 where
  opened in_progress done ignored : Status

-- Scores that are only stored as floating-point numbers are kept as their texts.
pub record Opportunity : Type 0 where
  pub id : ℕ
  pub organization_id : ℕ
  pub audit_id : ℕ
  pub title : String
  pub description : String
  pub category : String
  pub impact_score : ℕ
  pub effort_score : ℕ
  pub confidence_score : String
  pub source_data : Json
  pub status : Status

pub record Finding : Type 0 where
  pub provider : String
  pub rule_code : String
  pub title : String
  pub description : String
  pub category : String
  pub evidence : Items
  pub recommendation : Json
  pub impact_score : ℕ
  pub effort_score : ℕ
  pub confidence_score : String
  pub confidence : Option String
  pub score_influence : Bool

-- What the generator of the python service proposes; `none` is `undefined`.
pub record Generated : Type 0 where
  pub title : String
  pub description : String
  pub category : String
  pub impact_score : ℕ
  pub effort_score : ℕ
  pub confidence_score : String
  pub source_data : String
  pub rule_code : Option String
  pub severity : Option String
  pub audit_status : Option String
  pub priority_score : Option String
  pub affected_urls : Option Items
  pub evidence : Option Items
  pub why_it_matters : Option String
  pub recommended_steps : Option Items

-- A field whose value is `undefined` is not stored.
unfoldable pub optional_field : String → Option Json → Fields → Fields
optional_field key none entries = entries
optional_field key (some v) entries = field key v entries

abbrev pub as_text : Option String → Option Json
as_text none = none
as_text (some s) = some (text s)

abbrev pub as_number : Option String → Option Json
as_number none = none
as_number (some s) = some (number s)

abbrev pub items_or_empty : Option Items → Items
items_or_empty none = no_items
items_or_empty (some items) = items

unfoldable pub build_provider_source_data : Finding → Json
unfolding optional_field
build_provider_source_data f = object (
    field "version" (number "2") (
      field "provider" (text f.provider) (
        field "source" (text f.provider) (
          field "ruleCode" (text f.rule_code) (
            optional_field "confidence" (as_text f.confidence) (
              field "evidence" (array f.evidence) (
                field "recommendation" f.recommendation
                  (field "scoreInfluence" (bool f.score_influence) no_fields))))))))

unfoldable pub is_empty : String → Bool
is_empty String.[] = true
is_empty _ = false

unfoldable pub rule_source_data : Generated → String → Json
unfolding optional_field
rule_source_data g rule_code = object (
    field "version" (number "2") (
      field "summary" (text g.source_data) (
        field "ruleCode" (text rule_code) (
          optional_field "severity" (as_text g.severity) (
            optional_field "auditStatus" (as_text g.audit_status) (
              optional_field "priorityScore" (as_number g.priority_score) (
                field "affectedUrls" (array (items_or_empty g.affected_urls)) (
                  field "evidence" (array (items_or_empty g.evidence)) (
                    field "whyItMatters"
                      (text (elim g.why_it_matters [ none ↦ g.description | some s ↦ s ]))
                      (field "recommendedSteps" (array (items_or_empty g.recommended_steps))
                        no_fields))))))))))

unfoldable pub build_source_data : Generated → Json
unfolding rule_source_data is_empty
build_source_data g = elim g.rule_code [
  | none ↦ text g.source_data
  | some rule_code ↦ if is_empty rule_code then text g.source_data else rule_source_data g rule_code
]

abbrev pub is_text : Option Json → Bool
is_text (some (text _)) = true
is_text _ = false

unfoldable pub is_provider_source_data : Json → Bool
is_provider_source_data (object entries) =
    is_text (get_field "provider" entries) || is_text (get_field "source" entries)
is_provider_source_data _ = false

-- `data.provider ?? data.source`
unfoldable pub provider_of : Fields → Option Json
provider_of entries = elim (get_field "provider" entries) [
  | none ↦ get_field "source" entries
  | some null ↦ get_field "source" entries
  | some v ↦ some v
]

-- `${provider}:${ruleCode}`
unfoldable pub rule_key : String → String → String
rule_key provider rule_code = append provider (append ":" rule_code)

unfoldable pub key_of : Option Json → Option Json → Option String
unfolding rule_key
key_of (some (text provider)) (some (text rule_code)) = some (rule_key provider rule_code)
key_of _ _ = none

unfoldable pub provider_rule_key : Json → Option String
unfolding key_of provider_of
provider_rule_key (object entries) = key_of (provider_of entries) (get_field "ruleCode" entries)
provider_rule_key _ = none

abbrev pub finding_key : Finding → String
finding_key f = rule_key f.provider f.rule_code

-- The keys among the opportunities of an audit.
unfoldable pub add_key : Opportunity → List String → List String
unfolding is_provider_source_data provider_rule_key is_empty
add_key o keys =
    if is_provider_source_data o.source_data
    then (elim (provider_rule_key o.source_data) [
      | none ↦ keys
      | some key ↦ if is_empty key then keys else key ∷ keys
    ])
    else keys

unfoldable pub existing_provider_rule_keys : ℕ → List Opportunity → List String
unfolding add_key
existing_provider_rule_keys audit [] = []
existing_provider_rule_keys audit (o ∷ rows) =
    let rest = existing_provider_rule_keys audit rows in
    if o.audit_id == audit then add_key o rest else rest

-- `orderBy: { impactScore: 'desc' }`
unfoldable pub insert_row : Opportunity → List Opportunity → List Opportunity
insert_row o [] = o ∷ []
insert_row o (q ∷ rows) =
    let rest = insert_row o rows in
    if leb q.impact_score o.impact_score then o ∷ q ∷ rows else q ∷ rest

unfoldable pub order_rows : List Opportunity → List Opportunity
unfolding insert_row
order_rows [] = []
order_rows (o ∷ rows) = insert_row o (order_rows rows)
