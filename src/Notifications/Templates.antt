-- ===== src/Notifications/Templates.antt =====
-- src/notifications/notification-templates.ts: the templates of the mails and the check of their
-- variables. Texts are lists of code units.
pub mod Subjects
pub mod Tests
use robia_back.Prelude.{
  ℕ, String, Bool, not, ◌&&◌, ◌||◌, Option, none, some, List, [], ◌∷◌, ◌++◌, ltb, leb, ◌==◌, any,
  every, find, length, str_eq, inherited_names, if◌then◌else◌,
}
use robia_back.Storage.Texts.{Text, codes}

-- A variable as the code distinguishes it; a number is kept as the text that `String` gives it.
pub data Value : Type 0 where
  text number : Text → Value
  other : Value

abbrev pub Entries : Type 0
Entries = List (String × Value)

-- `templateData`: an object with its own properties, or what is none.
pub data TemplateData : Type 0 where
  object : Entries → TemplateData
  not_an_object : TemplateData

abbrev pub Values : Type 0
Values = List (String × Text)

pub record Template : Type 0 where
  pub variables : List String
  pub subject : Values → Text
  pub body : Values → Text

pub record Rendered : Type 0 where
  pub subject : Text
  pub body : Text

pub data Result {ℓ} (A : Type ℓ) : Type ℓ where
  ok : A → Result A
  unknown_template : Result A
  invalid_data : Result A
  type_error : Result A

abbrev pub max_variable_length : ℕ
max_variable_length = 200

unfoldable pub is_line_break : ℕ → Bool
is_line_break c = c == 13 || c == 10

-- `data.key`
unfoldable pub value_of : String → Values → Text
value_of key [] = []
value_of key ((k, v) ∷ data_) = let rest = value_of key data_ in if str_eq k key then v else rest

-- `[...].join('\n')`
unfoldable pub join_lines : List Text → Text
join_lines [] = []
join_lines (line ∷ []) = line
join_lines (line ∷ next ∷ lines) = line ++ 10 ∷ join_lines (next ∷ lines)

abbrev pub automatic_notice : Text
automatic_notice = codes "Ceci est une notification automatique ROBIA."

abbrev pub audit_completed : Template
audit_completed = record {
  variables = "websiteUrl" ∷ "scoreLine" ∷ [];
  subject = λ data_. codes "Audit terminé pour " ++ value_of "websiteUrl" data_;
  body = λ data_. join_lines (
      (codes "L'audit de " ++ value_of "websiteUrl" data_ ++ codes " est terminé.")
      ∷ (codes "Score global : " ++ value_of "scoreLine" data_ ++ codes ".")
      ∷ []
      ∷ automatic_notice
      ∷ []);
}

abbrev pub automation_failed : Template
automation_failed = record {
  variables = "automationName" ∷ "errorMessage" ∷ [];
  subject = λ data_.
      codes "Échec de l'automatisation « " ++ value_of "automationName" data_ ++ codes " »";
  body = λ data_. join_lines (
      (codes "L'automatisation « " ++ value_of "automationName" data_ ++ codes " » a échoué.")
      ∷ (codes "Détail : " ++ value_of "errorMessage" data_)
      ∷ []
      ∷ automatic_notice
      ∷ []);
}

abbrev pub weekly_opportunities_summary : Template
weekly_opportunities_summary = record {
  variables = "organizationName" ∷ "openOpportunityCount" ∷ [];
  subject = λ data_. codes "Résumé hebdomadaire des opportunités ROBIA";
  body = λ data_. join_lines (
      (codes "Organisation : " ++ value_of "organizationName" data_)
      ∷ (codes "Opportunités ouvertes : " ++ value_of "openOpportunityCount" data_)
      ∷ []
      ∷ automatic_notice
      ∷ []);
}

abbrev pub odc_candidate_invite : Template
odc_candidate_invite = record {
  variables = "applicantName" ∷ "programName" ∷ [];
  subject = λ data_.
      codes "Candidature « " ++ value_of "programName" data_ ++ codes " » — prochaine étape";
  body = λ data_. join_lines (
      (codes "Bonjour " ++ value_of "applicantName" data_ ++ codes ",")
      ∷ []
      ∷ (codes "Votre dossier pour « "
          ++ value_of "programName" data_
          ++ codes " » a été présélectionné.")
      ∷ codes "Nous vous recontactons pour la suite du processus."
      ∷ []
      ∷ codes "— Orange Digital Center"
      ∷ []);
}

abbrev pub templates : List (String × Template)
templates =
    ("audit_completed", audit_completed)
    ∷ ("automation_failed", automation_failed)
    ∷ ("weekly_opportunities_summary", weekly_opportunities_summary)
    ∷ ("odc_candidate_invite", odc_candidate_invite)
    ∷ []

-- `listNotificationTemplateKeys`
unfoldable pub list_notification_template_keys : List (String × Template) → List String
list_notification_template_keys [] = []
list_notification_template_keys ((k, _) ∷ rest) = k ∷ list_notification_template_keys rest

unfoldable pub own_template : String → List (String × Template) → Option Template
own_template key [] = none
own_template key ((k, t) ∷ rest) =
    let found = own_template key rest in if str_eq k key then some t else found

-- `templateKey in NOTIFICATION_TEMPLATES`, which also finds what every object inherits.
unfoldable pub is_known_notification_template : String → Bool
unfolding list_notification_template_keys
is_known_notification_template key =
    any (str_eq key) (list_notification_template_keys templates) || any (str_eq key) inherited_names

-- `input[variable]`; `none` is `undefined`.
unfoldable pub entry_of : String → Entries → Option Value
entry_of key [] = none
entry_of key ((k, v) ∷ entries) =
    let rest = entry_of key entries in if str_eq k key then some v else rest

-- The tests on `stringValue`.
unfoldable pub is_acceptable : Text → Bool
unfolding is_line_break
is_acceptable s =
    not (length s == 0) && not (ltb max_variable_length (length s)) && not (any is_line_break s)

unfoldable pub string_value : Option Value → Option Text
string_value (some (text s)) = some s
string_value (some (number s)) = some s
string_value _ = none

-- The loop over the variables; `none` is a thrown `InvalidNotificationTemplateDataError`.
unfoldable pub read_variables : List String → Entries → Option Values
unfolding string_value entry_of is_acceptable
read_variables [] entries = some []
read_variables (variable ∷ rest) entries =
    let others = read_variables rest entries in
    elim (string_value (entry_of variable entries)) [
      | none ↦ none
      | some s ↦
          if is_acceptable s
          then (elim others [ none ↦ none | some data_ ↦ some ((variable, s) ∷ data_) ])
          else none
    ]

unfoldable pub has_unknown_key : List String → Entries → Bool
has_unknown_key variables entries =
    any (λ (e : String × Value). not (any (str_eq e.0) variables)) entries

unfoldable pub validate_template_data : List String → TemplateData → Option Values
unfolding read_variables has_unknown_key
validate_template_data variables not_an_object = none
validate_template_data variables (object entries) =
    if has_unknown_key variables entries then none else read_variables variables entries

-- A template with its checked data.
unfoldable pub render_with : Template → TemplateData → Result Rendered
unfolding validate_template_data
render_with template data_ = elim (validate_template_data template.variables data_) [
  | none ↦ invalid_data
  | some values ↦ ok (record { subject = template.subject values; body = template.body values })
]

-- What an object inherits has no `variables`: reading them in an object is a `TypeError`.
unfoldable pub render_inherited : TemplateData → Result Rendered
render_inherited not_an_object = invalid_data
render_inherited (object _) = type_error

unfoldable pub render_notification_template : String → TemplateData → Result Rendered
unfolding is_known_notification_template own_template render_with render_inherited
render_notification_template key data_ =
    if is_known_notification_template key
    then (elim (own_template key templates) [
      | some template ↦ render_with template data_
      | none ↦ render_inherited data_
    ])
    else unknown_template
