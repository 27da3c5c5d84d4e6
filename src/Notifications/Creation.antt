-- ===== src/Notifications/Creation.antt =====
-- `createEmailDelivery`, `findAllForOrganization` and `findOne` of
-- src/notifications/notifications.service.ts, over the tables that they read and the table of
-- deliveries.
pub mod Numbers
pub mod Once
pub mod Repeats
pub mod Tests
use robia_back.Prelude.{
  ℕ, zero, suc, ◌+◌, String, Bool, true, false, ◌&&◌, Option, none, some, List, [], ◌∷◌, ◌++◌, ◌==◌,
  any, find, filter, str_eq, if◌then◌else◌,
}
use robia_back.Storage.Texts.{Text, codes}
use robia_back.Notifications.Templates
use robia_back.Notifications.Templates.{
  TemplateData, object, text, Result, Rendered, render_notification_template,
}
use robia_back.Notifications.Creation.Numbers.{decimal}

pub record User : Type 0 where
  pub id : ℕ
  pub email : Text

pub record Automation : Type 0 where
  pub id : ℕ
  pub organization_id : ℕ
  pub created_by : User

pub record Organization : Type 0 where
  pub id : ℕ
  pub owner_id : ℕ

pub record Audit : Type 0 where
  pub id : ℕ
  pub organization_id : ℕ
  pub website_url : Text
  pub global_score : Option ℕ

-- A new row of `notification_deliveries`. Its `idempotencyKey` is `automation-step:` and the id of
-- the step run, and is kept as that id.
pub record Notification : Type 0 where
  pub id : ℕ
  pub organization_id : ℕ
  pub recipient_user_id : ℕ
  pub template_key : String
  pub template_data : TemplateData
  pub idempotency_key : ℕ
  pub automation_run_id : ℕ

pub record World : Type 0 where
  pub automations : List Automation
  pub organizations : List Organization
  pub audits : List Audit
  pub deliveries : List Notification
  pub next_id : ℕ

pub record Params : Type 0 where
  pub organization_id : ℕ
  pub automation_id : ℕ
  pub automation_run_id : ℕ
  pub automation_step_run_id : ℕ
  pub template_key : String
  pub template_data : TemplateData
  pub audit_id : Option ℕ

pub data Error : Type 0 where
  audit_resolution automation_context not_rendered database not_found : Error

pub data Answer : Type 0 where
  delivered : Notification → Text → Answer
  handled_by_n8n : Answer
  failed : Error → Answer

pub data Provider : Type 0 where
  n8n notifications : Provider

-- `auditCompletedEmailProvider`, of the value in the configuration.
unfoldable pub audit_completed_email_provider : Option String → Provider
audit_completed_email_provider none = n8n
audit_completed_email_provider (some provider) =
    if str_eq provider "notifications" then notifications else n8n

abbrev pub is_n8n : Provider → Bool
is_n8n n8n = true
is_n8n notifications = false

-- `${audit.globalScore}/100`
unfoldable pub score_line : Option ℕ → Text
score_line none = codes "non disponible"
score_line (some score) = decimal score ++ codes "/100"

unfoldable pub audit_data : Audit → TemplateData
unfolding score_line
audit_data audit = object (
    ("websiteUrl", text audit.website_url)
    ∷ ("scoreLine", text (score_line audit.global_score))
    ∷ [])

-- `none` is a thrown `NotificationAuditResolutionError`.
unfoldable pub resolve_template_data : Params → World → Option TemplateData
unfolding audit_data
resolve_template_data params w =
    if str_eq params.template_key "audit_completed"
    then (elim params.audit_id [
      | none ↦ none
      | some id ↦
          elim (find (λ (a : Audit). a.id == id && a.organization_id == params.organization_id)
            w.audits) [ none ↦ none | some audit ↦ some (audit_data audit) ]
    ])
    else some params.template_data

unfoldable pub is_rendered : Result Rendered → Bool
is_rendered (Templates.ok _) = true
is_rendered _ = false

-- The automation of the organization whose creator is its owner.
unfoldable pub find_recipient : Params → World → Option User
find_recipient params w =
    elim (find (λ (a : Automation). a.id == params.automation_id) w.automations) [
      | none ↦ none
      | some automation ↦
          elim (find (λ (g : Organization). g.id == params.organization_id) w.organizations) [
            | none ↦ none
            | some organization ↦
                if automation.organization_id == params.organization_id
                  && organization.owner_id == automation.created_by.id
                then some automation.created_by
                else none
          ]
    ]

-- `@@unique([organizationId, idempotencyKey])`
unfoldable pub has_key : ℕ → ℕ → Notification → Bool
has_key organization key d = d.organization_id == organization && d.idempotency_key == key

-- `create`; `none` is `P2002`.
unfoldable pub create_notification : Notification → World → Option World
unfolding has_key
create_notification d w =
    if any (has_key d.organization_id d.idempotency_key) w.deliveries
    then none
    else some (record w { deliveries = w.deliveries ++ d ∷ []; next_id = w.next_id + 1 })

abbrev pub new_notification : Params → TemplateData → User → World → Notification
new_notification params data_ user w = record {
  id = w.next_id;
  organization_id = params.organization_id;
  recipient_user_id = user.id;
  template_key = params.template_key;
  template_data = data_;
  idempotency_key = params.automation_step_run_id;
  automation_run_id = params.automation_run_id;
}

unfoldable pub persist_delivery : Params → TemplateData → User → World → World × Answer
unfolding create_notification has_key
persist_delivery params data_ user w =
    let d = new_notification params data_ user w in
    elim (create_notification d w) [
      | some v ↦ (v, delivered d user.email)
      | none ↦
          elim (find (has_key params.organization_id params.automation_step_run_id) w.deliveries) [
            | some existing ↦ (w, delivered existing user.email)
            | none ↦ (w, failed database)
          ]
    ]

unfoldable pub create_checked : Params → TemplateData → World → World × Answer
unfolding find_recipient persist_delivery is_rendered render_notification_template
create_checked params data_ w =
    if is_rendered (render_notification_template params.template_key data_)
    then (elim (find_recipient params w) [
      | none ↦ (w, failed automation_context)
      | some user ↦ persist_delivery params data_ user w
    ])
    else (w, failed not_rendered)

unfoldable pub create_email_delivery : Option String → Params → World → World × Answer
unfolding audit_completed_email_provider resolve_template_data create_checked
create_email_delivery config params w =
    if str_eq params.template_key "audit_completed"
      && is_n8n (audit_completed_email_provider config)
    then (w, handled_by_n8n)
    else (elim (resolve_template_data params w) [
      | none ↦ (w, failed audit_resolution)
      | some data_ ↦ create_checked params data_ w
    ])

-- `orderBy: { createdAt: 'desc' }`
unfoldable pub latest_first : List Notification → List Notification
latest_first [] = []
latest_first (d ∷ deliveries) = latest_first deliveries ++ d ∷ []

unfoldable pub find_all_for_organization : ℕ → World → List Notification
unfolding latest_first
find_all_for_organization organization w =
    latest_first (filter (λ (d : Notification). d.organization_id == organization) w.deliveries)

unfoldable pub find_one : ℕ → ℕ → World → Option Notification
find_one organization id w =
    find (λ (d : Notification). d.id == id && d.organization_id == organization) w.deliveries
