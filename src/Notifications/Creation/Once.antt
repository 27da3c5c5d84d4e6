-- ===== src/Notifications/Creation/Once.antt =====
-- `createEmailDelivery` of src/notifications/notifications.service.ts creates one delivery for
-- every step run, to the owner of the organization, and with data that render.
use robia_back.Prelude.{
  ℕ, ◌≡◌, refl, ◌==◌, sym, ap, ◌∙◌, subst, inl, inr, ◌⊎◌, String, Bool, true, false, ◌&&◌, Option,
  some, List, [], ◌∷◌, ◌++◌, any, find, str_eq, arith, Bool-cases, Option-cases,
}
use robia_back.Storage.Texts.{Text}
use robia_back.Notifications.Templates
use robia_back.Notifications.Templates.{
  TemplateData, Result, Rendered, render_notification_template,
}
use robia_back.Notifications.Creation.{
  User, Automation, Organization, Audit, audit_data, Notification, World, Params, delivered,
  audit_completed_email_provider, is_n8n, resolve_template_data, is_rendered, find_recipient,
  has_key, create_notification, new_notification, persist_delivery, create_checked,
  create_email_delivery,
}

-- The delivery of a step run of an organization.
abbrev pub IsKept : ℕ → ℕ → Notification → World → Type 0
IsKept o k d w = find (has_key o k) w.deliveries ≡ some d

pub found_any :
    (p : Notification → Bool) (ds : List Notification) (d : Notification)
    → find p ds ≡ some d
    → any p ds ≡ true
found_any p [] d h = ground (arith, h)
found_any p (x ∷ ds) d h = ground (arith, h, found_any p ds d)

pub found_append :
    (p : Notification → Bool) (ds more : List Notification) (d : Notification)
    → find p ds ≡ some d
    → find p (ds ++ more) ≡ some d
found_append p [] more d h = ground (arith, h)
found_append p (x ∷ ds) more d h = ground (arith, h, found_append p ds more d)

found_last :
    (p : Notification → Bool) (ds : List Notification) (d : Notification)
    → any p ds ≡ false
    → p d ≡ true
    → find p (ds ++ d ∷ []) ≡ some d
found_last p [] d h k = ground (arith, k)
found_last p (x ∷ ds) d h k = ground (arith, h, found_last p ds d)

own_key : (d : Notification) → has_key d.organization_id d.idempotency_key d ≡ true
unfolding has_key
own_key d = ground arith

-- The ways in which a delivery comes about: it is new and the last, or it was there.
abbrev pub IsNewOrOld : Params → TemplateData → User → World → World → Notification → Type 0
IsNewOrOld params data_ user w v d =
    ((any (has_key params.organization_id params.automation_step_run_id) w.deliveries ≡ false)
      × (d ≡ new_notification params data_ user w)
      × (v.deliveries ≡ w.deliveries ++ d ∷ []))
    ⊎ ((v ≡ w) × IsKept params.organization_id params.automation_step_run_id d w)

persist_delivery-IsNewOrOld :
    (params : Params) (data_ : TemplateData) (user : User) (w v : World) (d : Notification)
    (email : Text)
    → persist_delivery params data_ user w ≡ (v, delivered d email)
    → IsNewOrOld params data_ user w v d × (email ≡ user.email)
unfolding persist_delivery create_notification
persist_delivery-IsNewOrOld params data_ user w v d email h =
    let key = has_key params.organization_id params.automation_step_run_id in
    elim (Bool-cases (any key w.deliveries)) [
      | inr e ↦
          let same : d ≡ new_notification params data_ user w = ground (arith, h, e) in
          let grown : v.deliveries ≡ w.deliveries ++ d ∷ [] = ground (arith, h, e) in
          let to : email ≡ user.email = ground (arith, h, e) in (inl (e, same, grown), to)
      | inl e ↦ elim (Option-cases (find key w.deliveries)) [
        | inl n ↦ absurd (ground (arith, h, e, n))
        | inr (x, f) ↦
            let same : x ≡ d = ground (arith, h, e, f) in
            let unchanged : v ≡ w = ground (arith, h, e, f) in
            let to : email ≡ user.email = ground (arith, h, e, f) in
            (inr (unchanged, f ∙ ap (λ y. some y) same), to)
      ]
    ]

-- The user has created the automation, which is one of the organization, and owns the organization.
pub record IsOwner (params : Params) (w : World) (user : User) : Type 0 where
  pub automation : Automation
  pub organization : Organization
  pub its_automation :
      find (λ (a : Automation). a.id == params.automation_id) w.automations ≡ some automation
  pub its_organization :
      find (λ (g : Organization). g.id == params.organization_id) w.organizations
      ≡ some organization
  pub within : automation.organization_id ≡ params.organization_id
  pub creates : automation.created_by ≡ user
  pub owns : organization.owner_id ≡ user.id

find_recipient-IsOwner :
    (params : Params) (w : World) (user : User)
    → find_recipient params w ≡ some user
    → IsOwner params w user
unfolding find_recipient
find_recipient-IsOwner params w user h =
    elim (Option-cases (find (λ (a : Automation). a.id == params.automation_id) w.automations)) [
      | inl n ↦ absurd (ground (arith, h, n))
      | inr (a, e) ↦
          elim (Option-cases
            (find (λ (g : Organization). g.id == params.organization_id) w.organizations)) [
              | inl n ↦ absurd (ground (arith, h, e, n))
              | inr (g, f) ↦
                  let within : a.organization_id ≡ params.organization_id =
                    ground (arith, h, e, f) in
                  let owned : g.owner_id ≡ a.created_by.id = ground (arith, h, e, f) in
                  let creates : a.created_by ≡ user = ground (arith, h, e, f) in
                  record {
                    automation = a;
                    organization = g;
                    its_automation = e;
                    its_organization = f;
                    within = within;
                    creates = creates;
                    owns = owned ∙ ap (λ (u : User). u.id) creates;
                  }
            ]
    ]

-- The data of the call, or for `audit_completed` those of an audit of the organization.
abbrev pub AreResolved : Params → World → TemplateData → Type 0
AreResolved params w data_ =
    ((str_eq params.template_key "audit_completed" ≡ false) × (data_ ≡ params.template_data))
    ⊎ ((audit : Audit) × (find
            (λ (a : Audit). a.id == audit.id && a.organization_id == params.organization_id)
            w.audits
          ≡ some audit)
        × (params.audit_id ≡ some audit.id)
        × (audit.organization_id ≡ params.organization_id)
        × (data_ ≡ audit_data audit))

found_audit :
    (id organization : ℕ) (audits : List Audit) (a : Audit)
    → find (λ (a : Audit). a.id == id && a.organization_id == organization) audits ≡ some a
    → (a.id ≡ id) × (a.organization_id ≡ organization)
found_audit id organization [] a h = ground (arith, h)
found_audit id organization (x ∷ audits) a h =
    ground (arith, h, found_audit id organization audits a)

resolve_template_data-AreResolved :
    (params : Params) (w : World) (data_ : TemplateData)
    → resolve_template_data params w ≡ some data_
    → AreResolved params w data_
unfolding resolve_template_data
resolve_template_data-AreResolved params w data_ h =
    elim (Bool-cases (str_eq params.template_key "audit_completed")) [
      | inr e ↦ let same : data_ ≡ params.template_data = ground (arith, h, e) in inl (e, same)
      | inl e ↦ elim (Option-cases params.audit_id) [
        | inl n ↦ absurd (ground (arith, h, e, n))
        | inr (i, n) ↦
            let is_it =
              λ (j : ℕ) (a : Audit). a.id == j && a.organization_id == params.organization_id in
            elim (Option-cases (find (is_it i) w.audits)) [
              | inl f ↦ absurd (ground (arith, h, e, n, f))
              | inr (audit, f) ↦
                  let (id, org) = found_audit i params.organization_id w.audits audit f in
                  let same : data_ ≡ audit_data audit = ground (arith, h, e, n, f) in
                  inr (
                    audit,
                    subst (λ j. find (is_it j) w.audits ≡ some audit) (sym id) f,
                    n ∙ ap (λ j. some j) (sym id),
                    org,
                    same,
                  )
            ]
      ]
    ]

rendered_mail :
    (r : Result Rendered) → is_rendered r ≡ true → (mail : Rendered) × (r ≡ Templates.ok mail)
unfolding is_rendered
rendered_mail (Templates.ok mail) h = (mail, refl)
rendered_mail Templates.unknown_template h = ground (arith, h)
rendered_mail Templates.invalid_data h = ground (arith, h)
rendered_mail Templates.type_error h = ground (arith, h)

-- What a call that returns a delivery has found.
pub record IsDelivery (params : Params) (w v : World) (d : Notification) (email : Text)
    (user : User) (data_ : TemplateData) : Type 0 where
  pub recipient : IsOwner params w user
  pub address : email ≡ user.email
  pub resolved : AreResolved params w data_
  pub mail : Rendered
  pub renders : render_notification_template params.template_key data_ ≡ Templates.ok mail
  pub origin : IsNewOrOld params data_ user w v d

create_checked-IsDelivery :
    (params : Params) (data_ : TemplateData) (w v : World) (d : Notification) (email : Text)
    → resolve_template_data params w ≡ some data_
    → create_checked params data_ w ≡ (v, delivered d email)
    → (user : User) × IsDelivery params w v d email user data_
unfolding create_checked
create_checked-IsDelivery params data_ w v d email resolved h =
    elim (Bool-cases (is_rendered (render_notification_template params.template_key data_))) [
      | inr e ↦ absurd (ground (arith, h, e))
      | inl e ↦ elim (Option-cases (find_recipient params w)) [
        | inl n ↦ absurd (ground (arith, h, e, n))
        | inr (user, f) ↦
            let persisted : persist_delivery params data_ user w ≡ (v, delivered d email) =
              ground (arith, h, e, f) in
            let facts = persist_delivery-IsNewOrOld params data_ user w v d email persisted in
            let rendered = rendered_mail _ e in
            (
              user,
              record {
                recipient = find_recipient-IsOwner params w user f;
                address = facts.1;
                resolved = resolve_template_data-AreResolved params w data_ resolved;
                mail = rendered.0;
                renders = rendered.1;
                origin = facts.0;
              },
            )
      ]
    ]

pub create_email_delivery-IsDelivery :
    (config : Option String) (params : Params) (w v : World) (d : Notification) (email : Text)
    → create_email_delivery config params w ≡ (v, delivered d email)
    → (data_ : TemplateData) × (user : User) × IsDelivery params w v d email user data_
unfolding create_email_delivery
create_email_delivery-IsDelivery config params w v d email h =
    elim (Bool-cases (
      str_eq params.template_key "audit_completed"
      && is_n8n (audit_completed_email_provider config))) [
        | inl e ↦ absurd (ground (arith, h, e))
        | inr e ↦ elim (Option-cases (resolve_template_data params w)) [
          | inl n ↦ absurd (ground (arith, h, e, n))
          | inr (data_, f) ↦
              let checked : create_checked params data_ w ≡ (v, delivered d email) =
                ground (arith, h, e, f) in
              let found = create_checked-IsDelivery params data_ w v d email f checked in
              (data_, found.0, found.1)
        ]
      ]

pub delivered-IsKept :
    (params : Params) (data_ : TemplateData) (user : User) (w v : World) (d : Notification)
    → IsNewOrOld params data_ user w v d
    → IsKept params.organization_id params.automation_step_run_id d v
delivered-IsKept params data_ user w v d (inl (absent, same, grown)) =
    let key = has_key params.organization_id params.automation_step_run_id in
    subst (λ ds. find key ds ≡ some d) (sym grown)
      (found_last key w.deliveries d absent
        (subst (λ x. key x ≡ true) (sym same) (own_key (new_notification params data_ user w))))
delivered-IsKept params data_ user w v d (inr (unchanged, kept)) =
    subst (IsKept params.organization_id params.automation_step_run_id d) (sym unchanged) kept
