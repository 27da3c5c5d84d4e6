-- ===== src/Notifications/Creation/Repeats.antt =====
-- Repeated calls of `createEmailDelivery` of src/notifications/notifications.service.ts.
use robia_back.Prelude.{
  ℕ, ◌≡◌, refl, sym, subst, inl, inr, String, ◌&&◌, Option, List, [], ◌∷◌, any, find, str_eq, arith,
  Bool-cases, Option-cases,
}
use robia_back.Storage.Texts.{Text}
use robia_back.Notifications.Templates.{TemplateData, render_notification_template}
use robia_back.Notifications.Creation.{
  User, Notification, World, Params, Answer, delivered, handled_by_n8n, failed, audit_resolution,
  automation_context, not_rendered, audit_completed_email_provider, is_n8n, resolve_template_data,
  is_rendered, find_recipient, has_key, create_notification, new_notification, persist_delivery,
  create_checked, create_email_delivery,
}
use robia_back.Notifications.Creation.Once.{
  IsKept, found_any, found_append, create_email_delivery-IsDelivery, delivered-IsKept,
}

-- An answer without a delivery.
abbrev IsStopped : Answer → Type 0
IsStopped (delivered _ _) = ⊥
IsStopped _ = Unit

-- A call answers without a delivery and changes nothing, or it writes one.
module _ (P : World × Answer → Type 0) (params : Params) (w : World) where
  create_email_delivery_cases :
      (config : Option String)
      → ((a : Answer) → IsStopped a → P (w, a))
      → ((data_ : TemplateData) (user : User) → P (persist_delivery params data_ user w))
      → P (create_email_delivery config params w)
  unfolding create_email_delivery create_checked
  create_email_delivery_cases config stops writes =
      elim (Bool-cases (
        str_eq params.template_key "audit_completed"
        && is_n8n (audit_completed_email_provider config))) [
          | inl e ↦
              let same : (w, handled_by_n8n) ≡ create_email_delivery config params w =
                ground (arith, e) in
              subst P same (stops handled_by_n8n tt)
          | inr e ↦ elim (Option-cases (resolve_template_data params w)) [
            | inl n ↦
                let same : (w, failed audit_resolution) ≡ create_email_delivery config params w =
                  ground (arith, e, n) in
                subst P same (stops (failed audit_resolution) tt)
            | inr (data_, f) ↦
                elim (Bool-cases
                  (is_rendered (render_notification_template params.template_key data_))) [
                    | inr r ↦
                        let same : (w, failed not_rendered)
                            ≡ create_email_delivery config params w =
                          ground (arith, e, f, r) in
                        subst P same (stops (failed not_rendered) tt)
                    | inl r ↦ elim (Option-cases (find_recipient params w)) [
                      | inl n ↦
                          let same : (w, failed automation_context)
                              ≡ create_email_delivery config params w =
                            ground (arith, e, f, r, n) in
                          subst P same (stops (failed automation_context) tt)
                      | inr (user, u) ↦
                          let same : persist_delivery params data_ user w
                              ≡ create_email_delivery config params w =
                            ground (arith, e, f, r, u) in
                          subst P same (writes data_ user)
                    ]
                  ]
          ]
        ]

persist_delivery-IsKept :
    (o k : ℕ) (d : Notification) (params : Params) (data_ : TemplateData) (user : User) (w : World)
    → IsKept o k d w
    → IsKept o k d (persist_delivery params data_ user w).0
unfolding persist_delivery create_notification
persist_delivery-IsKept o k d params data_ user w h =
    let key = has_key params.organization_id params.automation_step_run_id in
    let fresh = new_notification params data_ user w in
    let appended = found_append (has_key o k) w.deliveries (fresh ∷ []) d h in
    elim (Bool-cases (any key w.deliveries)) [
      | inr e ↦ ground (arith, e, appended)
      | inl e ↦ elim (Option-cases (find key w.deliveries)) [
        | inl n ↦ ground (arith, e, n, h)
        | inr (x, f) ↦ ground (arith, e, f, h)
      ]
    ]

create_email_delivery-IsKept :
    (o k : ℕ) (d : Notification) (config : Option String) (params : Params) (w : World)
    → IsKept o k d w
    → IsKept o k d (create_email_delivery config params w).0
create_email_delivery-IsKept o k d config params w h =
    create_email_delivery_cases (λ x. IsKept o k d x.0) params w config (λ _ _. h)
      (λ data_ user. persist_delivery-IsKept o k d params data_ user w h)

-- The answer to a call for a step run that has a delivery: it, or none, with nothing changed.
abbrev pub Repeats : Notification → World → World × Answer → Type 0
Repeats d w x =
    (x.0 ≡ w) × ((other : Notification) (email : Text) → x.1 ≡ delivered other email → other ≡ d)

stopped_not_delivered :
    (a : Answer) (d other : Notification) (email : Text)
    → IsStopped a
    → a ≡ delivered other email
    → other ≡ d
stopped_not_delivered a d other email s h = absurd (subst IsStopped h s)

persist_delivery-Repeats :
    (d : Notification) (params : Params) (data_ : TemplateData) (user : User) (w : World)
    → IsKept params.organization_id params.automation_step_run_id d w
    → Repeats d w (persist_delivery params data_ user w)
unfolding persist_delivery create_notification
persist_delivery-Repeats d params data_ user w h =
    let key = has_key params.organization_id params.automation_step_run_id in
    let there = found_any key w.deliveries d h in
    let same : (w, delivered d user.email) ≡ persist_delivery params data_ user w =
      ground (arith, there, h) in
    subst (Repeats d w) same (refl, λ other email e. let one : other ≡ d = ground (arith, e) in one)

-- Calls one after the other, each with the configuration that it finds.
unfoldable pub create_all : List (Option String × Params) → World → World
create_all [] w = w
create_all ((config, params) ∷ calls) w = create_all calls (create_email_delivery config params w).0

create_all-IsKept :
    (o k : ℕ) (d : Notification) (calls : List (Option String × Params)) (w : World)
    → IsKept o k d w
    → IsKept o k d (create_all calls w)
unfolding create_all
create_all-IsKept o k d [] w h = h
create_all-IsKept o k d ((config, params) ∷ calls) w h =
    create_all-IsKept o k d calls (create_email_delivery config params w).0
      (create_email_delivery-IsKept o k d config params w h)

-- Once a call for a step run has returned a delivery, every later call for that step run, with
-- whatever template, data and configuration and after whatever other calls, changes nothing, and
-- returns that delivery if it returns one.
pub create_email_delivery-Repeats :
    (config again : Option String) (first second : Params) (w v : World) (d : Notification)
    (email : Text) (calls : List (Option String × Params))
    → create_email_delivery config first w ≡ (v, delivered d email)
    → second.organization_id ≡ first.organization_id
    → second.automation_step_run_id ≡ first.automation_step_run_id
    → Repeats d (create_all calls v) (create_email_delivery again second (create_all calls v))
create_email_delivery-Repeats config again first second w v d email calls h same_o same_k =
    let (data_, user, delivery) = create_email_delivery-IsDelivery config first w v d email h in
    let kept =
      create_all-IsKept first.organization_id first.automation_step_run_id d calls v
        (delivered-IsKept first data_ user w v d delivery.origin) in
    let here =
      subst (λ o. IsKept o second.automation_step_run_id d (create_all calls v)) (sym same_o)
        (subst (λ k. IsKept first.organization_id k d (create_all calls v)) (sym same_k) kept) in
    create_email_delivery_cases (Repeats d (create_all calls v)) second (create_all calls v) again
      (λ a s. (refl, λ other e k. stopped_not_delivered a d other e s k))
      (λ x u. persist_delivery-Repeats d second x u (create_all calls v) here)
