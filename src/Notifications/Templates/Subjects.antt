-- ===== src/Notifications/Templates/Subjects.antt =====
-- The subjects that src/notifications/notification-templates.ts renders, and the variables in them.
use robia_back.Prelude.{
  ℕ, ◌+◌, ◌≤◌, ◌≡◌, refl, inl, inr, String, true, false, some, List, [], ◌∷◌, ◌++◌, any, length,
  str_eq, subst, All, arith, Bool-cases, Option-cases, any-append, length-append,
}
use robia_back.Storage.Texts.{Text, codes}
use robia_back.Notifications.Templates.{
  Entries, TemplateData, object, not_an_object, Values, Template, Rendered, ok, templates,
  audit_completed, automation_failed, weekly_opportunities_summary, odc_candidate_invite,
  is_line_break, value_of, own_template, is_known_notification_template, is_acceptable,
  read_variables, validate_template_data, render_with, render_inherited,
  render_notification_template,
}

-- A line of the header: without a line break, and of a bounded length.
pub record IsHeaderLine (n : ℕ) (s : Text) : Type 0 where
  pub unbroken : any is_line_break s ≡ false
  pub bounded : length s ≤ n

IsHeaderLine-append :
    (m n : ℕ) (s t : Text) → IsHeaderLine m s → IsHeaderLine n t → IsHeaderLine (m + n) (s ++ t)
IsHeaderLine-append m n s t h k = record {
  unbroken = ground (arith, any-append is_line_break s t, h.unbroken, k.unbroken);
  bounded = omega (arith, length-append s t, h.bounded, k.bounded);
}

IsHeaderLine-acceptable : (s : Text) → is_acceptable s ≡ true → IsHeaderLine 200 s
unfolding is_acceptable
IsHeaderLine-acceptable s h = record { unbroken = ground arith; bounded = ground arith }

-- The value of every variable that has been read is acceptable.
value_of-read_variables :
    (variables : List String) (entries : Entries) (values : Values) (key : String)
    → read_variables variables entries ≡ some values
    → any (λ v. str_eq v key) variables ≡ true
    → is_acceptable (value_of key values) ≡ true
unfolding read_variables value_of
value_of-read_variables [] entries values key h k = ground arith
value_of-read_variables (v ∷ variables) entries values key h k =
    elim (Option-cases (read_variables variables entries)) [
      | inl e ↦ ground (arith, e)
      | inr (others, e) ↦ ground (arith, e, value_of-read_variables variables entries others key e)
    ]

value_of-IsHeaderLine :
    (template : Template) (data_ : TemplateData) (values : Values) (key : String)
    → validate_template_data template.variables data_ ≡ some values
    → any (λ v. str_eq v key) template.variables ≡ true
    → IsHeaderLine 200 (value_of key values)
unfolding validate_template_data
value_of-IsHeaderLine template not_an_object values key h k = ground arith
value_of-IsHeaderLine template (object entries) values key h k =
    IsHeaderLine-acceptable (value_of key values)
      (value_of-read_variables template.variables entries values key (ground arith) k)

-- The subject of a template is a header line, whatever data it accepts.
abbrev pub HasSubject : Template → Type 0
HasSubject template =
    (data_ : TemplateData) (values : Values)
    → validate_template_data template.variables data_ ≡ some values
    → IsHeaderLine 234 (template.subject values)

wider : (m n : ℕ) (s : Text) → m ≤ n → IsHeaderLine m s → IsHeaderLine n s
wider m n s h l = record { unbroken = l.unbroken; bounded = omega (arith, h, l.bounded) }

HasSubject-audit_completed : HasSubject audit_completed
unfolding is_line_break
HasSubject-audit_completed data_ values h = wider 219 234 _ (omega arith) (
    IsHeaderLine-append 19 200 (codes "Audit terminé pour ") (value_of "websiteUrl" values)
      (record { unbroken = refl; bounded = omega arith })
      (value_of-IsHeaderLine audit_completed data_ values "websiteUrl" h refl))

HasSubject-automation_failed : HasSubject automation_failed
unfolding is_line_break
HasSubject-automation_failed data_ values h = wider 230 234 _ (omega arith) (
    IsHeaderLine-append 28 202 (codes "Échec de l'automatisation « ")
      (value_of "automationName" values ++ codes " »")
      (record { unbroken = refl; bounded = omega arith })
      (IsHeaderLine-append 200 2 (value_of "automationName" values) (codes " »")
        (value_of-IsHeaderLine automation_failed data_ values "automationName" h refl)
        (record { unbroken = refl; bounded = omega arith })))

HasSubject-weekly_opportunities_summary : HasSubject weekly_opportunities_summary
unfolding is_line_break
HasSubject-weekly_opportunities_summary data_ values h = record {
  unbroken = refl;
  bounded = omega arith;
}

HasSubject-odc_candidate_invite : HasSubject odc_candidate_invite
unfolding is_line_break
HasSubject-odc_candidate_invite data_ values h =
    IsHeaderLine-append 14 220 (codes "Candidature « ")
      (value_of "programName" values ++ codes " » — prochaine étape")
      (record { unbroken = refl; bounded = omega arith })
      (IsHeaderLine-append 200 20 (value_of "programName" values) (codes " » — prochaine étape")
        (value_of-IsHeaderLine odc_candidate_invite data_ values "programName" h refl)
        (record { unbroken = refl; bounded = omega arith }))

subject-render_with :
    (template : Template) (data_ : TemplateData) (r : Rendered)
    → HasSubject template
    → render_with template data_ ≡ ok r
    → IsHeaderLine 234 r.subject
unfolding render_with
subject-render_with template data_ r t h =
    elim (Option-cases (validate_template_data template.variables data_)) [
      | inl e ↦ ground (arith, e)
      | inr (values, e) ↦ ground (arith, e, t data_ values e)
    ]

HasSubject-own_template :
    (key : String) (ts : List (String × Template)) (t : Template)
    → All (λ (e : String × Template). HasSubject e.1) ts
    → own_template key ts ≡ some t
    → HasSubject t
unfolding own_template
HasSubject-own_template key [] t a h = ground arith
HasSubject-own_template key ((k, u) ∷ ts) t a h = elim (Bool-cases (str_eq k key)) [
  | inl e ↦ subst HasSubject (let same : u ≡ t = ground (arith, e) in same) a.0
  | inr e ↦
      HasSubject-own_template key ts t a.1
        (let rest : own_template key ts ≡ some t = ground (arith, e) in rest)
]

-- The subject of every mail that a template key and its data render to has no line break and at
-- most 234 code units, so that no variable adds a header to the mail.
pub render_notification_template-IsHeaderLine :
    (key : String) (data_ : TemplateData) (r : Rendered)
    → render_notification_template key data_ ≡ ok r
    → IsHeaderLine 234 r.subject
unfolding render_notification_template render_inherited
render_notification_template-IsHeaderLine key data_ r h =
    elim (Bool-cases (is_known_notification_template key)) [
      | inr e ↦ ground (arith, e)
      | inl e ↦ elim (Option-cases (own_template key templates)) [
        | inl n ↦
            elim data_ as (λ d. render_inherited d ≡ ok r → IsHeaderLine 234 r.subject) [
              | object _ ↦ λ k. ground (arith, k)
              | not_an_object ↦ λ k. ground (arith, k)
            ]
              (ground (arith, e, n))
        | inr (t, o) ↦
            subject-render_with t data_ r
              (HasSubject-own_template key templates t
                (
                  HasSubject-audit_completed,
                  (
                    HasSubject-automation_failed,
                    (
                      HasSubject-weekly_opportunities_summary,
                      (HasSubject-odc_candidate_invite, tt),
                    ),
                  ),
                )
                o)
              (ground (arith, e, o))
      ]
    ]
