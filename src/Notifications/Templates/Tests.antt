-- ===== src/Notifications/Templates/Tests.antt =====
-- Runs of src/notifications/notification-templates.ts.
use robia_back.Prelude.{◌≡◌, refl, true, [], ◌∷◌}
use robia_back.Storage.Texts.{codes}
use robia_back.Notifications.Templates.{
  TemplateData, object, text, number, other, Rendered, ok, unknown_template, invalid_data,
  type_error, is_known_notification_template, render_notification_template, value_of, join_lines,
}
use robia_back.Notifications.Templates.Subjects.{
  IsHeaderLine, render_notification_template-IsHeaderLine,
}

abbrev weekly : TemplateData
weekly =
    object (
      ("organizationName", text (codes "Robia"))
      ∷ ("openOpportunityCount", number (codes "3"))
      ∷ [])

abbrev invite : TemplateData
invite = object (("applicantName", text (codes "Ada")) ∷ ("programName", text (codes "ODC")) ∷ [])

abbrev invitation : Rendered
invitation = record {
  subject = codes "Candidature « ODC » — prochaine étape";
  body =
      codes
        "Bonjour Ada,\n\nVotre dossier pour « ODC » a été présélectionné.\nNous vous recontactons pour la suite du processus.\n\n— Orange Digital Center";
}

invited : render_notification_template "odc_candidate_invite" invite ≡ ok invitation
unfolding render_notification_template value_of join_lines
invited = refl

render_notification_template-IsHeaderLine_example : IsHeaderLine 234 invitation.subject
render_notification_template-IsHeaderLine_example =
    render_notification_template-IsHeaderLine "odc_candidate_invite" invite invitation invited

unknown : render_notification_template "welcome" weekly ≡ unknown_template
unfolding render_notification_template
unknown = refl

broken_line :
    render_notification_template "odc_candidate_invite"
      (object (("applicantName", text (codes "A\nB")) ∷ ("programName", text (codes "ODC")) ∷ []))
    ≡ invalid_data
unfolding render_notification_template
broken_line = refl

extra_variable :
    render_notification_template "odc_candidate_invite" (
      object (
        ("applicantName", text (codes "A"))
        ∷ ("programName", text (codes "ODC"))
        ∷ ("url", other)
        ∷ []))
    ≡ invalid_data
unfolding render_notification_template
extra_variable = refl

-- A key that every object inherits counts as known.
inherited_key : is_known_notification_template "constructor" ≡ true
unfolding is_known_notification_template
inherited_key = refl

inherited_throws : render_notification_template "constructor" weekly ≡ type_error
unfolding render_notification_template
inherited_throws = refl
