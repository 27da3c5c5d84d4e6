-- ===== src/Odc/Outreach/Sending.antt =====
-- `send` and `skip` of src/odc/odc-outreach.service.ts. The transport is a parameter: the failure
-- of a mail, if there is one.
use robia_back.Prelude.{ℕ, Option, none, some, [], ◌∷◌, ◌++◌, if◌then◌else◌}
use robia_back.Notifications.Templates
use robia_back.Notifications.Templates.{object, text, Rendered, render_notification_template}
use robia_back.Odc.Outreach.Rows.{
  sent, failed, skipped, Failure, Outreach, Payload, outreach_sent, outreach_skipped, Event, Mail,
  World, is_sent, clip, address, mask_email, next_sendable_id, find_queue, find_outreach,
  applicant_of, status_of, program_name, update_outreach,
}
use robia_back.Odc.Outreach.Queueing.{
  not_found, conflict, invalid_template_data, undelivered, Reply, done, refused, Public, is_id,
  to_public, is_empty,
}

-- `send` up to the call of the transport: the row and its mail.
unfoldable pub compose : World → Outreach → Reply Mail
unfolding address is_empty clip program_name applicant_of render_notification_template
compose w r =
    let applicant = applicant_of r.application_id w.applications in
    let email = address applicant in
    let data_ = object (
      ("applicantName", text (clip applicant.display_name))
      ∷ ("programName", text (clip (program_name r.program_id w.programs)))
      ∷ []) in
    if is_empty email
    then refused conflict
    else (elim (render_notification_template "odc_candidate_invite" data_) [
      | Templates.ok m ↦ done (record { to = email; subject = m.subject; body = m.body })
      | _ ↦ refused invalid_template_data
    ])

unfoldable pub prepare : ℕ → ℕ → World → Reply (Outreach × Mail)
unfolding find_outreach find_queue next_sendable_id compose
prepare organization id w = elim (find_outreach organization id w) [
  | none ↦ refused not_found
  | some r ↦
      if is_id r.id (next_sendable_id (find_queue organization r.program_id w))
      then (elim (compose w r) [ refused e ↦ refused e | done mail ↦ done (r, mail) ])
      else refused conflict
]

abbrev pub mark_failed : Failure → Outreach → Outreach
mark_failed failure r = record r { status = failed; last_error = some failure }

abbrev pub mark_sent : ℕ → ℕ → Outreach → Outreach
mark_sent user now r = record r {
  status = sent;
  approved_by = some user;
  sent_at = some now;
  last_error = none;
}

abbrev pub mark_skipped : ℕ → Outreach → Outreach
mark_skipped user r = record r { status = skipped; approved_by = some user }

abbrev pub actor_event : ℕ → World → Outreach → Payload → Event
actor_event user w r payload = record {
  organization_id = r.organization_id;
  application_id = r.application_id;
  actor = some user;
  payload = payload;
  from_status = status_of r.application_id w.applications;
  to_status = status_of r.application_id w.applications;
}

-- The row as `update` returns it, in the queue as it is afterwards.
unfoldable pub answer : (Outreach → Outreach) → Outreach → World → Public
unfolding to_public next_sendable_id find_queue
answer data_ r w =
    to_public w.applications (next_sendable_id (find_queue r.organization_id r.program_id w))
      (data_ r)

-- The writes of `send` after the transport has failed, or has accepted the mail.
unfoldable pub record_failure : Failure → Outreach → World → World
unfolding update_outreach
record_failure failure r w = record w {
  outreaches = update_outreach r.id (mark_failed failure) w.outreaches;
}

unfoldable pub record_sent : ℕ → ℕ → Outreach → Mail → World → World
unfolding update_outreach mask_email status_of
record_sent user now r mail w = record w {
  outreaches = update_outreach r.id (mark_sent user now) w.outreaches;
  history = w.history ++ actor_event user w r (outreach_sent r.id (mask_email mail.to)) ∷ [];
  outbox = w.outbox ++ mail ∷ [];
}

unfoldable pub send : (Mail → Option Failure) → ℕ → ℕ → ℕ → ℕ → World → World × Reply Public
unfolding prepare record_failure record_sent answer
send transport now organization user id w = elim (prepare organization id w) [
  | refused e ↦ (w, refused e)
  | done (r, mail) ↦ elim (transport mail) [
    | some failure ↦ (record_failure failure r w, refused (undelivered failure))
    | none ↦ let v = record_sent user now r mail w in (v, done (answer (mark_sent user now) r v))
  ]
]

unfoldable pub record_skip : ℕ → Outreach → World → World
unfolding update_outreach status_of
record_skip user r w = record w {
  outreaches = update_outreach r.id (mark_skipped user) w.outreaches;
  history = w.history ++ actor_event user w r (outreach_skipped r.id) ∷ [];
}

unfoldable pub skip : ℕ → ℕ → ℕ → World → World × Reply Public
unfolding find_outreach record_skip answer
skip organization user id w = elim (find_outreach organization id w) [
  | none ↦ (w, refused not_found)
  | some r ↦
      if is_sent r.status
      then (w, refused conflict)
      else let v = record_skip user r w in (v, done (answer (mark_skipped user) r v))
]
