-- ===== src/Odc/Outreach/Blocked.antt =====
-- Names that the template refuses, in src/odc/odc-outreach.service.ts.
use robia_back.Prelude.{
  ℕ, ◌≡◌, sym, ap, ◌∙◌, subst, inl, inr, true, false, ◌&&◌, Option, none, some, [], ◌∷◌, arith,
  Bool-cases,
}
use robia_back.Storage.Texts.{Text}
use robia_back.Notifications.Templates
use robia_back.Notifications.Templates.{
  object, text, own_template, is_known_notification_template, entry_of, is_acceptable, string_value,
  read_variables, has_unknown_key, validate_template_data, render_with,
  render_notification_template,
}
use robia_back.Odc.Outreach.Rows.{
  Failure, Outreach, Mail, World, clip, applicant_of, program_name, find_queue, find_outreach,
  next_sendable_id, address,
}
use robia_back.Odc.Outreach.Queueing.{Error, done, refused, is_id, is_empty}
use robia_back.Odc.Outreach.Sending.{compose, prepare, send}
use robia_back.Odc.Outreach.Delivery.{Reply-cases, prepare-IsPrepared, found_place}

-- The names of the mail of a row.
abbrev pub applicant_name : World → Outreach → Text
applicant_name w r = clip ((applicant_of r.application_id w.applications).display_name)

abbrev pub name_of_program : World → Outreach → Text
name_of_program w r = clip (program_name r.program_id w.programs)

render_refused :
    (a p : Text)
    → (is_acceptable a && is_acceptable p) ≡ false
    → render_notification_template "odc_candidate_invite"
        (object (("applicantName", text a) ∷ ("programName", text p) ∷ []))
      ≡ Templates.invalid_data
unfolding render_notification_template is_known_notification_template own_template render_with
    validate_template_data has_unknown_key read_variables entry_of string_value
render_refused a p h = ground (arith, h)

compose_refused :
    (w : World) (r : Outreach)
    → (is_acceptable (applicant_name w r) && is_acceptable (name_of_program w r)) ≡ false
    → (e : Error) × (compose w r ≡ refused e)
unfolding compose
compose_refused w r h =
    let bad = render_refused (applicant_name w r) (name_of_program w r) h in
    elim (Bool-cases (is_empty (address (applicant_of r.application_id w.applications)))) [
      | inl e ↦ (Error.conflict, ground (arith, e))
      | inr e ↦ (Error.invalid_template_data, ground (arith, e, bad))
    ]

next_unique : (i j : ℕ) (next : Option ℕ) → is_id i next ≡ true → is_id j next ≡ true → i ≡ j
next_unique i j none h k = ground (arith, h)
next_unique i j (some n) h k = ground (arith, h, k)

-- As long as the row that is next in its queue has a name, of the applicant or of the program,
-- that the template does not accept once it is trimmed and clipped, a `send` of any row of that
-- queue changes nothing, whatever the transport does.
pub send_blocked :
    (transport : Mail → Option Failure) (now o user i : ℕ) (w : World) (r q : Outreach)
    → find_outreach o r.id w ≡ some r
    → is_id r.id (next_sendable_id (find_queue o r.program_id w)) ≡ true
    → (is_acceptable (applicant_name w r) && is_acceptable (name_of_program w r)) ≡ false
    → find_outreach o i w ≡ some q
    → q.program_id ≡ r.program_id
    → (send transport now o user i w).0 ≡ w
unfolding send
send_blocked transport now o user i w r q found next bad found_q same_program =
    elim (Reply-cases (prepare o i w)) [
      | inr (e, c) ↦ ground (arith, c)
      | inl ((s, mail), c) ↦
          let p = prepare-IsPrepared o i w s mail c in
          let same : s ≡ q = ground (arith, p.found, found_q) in
          let program : s.program_id ≡ r.program_id =
            ap (λ (x : Outreach). x.program_id) same ∙ same_program in
          let next_s =
            subst (λ b. is_id s.id (next_sendable_id (find_queue o b w)) ≡ true) program p.next in
          let one : s.id ≡ r.id = next_unique s.id r.id _ next_s next in
          let here : i ≡ r.id = sym (found_place o i w s p.found).0 ∙ one in
          let head : s ≡ r = ground (arith, ap (λ j. find_outreach o j w) here, p.found, found) in
          let refusal = compose_refused w r bad in
          let composed : compose w r ≡ done mail =
            subst (λ x. compose w x ≡ done mail) head p.composed in
          absurd (ground (arith, composed, refusal.1))
    ]
