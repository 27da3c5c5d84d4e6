-- ===== src/Odc/Outreach/Tests.antt =====
-- Runs of src/odc/odc-outreach.service.ts on a program with three applications.
use robia_back.Prelude.{
  ℕ, ◌⊎◌, ◌≡◌, refl, ◌&&◌, false, true, Option, none, some, List, [], ◌∷◌, length,
}
use robia_back.Storage.Texts.{Text, codes}
use robia_back.Storage.Filenames.{is_white}
use robia_back.Notifications.Templates.{is_acceptable}
use robia_back.Odc.Application.{in_review, waitlisted, draft, Status as ApplicationStatus}
use robia_back.Odc.Outreach.Rows.{
  Failure, Application, Program, Outreach, Mail, World, find_outreach, mask_email, clip,
  applicant_of, program_name, next_sendable_id, find_queue,
}
use robia_back.Odc.Outreach.Queueing.{
  done, refused, bad_request, conflict, invalid_template_data, queue, new_row, is_id,
}
use robia_back.Odc.Outreach.Sending.{mark_sent, answer, send, record_sent}
use robia_back.Odc.Outreach.Validity.{IsValid}
use robia_back.Odc.Outreach.Campaign.{Request, queue_request, send_request, handle}
use robia_back.Odc.Outreach.Joining.{Implements}
use robia_back.Odc.Outreach.Refinement.{handle-Implements}
use robia_back.Odc.Outreach.Effects.{HasEffect, IsRefused, handle_effects}
use robia_back.Odc.Outreach.Once.{AreMailed, empty-IsValid, handle_all, handle_all-AreMailed}
use robia_back.Odc.Outreach.Blocked.{applicant_name, name_of_program, send_blocked}

abbrev application : ℕ → ApplicationStatus → Text → Option Text → Application
application id status name email = record {
  id = id;
  organization_id = 1;
  program_id = 5;
  status = status;
  applicant = record { display_name = name; email = email };
}

abbrev program : Program
program = record { id = 5; organization_id = 1; name = codes " ODC " }

abbrev empty : World
empty = record {
  programs = program ∷ [];
  applications =
      application 11 in_review (codes "Ada") (some (codes " ada@x.org "))
      ∷ application 12 waitlisted (codes "A\nB") (some (codes "b@x.org"))
      ∷ application 13 draft (codes "Eve") none
      ∷ [];
  outreaches = [];
  history = [];
  next_id = 100;
  outbox = [];
}

accepts : Mail → Option Failure
accepts mail = none

handle_effects_example :
    Implements empty (handle (queue_request 1 5 (11 ∷ 12 ∷ [])) empty)
    × (HasEffect (queue_request 1 5 (11 ∷ 12 ∷ [])) empty
        ⊎ IsRefused (queue_request 1 5 (11 ∷ 12 ∷ [])) empty)
handle_effects_example = handle_effects (queue_request 1 5 (11 ∷ 12 ∷ [])) empty (empty-IsValid 100)

abbrev requests : List Request
requests =
    queue_request 1 5 (11 ∷ 12 ∷ [])
    ∷ send_request accepts 9 1 2 100
    ∷ send_request accepts 9 1 2 100
    ∷ []

handle_all-AreMailed_example :
    (ids : List ℕ) × AreMailed empty.applications (handle_all requests empty) ids
handle_all-AreMailed_example = handle_all-AreMailed requests empty refl refl

only_one : length (handle_all requests empty).outbox ≡ 1
unfolding handle_all is_white accepts
only_one = refl

-- The queue with both applications, and the one without the first.
abbrev waiting : World
waiting = (queue 1 5 (11 ∷ 12 ∷ []) empty).0

abbrev after_first : World
after_first = (send accepts 9 1 2 100 waiting).0

abbrev first_row : Outreach
first_row = new_row 1 5 1 100 11

waiting-IsValid : IsValid waiting.next_id waiting.outreaches
unfolding handle
waiting-IsValid = (handle-Implements (queue_request 1 5 (11 ∷ 12 ∷ [])) empty (empty-IsValid 100)).0

first_sent :
    send accepts 9 1 2 100 waiting
    ≡ (after_first, done (answer (mark_sent 2 9) first_row after_first))
unfolding send queue is_white accepts
first_sent = refl

not_eligible : (queue 1 5 (13 ∷ []) empty).1 ≡ refused conflict
unfolding queue
not_eligible = refl

twice_in_one : (queue 1 5 (11 ∷ 11 ∷ []) empty).1 ≡ refused bad_request
unfolding queue
twice_in_one = refl

already_queued : (queue 1 5 (11 ∷ []) waiting).1 ≡ refused conflict
unfolding queue is_white
already_queued = refl

not_next : (send accepts 9 1 2 101 waiting).1 ≡ refused conflict
unfolding send queue is_white
not_next = refl

-- The row of the second application is next, and its name has a line break.
not_accepted : (send accepts 10 1 2 101 after_first).1 ≡ refused invalid_template_data
unfolding send queue is_white accepts
not_accepted = refl

abbrev second_row : Outreach
second_row = new_row 1 5 2 101 12

second_found : find_outreach 1 101 after_first ≡ some second_row
unfolding send queue is_white accepts find_outreach
second_found = refl

second_next :
    is_id second_row.id (next_sendable_id (find_queue 1 second_row.program_id after_first)) ≡ true
unfolding send queue is_white accepts find_queue next_sendable_id
second_next = refl

second_refused :
    (is_acceptable (applicant_name after_first second_row)
      && is_acceptable (name_of_program after_first second_row))
    ≡ false
unfolding send queue is_white accepts is_acceptable clip applicant_of program_name
second_refused = refl

send_blocked_example : (send accepts 10 1 2 101 after_first).0 ≡ after_first
send_blocked_example =
    send_blocked accepts 10 1 2 101 after_first second_row second_row second_found second_next
      second_refused second_found refl

-- Two sends that have read the same rows: both mails go out.
abbrev first_mail : Mail
first_mail = record { to = codes "ada@x.org"; subject = []; body = [] }

raced :
    length
      (record_sent 2 9 first_row first_mail (record_sent 3 9 first_row first_mail waiting)).outbox
    ≡ 2
unfolding record_sent queue is_white
raced = refl

masks : mask_email (codes "ada@x.org") ≡ codes "a***@x.org"
unfolding mask_email
masks = refl
