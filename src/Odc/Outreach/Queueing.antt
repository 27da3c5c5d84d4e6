-- ===== src/Odc/Outreach/Queueing.antt =====
-- `list` and `queue` of src/odc/odc-outreach.service.ts, and what a client sees of a row.
use robia_back.Prelude.{
  ℕ, suc, ◌+◌, Bool, true, false, not, Option, none, some, List, [], ◌∷◌, ◌++◌, ◌==◌, any, find,
  filter, length, map, if◌then◌else◌, ◌&&◌,
}
use robia_back.Storage.Texts.{Text}
use robia_back.Odc.Outreach.Rows.{
  Status, queued, Failure, Application, Program, Outreach, outreach_queued, Event, World,
  is_eligible, address, mask_email, queue_of, next_sendable_id, find_queue, require_program,
  applicant_of, status_of,
}

-- `invalid_template_data` is the error of the template, which no handler catches.
pub data Error : Type 0 where
  bad_request not_found conflict invalid_template_data : Error
  undelivered : Failure → Error

pub data Reply {ℓ} (A : Type ℓ) : Type ℓ where
  done : A → Reply A
  refused : Error → Reply A

pub record Public : Type 0 where
  pub id : ℕ
  pub program_id : ℕ
  pub application_id : ℕ
  pub sort_order : ℕ
  pub status : Status
  pub applicant_name : Text
  pub recipient_masked : Text
  pub sent_at : Option ℕ
  pub last_error : Option Failure
  pub is_next : Bool

abbrev pub is_id : ℕ → Option ℕ → Bool
is_id id none = false
is_id id (some i) = i == id

unfoldable pub masked_recipient : Option Text → Text
unfolding mask_email
masked_recipient none = []
masked_recipient (some []) = []
masked_recipient (some (c ∷ s)) = mask_email (c ∷ s)

unfoldable pub to_public : List Application → Option ℕ → Outreach → Public
unfolding masked_recipient applicant_of
to_public applications next r =
    let applicant = applicant_of r.application_id applications in
    record {
      id = r.id;
      program_id = r.program_id;
      application_id = r.application_id;
      sort_order = r.sort_order;
      status = r.status;
      applicant_name = applicant.display_name;
      recipient_masked = masked_recipient applicant.email;
      sent_at = r.sent_at;
      last_error = r.last_error;
      is_next = is_id r.id next;
    }

unfoldable pub all_public : List Application → Option ℕ → List Outreach → List Public
unfolding to_public
all_public applications next [] = []
all_public applications next (r ∷ rows) =
    to_public applications next r ∷ all_public applications next rows

unfoldable pub list : ℕ → ℕ → World → Reply (List Public)
unfolding require_program find_queue next_sendable_id all_public
list organization program w = elim (require_program organization program w) [
  | none ↦ refused not_found
  | some _ ↦
      let rows = find_queue organization program w in
      done (all_public w.applications (next_sendable_id rows) rows)
]

-- `[...new Set(ids)]`
unfoldable pub unique : List ℕ → List ℕ
unique [] = []
unique (i ∷ ids) = i ∷ filter (λ j. not (j == i)) (unique ids)

-- `findMany({ where: { organizationId, programId, id: { in: ids } } })`
unfoldable pub find_applications : ℕ → ℕ → List ℕ → List Application → List Application
find_applications organization program ids applications =
    filter
      (λ (a : Application).
        a.organization_id == organization && a.program_id == program && any (λ i. i == a.id) ids)
      applications

-- The loop over the ids, with the error that it throws.
unfoldable pub is_empty : Text → Bool
is_empty [] = true
is_empty _ = false

unfoldable pub check_application : Option Application → Option Error
unfolding is_empty address
check_application none = some not_found
check_application (some a) =
    if not (is_eligible a.status)
    then some conflict
    else if is_empty (address a.applicant)
    then some conflict
    else none

unfoldable pub check_applications : List Application → List ℕ → Option Error
unfolding check_application
check_applications found [] = none
check_applications found (i ∷ ids) =
    let rest = check_applications found ids in
    elim (check_application (find (λ (a : Application). a.id == i) found)) [
      | some e ↦ some e
      | none ↦ rest
    ]

abbrev pub new_row : ℕ → ℕ → ℕ → ℕ → ℕ → Outreach
new_row organization program sort_order id application = record {
  id = id;
  organization_id = organization;
  program_id = program;
  application_id = application;
  sort_order = sort_order;
  status = queued;
  approved_by = none;
  sent_at = none;
  last_error = none;
}

-- The transaction: the number of the rows before each, its id, and `none` for `P2002`.
unfoldable pub create_rows : ℕ → ℕ → ℕ → ℕ → List ℕ → List Outreach → Option (List Outreach)
create_rows organization program count id [] rows = some rows
create_rows organization program count id (a ∷ ids) rows =
    let created =
      create_rows organization program (suc count) (suc id) ids
        (rows ++ new_row organization program (suc count) id a ∷ []) in
    if any (λ (r : Outreach). r.application_id == a) rows then none else created

abbrev pub queued_event : List Application → Program → ℕ → Event
queued_event applications program application = record {
  organization_id = program.organization_id;
  application_id = application;
  actor = none;
  payload = outreach_queued program.id program.name;
  from_status = status_of application applications;
  to_status = status_of application applications;
}

-- The writes of `queue`.
unfoldable pub enqueue : Program → List ℕ → World → Option World
unfolding create_rows queue_of status_of
enqueue program ids w =
    let count = length (queue_of program.organization_id program.id w.outreaches) in
    elim (create_rows program.organization_id program.id count w.next_id ids w.outreaches) [
      | none ↦ none
      | some rows ↦ some (record w {
        outreaches = rows;
        history = w.history ++ map (queued_event w.applications program) ids;
        next_id = w.next_id + length ids;
      })
    ]

-- The checks of `queue`: the program and the ids, or an error.
unfoldable pub check_queue : ℕ → ℕ → List ℕ → World → Reply Program
unfolding require_program unique find_applications check_applications
check_queue organization program_id application_ids w =
    elim (require_program organization program_id w) [
      | none ↦ refused not_found
      | some program ↦
          let ids = unique application_ids in
          let found = find_applications organization program_id ids w.applications in
          if not (length ids == length application_ids)
          then refused bad_request
          else if not (length found == length ids)
          then refused not_found
          else (elim (check_applications found ids) [ some e ↦ refused e | none ↦ done program ])
    ]

unfoldable pub queue : ℕ → ℕ → List ℕ → World → World × Reply (List Public)
unfolding check_queue enqueue list unique
queue organization program_id application_ids w =
    elim (check_queue organization program_id application_ids w) [
      | refused e ↦ (w, refused e)
      | done program ↦ elim (enqueue program (unique application_ids) w) [
        | none ↦ (w, refused conflict)
        | some v ↦ (v, list organization program_id v)
      ]
    ]
