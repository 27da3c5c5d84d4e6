-- ===== src/Odc/Outreach/Rows.antt =====
-- The rows that src/odc/odc-outreach.service.ts reads and writes, and its queries. Names and mail
-- addresses are lists of code units.
use robia_back.Prelude.{
  ℕ, Bool, true, false, ◌&&◌, Option, none, some, List, [], ◌∷◌, ◌++◌, leb, ◌==◌, find, filter,
  length, if◌then◌else◌,
}
use robia_back.Storage.Texts.{Text, codes, take}
use robia_back.Storage.Filenames.{trim_start, trim_end}
use robia_back.Odc.Application.{in_review, waitlisted, Status as ApplicationStatus}

pub data Status : Type 0 where
  queued sent failed skipped : Status

-- Why a mail was not delivered: the error of `ensureReady`, or any other of the transport.
pub data Failure : Type 0 where
  notifications_disabled : Failure
  incomplete_configuration : Text → Failure
  delivery_failed : Failure

pub record Applicant : Type 0 where
  pub display_name : Text
  pub email : Option Text

pub record Application : Type 0 where
  pub id : ℕ
  pub organization_id : ℕ
  pub program_id : ℕ
  pub status : ApplicationStatus
  pub applicant : Applicant

pub record Program : Type 0 where
  pub id : ℕ
  pub organization_id : ℕ
  pub name : Text

-- A row of `odc_outreaches`; its template is always `odc_candidate_invite`. The error of a row is
-- kept by its cause, not by its message.
pub record Outreach : Type 0 where
  pub id : ℕ
  pub organization_id : ℕ
  pub program_id : ℕ
  pub application_id : ℕ
  pub sort_order : ℕ
  pub status : Status
  pub approved_by : Option ℕ
  pub sent_at : Option ℕ
  pub last_error : Option Failure

-- What an event of the history carries.
pub data Payload : Type 0 where
  outreach_queued : ℕ → Text → Payload
  outreach_sent : ℕ → Text → Payload
  outreach_skipped : ℕ → Payload

pub record Event : Type 0 where
  pub organization_id : ℕ
  pub application_id : ℕ
  pub actor : Option ℕ
  pub payload : Payload
  pub from_status : ApplicationStatus
  pub to_status : ApplicationStatus

pub record Mail : Type 0 where
  pub to : Text
  pub subject : Text
  pub body : Text

-- The tables, the supply of ids, and the mails that the transport has accepted. The rows of
-- `outreaches` are in the order of their creation.
pub record World : Type 0 where
  pub programs : List Program
  pub applications : List Application
  pub outreaches : List Outreach
  pub history : List Event
  pub next_id : ℕ
  pub outbox : List Mail

abbrev pub is_eligible : ApplicationStatus → Bool
is_eligible in_review = true
is_eligible waitlisted = true
is_eligible _ = false

-- `row.status === 'queued' || row.status === 'failed'`
abbrev pub is_sendable : Status → Bool
is_sendable queued = true
is_sendable failed = true
is_sendable _ = false

abbrev pub is_sent : Status → Bool
is_sent sent = true
is_sent _ = false

abbrev pub max_name_length : ℕ
max_name_length = 80

unfoldable pub trim : Text → Text
unfolding trim_start trim_end
trim s = trim_end (trim_start s)

unfoldable pub clip : Text → Text
unfolding trim
clip s = let t = trim s in if leb (length t) max_name_length then t else take max_name_length t

-- `email?.trim() ?? ''`
unfoldable pub address : Applicant → Text
unfolding trim
address applicant = elim applicant.email [ none ↦ [] | some s ↦ trim s ]

-- `maskEmail`: what precedes the first `@`, and what follows it.
unfoldable pub split_at_sign : Text → Option (Text × Text)
split_at_sign [] = none
split_at_sign (c ∷ s) =
    let rest = split_at_sign s in
    if c == b'@' then some ([], s) else (elim rest [ none ↦ none | some (l, d) ↦ some (c ∷ l, d) ])

unfoldable pub masked : Option (Text × Text) → Text
masked (some (c ∷ _, domain)) = c ∷ codes "***@" ++ domain
masked _ = codes "***"

unfoldable pub mask_email : Text → Text
unfolding split_at_sign masked
mask_email email = masked (split_at_sign email)

-- `where: { organizationId, programId }`
unfoldable pub in_queue : ℕ → ℕ → Outreach → Bool
in_queue organization program r = r.organization_id == organization && r.program_id == program

unfoldable pub queue_of : ℕ → ℕ → List Outreach → List Outreach
unfolding in_queue
queue_of organization program rows = filter (in_queue organization program) rows

-- `orderBy: { sortOrder: 'asc' }`, and the same order in JavaScript, which is stable.
unfoldable pub insert_row : Outreach → List Outreach → List Outreach
insert_row r [] = r ∷ []
insert_row r (q ∷ rows) =
    let rest = insert_row r rows in if leb r.sort_order q.sort_order then r ∷ q ∷ rows else q ∷ rest

unfoldable pub order_rows : List Outreach → List Outreach
unfolding insert_row
order_rows [] = []
order_rows (r ∷ rows) = insert_row r (order_rows rows)

unfoldable pub first_id : List Outreach → Option ℕ
first_id [] = none
first_id (r ∷ _) = some r.id

unfoldable pub next_sendable_id : List Outreach → Option ℕ
unfolding order_rows first_id
next_sendable_id rows = first_id (order_rows (filter (λ r. is_sendable r.status) rows))

-- `findMany` of a queue, in its order.
unfoldable pub find_queue : ℕ → ℕ → World → List Outreach
unfolding queue_of order_rows
find_queue organization program w = order_rows (queue_of organization program w.outreaches)

unfoldable pub find_outreach : ℕ → ℕ → World → Option Outreach
find_outreach organization id w =
    find (λ r. r.id == id && r.organization_id == organization) w.outreaches

unfoldable pub require_program : ℕ → ℕ → World → Option Program
require_program organization id w =
    find (λ p. p.id == id && p.organization_id == organization) w.programs

-- `include: { application: { include: { applicant } }, program }`. The foreign keys of
-- `odc_outreaches` keep both, so that the last clauses are for rows that the database refuses.
abbrev pub missing_applicant : Applicant
missing_applicant = record { display_name = []; email = none }

unfoldable pub applicant_of : ℕ → List Application → Applicant
applicant_of id [] = missing_applicant
applicant_of id (a ∷ rest) =
    let found = applicant_of id rest in if a.id == id then a.applicant else found

unfoldable pub status_of : ℕ → List Application → ApplicationStatus
status_of id [] = in_review
status_of id (a ∷ rest) = let found = status_of id rest in if a.id == id then a.status else found

unfoldable pub program_name : ℕ → List Program → Text
program_name id [] = []
program_name id (p ∷ rest) =
    let found = program_name id rest in if p.id == id then p.name else found

-- `update({ where: { id }, data })`
unfoldable pub update_outreach : ℕ → (Outreach → Outreach) → List Outreach → List Outreach
update_outreach id data_ [] = []
update_outreach id data_ (r ∷ rows) =
    let rest = update_outreach id data_ rows in (if r.id == id then data_ r else r) ∷ rest
