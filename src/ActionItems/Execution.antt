-- ===== src/ActionItems/Execution.antt =====
-- src/action-items/action-execution.service.ts, on an action that was found in the caller's
-- organization, with the events recorded for it. A request runs from its first query to its last
-- write without another in between.
use robia_back.Prelude.{
  ℕ, ◌+◌, String, Bool, true, false, not, Option, none, some, List, [], ◌∷◌, find, str_eq, trim,
  is_blank, if◌then◌else◌,
}

pub data ApprovalStatus : Type 0 where
  draft pending approved rejected : ApprovalStatus

pub data ExecutionStatus : Type 0 where
  not_started ready succeeded failed : ExecutionStatus

pub data TaskStatus : Type 0 where
  todo in_progress done blocked ignored : TaskStatus

-- The keys of an evidence object with the texts of their values.
abbrev pub Evidence : Type 0
Evidence = List (String × String)

-- `website_id` is that of the audit behind the opportunity of the action.
pub record Item : Type 0 where
  pub status : TaskStatus
  pub approval_status : ApprovalStatus
  pub approval_reason : Option String
  pub execution_status : ExecutionStatus
  pub evidence : Option Evidence
  pub verification_audit_id : Option ℕ
  pub attempt_count : ℕ
  pub website_id : Option ℕ

pub data EventType : Type 0 where
  was_submitted was_approved was_rejected execution_succeeded execution_failed : EventType

-- `idempotencyKey` after the id of the action: one that `eventKey` has made with a new UUID, or
-- `execution:` and the caller's key.
pub data Key : Type 0 where
  made : EventType → ℕ → Key
  execution : String → Key

pub record Payload : Type 0 where
  pub evidence : Evidence
  pub note : Option String
  pub verification_audit_id : Option ℕ

pub record Event : Type 0 where
  pub user : ℕ
  pub event_type : EventType
  pub key : Key
  pub reason : Option String
  pub payload : Option Payload

-- The item, its events with the latest first, and the next UUID.
pub record State : Type 0 where
  pub item : Item
  pub events : List Event
  pub next_uuid : ℕ

pub data Error : Type 0 where
  bad_request not_found : Error

-- The Boolean is `changed`, or the negation of `idempotent`; the event is the one that is returned
-- beside the action.
pub data Outcome : Type 0 where
  ok : Bool → Option Event → State → Outcome
  err : Error → Outcome

-- `RecordActionExecutionDto`
pub record ExecutionDto : Type 0 where
  pub idempotency_key : String
  pub succeeds : Bool
  pub evidence : Evidence
  pub note : Option String
  pub verification_audit_id : Option ℕ

abbrev pub decision_event : ℕ → EventType → Option String → ℕ → Event
decision_event user type reason uuid = record {
  user = user;
  event_type = type;
  key = made type uuid;
  reason = reason;
  payload = none;
}

-- The transaction of an approval step: the update and its event.
unfoldable pub decided : ℕ → EventType → Option String → Item → State → Outcome
decided user type reason item s =
    let e = decision_event user type reason s.next_uuid in
    ok true (some e) (record { item = item; events = e ∷ s.events; next_uuid = s.next_uuid + 1 })

abbrev pub submitted_item : Item → Item
submitted_item i = record i {
  approval_status = pending;
  approval_reason = none;
  execution_status = not_started;
}

unfoldable pub submit : ℕ → State → Outcome
unfolding decided
submit user s = elim s.item.approval_status [
  | pending ↦ ok false none s
  | approved ↦ err bad_request
  | draft ↦ decided user was_submitted none (submitted_item s.item) s
  | rejected ↦ decided user was_submitted none (submitted_item s.item) s
]

unfoldable pub approve : ℕ → State → Outcome
unfolding decided
approve user s = elim s.item.approval_status [
  | approved ↦ ok false none s
  | pending ↦
      decided user was_approved none
        (record s.item {
          approval_status = approved;
          approval_reason = none;
          execution_status = ready;
        })
        s
  | draft ↦ err bad_request
  | rejected ↦ err bad_request
]

abbrev pub is_pending : ApprovalStatus → Bool
is_pending pending = true
is_pending _ = false

unfoldable pub reject : ℕ → String → State → Outcome
unfolding decided
reject user reason s =
    if is_pending s.item.approval_status
    then decided user was_rejected (some (trim reason))
        (record s.item {
          approval_status = rejected;
          approval_reason = some (trim reason);
          execution_status = not_started;
        })
        s
    else err bad_request

abbrev pub is_approved : ApprovalStatus → Bool
is_approved approved = true
is_approved _ = false

abbrev pub is_succeeded : ExecutionStatus → Bool
is_succeeded succeeded = true
is_succeeded _ = false

unfoldable pub has_key : String → Event → Bool
has_key key e = elim e.key [ made type uuid ↦ false | execution k ↦ str_eq k key ]

abbrev pub is_empty : Evidence → Bool
is_empty [] = true
is_empty _ = false

-- `!dto.note?.trim()`
abbrev pub lacks_note : Option String → Bool
lacks_note none = true
lacks_note (some n) = is_blank n

abbrev pub trimmed : Option String → Option String
trimmed none = none
trimmed (some n) = some (trim n)

-- What `recordExecution` demands of the proof of an outcome.
unfoldable pub lacks_proof : ExecutionDto → Bool
lacks_proof dto = if dto.succeeds then is_empty dto.evidence else lacks_note dto.note

-- `audit.findFirst`: whether the organization has an audit with this id, of this site if one is
-- given.
pub record Audits : Type 0 where
  pub has_audit : ℕ → Option ℕ → Bool

unfoldable pub lacks_audit : Audits → Item → ExecutionDto → Bool
lacks_audit audits item dto = elim dto.verification_audit_id [
  | none ↦ false
  | some id ↦ not (audits.has_audit id item.website_id)
]

abbrev pub execution_event : ℕ → ExecutionDto → Event
execution_event user dto = record {
  user = user;
  event_type = if dto.succeeds then execution_succeeded else execution_failed;
  key = execution (trim dto.idempotency_key);
  reason = none;
  payload = some (record {
    evidence = dto.evidence;
    note = trimmed dto.note;
    verification_audit_id = dto.verification_audit_id;
  });
}

-- The transaction of `recordExecution`.
unfoldable pub recorded : ℕ → ExecutionDto → State → State
recorded user dto s = record s {
  item = record s.item {
    status = if dto.succeeds then done else blocked;
    execution_status = if dto.succeeds then succeeded else failed;
    evidence = some dto.evidence;
    verification_audit_id = dto.verification_audit_id;
    attempt_count = s.item.attempt_count + 1;
  };
  events = execution_event user dto ∷ s.events;
}

unfoldable pub record_execution : Audits → ℕ → ExecutionDto → State → Outcome
unfolding recorded lacks_proof lacks_audit has_key
record_execution audits user dto s =
    if is_approved s.item.approval_status
    then elim (find (has_key (trim dto.idempotency_key)) s.events) [
      | some e ↦ ok false (some e) s
      | none ↦
          if is_succeeded s.item.execution_status
          then err bad_request
          else if lacks_proof dto
          then err bad_request
          else if lacks_audit audits s.item dto
          then err not_found
          else ok true (some (execution_event user dto)) (recorded user dto s)
    ]
    else err bad_request
