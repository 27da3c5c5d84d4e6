-- ===== src/Odc/Application.antt =====
-- The rows of an application of src/odc/odc-applications.service.ts with what hangs on it: its
-- documents, score lines and history, its program, and the events emitted so far.
use robia_back.Prelude.{ℕ, String, Bool, true, false, Option, List}
use robia_back.Storage.Texts.{Text}
use robia_back.Odc.Completeness.{
  FieldSpec, DocumentType, Document, DocumentStatus, Answers, Criterion,
}

pub data Status : Type 0 where
  draft submitted screening incomplete in_review waitlisted : Status
  accepted rejected withdrawn : Status

pub data Decision : Type 0 where
  accept reject waitlist : Decision

abbrev pub decided_status : Decision → Status
decided_status accept = accepted
decided_status reject = rejected
decided_status waitlist = waitlisted

-- `TERMINAL_STATUSES` and `DECIDABLE_STATUSES`
abbrev pub is_terminal : Status → Bool
is_terminal accepted = true
is_terminal rejected = true
is_terminal withdrawn = true
is_terminal _ = false

abbrev pub is_decidable : Status → Bool
is_decidable in_review = true
is_decidable waitlisted = true
is_decidable _ = false

abbrev pub is_draft : Status → Bool
is_draft draft = true
is_draft _ = false

abbrev pub is_incomplete : Status → Bool
is_incomplete incomplete = true
is_incomplete _ = false

abbrev pub is_in_review : Status → Bool
is_in_review in_review = true
is_in_review _ = false

-- `summaryDraft`: a text that was proposed, or the prepared sentence with its four counts.
pub data Summary : Type 0 where
  proposed : String → Summary
  prepared : ℕ → ℕ → ℕ → ℕ → Summary

pub record Application : Type 0 where
  pub status : Status
  pub answers : Answers
  pub missing : Option (List String)
  pub submitted_at : Option ℕ
  pub summary_draft : Option Summary
  pub proposed_total : Option ℕ
  pub final_total : Option ℕ
  pub decided_at : Option ℕ
  pub decided_by : Option ℕ
  pub decision_reason : Option String

pub record Program : Type 0 where
  pub fields : List FieldSpec
  pub criteria : List Criterion
  pub doc_types : List DocumentType

pub record StoredDocument : Type 0 where
  pub id : ℕ
  pub document_type_id : ℕ
  pub original_name : String
  pub mime_type : String
  pub size_bytes : ℕ
  pub storage_key : Option Text
  pub status : DocumentStatus

pub record ScoreLine : Type 0 where
  pub criterion_id : ℕ
  pub proposed_points : Option ℕ
  pub proposed_by : Option String
  pub rationale : Option String
  pub final_points : Option ℕ

-- `OdcHistoryEvent`, with the kinds that `recordHistory` is given.
pub data EventType : Type 0 where
  submitted screening_started screening_passed screening_failed decided withdrawn : EventType

pub record HistoryEvent : Type 0 where
  pub actor : Option ℕ
  pub event_type : EventType
  pub from_status : Status
  pub to_status : Status
  pub reason : Option String

-- The events of src/odc/odc-events.ts.
pub data DomainEvent : Type 0 where
  application_submitted ready_for_review : DomainEvent
  application_incomplete : List String → DomainEvent
  application_decided : Decision → ℕ → DomainEvent
  document_received : ℕ → ℕ → DomainEvent

-- Lists that grow at their end are kept with the latest first.
pub record State : Type 0 where
  pub application : Application
  pub program : Program
  pub documents : List StoredDocument
  pub score_lines : List ScoreLine
  pub history : List HistoryEvent
  pub emitted : List DomainEvent
  pub clock : ℕ

pub data Error : Type 0 where
  not_found conflict bad_request : Error

pub data Outcome : Type 0 where
  ok : State → Outcome
  err : Error → Outcome

abbrev pub to_document : StoredDocument → Document
to_document d = record { document_type_id = d.document_type_id; status = d.status }
