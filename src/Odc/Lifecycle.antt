-- ===== src/Odc/Lifecycle.antt =====
-- The operations of src/odc/odc-applications.service.ts on an application that `getApplication`
-- has found in the caller's organization.
use robia_back.Prelude.{ℕ, String, Option, none, some, ◌∷◌, map, is_blank, if◌then◌else◌}
use robia_back.Odc.Completeness.{check_completeness}
use robia_back.Odc.Application.{
  Status, draft, screening, incomplete, in_review, Decision, decided_status, is_terminal,
  is_decidable, is_draft, is_incomplete, Application, EventType, screening_started,
  screening_passed, screening_failed, decided, HistoryEvent, DomainEvent, application_submitted,
  ready_for_review, application_incomplete, application_decided, State, Error, conflict,
  bad_request, Outcome, ok, err, to_document,
}

abbrev pub with_status : Status → State → State
with_status status s = record s { application = record s.application { status = status } }

-- `recordHistory`
abbrev pub record_history : HistoryEvent → State → State
record_history e s = record s { history = e ∷ s.history }

abbrev pub emit : DomainEvent → State → State
emit e s = record s { emitted = e ∷ s.emitted }

-- `runScreening`; `from` is the status that the application leaves.
unfoldable pub run_screening : Status → State → State
run_screening from s =
    let result =
      check_completeness s.program.fields s.program.doc_types s.application.answers
        (map to_document s.documents) in
    if result.complete
    then emit ready_for_review (
        record_history
          (record {
            actor = none;
            event_type = screening_passed;
            from_status = from;
            to_status = in_review;
            reason = none;
          })
          (record s { application = record s.application { status = in_review; missing = none } }))
    else emit (application_incomplete result.missing) (
        record_history
          (record {
            actor = none;
            event_type = screening_failed;
            from_status = from;
            to_status = incomplete;
            reason = none;
          })
          (record s {
            application = record s.application {
              status = incomplete;
              missing = some result.missing;
            };
          }))

-- The first two transitions of `submit`.
abbrev pub to_submitted : ℕ → State → State
to_submitted user s = emit application_submitted (
    record_history
      (record {
        actor = some user;
        event_type = EventType.submitted;
        from_status = draft;
        to_status = Status.submitted;
        reason = none;
      })
      (record s {
        application = record s.application {
          status = Status.submitted;
          submitted_at = some s.clock;
        };
      }))

abbrev pub to_screening : State → State
to_screening s =
    record_history
      (record {
        actor = none;
        event_type = screening_started;
        from_status = Status.submitted;
        to_status = screening;
        reason = none;
      })
      (with_status screening s)

unfoldable pub submit : ℕ → State → Outcome
submit user s =
    if is_draft s.application.status
    then ok (run_screening screening (to_screening (to_submitted user s)))
    else err bad_request

unfoldable pub recompute_missing_documents : State → Outcome
recompute_missing_documents s =
    if is_incomplete s.application.status then ok (run_screening incomplete s) else ok s

-- The guards of `decide`, on the row that it has read, and its writes.
unfoldable pub decide_guard : String → Application → Option Error
decide_guard reason a =
    if is_decidable a.status
    then (if is_blank reason then some bad_request else none)
    else some bad_request

unfoldable pub decide_write : ℕ → Decision → String → Status → State → State
decide_write user decision reason from s = emit (application_decided decision user) (
    record_history
      (record {
        actor = some user;
        event_type = decided;
        from_status = from;
        to_status = decided_status decision;
        reason = some reason;
      })
      (record s {
        application = record s.application {
          status = decided_status decision;
          decided_at = some s.clock;
          decided_by = some user;
          decision_reason = some reason;
        };
      }))

unfoldable pub decide : ℕ → Decision → String → State → Outcome
unfolding decide_guard decide_write
decide user decision reason s = elim (decide_guard reason s.application) [
  | some e ↦ err e
  | none ↦ ok (decide_write user decision reason s.application.status s)
]

unfoldable pub withdraw_guard : Application → Option Error
withdraw_guard a = if is_terminal a.status then some conflict else none

unfoldable pub withdraw_write : ℕ → String → Status → State → State
withdraw_write user reason from s =
    record_history
      (record {
        actor = some user;
        event_type = EventType.withdrawn;
        from_status = from;
        to_status = Status.withdrawn;
        reason = some reason;
      })
      (with_status Status.withdrawn s)

unfoldable pub withdraw : ℕ → String → State → Outcome
unfolding withdraw_guard withdraw_write
withdraw user reason s = elim (withdraw_guard s.application) [
  | some e ↦ err e
  | none ↦ ok (withdraw_write user reason s.application.status s)
]
