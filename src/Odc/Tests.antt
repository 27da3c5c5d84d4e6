-- ===== src/Odc/Tests.antt =====
-- Runs of src/odc on one program and one application.
use robia_back.Prelude.{◌≡◌, ◌↔◌, ◌⊎◌, refl, true, none, some, List, [], ◌∷◌, All}
use robia_back.Storage.Texts.{codes}
use robia_back.Odc.Lifecycle
use robia_back.Odc.Dossier
use robia_back.Odc.Completeness.{
  FieldSpec, DocumentType, text, Criterion, LinePoints, compute_weighted_total, check_completeness,
}
use robia_back.Odc.Screening.{
  Satisfied, Supplied, check_completeness_iff, Scored, weighted_sum, compute_weighted_total_lem,
}
use robia_back.Odc.Application.{
  Status, draft, incomplete, in_review, accepted, accept, Application, Program, State, ok,
  application_submitted, ready_for_review, application_incomplete,
}
use robia_back.Odc.History.{Operation, IsConsistent}
use robia_back.Odc.Path.{perform_all, perform_all-IsConsistent}
use robia_back.Odc.Submission.{IsComplete, screening_result, submit_lem}

abbrev name_field : FieldSpec
name_field = record { key = "name"; required = true }

abbrev statutes : DocumentType
statutes = record { id = 4; key = "statutes"; required = true }

abbrev impact : Criterion
impact = record { id = 7; weight = 3; required = true }

abbrev program : Program
program = record { fields = name_field ∷ []; criteria = impact ∷ []; doc_types = statutes ∷ [] }

abbrev empty_application : Application
empty_application = record {
  status = draft;
  answers = [];
  missing = none;
  submitted_at = none;
  summary_draft = none;
  proposed_total = none;
  final_total = none;
  decided_at = none;
  decided_by = none;
  decision_reason = none;
}

abbrev new_draft : State
new_draft = record {
  application = empty_application;
  program = program;
  documents = [];
  score_lines = [];
  history = [];
  emitted = [];
  clock = 100;
}

abbrev to_decision : List Operation
to_decision =
    Operation.update_answers (("name", text "Ada") ∷ [])
    ∷ Operation.add_uploaded_document 1 4 "s.pdf" "application/pdf" 10 (codes "k")
    ∷ Operation.submit 9
    ∷ Operation.decide 5 accept "sound"
    ∷ []

check_completeness_iff_example :
    ((check_completeness program.fields program.doc_types [] []).complete ≡ true)
    ↔ (All (Satisfied []) program.fields × All (Supplied []) program.doc_types)
check_completeness_iff_example = check_completeness_iff program.fields program.doc_types [] []

abbrev lines : List LinePoints
lines = record { criterion_id = 7; points = some 2 } ∷ []

compute_weighted_total_lem_example :
    (All (Scored lines) program.criteria
      → compute_weighted_total program.criteria lines ≡ some (weighted_sum program.criteria lines))
    × ((¬ All (Scored lines) program.criteria)
        → compute_weighted_total program.criteria lines ≡ none)
compute_weighted_total_lem_example = compute_weighted_total_lem program.criteria lines

perform_all-IsConsistent_example : IsConsistent (perform_all to_decision new_draft)
perform_all-IsConsistent_example = perform_all-IsConsistent to_decision new_draft refl

abbrev accepted_state : State
accepted_state = record new_draft { application = record empty_application { status = accepted } }

abbrev after_submit : State
after_submit =
    Lifecycle.run_screening Status.screening
      (Lifecycle.to_screening (Lifecycle.to_submitted 9 new_draft))

submitted : Lifecycle.submit 9 new_draft ≡ ok after_submit
unfolding Lifecycle.submit
submitted = refl

submit_lem_example :
    (IsComplete new_draft
      × (after_submit.application.status ≡ in_review)
      × (after_submit.application.missing ≡ none)
      × (after_submit.emitted ≡ ready_for_review ∷ application_submitted ∷ []))
    ⊎ ((¬ IsComplete new_draft)
        × (after_submit.application.status ≡ incomplete)
        × (after_submit.application.missing ≡ some (screening_result new_draft).missing)
        × (after_submit.emitted
            ≡ application_incomplete (screening_result new_draft).missing
              ∷ application_submitted
              ∷ []))
submit_lem_example = submit_lem 9 new_draft after_submit submitted

abbrev reviewed : State
reviewed = record new_draft { application = record empty_application { status = in_review } }

-- A withdrawal whose guard was passed before a decision was written.
overwritten :
    (Lifecycle.withdraw_write 9 "late" in_review
      (Lifecycle.decide_write 5 accept "sound" in_review reviewed)).application.status
    ≡ Status.withdrawn
unfolding Lifecycle.withdraw_write
overwritten = refl
