-- ===== src/Odc/Submission.antt =====
-- What `submit` of src/odc/odc-applications.service.ts leaves behind.
use robia_back.Prelude.{ℕ, ◌≡◌, ◌⊎◌, ap, sym, inl, inr, none, some, ◌∷◌, All, Bool-cases, map}
use robia_back.Odc.Lifecycle
use robia_back.Odc.History.{ok-injective}
use robia_back.Odc.Completeness.{check_completeness, Completeness}
use robia_back.Odc.Screening.{Satisfied, Supplied, check_completeness_iff}
use robia_back.Odc.Application.{
  incomplete, in_review, is_draft, application_submitted, ready_for_review, application_incomplete,
  State, ok, to_document,
}

abbrev pub screening_result : State → Completeness
screening_result s =
    check_completeness s.program.fields s.program.doc_types s.application.answers
      (map to_document s.documents)

abbrev pub IsComplete : State → Type 0
IsComplete s =
    All (Satisfied s.application.answers) s.program.fields
    × All (Supplied (map to_document s.documents)) s.program.doc_types

-- A draft that is submitted is in review, with nothing missing and an event that says so, if all
-- that its program requires is there, where a required field without a stored answer passes as
-- answered if its key is a name that every object inherits; otherwise it is incomplete, and its row
-- and its event carry the same list of what is missing.
pub submit_lem :
    (user : ℕ) (s t : State)
    → Lifecycle.submit user s ≡ ok t
    → (IsComplete s
        × (t.application.status ≡ in_review)
        × (t.application.missing ≡ none)
        × (t.emitted ≡ ready_for_review ∷ application_submitted ∷ s.emitted))
      ⊎ ((¬ IsComplete s)
          × (t.application.status ≡ incomplete)
          × (t.application.missing ≡ some (screening_result s).missing)
          × (t.emitted
              ≡ application_incomplete (screening_result s).missing
                ∷ application_submitted
                ∷ s.emitted))
unfolding Lifecycle.submit Lifecycle.run_screening
submit_lem user s t e =
    let iff =
      check_completeness_iff s.program.fields s.program.doc_types s.application.answers
        (map to_document s.documents) in
    elim (Bool-cases (is_draft s.application.status)) [
      | inr d ↦ cc (rw d at e)
      | inl d ↦ elim (Bool-cases (screening_result s).complete) [
        | inl c ↦
            let e' = rw (d, c, Lifecycle.run_screening) at e in
            inl (
              iff.0 c,
              ap (λ u. u.application.status) (sym (ok-injective e')),
              ap (λ u. u.application.missing) (sym (ok-injective e')),
              ap (λ u. u.emitted) (sym (ok-injective e')),
            )
        | inr c ↦
            let e' = rw (d, c, Lifecycle.run_screening) at e in
            inr (
              (λ h. let k = iff.1 h in cc),
              ap (λ u. u.application.status) (sym (ok-injective e')),
              ap (λ u. u.application.missing) (sym (ok-injective e')),
              ap (λ u. u.emitted) (sym (ok-injective e')),
            )
      ]
    ]
