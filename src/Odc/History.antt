-- ===== src/Odc/History.antt =====
-- The state machine of an application (docs/RC29_ODC_CANDIDATURES.md): its history is a path of
-- permitted transitions from the draft to its status.
use robia_back.Prelude.{
  ℕ, ◌≡◌, ◌⊎◌, inl, inr, refl, String, true, false, none, some, List, [], ◌∷◌, arith, is_blank,
  Bool-cases, Option-cases, map, subst,
}
use robia_back.Storage.Texts.{Text}
use robia_back.Odc.Lifecycle
use robia_back.Odc.Dossier
use robia_back.Odc.Scoring
use robia_back.Odc.Lifecycle.{to_screening, to_submitted}
use robia_back.Odc.Completeness.{Answers, check_completeness}
use robia_back.Odc.Application.{
  Status, draft, screening, incomplete, in_review, waitlisted, accepted, rejected, Decision, accept,
  reject, waitlist, decided_status, is_terminal, is_decidable, is_draft, is_incomplete, Application,
  EventType, screening_started, screening_passed, screening_failed, decided, HistoryEvent, State,
  Outcome, ok, ScoreLine, to_document,
}

-- The operations, those of a controller and those of the actions of an automation.
pub data Operation : Type 0 where
  update_answers : Answers → Operation
  add_document : ℕ → ℕ → String → String → ℕ → Operation
  add_uploaded_document : ℕ → ℕ → String → String → ℕ → Text → Operation
  submit : ℕ → Operation
  recompute_missing_documents : Operation
  propose_summary : String → Operation
  prepare_application_summary : Operation
  write_scores : List (ℕ × (ScoreLine → ScoreLine)) → Operation
  decide : ℕ → Decision → String → Operation
  withdraw : ℕ → String → Operation

unfoldable pub perform : Operation → State → Outcome
perform (Operation.update_answers a) s = Dossier.update_answers a s
perform (Operation.add_document i t n m z) s = Dossier.add_document i t n m z s
perform (Operation.add_uploaded_document i t n m z k) s =
    Dossier.add_uploaded_document i t n m z k s
perform (Operation.submit u) s = Lifecycle.submit u s
perform Operation.recompute_missing_documents s = Lifecycle.recompute_missing_documents s
perform (Operation.propose_summary x) s = Scoring.propose_summary x s
perform Operation.prepare_application_summary s = Scoring.prepare_application_summary s
perform (Operation.write_scores l) s = Scoring.write_scores l s
perform (Operation.decide u d r) s = Lifecycle.decide u d r s
perform (Operation.withdraw u r) s = Lifecycle.withdraw u r s

-- The transitions that an event of each kind may record.
abbrev pub Permits : EventType → Status → Status → Type 0
Permits EventType.submitted draft Status.submitted = Unit
Permits screening_started Status.submitted screening = Unit
Permits screening_passed screening in_review = Unit
Permits screening_passed incomplete in_review = Unit
Permits screening_failed screening incomplete = Unit
Permits screening_failed incomplete incomplete = Unit
Permits decided in_review accepted = Unit
Permits decided in_review rejected = Unit
Permits decided in_review waitlisted = Unit
Permits decided waitlisted accepted = Unit
Permits decided waitlisted rejected = Unit
Permits decided waitlisted waitlisted = Unit
Permits EventType.withdrawn from Status.withdrawn = is_terminal from ≡ false
Permits _ _ _ = ⊥

-- A decision has a user as its actor and a reason that is not blank.
abbrev pub Signed : HistoryEvent → Type 0
Signed e =
    e.event_type ≡ decided
    → (u : ℕ) × (r : String) × (e.actor ≡ some u) × (e.reason ≡ some r) × (is_blank r ≡ false)

-- The history, the latest event first, leads from the draft to the status.
abbrev pub Leads : List HistoryEvent → Status → Type 0
Leads [] status = status ≡ draft
Leads (e ∷ history) status =
    (status ≡ e.to_status)
    × Permits e.event_type e.from_status e.to_status
    × Signed e
    × Leads history e.from_status

abbrev pub IsConsistent : State → Type 0
IsConsistent s = Leads s.history s.application.status

pub ok-injective : {s t : State} → ok s ≡ ok t → s ≡ t
ok-injective e = cc

-- An outcome that is no error is its state.
returned-IsConsistent : {s t : State} → ok s ≡ ok t → IsConsistent s → IsConsistent t
returned-IsConsistent e h = subst IsConsistent (ok-injective e) h

passed_permitted :
    (from : Status)
    → (from ≡ screening) ⊎ (from ≡ incomplete)
    → Permits screening_passed from in_review
passed_permitted from (inl e) = rw e tt
passed_permitted from (inr e) = rw e tt

failed_permitted :
    (from : Status)
    → (from ≡ screening) ⊎ (from ≡ incomplete)
    → Permits screening_failed from incomplete
failed_permitted from (inl e) = rw e tt
failed_permitted from (inr e) = rw e tt

run_screening-IsConsistent :
    (from : Status) (s : State)
    → (from ≡ screening) ⊎ (from ≡ incomplete)
    → s.application.status ≡ from
    → IsConsistent s
    → IsConsistent (Lifecycle.run_screening from s)
unfolding Lifecycle.run_screening
run_screening-IsConsistent from s f e h =
    let result =
      check_completeness s.program.fields s.program.doc_types s.application.answers
        (map to_document s.documents) in
    elim (Bool-cases result.complete) [
      | inl c ↦
          rw (c, Lifecycle.run_screening)
            (refl, passed_permitted from f, (λ k. cc), subst (Leads s.history) e h)
      | inr c ↦
          rw (c, Lifecycle.run_screening)
            (refl, failed_permitted from f, (λ k. cc), subst (Leads s.history) e h)
    ]

is_draft_lem : (st : Status) → is_draft st ≡ true → st ≡ draft
is_draft_lem st h = ground arith

submitted-IsConsistent :
    (user : ℕ) (s : State)
    → s.application.status ≡ draft
    → IsConsistent s
    → IsConsistent (to_screening (to_submitted user s))
submitted-IsConsistent user s e h =
    (refl, tt, (λ k. cc), (refl, tt, (λ k. cc), subst (Leads s.history) e h))

pub submit-IsConsistent :
    (user : ℕ) (s t : State) → Lifecycle.submit user s ≡ ok t → IsConsistent s → IsConsistent t
unfolding Lifecycle.submit
submit-IsConsistent user s t e h = elim (Bool-cases (is_draft s.application.status)) [
  | inl d ↦ returned-IsConsistent (rw d at e) (
      run_screening-IsConsistent screening _ (inl refl) refl
        (submitted-IsConsistent user s (is_draft_lem _ d) h))
  | inr d ↦ cc (rw d at e)
]

pub recompute-IsConsistent :
    (s t : State) → Lifecycle.recompute_missing_documents s ≡ ok t → IsConsistent s → IsConsistent t
unfolding Lifecycle.recompute_missing_documents
recompute-IsConsistent s t e h = elim (Bool-cases (is_incomplete s.application.status)) [
  | inl d ↦
      returned-IsConsistent (rw d at e)
        (run_screening-IsConsistent incomplete s (inr refl) (ground arith) h)
  | inr d ↦ returned-IsConsistent (rw d at e) h
]

decided_permitted :
    (from : Status) (d : Decision)
    → is_decidable from ≡ true
    → Permits decided from (decided_status d)
decided_permitted in_review accept h = tt
decided_permitted in_review reject h = tt
decided_permitted in_review waitlist h = tt
decided_permitted waitlisted accept h = tt
decided_permitted waitlisted reject h = tt
decided_permitted waitlisted waitlist h = tt
decided_permitted _ _ h = cc

decide_guard_lem :
    (reason : String) (a : Application)
    → Lifecycle.decide_guard reason a ≡ none
    → (is_decidable a.status ≡ true) × (is_blank reason ≡ false)
unfolding Lifecycle.decide_guard
decide_guard_lem reason a h = ground arith

pub decide-IsConsistent :
    (user : ℕ) (d : Decision) (reason : String) (s t : State)
    → Lifecycle.decide user d reason s ≡ ok t
    → IsConsistent s
    → IsConsistent t
unfolding Lifecycle.decide
decide-IsConsistent user d reason s t e h =
    elim (Option-cases (Lifecycle.decide_guard reason s.application)) [
      | inl g ↦
          let (p, q) = decide_guard_lem reason s.application g in
          returned-IsConsistent (rw (g, Lifecycle.decide) at e) (
            refl,
            decided_permitted s.application.status d p,
            (λ _. (user, reason, refl, refl, q)),
            h,
          )
      | inr (x, g) ↦ cc (rw (g, Lifecycle.decide) at e)
    ]

withdraw_guard_lem :
    (a : Application) → Lifecycle.withdraw_guard a ≡ none → is_terminal a.status ≡ false
unfolding Lifecycle.withdraw_guard
withdraw_guard_lem a h = ground arith

pub withdraw-IsConsistent :
    (user : ℕ) (reason : String) (s t : State)
    → Lifecycle.withdraw user reason s ≡ ok t
    → IsConsistent s
    → IsConsistent t
unfolding Lifecycle.withdraw
withdraw-IsConsistent user reason s t e h =
    elim (Option-cases (Lifecycle.withdraw_guard s.application)) [
      | inl g ↦
          returned-IsConsistent (rw (g, Lifecycle.withdraw) at e)
            (refl, withdraw_guard_lem s.application g, (λ k. cc), h)
      | inr (x, g) ↦ cc (rw (g, Lifecycle.withdraw) at e)
    ]
