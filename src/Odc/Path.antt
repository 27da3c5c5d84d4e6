-- ===== src/Odc/Path.antt =====
-- Every path of operations of src/odc/odc-applications.service.ts keeps the history of an
-- application and its status together, and a terminal status is final.
use robia_back.Prelude.{
  ℕ, ◌≡◌, ◌⊎◌, inl, inr, refl, String, true, false, some, List, [], ◌∷◌, ◌||◌, ◌==◌, sym, arith,
  is_blank, Bool-cases, Option-cases, any, every, subst,
}
use robia_back.Storage.Texts.{Text}
use robia_back.Odc.Lifecycle
use robia_back.Odc.Dossier
use robia_back.Odc.Scoring
use robia_back.Odc.Dossier.{addable}
use robia_back.Odc.Lifecycle.{decide_guard, withdraw_guard}
use robia_back.Odc.Completeness.{Answers}
use robia_back.Odc.Application.{
  Status, is_terminal, is_decidable, is_draft, is_incomplete, is_in_review, decided, HistoryEvent,
  State, Outcome, ok, err, Error, ScoreLine,
}
use robia_back.Odc.History.{
  Operation, perform, Leads, IsConsistent, ok-injective, submit-IsConsistent,
  recompute-IsConsistent, decide-IsConsistent, withdraw-IsConsistent,
}

-- The outcomes that leave the status and the history of a state as they are.
abbrev Quiet : State → Outcome → Type 0
Quiet s (err _) = Unit
Quiet s (ok t) = (t.history ≡ s.history) × (t.application.status ≡ s.application.status)

update_answers-Quiet : (answers : Answers) (s : State) → Quiet s (Dossier.update_answers answers s)
unfolding Dossier.update_answers
update_answers-Quiet answers s =
    elim (Bool-cases (is_draft s.application.status || is_incomplete s.application.status)) [
      | inl e ↦ rw (e, Dossier.update_answers) (refl, refl)
      | inr e ↦ rw (e, Dossier.update_answers) tt
    ]

add_document-Quiet :
    (id type_id : ℕ) (name mime : String) (size : ℕ) (s : State)
    → Quiet s (Dossier.add_document id type_id name mime size s)
unfolding Dossier.add_document
add_document-Quiet id type_id name mime size s = elim (Option-cases (Dossier.addable type_id s)) [
  | inr (x, g) ↦ rw (g, Dossier.add_document) tt
  | inl g ↦ elim (Bool-cases (any (Dossier.occupies type_id) s.documents)) [
    | inl e ↦ rw (g, e, Dossier.add_document) tt
    | inr e ↦ rw (g, e, Dossier.add_document) (refl, refl)
  ]
]

add_uploaded_document-Quiet :
    (id type_id : ℕ) (name mime : String) (size : ℕ) (key : Text) (s : State)
    → Quiet s (Dossier.add_uploaded_document id type_id name mime size key s)
unfolding Dossier.add_uploaded_document
add_uploaded_document-Quiet id type_id name mime size key s =
    elim (Option-cases (Dossier.addable type_id s)) [
      | inl g ↦ rw (g, Dossier.add_uploaded_document) (refl, refl)
      | inr (x, g) ↦ rw (g, Dossier.add_uploaded_document) tt
    ]

propose_summary-Quiet : (x : String) (s : State) → Quiet s (Scoring.propose_summary x s)
unfolding Scoring.propose_summary
propose_summary-Quiet x s = elim (Bool-cases (is_terminal s.application.status)) [
  | inl e ↦ rw (e, Scoring.propose_summary) tt
  | inr e ↦ rw (e, Scoring.propose_summary) (refl, refl)
]

prepare_application_summary-Quiet : (s : State) → Quiet s (Scoring.prepare_application_summary s)
unfolding Scoring.prepare_application_summary
prepare_application_summary-Quiet s = elim (Bool-cases (is_terminal s.application.status)) [
  | inl e ↦ rw (e, Scoring.prepare_application_summary) (refl, refl)
  | inr e ↦ rw (e, Scoring.prepare_application_summary) (refl, refl)
]

write_scores-Quiet :
    (scores : List (ℕ × (ScoreLine → ScoreLine))) (s : State)
    → Quiet s (Scoring.write_scores scores s)
unfolding Scoring.write_scores Scoring.recompute_totals
write_scores-Quiet scores s = elim (Bool-cases (is_terminal s.application.status)) [
  | inl e ↦ rw (e, Scoring.write_scores) tt
  | inr e ↦ elim (Bool-cases (every (λ l. any (λ c. c.id == l.0) s.program.criteria) scores)) [
    | inl f ↦ rw (e, f, Scoring.write_scores) (refl, refl)
    | inr f ↦ rw (e, f, Scoring.write_scores) tt
  ]
]

Quiet-IsConsistent :
    (s t : State) (o : Outcome) → Quiet s o → o ≡ ok t → IsConsistent s → IsConsistent t
Quiet-IsConsistent s t (err x) q e h = cc
Quiet-IsConsistent s t (ok u) q e h =
    subst (λ v. Leads v.history v.application.status) (ok-injective e)
      (subst (Leads u.history) (sym q.1) (subst (λ l. Leads l s.application.status) (sym q.0) h))

perform-IsConsistent :
    (op : Operation) (s t : State) → perform op s ≡ ok t → IsConsistent s → IsConsistent t
unfolding perform
perform-IsConsistent (Operation.update_answers a) s t =
    Quiet-IsConsistent s t _ (update_answers-Quiet a s)
perform-IsConsistent (Operation.add_document i y n m z) s t =
    Quiet-IsConsistent s t _ (add_document-Quiet i y n m z s)
perform-IsConsistent (Operation.add_uploaded_document i y n m z k) s t =
    Quiet-IsConsistent s t _ (add_uploaded_document-Quiet i y n m z k s)
perform-IsConsistent (Operation.submit u) s t = submit-IsConsistent u s t
perform-IsConsistent Operation.recompute_missing_documents s t = recompute-IsConsistent s t
perform-IsConsistent (Operation.propose_summary x) s t =
    Quiet-IsConsistent s t _ (propose_summary-Quiet x s)
perform-IsConsistent Operation.prepare_application_summary s t =
    Quiet-IsConsistent s t _ (prepare_application_summary-Quiet s)
perform-IsConsistent (Operation.write_scores l) s t =
    Quiet-IsConsistent s t _ (write_scores-Quiet l s)
perform-IsConsistent (Operation.decide u d r) s t = decide-IsConsistent u d r s t
perform-IsConsistent (Operation.withdraw u r) s t = withdraw-IsConsistent u r s t

-- An operation that is refused has written nothing.
unfoldable pub after : State → Outcome → State
after s (ok t) = t
after s (err _) = s

unfoldable pub perform_all : List Operation → State → State
unfolding after
perform_all [] s = s
perform_all (op ∷ ops) s = perform_all ops (after s (perform op s))

outcome_cases : (o : Outcome) → ((t : State) × (o ≡ ok t)) ⊎ ((x : Error) × (o ≡ err x))
outcome_cases (ok t) = inl (t, refl)
outcome_cases (err x) = inr (x, refl)

-- Whatever operations are performed on an application whose history leads from the draft to its
-- status by permitted transitions, its history still does so afterwards: each event starts at the
-- status that the event before it reached, its kind permits the transition, and every decision
-- names its user and a reason that is not blank.
pub perform_all-IsConsistent :
    (ops : List Operation) (s : State) → IsConsistent s → IsConsistent (perform_all ops s)
unfolding perform_all
perform_all-IsConsistent [] s h = h
perform_all-IsConsistent (op ∷ ops) s h = elim (outcome_cases (perform op s)) [
  | inl (t, e) ↦
      rw (e, perform_all) (perform_all-IsConsistent ops t (perform-IsConsistent op s t e h))
  | inr (x, e) ↦ rw (e, perform_all) (perform_all-IsConsistent ops s h)
]

-- `decided_status` of some decision is the status of the application only if the latest event is
-- a decision with its user and a reason.
abbrev pub Decided : List HistoryEvent → Type 0
Decided [] = ⊥
Decided (e ∷ _) =
    (e.event_type ≡ decided)
    × (u : ℕ) × (r : String) × (e.actor ≡ some u)
    × (e.reason ≡ some r)
    × (is_blank r ≡ false)

terminal_flags :
    (st : Status)
    → is_terminal st ≡ true
    → (is_draft st ≡ false)
      × (is_incomplete st ≡ false)
      × (is_in_review st ≡ false)
      × (is_decidable st ≡ false)
terminal_flags st h = ground arith

terminal_stays :
    (op : Operation) (s : State)
    → is_terminal s.application.status ≡ true
    → after s (perform op s) ≡ s
unfolding perform after Dossier.update_answers Dossier.add_document Dossier.add_uploaded_document
    Lifecycle.submit Lifecycle.recompute_missing_documents Scoring.propose_summary
    Scoring.prepare_application_summary Scoring.write_scores Lifecycle.decide Lifecycle.withdraw
    addable decide_guard withdraw_guard
terminal_stays (Operation.update_answers a) s h =
    let (d, i, r, _) = terminal_flags s.application.status h in
    rw (d, i, Dossier.update_answers) refl
terminal_stays (Operation.add_document i y n m z) s h =
    let (d, i, r, _) = terminal_flags s.application.status h in
    rw (d, i, r, addable, Dossier.add_document) refl
terminal_stays (Operation.add_uploaded_document i y n m z k) s h =
    let (d, i, r, _) = terminal_flags s.application.status h in
    rw (d, i, r, addable, Dossier.add_uploaded_document) refl
terminal_stays (Operation.submit u) s h =
    let (d, _, _, _) = terminal_flags s.application.status h in rw (d, Lifecycle.submit) refl
terminal_stays Operation.recompute_missing_documents s h =
    let (_, i, _, _) = terminal_flags s.application.status h in
    rw (i, Lifecycle.recompute_missing_documents) refl
terminal_stays (Operation.propose_summary x) s h = rw (h, Scoring.propose_summary) refl
terminal_stays Operation.prepare_application_summary s h =
    rw (h, Scoring.prepare_application_summary) refl
terminal_stays (Operation.write_scores l) s h = rw (h, Scoring.write_scores) refl
terminal_stays (Operation.decide u d r) s h =
    let (_, _, _, p) = terminal_flags s.application.status h in
    rw (p, decide_guard, Lifecycle.decide) refl
terminal_stays (Operation.withdraw u r) s h = rw (h, withdraw_guard, Lifecycle.withdraw) refl

-- Once an application is accepted, rejected or withdrawn, no operation changes anything: neither
-- the application nor its documents, scores, history or emitted events.
perform_all_terminal :
    (ops : List Operation) (s : State)
    → is_terminal s.application.status ≡ true
    → perform_all ops s ≡ s
unfolding perform_all
perform_all_terminal [] s h = refl
perform_all_terminal (op ∷ ops) s h = rw (terminal_stays op s h) (perform_all_terminal ops s h)
