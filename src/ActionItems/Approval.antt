-- ===== src/ActionItems/Approval.antt =====
-- What the approval guards in src/action-items/action-execution.service.ts, for requests that run
-- one after the other.
use robia_back.Prelude.{
  some, ℕ, ◌+◌, ◌≡◌, ◌⊎◌, inl, inr, refl, sym, ap, subst, String, true, false, List, [], ◌∷◌, arith,
  find, Bool-cases, Option-cases, trim,
}
use robia_back.ActionItems.Execution.{
  ApprovalStatus, draft, pending, approved, rejected, ExecutionStatus, not_started, ready,
  succeeded, failed, Item, EventType, was_submitted, was_approved, was_rejected, bad_request,
  not_found, execution_succeeded, execution_failed, Event, State, Outcome, ok, err, Error,
  ExecutionDto, Audits, submit, approve, reject, record_execution, is_approved, is_pending,
  is_succeeded, lacks_proof, lacks_audit, has_key, recorded, decided, execution_event,
}

-- Where an action stands: its two statuses and the number of recorded executions.
pub record Standing : Type 0 where
  pub approval : ApprovalStatus
  pub execution : ExecutionStatus
  pub attempts : ℕ

abbrev pub standing : Item → Standing
standing i = record {
  approval = i.approval_status;
  execution = i.execution_status;
  attempts = i.attempt_count;
}

-- The events that the guards permit in a standing, and the standing that each leads to.
abbrev pub Permitted : EventType → Standing → Type 0
Permitted was_submitted n = (n.approval ≡ draft) ⊎ (n.approval ≡ rejected)
Permitted was_approved n = n.approval ≡ pending
Permitted was_rejected n = n.approval ≡ pending
Permitted _ n = (n.approval ≡ approved) × (is_succeeded n.execution ≡ false)

abbrev pub moved : EventType → Standing → Standing
moved was_submitted n = record {
  approval = pending;
  execution = not_started;
  attempts = n.attempts;
}
moved was_approved n = record { approval = approved; execution = ready; attempts = n.attempts }
moved was_rejected n = record {
  approval = rejected;
  execution = not_started;
  attempts = n.attempts;
}
moved execution_succeeded n = record n { execution = succeeded; attempts = n.attempts + 1 }
moved execution_failed n = record n { execution = failed; attempts = n.attempts + 1 }

-- The events, the latest first, lead by permitted steps from a new action to the standing.
pub data Explains : List Event → Standing → Type 0 where
  nothing : Explains [] (record { approval = draft; execution = not_started; attempts = 0 })
  then_event :
      {es : List Event} {n : Standing}
      → Explains es n
      → (e : Event) → Permitted e.event_type n
      → Explains (e ∷ es) (moved e.event_type n)

abbrev pub IsExplained : State → Type 0
IsExplained s = Explains s.events (standing s.item)

pub data Operation : Type 0 where
  submission : ℕ → Operation
  approval : ℕ → Operation
  rejection : ℕ → String → Operation
  execution : ℕ → ExecutionDto → Operation

unfoldable pub perform : Audits → Operation → State → Outcome
perform audits (submission user) s = submit user s
perform audits (approval user) s = approve user s
perform audits (rejection user reason) s = reject user reason s
perform audits (execution user dto) s = record_execution audits user dto s

-- A refused operation has written nothing.
unfoldable pub after : State → Outcome → State
after s (ok _ _ t) = t
after s (err _) = s

unfoldable pub perform_all : Audits → List Operation → State → State
unfolding after
perform_all audits [] s = s
perform_all audits (op ∷ ops) s = perform_all audits ops (after s (perform audits op s))

approval_cases :
    (a : ApprovalStatus) → (a ≡ draft) ⊎ (a ≡ pending) ⊎ (a ≡ approved) ⊎ (a ≡ rejected)
approval_cases draft = inl refl
approval_cases pending = inr (inl refl)
approval_cases approved = inr (inr (inl refl))
approval_cases rejected = inr (inr (inr refl))

submit-IsExplained : (user : ℕ) (s : State) → IsExplained s → IsExplained (after s (submit user s))
unfolding submit decided after
submit-IsExplained user s h = elim (approval_cases s.item.approval_status) [
  | inl e ↦ rw (e, submit, decided, after) (then_event h _ (inl e))
  | inr (inl e) ↦ rw (e, submit, after) h
  | inr (inr (inl e)) ↦ rw (e, submit, after) h
  | inr (inr (inr e)) ↦ rw (e, submit, decided, after) (then_event h _ (inr e))
]

approve-IsExplained :
    (user : ℕ) (s : State) → IsExplained s → IsExplained (after s (approve user s))
unfolding approve decided after
approve-IsExplained user s h = elim (approval_cases s.item.approval_status) [
  | inl e ↦ rw (e, approve, after) h
  | inr (inl e) ↦ rw (e, approve, decided, after) (then_event h _ e)
  | inr (inr (inl e)) ↦ rw (e, approve, after) h
  | inr (inr (inr e)) ↦ rw (e, approve, after) h
]

is_pending_lem : (a : ApprovalStatus) → is_pending a ≡ true → a ≡ pending
is_pending_lem a h = ground arith

is_approved_lem : (a : ApprovalStatus) → is_approved a ≡ true → a ≡ approved
is_approved_lem a h = ground arith

reject-IsExplained :
    (user : ℕ) (reason : String) (s : State)
    → IsExplained s
    → IsExplained (after s (reject user reason s))
unfolding reject decided after
reject-IsExplained user reason s h = elim (Bool-cases (is_pending s.item.approval_status)) [
  | inl e ↦ rw (e, reject, decided, after) (then_event h _ (is_pending_lem _ e))
  | inr e ↦ rw (e, reject, after) h
]

recorded-IsExplained :
    (user : ℕ) (dto : ExecutionDto) (s : State)
    → is_approved s.item.approval_status ≡ true
    → is_succeeded s.item.execution_status ≡ false
    → IsExplained s
    → IsExplained (recorded user dto s)
unfolding recorded
recorded-IsExplained user dto s a x h = elim (Bool-cases dto.succeeds) [
  | inl e ↦ rw (e, recorded) (then_event h _ (is_approved_lem _ a, x))
  | inr e ↦ rw (e, recorded) (then_event h _ (is_approved_lem _ a, x))
]

-- The ways in which `recordExecution` ends.
pub record_cases :
    (audits : Audits) (user : ℕ) (dto : ExecutionDto) (s : State)
    → ((x : Error) × (record_execution audits user dto s ≡ err x))
      ⊎ ((e : Event) × (record_execution audits user dto s ≡ ok false (some e) s))
      ⊎ ((is_approved s.item.approval_status ≡ true)
          × (is_succeeded s.item.execution_status ≡ false)
          × (record_execution audits user dto s
              ≡ ok true (some (execution_event user dto)) (recorded user dto s)))
unfolding record_execution
record_cases audits user dto s = elim (Bool-cases (is_approved s.item.approval_status)) [
  | inr a ↦ inl (bad_request, rw (a, record_execution) refl)
  | inl a ↦ elim (Option-cases (find (has_key (trim dto.idempotency_key)) s.events)) [
    | inr (e, f) ↦ inr (inl (e, rw (a, f, record_execution) refl))
    | inl f ↦ elim (Bool-cases (is_succeeded s.item.execution_status)) [
      | inl x ↦ inl (bad_request, rw (a, f, x, record_execution) refl)
      | inr x ↦ elim (Bool-cases (lacks_proof dto)) [
        | inl p ↦ inl (bad_request, rw (a, f, x, p, record_execution) refl)
        | inr p ↦ elim (Bool-cases (lacks_audit audits s.item dto)) [
          | inl q ↦ inl (not_found, rw (a, f, x, p, q, record_execution) refl)
          | inr q ↦ inr (inr (a, x, rw (a, f, x, p, q, record_execution) refl))
        ]
      ]
    ]
  ]
]

perform-IsExplained :
    (audits : Audits) (op : Operation) (s : State)
    → IsExplained s
    → IsExplained (after s (perform audits op s))
unfolding perform after
perform-IsExplained audits (submission user) s h = submit-IsExplained user s h
perform-IsExplained audits (approval user) s h = approve-IsExplained user s h
perform-IsExplained audits (rejection user reason) s h = reject-IsExplained user reason s h
perform-IsExplained audits (execution user dto) s h = elim (record_cases audits user dto s) [
  | inl (x, e) ↦ subst IsExplained (sym (ap (after s) e)) h
  | inr (inl (_, e)) ↦ subst IsExplained (sym (ap (after s) e)) h
  | inr (inr (a, x, e)) ↦
      subst IsExplained (sym (ap (after s) e)) (recorded-IsExplained user dto s a x h)
]

-- Whatever is asked of an action, one request after the other, its events go on to explain it: each was permitted where it was
-- recorded, so that every execution follows an approval that no submission has reopened and no
-- execution succeeds twice, and together they give its approval and execution status and the
-- number of its attempts.
pub perform_all-IsExplained :
    (audits : Audits) (ops : List Operation) (s : State)
    → IsExplained s
    → IsExplained (perform_all audits ops s)
unfolding perform_all
perform_all-IsExplained audits [] s h = h
perform_all-IsExplained audits (op ∷ ops) s h =
    perform_all-IsExplained audits ops _ (perform-IsExplained audits op s h)

succeeded_stays :
    (audits : Audits) (op : Operation) (s : State)
    → s.item.approval_status ≡ approved
    → s.item.execution_status ≡ succeeded
    → after s (perform audits op s) ≡ s
unfolding perform after submit approve reject
succeeded_stays audits (submission user) s a x = simp (a, submit, after)
succeeded_stays audits (approval user) s a x = simp (a, approve, after)
succeeded_stays audits (rejection user reason) s a x = simp (a, reject, after)
succeeded_stays audits (execution user dto) s a x = elim (record_cases audits user dto s) [
  | inl (y, e) ↦ ap (after s) e
  | inr (inl (_, e)) ↦ ap (after s) e
  | inr (inr (_, y, _)) ↦ absurd (ground arith)
]

-- Once an approved action has been executed with success, no operation changes it or its events.
perform_all_succeeded :
    (audits : Audits) (ops : List Operation) (s : State)
    → s.item.approval_status ≡ approved
    → s.item.execution_status ≡ succeeded
    → perform_all audits ops s ≡ s
unfolding perform_all
perform_all_succeeded audits [] s a x = refl
perform_all_succeeded audits (op ∷ ops) s a x =
    rw (succeeded_stays audits op s a x) (perform_all_succeeded audits ops s a x)
