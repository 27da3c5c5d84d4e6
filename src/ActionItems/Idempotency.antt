-- ===== src/ActionItems/Idempotency.antt =====
-- The idempotency key of `recordExecution` in src/action-items/action-execution.service.ts.
use robia_back.Prelude.{
  ℕ, ◌≡◌, inl, inr, refl, sym, ap, ◌∙◌, subst, Option, some, ◌∷◌, true, false, String, arith, trim,
  str_eq, eq_iff,
}
use robia_back.ActionItems.Approval.{record_cases}
use robia_back.ActionItems.Execution.{
  State, Event, execution_event, ok, ExecutionDto, Audits, record_execution, has_key, recorded,
}

same : (s : String) → str_eq s s ≡ true
same s = ground (arith, eq_iff s s)

recorded_eq : {u t : State} {e e' : Option Event} → ok true e u ≡ ok true e' t → (u ≡ t) × (e ≡ e')
recorded_eq e = ground (arith, e)

-- A call that records an execution adds one event, the latest, and returns it. A second call after
-- it with the same key after trimming, whatever else it says, writes nothing and returns the same
-- event.
pub record_execution-twice :
    (audits : Audits) (user other : ℕ) (dto dto' : ExecutionDto) (s t : State) (e : Option Event)
    → record_execution audits user dto s ≡ ok true e t
    → trim dto'.idempotency_key ≡ trim dto.idempotency_key
    → (t.events ≡ execution_event user dto ∷ s.events)
      × (e ≡ some (execution_event user dto))
      × (record_execution audits other dto' t ≡ ok false e t)
unfolding record_execution recorded has_key
record_execution-twice audits user other dto dto' s t e h k =
    elim (record_cases audits user dto s) [
      | inl (x, r) ↦ absurd (ground (arith, h, r))
      | inr (inl (x, r)) ↦ absurd (ground (arith, h, r))
      | inr (inr (a, _, r)) ↦
          let (rows, event) = recorded_eq (sym r ∙ h) in
          let again : record_execution audits other dto' (recorded user dto s)
              ≡ ok false (some (execution_event user dto)) (recorded user dto s) =
            rw (a, k, same (trim dto.idempotency_key), record_execution) refl in
          (
            ap (λ (u : State). u.events) (sym rows),
            sym event,
            subst (λ u. record_execution audits other dto' u ≡ ok false e u) rows
                (subst
                  (λ x.
                    record_execution audits other dto' (recorded user dto s)
                    ≡ ok false x (recorded user dto s))
                  event again),
          )
    ]
