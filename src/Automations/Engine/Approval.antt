-- ===== src/Automations/Engine/Approval.antt =====
-- `approveRun` and `rejectRun` of src/ops-automation/automations.service.ts.
use robia_back.Prelude.{ℕ, ◌==◌, ◌&&◌, String, Bool, true, false, Option, none, some, if◌then◌else◌}
use robia_back.Store.{Table}
use robia_back.Automations.Rows.{
  Run, RunStatus, StepRun, ApprovalStatus, is_waiting_approval, is_pending,
}
use robia_back.Automations.Engine.World.{
  Outside, M, ◌>>=◌, returned, raised, not_found, conflict, raise, new_date,
}
use robia_back.Automations.Engine.Run.{execute_steps}

-- The condition of both conditional updates.
unfoldable pub may_decide : ℕ → Run → Bool
may_decide organization_id r =
    r.organization_id == organization_id
    && is_waiting_approval r.status
    && is_pending r.approval_status

unfoldable pub approve : ℕ → Option String → ℕ → Run → Run
approve user reason now r = record r {
  approval_status = some ApprovalStatus.approved;
  approved_by = some user;
  approval_reason = reason;
  approved_at = some now;
  status = RunStatus.running;
  started_at = some now;
}

unfoldable pub reject : ℕ → Option String → ℕ → Run → Run
reject user reason now r = record r {
  approval_status = some ApprovalStatus.rejected;
  approved_by = some user;
  approval_reason = reason;
  approved_at = some now;
  status = RunStatus.cancelled;
  finished_at = some now;
}

module _ {S : Table StepRun} {R : Table Run} where
  -- `getRun`
  unfoldable pub get_run : ℕ → ℕ → M S R Run
  get_run organization_id i w = elim (R.find i w.runs) [
    | none ↦ (w, raised not_found)
    | some r ↦
        if r.organization_id == organization_id then (w, returned r) else (w, raised not_found)
  ]

  -- `automationRun.updateMany`, and whether a row matched
  unfoldable pub update_runs : ℕ → (Run → Bool) → (Run → Run) → M S R Bool
  update_runs i p f w =
      let (d, count) = R.update_many i p f w.runs in (record w { runs = d }, returned (count == 1))

  -- After the read: the claim, and what its winner does.
  unfoldable pub claim_approval : Outside S R → ℕ → ℕ → ℕ → Option String → M S R Run
  unfolding update_runs get_run
  claim_approval out organization_id user i reason = do
    now ← new_date
    won ← update_runs i (may_decide organization_id) (approve user reason now)
    elim won [
      | true ↦ do approved ← get_run organization_id i; execute_steps out i approved
      | false ↦ raise conflict
    ]

  unfoldable pub approve_run : Outside S R → ℕ → ℕ → ℕ → Option String → M S R Run
  unfolding claim_approval
  approve_run out organization_id user i reason = do
    run ← get_run organization_id i
    elim (is_waiting_approval run.status) [
      | true ↦ claim_approval out organization_id user i reason
      | false ↦ raise conflict
    ]

  unfoldable pub claim_rejection : ℕ → ℕ → ℕ → Option String → M S R Run
  unfolding update_runs get_run
  claim_rejection organization_id user i reason = do
    now ← new_date
    won ← update_runs i (may_decide organization_id) (reject user reason now)
    elim won [ true ↦ get_run organization_id i | false ↦ raise conflict ]

  unfoldable pub reject_run : ℕ → ℕ → ℕ → Option String → M S R Run
  unfolding claim_rejection
  reject_run organization_id user i reason = do
    run ← get_run organization_id i
    elim (is_waiting_approval run.status) [
      | true ↦ claim_rejection organization_id user i reason
      | false ↦ raise conflict
    ]
