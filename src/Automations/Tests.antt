-- ===== src/Automations/Tests.antt =====
-- Runs of src/ops-automation/automations.service.ts on a table in memory and on one row.
use robia_back.Prelude.{ℕ, ◌≡◌, ◌≤◌, inl, refl, true, false, Option, none, some, [], ◌∷◌}
use robia_back.Store.Memory.{memory, set_row}
use robia_back.Automations.Rows.{StepRun, Run, RunStatus, TriggerKind, StoredStep, ApprovalStatus}
use robia_back.Automations.Policy.{max_step_attempts}
use robia_back.Automations.Claims.{success, holds_token, commit, first_attempt}
use robia_back.Automations.Actions.{is_retry_safe}
use robia_back.Automations.Interleavings.{
  System, Worker, after_call, called, committed, crashed, Reach, here, next, started,
}
use robia_back.Automations.Races.{executions_bounded, outcome_is_final}
use robia_back.Automations.Engine.World.{
  World, Outside, Result, returned, raised, conflict, evidence,
}
use robia_back.Automations.Engine.Retry.{retry_step}
use robia_back.Automations.Engine.Approval.{
  may_decide, reject, get_run, reject_run, claim_approval, claim_rejection,
}
use robia_back.Automations.Engine.Decisions.{rejected, reject_run_final}
use robia_back.Automations.Engine.Safety.{calls-retry_step_unsafe}

abbrev safe_step : StoredStep
safe_step = record { action_type = "robia.opportunities.regenerate"; input = none }

abbrev first : System
first = started 1 0 safe_step 1000 7

abbrev starter : Worker
starter = record { token = 7; count = 1; retries = false; has_called = false }

abbrev done : System
done = record (after_call starter first) {
  row = commit (success "ok" 1500) first.row;
  workers = [];
}

finished : Reach true first done
unfolding holds_token commit first_attempt
finished =
    next (next here (called starter (inl refl) refl))
      (committed (record starter { has_called = true }) (success "ok" 1500) (inl refl) refl)

executions_bounded_example :
    (done.executions ≤ max_step_attempts) × (true ≡ false → done.executions ≤ 1)
executions_bounded_example = executions_bounded true 1 0 safe_step 1000 7 done finished

outcome_is_final_example : done.row ≡ done.row
unfolding commit
outcome_is_final_example =
    outcome_is_final true 1 0 safe_step 1000 7 done done finished refl (next here (crashed 9))

abbrev lost : System
lost = record first { workers = [] }

abbrev unsafe_step : StoredStep
unsafe_step = record { action_type = "robia.odc.create_review_task"; input = none }

abbrev abandoned_row : StepRun
abandoned_row = first_attempt 1 1 unsafe_step 1000 7

abbrev running_run : Run
running_run = record {
  organization_id = 2;
  automation_id = 3;
  trigger_type = TriggerKind.manual;
  source_event_id = none;
  dedup_key = "automation:3:manual:900";
  triggered_by = some 9;
  requires_approval = true;
  status = RunStatus.running;
  approval_status = none;
  approved_by = none;
  approval_reason = none;
  approved_at = none;
  started_at = some 900;
  finished_at = none;
  error_message = none;
  context = none;
  planned_steps = unsafe_step ∷ [];
}

abbrev no_rows : {Row : Type 0} → ℕ → Option Row
no_rows i = none

abbrev world : World (memory StepRun) (memory Run)
world = record {
  steps = (6, set_row 5 abandoned_row no_rows);
  runs = (2, set_row 1 running_run no_rows);
  clock = 500000;
  tokens = 8;
  calls = [];
  last_runs = [];
}

abbrev outside : Outside (memory StepRun) (memory Run)
outside = record {
  execute = λ i run step w. (w, evidence "{}");
  redact = λ m. m;
  redact_evidence = λ m. m;
}

calls-retry_step_unsafe_example : (retry_step outside 5 500000 world).0.calls ≡ []
unfolding is_retry_safe first_attempt
calls-retry_step_unsafe_example =
    calls-retry_step_unsafe outside 5 500000 abandoned_row running_run unsafe_step refl world refl
      refl refl

abbrev waiting_run : Run
waiting_run = record running_run {
  status = RunStatus.waiting_approval;
  approval_status = some ApprovalStatus.pending;
  started_at = none;
}

abbrev waiting : World (memory StepRun) (memory Run)
waiting = record world { runs = (2, set_row 1 waiting_run no_rows) }

abbrev rejected_waiting : World (memory StepRun) (memory Run)
rejected_waiting = rejected outside 1 2 9 (some "no") waiting

rejection :
    ◌≡◌ {A = World (memory StepRun) (memory Run) × Result Run}
      (reject_run 2 9 1 (some "no") waiting)
      (rejected_waiting, returned (reject 9 (some "no") 500000 waiting_run))
unfolding reject_run get_run claim_rejection may_decide reject
rejection = refl

reject_run_final_example :
    ((reject 9 (some "no") 500000 waiting_run).status ≡ RunStatus.cancelled)
    × (rejected_waiting.calls ≡ [])
    × (claim_approval outside 2 4 1 none rejected_waiting ≡ (rejected_waiting, raised conflict))
reject_run_final_example =
    reject_run_final outside 1 2 9 4 (some "no") none waiting rejected_waiting
      (reject 9 (some "no") 500000 waiting_run) rejection
