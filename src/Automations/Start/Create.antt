-- ===== src/Automations/Start/Create.antt =====
-- `startRun` and `persistRun` of src/ops-automation/automations.service.ts over the tables of the
-- engine. The queries of `AutomationContextService.build` are a parameter: while they run, other
-- requests may write what they like.
use robia_back.Prelude.{
  ℕ, ltb, String, Bool, true, not, Option, none, some, List, ◌∷◌, [], length, if◌then◌else◌,
}
use robia_back.Store.{Table}
use robia_back.Conditions.Tree.{Numbers, Node, Context}
use robia_back.Conditions.Evaluate.{value, type_error, evaluate_conditions}
use robia_back.Automations.Rows.{Run, RunStatus, StepRun, StoredStep, ApprovalStatus, TriggerKind}
use robia_back.Automations.Inputs.Json.{Json, Fields}
use robia_back.Automations.Inputs.Canonical.{accepted, refused, message_of}
use robia_back.Automations.Inputs.Planning.{read_stored_steps, plan_steps}
use robia_back.Automations.Engine.World.{
  World, Outside, M, ◌>>=◌, returned, raised, conflict, loop_detected, too_many_steps,
  broken_condition,
}
use robia_back.Automations.Engine.Run.{execute_steps, max_steps_per_automation}
use robia_back.Automations.Start.Index.{RunIndex}

abbrev pub max_trigger_depth : ℕ
max_trigger_depth = 3

-- The columns of `Automation` that a start reads.
pub record Automation (Num : Type 0) : Type 0 where
  pub id : ℕ
  pub organization_id : ℕ
  pub enabled : Bool
  pub requires_approval : Bool
  pub conditions : Option (Node Num)
  pub steps : Json

-- `StartRunOptions`
pub record StartRunOptions : Type 0 where
  pub trigger_type : TriggerKind
  pub dedup_key : String
  pub triggered_by : Option ℕ
  pub source_event_id : Option ℕ
  pub trigger_depth : ℕ

pub record Surroundings (Num : Type 0) (S : Table StepRun) (R : Table Run) : Type 0 where
  -- the payload of `automationEvent.findUnique`, `none` where there is none
  pub payload_of : ℕ → Option Fields
  -- `AutomationContextService.build`
  pub build : ℕ → World S R → World S R × Context Num
  -- the text of the redacted context
  pub print_context : Context Num → String

module _ {Num : Type 0} {S : Table StepRun} {R : Table Run} (num : Numbers Num) (index : RunIndex R)
    (out : Outside S R) (around : Surroundings Num S R) where
  -- `findUnique` on the key, with the row.
  unfoldable pub run_of_key : ℕ → String → R.Db → Option (ℕ × Run)
  run_of_key organization_id key d = elim (index.by_key organization_id key d) [
    | none ↦ none
    | some i ↦ elim (R.find i d) [ none ↦ none | some r ↦ some (i, r) ]
  ]

  -- The row of `persistRun`, before the columns that its caller adds.
  unfoldable pub new_run : Automation Num → StartRunOptions → Run
  new_run automation opts = record {
    organization_id = automation.organization_id;
    automation_id = automation.id;
    trigger_type = opts.trigger_type;
    source_event_id = opts.source_event_id;
    dedup_key = opts.dedup_key;
    triggered_by = opts.triggered_by;
    requires_approval = automation.requires_approval;
    status = RunStatus.queued;
    approval_status = none;
    approved_by = none;
    approval_reason = none;
    approved_at = none;
    started_at = none;
    finished_at = none;
    error_message = none;
    context = none;
    planned_steps = [];
  }

  unfoldable pub persist_run : Run → M S R (ℕ × Run)
  unfolding run_of_key
  persist_run row w = elim (R.create row w.runs) [
    | some (i, d) ↦ (record w { runs = d }, returned (i, row))
    | none ↦ elim (run_of_key row.organization_id row.dedup_key w.runs) [
      | some raced ↦ (w, returned raced)
      | none ↦ (w, raised conflict)
    ]
  ]

  abbrev pub row_of : ℕ × Run → M S R Run
  row_of p w = (w, returned p.1)

  unfoldable pub skipped_run : ℕ → Run → Run
  skipped_run now r = record r {
    status = RunStatus.skipped;
    started_at = some now;
    finished_at = some now;
  }

  unfoldable pub planned_run : List StoredStep → String → Run → Run
  planned_run plan context r = record r { context = some context; planned_steps = plan }

  unfoldable pub waiting_run : Run → Run
  waiting_run r = record r {
    status = RunStatus.waiting_approval;
    requires_approval = true;
    approval_status = some ApprovalStatus.pending;
  }

  unfoldable pub running_run : ℕ → Run → Run
  running_run now r = record r { status = RunStatus.running; started_at = some now }

  -- After the conditions: skip, wait for approval, or execute.
  unfoldable pub conclude : Automation Num → Run → Bool → M S R Run
  unfolding persist_run skipped_run waiting_run running_run
  conclude automation row passed w =
      if not passed
      then (persist_run (skipped_run w.clock row) >>= row_of) w
      else if automation.requires_approval
      then (persist_run (waiting_run row) >>= row_of) w
      else (persist_run (running_run w.clock row) >>= (λ p. execute_steps out p.0 p.1)) w

  abbrev pub touch : ℕ → World S R → World S R
  touch automation_id w = record w { last_runs = (automation_id, w.clock) ∷ w.last_runs }

  -- The context, the conditions, and `lastRunAt`.
  unfoldable pub evaluate_start : Automation Num → StartRunOptions → List StoredStep → M S R Run
  unfolding conclude planned_run new_run
  evaluate_start automation opts plan w =
      let (w', context) = around.build automation.organization_id w in
      elim (evaluate_conditions num automation.conditions context) [
        | type_error ↦ (w', raised broken_condition)
        | value passed ↦
            conclude automation
              (planned_run plan (around.print_context context) (new_run automation opts)) passed
              (touch automation.id w')
      ]

  abbrev pub event_payload : Option ℕ → Option Fields
  event_payload none = none
  event_payload (some id) = around.payload_of id

  unfoldable pub failed_run : ℕ → String → Run → Run
  failed_run now message r = record r {
    status = RunStatus.failed;
    error_message = some message;
    started_at = some now;
    finished_at = some now;
  }

  -- The plan of the run, frozen now.
  unfoldable pub plan_start : Automation Num → StartRunOptions → M S R Run
  unfolding evaluate_start failed_run
  plan_start automation opts w =
      let steps = read_stored_steps automation.steps in
      if ltb max_steps_per_automation (length steps)
      then (w, raised too_many_steps)
      else elim (plan_steps (event_payload opts.source_event_id) steps) [
        | refused e ↦
            (persist_run (failed_run w.clock (out.redact (message_of e)) (new_run automation opts))
                >>= row_of)
              w
        | accepted plan ↦ evaluate_start automation opts plan w
      ]

  unfoldable pub disabled_run : ℕ → Run → Run
  unfolding skipped_run
  disabled_run now r =
      let s = skipped_run now r in record s { error_message = some "Automation is disabled." }

  unfoldable pub start_new : Automation Num → StartRunOptions → M S R Run
  unfolding plan_start disabled_run
  start_new automation opts w =
      if not automation.enabled
      then (persist_run (disabled_run w.clock (new_run automation opts)) >>= row_of) w
      else elim (index.active automation.id w.runs) [
        | some _ ↦ (w, raised conflict)
        | none ↦ plan_start automation opts w
      ]

  unfoldable pub start_run : Automation Num → StartRunOptions → M S R Run
  unfolding start_new
  start_run automation opts w =
      if ltb max_trigger_depth opts.trigger_depth
      then (w, raised loop_detected)
      else elim (run_of_key automation.organization_id opts.dedup_key w.runs) [
        | some p ↦ (w, returned p.1)
        | none ↦ start_new automation opts w
      ]
