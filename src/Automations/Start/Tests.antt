-- ===== src/Automations/Start/Tests.antt =====
-- Starts of src/ops-automation/automations.service.ts on tables in memory.
use robia_back.Prelude.{
  ℕ, ◌≤◌, ◌≡◌, ◌⊎◌, refl, true, false, Option, none, some, [], ◌∷◌, All, map, arith, length,
  is_blank,
}
use robia_back.Store.Memory.{memory, set_row}
use robia_back.Conditions.Evaluate.{value, evaluate_conditions}
use robia_back.Conditions.Tests.{naturals, context}
use robia_back.Automations.Rows.{StepRun, Run, RunStatus, StoredStep, ApprovalStatus, TriggerKind}
use robia_back.Automations.Actions.{get_action}
use robia_back.Automations.Inputs.Json.{
  Json, text, array, object, no_items, item, Fields, no_fields, field, get_field, put_field,
}
use robia_back.Automations.Inputs.Canonical.{
  accepted, canonicalize_input, canonicalize_with, require_all, require_string_input, copy_all,
  copy_optional, copy_objects,
}
use robia_back.Automations.Inputs.Templating.{
  resolve_step_input, resolve_entries, resolve_value, resolve_leaf, placeholder, payload_value,
  strip, word_end, is_word,
}
use robia_back.Automations.Inputs.Planning.{read_stored_steps, plan_steps, plan_step, IsReady}
use robia_back.Automations.Engine.World.{World, Outside, returned, evidence}
use robia_back.Automations.Engine.Run.{execute_steps}
use robia_back.Automations.Start.Memory.{
  unique_memory, memory_index, Runs, key_index, active_index, scan,
}
use robia_back.Automations.Start.Create
use robia_back.Automations.Start.Create.{
  Automation, StartRunOptions, Surroundings, max_trigger_depth,
}
use robia_back.Automations.Start.Guards.{IsPermitted, start_run-IsPermitted}
use robia_back.Automations.Start.Replays.{start_run_replayed}
use robia_back.Automations.Start.Races.{permitted_row, start_run-execute_steps}

abbrev regenerate : Json
regenerate = object (
    field "actionType" (text "robia.opportunities.regenerate")
      (field "input" (object (field "auditId" (text "{{event.auditId}}") no_fields)) no_fields))

abbrev automation : Automation ℕ
automation = record {
  id = 3;
  organization_id = 2;
  enabled = true;
  requires_approval = false;
  conditions = none;
  steps = array (item regenerate no_items);
}

abbrev opts : StartRunOptions
opts = record {
  trigger_type = TriggerKind.event;
  dedup_key = "automation:3:event:5";
  triggered_by = none;
  source_event_id = some 5;
  trigger_depth = 0;
}

abbrev no_rows : {Row : Type 0} → ℕ → Option Row
no_rows i = none

abbrev world : World (memory StepRun) unique_memory
world = record {
  steps = (1, no_rows);
  runs = (1, no_rows);
  clock = 1000;
  tokens = 1;
  calls = [];
  last_runs = [];
}

abbrev outside : Outside (memory StepRun) unique_memory
outside = record {
  execute = λ i run step w. (w, evidence "{}");
  redact = λ m. m;
  redact_evidence = λ m. m;
}

abbrev payload : ℕ → Option Fields
payload _ = some (field "auditId" (text "audit-1") no_fields)

abbrev calm : Surroundings ℕ (memory StepRun) unique_memory
calm = record { payload_of = payload; build = λ o w. (w, context); print_context = λ c. "{}" }

abbrev planned_step : StoredStep
planned_step = record {
  action_type = "robia.opportunities.regenerate";
  input = some (field "auditId" (text "audit-1") no_fields);
}

-- The run of the same event, from a request that read the automation before its owner took the
-- approval away.
abbrev other_run : Run
other_run = record {
  organization_id = 2;
  automation_id = 3;
  trigger_type = TriggerKind.event;
  source_event_id = some 5;
  dedup_key = "automation:3:event:5";
  triggered_by = none;
  requires_approval = true;
  status = RunStatus.waiting_approval;
  approval_status = some ApprovalStatus.pending;
  approved_by = none;
  approval_reason = none;
  approved_at = none;
  started_at = none;
  finished_at = none;
  error_message = none;
  context = some "{}";
  planned_steps = planned_step ∷ [];
}

abbrev raced_runs : Runs
raced_runs = (2, set_row 1 other_run no_rows)

abbrev racing : Surroundings ℕ (memory StepRun) unique_memory
racing = record calm { build = λ o w. (record w { runs = raced_runs }, context) }

fresh_calm :
    Create.run_of_key naturals memory_index outside calm 2 "automation:3:event:5" (1, no_rows)
    ≡ none
unfolding Create.run_of_key key_index scan
fresh_calm = refl

idle_calm : active_index 3 (1, no_rows) ≡ none
unfolding active_index scan
idle_calm = refl

read_steps :
    read_stored_steps automation.steps
    ≡ record {
      action_type = "robia.opportunities.regenerate";
      input = some (field "auditId" (text "{{event.auditId}}") no_fields);
    }
      ∷ []
unfolding read_stored_steps get_field
read_steps = refl

few_steps : length (read_stored_steps automation.steps) ≤ 20
few_steps = rw read_steps (omega arith)

plan_of_steps :
    plan_steps (payload 5) (read_stored_steps automation.steps) ≡ accepted (planned_step ∷ [])
unfolding plan_steps plan_step canonicalize_input get_action canonicalize_with require_all
    require_string_input copy_all copy_optional copy_objects get_field put_field resolve_step_input
    resolve_value resolve_leaf resolve_entries placeholder payload_value read_stored_steps is_blank
    strip word_end is_word
plan_of_steps = refl

no_conditions : evaluate_conditions naturals none context ≡ value true
unfolding evaluate_conditions
no_conditions = refl

IsPermitted-calm : IsPermitted naturals memory_index outside calm automation opts world
IsPermitted-calm = record {
  shallow = omega arith;
  fresh = fresh_calm;
  enabled = refl;
  idle = idle_calm;
  few = few_steps;
  plan = planned_step ∷ [];
  planned = plan_of_steps;
  passed = no_conditions;
  unapproved = refl;
}

IsPermitted-racing : IsPermitted naturals memory_index outside racing automation opts world
unfolding Create.run_of_key
IsPermitted-racing = record {
  shallow = omega arith;
  fresh = fresh_calm;
  enabled = refl;
  idle = idle_calm;
  few = few_steps;
  plan = planned_step ∷ [];
  planned = plan_of_steps;
  passed = no_conditions;
  unapproved = refl;
}

start_run-IsPermitted_example :
    ((Create.start_run naturals memory_index outside calm automation opts world).0.calls ≡ [])
    ⊎ IsPermitted naturals memory_index outside calm automation opts world
start_run-IsPermitted_example =
    start_run-IsPermitted naturals memory_index outside calm automation opts world refl

abbrev new_row : Run
new_row = permitted_row naturals memory_index outside calm automation opts world IsPermitted-calm

start_run-execute_steps_example :
    (Create.start_run naturals memory_index outside calm automation opts world
      ≡ execute_steps outside 1 new_row
          (record world { runs = (2, set_row 1 new_row no_rows); last_runs = (3, 1000) ∷ [] }))
    × (new_row.status ≡ RunStatus.running)
    × All IsReady new_row.planned_steps
    × (map (λ s. s.action_type) new_row.planned_steps
        ≡ map (λ s. s.action_type) (read_stored_steps automation.steps))
    × (active_index 3 (1, no_rows) ≡ none)
unfolding Create.new_run Create.planned_run Create.running_run key_index active_index scan
start_run-execute_steps_example =
    start_run-execute_steps naturals memory_index outside calm automation opts world
      IsPermitted-calm 1 (2, set_row 1 new_row no_rows) refl

abbrev guarded : Automation ℕ
guarded = record automation { requires_approval = true }

abbrev waiting_world : World (memory StepRun) unique_memory
waiting_world = record world { runs = (2, set_row 1 other_run no_rows); last_runs = (3, 1000) ∷ [] }

waits :
    Create.start_run naturals memory_index outside calm guarded opts world
    ≡ (waiting_world, returned other_run)
unfolding Create.start_run Create.start_new Create.plan_start Create.evaluate_start Create.conclude
    Create.persist_run Create.waiting_run Create.planned_run Create.new_run Create.run_of_key
    key_index active_index scan evaluate_conditions plan_steps plan_step canonicalize_input
    get_action canonicalize_with require_all require_string_input copy_all copy_optional
    copy_objects get_field put_field resolve_step_input resolve_value resolve_leaf resolve_entries
    placeholder payload_value read_stored_steps is_blank strip word_end is_word
waits = refl

start_run_replayed_example :
    Create.start_run naturals memory_index outside calm automation opts waiting_world
    ≡ (waiting_world, returned other_run)
start_run_replayed_example =
    start_run_replayed naturals memory_index outside calm guarded automation opts opts world
      waiting_world other_run refl refl refl (omega arith) waits
