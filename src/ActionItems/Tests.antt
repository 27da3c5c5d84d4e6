-- ===== src/ActionItems/Tests.antt =====
-- Runs of src/action-items/action-execution.service.ts on one action.
use robia_back.Prelude.{◌≡◌, refl, true, false, none, some, List, [], ◌∷◌}
use robia_back.ActionItems.Execution.{
  Item, State, ok, draft, not_started, approved, succeeded, todo, ExecutionDto, Audits,
  record_execution, recorded, execution_event,
}
use robia_back.ActionItems.Approval.{
  IsExplained, nothing, Operation, perform_all, perform_all-IsExplained,
}
use robia_back.ActionItems.Idempotency.{record_execution-twice}

abbrev new_item : Item
new_item = record {
  status = todo;
  approval_status = draft;
  approval_reason = none;
  execution_status = not_started;
  evidence = none;
  verification_audit_id = none;
  attempt_count = 0;
  website_id = none;
}

abbrev new_state : State
new_state = record { item = new_item; events = []; next_uuid = 0 }

abbrev audits : Audits
audits = record { has_audit = λ id website. true }

abbrev proof : ExecutionDto
proof = record {
  idempotency_key = " call-0001 ";
  succeeds = true;
  evidence = ("url", "https://robia.example") ∷ [];
  note = none;
  verification_audit_id = some 4;
}

abbrev operations : List Operation
operations = Operation.submission 1 ∷ Operation.approval 2 ∷ Operation.execution 1 proof ∷ []

perform_all-IsExplained_example : IsExplained (perform_all audits operations new_state)
perform_all-IsExplained_example = perform_all-IsExplained audits operations new_state nothing

abbrev approved_state : State
approved_state = record new_state {
  item = record new_item { approval_status = approved; execution_status = succeeded };
}

abbrev ready_state : State
ready_state = record new_state { item = record new_item { approval_status = approved } }

recorded_once :
    record_execution audits 1 proof ready_state
    ≡ ok true (some (execution_event 1 proof)) (recorded 1 proof ready_state)
unfolding record_execution
recorded_once = refl

record_execution-twice_example :
    ((recorded 1 proof ready_state).events ≡ execution_event 1 proof ∷ [])
    × (some (execution_event 1 proof) ≡ some (execution_event 1 proof))
    × (record_execution audits 2 proof (recorded 1 proof ready_state)
        ≡ ok false (some (execution_event 1 proof)) (recorded 1 proof ready_state))
record_execution-twice_example =
    record_execution-twice audits 1 2 proof proof ready_state (recorded 1 proof ready_state)
      (some (execution_event 1 proof)) recorded_once refl
