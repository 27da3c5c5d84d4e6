-- ===== src/Automations/Rows.antt =====
-- The rows of `automation_step_runs` and `automation_runs` (prisma/schema.prisma).
use robia_back.Prelude.{ℕ, String, Bool, true, false, Option, List}
use robia_back.Automations.Inputs.Json.{Input}

-- `AutomationStepRun.status`
pub data StepStatus : Type 0 where
  queued running succeeded failed skipped cancelled retry_scheduled : StepStatus

-- `AutomationRun.status`
pub data RunStatus : Type 0 where
  queued running waiting_approval succeeded failed cancelled skipped : RunStatus

pub data ApprovalStatus : Type 0 where
  pending approved rejected : ApprovalStatus

-- `StoredAutomationStep`; an input is an object, or `undefined`.
pub record StoredStep : Type 0 where
  pub action_type : String
  pub input : Input

-- Instants are milliseconds, ids and claim tokens are numbers.
pub record StepRun : Type 0 where
  pub run_id : ℕ
  pub sequence : ℕ
  pub action_type : String
  pub input : Input
  pub status : StepStatus
  pub evidence : Option String
  pub error : Option String
  pub attempt_count : ℕ
  pub next_attempt_at : Option ℕ
  pub claimed_at : Option ℕ
  pub claim_token : Option ℕ
  pub started_at : Option ℕ
  pub finished_at : Option ℕ

-- `AutomationRun.triggerType`
pub data TriggerKind : Type 0 where
  manual scheduled event : TriggerKind

-- A context is kept as the text of its JSON.
pub record Run : Type 0 where
  pub organization_id : ℕ
  pub automation_id : ℕ
  pub trigger_type : TriggerKind
  pub source_event_id : Option ℕ
  pub dedup_key : String
  pub triggered_by : Option ℕ
  pub requires_approval : Bool
  pub status : RunStatus
  pub approval_status : Option ApprovalStatus
  pub approved_by : Option ℕ
  pub approval_reason : Option String
  pub approved_at : Option ℕ
  pub started_at : Option ℕ
  pub finished_at : Option ℕ
  pub error_message : Option String
  pub context : Option String
  pub planned_steps : List StoredStep

abbrev pub is_step_running : StepStatus → Bool
is_step_running running = true
is_step_running _ = false

abbrev pub is_retry_scheduled : StepStatus → Bool
is_retry_scheduled retry_scheduled = true
is_retry_scheduled _ = false

abbrev pub is_waiting_approval : RunStatus → Bool
is_waiting_approval waiting_approval = true
is_waiting_approval _ = false

abbrev pub is_pending : Option ApprovalStatus → Bool
is_pending (Option.some pending) = true
is_pending _ = false
