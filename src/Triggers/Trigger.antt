-- ===== src/Triggers/Trigger.antt =====
-- `validateTrigger`, `resolveTriggerTimezone` and `resolveNextRunAt` of
-- src/ops-automation/automations.service.ts, and the trigger that `update` writes.
use robia_back.Prelude.{
  ℕ, String, Bool, true, false, not, ◌||◌, ◌&&◌, Option, none, some, str_eq, if◌then◌else◌,
}

pub data TriggerType : Type 0 where
  manual scheduled event : TriggerType

-- `AutomationTriggerDto`, and the row of a trigger.
pub record Trigger : Type 0 where
  pub type : TriggerType
  pub cron_expression : Option String
  pub event_type : Option String
  pub timezone : Option String

pub data Verdict : Type 0 where
  valid invalid : Verdict

-- A text is truthy unless it is empty.
abbrev pub is_truthy : Option String → Bool
is_truthy none = false
is_truthy (some s) = not (str_eq s "")

abbrev pub or_else : Option String → String → String
or_else none d = d
or_else (some s) d = s

abbrev pub is_scheduled : TriggerType → Bool
is_scheduled scheduled = true
is_scheduled _ = false

-- `computeNextOccurrence` at the current instant: `none` where it throws. It is cron-parser's.
abbrev pub Occurrence : Type 0
Occurrence = String → String → Option ℕ

abbrev pub occurs : Option ℕ → Verdict
occurs none = invalid
occurs (some t) = valid

unfoldable pub validate_trigger : Occurrence → Trigger → Verdict
validate_trigger next t = elim t.type [
  | scheduled ↦
      if not (is_truthy t.cron_expression)
      then invalid
      else if is_truthy t.event_type
      then invalid
      else occurs (next (or_else t.cron_expression "") (or_else t.timezone "UTC"))
  | event ↦
      if not (is_truthy t.event_type)
      then invalid
      else if is_truthy t.cron_expression
      then invalid
      else if is_truthy t.timezone
      then invalid
      else valid
  | manual ↦
      if is_truthy t.cron_expression
      then invalid
      else if is_truthy t.timezone
      then invalid
      else if is_truthy t.event_type
      then invalid
      else valid
]

-- The stored trigger of the automation, if there is one, follows what is asked for.
unfoldable pub resolve_trigger_timezone :
    TriggerType → Option String → Option Trigger → Option String
resolve_trigger_timezone type requested existing =
    if not (is_scheduled type)
    then none
    else if is_truthy requested
    then requested
    else elim existing [
      | none ↦ some "UTC"
      | some e ↦ if is_scheduled e.type && is_truthy e.timezone then e.timezone else some "UTC"
    ]

unfoldable pub resolve_next_run_at :
    Occurrence → Bool → TriggerType → Option String → String → Option ℕ
resolve_next_run_at next enabled type cron timezone =
    if not enabled || not (is_scheduled type) || not (is_truthy cron)
    then none
    else next (or_else cron "") timezone

-- The row that `update` writes for a trigger that is asked for.
unfoldable pub written_trigger : Trigger → Option Trigger → Trigger
unfolding resolve_trigger_timezone
written_trigger t existing = record {
  type = t.type;
  cron_expression = t.cron_expression;
  event_type = t.event_type;
  timezone = resolve_trigger_timezone t.type t.timezone existing;
}

-- `dto.trigger.cronExpression ?? existing.trigger?.cronExpression ?? null`
abbrev pub effective_cron : Trigger → Option Trigger → Option String
effective_cron t none = t.cron_expression
effective_cron t (some e) = elim t.cron_expression [ none ↦ e.cron_expression | some c ↦ some c ]

-- The instant of the next run that `update` writes with it.
unfoldable pub written_next_run_at : Occurrence → Bool → Trigger → Option Trigger → Option ℕ
unfolding resolve_next_run_at resolve_trigger_timezone
written_next_run_at next enabled t existing =
    resolve_next_run_at next enabled t.type (effective_cron t existing)
      (or_else (resolve_trigger_timezone t.type t.timezone existing) "UTC")
