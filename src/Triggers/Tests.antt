-- ===== src/Triggers/Tests.antt =====
-- Runs of the validation of triggers in src/ops-automation/automations.service.ts.
use robia_back.Prelude.{refl, none, some, str_eq, if◌then◌else◌}
use robia_back.Triggers.Trigger.{Trigger, scheduled, Occurrence, validate_trigger, written_trigger}
use robia_back.Triggers.Coherence.{IsCoherent, written_trigger-IsCoherent}

-- Occurrences in UTC only.
abbrev utc_only : Occurrence
utc_only cron place = if str_eq place "UTC" then some 3600000 else none

abbrev hourly : Trigger
hourly = record {
  type = scheduled;
  cron_expression = some "0 * * * *";
  event_type = none;
  timezone = none;
}

abbrev abroad : Trigger
abroad = record hourly { timezone = some "Mars/Olympus" }

written_trigger-IsCoherent_example : IsCoherent (written_trigger hourly (some abroad))
unfolding validate_trigger
written_trigger-IsCoherent_example = written_trigger-IsCoherent utc_only hourly (some abroad) refl
