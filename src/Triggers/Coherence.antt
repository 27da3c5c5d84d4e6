-- ===== src/Triggers/Coherence.antt =====
-- What the validation of a trigger guarantees of the rows written in
-- src/ops-automation/automations.service.ts.
use robia_back.Prelude.{
  ℕ, ◌≡◌, ◌≢◌, ◌⊎◌, inl, inr, refl, String, Bool, true, false, Option, none, some, arith,
}
use robia_back.Triggers.Trigger.{
  TriggerType, manual, scheduled, event, Trigger, valid, is_truthy, or_else, is_scheduled,
  Occurrence, validate_trigger, written_trigger, written_next_run_at,
}

abbrev pub waits : TriggerType → Bool
waits event = true
waits _ = false

-- A trigger has a schedule and a timezone exactly if it is scheduled, and an event exactly if it
-- waits for one.
abbrev pub IsCoherent : Trigger → Type 0
IsCoherent t =
    (is_truthy t.cron_expression ≡ is_scheduled t.type)
    × (is_truthy t.timezone ≡ is_scheduled t.type)
    × ((is_scheduled t.type ≡ false) → t.timezone ≡ none)
    × (is_truthy t.event_type ≡ waits t.type)

type_cases : (t : TriggerType) → (t ≡ manual) ⊎ (t ≡ scheduled) ⊎ (t ≡ event)
type_cases manual = inl refl
type_cases scheduled = inr (inl refl)
type_cases event = inr (inr refl)

-- A trigger that has been validated is coherent when it is written, whatever trigger it replaces.
pub written_trigger-IsCoherent :
    (next : Occurrence) (t : Trigger) (existing : Option Trigger)
    → validate_trigger next t ≡ valid
    → IsCoherent (written_trigger t existing)
unfolding validate_trigger written_trigger
written_trigger-IsCoherent next t existing h = elim (type_cases t.type) [
  | inl e ↦ ground arith
  | inr (inl e) ↦ ground arith
  | inr (inr e) ↦ ground arith
]

named_timezone :
    (next : Occurrence) (type : TriggerType) (cron event_type place : Option String)
    (existing : Option Trigger)
    → (let t : Trigger = record {
      type = type;
      cron_expression = cron;
      event_type = event_type;
      timezone = place;
    } in
        validate_trigger next t ≡ valid
        → type ≡ scheduled
        → (is_truthy place ≡ true) ⊎ ((place ≡ none) × (existing ≡ none))
        → (written_next_run_at next true t existing ≡ next (or_else cron "") (or_else place "UTC"))
          × (written_next_run_at next true t existing ≢ none))
unfolding validate_trigger written_next_run_at
named_timezone next scheduled none event_type place existing h e c = cc
named_timezone next scheduled (some s) event_type none existing h e (inl c) = cc
named_timezone next scheduled (some s) event_type none existing h e (inr c) = ground arith
named_timezone next scheduled (some s) event_type (some z) none h e c = ground arith
named_timezone next scheduled (some s) event_type (some z) (some x) h e c = ground arith
named_timezone next manual cron event_type place existing h e c = cc
named_timezone next event cron event_type place existing h e c = cc

-- A validated scheduled trigger that names its timezone, or names none and replaces no trigger, has
-- a next run if the automation is enabled: the occurrence that its validation computed.
written_next_run_at_lem :
    (next : Occurrence) (t : Trigger)
    → validate_trigger next t ≡ valid
    → t.type ≡ scheduled
    → (existing : Option Trigger)
    → (is_truthy t.timezone ≡ true) ⊎ ((t.timezone ≡ none) × (existing ≡ none))
    → (written_next_run_at next true t existing
        ≡ next (or_else t.cron_expression "") (or_else t.timezone "UTC"))
      × (written_next_run_at next true t existing ≢ none)
unfolding validate_trigger written_next_run_at
written_next_run_at_lem next t h e existing c =
    named_timezone next t.type t.cron_expression t.event_type t.timezone existing h e c

-- A scheduled trigger without a timezone is validated in UTC and written with the timezone of the
-- scheduled trigger that it replaces: where no occurrence can be computed in that timezone, it is
-- valid, and the automation has no next run.
validated_without_next_run :
    (next : Occurrence) (cron place : String) (at : ℕ) (existing : Trigger)
    → is_truthy (some cron) ≡ true
    → is_truthy (some place) ≡ true
    → existing.type ≡ scheduled
    → existing.timezone ≡ some place
    → next cron "UTC" ≡ some at
    → next cron place ≡ none
    → let t : Trigger = record {
      type = scheduled;
      cron_expression = some cron;
      event_type = none;
      timezone = none;
    } in
      (validate_trigger next t ≡ valid) × (written_next_run_at next true t (some existing) ≡ none)
unfolding validate_trigger written_next_run_at
validated_without_next_run next cron place at existing c z s y u v = ground arith
