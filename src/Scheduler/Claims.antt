-- ===== src/Scheduler/Claims.antt =====
-- The conditional updates of src/ops-automation/automation-scheduler.service.ts on one automation:
-- the claim of a due occurrence, the checks of the row that is read again, the release, the
-- advance, and the first occurrence of an automation that has none.
use robia_back.Prelude.{
  ℕ, Bool, true, false, not, ◌&&◌, ◌||◌, Option, none, some, ltb, leb, ◌==◌, if◌then◌else◌,
}
use robia_back.Triggers.Trigger.{Trigger, is_scheduled, is_truthy}

-- The columns of `Automation` that the scheduler reads and writes.
pub record Row : Type 0 where
  pub enabled : Bool
  pub trigger : Option Trigger
  pub next_run_at : Option ℕ
  pub scheduled_claimed_at : Option ℕ

abbrev pub is_at : ℕ → Option ℕ → Bool
is_at s none = false
is_at s (some t) = t == s

-- `scheduledClaimedAt: null`, or before the threshold.
abbrev pub is_free : ℕ → Option ℕ → Bool
is_free stale none = true
is_free stale (some t) = ltb t stale

abbrev pub is_due : ℕ → Option ℕ → Bool
is_due now none = false
is_due now (some t) = leb t now

-- `trigger.type === 'scheduled'`, with a cron expression where the flag asks for it.
abbrev pub has_schedule : Bool → Option Trigger → Bool
has_schedule with_cron none = false
has_schedule with_cron (some t) =
    is_scheduled t.type && (not with_cron || is_truthy t.cron_expression)

-- The query of the due automations.
unfoldable pub is_selected : ℕ → ℕ → Row → Bool
is_selected now stale r =
    r.enabled
    && is_due now r.next_run_at
    && has_schedule false r.trigger
    && is_free stale r.scheduled_claimed_at

-- The checks of what the query returned, before the claim.
unfoldable pub is_processable : ℕ → Row → Bool
is_processable scheduled_for r = has_schedule true r.trigger && is_at scheduled_for r.next_run_at

-- The claim.
unfoldable pub may_claim : ℕ → ℕ → Row → Bool
may_claim scheduled_for stale r =
    is_at scheduled_for r.next_run_at && r.enabled && is_free stale r.scheduled_claimed_at

unfoldable pub claim : ℕ → Row → Row
claim now r = record r { scheduled_claimed_at = some now }

-- The checks of the row that is read again.
unfoldable pub is_still_claimed : ℕ → ℕ → Row → Bool
is_still_claimed scheduled_for now r =
    r.enabled
    && has_schedule true r.trigger
    && is_at scheduled_for r.next_run_at
    && is_at now r.scheduled_claimed_at

-- The release where they fail.
unfoldable pub release : ℕ → Row → Row
release now r =
    if is_at now r.scheduled_claimed_at then record r { scheduled_claimed_at = none } else r

-- The advance after the run.
unfoldable pub may_advance : ℕ → ℕ → Row → Bool
may_advance scheduled_for now r =
    is_at scheduled_for r.next_run_at && is_at now r.scheduled_claimed_at

unfoldable pub advance : ℕ → ℕ → ℕ → Row → Row
unfolding may_advance
advance scheduled_for now following r =
    if may_advance scheduled_for now r
    then record r { next_run_at = some following; scheduled_claimed_at = none }
    else r

-- `reconcileMissingNextRunAt`
unfoldable pub is_orphaned : Row → Bool
is_orphaned r =
    r.enabled && has_schedule false r.trigger && elim r.next_run_at [ none ↦ true | some _ ↦ false ]

unfoldable pub initialize : ℕ → Row → Row
initialize next r = elim r.next_run_at [ none ↦ record r { next_run_at = some next } | some _ ↦ r ]
