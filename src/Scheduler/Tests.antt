-- ===== src/Scheduler/Tests.antt =====
-- Runs of src/ops-automation/automation-scheduler.service.ts: a pool of two loops over four items,
-- of which the second is done first, and an instance that starts one automation.
use robia_back.Prelude.{
  ℕ, suc, ◌≤◌, ◌<◌, ◌≡◌, ◌⊎◌, refl, true, false, none, some, List, [], ◌∷◌, length, arith,
}
use robia_back.Triggers.Trigger.{TriggerType}
use robia_back.Scheduler.Claims.{
  Row, is_selected, is_processable, may_claim, claim, is_still_claimed, may_advance, advance,
}
use robia_back.Scheduler.Instances.{
  System, idle, claimed, checked, triggered, set_phase, Reach, here, next, claims, checks, triggers,
  advances, fresh,
}
use robia_back.Scheduler.Occurrences.{IsRun, occurrence_kept}
use robia_back.Scheduler.Pool.{Pool, start, launch, take_next, run, complete, pick}
use robia_back.Scheduler.Completion.{count, run_ends}

abbrev order : List ℕ
order = 0 ∷ 1 ∷ []

abbrev later : Pool
later = run 4 order (start 4 2)

later_lem : later ≡ record { cursor = 4; in_flight = 3 ∷ 2 ∷ []; finished = 0 ∷ 1 ∷ [] }
unfolding run complete pick start launch take_next
later_lem = refl

run_ends_example :
    (length later.in_flight ≤ 2)
    × ((k : ℕ)
        → k < length later.in_flight
        → length (complete 4 k later).finished ≡ suc (length later.finished))
    × (length later.finished ≤ 4)
    × (length later.finished < 4 → 0 < length later.in_flight)
    × (later.in_flight ≡ [] → (i : ℕ) → i < 4 → count i later.finished ≡ 1)
run_ends_example = run_ends 4 2 order (omega arith)

abbrev daily : Row
daily = record {
  enabled = true;
  trigger = some (record {
    type = TriggerType.scheduled;
    cron_expression = some "0 8 * * *";
    event_type = none;
    timezone = some "UTC";
  });
  next_run_at = some 100;
  scheduled_claimed_at = none;
}

abbrev claimed_row : Row
claimed_row = record daily { scheduled_claimed_at = some 130 }

abbrev after_run : System
after_run = record {
  row = record daily { next_run_at = some 200 };
  calls = set_phase 0 idle (
      set_phase 0 (triggered 100 130)
        (set_phase 0 (checked 100 130) (set_phase 0 (claimed 100 130) (λ i. idle))));
  runs = 100 ∷ [];
}

processed : Reach false (fresh daily) after_run
unfolding is_selected is_processable may_claim claim is_still_claimed may_advance advance
processed =
    next
      (next
        (next (next here (claims 0 100 130 70 daily refl refl refl)) (checks 0 100 130 refl refl))
        (triggers 0 100 130 refl))
      (advances 0 100 130 200 refl)

occurrence_kept_example : (after_run.row.next_run_at ≡ some 100) ⊎ IsRun 100 after_run
occurrence_kept_example = occurrence_kept daily (fresh daily) after_run 100 here refl processed
