-- ===== src/Automations/Engine/Run.antt =====
-- `executeSteps` and `runStepsFrom` of src/ops-automation/automations.service.ts.
use Prim.Native.String
use robia_back.Prelude.{
  ℕ, zero, suc, ◌+◌, ltb, leb, String, not, ◌||◌, none, some, List, [], ◌∷◌, length, if◌then◌else◌,
}
use robia_back.Store.{Table}
use robia_back.Automations.Rows.{Run, RunStatus, StepRun, StoredStep}
use robia_back.Automations.Policy.{step_retry_backoff_ms, max_step_attempts}
use robia_back.Automations.Actions.{is_allowed, is_retry_safe}
use robia_back.Automations.Claims.{success, failure, retry_at, first_attempt, not_allowed_attempt}
use robia_back.Automations.Engine.World.{
  Outside, M, ◌>>=◌, raise, new_date, random_uuid, create_step, commit_step_attempt, attempt_step,
  refetch_run, finish_run, Attempt, done, failed, invalid_date,
}

abbrev pub max_steps_per_automation : ℕ
max_steps_per_automation = 20

abbrev pub not_allowed_message : String → String
not_allowed_message action_type =
    String.◌++◌ "Action type \"" (String.◌++◌ action_type "\" is not in the Ops action allowlist.")

abbrev pub too_many_steps_message : String
too_many_steps_message = "Automation exceeds the maximum of 20 steps."

-- `array.slice(start)`, the steps that are left to run.
abbrev pub from_index {ℓ} : {A : Type ℓ} → ℕ → List A → List A
from_index zero xs = xs
from_index (suc n) [] = []
from_index (suc n) (x ∷ xs) = from_index n xs

module _ {S : Table StepRun} {R : Table Run} (out : Outside S R) where
  -- What a first attempt's result means for the run; `rest` runs the steps that follow.
  unfoldable pub settle_first : ℕ → StoredStep → ℕ → ℕ → Attempt → M S R Run → M S R Run
  settle_first run_id step step_run_id token (done e) rest = do
    now ← new_date
    owned ← commit_step_attempt step_run_id token (success e now)
    if owned then rest else refetch_run run_id
  settle_first run_id step step_run_id token (failed permanent m) rest =
      if permanent || not (is_retry_safe step.action_type) || leb max_step_attempts 1
      then (do
        now ← new_date
        owned ← commit_step_attempt step_run_id token (failure m now)
        if owned then finish_run run_id RunStatus.failed (some m) else refetch_run run_id)
      else (do
        now ← new_date
        elim (step_retry_backoff_ms 1) [
          | none ↦ raise invalid_date
          | some ms ↦ do
            owned ← commit_step_attempt step_run_id token (retry_at m (now + ms))
            refetch_run run_id
        ])

  -- The loop of `runStepsFrom` over the steps that are left; `index` counts from 0.
  unfoldable pub run_steps : ℕ → Run → List StoredStep → ℕ → M S R Run
  unfolding settle_first
  run_steps run_id run [] index = finish_run run_id RunStatus.succeeded none
  run_steps run_id run (step ∷ steps) index =
      let rest = run_steps run_id run steps (suc index) in
      if is_allowed step.action_type
      then (do
        token ← random_uuid
        now ← new_date
        i ← create_step (first_attempt run_id (suc index) step now token)
        result ← attempt_step out i run step
        settle_first run_id step i token result rest)
      else (do
        now ← new_date
        i ←
            create_step (
              not_allowed_attempt run_id (suc index) step now
                (not_allowed_message step.action_type))
        finish_run run_id RunStatus.failed (some (not_allowed_message step.action_type)))

  unfoldable pub run_steps_from : ℕ → Run → List StoredStep → ℕ → M S R Run
  unfolding run_steps
  run_steps_from run_id run steps start = run_steps run_id run (from_index start steps) start

  -- `readStoredSteps` has dropped what is no step.
  unfoldable pub execute_steps : ℕ → Run → M S R Run
  unfolding run_steps_from
  execute_steps run_id run =
      if ltb max_steps_per_automation (length run.planned_steps)
      then finish_run run_id RunStatus.failed (some too_many_steps_message)
      else run_steps_from run_id run run.planned_steps 0
